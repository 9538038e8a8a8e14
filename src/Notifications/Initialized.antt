-- ===== src/Notifications/Initialized.antt =====
-- That initializePreferences leaves a row for each channel of a configurable type
-- (packages/backend/src/notifications/notification-preferences.service.ts).
use Prim.Native.String.{String}
use backit_on_stellar.Prelude.{
  ◌≡◌, refl, ap, ◌∙◌, Bool, true, false, List, [], ◌∷◌, Option, none, some, if◌then◌else◌,
  Bool-cases, Option-cases, inl, inr,
}
use backit_on_stellar.Notifications.Preferences.{
  NotificationType, NotificationChannel, in_app, email, webhook, NotificationPreference,
  type_discrete, channel_discrete, is_yes, supported_types, channels, includes_type, is_supported,
  is_in_app, find_preference, default_preference, is_for, missing_channels, missing,
  initialize_preferences, enabled_or,
}
use backit_on_stellar.Notifications.Enabled.{
  is_yes_sound, is_yes_complete, for_parts, for_given, either, find-append, effective, IsDefault,
  missing_channels-IsDefault,
}

-- Something is found, with this value.
abbrev pub Has : Bool → Option NotificationPreference → Type 0
Has b none = ⊥
Has b (some p) = p.enabled ≡ b

either-Has_left : (b : Bool) (x y : Option NotificationPreference) → Has b x → Has b (either x y)
either-Has_left b none y h = elim h [ ]
either-Has_left b (some p) y h = h

either-Has_default :
    (c : NotificationChannel) (x y : Option NotificationPreference)
    → IsDefault c x
    → Has (is_in_app c) y
    → Has (is_in_app c) (either x y)
either-Has_default c none y e h = h
either-Has_default c (some p) y e h = e

has_channel : List NotificationChannel → NotificationChannel → Bool
has_channel [] c = false
has_channel (d ∷ ds) c = if is_yes (channel_discrete d c) then true else has_channel ds c

every_channel : (c : NotificationChannel) → has_channel channels c ≡ true
unfolding has_channel is_yes channel_discrete
every_channel in_app = refl
every_channel email = refl
every_channel webhook = refl

module _ (user : String) (t : NotificationType) (c : NotificationChannel) where
  -- The rows that an initialization adds for a type have one for each channel, unless it is there.
  module _ (rows : List NotificationPreference)
      (absent : find_preference rows user t c ≡ none) where
    missing_channels-Has :
        (cs : List NotificationChannel)
        → has_channel cs c ≡ true
        → Has (is_in_app c) (find_preference (missing_channels rows user t cs) user t c)
    unfolding missing_channels find_preference has_channel
    missing_channels-Has [] h = cc
    missing_channels-Has (d ∷ ds) h = elim (Bool-cases (is_yes (channel_discrete d c))) [
      | inl e ↦
          let same : d ≡ c = is_yes_sound _ e in
          let gone : find_preference rows user t d ≡ none =
            ap (λ x. find_preference rows user t x) same ∙ absent in
          rw (gone, missing_channels)
            (rw (for_given user t c (default_preference user t d) refl refl same)
              (ap is_in_app same))
      | inr e ↦
          let rest = missing_channels-Has ds (rw e at h) in
          elim (Option-cases (find_preference rows user t d)) [
            | inl gone ↦
                rw (gone, missing_channels)
                  (elim (Bool-cases (is_for user t c (default_preference user t d))) [
                    | inl k ↦
                        let (x, y, same) = for_parts user t c (default_preference user t d) k in
                        let yes_same = is_yes_complete (channel_discrete d c) same in cc
                    | inr k ↦ rw k rest
                  ])
            | inr (p, there) ↦ rw (there, missing_channels) rest
          ]
    ]

    missing-Has :
        (ts : List NotificationType)
        → includes_type ts t ≡ true
        → Has (is_in_app c) (find_preference (missing rows user ts) user t c)
    unfolding missing find_preference
    missing-Has [] h = cc
    missing-Has (s ∷ ss) h =
        let first = missing_channels rows user s channels in
        rw (find-append first (missing rows user ss) user t c)
          (elim (Bool-cases (is_yes (type_discrete s t))) [
            | inl e ↦
                either-Has_left (is_in_app c) (find_preference first user t c) _
                  (rw (is_yes_sound _ e) (missing_channels-Has channels (every_channel c)))
            | inr e ↦
                either-Has_default c _ _ (missing_channels-IsDefault rows user user t c s channels)
                  (missing-Has ss (rw e at h))
          ])

  joined :
      (rows : List NotificationPreference) (found : Option NotificationPreference)
      → includes_type supported_types t ≡ true
      → find_preference rows user t c ≡ found
      → Has
          (enabled_or (is_in_app c) found)
          (either found (find_preference (missing rows user supported_types) user t c))
  joined rows none h e = missing-Has rows e supported_types h
  joined rows (some p) h e = refl

  -- After an initialization a row of a configurable type is there for each channel.
  pub initialize-Has :
      (rows : List NotificationPreference)
      → is_supported t ≡ true
      → Has (effective rows user t c) (find_preference (initialize_preferences rows user) user t c)
  unfolding initialize_preferences is_supported
  initialize-Has rows h =
      rw (find-append rows (missing rows user supported_types) user t c)
        (joined rows (find_preference rows user t c) h refl)
