-- ===== src/Notifications/Updates.antt =====
-- What updatePreferences does to later checks
-- (packages/backend/src/notifications/notification-preferences.service.ts).
use Prim.Native.String.{String}
use backit_on_stellar.Prelude.{
  ◌≡◌, ◌≢◌, refl, sym, ap, ◌∙◌, Bool, true, ◌&&◌, List, [], ◌∷◌, Option, none, some, if◌then◌else◌,
  Bool-cases, inl, inr,
}
use backit_on_stellar.Notifications.Preferences.{
  NotificationType, NotificationChannel, NotificationPreference, UpdatePreference, type_discrete,
  channel_discrete, is_yes, is_supported, is_in_app, is_for, find_preference,
  initialize_preferences, set_enabled, set_all, update_preferences, enabled_or, check_found,
  check_preference,
}
use backit_on_stellar.Notifications.Enabled.{
  is_yes_sound, is_yes_complete, and_parts, for_parts, for_given, effective, effective-initialize,
}
use backit_on_stellar.Notifications.Initialized.{Has, initialize-Has}

-- The update is of this type and channel.
unfoldable pub is_of : NotificationType → NotificationChannel → UpdatePreference → Bool
unfolding is_yes
is_of t c u = is_yes (type_discrete u.notification_type t) && is_yes (channel_discrete u.channel c)

-- The value after updates: that of the last one of this type and channel.
unfoldable pub updated :
    List UpdatePreference → NotificationType → NotificationChannel → Bool → Bool
unfolding is_of
updated [] t c b = b
updated (u ∷ us) t c b = updated us t c (if is_of t c u then u.enabled else b)

module _ (user : String) (t : NotificationType) (c : NotificationChannel) where
  of_parts :
      (u : UpdatePreference) → is_of t c u ≡ true → (u.notification_type ≡ t) × (u.channel ≡ c)
  unfolding is_of
  of_parts u h = let (a, b) = and_parts _ _ h in (is_yes_sound _ a, is_yes_sound _ b)

  of_given : (u : UpdatePreference) → u.notification_type ≡ t → u.channel ≡ c → is_of t c u ≡ true
  unfolding is_of
  of_given u a b =
      rw (is_yes_complete (type_discrete u.notification_type t) a)
        (is_yes_complete (channel_discrete u.channel c) b)

  -- An update of this type and channel is one of just the row that is found.
  of_same :
      (u : UpdatePreference) (p : NotificationPreference)
      → is_of t c u ≡ true
      → is_for user t c p ≡ true
      → is_for user u.notification_type u.channel p ≡ true
  of_same u p h k =
      let (a, b) = of_parts u h in
      let (x, y, z) = for_parts user t c p k in
      for_given user u.notification_type u.channel p x (y ∙ sym a) (z ∙ sym b)

  of_other :
      (u : UpdatePreference) (p : NotificationPreference)
      → is_for user u.notification_type u.channel p ≡ true
      → is_for user t c p ≡ true
      → is_of t c u ≡ true
  of_other u p h k =
      let (x, y, z) = for_parts user t c p k in
      let (x', y', z') = for_parts user u.notification_type u.channel p h in
      of_given u (sym y' ∙ y) (sym z' ∙ z)

  abbrev set_one : UpdatePreference → NotificationPreference → NotificationPreference
  set_one u p =
      if is_for user u.notification_type u.channel p then record p { enabled = u.enabled } else p

  set_one_for :
      (u : UpdatePreference) (p : NotificationPreference)
      → is_for user t c (set_one u p) ≡ is_for user t c p
  unfolding is_for
  set_one_for u p = elim (Bool-cases (is_for user u.notification_type u.channel p)) [
    | inl e ↦ rw e refl
    | inr e ↦ rw e refl
  ]

  set_one_enabled :
      (u : UpdatePreference) (p : NotificationPreference)
      → is_for user t c p ≡ true
      → (set_one u p).enabled ≡ (if is_of t c u then u.enabled else p.enabled)
  set_one_enabled u p h = elim (Bool-cases (is_of t c u)) [
    | inl e ↦ rw e (rw (of_same u p e h) refl)
    | inr e ↦ rw e (elim (Bool-cases (is_for user u.notification_type u.channel p)) [
      | inl k ↦ let same = of_other u p k h in cc
      | inr k ↦ rw k refl
    ])
  ]

  set_enabled-Has :
      (rows : List NotificationPreference) (u : UpdatePreference) (b : Bool)
      → Has b (find_preference rows user t c)
      → Has
          (if is_of t c u then u.enabled else b)
          (find_preference (set_enabled rows user u) user t c)
  unfolding find_preference set_enabled
  set_enabled-Has [] u b h = elim h [ ]
  set_enabled-Has (p ∷ ps) u b h = elim (Bool-cases (is_for user t c p)) [
    | inl e ↦
        let value : p.enabled ≡ b = rw e at h in
        rw (set_one_for u p)
          (rw e (set_one_enabled u p e ∙ ap (λ x. if is_of t c u then u.enabled else x) value))
    | inr e ↦ rw (set_one_for u p) (rw e (set_enabled-Has ps u b (rw e at h)))
  ]

  set_all-Has :
      (us : List UpdatePreference) (rows : List NotificationPreference) (b : Bool)
      → Has b (find_preference rows user t c)
      → Has (updated us t c b) (find_preference (set_all rows user us) user t c)
  unfolding set_all updated
  set_all-Has [] rows b h = h
  set_all-Has (u ∷ us) rows b h =
      set_all-Has us (set_enabled rows user u) (if is_of t c u then u.enabled else b)
        (set_enabled-Has rows u b h)

  found_value :
      (found : Option NotificationPreference) (rows : List NotificationPreference) (b : Bool)
      → Has b found
      → (check_found found rows user t c).0 ≡ b
  unfolding check_found
  found_value none rows b h = absurd h
  found_value (some p) rows b h = h

  Has-check :
      (rows : List NotificationPreference) (b : Bool)
      → is_supported t ≡ true
      → Has b (find_preference rows user t c)
      → (check_preference rows user t c).0 ≡ b
  unfolding check_preference
  Has-check rows b h k = rw h (found_value (find_preference rows user t c) rows b k)

  -- Rows of another user.
  module _ (other : String) (apart : other ≢ user) where
    foreign :
        (u : UpdatePreference) (p : NotificationPreference)
        → is_for other t c p ≡ true
        → set_one u p ≡ p
    foreign u p h = elim (Bool-cases (is_for user u.notification_type u.channel p)) [
      | inl e ↦
          let (x, y, z) = for_parts other t c p h in
          let (x', y', z') = for_parts user u.notification_type u.channel p e in
          absurd (apart (sym x ∙ x'))
      | inr e ↦ rw e refl
    ]

    foreign_for :
        (u : UpdatePreference) (p : NotificationPreference)
        → is_for other t c (set_one u p) ≡ is_for other t c p
    unfolding is_for
    foreign_for u p = elim (Bool-cases (is_for user u.notification_type u.channel p)) [
      | inl e ↦ rw e refl
      | inr e ↦ rw e refl
    ]

    find-set_enabled :
        (rows : List NotificationPreference) (u : UpdatePreference)
        → find_preference (set_enabled rows user u) other t c ≡ find_preference rows other t c
    unfolding find_preference set_enabled
    find-set_enabled [] u = refl
    find-set_enabled (p ∷ ps) u = elim (Bool-cases (is_for other t c p)) [
      | inl e ↦ rw (foreign_for u p) (rw e (ap some (foreign u p e)))
      | inr e ↦ rw (foreign_for u p) (rw e (find-set_enabled ps u))
    ]

    find-set_all :
        (us : List UpdatePreference) (rows : List NotificationPreference)
        → find_preference (set_all rows user us) other t c ≡ find_preference rows other t c
    unfolding set_all
    find-set_all [] rows = refl
    find-set_all (u ∷ us) rows = find-set_all us (set_enabled rows user u) ∙ find-set_enabled rows u

  -- After an update, a check of a configurable type gives what the last entry for this type and
  -- channel says, and without one what counted before. What counts for other users stays.
  pub update_then_check :
      (rows : List NotificationPreference) (us : List UpdatePreference)
      → is_supported t ≡ true
      → ((check_preference (update_preferences rows user us) user t c).0
          ≡ updated us t c (effective rows user t c))
        × ((other : String)
            → other ≢ user
            → effective (update_preferences rows user us) other t c ≡ effective rows other t c)
  unfolding update_preferences
  update_then_check rows us h = (
    Has-check _ _ h (set_all-Has us _ _ (initialize-Has user t c rows h)),
    λ other apart.
        ap (enabled_or (is_in_app c))
          (find-set_all other apart us (initialize_preferences rows user))
        ∙ effective-initialize rows user other t c,
  )
