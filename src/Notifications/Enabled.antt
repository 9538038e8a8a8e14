-- ===== src/Notifications/Enabled.antt =====
-- What a user's preferences come to, and what an update of them does
-- (packages/backend/src/notifications/notification-preferences.service.ts).
use Prim.Native.String.{String}
use backit_on_stellar.Prelude.{
  ◌≡◌, refl, ap, Bool, true, false, ◌&&◌, List, [], ◌∷◌, ◌++◌, Option, none, some, Bool-cases, inl,
  inr,
}
use backit_on_stellar.Prelude.Text.{str_eq_iff}
use backit_on_stellar.Notifications.Preferences.{
  NotificationType, NotificationChannel, NotificationPreference, type_discrete, channel_discrete,
  is_yes, supported_types, channels, is_supported, is_in_app, is_for, find_preference,
  default_preference, missing_channels, missing, initialize_preferences, enabled_or, check_found,
  check_preference,
}

pub is_yes_sound {ℓ} : {A : Type ℓ} (d : Dec A) → is_yes d ≡ true → A
unfolding is_yes
is_yes_sound (yes p) h = p
is_yes_sound (no p) h = cc

pub is_yes_complete {ℓ} : {A : Type ℓ} (d : Dec A) → A → is_yes d ≡ true
unfolding is_yes
is_yes_complete (yes p) a = refl
is_yes_complete (no p) a = absurd (p a)

pub and_parts : (a b : Bool) → (a && b) ≡ true → (a ≡ true) × (b ≡ true)
and_parts true b h = (refl, h)
and_parts false b h = cc

-- What a row tells of the one that it is for.
pub for_parts :
    (user : String) (t : NotificationType) (c : NotificationChannel) (p : NotificationPreference)
    → is_for user t c p ≡ true
    → (p.user_address ≡ user) × (p.notification_type ≡ t) × (p.channel ≡ c)
unfolding is_for
for_parts user t c p h =
    let (a, b) = and_parts _ _ h in
    let (x, y) = and_parts _ _ b in
    ((str_eq_iff p.user_address user).0 a, is_yes_sound _ x, is_yes_sound _ y)

pub for_given :
    (user : String) (t : NotificationType) (c : NotificationChannel) (p : NotificationPreference)
    → p.user_address ≡ user
    → p.notification_type ≡ t
    → p.channel ≡ c
    → is_for user t c p ≡ true
unfolding is_for
for_given user t c p a b d = rw ((str_eq_iff p.user_address user).1 a) (
    rw (is_yes_complete (type_discrete p.notification_type t) b)
      (is_yes_complete (channel_discrete p.channel c) d))

-- The preference that counts: without a row, notifications in the application only.
abbrev pub effective :
    List NotificationPreference → String → NotificationType → NotificationChannel → Bool
effective rows user t c = enabled_or (is_in_app c) (find_preference rows user t c)

abbrev pub either :
    Option NotificationPreference → Option NotificationPreference → Option NotificationPreference
either none b = b
either (some p) b = some p

pub find-append :
    (xs ys : List NotificationPreference) (user : String) (t : NotificationType)
    (c : NotificationChannel)
    → find_preference (xs ++ ys) user t c
      ≡ either (find_preference xs user t c) (find_preference ys user t c)
unfolding find_preference
find-append [] ys user t c = refl
find-append (x ∷ xs) ys user t c = elim (Bool-cases (is_for user t c x)) [
  | inl e ↦ rw e refl
  | inr e ↦ rw e (find-append xs ys user t c)
]

-- What is found, if anything, has the value of a default for the channel.
abbrev pub IsDefault : NotificationChannel → Option NotificationPreference → Type 0
IsDefault c none = Unit
IsDefault c (some p) = p.enabled ≡ is_in_app c

either-IsDefault :
    (c : NotificationChannel) (a b : Option NotificationPreference)
    → IsDefault c a
    → IsDefault c b
    → IsDefault c (either a b)
either-IsDefault c none b h k = k
either-IsDefault c (some p) b h k = h

module _ (existing : List NotificationPreference) (user other : String) (t' : NotificationType)
    (c' : NotificationChannel) where
  pub missing_channels-IsDefault :
      (t : NotificationType) (cs : List NotificationChannel)
      → IsDefault c' (find_preference (missing_channels existing user t cs) other t' c')
  unfolding missing_channels find_preference
  missing_channels-IsDefault t [] = tt
  missing_channels-IsDefault t (c ∷ cs) =
      elim (find_preference existing user t c)
        as (λ o. IsDefault c' (
          find_preference
            (elim o [
              | none ↦ default_preference user t c ∷ missing_channels existing user t cs
              | some p ↦ missing_channels existing user t cs
            ])
            other t' c')) [
              | none ↦ elim (Bool-cases (is_for other t' c' (default_preference user t c))) [
                | inl e ↦
                    rw e (ap is_in_app (for_parts other t' c' (default_preference user t c) e).2)
                | inr e ↦ rw e (missing_channels-IsDefault t cs)
              ]
              | some p ↦ missing_channels-IsDefault t cs
            ]

  missing-IsDefault :
      (ts : List NotificationType)
      → IsDefault c' (find_preference (missing existing user ts) other t' c')
  unfolding missing find_preference
  missing-IsDefault [] = tt
  missing-IsDefault (t ∷ ts) =
      rw
        (find-append (missing_channels existing user t channels) (missing existing user ts) other t'
          c')
        (either-IsDefault c' _ _ (missing_channels-IsDefault t channels) (missing-IsDefault ts))

default_joins :
    (c : NotificationChannel) (a b : Option NotificationPreference)
    → IsDefault c b
    → enabled_or (is_in_app c) (either a b) ≡ enabled_or (is_in_app c) a
default_joins c none none h = refl
default_joins c none (some p) h = h
default_joins c (some p) b h = refl

-- To initialize changes no preference that counts, of no user.
pub effective-initialize :
    (rows : List NotificationPreference) (user other : String) (t : NotificationType)
    (c : NotificationChannel)
    → effective (initialize_preferences rows user) other t c ≡ effective rows other t c
unfolding initialize_preferences
effective-initialize rows user other t c =
    rw (find-append rows (missing rows user supported_types) other t c) (
      default_joins c (find_preference rows other t c) _
        (missing-IsDefault rows user other t c supported_types))

found_effective :
    (found : Option NotificationPreference) (rows : List NotificationPreference) (user : String)
    (t : NotificationType) (c : NotificationChannel)
    → find_preference rows user t c ≡ found
    → ((check_found found rows user t c).0 ≡ effective rows user t c)
      × ((other : String) (u : NotificationType) (d : NotificationChannel)
          → effective (check_found found rows user t c).1 other u d ≡ effective rows other u d)
unfolding check_found
found_effective (some p) rows user t c e = (rw e refl, λ other u d. refl)
found_effective none rows user t c e =
    (effective-initialize rows user user t c, effective-initialize rows user)

-- A check of a type that is configurable gives the preference that counts, and changes none.
pub check-effective :
    (rows : List NotificationPreference) (user : String) (t : NotificationType)
    (c : NotificationChannel)
    → is_supported t ≡ true
    → ((check_preference rows user t c).0 ≡ effective rows user t c)
      × ((other : String) (u : NotificationType) (d : NotificationChannel)
          → effective (check_preference rows user t c).1 other u d ≡ effective rows other u d)
unfolding check_preference
check-effective rows user t c h =
    rw h (found_effective (find_preference rows user t c) rows user t c refl)
