-- ===== src/Notifications/Preferences.antt =====
-- packages/backend/src/notifications/notification-preferences.service.ts: which kinds of
-- notification a user wants, and over which channels.
use Prim.Native.String.{String}
use backit_on_stellar.Prelude.{
  Bool, true, false, ◌&&◌, List, [], ◌∷◌, ◌++◌, Option, none, some, if◌then◌else◌,
}
use backit_on_stellar.Prelude.Text.{str_eq}

pub data NotificationType : Type 0 where
  backed_call call_ended payout_ready new_follower call_resolved stake_update call_closing :
      NotificationType
  price_alert_triggered transaction_failed : NotificationType

pub data NotificationChannel : Type 0 where
  in_app email webhook : NotificationChannel

unfoldable pub type_discrete : Discrete NotificationType
type_discrete = hlevel

unfoldable pub channel_discrete : Discrete NotificationChannel
channel_discrete = hlevel

unfoldable pub is_yes {ℓ} : {A : Type ℓ} → Dec A → Bool
is_yes (yes p) = true
is_yes (no p) = false

pub record NotificationPreference : Type 0 where
  pub user_address : String
  pub notification_type : NotificationType
  pub channel : NotificationChannel
  pub enabled : Bool

pub record UpdatePreference : Type 0 where
  pub notification_type : NotificationType
  pub channel : NotificationChannel
  pub enabled : Bool

abbrev pub supported_types : List NotificationType
supported_types = call_resolved ∷ stake_update ∷ new_follower ∷ payout_ready ∷ []

abbrev pub channels : List NotificationChannel
channels = in_app ∷ email ∷ webhook ∷ []

abbrev pub includes_type : List NotificationType → NotificationType → Bool
includes_type [] t = false
includes_type (u ∷ us) t = if is_yes (type_discrete u t) then true else includes_type us t

unfoldable pub is_supported : NotificationType → Bool
unfolding is_yes type_discrete
is_supported t = includes_type supported_types t

unfoldable pub is_in_app : NotificationChannel → Bool
is_in_app in_app = true
is_in_app email = false
is_in_app webhook = false

-- The row is that of this user, type and channel.
unfoldable pub is_for :
    String → NotificationType → NotificationChannel → NotificationPreference → Bool
unfolding is_yes
is_for user t c p =
    str_eq p.user_address user
    && (is_yes (type_discrete p.notification_type t) && is_yes (channel_discrete p.channel c))

unfoldable pub find_preference :
    List NotificationPreference
    → String
    → NotificationType
    → NotificationChannel
    → Option NotificationPreference
unfolding is_for
find_preference [] user t c = none
find_preference (p ∷ ps) user t c =
    if is_for user t c p then some p else find_preference ps user t c

abbrev pub default_preference :
    String → NotificationType → NotificationChannel → NotificationPreference
default_preference user t c = record {
  user_address = user;
  notification_type = t;
  channel = c;
  enabled = is_in_app c;
}

-- `toCreate`, for one type.
unfoldable pub missing_channels :
    List NotificationPreference
    → String
    → NotificationType
    → List NotificationChannel
    → List NotificationPreference
unfolding find_preference is_in_app
missing_channels existing user t [] = []
missing_channels existing user t (c ∷ cs) =
    let rest = missing_channels existing user t cs in
    elim (find_preference existing user t c) [
      | none ↦ default_preference user t c ∷ rest
      | some p ↦ rest
    ]

unfoldable pub missing :
    List NotificationPreference → String → List NotificationType → List NotificationPreference
unfolding missing_channels
missing existing user [] = []
missing existing user (t ∷ ts) =
    missing_channels existing user t channels ++ missing existing user ts

-- The rows of the table after `initializePreferences`.
unfoldable pub initialize_preferences :
    List NotificationPreference → String → List NotificationPreference
unfolding missing
initialize_preferences rows user = rows ++ missing rows user supported_types

unfoldable pub set_enabled :
    List NotificationPreference → String → UpdatePreference → List NotificationPreference
unfolding is_for
set_enabled [] user u = []
set_enabled (p ∷ ps) user u =
    (if is_for user u.notification_type u.channel p then record p { enabled = u.enabled } else p)
    ∷ set_enabled ps user u

unfoldable pub set_all :
    List NotificationPreference → String → List UpdatePreference → List NotificationPreference
unfolding set_enabled
set_all rows user [] = rows
set_all rows user (u ∷ us) = set_all (set_enabled rows user u) user us

unfoldable pub update_preferences :
    List NotificationPreference → String → List UpdatePreference → List NotificationPreference
unfolding initialize_preferences set_all
update_preferences rows user updates = set_all (initialize_preferences rows user) user updates

abbrev pub enabled_or : Bool → Option NotificationPreference → Bool
enabled_or b none = b
enabled_or b (some p) = p.enabled

unfoldable pub check_found :
    Option NotificationPreference
    → List NotificationPreference
    → String
    → NotificationType
    → NotificationChannel
    → Bool × List NotificationPreference
unfolding initialize_preferences find_preference is_in_app
check_found (some p) rows user t c = (p.enabled, rows)
check_found none rows user t c =
    let rows' = initialize_preferences rows user in
    (enabled_or (is_in_app c) (find_preference rows' user t c), rows')

unfoldable pub check_preference :
    List NotificationPreference
    → String
    → NotificationType
    → NotificationChannel
    → Bool × List NotificationPreference
unfolding check_found is_supported is_in_app
check_preference rows user t c =
    if is_supported t
    then check_found (find_preference rows user t c) rows user t c
    else (is_in_app c, rows)
