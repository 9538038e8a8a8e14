-- ===== src/Notifications.antt =====
-- packages/backend/src/notifications/notifications.service.ts: notifications and how they are read.
pub mod Preferences
pub mod Enabled
pub mod Initialized
pub mod Updates
pub mod Dispatch
pub mod Once
pub mod Traces
pub mod Closing
pub mod Alerts
pub mod Obeys
mod Tests
use Prim.Native.String.{String}
use backit_on_stellar.Prelude.{
  ℕ, suc, ◌+◌, Bool, true, false, not, ◌&&◌, List, [], ◌∷◌, Option, none, some, if◌then◌else◌, ◌==◌,
  ltb, take, drop, length,
}
use backit_on_stellar.Prelude.Text.{str_eq}
use backit_on_stellar.Notifications.Preferences.{
  NotificationType, in_app, email, webhook, NotificationPreference, is_supported, check_preference,
}

pub data DispatchType : Type 0 where
  by_email by_webhook undispatched : DispatchType

pub record Notification : Type 0 where
  pub id : ℕ
  pub user_id : String
  pub type : NotificationType
  pub reference_id : Option String
  pub message : String
  pub read_status : Bool
  pub is_dispatched : Bool
  pub in_app : Bool
  pub dispatch_type : DispatchType
  pub dispatch_error : Option String

-- The rows, the newest first, the id of the next one, the preferences, the ids that were handed to
-- the queue, for which a sender was called, and for which such an attempt ended in an error, each the
-- newest first.
pub record Notifications : Type 0 where
  pub rows : List Notification
  pub next_id : ℕ
  pub preferences : List NotificationPreference
  pub enqueued : List ℕ
  pub attempts : List ℕ
  pub errors : List ℕ

unfoldable pub is_external : DispatchType → Bool
is_external undispatched = false
is_external by_email = true
is_external by_webhook = true

-- What is told: the type, the message and the reference.
pub record Content : Type 0 where
  pub type : NotificationType
  pub message : String
  pub reference_id : Option String

abbrev pub new_row : ℕ → String → Content → DispatchType → Bool → Notification
new_row id user content dispatch shown = record {
  id = id;
  user_id = user;
  type = content.type;
  reference_id = content.reference_id;
  message = content.message;
  read_status = false;
  is_dispatched = not (is_external dispatch);
  in_app = shown;
  dispatch_type = dispatch;
  dispatch_error = none;
}

unfoldable pub create_notification :
    Notifications → String → Content → DispatchType → Bool → Notification × Notifications
unfolding is_external
create_notification s user content dispatch shown =
    let row = new_row s.next_id user content dispatch shown in
    (
      row,
      record s {
        rows = row ∷ s.rows;
        next_id = s.next_id + 1;
        enqueued = if is_external dispatch then s.next_id ∷ s.enqueued else s.enqueued;
      },
    )

-- One of the three cases of `notify`: the result, if there is none yet, and the state.
unfoldable pub create_if :
    Bool
    → Option Notification × Notifications
    → String
    → Content
    → DispatchType
    → Bool
    → Option Notification × Notifications
unfolding create_notification
create_if false r user content dispatch shown = r
create_if true (none, s) user content dispatch shown =
    let (row, s') = create_notification s user content dispatch shown in (some row, s')
create_if true (some row, s) user content dispatch shown =
    (some row, (create_notification s user content dispatch shown).1)

-- `notify` of a type that is configurable.
unfoldable pub notify_enabled :
    Notifications → String → Content → Option Notification × Notifications
unfolding create_if check_preference
notify_enabled s user content =
    let (app, prefs) = check_preference s.preferences user content.type in_app in
    let (mail, prefs') = check_preference prefs user content.type email in
    let (hook, prefs'') = check_preference prefs' user content.type webhook in
    let start : Option Notification × Notifications = (none, record s { preferences = prefs'' }) in
    let shown = create_if app start user content undispatched true in
    let mailed = create_if mail shown user content by_email false in
    create_if hook mailed user content by_webhook false

unfoldable pub notify :
    Notifications → String → Content → DispatchType → Option Notification × Notifications
unfolding notify_enabled create_notification is_supported
notify s user content dispatch =
    let (row, s') = create_notification s user content dispatch true in
    if is_supported content.type then notify_enabled s user content else (some row, s')

-- The rows that `getNotifications` lists, the newest first. Those of one instant, which the source
-- leaves to the database, are in the order of their ids.
unfoldable pub listed : String → List Notification → List Notification
listed user [] = []
listed user (r ∷ rs) =
    if str_eq r.user_id user && r.in_app then r ∷ listed user rs else listed user rs

unfoldable pub count_unread : List Notification → ℕ
count_unread [] = 0
count_unread (r ∷ rs) = if r.read_status then count_unread rs else suc (count_unread rs)

pub record Page : Type 0 where
  pub items : List Notification
  pub total_count : ℕ
  pub has_next : Bool
  pub unread_count : ℕ

unfoldable pub get_notifications : Notifications → String → ℕ → ℕ → Page
unfolding listed count_unread
get_notifications s user limit offset =
    let all = listed user s.rows in
    let found = take (limit + 1) (drop offset all) in
    record {
      items = take limit found;
      total_count = length all;
      has_next = ltb limit (length found);
      unread_count = count_unread all;
    }

unfoldable pub has_id : List ℕ → ℕ → Bool
has_id [] id = false
has_id (x ∷ xs) id = if x == id then true else has_id xs id

-- The `where` of `markRead`: with ids, those of them; without, the unread ones.
unfoldable pub is_marked : String → List ℕ → Notification → Bool
unfolding has_id
is_marked user [] r = str_eq r.user_id user && (r.in_app && not r.read_status)
is_marked user (x ∷ xs) r = str_eq r.user_id user && (r.in_app && has_id (x ∷ xs) r.id)

unfoldable pub mark_rows : String → List ℕ → List Notification → List Notification
unfolding is_marked
mark_rows user ids [] = []
mark_rows user ids (r ∷ rs) =
    (if is_marked user ids r then record r { read_status = true } else r) ∷ mark_rows user ids rs

unfoldable pub count_marked : String → List ℕ → List Notification → ℕ
unfolding is_marked
count_marked user ids [] = 0
count_marked user ids (r ∷ rs) =
    if is_marked user ids r then suc (count_marked user ids rs) else count_marked user ids rs

unfoldable pub mark_read : Notifications → String → List ℕ → ℕ × Notifications
unfolding mark_rows count_marked
mark_read s user ids = (count_marked user ids s.rows, record s { rows = mark_rows user ids s.rows })
