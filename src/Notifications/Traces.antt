-- ===== src/Notifications/Traces.antt =====
-- That at most one attempt to send a notification ends well, whatever happens to the service
-- (packages/backend/src/notifications).
use Prim.Native.String.{String}
use backit_on_stellar.Prelude.{
  ℕ, ◌+◌, ◌≤◌, ◌<◌, ◌≡◌, refl, Bool, true, false, List, [], ◌∷◌, Option, none, some, ◌==◌, ==_iff,
  take, All, arith, Bool-cases, inl, inr,
}
use backit_on_stellar.Notifications.Preferences.{
  UpdatePreference, in_app, email, webhook, check_preference, update_preferences, is_supported,
}
use backit_on_stellar.Notifications.{
  DispatchType, undispatched, by_email, by_webhook, Notification, Notifications, Content,
  is_external, new_row, create_notification, create_if, notify_enabled, notify, is_marked,
  mark_rows, mark_read,
}
use backit_on_stellar.Notifications.Dispatch.{
  Attempt, Adding, went_in, failed, find_row, process, pending, enqueue_row, enqueue_rows,
  process_pending_notifications,
}
use backit_on_stellar.Notifications.Once.{
  times, room?, room_le, IsOnce, absent, update_row-IsOnce, marked-Lowers, failed-Lowers,
  branch-IsOnce, process_found-IsOnce,
}

older :
    (rows : List Notification) (n : ℕ)
    → All (λ (r : Notification). r.id < n) rows
    → All (λ (r : Notification). r.id < n + 1) rows
older [] n h = tt
older (r ∷ rs) n h = (omega arith, older rs n h.1)

created_once :
    (s : Notifications) (r : Notification)
    → r.id ≡ s.next_id
    → IsOnce s
    → (j : ℕ) → times j s.attempts + room? (find_row (r ∷ s.rows) j) ≤ 1 + times j s.errors
unfolding find_row
created_once s r e h j = elim (Bool-cases (r.id == j)) [
  | inl k ↦
      let same : r.id ≡ j = (==_iff r.id j).0 k in
      let none_yet = absent s.rows s.next_id j h.fresh (omega arith) in
      let none_sent : times j s.attempts + 1 ≤ 1 + times j s.errors = rw none_yet at (h.once j) in
      rw k (omega (arith, room_le r))
  | inr k ↦ rw k (h.once j)
]

create-IsOnce :
    (s : Notifications) (user : String) (content : Content) (dispatch : DispatchType) (shown : Bool)
    → IsOnce s
    → IsOnce (create_notification s user content dispatch shown).1
unfolding create_notification
create-IsOnce s user content dispatch shown h = record {
  fresh = (omega arith, older s.rows s.next_id h.fresh);
  once = created_once s (new_row s.next_id user content dispatch shown) refl h;
}

create_if-IsOnce :
    (b : Bool) (result : Option Notification × Notifications) (user : String) (content : Content)
    (dispatch : DispatchType) (shown : Bool)
    → IsOnce result.1
    → IsOnce (create_if b result user content dispatch shown).1
unfolding create_if
create_if-IsOnce false result user content dispatch shown h = h
create_if-IsOnce true (none, s) user content dispatch shown h =
    create-IsOnce s user content dispatch shown h
create_if-IsOnce true (some row, s) user content dispatch shown h =
    create-IsOnce s user content dispatch shown h

notify_enabled-IsOnce :
    (s : Notifications) (user : String) (content : Content)
    → IsOnce s
    → IsOnce (notify_enabled s user content).1
unfolding notify_enabled
notify_enabled-IsOnce s user content h =
    let (app, prefs) = check_preference s.preferences user content.type in_app in
    let (mail, prefs') = check_preference prefs user content.type email in
    let (hook, prefs'') = check_preference prefs' user content.type webhook in
    let start : Option Notification × Notifications = (none, record s { preferences = prefs'' }) in
    let shown = create_if app start user content undispatched true in
    let mailed = create_if mail shown user content by_email false in
    create_if-IsOnce hook mailed user content by_webhook false (
      create_if-IsOnce mail shown user content by_email false (
        create_if-IsOnce app start user content undispatched true
          (record { fresh = h.fresh; once = h.once })))

notify-IsOnce :
    (s : Notifications) (user : String) (content : Content) (dispatch : DispatchType)
    → IsOnce s
    → IsOnce (notify s user content dispatch).1
unfolding notify
notify-IsOnce s user content dispatch h =
    let (row, s') = create_notification s user content dispatch true in
    branch-IsOnce (is_supported content.type) (notify_enabled s user content) (some row, s')
      (notify_enabled-IsOnce s user content h) (λ _. create-IsOnce s user content dispatch true h)

mark_rows_room :
    (user : String) (ids : List ℕ) (rows : List Notification) (j : ℕ)
    → room? (find_row (mark_rows user ids rows) j) ≡ room? (find_row rows j)
unfolding mark_rows find_row
mark_rows_room user ids [] j = refl
mark_rows_room user ids (r ∷ rs) j = elim (Bool-cases (is_marked user ids r)) [
  | inl e ↦ rw e (elim (Bool-cases (r.id == j)) [
    | inl k ↦ rw k refl
    | inr k ↦ rw k (mark_rows_room user ids rs j)
  ])
  | inr e ↦ rw e (elim (Bool-cases (r.id == j)) [
    | inl k ↦ rw k refl
    | inr k ↦ rw k (mark_rows_room user ids rs j)
  ])
]

All-mark_rows :
    (user : String) (ids : List ℕ) (n : ℕ) (rows : List Notification)
    → All (λ (r : Notification). r.id < n) rows
    → All (λ (r : Notification). r.id < n) (mark_rows user ids rows)
unfolding mark_rows
All-mark_rows user ids n [] h = tt
All-mark_rows user ids n (r ∷ rs) h = elim (Bool-cases (is_marked user ids r)) [
  | inl e ↦ rw e (h.0, All-mark_rows user ids n rs h.1)
  | inr e ↦ rw e (h.0, All-mark_rows user ids n rs h.1)
]

mark_read-IsOnce :
    (s : Notifications) (user : String) (ids : List ℕ) → IsOnce s → IsOnce (mark_read s user ids).1
unfolding mark_read
mark_read-IsOnce s user ids h = record {
  fresh = All-mark_rows user ids s.next_id s.rows h.fresh;
  once = λ j. omega (arith, mark_rows_room user ids s.rows j, h.once j);
}

enqueue_row-IsOnce :
    (added : Adding) (s : Notifications) (r : Notification)
    → IsOnce s
    → IsOnce (enqueue_row added s r)
unfolding enqueue_row
enqueue_row-IsOnce went_in s r h = elim (Bool-cases (is_external r.dispatch_type)) [
  | inl e ↦ rw e (record { fresh = h.fresh; once = h.once })
  | inr e ↦ rw e (update_row-IsOnce _ marked-Lowers s r.id h)
]
enqueue_row-IsOnce (failed why) s r h = elim (Bool-cases (is_external r.dispatch_type)) [
  | inl e ↦ rw e (update_row-IsOnce _ (failed-Lowers why) s r.id h)
  | inr e ↦ rw e (update_row-IsOnce _ marked-Lowers s r.id h)
]

enqueue_rows-IsOnce :
    (added : Notification → Adding) (rs : List Notification) (s : Notifications)
    → IsOnce s
    → IsOnce (enqueue_rows added s rs)
unfolding enqueue_rows
enqueue_rows-IsOnce added [] s h = h
enqueue_rows-IsOnce added (r ∷ rs) s h =
    enqueue_rows-IsOnce added rs (enqueue_row (added r) s r) (enqueue_row-IsOnce (added r) s r h)

-- What happens to the service, one after another.
pub data Op : Type 0 where
  notifying : String → Content → DispatchType → Op
  creating : String → Content → DispatchType → Bool → Op
  marking : String → List ℕ → Op
  processing : Attempt → ℕ → Op
  enqueueing : (Notification → Adding) → (List Notification → List Notification) → Op
  updating : String → List UpdatePreference → Op

unfoldable pub step : Notifications → Op → Notifications
unfolding notify create_notification mark_read process process_pending_notifications
    update_preferences
step s (notifying user content dispatch) = (notify s user content dispatch).1
step s (creating user content dispatch shown) =
    (create_notification s user content dispatch shown).1
step s (marking user ids) = (mark_read s user ids).1
step s (processing outcome id) = (process outcome s id).1
step s (enqueueing added order) = process_pending_notifications added order s
step s (updating user updates) = record s {
  preferences = update_preferences s.preferences user updates;
}

unfoldable pub run : Notifications → List Op → Notifications
unfolding step
run s [] = s
run s (op ∷ ops) = run (step s op) ops

step-IsOnce : (s : Notifications) (op : Op) → IsOnce s → IsOnce (step s op)
unfolding step process process_pending_notifications
step-IsOnce s (notifying user content dispatch) h = notify-IsOnce s user content dispatch h
step-IsOnce s (creating user content dispatch shown) h =
    create-IsOnce s user content dispatch shown h
step-IsOnce s (marking user ids) h = mark_read-IsOnce s user ids h
step-IsOnce s (processing outcome id) h =
    process_found-IsOnce outcome s id (find_row s.rows id) refl h
step-IsOnce s (enqueueing added order) h =
    enqueue_rows-IsOnce added (take 50 (order (pending s.rows))) s h
step-IsOnce s (updating user updates) h = record { fresh = h.fresh; once = h.once }

-- Jobs run one after another, in any order and any number of times. If at most one attempt for each
-- notification has ended well, and none for those that are still to go out, then that stays so,
-- whatever happens: the calls of a sender for a notification outnumber the attempts that ended in an
-- error by at most one, and by none while it is still to go out. An attempt ends in an error if the
-- sender throws, whether or not the receiver got the message, or if the row cannot be marked after it.
pub run-IsOnce : (ops : List Op) (s : Notifications) → IsOnce s → IsOnce (run s ops)
unfolding run
run-IsOnce [] s h = h
run-IsOnce (op ∷ ops) s h = run-IsOnce ops (step s op) (step-IsOnce s op h)
