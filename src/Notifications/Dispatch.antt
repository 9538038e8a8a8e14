-- ===== src/Notifications/Dispatch.antt =====
-- The dispatch of notifications to the outside
-- (packages/backend/src/notifications/external-dispatcher/external-dispatcher.service.ts and
-- notifications.queue.processor.ts).
use Prim.Native.String.{String}
use backit_on_stellar.Prelude.{
  ℕ, Bool, true, false, List, [], ◌∷◌, Option, none, some, if◌then◌else◌, ◌==◌, take,
}
use backit_on_stellar.Notifications.{Notification, Notifications, is_external}

unfoldable pub find_row : List Notification → ℕ → Option Notification
find_row [] id = none
find_row (r ∷ rs) id = if r.id == id then some r else find_row rs id

unfoldable pub update_row :
    List Notification → ℕ → (Notification → Notification) → List Notification
update_row [] id f = []
update_row (r ∷ rs) id f = (if r.id == id then f r else r) ∷ update_row rs id f

-- What adding to the queue does: it went_in, or it throws a message.
pub data Adding : Type 0 where
  went_in : Adding
  failed : String → Adding

-- One attempt of a job: the message that the sender throws, if it does (which says nothing on whether
-- the receiver got it), whether the update of the row succeeds, with the message if not, and whether
-- the update in the `catch` does.
pub record Attempt : Type 0 where
  pub sender_throws : Option String
  pub marks : Bool
  pub update_error : String
  pub records : Bool

abbrev pub dispatched : Notification → Notification
dispatched r = record r { is_dispatched = true; dispatch_error = none }

-- The `catch`; the job throws.
unfoldable pub caught : Bool → String → Notifications → Notification → Notifications
unfolding update_row
caught true why s r = record s {
  rows = update_row s.rows r.id (λ n. record n { dispatch_error = some why });
  errors = r.id ∷ s.errors;
}
caught false why s r = record s { errors = r.id ∷ s.errors }

-- The `try`, after the sender was called.
unfoldable pub after_sender :
    Option String → Bool → Attempt → Notifications → Notification → Bool × Notifications
unfolding update_row caught
after_sender (some why) marks a s r = (false, caught a.records why s r)
after_sender none false a s r = (false, caught a.records a.update_error s r)
after_sender none true a s r = (true, record s { rows = update_row s.rows r.id dispatched })

unfoldable pub send_row : Attempt → Notifications → Notification → Bool × Notifications
unfolding after_sender
send_row a s r =
    after_sender a.sender_throws a.marks a (record s { attempts = r.id ∷ s.attempts }) r

-- The update of a row that has nowhere to go.
unfoldable pub close_row : Bool → Notifications → Notification → Bool × Notifications
unfolding update_row
close_row false s r = (false, s)
close_row true s r = (true, record s { rows = update_row s.rows r.id dispatched })

unfoldable pub process_waiting : Attempt → Notifications → Notification → Bool × Notifications
unfolding send_row close_row is_external
process_waiting a s r =
    if is_external r.dispatch_type then send_row a s r else close_row a.marks s r

unfoldable pub process_found : Option Notification → Attempt → Notifications → Bool × Notifications
unfolding process_waiting
process_found none outcome s = (true, s)
process_found (some r) outcome s =
    if r.is_dispatched then (true, s) else process_waiting outcome s r

-- `process` of a job: whether it completes, or throws.
unfoldable pub process : Attempt → Notifications → ℕ → Bool × Notifications
unfolding process_found find_row
process outcome s id = process_found (find_row s.rows id) outcome s

-- The rows that the cron job looks at, in an order that the database chooses.
unfoldable pub pending : List Notification → List Notification
pending [] = []
pending (r ∷ rs) = if r.is_dispatched then pending rs else r ∷ pending rs

-- One row of the loop of `processPendingNotifications`, told whether the queue takes the job.
unfoldable pub enqueue_row : Adding → Notifications → Notification → Notifications
unfolding is_external update_row
enqueue_row added s r =
    if is_external r.dispatch_type
    then (elim added [
      | went_in ↦ record s { enqueued = r.id ∷ s.enqueued }
      | failed why ↦ record s {
        rows = update_row s.rows r.id (λ n. record n { dispatch_error = some why });
      }
    ])
    else record s { rows = update_row s.rows r.id (λ n. record n { is_dispatched = true }) }

unfoldable pub enqueue_rows :
    (Notification → Adding) → Notifications → List Notification → Notifications
unfolding enqueue_row
enqueue_rows added s [] = s
enqueue_rows added s (r ∷ rs) = enqueue_rows added (enqueue_row (added r) s r) rs

unfoldable pub process_pending_notifications :
    (Notification → Adding)
    → (List Notification → List Notification)
    → Notifications
    → Notifications
unfolding enqueue_rows pending
process_pending_notifications added order s =
    enqueue_rows added s (take 50 (order (pending s.rows)))
