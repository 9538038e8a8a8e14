-- ===== src/DeadLetter/Listing.antt =====
-- `listEntries` of packages/backend/src/common/queues/dead-letter.service.ts: a page of entries,
-- found by scanning the waiting jobs in windows. A cursor is the offset that `decodeCursor` reads.
pub mod Page
pub mod Complete
pub mod Skips
use Prim.Native.String.{String}
use backit_on_stellar.Prelude.{
  ℕ, zero, suc, ◌+◌, ◌-◌, ◌≡◌, ◌≤◌, refl, Bool, true, false, not, ◌&&◌, ◌||◌, List, [], ◌∷◌, ◌++◌,
  Option, none, some, if◌then◌else◌, or_else, length, take, drop, leb, ltb, ◌==◌, min, max, arith,
  ◌∙◌, ap,
}
use backit_on_stellar.DeadLetter.{
  QueueName, ipfs_pinning, notifications, oracle_signing, dead_letter, reconciliation,
}
use backit_on_stellar.DeadLetter.Classify.{
  Classification, retryable_infrastructure, permanent_validation, permanent_configuration, unknown,
}
use backit_on_stellar.DeadLetter.Entry.{
  ReplayStatus, opened, replayed, dismissed, Payload, Entry, normalize_entry,
}
use backit_on_stellar.DeadLetter.Queue.{DeadQueue}

abbrev pub list_scan_window : ℕ
list_scan_window = 200

pub record Query : Type 0 where
  pub cursor : Option ℕ
  pub limit : Option ℕ
  pub source_queue : Option QueueName
  pub classification : Option Classification
  pub replay_status : Option ReplayStatus
  pub from : Option ℕ
  pub to : Option ℕ

-- `===` on the three enumerations, by a number for each of their texts.
abbrev pub queue_code : QueueName → ℕ
queue_code ipfs_pinning = 0
queue_code notifications = 1
queue_code oracle_signing = 2
queue_code dead_letter = 3
queue_code reconciliation = 4

abbrev pub class_code : Classification → ℕ
class_code retryable_infrastructure = 0
class_code permanent_validation = 1
class_code permanent_configuration = 2
class_code unknown = 3

abbrev pub status_code : ReplayStatus → ℕ
status_code opened = 0
status_code replayed = 1
status_code dismissed = 2

-- A filter that is absent, or that a value passes.
abbrev pub passes : {A : Type 0} → Option A → (A → Bool) → Bool
passes none test = true
passes (some a) test = test a

-- The entry gets past every `continue` of the loop.
unfoldable pub is_match : Query → Entry → Bool
is_match q e =
    passes q.source_queue (λ a. queue_code e.source_queue == queue_code a)
    && (passes q.classification (λ a. class_code e.classification == class_code a)
        && (passes q.replay_status (λ a. status_code e.replay_status == status_code a)
            && (passes q.from (λ ms. not (ltb e.moved_at ms))
                && passes q.to (λ ms. not (ltb ms e.moved_at)))))

-- The loop over the jobs of a window, which stops when the page is full.
unfoldable pub collect : Query → ℕ → List (String × Payload) → List Entry → List Entry
collect q limit [] entries = entries
collect q limit ((id, p) ∷ jobs) entries =
    let e = normalize_entry id p in
    let more = entries ++ e ∷ [] in
    let after = collect q limit jobs more in
    let skipped = collect q limit jobs entries in
    if is_match q e then if leb limit (length more) then more else after else skipped

pub record Scan : Type 0 where
  pub entries : List Entry
  pub offset : ℕ
  pub saw_full_window : Bool

pub record ListResult : Type 0 where
  pub entries : List Entry
  pub next_cursor : Option ℕ

-- The state after one window.
unfoldable pub read_window : Query → ℕ → List (String × Payload) → Scan → Scan
read_window q limit jobs s = record {
  entries = collect q limit jobs s.entries;
  offset = s.offset + length jobs;
  saw_full_window = length jobs == list_scan_window;
}

unfoldable pub is_page_done : ℕ → List (String × Payload) → Scan → Bool
is_page_done limit jobs s = leb limit (length s.entries) || length jobs == 0

window_size : (offset : ℕ) → suc (offset + list_scan_window - 1) - offset ≡ list_scan_window
window_size offset = omega arith

module _ (dq : DeadQueue) where
  -- The loop over at most so many windows.
  unfoldable pub scan : ℕ → dq.Queue → Query → ℕ → Scan → Scan
  scan zero queue q limit s = s
  scan (suc windows) queue q limit s =
      let jobs = dq.get_jobs queue s.offset (s.offset + list_scan_window - 1) in
      let s' = read_window q limit jobs s in
      let rest = scan windows queue q limit s' in if is_page_done limit jobs s' then s' else rest

  abbrev pub limit_of : Query → ℕ
  limit_of q = min (max (or_else q.limit 20) 1) 100

  abbrev pub start_of : Query → Scan
  start_of q = record { entries = []; offset = or_else q.cursor 0; saw_full_window = false }

  unfoldable pub list_entries : dq.Queue → Query → ListResult
  list_entries queue q =
      let s = scan 20 queue q (limit_of q) (start_of q) in
      record {
        entries = s.entries;
        next_cursor =
            if s.saw_full_window || leb (limit_of q) (length s.entries)
            then some s.offset
            else none;
      }

  pub window_jobs :
      (queue : dq.Queue) (offset : ℕ)
      → dq.get_jobs queue offset (offset + list_scan_window - 1)
        ≡ take list_scan_window (drop offset (dq.waiting queue))
  window_jobs queue offset =
      dq.get_jobs-waiting queue offset (offset + list_scan_window - 1)
      ∙ ap (λ n. take n (drop offset (dq.waiting queue))) (window_size offset)
