-- ===== src/DeadLetter/Replay.antt =====
-- Replay and dismissal of an entry
-- (packages/backend/src/common/queues/dead-letter.service.ts).
pub mod Effects
pub mod Status
pub mod Lifecycle
use Prim.Native.String.{String}
use mathlib.Core.Option
use backit_on_stellar.Prelude.{
  ℕ, ◌≡◌, refl, Bool, true, false, not, List, Option, none, some, if◌then◌else◌,
}
use backit_on_stellar.Prelude.Text.{str_eq}
use backit_on_stellar.Prelude.Json.{Value}
use backit_on_stellar.DeadLetter.{
  QueueName, ipfs_pinning, notifications, oracle_signing, dead_letter, reconciliation,
}
use backit_on_stellar.DeadLetter.Schema.{Validation, valid, invalid, validate_source_job_data}
use backit_on_stellar.DeadLetter.Entry.{
  ReplayStatus, opened, replayed, dismissed, Rejection, locked, not_found, already, unsupported,
  source_missing, invalid_data, wrong_state, retry_failed, Payload, Entry, normalize_entry,
}
use backit_on_stellar.DeadLetter.Queue.{DeadQueue, SourceQueues, Held, Retry, retried, refused}

-- ReplayResult and DismissResult.
pub data Outcome : Type 0 where
  accepted : Entry → Outcome
  rejected : Rejection → Outcome

-- The keys of `sourceQueuesByName`.
unfoldable pub is_supported : QueueName → Bool
is_supported oracle_signing = true
is_supported ipfs_pinning = true
is_supported notifications = true
is_supported dead_letter = false
is_supported reconciliation = false

abbrev pub is_open : ReplayStatus → Bool
is_open opened = true
is_open replayed = false
is_open dismissed = false

pub record World (Q S : Type 0) : Type 0 where
  pub dlq : Q
  pub sources : S

-- The operator's request: the entry, who asks, why, and when.
pub record Request : Type 0 where
  pub id : String
  pub actor : String
  pub reason : String
  pub now : ℕ

abbrev pub mark_replayed : Request → Payload → Payload
mark_replayed req p = record p {
  replay_status = some replayed;
  replayed_at = some req.now;
  replayed_by = some req.actor;
  replay_reason = some req.reason;
  last_replay_error = none;
  last_replay_attempt_at = some req.now;
}

abbrev pub mark_dismissed : Request → Payload → Payload
mark_dismissed req p = record p {
  replay_status = some dismissed;
  dismissed_at = some req.now;
  dismissed_by = some req.actor;
  dismiss_reason = some req.reason;
}

abbrev pub mark_failure : Request → Rejection → Payload → Payload
mark_failure req why p = record p {
  last_replay_error = some why;
  last_replay_attempt_at = some req.now;
}

module _ (to_number : List ℕ → ℕ) (dq : DeadQueue) (sq : SourceQueues) where
  abbrev pub State : Type 0
  State = World dq.Queue sq.Sources

  -- `recordReplayFailure`, and the answer that follows it.
  unfoldable pub record_replay_failure : State → Request → Payload → Rejection → Outcome × State
  record_replay_failure w req p why =
      (rejected why, record w { dlq = dq.update_data w.dlq req.id (mark_failure req why p) })

  unfoldable pub after_retry : Retry sq.Sources → State → Request → Payload → Outcome × State
  unfolding record_replay_failure normalize_entry
  after_retry (refused message) w req p = record_replay_failure w req p (retry_failed message)
  after_retry (retried sources) w req p = (
    accepted (normalize_entry req.id (mark_replayed req p)),
    record { dlq = dq.update_data w.dlq req.id (mark_replayed req p); sources = sources },
  )

  unfoldable pub after_validation : Validation → State → Request → Payload → Held → Outcome × State
  unfolding after_retry
  after_validation (invalid why) w req p held = record_replay_failure w req p (invalid_data why)
  after_validation valid w req p held =
      if str_eq held.state "failed"
      then after_retry (sq.retry w.sources p.source_queue p.job_id) w req p
      else record_replay_failure w req p (wrong_state held.state)

  unfoldable pub after_source : Option Held → State → Request → Payload → Outcome × State
  unfolding after_validation validate_source_job_data
  after_source none w req p = record_replay_failure w req p source_missing
  after_source (some held) w req p =
      after_validation (validate_source_job_data to_number p.source_queue held.job_data) w req p
        held

  unfoldable pub after_lookup : Option Payload → State → Request → Outcome × State
  unfolding after_source normalize_entry is_supported
  after_lookup none w req = (rejected not_found, w)
  after_lookup (some p) w req =
      let entry = normalize_entry req.id p in
      if not (is_open entry.replay_status)
      then (rejected (already entry.replay_status), w)
      else if not (is_supported entry.source_queue)
      then (rejected (unsupported entry.source_queue), w)
      else after_source (sq.get_source w.sources entry.source_queue entry.job_id) w req p

  -- `doReplay`.
  unfoldable pub do_replay : State → Request → Outcome × State
  unfolding after_lookup
  do_replay w req = after_lookup (dq.get_job w.dlq req.id) w req

  -- `replayEntry`, told whether Redis gave the lock of the entry.
  unfoldable pub replay_entry : Bool → State → Request → Outcome × State
  replay_entry acquired w req = if acquired then do_replay w req else (rejected locked, w)

  unfoldable pub dismiss_found : Option Payload → State → Request → Outcome × State
  unfolding normalize_entry
  dismiss_found none w req = (rejected not_found, w)
  dismiss_found (some p) w req =
      let entry = normalize_entry req.id p in
      if not (is_open entry.replay_status) then (rejected (already entry.replay_status), w) else (
        accepted (normalize_entry req.id (mark_dismissed req p)),
        record w { dlq = dq.update_data w.dlq req.id (mark_dismissed req p) },
      )

  -- `dismissEntry`.
  unfoldable pub dismiss_entry : State → Request → Outcome × State
  unfolding dismiss_found
  dismiss_entry w req = dismiss_found (dq.get_job w.dlq req.id) w req

  -- `getEntry`.
  unfoldable pub get_entry : dq.Queue → String → Option Entry
  get_entry q id = Option.map (normalize_entry id) (dq.get_job q id)
