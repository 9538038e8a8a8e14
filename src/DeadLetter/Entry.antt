-- ===== src/DeadLetter/Entry.antt =====
-- Entries of the dead-letter queue, and how a failed job becomes one
-- (packages/backend/src/common/queues/dead-letter.service.ts). A date text is the instant that
-- `Date.parse` reads from it, in milliseconds.
use Prim.Native.String
use Prim.Native.String.{String}
use backit_on_stellar.Prelude.{ℕ, Bool, false, List, Option, none, some, or_else, leb}
use backit_on_stellar.Prelude.Json.{Value, obj}
use backit_on_stellar.DeadLetter.{QueueName}
use backit_on_stellar.DeadLetter.Schema.{Reason}
use backit_on_stellar.DeadLetter.Redaction.{
  SecretPattern, redact_job_data, redact_failed_reason, redact_stacktrace,
}
use backit_on_stellar.DeadLetter.Classify.{
  Classification, unknown, RegExp, Failure, classify_failure,
}

pub data ReplayStatus : Type 0 where
  opened replayed dismissed : ReplayStatus

-- Why a replay or a dismissal was refused, one for each message.
pub data Rejection : Type 0 where
  locked not_found : Rejection
  already : ReplayStatus → Rejection
  unsupported : QueueName → Rejection
  source_missing : Rejection
  invalid_data : Reason → Rejection
  wrong_state : String → Rejection
  retry_failed : String → Rejection

-- DeadLetterPayload.
pub record Payload : Type 0 where
  pub version : Option ℕ
  pub correlation_id : Option String
  pub source_queue : QueueName
  pub job_name : String
  pub job_id : String
  pub attempts_made : ℕ
  pub attempts : ℕ
  pub classification : Option Classification
  pub failed_reason : Option (List ℕ)
  pub stacktrace : Option (List (List ℕ))
  pub job_data : Value
  pub redaction_failed : Option Bool
  pub source_timestamp : Option ℕ
  pub moved_at : ℕ
  pub replay_status : Option ReplayStatus
  pub replayed_at : Option ℕ
  pub replayed_by : Option String
  pub replay_reason : Option String
  pub dismissed_at : Option ℕ
  pub dismissed_by : Option String
  pub dismiss_reason : Option String
  pub last_replay_error : Option Rejection
  pub last_replay_attempt_at : Option ℕ

-- DeadLetterEntry.
pub record Entry : Type 0 where
  pub dlq_job_id : String
  pub version : ℕ
  pub correlation_id : String
  pub source_queue : QueueName
  pub job_name : String
  pub job_id : String
  pub attempts_made : ℕ
  pub attempts : ℕ
  pub classification : Classification
  pub job_data : Value
  pub redaction_failed : Bool
  pub source_timestamp : ℕ
  pub moved_at : ℕ
  pub replay_status : ReplayStatus
  pub failed_reason : Option (List ℕ)
  pub stacktrace : Option (List (List ℕ))
  pub replayed_at : Option ℕ
  pub replayed_by : Option String
  pub replay_reason : Option String
  pub dismissed_at : Option ℕ
  pub dismissed_by : Option String
  pub dismiss_reason : Option String
  pub last_replay_error : Option Rejection
  pub last_replay_attempt_at : Option ℕ

-- `normalizeEntry`: defaults for the fields that older entries lack.
unfoldable pub normalize_entry : String → Payload → Entry
normalize_entry id p = record {
  dlq_job_id = id;
  version = or_else p.version 0;
  correlation_id = or_else p.correlation_id (String.◌++◌ "legacy-" id);
  source_queue = p.source_queue;
  job_name = p.job_name;
  job_id = p.job_id;
  attempts_made = p.attempts_made;
  attempts = p.attempts;
  classification = or_else p.classification unknown;
  job_data = p.job_data;
  redaction_failed = or_else p.redaction_failed false;
  source_timestamp = or_else p.source_timestamp p.moved_at;
  moved_at = p.moved_at;
  replay_status = or_else p.replay_status opened;
  failed_reason = p.failed_reason;
  stacktrace = p.stacktrace;
  replayed_at = p.replayed_at;
  replayed_by = p.replayed_by;
  replay_reason = p.replay_reason;
  dismissed_at = p.dismissed_at;
  dismissed_by = p.dismissed_by;
  dismiss_reason = p.dismiss_reason;
  last_replay_error = p.last_replay_error;
  last_replay_attempt_at = p.last_replay_attempt_at;
}

-- What the service reads of a BullMQ job that has failed.
pub record SourceJob : Type 0 where
  pub name : String
  pub id : Option String
  pub job_data : Value
  pub attempts_made : ℕ
  pub attempts : Option ℕ
  pub failed_reason : Option (List ℕ)
  pub stacktrace : Option (List (List ℕ))
  pub timestamp : ℕ

unfoldable pub is_final_attempt : SourceJob → Bool
is_final_attempt job = leb (or_else job.attempts 1) job.attempts_made

abbrev pub payload_version : ℕ
payload_version = 1

-- The payload that `moveToDeadLetter` adds to the queue; the id is `randomUUID()`.
unfoldable pub dead_letter_of :
    (SecretPattern → List ℕ → List ℕ → List ℕ)
    → (RegExp → List ℕ → Bool)
    → QueueName
    → SourceJob
    → Option Failure
    → String
    → ℕ
    → Payload
dead_letter_of replace_all test queue job err uuid now =
    let kept = redact_job_data queue job.job_data in
    record {
      version = some payload_version;
      correlation_id = some uuid;
      source_queue = queue;
      job_name = job.name;
      job_id = or_else job.id "";
      attempts_made = job.attempts_made;
      attempts = or_else job.attempts 1;
      classification = some (classify_failure test err);
      failed_reason = redact_failed_reason replace_all job.failed_reason;
      stacktrace = redact_stacktrace replace_all job.stacktrace;
      job_data = obj kept.fields;
      redaction_failed = some kept.redaction_failed;
      source_timestamp = some job.timestamp;
      moved_at = now;
      replay_status = some opened;
      replayed_at = none;
      replayed_by = none;
      replay_reason = none;
      dismissed_at = none;
      dismissed_by = none;
      dismiss_reason = none;
      last_replay_error = none;
      last_replay_attempt_at = none;
    }
