-- ===== src/DeadLetter/Tests.antt =====
-- Runs of the dead-letter queue (packages/backend/src/common/queues) on concrete jobs: the jobs, and
-- replays and dismissals of them.
mod Windows
mod Contents
use Prim.Native.String.{String}
use backit_on_stellar.Prelude.{
  ℕ, zero, suc, ◌+◌, ◌-◌, ◌≤◌, ◌≡◌, refl, Bool, true, false, ◌&&◌, Option, none, some, List, [],
  ◌∷◌, length, map, ◌↔◌, ◌++◌, take, drop, inl, arith, All, ◌*◌, ap,
}
use backit_on_stellar.Prelude.Text.{str_eq, units, index_key}
use backit_on_stellar.Prelude.Json.{Value, obj, num, end, field}
use backit_on_stellar.DeadLetter.{notifications}
use backit_on_stellar.DeadLetter.Schema.{valid, validate_source_job_data}
use backit_on_stellar.DeadLetter.Redaction.{SecretPattern, redact_job_data, redact_stacktrace}
use backit_on_stellar.DeadLetter.Redaction.Allowlist.{
  Kept, redact_job_data-Kept, redact_stacktrace_bounded,
}
use backit_on_stellar.DeadLetter.Redaction.Agreement.{valid-redacts}
use backit_on_stellar.DeadLetter.Classify.{
  RegExp, Failure, is_blank, some_match, config_patterns, infra_patterns, text_of, classify_failure,
  retryable_infrastructure, retryable_iff,
}
use backit_on_stellar.DeadLetter.Entry.{
  opened, replayed, Payload, Entry, normalize_entry, not_found,
}
use backit_on_stellar.DeadLetter.Queue.{
  DeadQueue, SourceQueues, Held, retried, refused, find, replace, erase,
}
use backit_on_stellar.DeadLetter.Queue.Unique.{Unique}
use backit_on_stellar.DeadLetter.Replay.{
  State, Request, accepted, rejected, do_replay, is_supported, mark_replayed,
}
use backit_on_stellar.DeadLetter.Replay.Effects.{Replayed, accepted-Replayed}
use backit_on_stellar.DeadLetter.Replay.Status.{status_at, rejected_keeps}
use backit_on_stellar.DeadLetter.Replay.Lifecycle.{
  replay, dismiss, slot, decisions, decided_at_most_once,
}
use backit_on_stellar.DeadLetter.Listing.{
  is_match, limit_of, list_entries, scan, read_window, is_page_done, collect,
}
use backit_on_stellar.DeadLetter.Listing.Page.{Matches, page-Matches}
use backit_on_stellar.DeadLetter.Listing.Complete.{matching, last_page_complete}
use backit_on_stellar.DeadLetter.Listing.Skips.{unfiltered, entry_of, full_page_skips}
use backit_on_stellar.DeadLetter.Cleanup.{
  should_remove, cleanup_expired_entries, cleanup_loop, sweep, day_ms,
}
use backit_on_stellar.DeadLetter.Cleanup.Keeps.{Protected, cleanup_keeps}
use backit_on_stellar.DeadLetter.Cleanup.Loop.{NoneExpired, cleanup_diverges, short_cleanup_removes}
use backit_on_stellar.DeadLetter.Metrics.{no_depth, count_jobs, emit_depth_metrics}
use backit_on_stellar.DeadLetter.Metrics.Counts.{emit_depth_metrics_counts}
use backit_on_stellar.Prelude.Json.{Fields}
use backit_on_stellar.DeadLetter.Entry.{SourceJob}
use backit_on_stellar.DeadLetter.Move.{move_to_dead_letter, moved_job}

-- A queue kept as the list of its waiting jobs.
abbrev pub list_queue : DeadQueue
list_queue = record {
  Queue = List (String × Payload);
  waiting = λ q. q;
  get_jobs = λ q start finish. take (suc finish - start) (drop start q);
  get_job = λ q id. find id q;
  update_data = λ q id p. replace id p q;
  remove = λ q id. erase id q;
  new_id = λ q. index_key (length q);
  add = λ q p. q ++ (index_key (length q), p) ∷ [];
  get_jobs-waiting = λ q start finish. refl;
  get_job-waiting = λ q id. refl;
  waiting-update_data = λ q id p. refl;
  waiting-remove = λ q id. refl;
  waiting-add = λ q p. refl;
}

-- Source queues that hold one failed job.
abbrev pub one_source : SourceQueues
one_source = record {
  Sources = Option Held;
  get_source = λ s queue id. s;
  retry = λ s queue id. elim s [
    | some held ↦ retried (some (record held { state = "waiting" }))
    | none ↦ refused "missing"
  ];
}

abbrev pub notice : Value
notice = obj (field "notificationId" (num 5) end)

abbrev pub open_payload : Payload
open_payload = record {
  version = some 1;
  correlation_id = some "c";
  source_queue = notifications;
  job_name = "send";
  job_id = "7";
  attempts_made = 3;
  attempts = 3;
  classification = none;
  failed_reason = none;
  stacktrace = none;
  job_data = notice;
  redaction_failed = some false;
  source_timestamp = some 0;
  moved_at = 1;
  replay_status = some opened;
  replayed_at = none;
  replayed_by = none;
  replay_reason = none;
  dismissed_at = none;
  dismissed_by = none;
  dismiss_reason = none;
  last_replay_error = none;
  last_replay_attempt_at = none;
}

abbrev pub old_payload : Payload
old_payload = record open_payload { replay_status = some replayed; replayed_at = some 2 }

abbrev pub two_jobs : List (String × Payload)
two_jobs = ("a", open_payload) ∷ ("b", old_payload) ∷ []

abbrev pub source_job : Held
source_job = record { job_data = notice; state = "failed" }

abbrev pub zero_number : List ℕ → ℕ
zero_number text = 0

abbrev pub world : State zero_number list_queue one_source
world = record { dlq = two_jobs; sources = some source_job }

abbrev pub ask : String → Request
ask id = record { id = id; actor = "op"; reason = "fixed"; now = 9 }

abbrev pub replayed_world : State zero_number list_queue one_source
replayed_world = record {
  dlq = replace "a" (mark_replayed (ask "a") open_payload) two_jobs;
  sources = some (record source_job { state = "waiting" });
}

abbrev pub replayed_entry : Entry
replayed_entry = normalize_entry "a" (mark_replayed (ask "a") open_payload)

a_replays :
    do_replay zero_number list_queue one_source world (ask "a")
    ≡ (accepted replayed_entry, replayed_world)
unfolding do_replay find replace is_supported validate_source_job_data normalize_entry
a_replays = refl

a_accepted :
    (do_replay zero_number list_queue one_source world (ask "a")).0 ≡ accepted replayed_entry
a_accepted = ap (λ r. r.0) a_replays

missing_rejected :
    (do_replay zero_number list_queue one_source world (ask "z")).0 ≡ rejected not_found
unfolding do_replay find
missing_rejected = refl

pub notice_valid : validate_source_job_data zero_number notifications notice ≡ valid
unfolding validate_source_job_data
notice_valid = refl

pub a_found : find "a" two_jobs ≡ some open_payload
unfolding find
a_found = refl

supported : is_supported notifications ≡ true
unfolding is_supported
supported = refl

decided_at_most_once_example :
    decisions zero_number list_queue one_source "a" world
      (replay true (ask "a") ∷ dismiss (ask "a") ∷ [])
    ≤ slot (status_at zero_number list_queue one_source world.dlq "a")
decided_at_most_once_example =
    decided_at_most_once zero_number list_queue one_source world "a"
      (replay true (ask "a") ∷ dismiss (ask "a") ∷ [])

accepted-Replayed_example :
    Replayed zero_number list_queue one_source world
      (ask "a")
      (do_replay zero_number list_queue one_source world (ask "a")).1
accepted-Replayed_example =
    accepted-Replayed zero_number list_queue one_source world (ask "a") replayed_entry a_accepted
