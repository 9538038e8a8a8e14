-- ===== src/DeadLetter/Metrics.antt =====
-- `emitDepthMetrics` of packages/backend/src/common/queues/dead-letter.service.ts: what it counts
-- before it logs the counts.
pub mod Counts
use Prim.Native.String.{String}
use backit_on_stellar.Prelude.{
  ℕ, zero, suc, ◌+◌, ◌-◌, ◌/◌, ◌*◌, ◌≡◌, Bool, true, false, List, [], ◌∷◌, Option, none, some,
  if◌then◌else◌, length, ltb, ◌==◌,
}
use backit_on_stellar.DeadLetter.{QueueName}
use backit_on_stellar.DeadLetter.Classify.{Classification}
use backit_on_stellar.DeadLetter.Entry.{ReplayStatus, Payload, Entry, normalize_entry}
use backit_on_stellar.DeadLetter.Queue.{DeadQueue}
use backit_on_stellar.DeadLetter.Listing.{list_scan_window, queue_code, class_code}
use backit_on_stellar.DeadLetter.Replay.{is_open}

-- The two maps, as the number that each key holds, and the two variables.
pub record Depth : Type 0 where
  pub by_source_queue : QueueName → ℕ
  pub by_classification : Classification → ℕ
  pub oldest_open : Option ℕ
  pub open_count : ℕ

abbrev pub no_depth : Depth
no_depth = record {
  by_source_queue = λ q. 0;
  by_classification = λ c. 0;
  oldest_open = none;
  open_count = 0;
}

abbrev pub older : Option ℕ → ℕ → Option ℕ
older none at = some at
older (some old) at = if ltb at old then some at else some old

unfoldable pub count_entry : Depth → Entry → Depth
count_entry d e = record {
  by_source_queue = λ q.
      if queue_code e.source_queue == queue_code q
      then d.by_source_queue q + 1
      else d.by_source_queue q;
  by_classification = λ c.
      if class_code e.classification == class_code c
      then d.by_classification c + 1
      else d.by_classification c;
  oldest_open = if is_open e.replay_status then older d.oldest_open e.moved_at else d.oldest_open;
  open_count = if is_open e.replay_status then d.open_count + 1 else d.open_count;
}

-- The loop over the jobs of a window.
unfoldable pub count_jobs : Depth → List (String × Payload) → Depth
count_jobs d [] = d
count_jobs d ((id, p) ∷ jobs) = count_jobs (count_entry d (normalize_entry id p)) jobs

abbrev pub oldest_age_seconds : ℕ → Option ℕ → ℕ
oldest_age_seconds now none = 0
oldest_age_seconds now (some at) = (now - at) / 1000

-- Whether the warning about a stale entry is logged.
unfoldable pub is_stale : ℕ → Depth → Bool
is_stale now d = ltb (14 * 24 * 60 * 60) (oldest_age_seconds now d.oldest_open)

module _ (dq : DeadQueue) where
  -- The outer loop, on fuel; `none` says that the fuel ran out.
  unfoldable pub depth_loop : ℕ → dq.Queue → ℕ → Depth → Option Depth
  depth_loop zero q offset d = none
  depth_loop (suc fuel) q offset d =
      let jobs = dq.get_jobs q offset (offset + list_scan_window - 1) in
      let d' = count_jobs d jobs in
      let rest = depth_loop fuel q (offset + length jobs) d' in
      if length jobs == 0
      then some d
      else if ltb (length jobs) list_scan_window
      then some d'
      else rest

  unfoldable pub emit_depth_metrics : ℕ → dq.Queue → Option Depth
  emit_depth_metrics fuel q = depth_loop fuel q 0 no_depth
