-- ===== src/DeadLetter/Cleanup.antt =====
-- `cleanupExpiredEntries` of packages/backend/src/common/queues/dead-letter.service.ts: entries whose
-- decision is older than its retention are removed, window by window from the front of the queue.
pub mod Keeps
pub mod Loop
use Prim.Native.String.{String}
use backit_on_stellar.Prelude.{
  ℕ, zero, suc, ◌+◌, ◌-◌, ◌*◌, ◌≡◌, Bool, true, false, ◌&&◌, ◌||◌, List, [], ◌∷◌, Option, none,
  some, if◌then◌else◌, or_else, length, ltb, ◌==◌,
}
use backit_on_stellar.DeadLetter.Entry.{
  ReplayStatus, opened, replayed, dismissed, Payload, Entry, normalize_entry,
}
use backit_on_stellar.DeadLetter.Queue.{DeadQueue}

abbrev pub day_ms : ℕ
day_ms = 24 * 60 * 60 * 1000

abbrev pub replayed_retention : ℕ
replayed_retention = 7 * day_ms

abbrev pub dismissed_retention : ℕ
dismissed_retention = 30 * day_ms

abbrev pub batch : ℕ
batch = 200

-- The instant that decides, by the status of the entry.
abbrev pub decision_time : ReplayStatus → Entry → ℕ
decision_time opened e = e.moved_at
decision_time replayed e = or_else e.replayed_at e.moved_at
decision_time dismissed e = or_else e.dismissed_at e.moved_at

abbrev pub is_past : ReplayStatus → ℕ → ℕ → Bool
is_past opened at now = false
is_past replayed at now = ltb at (now - replayed_retention)
is_past dismissed at now = ltb at (now - dismissed_retention)

unfoldable pub should_remove : ℕ → String → Payload → Bool
unfolding normalize_entry
should_remove now id p =
    let e = normalize_entry id p in is_past e.replay_status (decision_time e.replay_status e) now

module _ (dq : DeadQueue) where
  -- The inner loop: the jobs of one batch, with the count of the removed ones.
  unfoldable pub sweep : ℕ → List (String × Payload) → dq.Queue → ℕ → dq.Queue × ℕ
  sweep now [] q removed = (q, removed)
  sweep now ((id, p) ∷ jobs) q removed =
      let gone = should_remove now id p in
      sweep now jobs (if gone then dq.remove q id else q) (if gone then suc removed else removed)

  -- The outer loop, `for (;;)`, on fuel; `none` says that the fuel ran out. The offset stays 0.
  unfoldable pub cleanup_loop : ℕ → ℕ → dq.Queue → ℕ → Option (dq.Queue × ℕ)
  cleanup_loop zero now q removed = none
  cleanup_loop (suc fuel) now q removed =
      let jobs = dq.get_jobs q 0 (0 + batch - 1) in
      let swept = sweep now jobs q removed in
      let rest = cleanup_loop fuel now swept.0 swept.1 in
      if length jobs == 0
      then some (q, removed)
      else if ltb (length jobs) batch
      then some swept
      else rest

  unfoldable pub cleanup_expired_entries : ℕ → ℕ → dq.Queue → Option (dq.Queue × ℕ)
  cleanup_expired_entries fuel now q = cleanup_loop fuel now q 0
