-- ===== src/DeadLetter/Cleanup/Loop.antt =====
-- When the loop of `cleanupExpiredEntries`
-- (packages/backend/src/common/queues/dead-letter.service.ts) ends.
use Prim.Native.String.{String}
use backit_on_stellar.Prelude.{
  ℕ, zero, suc, ◌+◌, ◌-◌, ◌≡◌, ◌≤◌, ◌<◌, refl, ◌∙◌, ap, true, false, List, [], ◌∷◌, Option, none,
  some, if◌then◌else◌, length, length-take, ltb, ◌==◌, take, take_all, arith, inl, inr, Bool-cases,
}
use backit_on_stellar.Prelude.Text.{str_eq, str_eq_iff}
use backit_on_stellar.DeadLetter.Entry.{Payload}
use backit_on_stellar.DeadLetter.Queue.{DeadQueue, find, find-erase_self}
use backit_on_stellar.DeadLetter.Queue.Unique.{find-erase-none}
use backit_on_stellar.DeadLetter.Cleanup.{
  should_remove, sweep, cleanup_loop, cleanup_expired_entries, batch,
}

-- None of the jobs is to be removed.
abbrev pub NoneExpired : ℕ → List (String × Payload) → Type 0
NoneExpired now [] = Unit
NoneExpired now ((id, p) ∷ jobs) = (should_remove now id p ≡ false) × NoneExpired now jobs

sweep_none :
    (dq : DeadQueue) (now : ℕ) (jobs : List (String × Payload)) (q : dq.Queue) (removed : ℕ)
    → NoneExpired now jobs
    → sweep dq now jobs q removed ≡ (q, removed)
unfolding sweep
sweep_none dq now [] q removed h = refl
sweep_none dq now ((id, p) ∷ jobs) q removed (keep, h) =
    rw keep (sweep_none dq now jobs q removed h)

loop_stuck :
    (dq : DeadQueue) (now : ℕ) (q : dq.Queue)
    → NoneExpired now (take batch (dq.waiting q))
    → batch ≤ length (dq.waiting q)
    → (fuel removed : ℕ) → cleanup_loop dq fuel now q removed ≡ none
unfolding cleanup_loop
loop_stuck dq now q h many zero removed = refl
loop_stuck dq now q h many (suc fuel) removed =
    let jobs = dq.get_jobs q 0 (0 + batch - 1) in
    let jobs_are : jobs ≡ take batch (dq.waiting q) = dq.get_jobs-waiting q 0 (0 + batch - 1) in
    let count : length jobs ≡ 200 =
      ap length jobs_are ∙ omega (arith, length-take batch (dq.waiting q)) in
    let some_jobs : (length jobs == 0) ≡ false = ground (arith, count) in
    let full : ltb (length jobs) batch ≡ false = ground (arith, count) in
    let same : sweep dq now jobs q removed ≡ (q, removed) =
      sweep_none dq now jobs q removed (rw jobs_are h) in
    rw (some_jobs, full, same) (loop_stuck dq now q h many fuel removed)

-- If a whole batch stands at the front of the queue and none of its entries is to be removed, the
-- clean-up never ends, however many rounds it is given.
pub cleanup_diverges :
    (dq : DeadQueue) (now : ℕ) (q : dq.Queue)
    → NoneExpired now (take 200 (dq.waiting q))
    → 200 ≤ length (dq.waiting q)
    → (fuel : ℕ) → cleanup_expired_entries dq fuel now q ≡ none
unfolding cleanup_expired_entries
cleanup_diverges dq now q h many fuel = loop_stuck dq now q h many fuel 0

module _ (dq : DeadQueue) (now : ℕ) where
  -- An id that is gone stays gone.
  gone_stays :
      (jobs : List (String × Payload)) (q : dq.Queue) (removed : ℕ) (id : String)
      → find id (dq.waiting q) ≡ none
      → find id (dq.waiting (sweep dq now jobs q removed).0) ≡ none
  unfolding sweep
  gone_stays [] q removed id h = h
  gone_stays ((j, r) ∷ jobs) q removed id h =
      gone_stays jobs (if should_remove now j r then dq.remove q j else q)
        (if should_remove now j r then suc removed else removed) id
        (elim (Bool-cases (should_remove now j r)) [
          | inr t ↦ rw t h
          | inl t ↦ rw (t, dq.waiting-remove q j) (find-erase-none id j _ h)
        ])

  removed_now :
      (q : dq.Queue) (j id : String) (r : Payload)
      → j ≡ id
      → should_remove now j r ≡ true
      → find id (dq.waiting (if should_remove now j r then dq.remove q j else q)) ≡ none
  removed_now q j id r e t = rw (t, dq.waiting-remove q j, e) (find-erase_self id _)

  same_job :
      (j id : String) (r p : Payload) (rest : Option Payload)
      → (if str_eq j id then some r else rest) ≡ some p
      → str_eq j id ≡ true
      → should_remove now id p ≡ true
      → should_remove now j r ≡ true
  same_job j id r p rest h t gone =
      let e : j ≡ id = (str_eq_iff j id).0 t in
      let s : some r ≡ some p = rw t at h in let k : r ≡ p = cc in rw (e, k) gone

  -- A sweep removes every job that it reads and that is to be removed.
  sweep_removes :
      (jobs : List (String × Payload)) (q : dq.Queue) (removed : ℕ) (id : String) (p : Payload)
      → find id jobs ≡ some p
      → should_remove now id p ≡ true
      → find id (dq.waiting (sweep dq now jobs q removed).0) ≡ none
  unfolding sweep find
  sweep_removes [] q removed id p h gone = cc
  sweep_removes ((j, r) ∷ jobs) q removed id p h gone = elim (Bool-cases (str_eq j id)) [
    | inr t ↦ sweep_removes jobs _ _ id p (rw t at h) gone
    | inl t ↦
        gone_stays jobs _ _ id
          (removed_now q j id r ((str_eq_iff j id).0 t) (same_job j id r p _ h t gone))
  ]

nothing_held :
    (id : String) (jobs : List (String × Payload)) → (length jobs == 0) ≡ true → find id jobs ≡ none
unfolding find
nothing_held id [] h = refl
nothing_held id (j ∷ jobs) h = ground (arith, h)

-- With fewer than 200 entries the clean-up ends after one round, and every entry that is past its
-- retention is gone.
pub short_cleanup_removes :
    (dq : DeadQueue) (fuel now : ℕ) (q : dq.Queue)
    → length (dq.waiting q) < 200
    → (r : dq.Queue × ℕ) × (cleanup_expired_entries dq (suc fuel) now q ≡ some r)
      × ((id : String) (p : Payload)
          → find id (dq.waiting q) ≡ some p
          → should_remove now id p ≡ true
          → find id (dq.waiting r.0) ≡ none)
unfolding cleanup_expired_entries cleanup_loop
short_cleanup_removes dq fuel now q few =
    let jobs_are : dq.get_jobs q 0 199 ≡ dq.waiting q =
      dq.get_jobs-waiting q 0 199
      ∙ take_all 200 (dq.waiting q) (λ e. omega (arith, e, few, length-take 200 (dq.waiting q))) in
    let short : ltb (length (dq.waiting q)) batch ≡ true = ground (arith, few) in
    elim (Bool-cases (length (dq.waiting q) == 0)) [
      | inl t ↦ ((q, 0), rw (jobs_are, t) refl, λ id p h gone. nothing_held id (dq.waiting q) t)
      | inr t ↦ (
        sweep dq now (dq.waiting q) q 0,
        rw (jobs_are, t, short) refl,
        λ id p h gone. sweep_removes dq now (dq.waiting q) q 0 id p h gone,
      )
    ]
