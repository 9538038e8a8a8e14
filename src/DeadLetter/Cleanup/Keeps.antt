-- ===== src/DeadLetter/Cleanup/Keeps.antt =====
-- What the clean-up of packages/backend/src/common/queues/dead-letter.service.ts never removes.
use Prim.Native.String.{String}
use mathlib.Core.Option.{some-injective}
use backit_on_stellar.Prelude.{
  ℕ, zero, suc, ◌+◌, ◌-◌, ◌≡◌, ◌≤◌, ◌∙◌, ap, true, false, List, [], ◌∷◌, none, some, if◌then◌else◌,
  or_else, length, ltb, ◌==◌, take, arith, ◌⊎◌, inl, inr, Bool-cases,
}
use backit_on_stellar.Prelude.Text.{str_eq, str_eq_iff}
use backit_on_stellar.DeadLetter.Entry.{opened, replayed, dismissed, Payload}
use backit_on_stellar.DeadLetter.Queue.{DeadQueue, find, find-erase_ne}
use backit_on_stellar.DeadLetter.Queue.Unique.{
  Unique, Unique-take, Unique-erase, HeldIn, HeldIn-take, HeldIn-erase,
}
use backit_on_stellar.DeadLetter.Cleanup.{
  should_remove, sweep, cleanup_loop, cleanup_expired_entries, replayed_retention,
  dismissed_retention, batch,
}

-- Entries that are to stay: open ones, and decided ones within their retention.
unfoldable pub Protected : ℕ → Payload → Type 0
Protected now p =
    (or_else p.replay_status opened ≡ opened)
    ⊎ ((p.replay_status ≡ some replayed)
        × (now ≤ or_else p.replayed_at p.moved_at + replayed_retention))
    ⊎ ((p.replay_status ≡ some dismissed)
        × (now ≤ or_else p.dismissed_at p.moved_at + dismissed_retention))

Protected-kept :
    (now : ℕ) (id : String) (p : Payload) → Protected now p → should_remove now id p ≡ false
unfolding Protected should_remove
Protected-kept now id p h = ground arith

result_queue : {Q : Type 0} {r r' : Q × ℕ} → some r ≡ some r' → r.0 ≡ r'.0
result_queue h = ap (λ x. x.0) (some-injective _ _ h)

module _ (dq : DeadQueue) (now : ℕ) where
  clash :
      (q : dq.Queue) (j id : String) (r p : Payload)
      → j ≡ id
      → find j (dq.waiting q) ≡ some r
      → find id (dq.waiting q) ≡ some p
      → should_remove now j r ≡ true
      → should_remove now id p ≡ false
      → ⊥
  clash q j id r p e read held gone keep = cc

  -- One removal, or none, keeps an entry that is not to be removed.
  sweep_one :
      (q : dq.Queue) (j id : String) (r p : Payload)
      → find j (dq.waiting q) ≡ some r
      → find id (dq.waiting q) ≡ some p
      → should_remove now id p ≡ false
      → find id (dq.waiting (if should_remove now j r then dq.remove q j else q)) ≡ some p
  sweep_one q j id r p read held keep = elim (Bool-cases (should_remove now j r)) [
    | inr t ↦ rw t held
    | inl t ↦ elim (Bool-cases (str_eq j id)) [
      | inl e ↦ absurd (clash q j id r p ((str_eq_iff j id).0 e) read held t keep)
      | inr e ↦
          rw (t, dq.waiting-remove q j)
            (find-erase_ne j id _ (λ x. cc ((str_eq_iff j id).1 x)) ∙ held)
    ]
  ]

  sweep_held :
      (q : dq.Queue) (j : String) (r : Payload) (jobs : List (String × Payload))
      → find j jobs ≡ none
      → HeldIn (dq.waiting q) jobs
      → HeldIn (dq.waiting (if should_remove now j r then dq.remove q j else q)) jobs
  sweep_held q j r jobs h held = elim (Bool-cases (should_remove now j r)) [
    | inr t ↦ rw t held
    | inl t ↦ rw (t, dq.waiting-remove q j) (HeldIn-erase j _ jobs h held)
  ]

  pub sweep_keeps :
      (jobs : List (String × Payload)) (q : dq.Queue) (removed : ℕ) (id : String) (p : Payload)
      → Unique jobs
      → HeldIn (dq.waiting q) jobs
      → find id (dq.waiting q) ≡ some p
      → should_remove now id p ≡ false
      → find id (dq.waiting (sweep dq now jobs q removed).0) ≡ some p
  unfolding sweep
  sweep_keeps [] q removed id p u held h keep = h
  sweep_keeps ((j, r) ∷ jobs) q removed id p (fresh, u) (here, held) h keep =
      sweep_keeps jobs (if should_remove now j r then dq.remove q j else q)
        (if should_remove now j r then suc removed else removed) id p u
        (sweep_held q j r jobs fresh held) (sweep_one q j id r p here h keep) keep

  pub sweep-Unique :
      (jobs : List (String × Payload)) (q : dq.Queue) (removed : ℕ)
      → Unique (dq.waiting q)
      → Unique (dq.waiting (sweep dq now jobs q removed).0)
  unfolding sweep
  sweep-Unique [] q removed u = u
  sweep-Unique ((j, r) ∷ jobs) q removed u =
      sweep-Unique jobs (if should_remove now j r then dq.remove q j else q)
        (if should_remove now j r then suc removed else removed)
        (elim (Bool-cases (should_remove now j r)) [
          | inr t ↦ rw t u
          | inl t ↦ rw (t, dq.waiting-remove q j) (Unique-erase j _ u)
        ])

  abbrev first_jobs : dq.Queue → List (String × Payload)
  first_jobs q = dq.get_jobs q 0 (0 + batch - 1)

  first_jobs-take : (q : dq.Queue) → first_jobs q ≡ take batch (dq.waiting q)
  first_jobs-take q = dq.get_jobs-waiting q 0 (0 + batch - 1)

  batch_keeps :
      (q : dq.Queue) (removed : ℕ) (id : String) (p : Payload)
      → Unique (dq.waiting q)
      → find id (dq.waiting q) ≡ some p
      → should_remove now id p ≡ false
      → find id (dq.waiting (sweep dq now (first_jobs q) q removed).0) ≡ some p
  batch_keeps q removed id p u h keep =
      sweep_keeps (first_jobs q) q removed id p (rw (first_jobs-take q) (Unique-take batch _ u))
        (rw (first_jobs-take q) (HeldIn-take batch _ u)) h keep

  loop_keeps :
      (fuel : ℕ) (q q' : dq.Queue) (removed removed' : ℕ) (id : String) (p : Payload)
      → Unique (dq.waiting q)
      → find id (dq.waiting q) ≡ some p
      → should_remove now id p ≡ false
      → cleanup_loop dq fuel now q removed ≡ some (q', removed')
      → find id (dq.waiting q') ≡ some p
  unfolding cleanup_loop
  loop_keeps zero q q' removed removed' id p u h keep e = cc
  loop_keeps (suc fuel) q q' removed removed' id p u h keep e =
      let swept = sweep dq now (first_jobs q) q removed in
      let kept = batch_keeps q removed id p u h keep in
      elim (Bool-cases (length (first_jobs q) == 0)) [
        | inl t ↦ rw (← result_queue (rw t at e)) h
        | inr t ↦ elim (Bool-cases (ltb (length (first_jobs q)) batch)) [
          | inl s ↦ rw (← result_queue (rw (t, s) at e)) kept
          | inr s ↦
              loop_keeps fuel swept.0 q' swept.1 removed' id p
                (sweep-Unique (first_jobs q) q removed u) kept keep (rw (t, s) at e)
        ]
      ]

-- On a queue whose entries have distinct ids, whenever the clean-up ends, it has kept unchanged
-- every open entry, and every decided entry that is within its retention.
pub cleanup_keeps :
    (dq : DeadQueue) (fuel now : ℕ) (q q' : dq.Queue) (removed : ℕ) (id : String) (p : Payload)
    → Unique (dq.waiting q)
    → find id (dq.waiting q) ≡ some p
    → Protected now p
    → cleanup_expired_entries dq fuel now q ≡ some (q', removed)
    → find id (dq.waiting q') ≡ some p
unfolding cleanup_expired_entries
cleanup_keeps dq fuel now q q' removed id p u h safe e =
    loop_keeps dq now fuel q q' 0 removed id p u h (Protected-kept now id p safe) e
