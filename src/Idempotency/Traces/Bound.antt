-- ===== src/Idempotency/Traces/Bound.antt =====
-- How often the calls of a sequence let a handler run: packages/backend/src/idempotency/idempotency.service.ts.
use Prim.Native.String.{String}
use backit_on_stellar.Prelude.{
  ℕ, ◌+◌, ◌≤◌, ◌≡◌, ◌≢◌, refl, false, ◌&&◌, if◌then◌else◌, arith, inl, inr, Option, none, some,
  List, [], ◌∷◌, Bool-cases,
}
use backit_on_stellar.Prelude.Text.{str_eq}
use backit_on_stellar.Prelude.Json.{Value}
use backit_on_stellar.Prelude.Repo.{Repo}
use backit_on_stellar.Idempotency.{
  State, in_progress, success, failed, retryable, ClaimKey, IdempotencyRecord, Service,
  claim_or_replay, claim_same, complete_with, fail, cleanup_expired, is_retryable, same_id,
  same_id_iff,
}
use backit_on_stellar.Idempotency.Sanitise.{complete}
use backit_on_stellar.Idempotency.Lifecycle.{row}
use backit_on_stellar.Idempotency.Traces.{
  Op, claim, done, failure, cleanup, granted, step, executions, step_frame,
}

-- 1 if the key's record does not stand in the way of a claim.
abbrev pub slot_of : State → ℕ
slot_of retryable = 1
slot_of in_progress = 0
slot_of success = 0
slot_of failed = 0

abbrev pub slot : Option IdempotencyRecord → ℕ
slot none = 1
slot (some r) = slot_of r.state

-- 1 if the call may let the key be claimed anew: a retryable failure of it, or a clean-up.
abbrev pub renewal : ClaimKey → Op → ℕ
renewal k (claim id fp now) = 0
renewal k (done id status body now) = 0
renewal k (failure id status reason now) = if same_id id k && is_retryable status then 1 else 0
renewal k (cleanup now) = 1

abbrev pub renewals : ClaimKey → List Op → ℕ
renewals k [] = 0
renewals k (op ∷ ops) = renewal k op + renewals k ops

differs : (id k : ClaimKey) → same_id id k ≡ false → id ≢ k
differs id k t e = cc ((same_id_iff id k).1 e)

module _ (db : Repo ClaimKey IdempotencyRecord) where
  claim_same-slot :
      (st : State) (s : Service db.Table) (k : ClaimKey) (r : IdempotencyRecord) (now : ℕ)
      → row db s k ≡ some r
      → r.state ≡ st
      → granted db (claim_same db st s k r now).0 + slot (row db (claim_same db st s k r now).1 k)
        ≤ slot_of st
  unfolding claim_same
  claim_same-slot in_progress s k r now e q = rw (e, q) (omega arith)
  claim_same-slot success s k r now e q = rw (e, q) (omega arith)
  claim_same-slot failed s k r now e q = rw (e, q) (omega arith)
  claim_same-slot retryable s k r now e q = rw (db.find_one-save_self _ _ _) (omega arith)

  claim_slot :
      (s : Service db.Table) (k : ClaimKey) (fp : String) (now : ℕ) (o : Option IdempotencyRecord)
      → row db s k ≡ o
      → granted db (claim_or_replay db s k fp now).0
          + slot (row db (claim_or_replay db s k fp now).1 k)
        ≤ slot o
  unfolding claim_or_replay
  claim_slot s k fp now none e = rw (e, db.find_one-save_self _ _ _) (omega arith)
  claim_slot s k fp now (some r) e = rw e (elim (Bool-cases (str_eq r.fingerprint fp)) [
    | inl t ↦ rw t (claim_same-slot r.state s k r now e refl)
    | inr t ↦ rw (t, e) (omega arith)
  ])

  slot-complete :
      (s : Service db.Table) (k : ClaimKey) (status now : ℕ) (body : Value)
      (o : Option IdempotencyRecord)
      → row db s k ≡ o
      → slot (row db (complete db s k status body now) k) ≤ slot o
  unfolding complete complete_with
  slot-complete s k status now body none e = rw (e, e) (omega arith)
  slot-complete s k status now body (some r) e = rw (e, db.find_one-save_self _ _ _) (omega arith)

  slot-fail :
      (s : Service db.Table) (k : ClaimKey) (status now : ℕ) (reason : List ℕ)
      (o : Option IdempotencyRecord)
      → row db s k ≡ o
      → slot (row db (fail db s k status reason now) k)
        ≤ slot o + (if is_retryable status then 1 else 0)
  unfolding fail
  slot-fail s k status now reason none e = rw (e, e) (omega arith)
  slot-fail s k status now reason (some r) e =
      rw (e, db.find_one-save_self _ _ _)
        (elim (Bool-cases (is_retryable status)) [
          | inl t ↦ rw t (omega arith)
          | inr t ↦ rw t (omega arith)
        ])

  slot-le-one : (o : Option IdempotencyRecord) → slot o ≤ 1
  slot-le-one none = omega arith
  slot-le-one (some r) = state_bound r.state
    where
      state_bound : (st : State) → slot_of st ≤ 1
      state_bound in_progress = omega arith
      state_bound success = omega arith
      state_bound failed = omega arith
      state_bound retryable = omega arith

  -- One call: a granted claim uses up the key's slot, and only a renewal frees one.
  step-slot :
      (s : Service db.Table) (k : ClaimKey) (op : Op)
      → (step db k s op).0 + slot (row db (step db k s op).1 k) ≤ slot (row db s k) + renewal k op
  unfolding step
  step-slot s k (claim id fp now) = elim (Bool-cases (same_id id k)) [
    | inl t ↦ rw t (rw ((same_id_iff id k).0 t) (omega (arith, claim_slot s k fp now _ refl)))
    | inr t ↦ rw t (rw (step_frame db s k (claim id fp now) (differs id k t)) (omega arith))
  ]
  step-slot s k (done id status body now) = elim (Bool-cases (same_id id k)) [
    | inl t ↦ rw ((same_id_iff id k).0 t) (omega (arith, slot-complete s k status now body _ refl))
    | inr t ↦ rw (step_frame db s k (done id status body now) (differs id k t)) (omega arith)
  ]
  step-slot s k (failure id status reason now) = elim (Bool-cases (same_id id k)) [
    | inl t ↦
        rw t (rw ((same_id_iff id k).0 t) (omega (arith, slot-fail s k status now reason _ refl)))
    | inr t ↦
        rw t (rw (step_frame db s k (failure id status reason now) (differs id k t)) (omega arith))
  ]
  step-slot s k (cleanup now) = omega (arith, slot-le-one (row db (cleanup_expired db s now) k))

  -- Over any interleaving of calls, the handler of a key is let run at most once for a key that is
  -- free at the start, and once more for each retryable failure of the key and each clean-up.
  pub executions_bounded :
      (s : Service db.Table) (k : ClaimKey) (ops : List Op)
      → executions db k s ops ≤ slot (row db s k) + renewals k ops
  unfolding executions
  executions_bounded s k [] = omega arith
  executions_bounded s k (op ∷ ops) =
      omega (arith, step-slot s k op, executions_bounded (step db k s op).1 k ops)
