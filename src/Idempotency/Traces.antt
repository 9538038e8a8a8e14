-- ===== src/Idempotency/Traces.antt =====
-- Sequences of operations of packages/backend/src/idempotency/idempotency.service.ts, on any keys
-- and in any order, as concurrent requests and the hourly clean-up interleave them.
pub mod Bound
use Prim.Native.String.{String}
use backit_on_stellar.Prelude.{
  ℕ, zero, suc, ◌+◌, ◌≤◌, ◌≡◌, ◌≢◌, refl, sym, Bool, true, false, not, ◌&&◌, ltb, if◌then◌else◌,
  arith, inl, inr, ◌⊎◌, Option, none, some, List, [], ◌∷◌, Bool-cases,
}
use backit_on_stellar.Prelude.Text.{str_eq, str_eq_iff}
use backit_on_stellar.Prelude.Json.{Value}
use backit_on_stellar.Prelude.Repo.{Repo, spare}
use backit_on_stellar.Idempotency.{
  State, in_progress, success, failed, retryable, ClaimKey, IdempotencyRecord, ClaimResult, claimed,
  replayed, busy, conflict, Service, claim_or_replay, claim_same, complete_with, fail,
  cleanup_expired, is_retryable, is_expired, same_id, same_id_iff,
}
use backit_on_stellar.Idempotency.Sanitise.{complete}
use backit_on_stellar.Idempotency.Lifecycle.{row, cleanup_row}

-- A call of the service with its arguments and the time of the call.
pub data Op : Type 0 where
  claim : ClaimKey → String → ℕ → Op
  done : ClaimKey → ℕ → Value → ℕ → Op
  failure : ClaimKey → ℕ → List ℕ → ℕ → Op
  cleanup : ℕ → Op

module _ (db : Repo ClaimKey IdempotencyRecord) where
  -- The state after a call, and 1 if the call granted a claim of the key.
  abbrev pub granted : ClaimResult → ℕ
  granted claimed = 1
  granted (replayed status body) = 0
  granted busy = 0
  granted conflict = 0

  unfoldable pub step : ClaimKey → Service db.Table → Op → ℕ × Service db.Table
  step k s (claim id fp now) =
      let (r, s') = claim_or_replay db s id fp now in (if same_id id k then granted r else 0, s')
  step k s (done id status body now) = (0, complete db s id status body now)
  step k s (failure id status reason now) = (0, fail db s id status reason now)
  step k s (cleanup now) = (0, cleanup_expired db s now)

  -- How often the handler of the key was let run.
  unfoldable pub executions : ClaimKey → Service db.Table → List Op → ℕ
  executions k s [] = 0
  executions k s (op ∷ ops) = let (n, s') = step k s op in n + executions k s' ops

  -- A table that differs from another in the row of one key at most.
  Touched : db.Table → ClaimKey → db.Table → Type 0
  Touched t id t' = (t' ≡ t) ⊎ ((r : IdempotencyRecord) × (t' ≡ db.save t id r))

  Touched-row :
      {t t' : db.Table} (id k : ClaimKey)
      → Touched t id t'
      → id ≢ k
      → db.find_one t' k ≡ db.find_one t k
  unfolding Touched
  Touched-row id k (inl e) h = rw e
  Touched-row id k (inr (r, e)) h = rw e (db.find_one-save_ne _ _ _ _ h)

  claim_same-Touched :
      (st : State) (s : Service db.Table) (id : ClaimKey) (r : IdempotencyRecord) (now : ℕ)
      → Touched s.table id (claim_same db st s id r now).1.table
  unfolding Touched claim_same
  claim_same-Touched in_progress s id r now = inl refl
  claim_same-Touched success s id r now = inl refl
  claim_same-Touched failed s id r now = inl refl
  claim_same-Touched retryable s id r now = inr (_, refl)

  claim-Touched_of :
      (s : Service db.Table) (id : ClaimKey) (fp : String) (now : ℕ) (o : Option IdempotencyRecord)
      → row db s id ≡ o
      → Touched s.table id (claim_or_replay db s id fp now).1.table
  unfolding Touched claim_or_replay
  claim-Touched_of s id fp now none e = rw e (inr (_, refl))
  claim-Touched_of s id fp now (some r) e = rw e (elim (Bool-cases (str_eq r.fingerprint fp)) [
    | inl t ↦ rw t (claim_same-Touched r.state s id r now)
    | inr t ↦ rw t (inl refl)
  ])

  complete-Touched_of :
      (s : Service db.Table) (id : ClaimKey) (status now : ℕ) (body : Value)
      (o : Option IdempotencyRecord)
      → row db s id ≡ o
      → Touched s.table id (complete db s id status body now).table
  unfolding Touched complete complete_with
  complete-Touched_of s id status now body none e = rw e (inl refl)
  complete-Touched_of s id status now body (some r) e = rw e (inr (_, refl))

  fail-Touched_of :
      (s : Service db.Table) (id : ClaimKey) (status now : ℕ) (reason : List ℕ)
      (o : Option IdempotencyRecord)
      → row db s id ≡ o
      → Touched s.table id (fail db s id status reason now).table
  unfolding Touched fail
  fail-Touched_of s id status now reason none e = rw e (inl refl)
  fail-Touched_of s id status now reason (some r) e = rw e (inr (_, refl))

  -- The key that a call is about; the clean-up is about none.
  abbrev pub About : ClaimKey → Op → Type 0
  About k (claim id fp now) = id ≡ k
  About k (done id status body now) = id ≡ k
  About k (failure id status reason now) = id ≡ k
  About k (cleanup now) = Unit

  -- A claim, a completion or a failure of one key leaves the record of every other key as it was.
  pub step_frame :
      (s : Service db.Table) (k : ClaimKey) (op : Op)
      → ¬ About k op
      → row db (step k s op).1 k ≡ row db s k
  unfolding step
  step_frame s k (claim id fp now) h = Touched-row id k (claim-Touched_of s id fp now _ refl) h
  step_frame s k (done id status body now) h =
      Touched-row id k (complete-Touched_of s id status now body _ refl) h
  step_frame s k (failure id status reason now) h =
      Touched-row id k (fail-Touched_of s id status now reason _ refl) h
  step_frame s k (cleanup now) h = absurd (h tt)
