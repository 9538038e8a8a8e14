-- ===== src/Payouts/Claims.antt =====
-- What the operations of packages/backend/src/payouts/payouts.service.ts do to the claims.
use Prim.Native.String.{String}
use backit_on_stellar.Prelude.{
  ℕ, ◌≡◌, ◌≢◌, refl, sym, ap, ◌∙◌, List, [], ◌∷◌, All, some, Bool-cases, inl, inr,
}
use backit_on_stellar.Prelude.Repo.{Repo}
use backit_on_stellar.Payouts.{
  pending, failed, Staker, same_staker, same_staker_iff, PayoutClaim, Payouts, upsert_pending_claim,
  mark_claimed, mark_failed,
}

-- A call of the service with its arguments and the time of the call.
pub data Op : Type 0 where
  upsert : Staker → String → ℕ → Op
  claim : Staker → String → ℕ → ℕ → Op
  failure : Staker → ℕ → Op

abbrev pub staker_of : Op → Staker
staker_of (upsert k amount now) = k
staker_of (claim k tx_hash claimed_at now) = k
staker_of (failure k now) = k

-- The operation is not another payment for the staker.
abbrev pub Spares : Staker → Op → Type 0
Spares k (claim j tx_hash claimed_at now) = j ≢ k
Spares k (upsert j amount now) = Unit
Spares k (failure j now) = Unit

module _ (db : Repo Staker PayoutClaim) (to_number : String → ℕ) where
  unfoldable pub step : Payouts db.Table → Op → PayoutClaim × Payouts db.Table
  step s (upsert k amount now) = upsert_pending_claim db to_number s k amount now
  step s (claim k tx_hash claimed_at now) = mark_claimed db to_number s k tx_hash claimed_at now
  step s (failure k now) = mark_failed db to_number s k now

  -- Every operation gives back the claim that it stores for its call and staker, and leaves the
  -- claims of all others as they were.
  pub step_row :
      (s : Payouts db.Table) (op : Op) (other : Staker)
      → staker_of op ≢ other
      → (db.find_one (step s op).1.table (staker_of op) ≡ some (step s op).0)
        × (db.find_one (step s op).1.table other ≡ db.find_one s.table other)
  unfolding step upsert_pending_claim mark_claimed mark_failed
  step_row s (upsert k amount now) other h =
      (db.find_one-save_self _ _ _, db.find_one-save_ne _ _ _ _ h)
  step_row s (claim k tx_hash claimed_at now) other h =
      (db.find_one-save_self _ _ _, db.find_one-save_ne _ _ _ _ h)
  step_row s (failure k now) other h = (db.find_one-save_self _ _ _, db.find_one-save_ne _ _ _ _ h)

  unfoldable pub run : Payouts db.Table → List Op → Payouts db.Table
  run s [] = s
  run s (op ∷ ops) = run (step s op).1 ops

  -- The row of a staker has this hash and time of a payment.
  abbrev Shows : Payouts db.Table → Staker → String → ℕ → Type 0
  Shows s k tx_hash claimed_at =
      (c : PayoutClaim) × (db.find_one s.table k ≡ some c)
      × (c.tx_hash ≡ some tx_hash)
      × (c.claimed_at ≡ some claimed_at)

  own-Shows :
      (s : Payouts db.Table) (op : Op) (k : Staker) (tx_hash : String) (claimed_at : ℕ)
      → k ≡ staker_of op
      → Spares k op
      → Shows s k tx_hash claimed_at
      → Shows (step s op).1 k tx_hash claimed_at
  unfolding step upsert_pending_claim mark_failed
  own-Shows s (upsert j amount now) k tx_hash claimed_at same spares (c, found, tx, at) =
      let c' : PayoutClaim = record c { amount = amount; status = pending } in
      let own : db.find_one s.table j ≡ some c = ap (db.find_one s.table) (sym same) ∙ found in
      (c', ap (db.find_one _) same ∙ rw own (db.find_one-save_self _ _ _), tx, at)
  own-Shows s (failure j now) k tx_hash claimed_at same spares (c, found, tx, at) =
      let c' : PayoutClaim = record c { status = failed } in
      let own : db.find_one s.table j ≡ some c = ap (db.find_one s.table) (sym same) ∙ found in
      (c', ap (db.find_one _) same ∙ rw own (db.find_one-save_self _ _ _), tx, at)
  own-Shows s (claim j other paid now) k tx_hash claimed_at same spares shows =
      absurd (spares (sym same))

  step-Shows :
      (s : Payouts db.Table) (op : Op) (k : Staker) (tx_hash : String) (claimed_at : ℕ)
      → Spares k op
      → Shows s k tx_hash claimed_at
      → Shows (step s op).1 k tx_hash claimed_at
  step-Shows s op k tx_hash claimed_at spares (c, found, tx, at) =
      elim (Bool-cases (same_staker (staker_of op) k)) [
        | inl e ↦
            let same : staker_of op ≡ k = (same_staker_iff (staker_of op) k).0 e in
            own-Shows s op k tx_hash claimed_at (sym same) spares (c, found, tx, at)
        | inr e ↦
            let other : staker_of op ≢ k = λ q. cc ((same_staker_iff (staker_of op) k).1 q) in
            (c, (step_row s op k other).1 ∙ found, tx, at)
      ]

  run-Shows :
      (s : Payouts db.Table) (ops : List Op) (k : Staker) (tx_hash : String) (claimed_at : ℕ)
      → All (Spares k) ops
      → Shows s k tx_hash claimed_at
      → Shows (run s ops) k tx_hash claimed_at
  unfolding run
  run-Shows s [] k tx_hash claimed_at spares h = h
  run-Shows s (op ∷ ops) k tx_hash claimed_at spares h =
      run-Shows (step s op).1 ops k tx_hash claimed_at spares.1
        (step-Shows s op k tx_hash claimed_at spares.0 h)

  -- After a payment, and whatever follows but another payment for the same call and staker, a pending
  -- claim for it resets the status of the stored row to pending and its amount, yet the hash and the
  -- time of the payment stay in the row.
  pub claim_then_upsert :
      (s : Payouts db.Table) (k : Staker) (tx_hash amount : String) (claimed_at now later : ℕ)
      (ops : List Op)
      → All (Spares k) ops
      → let s' = run s (claim k tx_hash claimed_at now ∷ ops) in
        (c : PayoutClaim) × (db.find_one (step s' (upsert k amount later)).1.table k ≡ some c)
        × (c.status ≡ pending)
        × (c.amount ≡ amount)
        × (c.tx_hash ≡ some tx_hash)
        × (c.claimed_at ≡ some claimed_at)
  unfolding run step mark_claimed upsert_pending_claim
  claim_then_upsert s k tx_hash amount claimed_at now later ops spares =
      let paid : Payouts db.Table = (step s (claim k tx_hash claimed_at now)).1 in
      let shown : Shows paid k tx_hash claimed_at = (_, db.find_one-save_self _ _ _, refl, refl) in
      let (c, found, tx, at) = run-Shows paid ops k tx_hash claimed_at spares shown in
      (
        record c { amount = amount; status = pending },
        rw found (db.find_one-save_self _ _ _),
        refl,
        refl,
        tx,
        at,
      )
