-- ===== src/Payouts.antt =====
-- packages/backend/src/payouts/payouts.service.ts: the claims on payouts, one for each call and
-- staker, over a TypeORM repository. The row's own id and `updatedAt` are left out.
pub mod Claims
mod Tests
use Prim.Native.String.{String}
use backit_on_stellar.Prelude.{
  ℕ, ◌≡◌, Bool, true, false, List, ◌∷◌, Option, none, some, or_else, ltb, ◌-◌, ◌*◌, ◌&&◌, ◌↔◌,
  arith,
}
use backit_on_stellar.Prelude.Text.{str_eq, str_eq_iff}
use backit_on_stellar.Prelude.Repo.{Repo}

pub data PayoutClaimStatus : Type 0 where
  pending paid failed : PayoutClaimStatus

-- The unique index of the table.
pub record Staker : Type 0 where
  pub call_id : String
  pub staker_address : String

pub record PayoutClaim : Type 0 where
  pub staker : Staker
  pub amount : String
  pub tx_hash : Option String
  pub claimed_at : Option ℕ
  pub status : PayoutClaimStatus
  pub created_at : ℕ

-- The payload of 'payout.claimed'; the amount is a double.
pub record PayoutClaimed : Type 0 where
  pub user_address : String
  pub call_id : String
  pub amount : ℕ
  pub tx_hash : Option String

pub record Payouts (T : Type 0) : Type 0 where
  pub table : T
  pub events : List PayoutClaimed

abbrev pub seven_days_ms : ℕ
seven_days_ms = 7 * 24 * 60 * 60 * 1000

-- `isOverdue` of `listCallPayouts`.
unfoldable pub is_overdue : ℕ → PayoutClaim → Bool
is_overdue now c = is_pending c.status && ltb c.created_at (now - seven_days_ms)
  where
    is_pending : PayoutClaimStatus → Bool
    is_pending pending = true
    is_pending paid = false
    is_pending failed = false

-- What `create` gives, with the defaults of the columns.
abbrev pub new_claim : Staker → String → ℕ → PayoutClaim
new_claim k amount now = record {
  staker = k;
  amount = amount;
  tx_hash = none;
  claimed_at = none;
  status = pending;
  created_at = now;
}

-- `Number(amount)` is a parameter.
module _ (db : Repo Staker PayoutClaim) (to_number : String → ℕ) where
  abbrev pub pending_of : Option PayoutClaim → Staker → String → ℕ → PayoutClaim
  pending_of none k amount now = new_claim k amount now
  pending_of (some c) k amount now = record c { amount = amount; status = pending }

  unfoldable pub upsert_pending_claim :
      Payouts db.Table → Staker → String → ℕ → PayoutClaim × Payouts db.Table
  upsert_pending_claim s k amount now =
      let c = pending_of (db.find_one s.table k) k amount now in
      (c, record s { table = db.save s.table k c })

  unfoldable pub mark_claimed :
      Payouts db.Table → Staker → String → ℕ → ℕ → PayoutClaim × Payouts db.Table
  mark_claimed s k tx_hash claimed_at now =
      let c : PayoutClaim = record (or_else (db.find_one s.table k) (new_claim k "0" now)) {
        tx_hash = some tx_hash;
        claimed_at = some claimed_at;
        status = paid;
      } in
      let event : PayoutClaimed = record {
        user_address = c.staker.staker_address;
        call_id = c.staker.call_id;
        amount = to_number c.amount;
        tx_hash = c.tx_hash;
      } in
      (c, record { table = db.save s.table k c; events = event ∷ s.events })

  unfoldable pub mark_failed : Payouts db.Table → Staker → ℕ → PayoutClaim × Payouts db.Table
  mark_failed s k now =
      let c : PayoutClaim = record (or_else (db.find_one s.table k) (new_claim k "0" now)) {
        status = failed;
      } in
      (c, record s { table = db.save s.table k c })

unfoldable pub same_staker : Staker → Staker → Bool
same_staker a b = str_eq a.call_id b.call_id && str_eq a.staker_address b.staker_address

pub same_staker_iff : (a b : Staker) → (same_staker a b ≡ true) ↔ (a ≡ b)
unfolding same_staker
same_staker_iff a b =
    ground (arith, str_eq_iff a.call_id b.call_id, str_eq_iff a.staker_address b.staker_address)
