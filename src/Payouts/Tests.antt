-- ===== src/Payouts/Tests.antt =====
-- Runs of packages/backend/src/payouts/payouts.service.ts on a concrete claim.

use Prim.Native.String.{String}
use backit_on_stellar.Prelude.{ℕ, ◌≡◌, ◌≢◌, List, [], ◌∷◌, some}
use backit_on_stellar.Prelude.Repo.{Repo, function_repo}
use backit_on_stellar.Payouts.{pending, Staker, PayoutClaim, Payouts, same_staker, same_staker_iff}
use backit_on_stellar.Payouts.Claims.{Op, claim, upsert, failure, run, step, claim_then_upsert}

abbrev claims_repo : Repo Staker PayoutClaim
claims_repo = function_repo same_staker same_staker_iff

abbrev no_claims : Payouts claims_repo.Table
no_claims = record { table = claims_repo.empty; events = [] }

abbrev alice : Staker
alice = record { call_id = "c1"; staker_address = "GALICE" }

abbrev bob : Staker
bob = record { call_id = "c1"; staker_address = "GBOB" }

abbrev one : String → ℕ
one text = 1

differ : bob ≢ alice
unfolding same_staker
differ = λ e. cc ((same_staker_iff bob alice).1 e)

abbrev between : List Op
between = claim bob "other" 6 6 ∷ failure alice 7 ∷ []

claim_then_upsert_example :
    let s = run claims_repo one no_claims (claim alice "tx" 5 6 ∷ between) in
    (c : PayoutClaim) × (claims_repo.find_one
        (step claims_repo one s (upsert alice "9" 8)).1.table
        alice
      ≡ some c)
    × (c.status ≡ pending)
    × (c.amount ≡ "9")
    × (c.tx_hash ≡ some "tx")
    × (c.claimed_at ≡ some 5)
claim_then_upsert_example =
    claim_then_upsert claims_repo one no_claims alice "tx" "9" 5 6 8 between (differ, (tt, tt))
