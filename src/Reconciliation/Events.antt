-- ===== src/Reconciliation/Events.antt =====
-- `reconcileEvent` of packages/backend/src/reconciliation/reconciliation.service.ts and its four cases.
use Prim.Native.String.{String}
use backit_on_stellar.Prelude.{
  ℕ, Bool, true, false, not, List, [], ◌∷◌, Option, none, some, or_else, ◌||◌, ◌&&◌,
}
use backit_on_stellar.Prelude.Text.{str_eq}
use backit_on_stellar.Prelude.Repo.{Repo}
use backit_on_stellar.Payouts.{Staker, PayoutClaim, paid}
use backit_on_stellar.Reconciliation.{
  Call, ChainEvent, Tables, Discrepancy, missing_offchain, duplicate_offchain, value_mismatch,
  unrecoverable, detected, repaired, quarantined, found, detected_or_quarantined, Kind,
  call_created, stake_added, call_resolved, payout_claimed, other_event, kind_of, same_status,
  expected_status, is_claimed, call_id_of, creator_of, new_call, market_of, user_of, claimant_of,
  paid_claim, rows_of,
}

-- `toUpperCase` and `Number` are parameters.
module _ (cr : Repo String Call) (sr : Repo Staker (List ℕ)) (pr : Repo Staker PayoutClaim)
    (to_upper : String → String) (to_number : String → ℕ) where
  abbrev pub State : Type 0
  State = Tables cr.Table sr.Table pr.Table

  abbrev pub Answer : Type 0
  Answer = Option Discrepancy × State

  -- Called with the mode, which is true of a dry run.
  unfoldable pub created_missing : Bool → State → ChainEvent → Answer
  created_missing true s e = (found missing_offchain detected, s)
  created_missing false s e = (
    found missing_offchain repaired,
    record s { calls = cr.save s.calls (call_id_of e) (new_call e) },
  )

  unfoldable pub compare_creator : Bool → Bool → State → Answer
  compare_creator true dry s = (found value_mismatch (detected_or_quarantined dry), s)
  compare_creator false dry s = (none, s)

  unfoldable pub created_found : List Call → Bool → State → ChainEvent → Answer
  unfolding created_missing compare_creator
  created_found [] dry s e = created_missing dry s e
  created_found (c ∷ []) dry s e =
      let creator = creator_of e in
      compare_creator (not (str_eq creator "SYSTEM") && not (str_eq c.creator_address creator)) dry
        s
  created_found (c ∷ d ∷ rest) dry s e = (found duplicate_offchain (detected_or_quarantined dry), s)

  unfoldable pub reconcile_call_created : Bool → State → ChainEvent → Answer
  unfolding created_found
  reconcile_call_created dry s e =
      created_found (rows_of (cr.find_one s.calls (call_id_of e))) dry s e

  abbrev pub stake_key : ChainEvent → Staker
  stake_key e = record { call_id = market_of e; staker_address = user_of e }

  abbrev pub amounts_of : Option (List ℕ) → List ℕ
  amounts_of none = []
  amounts_of (some amounts) = amounts

  unfoldable pub stakes_found : List ℕ → Bool → State → ChainEvent → Answer
  stakes_found [] true s e = (found missing_offchain detected, s)
  stakes_found [] false s e =
      let amount = to_number (or_else e.event_data.amount "0") in
      (
        found missing_offchain repaired,
        record s { stakes = sr.save s.stakes (stake_key e) (amount ∷ []) },
      )
  stakes_found (amount ∷ rest) dry s e = (none, s)

  -- Told whether the call or the user is missing.
  unfoldable pub stake_if : Bool → Bool → State → ChainEvent → Answer
  unfolding stakes_found
  stake_if true dry s e = (found unrecoverable quarantined, s)
  stake_if false dry s e = stakes_found (amounts_of (sr.find_one s.stakes (stake_key e))) dry s e

  unfoldable pub reconcile_stake_added : Bool → State → ChainEvent → Answer
  unfolding stake_if
  reconcile_stake_added dry s e =
      stake_if (str_eq (market_of e) "" || str_eq (user_of e) "") dry s e

  abbrev pub outcome_of : ChainEvent → String
  outcome_of e =
      let text = or_else e.event_data.outcome (or_else e.event_data.result "") in to_upper text

  -- Told whether the call has the expected status.
  unfoldable pub settle_status : Bool → Bool → State → ChainEvent → Call → ℕ → Answer
  settle_status true dry s e c now = (none, s)
  settle_status false true s e c now = (found value_mismatch detected, s)
  settle_status false false s e c now =
      let c' : Call = record c {
        status = expected_status (outcome_of e);
        resolved_at = some now;
      } in
      (found value_mismatch repaired, record s { calls = cr.save s.calls (market_of e) c' })

  unfoldable pub resolved_found : Option Call → Bool → State → ChainEvent → ℕ → Answer
  unfolding settle_status
  resolved_found none dry s e now = (found missing_offchain (detected_or_quarantined dry), s)
  resolved_found (some c) dry s e now =
      settle_status (same_status c.status (expected_status (outcome_of e))) dry s e c now

  unfoldable pub resolved_if : Bool → Bool → State → ChainEvent → ℕ → Answer
  unfolding resolved_found
  resolved_if true dry s e now = (none, s)
  resolved_if false dry s e now = resolved_found (cr.find_one s.calls (market_of e)) dry s e now

  unfoldable pub reconcile_call_resolved : Bool → State → ChainEvent → ℕ → Answer
  unfolding resolved_if
  reconcile_call_resolved dry s e now = resolved_if (str_eq (market_of e) "") dry s e now

  unfoldable pub claim_status : Bool → Bool → State → ChainEvent → PayoutClaim → ℕ → Answer
  claim_status true dry s e c now = (none, s)
  claim_status false true s e c now = (found value_mismatch detected, s)
  claim_status false false s e c now =
      let c' : PayoutClaim = record c {
        status = paid;
        tx_hash = some e.tx_hash;
        claimed_at = some now;
      } in
      (found value_mismatch repaired, record s { claims = pr.save s.claims (claimant_of e) c' })

  unfoldable pub claim_found : Option PayoutClaim → Bool → State → ChainEvent → ℕ → Answer
  unfolding claim_status
  claim_found none true s e now = (found missing_offchain detected, s)
  claim_found none false s e now =
      let k = claimant_of e in
      (
        found missing_offchain repaired,
        record s { claims = pr.save s.claims k (paid_claim e k now) },
      )
  claim_found (some c) dry s e now = claim_status (is_claimed c.status) dry s e c now

  unfoldable pub claim_if : Bool → Bool → State → ChainEvent → ℕ → Answer
  unfolding claim_found
  claim_if true dry s e now = (none, s)
  claim_if false dry s e now = claim_found (pr.find_one s.claims (claimant_of e)) dry s e now

  unfoldable pub reconcile_payout_claimed : Bool → State → ChainEvent → ℕ → Answer
  unfolding claim_if
  reconcile_payout_claimed dry s e now =
      let k = claimant_of e in
      claim_if (str_eq k.call_id "" || str_eq k.staker_address "") dry s e now

  unfoldable pub reconcile_kind : Kind → Bool → State → ChainEvent → ℕ → Answer
  unfolding reconcile_call_created reconcile_stake_added reconcile_call_resolved
      reconcile_payout_claimed
  reconcile_kind call_created dry s e now = reconcile_call_created dry s e
  reconcile_kind stake_added dry s e now = reconcile_stake_added dry s e
  reconcile_kind call_resolved dry s e now = reconcile_call_resolved dry s e now
  reconcile_kind payout_claimed dry s e now = reconcile_payout_claimed dry s e now
  reconcile_kind other_event dry s e now = (none, s)

  unfoldable pub reconcile_event : Bool → State → ChainEvent → ℕ → Answer
  unfolding reconcile_kind kind_of
  reconcile_event dry s e now = reconcile_kind (kind_of e.event_name) dry s e now
