-- ===== src/Reconciliation/DryRun.antt =====
-- What a dry run of packages/backend/src/reconciliation/reconciliation.service.ts leaves alone.
pub mod Whole
use Prim.Native.String.{String}
use backit_on_stellar.Prelude.{
  ℕ, ◌≡◌, refl, sym, ap, ◌∙◌, Bool, true, false, List, [], ◌∷◌, ◌++◌, All, Option, none, some,
  Bool-cases, Option-cases, inl, inr, All-append,
}
use backit_on_stellar.Prelude.Repo.{Repo}
use backit_on_stellar.Payouts.{Staker, PayoutClaim}
use backit_on_stellar.Reconciliation.{
  Call, ChainEvent, Tables, Discrepancy, detected, repaired, Kind, call_created, stake_added,
  call_resolved, payout_claimed, other_event, rows_of,
}
use backit_on_stellar.Reconciliation.Events.{
  created_found, created_missing, compare_creator, reconcile_call_created, stakes_found, stake_if,
  reconcile_stake_added, settle_status, resolved_found, resolved_if, reconcile_call_resolved,
  claim_status, claim_found, claim_if, reconcile_payout_claimed, reconcile_kind, reconcile_event,
  amounts_of,
}
use backit_on_stellar.Reconciliation.Run.{
  Cache, ReconciliationRun, ReconciliationDiscrepancy, Tally, Serving, serving, not_recording,
  refusing, Chain, count_repaired, counted, record_discrepancy, row_status,
}
use backit_on_stellar.Reconciliation.Execute.{
  verdict, write_down, handle_event, served, event_loop, ServiceState, execute_run, execute_found,
  finish,
}

module _ (cr : Repo String Call) (sr : Repo Staker (List ℕ)) (pr : Repo Staker PayoutClaim)
    (to_upper : String → String) (to_number : String → ℕ) where
  abbrev pub TablesState : Type 0
  TablesState = Tables cr.Table sr.Table pr.Table

  -- Nothing is written, and nothing is reported as repaired.
  abbrev pub Untouched : TablesState → Option Discrepancy × TablesState → Type 0
  Untouched s (none, s') = s' ≡ s
  Untouched s (some d, s') = (s' ≡ s) × (count_repaired d.status ≡ 0)

  compare-Untouched :
      (differs : Bool) (s : TablesState)
      → Untouched s (compare_creator cr sr pr to_upper to_number differs true s)
  unfolding compare_creator count_repaired
  compare-Untouched true s = (refl, refl)
  compare-Untouched false s = refl

  created-Untouched :
      (rows : List Call) (s : TablesState) (e : ChainEvent)
      → Untouched s (created_found cr sr pr to_upper to_number rows true s e)
  unfolding created_found created_missing count_repaired
  created-Untouched [] s e = (refl, refl)
  created-Untouched (c ∷ []) s e = compare-Untouched _ s
  created-Untouched (c ∷ d ∷ rest) s e = (refl, refl)

  stakes-Untouched :
      (amounts : List ℕ) (s : TablesState) (e : ChainEvent)
      → Untouched s (stakes_found cr sr pr to_upper to_number amounts true s e)
  unfolding stakes_found count_repaired
  stakes-Untouched [] s e = (refl, refl)
  stakes-Untouched (a ∷ rest) s e = refl

  stake-Untouched :
      (missing : Bool) (s : TablesState) (e : ChainEvent)
      → Untouched s (stake_if cr sr pr to_upper to_number missing true s e)
  unfolding stake_if count_repaired
  stake-Untouched true s e = (refl, refl)
  stake-Untouched false s e = stakes-Untouched _ s e

  settle-Untouched :
      (same : Bool) (s : TablesState) (e : ChainEvent) (c : Call) (now : ℕ)
      → Untouched s (settle_status cr sr pr to_upper to_number same true s e c now)
  unfolding settle_status count_repaired
  settle-Untouched true s e c now = refl
  settle-Untouched false s e c now = (refl, refl)

  resolved-Untouched :
      (o : Option Call) (s : TablesState) (e : ChainEvent) (now : ℕ)
      → Untouched s (resolved_found cr sr pr to_upper to_number o true s e now)
  unfolding resolved_found count_repaired
  resolved-Untouched none s e now = (refl, refl)
  resolved-Untouched (some c) s e now = settle-Untouched _ s e c now

  resolution-Untouched :
      (missing : Bool) (s : TablesState) (e : ChainEvent) (now : ℕ)
      → Untouched s (resolved_if cr sr pr to_upper to_number missing true s e now)
  unfolding resolved_if
  resolution-Untouched true s e now = refl
  resolution-Untouched false s e now = resolved-Untouched _ s e now

  status-Untouched :
      (is_paid : Bool) (s : TablesState) (e : ChainEvent) (c : PayoutClaim) (now : ℕ)
      → Untouched s (claim_status cr sr pr to_upper to_number is_paid true s e c now)
  unfolding claim_status count_repaired
  status-Untouched true s e c now = refl
  status-Untouched false s e c now = (refl, refl)

  claim-Untouched :
      (o : Option PayoutClaim) (s : TablesState) (e : ChainEvent) (now : ℕ)
      → Untouched s (claim_found cr sr pr to_upper to_number o true s e now)
  unfolding claim_found count_repaired
  claim-Untouched none s e now = (refl, refl)
  claim-Untouched (some c) s e now = status-Untouched _ s e c now

  payout-Untouched :
      (missing : Bool) (s : TablesState) (e : ChainEvent) (now : ℕ)
      → Untouched s (claim_if cr sr pr to_upper to_number missing true s e now)
  unfolding claim_if
  payout-Untouched true s e now = refl
  payout-Untouched false s e now = claim-Untouched _ s e now

  kind-Untouched :
      (k : Kind) (s : TablesState) (e : ChainEvent) (now : ℕ)
      → Untouched s (reconcile_kind cr sr pr to_upper to_number k true s e now)
  unfolding reconcile_kind reconcile_call_created reconcile_stake_added reconcile_call_resolved
      reconcile_payout_claimed
  kind-Untouched call_created s e now = created-Untouched _ s e
  kind-Untouched stake_added s e now = stake-Untouched _ s e
  kind-Untouched call_resolved s e now = resolution-Untouched _ s e now
  kind-Untouched payout_claimed s e now = payout-Untouched _ s e now
  kind-Untouched other_event s e now = refl

  pub verdict-Untouched :
      (unknown : Bool) (run : ReconciliationRun) (s : TablesState) (e : ChainEvent) (now : ℕ)
      (rr : Repo String ReconciliationRun) (cache : Cache)
      → run.is_dry_run ≡ true
      → Untouched s (verdict cr sr pr rr cache to_upper to_number unknown run s e now)
  unfolding verdict reconcile_event count_repaired
  verdict-Untouched true run s e now rr cache h = (refl, refl)
  verdict-Untouched false run s e now rr cache h = rw h (kind-Untouched _ s e now)
