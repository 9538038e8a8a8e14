-- ===== src/Reconciliation/Repairs.antt =====
-- What a repair by packages/backend/src/reconciliation/reconciliation.service.ts achieves.
use Prim.Native.String.{String}
use backit_on_stellar.Prelude.{
  ℕ, ◌≡◌, refl, Bool, true, false, not, ◌&&◌, ◌||◌, List, [], ◌∷◌, Option, none, some, Bool-cases,
  inl, inr,
}
use backit_on_stellar.Prelude.Text.{str_eq, str_eq_iff}
use backit_on_stellar.Prelude.Repo.{Repo}
use backit_on_stellar.Payouts.{Staker, PayoutClaim}
use backit_on_stellar.Reconciliation.{
  Call, CallStatus, draft, opened, paused, settling, resolved_yes, resolved_no, ChainEvent, Tables,
  Discrepancy, DiscrepancyStatus, detected, repaired, quarantined, ignored, Kind, call_created,
  stake_added, call_resolved, payout_claimed, other_event, creator_of, call_id_of, new_call,
  same_status, is_claimed, paid_claim, claimant_of, market_of, user_of, kind_of,
}
use backit_on_stellar.Reconciliation.Events.{
  created_found, created_missing, compare_creator, reconcile_call_created, stakes_found, stake_if,
  reconcile_stake_added, settle_status, resolved_found, resolved_if, reconcile_call_resolved,
  claim_status, claim_found, claim_if, reconcile_payout_claimed, reconcile_kind, reconcile_event,
  stake_key,
}

abbrev pub is_repaired : DiscrepancyStatus → Bool
is_repaired repaired = true
is_repaired detected = false
is_repaired quarantined = false
is_repaired ignored = false

abbrev pub reports_repair : Option Discrepancy → Bool
reports_repair none = false
reports_repair (some d) = is_repaired d.status

same_status_refl : (st : CallStatus) → same_status st st ≡ true
unfolding same_status
same_status_refl draft = refl
same_status_refl opened = refl
same_status_refl paused = refl
same_status_refl settling = refl
same_status_refl resolved_yes = refl
same_status_refl resolved_no = refl

module _ (cr : Repo String Call) (sr : Repo Staker (List ℕ)) (pr : Repo Staker PayoutClaim)
    (to_upper : String → String) (to_number : String → ℕ) where
  abbrev pub TablesState : Type 0
  TablesState = Tables cr.Table sr.Table pr.Table

  creator_agrees :
      (e : ChainEvent)
      → (not (str_eq (creator_of e) "SYSTEM")
          && not (str_eq (new_call e).creator_address (creator_of e)))
        ≡ false
  unfolding new_call
  creator_agrees e =
      let same = (str_eq_iff (creator_of e) (creator_of e)).1 refl in
      rw same (elim (Bool-cases (str_eq (creator_of e) "SYSTEM")) [
        | inl t ↦ rw t refl
        | inr t ↦ rw t refl
      ])

  compare_no_repair :
      (differs : Bool) (s : TablesState)
      → reports_repair (compare_creator cr sr pr to_upper to_number differs false s).0 ≡ false
  unfolding compare_creator
  compare_no_repair true s = refl
  compare_no_repair false s = refl

  created_again :
      (rows : List Call) (s : TablesState) (e : ChainEvent) (dry : Bool)
      → let (o, s') = created_found cr sr pr to_upper to_number rows false s e in
        reports_repair o ≡ true
        → reconcile_call_created cr sr pr to_upper to_number dry s' e ≡ (none, s')
  unfolding created_found created_missing compare_creator reconcile_call_created
  created_again [] s e dry h =
      rw (cr.find_one-save_self s.calls (call_id_of e) (new_call e)) (rw (creator_agrees e) refl)
  created_again (c ∷ []) s e dry h =
      let k =
        compare_no_repair
          (not (str_eq (creator_of e) "SYSTEM") && not (str_eq c.creator_address (creator_of e)))
          s in
      absurd cc
  created_again (c ∷ d ∷ rest) s e dry h = absurd cc

  stakes_again :
      (missing : Bool) (amounts : List ℕ) (s : TablesState) (e : ChainEvent) (dry : Bool)
      → (str_eq (market_of e) "" || str_eq (user_of e) "") ≡ missing
      → missing ≡ false
      → let (o, s') = stakes_found cr sr pr to_upper to_number amounts false s e in
        reports_repair o ≡ true
        → reconcile_stake_added cr sr pr to_upper to_number dry s' e ≡ (none, s')
  unfolding stakes_found reconcile_stake_added stake_if
  stakes_again missing (a ∷ rest) s e dry g m h = absurd cc
  stakes_again missing [] s e dry g m h =
      rw g (
        rw m (rw (sr.find_one-save_self s.stakes (stake_key cr sr pr to_upper to_number e) _) refl))

  stake_again :
      (missing : Bool) (s : TablesState) (e : ChainEvent) (dry : Bool)
      → (str_eq (market_of e) "" || str_eq (user_of e) "") ≡ missing
      → let (o, s') = stake_if cr sr pr to_upper to_number missing false s e in
        reports_repair o ≡ true
        → reconcile_stake_added cr sr pr to_upper to_number dry s' e ≡ (none, s')
  unfolding stake_if
  stake_again true s e dry g h = absurd cc
  stake_again false s e dry g h = stakes_again false _ s e dry g refl h

  settle_again :
      (same : Bool) (s : TablesState) (e : ChainEvent) (c : Call) (now later : ℕ) (dry : Bool)
      → str_eq (market_of e) "" ≡ false
      → let (o, s') = settle_status cr sr pr to_upper to_number same false s e c now in
        reports_repair o ≡ true
        → reconcile_call_resolved cr sr pr to_upper to_number dry s' e later ≡ (none, s')
  unfolding settle_status reconcile_call_resolved resolved_if resolved_found
  settle_again true s e c now later dry g h = absurd cc
  settle_again false s e c now later dry g h =
      rw g (rw (cr.find_one-save_self s.calls (market_of e) _) (rw (same_status_refl _) refl))

  resolved_again :
      (o : Option Call) (s : TablesState) (e : ChainEvent) (now later : ℕ) (dry : Bool)
      → str_eq (market_of e) "" ≡ false
      → let (d, s') = resolved_found cr sr pr to_upper to_number o false s e now in
        reports_repair d ≡ true
        → reconcile_call_resolved cr sr pr to_upper to_number dry s' e later ≡ (none, s')
  unfolding resolved_found
  resolved_again none s e now later dry g h = absurd cc
  resolved_again (some c) s e now later dry g h = settle_again _ s e c now later dry g h

  resolution_again :
      (missing : Bool) (s : TablesState) (e : ChainEvent) (now later : ℕ) (dry : Bool)
      → str_eq (market_of e) "" ≡ missing
      → let (d, s') = resolved_if cr sr pr to_upper to_number missing false s e now in
        reports_repair d ≡ true
        → reconcile_call_resolved cr sr pr to_upper to_number dry s' e later ≡ (none, s')
  unfolding resolved_if
  resolution_again true s e now later dry g h = absurd cc
  resolution_again false s e now later dry g h = resolved_again _ s e now later dry g h

  abbrev no_claimant : ChainEvent → Bool
  no_claimant e = str_eq (claimant_of e).call_id "" || str_eq (claimant_of e).staker_address ""

  paid_again :
      (is_paid : Bool) (s : TablesState) (e : ChainEvent) (c : PayoutClaim) (now later : ℕ)
      (dry : Bool)
      → no_claimant e ≡ false
      → let (d, s') = claim_status cr sr pr to_upper to_number is_paid false s e c now in
        reports_repair d ≡ true
        → reconcile_payout_claimed cr sr pr to_upper to_number dry s' e later ≡ (none, s')
  unfolding claim_status reconcile_payout_claimed claim_if claim_found is_claimed
  paid_again true s e c now later dry g h = absurd cc
  paid_again false s e c now later dry g h =
      rw g (rw (pr.find_one-save_self s.claims (claimant_of e) _) refl)

  claim_again :
      (o : Option PayoutClaim) (s : TablesState) (e : ChainEvent) (now later : ℕ) (dry : Bool)
      → no_claimant e ≡ false
      → let (d, s') = claim_found cr sr pr to_upper to_number o false s e now in
        reports_repair d ≡ true
        → reconcile_payout_claimed cr sr pr to_upper to_number dry s' e later ≡ (none, s')
  unfolding claim_found reconcile_payout_claimed claim_if claim_status is_claimed paid_claim
  claim_again none s e now later dry g h =
      rw g (rw (pr.find_one-save_self s.claims (claimant_of e) _) refl)
  claim_again (some c) s e now later dry g h = paid_again _ s e c now later dry g h

  payout_again :
      (missing : Bool) (s : TablesState) (e : ChainEvent) (now later : ℕ) (dry : Bool)
      → no_claimant e ≡ missing
      → let (d, s') = claim_if cr sr pr to_upper to_number missing false s e now in
        reports_repair d ≡ true
        → reconcile_payout_claimed cr sr pr to_upper to_number dry s' e later ≡ (none, s')
  unfolding claim_if
  payout_again true s e now later dry g h = absurd cc
  payout_again false s e now later dry g h = claim_again _ s e now later dry g h

  created_once :
      (s : TablesState) (e : ChainEvent) (dry : Bool)
      → let (d, s') = reconcile_call_created cr sr pr to_upper to_number false s e in
        reports_repair d ≡ true
        → reconcile_call_created cr sr pr to_upper to_number dry s' e ≡ (none, s')
  unfolding reconcile_call_created
  created_once s e dry h = created_again _ s e dry h

  stake_once :
      (s : TablesState) (e : ChainEvent) (dry : Bool)
      → let (d, s') = reconcile_stake_added cr sr pr to_upper to_number false s e in
        reports_repair d ≡ true
        → reconcile_stake_added cr sr pr to_upper to_number dry s' e ≡ (none, s')
  unfolding reconcile_stake_added
  stake_once s e dry h = stake_again _ s e dry refl h

  resolution_once :
      (s : TablesState) (e : ChainEvent) (now later : ℕ) (dry : Bool)
      → let (d, s') = reconcile_call_resolved cr sr pr to_upper to_number false s e now in
        reports_repair d ≡ true
        → reconcile_call_resolved cr sr pr to_upper to_number dry s' e later ≡ (none, s')
  unfolding reconcile_call_resolved
  resolution_once s e now later dry h = resolution_again _ s e now later dry refl h

  payout_once :
      (s : TablesState) (e : ChainEvent) (now later : ℕ) (dry : Bool)
      → let (d, s') = reconcile_payout_claimed cr sr pr to_upper to_number false s e now in
        reports_repair d ≡ true
        → reconcile_payout_claimed cr sr pr to_upper to_number dry s' e later ≡ (none, s')
  unfolding reconcile_payout_claimed
  payout_once s e now later dry h = payout_again _ s e now later dry refl h

  kind_again :
      (k : Kind) (s : TablesState) (e : ChainEvent) (now later : ℕ) (dry : Bool)
      → let (d, s') = reconcile_kind cr sr pr to_upper to_number k false s e now in
        reports_repair d ≡ true
        → reconcile_kind cr sr pr to_upper to_number k dry s' e later ≡ (none, s')
  unfolding reconcile_kind
  kind_again call_created s e now later dry h = created_once s e dry h
  kind_again stake_added s e now later dry h = stake_once s e dry h
  kind_again call_resolved s e now later dry h = resolution_once s e now later dry h
  kind_again payout_claimed s e now later dry h = payout_once s e now later dry h
  kind_again other_event s e now later dry h = absurd cc

  -- An event whose discrepancy was repaired is in order afterwards: to reconcile it again, in a dry
  -- run or not, at any time, finds nothing and changes nothing.
  pub repair_settles :
      (s : TablesState) (e : ChainEvent) (now later : ℕ) (dry : Bool)
      → reports_repair (reconcile_event cr sr pr to_upper to_number false s e now).0 ≡ true
      → let s' = (reconcile_event cr sr pr to_upper to_number false s e now).1 in
        reconcile_event cr sr pr to_upper to_number dry s' e later ≡ (none, s')
  unfolding reconcile_event
  repair_settles s e now later dry h = kind_again (kind_of e.event_name) s e now later dry h
