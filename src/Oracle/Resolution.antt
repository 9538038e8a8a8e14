-- ===== src/Oracle/Resolution.antt =====
-- packages/backend/src/oracle/oracle.service.ts: resolveMarket, with a function for each of its parts.
use Prim.Native.String.{String}
use backit_on_stellar.Prelude.{ℕ, ◌/◌, Bool, true, false, ◌∷◌, Option, none, some, if◌then◌else◌}
use backit_on_stellar.Prelude.Repo.{Repo}
use backit_on_stellar.Oracle.Calls.{
  OracleCallStatus, draft, opened, paused, settling, resolved_yes, resolved_no, OracleCall,
  market_paused_by_reports, cannot_resolve, price_deviation, Result, ok, thrown, OracleOutcome,
  HealthLog, oracle_submitted, call_resolved, Oracle, status_of, Outside, evaluate_outcome,
  sign_outcome, submission, sign_failed, outcome_save_failed, call_save_failed, OutcomeData,
}
use backit_on_stellar.Oracle.Prices.{fetch_horizon_midpoint, is_deviating}
use backit_on_stellar.Oracle.{with_call, save_call}

module _ (db : Repo ℕ OracleCall) where
  abbrev pub log_health : Oracle db.Table → HealthLog → Oracle db.Table
  log_health s entry = record s { health = entry ∷ s.health }

  unfoldable pub resolve_paused :
      Outside → Oracle db.Table → ℕ → OracleCall → String → ℕ → Result Unit × Oracle db.Table
  unfolding save_call
  resolve_paused out s id c observed now =
      let why = market_paused_by_reports in
      let c' : OracleCall = record c { failed_at = some now } in
      (thrown why, log_health (save_call db s id c') (submission out id c' observed now (some why)))

  unfoldable pub halt_deviating :
      Outside → Oracle db.Table → ℕ → OracleCall → String → ℕ → ℕ → Result Unit × Oracle db.Table
  unfolding save_call
  halt_deviating out s id c observed mid now =
      let dex = out.doubles.parse_float observed in
      let why = price_deviation dex mid in
      let c' : OracleCall = record c { needs_admin_review = true; failed_at = some now } in
      let entry : HealthLog = record (submission out id c' observed now (some why)) {
        price_fetched = dex;
        dex_screener_price = some dex;
        horizon_price = some mid;
      } in
      (thrown why, log_health (save_call db s id c') entry)

  -- From the save of the call on, told what its column keeps of the price. The outcome is stored.
  unfoldable pub settle :
      Option String
      → Outside
      → Oracle db.Table
      → ℕ
      → OracleCall
      → String
      → Option ℕ
      → ℕ
      → Result Unit × Oracle db.Table
  unfolding save_call evaluate_outcome status_of
  settle none out s id c observed mid now = (thrown call_save_failed, s)
  settle (some kept) out s id c observed mid now =
      let outcome = evaluate_outcome out.doubles c observed in
      let c' : OracleCall = record c {
        status = status_of outcome;
        final_price = some kept;
        resolved_at = some now;
        processed_at = some now;
      } in
      let entry : HealthLog = record (submission out id c' observed now none) {
        success = true;
        dex_screener_price = some (out.doubles.to_number observed);
        horizon_price = mid;
      } in
      let saved = save_call db s id c' in
      (
        ok tt,
        record saved {
          health = entry ∷ s.health;
          events =
              call_resolved id outcome observed
              ∷ oracle_submitted id observed outcome mid
              ∷ s.events;
        },
      )

  unfoldable pub store_outcome :
      Bool
      → OracleOutcome
      → Outside
      → Oracle db.Table
      → ℕ
      → OracleCall
      → String
      → Option ℕ
      → ℕ
      → Result Unit × Oracle db.Table
  unfolding settle
  store_outcome false row out s id c observed mid now = (thrown outcome_save_failed, s)
  store_outcome true row out s id c observed mid now =
      settle (out.final_price_column observed) out (record s { outcomes = row ∷ s.outcomes }) id c
        observed mid now

  -- What `signOutcome` is given.
  abbrev pub data_of : Outside → ℕ → OracleCall → String → ℕ → OutcomeData
  data_of out id c observed now = record {
    call_id = id;
    price = out.doubles.to_number observed;
    timestamp = now / 1000;
    outcome = evaluate_outcome out.doubles c observed;
    pair_address = c.pair_address;
  }

  abbrev pub outcome_row : Outside → ℕ → OracleCall → String → String → OracleOutcome
  outcome_row out id c observed signature = record {
    call_id = id;
    price = out.doubles.to_number observed;
    outcome = evaluate_outcome out.doubles c observed;
    signature = signature;
    evidence_cid = out.pin_evidence id observed;
  }

  unfoldable pub submit_signed :
      Option String
      → Outside
      → Oracle db.Table
      → ℕ
      → OracleCall
      → String
      → Option ℕ
      → ℕ
      → Result Unit × Oracle db.Table
  unfolding store_outcome
  submit_signed none out s id c observed mid now = (thrown sign_failed, s)
  submit_signed (some signature) out s id c observed mid now =
      let row = outcome_row out id c observed signature in
      store_outcome (out.saves_outcome row) row out s id c observed mid now

  -- From `evaluateOutcome` on.
  unfoldable pub submit :
      Outside
      → Oracle db.Table
      → ℕ
      → OracleCall
      → String
      → Option ℕ
      → ℕ
      → Result Unit × Oracle db.Table
  unfolding submit_signed sign_outcome
  submit out s id c observed mid now =
      submit_signed (sign_outcome out (data_of out id c observed now)) out s id c observed mid now

  -- The cross-check with the order book, which is skipped without a midpoint.
  unfoldable pub cross_check :
      Outside
      → Oracle db.Table
      → ℕ
      → OracleCall
      → String
      → Option ℕ
      → ℕ
      → Result Unit × Oracle db.Table
  unfolding submit halt_deviating is_deviating
  cross_check out s id c observed none now = submit out s id c observed none now
  cross_check out s id c observed (some mid) now =
      if is_deviating out.doubles out.threshold_bps (out.doubles.parse_float observed) mid
      then halt_deviating out s id c observed mid now
      else submit out s id c observed (some mid) now

  unfoldable pub resolve_found :
      OracleCallStatus
      → Outside
      → Oracle db.Table
      → ℕ
      → OracleCall
      → String
      → ℕ
      → Result Unit × Oracle db.Table
  unfolding resolve_paused cross_check fetch_horizon_midpoint
  resolve_found paused out s id c observed now = resolve_paused out s id c observed now
  resolve_found resolved_yes out s id c observed now = (ok tt, s)
  resolve_found resolved_no out s id c observed now = (ok tt, s)
  resolve_found draft out s id c observed now =
      let why = cannot_resolve draft in
      (thrown why, log_health s (submission out id c observed now (some why)))
  resolve_found opened out s id c observed now =
      cross_check out s id c observed
        (fetch_horizon_midpoint out.doubles out.horizon c.base_token c.quote_token) now
  resolve_found settling out s id c observed now =
      cross_check out s id c observed
        (fetch_horizon_midpoint out.doubles out.horizon c.base_token c.quote_token) now

  unfoldable pub resolve_market :
      Outside → Oracle db.Table → ℕ → String → ℕ → Result Unit × Oracle db.Table
  unfolding with_call resolve_found
  resolve_market out s id observed now =
      with_call db (db.find_one s.calls id) s (λ c. resolve_found c.status out s id c observed now)
