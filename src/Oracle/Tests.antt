-- ===== src/Oracle/Tests.antt =====
-- Runs of packages/backend/src/oracle on a concrete call.
use Prim.Native.String.{String}
use backit_on_stellar.Prelude.{
  ℕ, ◌+◌, ◌*◌, ◌≤◌, ◌≡◌, ◌≢◌, refl, Bool, true, false, not, ◌-◌, ◌&&◌, List, [], ◌∷◌, none, some,
  leb, ltb, if◌then◌else◌,
}
use backit_on_stellar.Prelude.Text.{str_eq, str_eq_iff, units}
use backit_on_stellar.Prelude.Repo.{Repo, function_repo}
use backit_on_stellar.Prelude.Rows.{rows_repo, next_key, next_key_fresh}
use backit_on_stellar.Oracle.Prices.{Doubles, Horizon, book}
use backit_on_stellar.Oracle.Calls.{
  draft, opened, paused, resolved_yes, OracleCall, Oracle, Outside, new_call,
}
use backit_on_stellar.Oracle.Resolution.{resolve_market}
use backit_on_stellar.Oracle.Lifecycle.{announced, stored, settlement, is_active}
use backit_on_stellar.Oracle.Traces.{Op, create, resolve, report, run}
use backit_on_stellar.Oracle.Settled.{
  resolved_stays, announced_once, draft_stays, paused_needs_admin,
}
use backit_on_stellar.Oracle.Resolves.{is_halted, midpoint, Submits, Keeps, resolve-Settles}
use backit_on_stellar.Oracle.Deviation.{
  OraclePrice, PriceDeviationLog, Deviation, Comparison, run_check, result_of,
}
use backit_on_stellar.Oracle.Halts.{Halts, run_checks, runs-Halts}
use backit_on_stellar.Oracle.Disputes.{Dispute, pending_dispute, rejected_dispute}

-- Prices are whole numbers here, and only two of them are read.
abbrev price_of : String → ℕ
price_of text = if str_eq text "12" then 12 else 9

abbrev whole : Doubles
whole = record {
  parse_float = price_of;
  to_number = price_of;
  of_nat = λ n. n;
  add = λ a b. a + b;
  sub = λ a b. a;
  div = λ a b. a;
  abs = λ a. a;
  gt = λ a b. ltb b a;
  ge = λ a b. leb b a;
}

abbrev empty_book : Horizon
empty_book = record {
  to_upper = λ text. text;
  find_token = λ code. none;
  fetch_book = λ selling buying. book none none;
}

abbrev outside : Outside
outside = record {
  doubles = whole;
  horizon = empty_book;
  threshold_bps = 500;
  floor_scaled = λ price. some (record { is_negative = false; magnitude = price * 10000000 });
  sign_detached = λ message. "signature";
  pin_evidence = λ id observed. none;
  saves_outcome = λ row. true;
  final_price_column = λ text. some text;
}

abbrev calls_repo : Repo ℕ OracleCall
calls_repo = rows_repo

abbrev fresh : OracleCall
fresh = new_call "pair" (units "XLM") (units "USDC") 10 0

abbrev open_call : OracleCall
open_call = record fresh { status = opened }

abbrev paused_call : OracleCall
paused_call = record fresh { status = paused; report_count = 5; is_hidden = true }

abbrev resolved_call : OracleCall
resolved_call = record fresh { status = resolved_yes; final_price = some "12" }

abbrev with_row : OracleCall → Oracle calls_repo.Table
with_row c = record {
  calls = calls_repo.save calls_repo.empty 1 c;
  outcomes = [];
  health = [];
  events = [];
}

row : (c : OracleCall) → calls_repo.find_one (with_row c).calls 1 ≡ some c
row c = calls_repo.find_one-save_self _ _ _

abbrev next : calls_repo.Table → ℕ
unfolding rows_repo
next t = next_key t

next_fresh : (t : calls_repo.Table) → calls_repo.find_one t (next t) ≡ none
unfolding rows_repo
next_fresh t = next_key_fresh t

abbrev busy : List Op
busy = report 1 ∷ resolve outside 1 "12" 7 ∷ create "pair" [] [] 1 2 ∷ []

resolved_stays_example :
    let s' = run calls_repo next next_fresh (with_row resolved_call) busy in
    ((c' : OracleCall) × (calls_repo.find_one s'.calls 1 ≡ some c')
      × (c'.status ≡ resolved_yes)
      × (settlement c' ≡ settlement resolved_call))
    × (announced 1 s'.events ≡ announced 1 [])
    × (stored 1 s'.outcomes ≡ stored 1 [])
resolved_stays_example =
    resolved_stays calls_repo next next_fresh (with_row resolved_call) busy 1 resolved_call
      (row resolved_call) refl

announced_once_example :
    let s' = run calls_repo next next_fresh (with_row open_call) busy in
    (announced 1 s'.events ≤ 1 + announced 1 [])
    × (announced 1 s'.events + stored 1 [] ≤ stored 1 s'.outcomes + announced 1 [])
announced_once_example =
    announced_once calls_repo next next_fresh (with_row open_call) busy 1 open_call (row open_call)

draft_stays_example :
    let s' =
      run calls_repo next next_fresh (with_row open_call) (create "pair" [] [] 10 0 ∷ busy) in
    let id = next (with_row open_call).calls in
    ((c' : OracleCall) × (calls_repo.find_one s'.calls id ≡ some c') × (c'.status ≡ draft))
    × (announced id s'.events ≡ announced id [])
draft_stays_example =
    draft_stays calls_repo next next_fresh (with_row open_call) "pair" [] [] 10 0 busy

paused_needs_admin_example :
    let s' = run calls_repo next next_fresh (with_row paused_call) busy in
    ((c' : OracleCall) × (calls_repo.find_one s'.calls 1 ≡ some c') × (c'.status ≡ paused))
    × (announced 1 s'.events ≡ announced 1 [])
paused_needs_admin_example =
    paused_needs_admin calls_repo next next_fresh (with_row paused_call) busy 1 paused_call
      (row paused_call) refl (refl, (refl, (refl, tt)))

resolve-Settles_example :
    let r = resolve_market calls_repo outside (with_row open_call) 1 "12" 7 in
    if is_active opened && not (is_halted outside "12" (midpoint outside open_call))
    then Submits calls_repo outside (with_row open_call) 1 open_call "12" 7 r
    else Keeps calls_repo (with_row open_call) 1 open_call r
resolve-Settles_example =
    resolve-Settles calls_repo outside (with_row open_call) 1 open_call "12" 7 (row open_call)

-- The column of the final price refuses the text: the outcome is stored, the call is not.
abbrev refusing : Outside
refusing = record outside { final_price_column = λ text. none }

outcome_without_call :
    let s' = (resolve_market calls_repo refusing (with_row open_call) 1 "12" 7).1 in
    (stored 1 s'.outcomes ≡ 1)
    × (s'.events ≡ [])
    × (calls_repo.find_one s'.calls 1 ≡ some open_call)
unfolding resolve_market rows_repo stored
outcome_without_call = (refl, refl, refl)

abbrev disputes_repo : Repo String Dispute
disputes_repo = function_repo str_eq str_eq_iff

abbrev decided : Dispute
decided = record {
  claim_id = "c";
  challenger = "a";
  defendant = "b";
  reason = "r";
  status = rejected_dispute;
  created_at = 0;
  resolved_at = some 1;
  resolution = some "no";
}

rejected_is_decided : rejected_dispute ≢ pending_dispute
rejected_is_decided = λ e. cc

abbrev one_dispute : disputes_repo.Table
one_dispute = disputes_repo.save disputes_repo.empty "d" decided

abbrev cannot_store : List PriceDeviationLog → PriceDeviationLog → Bool
cannot_store [] row = true
cannot_store (_ ∷ _) row = false

-- No price is below the reference price of 100. The database stores one row.
abbrev comparison : Comparison
comparison = record {
  doubles = record whole { sub = λ a b. a - b; gt = λ a b. ltb b a };
  mul = λ a b. a;
  is_zero = λ a. leb a 0;
  to_upper = λ text. text;
  fetch_usd = λ coins. some (λ coin. some 100);
  threshold = 5;
  stores = cannot_store;
}

abbrev calm : Deviation
calm = record { signing_halted = false; logs = [] }

abbrev two_prices : List OraclePrice
two_prices =
    record { symbol = "XLM"; usd_price = 103 } ∷ record { symbol = "BTC"; usd_price = 190 } ∷ []

-- The row of the second price, which is too high, is not stored.
breach_is_lost : (run_check comparison calm (some two_prices)).signing_halted ≡ false
unfolding run_check result_of
breach_is_lost = refl

breach_alone_halts :
    (run_check comparison calm
      (some (record { symbol = "BTC"; usd_price = 190 } ∷ []))).signing_halted
    ≡ true
unfolding run_check result_of
breach_alone_halts = refl

runs-Halts_example :
    Halts calm (run_checks calm ((comparison, some two_prices) ∷ (comparison, none) ∷ []))
runs-Halts_example = runs-Halts calm ((comparison, some two_prices) ∷ (comparison, none) ∷ [])
