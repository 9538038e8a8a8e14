-- ===== src/Oracle/Calls.antt =====
-- packages/backend/src/oracle/oracle.service.ts: the rows that the service keeps, and what it computes
-- from one call without the database. The entities are oracle/entities/oracle-call.entity.ts and
-- oracle-outcome.entity.ts.
use Prim.Native.String.{String}
use backit_on_stellar.Prelude.{
  ℕ, ◌+◌, Bool, true, false, List, Option, none, some, ◌&&◌, ◌^◌, leb, ltb, if◌then◌else◌,
}
use backit_on_stellar.Oracle.Prices.{Doubles, Horizon}

pub data OracleCallStatus : Type 0 where
  draft opened paused settling resolved_yes resolved_no : OracleCallStatus

-- A double is its bit pattern, a date its instant.
pub record OracleCall : Type 0 where
  pub pair_address : String
  pub base_token : List ℕ
  pub quote_token : List ℕ
  pub strike_price : ℕ
  pub call_time : ℕ
  pub status : OracleCallStatus
  pub report_count : ℕ
  pub is_hidden : Bool
  pub needs_admin_review : Bool
  pub processed_at : Option ℕ
  pub failed_at : Option ℕ
  pub final_price : Option String
  pub resolved_at : Option ℕ

pub data MarketStatus : Type 0 where
  market_pending market_active market_paused market_resolved : MarketStatus

pub data Outcome : Type 0 where
  yes no : Outcome

-- Why an operation throws.
pub data Reason : Type 0 where
  not_found : Reason
  market_paused_by_reports : Reason
  cannot_resolve : OracleCallStatus → Reason
  price_deviation : ℕ → ℕ → Reason
  not_paused : OracleCallStatus → Reason
  cannot_force : OracleCallStatus → Reason
  sign_failed outcome_save_failed call_save_failed : Reason

pub data Result (A : Type 0) : Type 0 where
  ok : A → Result A
  thrown : Reason → Result A

-- What `signOutcome` signs.
pub record OutcomeData : Type 0 where
  pub call_id : ℕ
  pub price : ℕ
  pub timestamp : ℕ
  pub outcome : Outcome
  pub pair_address : String

-- A row of the table of outcomes.
pub record OracleOutcome : Type 0 where
  pub call_id : ℕ
  pub price : ℕ
  pub outcome : Outcome
  pub signature : String
  pub evidence_cid : Option String

-- A row that `recordOperation` writes for a submission.
pub record HealthLog : Type 0 where
  pub oracle_key : String
  pub call_id : ℕ
  pub submission_time : ℕ
  pub price_fetched : ℕ
  pub expected_price : ℕ
  pub success : Bool
  pub error_message : Option Reason
  pub dex_screener_price : Option ℕ
  pub horizon_price : Option ℕ

pub data Event : Type 0 where
  oracle_submitted : ℕ → String → Outcome → Option ℕ → Event
  call_resolved : ℕ → Outcome → String → Event

pub record Oracle (T : Type 0) : Type 0 where
  pub calls : T
  pub outcomes : List OracleOutcome
  pub health : List HealthLog
  pub events : List Event

abbrev pub report_threshold : ℕ
report_threshold = 5

-- The switch of `getMarketStatus`.
unfoldable pub market_status : OracleCallStatus → MarketStatus
market_status draft = market_pending
market_status opened = market_active
market_status settling = market_active
market_status paused = market_paused
market_status resolved_yes = market_resolved
market_status resolved_no = market_resolved

unfoldable pub is_opened : OracleCallStatus → Bool
is_opened opened = true
is_opened _ = false

unfoldable pub status_of : Outcome → OracleCallStatus
status_of yes = resolved_yes
status_of no = resolved_no

-- What `create` gives, with the defaults of the columns.
abbrev pub new_call : String → List ℕ → List ℕ → ℕ → ℕ → OracleCall
new_call pair base quote strike time = record {
  pair_address = pair;
  base_token = base;
  quote_token = quote;
  strike_price = strike;
  call_time = time;
  status = draft;
  report_count = 0;
  is_hidden = false;
  needs_admin_review = false;
  processed_at = none;
  failed_at = none;
  final_price = none;
  resolved_at = none;
}

-- The whole number that `Math.floor` gives, as an i128 of the contract.
pub record Scaled : Type 0 where
  pub is_negative : Bool
  pub magnitude : ℕ

-- The parts of the message that is signed.
pub record Message : Type 0 where
  pub call_id : ℕ
  pub is_yes : Bool
  pub price : Scaled
  pub timestamp : ℕ

-- The outside of the service during one operation: the arithmetic of doubles, Horizon, the
-- environment's deviation threshold, `Math.floor` of a price times 10 ^ 7, if that is finite, the
-- signature of a message with the oracle's key, what pinning the evidence gives, if it does not fail,
-- whether the database saves a row of the outcomes, and what the decimal column of the final price
-- keeps of a text, if the save of the call does not fail.
pub record Outside : Type 0 where
  pub doubles : Doubles
  pub horizon : Horizon
  pub threshold_bps : ℕ
  pub floor_scaled : ℕ → Option Scaled
  pub sign_detached : Message → String
  pub pin_evidence : ℕ → String → Option String
  pub saves_outcome : OracleOutcome → Bool
  pub final_price_column : String → Option String

-- What `writeBigInt64BE` takes.
unfoldable pub is_int64 : Scaled → Bool
is_int64 x = if x.is_negative then leb x.magnitude (2 ^ 63) else ltb x.magnitude (2 ^ 63)

abbrev pub message_of : OutcomeData → Scaled → Message
message_of data_signed price = record {
  call_id = data_signed.call_id;
  is_yes = is_yes data_signed.outcome;
  price = price;
  timestamp = data_signed.timestamp;
}
  where
    is_yes : Outcome → Bool
    is_yes yes = true
    is_yes no = false

unfoldable pub sign_scaled : Option Scaled → Outside → OutcomeData → Option String
unfolding is_int64
sign_scaled none out data_signed = none
sign_scaled (some price) out data_signed =
    if is_int64 price then some (out.sign_detached (message_of data_signed price)) else none

-- `signOutcome` of signing.service.ts, which throws for none. The id of a call and the time fit 64 bits.
unfoldable pub sign_outcome : Outside → OutcomeData → Option String
unfolding sign_scaled
sign_outcome out data_signed = sign_scaled (out.floor_scaled data_signed.price) out data_signed

-- `evaluateOutcome`.
unfoldable pub evaluate_outcome : Doubles → OracleCall → String → Outcome
evaluate_outcome fl c observed = if fl.ge (fl.parse_float observed) c.strike_price then yes else no

abbrev pub reported : OracleCall → OracleCall
reported c =
    let count = c.report_count + 1 in
    record c {
      report_count = count;
      is_hidden = leb report_threshold count;
      status = if leb report_threshold count && is_opened c.status then paused else c.status;
    }

abbrev pub price_or : Option String → Option String → Option String
price_or none old = old
price_or (some p) old = some p

-- What the column keeps of a price that is given, if the save does not fail.
unfoldable pub kept_price : (String → Option String) → Option String → Option (Option String)
kept_price column none = some none
kept_price column (some price) = elim (column price) [ none ↦ none | some kept ↦ some (some kept) ]

unfoldable pub is_resolvable : OracleCallStatus → Bool
is_resolvable opened = true
is_resolvable paused = true
is_resolvable settling = true
is_resolvable _ = false

abbrev pub force_resolved : OracleCall → Outcome → Option String → ℕ → OracleCall
force_resolved c resolution price now = record c {
  status = status_of resolution;
  resolved_at = some now;
  processed_at = some now;
  failed_at = none;
  final_price = price_or price c.final_price;
}

-- The submission of `resolveMarket`, as `recordOperation` is told of it.
abbrev pub submission : Outside → ℕ → OracleCall → String → ℕ → Option Reason → HealthLog
submission out id c observed now error = record {
  oracle_key = c.pair_address;
  call_id = id;
  submission_time = now;
  price_fetched = out.doubles.to_number observed;
  expected_price = c.strike_price;
  success = false;
  error_message = error;
  dex_screener_price = none;
  horizon_price = none;
}
