-- ===== src/Oracle/Deviation.antt =====
-- packages/backend/src/oracle/deiviation.service.ts, coinGeko.service.ts and
-- deviation.worker.ts: the comparison of the
-- oracle's prices with reference prices, and the flag that halts the signing.
use Prim.Native.String.{String}
use backit_on_stellar.Prelude.{
  ℕ, Bool, true, false, List, [], ◌∷◌, Option, none, some, if◌then◌else◌,
}
use backit_on_stellar.Prelude.Text.{str_eq}
use backit_on_stellar.Oracle.Prices.{Doubles}

pub record OraclePrice : Type 0 where
  pub symbol : String
  pub usd_price : ℕ

pub record DeviationCheckResult : Type 0 where
  pub symbol : String
  pub oracle_price : ℕ
  pub reference_price : ℕ
  pub deviation_percent : ℕ
  pub breached : Bool

pub record PriceDeviationLog : Type 0 where
  pub checked : DeviationCheckResult
  pub threshold_percent : ℕ
  pub signing_halted : Bool

-- The service's flag, and the table of its rows, the newest first.
pub record Deviation : Type 0 where
  pub signing_halted : Bool
  pub logs : List PriceDeviationLog

-- What a symbol of the loop comes to: no reference price, a result, or a rejected `save`.
pub data Check : Type 0 where
  skipped : Check
  compared : DeviationCheckResult → Check
  rejected : Check

-- The arithmetic of doubles, `toUpperCase`, the prices in dollars that CoinGecko gives for a list of
-- coins, if the request succeeds, the threshold, and whether the database, with its rows,
-- stores one more.
pub record Comparison : Type 0 where
  pub doubles : Doubles
  pub mul : ℕ → ℕ → ℕ
  pub is_zero : ℕ → Bool
  pub to_upper : String → String
  pub fetch_usd : List String → Option (String → Option ℕ)
  pub threshold : ℕ
  pub stores : List PriceDeviationLog → PriceDeviationLog → Bool

unfoldable pub calc_deviation_percent : Comparison → ℕ → ℕ → ℕ
calc_deviation_percent out oracle reference =
    if out.is_zero reference
    then out.doubles.of_nat 0
    else out.mul (out.doubles.abs (out.doubles.div (out.doubles.sub oracle reference) reference))
        (out.doubles.of_nat 100)

unfoldable pub result_of : Comparison → OraclePrice → ℕ → DeviationCheckResult
unfolding calc_deviation_percent
result_of out p reference =
    let percent = calc_deviation_percent out p.usd_price reference in
    record {
      symbol = p.symbol;
      oracle_price = p.usd_price;
      reference_price = reference;
      deviation_percent = percent;
      breached = out.doubles.gt percent out.threshold;
    }

-- The row that `persistLog` saves.
abbrev pub log_of : Comparison → Bool → DeviationCheckResult → PriceDeviationLog
log_of out halted r = record {
  checked = r;
  threshold_percent = out.threshold;
  signing_halted = if r.breached then true else halted;
}

-- What comes after `save`, whether it succeeded or not. `handleBreach` raises the flag.
unfoldable pub after_save : Bool → Deviation → PriceDeviationLog → Check × Deviation
after_save false s row = (rejected, s)
after_save true s row = (
  compared row.checked,
  record {
    signing_halted = if row.checked.breached then true else s.signing_halted;
    logs = row ∷ s.logs;
  },
)

unfoldable pub check_against : Comparison → Deviation → OraclePrice → Option ℕ → Check × Deviation
unfolding after_save
check_against out s p none = (skipped, s)
check_against out s p (some reference) =
    let row = log_of out s.signing_halted (result_of out p reference) in
    after_save (out.stores s.logs row) s row

-- `symbolToId`, at a symbol in capitals.
unfoldable pub symbol_to_id : String → Option String
symbol_to_id upper =
    if str_eq upper "XLM"
    then some "stellar"
    else if str_eq upper "BTC"
    then some "bitcoin"
    else if str_eq upper "ETH"
    then some "ethereum"
    else none

unfoldable pub coin_ids : (String → String) → List String → List String
unfolding symbol_to_id
coin_ids to_upper [] = []
coin_ids to_upper (s ∷ ss) = add_id (symbol_to_id (to_upper s)) (coin_ids to_upper ss)
  where
    add_id : Option String → List String → List String
    add_id none ids = ids
    add_id (some coin) ids = coin ∷ ids

abbrev pub usd_of : (String → Option ℕ) → Option String → Option ℕ
usd_of json none = none
usd_of json (some coin) = json coin

-- The map that the loop of `getPrices` fills, at a symbol in capitals.
unfoldable pub price_map : (String → String) → (String → Option ℕ) → List String → String → Option ℕ
unfolding symbol_to_id
price_map to_upper json [] key = none
price_map to_upper json (s ∷ ss) key =
    let rest = price_map to_upper json ss key in
    if str_eq (to_upper s) key then prefer rest (usd_of json (symbol_to_id (to_upper s))) else rest
  where
    prefer : Option ℕ → Option ℕ → Option ℕ
    prefer none usd = usd
    prefer (some later) usd = some later

-- The reply of CoinGecko to a list of coins, `none` if the request fails.
unfoldable pub get_prices :
    (String → String)
    → (List String → Option (String → Option ℕ))
    → List String
    → Option (String → Option ℕ)
unfolding coin_ids price_map
get_prices to_upper fetch symbols = ask (coin_ids to_upper symbols)
  where
    read : Option (String → Option ℕ) → Option (String → Option ℕ)
    read none = none
    read (some json) = some (price_map to_upper json symbols)

    ask : List String → Option (String → Option ℕ)
    ask [] = some (λ key. none)
    ask (coin ∷ coins) = read (fetch (coin ∷ coins))

-- A rejected `save` ends the loop, and the results are lost.
unfoldable pub join :
    Check
    → Deviation
    → Option (List DeviationCheckResult) × Deviation
    → Option (List DeviationCheckResult) × Deviation
join rejected s rest = (none, s)
join skipped s rest = rest
join (compared r) s (none, s') = (none, s')
join (compared r) s (some rs, s') = (some (r ∷ rs), s')

-- The loop of `runDeviationCheck`.
unfoldable pub check_all :
    Comparison
    → (String → Option ℕ)
    → Deviation
    → List OraclePrice
    → Option (List DeviationCheckResult) × Deviation
unfolding check_against join
check_all out references s [] = (some [], s)
check_all out references s (p ∷ ps) =
    let now = check_against out s p (references (out.to_upper p.symbol)) in
    join now.0 now.1 (check_all out references now.1 ps)

unfoldable pub symbols_of : List OraclePrice → List String
symbols_of [] = []
symbols_of (p ∷ ps) = p.symbol ∷ symbols_of ps

unfoldable pub check_priced :
    Comparison
    → Deviation
    → List OraclePrice
    → Option (String → Option ℕ)
    → Option (List DeviationCheckResult) × Deviation
unfolding check_all
check_priced out s prices none = (none, s)
check_priced out s prices (some references) = check_all out references s prices

unfoldable pub run_deviation_check :
    Comparison → Deviation → List OraclePrice → Option (List DeviationCheckResult) × Deviation
unfolding check_priced get_prices symbols_of
run_deviation_check out s prices =
    check_priced out s prices (get_prices out.to_upper out.fetch_usd (symbols_of prices))

-- `runCheck` of the worker, which logs a rejection; `none` if its query fails.
unfoldable pub run_check : Comparison → Deviation → Option (List OraclePrice) → Deviation
unfolding run_deviation_check
run_check out s none = s
run_check out s (some []) = s
run_check out s (some (p ∷ ps)) =
    if s.signing_halted then s else (run_deviation_check out s (p ∷ ps)).1

unfoldable pub clear_halt : Deviation → Deviation
clear_halt s = record s { signing_halted = false }
