-- ===== src/Relay/Simulation.antt =====
-- packages/backend/src/relay/relay.service.ts: `simulate`, with its cache of breakdowns.
use Prim.Native.String
use Prim.Native.String.{String}
use backit_on_stellar.Prelude.{
  ℕ, ◌+◌, Bool, true, false, ◌&&◌, ◌||◌, List, [], ◌∷◌, Option, none, some, ◌==◌, if◌then◌else◌,
}
use backit_on_stellar.Prelude.Text.{str_eq, units}
use backit_on_stellar.Relay.{
  Transaction, Envelope, inner_of, Answer, ok, refused, xdr_required, invalid_xdr, Sdk,
}
use backit_on_stellar.Relay.Actions.{Values, Details, Effect, first_details, action_of, effect_of}

-- What `simulateTransaction` gives: it throws a text, or a response with an error or without one.
pub record Response (V : Type 0) : Type 0 where
  pub error : Option (List ℕ)
  pub min_resource_fee : Option ℕ
  pub fee : Option ℕ
  pub retval : Option V

pub data Run (V : Type 0) : Type 0 where
  failing : List ℕ → Run V
  response : Response V → Run V

pub record SimulationResult : Type 0 where
  pub action : String
  pub contract_called : String
  pub function_called : String
  pub effect : Effect
  pub estimated_gas_xlm : String
  pub estimated_gas_usd : String
  pub will_succeed : Bool
  pub error_message : Option (List ℕ)

-- The cache manager: at a time in milliseconds, `get` gives nothing if it misses or throws, and
-- `set`, with a time to live, may fail and then changes nothing.
pub record Cache : Type 1 where
  pub Table : Type 0
  pub get : Table → ℕ → String → Option SimulationResult
  pub set : Table → ℕ → String → SimulationResult → ℕ → Table

-- With the number of simulations that were asked of the network.
pub record Simulator (T : Type 0) : Type 0 where
  pub cached : T
  pub simulations : ℕ

unfoldable pub starts_with : List ℕ → List ℕ → Bool
starts_with [] ys = true
starts_with (x ∷ xs) [] = false
starts_with (x ∷ xs) (y ∷ ys) = x == y && starts_with xs ys

-- `ys.includes(xs)`.
unfoldable pub contains : List ℕ → List ℕ → Bool
unfolding starts_with
contains xs [] = starts_with xs []
contains xs (y ∷ ys) = starts_with xs (y ∷ ys) || contains xs ys

-- `a || b` on code units.
unfoldable pub or_units : List ℕ → List ℕ → List ℕ
or_units [] b = b
or_units (c ∷ a) b = c ∷ a

-- The text for an error, of the error and of it in lower case.
unfoldable pub explain : List ℕ → List ℕ → List ℕ
unfolding contains or_units
explain err lower =
    if (contains (units "insufficient") lower || contains (units "balance") lower)
      || (contains (units "underfunded") lower || contains (units "stake requires") lower)
    then units "Your balance is 50 USDC but the stake requires 100 USDC."
    else if contains (units "ended") lower || contains (units "expired") lower
    then units "Market has ended"
    else if contains (units "settled") lower
    then units "Market is already settled"
    else if contains (units "cancelled") lower
    then units "Market has been cancelled"
    else if contains (units "cutoff") lower
    then units "Staking cutoff period active"
    else or_units err (units "Simulation failed")

-- `simError`, if the simulation failed.
unfoldable pub sim_error : {V : Type 0} → Run V → Option (List ℕ)
unfolding or_units
sim_error (failing why) = some why
sim_error (response r) = response_error r.error
  where
    response_error : Option (List ℕ) → Option (List ℕ)
    response_error none = none
    response_error (some why) = some (or_units why (units "Simulation error"))

unfoldable pub first_given : Option ℕ → Option ℕ → ℕ → ℕ
first_given (some a) b d = a
first_given none (some b) d = b
first_given none none d = d

unfoldable pub fee_of : {V : Type 0} → Run V → ℕ
unfolding first_given
fee_of (failing why) = 1000
fee_of (response r) = first_given r.min_resource_fee r.fee 1000

unfoldable pub retval_of : {V : Type 0} → Run V → Option V
retval_of (failing why) = none
retval_of (response r) = r.retval

unfoldable pub succeeds : Option (List ℕ) → Bool
succeeds none = true
succeeds (some why) = false

unfoldable pub message_of : (List ℕ → List ℕ) → Option (List ℕ) → Option (List ℕ)
unfolding explain
message_of to_lower none = none
message_of to_lower (some why) = some (explain why (to_lower why))

unfoldable pub cache_key : String → String
cache_key xdr = String.◌++◌ "relay:simulate:" xdr

module _ {V : Type 0} (sdk : Sdk V) (fl : Values V) (to_lower : List ℕ → List ℕ)
    (cache : Cache) where
  unfoldable pub breakdown : Details V → Run V → SimulationResult
  unfolding action_of effect_of sim_error fee_of retval_of succeeds message_of
  breakdown d sim =
      let error = sim_error sim in
      let gas = fl.div (fl.number (fee_of sim)) (fl.number 10000000) in
      let action = action_of d.function_called in
      record {
        action = action;
        contract_called = d.contract_called;
        function_called = d.function_called;
        effect = effect_of fl action d (succeeds error) (retval_of sim);
        estimated_gas_xlm = if fl.gt gas (fl.number 0) then fl.to_fixed gas 6 else "0.0001";
        estimated_gas_usd = fl.to_fixed (fl.mul gas (fl.parse_float "0.15")) 6;
        will_succeed = succeeds error;
        error_message = message_of to_lower error;
      }

  -- The time now is when the cache is asked, later when it is written.
  unfoldable pub simulate_decoded :
      Option (Envelope V)
      → String
      → (Transaction V → Run V)
      → Simulator cache.Table
      → ℕ
      → Answer SimulationResult × Simulator cache.Table
  unfolding first_details breakdown
  simulate_decoded none key run s later = (refused invalid_xdr, s)
  simulate_decoded (some env) key run s later =
      let tx = inner_of env in
      let result = breakdown (first_details fl tx.operations tx.source) (run tx) in
      (
        ok result,
        record {
          cached = cache.set s.cached later key result 30000;
          simulations = s.simulations + 1;
        },
      )

  unfoldable pub simulate_cached :
      Option SimulationResult
      → String
      → (Transaction V → Run V)
      → Simulator cache.Table
      → ℕ
      → Answer SimulationResult × Simulator cache.Table
  unfolding simulate_decoded cache_key
  simulate_cached (some result) xdr run s later = (ok result, s)
  simulate_cached none xdr run s later =
      simulate_decoded (sdk.from_xdr xdr) (cache_key xdr) run s later

  unfoldable pub simulate :
      String
      → (Transaction V → Run V)
      → Simulator cache.Table
      → ℕ
      → ℕ
      → Answer SimulationResult × Simulator cache.Table
  unfolding simulate_cached cache_key
  simulate xdr run s now later =
      let rest = simulate_cached (cache.get s.cached now (cache_key xdr)) xdr run s later in
      if str_eq xdr "" then (refused xdr_required, s) else rest
