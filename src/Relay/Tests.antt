-- ===== src/Relay/Tests.antt =====
-- Runs of packages/backend/src/relay/relay.service.ts on concrete transactions.
use Prim.Native.String.{String}
use backit_on_stellar.Prelude.{
  ℕ, ◌+◌, ◌<◌, ◌≡◌, ◌≢◌, ◌↔◌, refl, true, List, [], ◌∷◌, Option, none, some, ltb, leb, ◌==◌,
  if◌then◌else◌, arith, All, lt→ltb,
}
use backit_on_stellar.Prelude.Text.{str_eq, str_eq_iff}
use backit_on_stellar.Relay.{
  contract_address, text, invoke_contract, Operation, Transaction, FeeBump, Envelope, regular,
  fee_bump, ok, refused, unauthorized_contract, accepted, answer_of, Sdk, World, sign,
  sponsor_and_submit,
}
use backit_on_stellar.Relay.Guard.{Permitted}
use backit_on_stellar.Relay.Sponsored.{Relayed, relays_only_permitted, relays_each-Permitted}
use backit_on_stellar.Relay.Fees.{
  Doubles, sim_failure, json, unreadable, Moment, Prices, Request, estimates, PricedAt,
  one_quote_a_minute,
}
use backit_on_stellar.Relay.Actions.{value, Values, Details, first_details, human_amount}
use backit_on_stellar.Relay.Simulation.{Run, response, SimulationResult, Cache, Simulator, simulate}
use backit_on_stellar.Relay.Breakdowns.{ends, route, direction_of, simulation_tells}

abbrev stake_op : Operation ℕ
stake_op = record {
  type = "invokeHostFunction";
  func = some (
      invoke_contract (record {
        contract = contract_address (1 ∷ []);
        function_name = text "stake_on_call";
        args = 0 ∷ 0 ∷ 5000000 ∷ 1 ∷ [];
      }));
  source = none;
}

abbrev stake_tx : Transaction ℕ
stake_tx = record {
  operations = stake_op ∷ [];
  signatures = "user" ∷ [];
  time_bounds = some (record { min_time = "0"; max_time = "2000" });
  fee = 100;
  source = "G";
}

-- A fee bump that the client built, with the wallet as its source.
abbrev dear_bump : FeeBump ℕ
dear_bump = record { inner = stake_tx; fee_source = "W"; fee = 900000000; signed_by = [] }

abbrev decode : String → Option (Envelope ℕ)
decode xdr =
    if str_eq xdr "tx"
    then some (regular stake_tx)
    else if str_eq xdr "bump"
    then some (fee_bump dear_bump)
    else none

abbrev sdk : Sdk ℕ
sdk = record {
  from_xdr = decode;
  encode_contract = λ bytes. "C";
  build_fee_bump =
      λ wallet fee tx. some (record { inner = tx; fee_source = wallet; fee = fee; signed_by = [] });
  parse_int = λ time. 2000;
}

abbrev world : World ℕ
world = record {
  hot_wallet = some "W";
  settings = some (some "C");
  now = 1000000;
  send_transaction = λ bump. accepted "hash";
}

abbrev no_bumps : List (FeeBump ℕ)
no_bumps = []

sends_tx : sponsor_and_submit sdk world "tx" no_bumps ≡ (
  ok "hash",
  record { inner = stake_tx; fee_source = "W"; fee = 600; signed_by = "W" ∷ [] } ∷ [],
)
unfolding sponsor_and_submit
sends_tx = refl

refuses_other_contract :
    sponsor_and_submit sdk (record world { settings = some (some "D") }) "tx" no_bumps
    ≡ (refused (unauthorized_contract "C"), [])
unfolding sponsor_and_submit
refuses_other_contract = refl

relays_only_permitted_example :
    Relayed sdk world "tx" no_bumps (sponsor_and_submit sdk world "tx" no_bumps)
relays_only_permitted_example = relays_only_permitted sdk world "tx" no_bumps

abbrev c_named : String
c_named = "C"

abbrev empty_text : String
empty_text = ""

c_given : c_named ≢ empty_text
c_given e = let h : str_eq c_named empty_text ≡ true = (str_eq_iff c_named empty_text).1 e in cc

dear-Permitted : Permitted sdk world "bump" (sign "W" dear_bump)
dear-Permitted = record {
  wallet = "W";
  allowed = c_named;
  env = fee_bump dear_bump;
  configured = refl;
  decoded = refl;
  target = refl;
  target_given = c_given;
  some_operation = λ e. cc;
  invocations = ((refl, refl), tt);
  signed = λ e. cc;
  timely = ((λ h. omega arith), λ h. absurd (h refl));
  sponsored = (refl, refl);
}

relays_each-Permitted_example :
    sponsor_and_submit sdk world "bump" no_bumps
    ≡ (answer_of (world.send_transaction (sign "W" dear_bump)), sign "W" dear_bump ∷ no_bumps)
relays_each-Permitted_example =
    relays_each-Permitted sdk world "bump" no_bumps (sign "W" dear_bump) dear-Permitted

abbrev whole : Doubles
whole = record {
  number = λ n. n;
  div = λ a b. a;
  mul = λ a b. a;
  to_fixed = λ a n. "0.1";
  parse_float = λ t. 1;
}

abbrev sample : Moment → Request sdk whole (some "W")
sample m = record { xdr = "tx"; simulate = λ tx. sim_failure; moment = m }

abbrev no_prices : Prices
no_prices = record { xlm_price_cache = none; requests = 0 }

abbrev at_first : Moment
at_first = record { now = 5; later = 10; quote = json (some 3) }

abbrev at_second : Moment
at_second = record { now = 60009; later = 60020; quote = unreadable }

one_quote_a_minute_example :
    let made = estimates sdk whole (some "W") no_prices (sample at_first ∷ sample at_second ∷ []) in
    All (PricedAt sdk whole (some "W") 3) made.0 × (made.1.requests ≡ 1)
one_quote_a_minute_example =
    one_quote_a_minute sdk whole (some "W") no_prices (sample at_first) (sample at_second ∷ [])
      (regular stake_tx) (some 3) refl tt refl (omega arith, tt)

-- Numbers are whole here. A text is the one that the tests look at.
abbrev values : Values ℕ
values = record {
  number = λ n. n;
  add = λ a b. a + b;
  sub = λ a b. a;
  mul = λ a b. a;
  div = λ a b. a;
  gt = λ a b. ltb b a;
  ge = λ a b. leb b a;
  eq = λ a b. a == b;
  round = λ a. a;
  to_string = λ a. if a == 5000000 then "5000000" else "?";
  to_fixed = λ a n. "fixed";
  parse_float = λ t. 1;
  encode_contract = λ bytes. "C";
  to_native = λ v. value (some v) v;
  stake_amount = λ v. value (some v) v;
}

abbrev Kept : Type 0
Kept = Option (SimulationResult × ℕ)

abbrev alive : ℕ → Kept → Option SimulationResult
alive now none = none
alive now (some (r, until)) = if ltb now until then some r else none

abbrev memory : Cache
memory = record {
  Table = String → Kept;
  get = λ t now key. alive now (t key);
  set = λ t at key r ttl. λ other. if str_eq key other then some (r, at + ttl) else t other;
}

memory_keeps :
    (t : String → Kept) (at : ℕ) (key : String) (r : SimulationResult) (ttl soon : ℕ)
    → soon < at + ttl
    → memory.get (memory.set t at key r ttl) soon key ≡ some r
memory_keeps t at key r ttl soon h = rw ((str_eq_iff key key).1 refl) (rw (lt→ltb _ _ h))

abbrev idle : Simulator memory.Table
idle = record { cached = λ key. none; simulations = 0 }

abbrev runs_well : Transaction ℕ → Run ℕ
runs_well tx =
    response (record { error = none; min_resource_fee = none; fee = none; retval = none })

abbrev tx_text : String
tx_text = "tx"

tx_given : tx_text ≢ empty_text
tx_given e = let h : str_eq tx_text empty_text ≡ true = (str_eq_iff tx_text empty_text).1 e in cc

abbrev stake_details : Details ℕ
stake_details = first_details values stake_tx.operations stake_tx.source

-- Half a unit of the token, 5000000 stroops, is told as an amount of 5000000.
half_a_unit : human_amount values 5000000 ≡ "5000000"
unfolding human_amount
half_a_unit = refl

simulation_tells_example :
    (r : SimulationResult) × ((simulate sdk values (λ e. e) memory tx_text runs_well idle 0 1).0
      ≡ ok r)
    × ((simulate sdk values (λ e. e) memory tx_text runs_well idle 0 1).1.simulations ≡ 1)
    × ((r.will_succeed ≡ true) ↔ (r.error_message ≡ none))
    × (stake_details.user ≢ ""
        → ends r.effect.token_transfers
          ≡ route
              (direction_of stake_details.function_called)
              stake_details.user
              stake_details.contract_called)
simulation_tells_example =
    simulation_tells sdk values (λ e. e) memory tx_text runs_well idle 0 1 (regular stake_tx)
      tx_given refl refl
