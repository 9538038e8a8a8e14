-- ===== src/Relay/Actions.antt =====
-- packages/backend/src/relay/relay.service.ts: what `simulate` reads of a transaction, and the token
-- transfers that it tells the user of. Doubles are their bit patterns.
use Prim.Native.String.{String}
use backit_on_stellar.Prelude.{
  ℕ, ◌^◌, Bool, true, ◌||◌, List, [], ◌∷◌, Option, none, some, ◌==◌, if◌then◌else◌,
}
use backit_on_stellar.Prelude.Text.{str_eq, is_nan}
use backit_on_stellar.Relay.{
  ScAddress, contract_address, account_address, Symbol, text, buffer, Invocation, HostFunction,
  invoke_contract, Operation,
}

-- What `scValToNative` gives of a value: it throws, `undefined`, or a value, with its
-- `Number(BigInt(v))`, if it is one, and its `Number(v)`.
pub data Native : Type 0 where
  throws undefined : Native
  value : Option ℕ → ℕ → Native

-- The arithmetic of doubles, and the SDK's reading of values: `stake_amount` is that of the value's
-- field of this name, `undefined` if it is missing or falsy.
pub record Values (V : Type 0) : Type 0 where
  pub number : ℕ → ℕ
  pub add : ℕ → ℕ → ℕ
  pub sub : ℕ → ℕ → ℕ
  pub mul : ℕ → ℕ → ℕ
  pub div : ℕ → ℕ → ℕ
  pub gt : ℕ → ℕ → Bool
  pub ge : ℕ → ℕ → Bool
  pub eq : ℕ → ℕ → Bool
  pub round : ℕ → ℕ
  pub to_string : ℕ → String
  pub to_fixed : ℕ → ℕ → String
  pub parse_float : String → ℕ
  pub encode_contract : List ℕ → String
  pub to_native : V → Native
  pub stake_amount : V → Native

-- What is read of the first operation.
pub record Details (V : Type 0) : Type 0 where
  pub contract_called : String
  pub function_called : String
  pub args : List V
  pub user : String

pub record TokenTransfer : Type 0 where
  pub from : String
  pub to : String
  pub amount : String
  pub token : String

-- The last part of a breakdown: transfers, pool ratios in basis points, and the payout.
pub record Effect : Type 0 where
  pub token_transfers : List TokenTransfer
  pub up_bps : ℕ
  pub down_bps : ℕ
  pub estimated_payout_if_win : String

-- `a || b` on texts.
unfoldable pub or_text : String → String → String
or_text a b = if str_eq a "" then b else a

unfoldable pub function_name : Symbol → String
unfolding or_text
function_name (text name) = or_text name "unknown"
function_name (buffer name) = name

unfoldable pub source_of : Option String → String → String
unfolding or_text
source_of none tx_source = tx_source
source_of (some op_source) tx_source = or_text op_source tx_source

-- `x || d` on numbers: 0, -0 and NaN are falsy.
unfoldable pub or_number : ℕ → ℕ → ℕ
unfolding is_nan
or_number x d = if is_nan x || (x == 0 || x == 2 ^ 63) then d else x

unfoldable pub action_of : String → String
action_of name =
    if str_eq name "redeem_shares" || str_eq name "withdraw_payout"
    then "claim_payout"
    else if str_eq name "claim_void_refund" || str_eq name "claim_expired_refund"
    then "withdraw_stake"
    else name

module _ {V : Type 0} (fl : Values V) where
  unfoldable pub invoked : String → ScAddress → Invocation V → Details V
  unfolding function_name
  invoked user account_address call = record {
    contract_called = "Unknown";
    function_called = "unknown";
    args = [];
    user = user;
  }
  invoked user (contract_address bytes) call = record {
    contract_called = fl.encode_contract bytes;
    function_called = function_name call.function_name;
    args = call.args;
    user = user;
  }

  unfoldable pub function_details : String → Option (HostFunction V) → Details V
  unfolding invoked
  function_details user (some (invoke_contract call)) = invoked user call.contract call
  function_details user _ = record {
    contract_called = "Unknown";
    function_called = "unknown";
    args = [];
    user = user;
  }

  unfoldable pub first_details : List (Operation V) → String → Details V
  unfolding function_details source_of
  first_details [] tx_source = function_details tx_source none
  first_details (op ∷ ops) tx_source =
      let user = source_of op.source tx_source in
      if str_eq op.type "invokeHostFunction"
      then function_details user op.func
      else function_details user none

  -- A number of stroops in units of the token.
  abbrev pub in_units : ℕ → ℕ
  in_units n = fl.div n (fl.number 10000000)

  unfoldable pub created_amount_of : Native → String
  created_amount_of (value (some n) x) = fl.to_string (in_units n)
  created_amount_of _ = "100"

  unfoldable pub created_amount : List V → String
  unfolding created_amount_of
  created_amount (a ∷ b ∷ rest) = created_amount_of (fl.stake_amount b)
  created_amount _ = "100"

  unfoldable pub position_of : Native → ℕ
  position_of (value big x) = x
  position_of _ = fl.number 1

  -- The amount and the position; both keep their defaults if either throws.
  unfoldable pub read_stake : Native → Native → ℕ × ℕ
  unfolding position_of
  read_stake throws p = (fl.number 100, fl.number 1)
  read_stake (value none x) p = (fl.number 100, fl.number 1)
  read_stake undefined p = (fl.number 100, position_of p)
  read_stake (value (some n) x) throws = (fl.number 100, fl.number 1)
  read_stake (value (some n) x) undefined = (n, fl.number 1)
  read_stake (value (some n) x) (value big y) = (n, y)

  unfoldable pub stake_of : List V → ℕ × ℕ
  unfolding read_stake
  stake_of (a ∷ b ∷ c ∷ d ∷ rest) = read_stake (fl.to_native c) (fl.to_native d)
  stake_of _ = (fl.number 100, fl.number 1)

  unfoldable pub human_amount : ℕ → String
  human_amount n =
      if fl.ge n (fl.number 10000000) then fl.to_fixed (in_units n) 2 else fl.to_string n

  unfoldable pub staked : Details V → ℕ × ℕ → Effect
  unfolding human_amount or_number or_text
  staked d (amount, position) =
      let human = human_amount amount in
      let added = or_number (fl.parse_float human) (fl.number 100) in
      let is_up = fl.eq position (fl.number 1) in
      let up = if is_up then fl.add (fl.number 500) added else fl.number 500 in
      let down = if is_up then fl.number 500 else fl.add (fl.number 500) added in
      let pool = fl.add up down in
      let up_bps = fl.round (fl.mul (fl.div up pool) (fl.number 10000)) in
      let share = if is_up then up else down in
      let payout =
        if fl.gt share (fl.number 0) then fl.mul (fl.div added share) pool else fl.number 0 in
      record {
        token_transfers =
            record {
              from = or_text d.user "staker_address";
              to = d.contract_called;
              amount = human;
              token = "USDC";
            }
            ∷ [];
        up_bps = up_bps;
        down_bps = fl.sub (fl.number 10000) up_bps;
        estimated_payout_if_win = fl.to_fixed payout 2;
      }

  unfoldable pub created : Details V → Effect
  unfolding created_amount or_text
  created d = record {
    token_transfers =
        record {
          from = or_text d.user "user_address";
          to = d.contract_called;
          amount = created_amount d.args;
          token = "USDC";
        }
        ∷ [];
    up_bps = fl.number 5000;
    down_bps = fl.number 5000;
    estimated_payout_if_win = "0.00";
  }

  -- A payment of the contract to the user.
  unfoldable pub paid : Details V → String → String → String → Effect
  unfolding or_text
  paid d unknown amount payout = record {
    token_transfers =
        record {
          from = d.contract_called;
          to = or_text d.user unknown;
          amount = amount;
          token = "USDC";
        }
        ∷ [];
    up_bps = fl.number 0;
    down_bps = fl.number 0;
    estimated_payout_if_win = payout;
  }

  unfoldable pub payout_of : Native → String
  payout_of (value (some n) x) = fl.to_fixed (in_units n) 2
  payout_of _ = "180.00"

  -- The payout, of the value that a simulation that succeeds returns.
  unfoldable pub payout : Bool → Option V → String
  unfolding payout_of
  payout true (some retval) = payout_of (fl.to_native retval)
  payout _ _ = "180.00"

  unfoldable pub effect_of : String → Details V → Bool → Option V → Effect
  unfolding created staked stake_of paid payout
  effect_of action d will_succeed retval =
      if str_eq action "create_call"
      then created d
      else if str_eq action "stake_on_call"
      then staked d (stake_of d.args)
      else if str_eq action "claim_payout"
      then paid d "redeemer_address" (payout will_succeed retval) (payout will_succeed retval)
      else if str_eq action "withdraw_stake"
      then paid d "staker_address" "100.00" "0.00"
      else if str_eq action "cancel_call"
      then paid d "creator_address" "100.00" "0.00"
      else record {
        token_transfers = [];
        up_bps = fl.number 5000;
        down_bps = fl.number 5000;
        estimated_payout_if_win = "0.00";
      }
