-- ===== src/Relay.antt =====
-- packages/backend/src/relay/relay.service.ts: the sponsoring of transactions (sponsorAndSubmit and
-- validateTransaction).
pub mod Fees
pub mod Actions
pub mod Simulation
pub mod Breakdowns
pub mod Guard
pub mod Sponsored
mod Tests
use Prim.Native.String.{String}
use backit_on_stellar.Prelude.{
  ℕ, ◌+◌, ◌/◌, Bool, true, false, not, ◌&&◌, List, [], ◌∷◌, Option, none, some, ltb,
}
use backit_on_stellar.Prelude.Text.{str_eq}

-- What the service reads of the SDK's objects. A contract's id is given by its bytes.
pub data ScAddress : Type 0 where
  contract_address : List ℕ → ScAddress
  account_address : ScAddress

pub data Symbol : Type 0 where
  text : String → Symbol
  buffer : String → Symbol

pub record Invocation {ℓ} (V : Type ℓ) : Type ℓ where
  pub contract : ScAddress
  pub function_name : Symbol
  pub args : List V

pub data HostFunction {ℓ} (V : Type ℓ) : Type ℓ where
  invoke_contract : Invocation V → HostFunction V
  other_function : HostFunction V

pub record Operation {ℓ} (V : Type ℓ) : Type ℓ where
  pub type : String
  pub func : Option (HostFunction V)
  pub source : Option String

pub record TimeBounds : Type 0 where
  pub min_time : String
  pub max_time : String

pub record Transaction {ℓ} (V : Type ℓ) : Type ℓ where
  pub operations : List (Operation V)
  pub signatures : List String
  pub time_bounds : Option TimeBounds
  pub fee : ℕ
  pub source : String

-- The keys that signed it, the newest first.
pub record FeeBump {ℓ} (V : Type ℓ) : Type ℓ where
  pub inner : Transaction V
  pub fee_source : String
  pub fee : ℕ
  pub signed_by : List String

pub data Envelope {ℓ} (V : Type ℓ) : Type ℓ where
  regular : Transaction V → Envelope V
  fee_bump : FeeBump V → Envelope V

pub data Refusal : Type 0 where
  not_configured xdr_required invalid_xdr settings_failed target_not_configured no_operations
        malformed_operation :
      Refusal
  not_an_invocation not_a_contract unsigned expired not_yet_valid fee_source_mismatch build_failed :
      Refusal
  operation_not_allowed unauthorized_contract submission_failed : String → Refusal

pub data Answer {ℓ} (A : Type ℓ) : Type ℓ where
  ok : A → Answer A
  refused : Refusal → Answer A

infixl 5 ◌>>=◌ ◌>>◌
abbrev pub ◌>>=◌ {ℓ κ} : {A : Type ℓ} {B : Type κ} → Answer A → (A → Answer B) → Answer B
ok a >>= f = f a
refused r >>= f = refused r

abbrev pub ◌>>◌ {ℓ} : {B : Type ℓ} → Answer (Unit {0}) → Answer B → Answer B
m >> k = m >>= λ _. k

abbrev pub guard : Bool → Refusal → Answer (Unit {0})
guard true r = ok tt
guard false r = refused r

-- What `sendTransaction` gives: an exception, an error with the text that the service makes of it,
-- or another status with the hash.
pub data Reply : Type 0 where
  unsent : String → Reply
  error_status : String → Reply
  accepted : String → Reply

-- The SDK, and `parseInt` on the texts of times.
pub record Sdk (V : Type 0) : Type 0 where
  pub from_xdr : String → Option (Envelope V)
  pub encode_contract : List ℕ → String
  pub build_fee_bump : String → ℕ → Transaction V → Option (FeeBump V)
  pub parse_int : String → ℕ

-- `this.hotWallet` by its public key, what `getSettings` gives (nothing if it throws, and the id of
-- the allowed contract, if there is one), the clock in milliseconds, and the network's reply.
pub record World (V : Type 0) : Type 0 where
  pub hot_wallet : Option String
  pub settings : Option (Option String)
  pub now : ℕ
  pub send_transaction : FeeBump V → Reply

unfoldable pub is_signed : List String → Bool
is_signed [] = false
is_signed (_ ∷ _) = true

abbrev pub answer_of : Reply → Answer String
answer_of (unsent why) = refused (submission_failed why)
answer_of (error_status why) = refused (submission_failed why)
answer_of (accepted hash) = ok hash

module _ {V : Type 0} where
  abbrev pub inner_of : Envelope V → Transaction V
  inner_of (regular tx) = tx
  inner_of (fee_bump bump) = bump.inner

  abbrev pub sign : String → FeeBump V → FeeBump V
  sign wallet bump = record bump { signed_by = wallet ∷ bump.signed_by }

  abbrev pub sign_built : String → Option (FeeBump V) → Answer (FeeBump V)
  sign_built wallet none = refused build_failed
  sign_built wallet (some bump) = ok (sign wallet bump)

module _ {V : Type 0} (sdk : Sdk V) where
  unfoldable pub check_contract : String → ScAddress → Answer (Unit {0})
  check_contract allowed account_address = refused not_a_contract
  check_contract allowed (contract_address bytes) =
      let id = sdk.encode_contract bytes in guard (str_eq id allowed) (unauthorized_contract id)

  unfoldable pub check_function : String → Option (HostFunction V) → Answer (Unit {0})
  unfolding check_contract
  check_function allowed none = refused malformed_operation
  check_function allowed (some other_function) = refused not_an_invocation
  check_function allowed (some (invoke_contract call)) = check_contract allowed call.contract

  -- The body of the loop of `validateTransaction`.
  unfoldable pub check_operation : String → Operation V → Answer (Unit {0})
  unfolding check_function
  check_operation allowed op = do
    guard (str_eq op.type "invokeHostFunction") (operation_not_allowed op.type)
    check_function allowed op.func

  unfoldable pub check_operations : String → List (Operation V) → Answer (Unit {0})
  unfolding check_operation
  check_operations allowed [] = ok tt
  check_operations allowed (op ∷ ops) = do check_operation allowed op; check_operations allowed ops

  unfoldable pub check_some : String → List (Operation V) → Answer (Unit {0})
  unfolding check_operations
  check_some allowed [] = refused no_operations
  check_some allowed (op ∷ ops) = check_operations allowed (op ∷ ops)

  unfoldable pub validate_transaction : Option (Option String) → Transaction V → Answer (Unit {0})
  unfolding check_some
  validate_transaction none tx = refused settings_failed
  validate_transaction (some none) tx = refused target_not_configured
  validate_transaction (some (some allowed)) tx = do
    guard (not (str_eq allowed "")) target_not_configured
    check_some allowed tx.operations

  -- A bound "0" is none. `now` is in seconds.
  unfoldable pub is_late : ℕ → String → Bool
  is_late now bound = not (str_eq bound "0") && ltb (sdk.parse_int bound) now

  unfoldable pub is_early : ℕ → String → Bool
  is_early now bound = not (str_eq bound "0") && ltb now (sdk.parse_int bound)

  unfoldable pub check_times : ℕ → Option TimeBounds → Answer (Unit {0})
  unfolding is_late is_early
  check_times now none = ok tt
  check_times now (some bounds) = do
    guard (not (is_late now bounds.max_time)) expired
    guard (not (is_early now bounds.min_time)) not_yet_valid

  -- `finalTx`, signed.
  unfoldable pub sponsored_bump : String → Envelope V → Answer (FeeBump V)
  sponsored_bump wallet (fee_bump bump) = do
    guard (str_eq bump.fee_source wallet) fee_source_mismatch
    ok (sign wallet bump)
  sponsored_bump wallet (regular tx) =
      sign_built wallet (sdk.build_fee_bump wallet (tx.fee + 500) tx)

  unfoldable pub prepare_envelope : World V → String → Envelope V → Answer (FeeBump V)
  unfolding validate_transaction is_signed check_times sponsored_bump
  prepare_envelope w wallet env = do
    validate_transaction w.settings (inner_of env)
    guard (is_signed (inner_of env).signatures) unsigned
    check_times (w.now / 1000) (inner_of env).time_bounds
    sponsored_bump wallet env

  unfoldable pub prepare_decoded : World V → String → Option (Envelope V) → Answer (FeeBump V)
  unfolding prepare_envelope
  prepare_decoded w wallet none = refused invalid_xdr
  prepare_decoded w wallet (some env) = prepare_envelope w wallet env

  -- What `sponsorAndSubmit` does up to `sendTransaction`: the transaction that it sends.
  unfoldable pub prepare : World V → Option String → String → Answer (FeeBump V)
  unfolding prepare_decoded
  prepare w none xdr = refused not_configured
  prepare w (some wallet) xdr = prepare_decoded w wallet (sdk.from_xdr xdr)

  -- With the log of the transactions that were handed to the network, the newest first.
  unfoldable pub submit :
      World V → Answer (FeeBump V) → List (FeeBump V) → Answer String × List (FeeBump V)
  submit w (refused why) sent = (refused why, sent)
  submit w (ok bump) sent = (answer_of (w.send_transaction bump), bump ∷ sent)

  unfoldable pub sponsor_and_submit :
      World V → String → List (FeeBump V) → Answer String × List (FeeBump V)
  unfolding prepare submit
  sponsor_and_submit w xdr sent = submit w (prepare w w.hot_wallet xdr) sent
