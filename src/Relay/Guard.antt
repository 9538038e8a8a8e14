-- ===== src/Relay/Guard.antt =====
-- Which transactions sponsorAndSubmit of packages/backend/src/relay/relay.service.ts signs and sends.
use Prim.Native.String.{String}
use backit_on_stellar.Prelude.{
  ℕ, ◌+◌, ◌/◌, ◌≤◌, ◌≡◌, ◌≢◌, ◌↔◌, refl, Bool, true, false, not, ◌&&◌, List, [], ◌∷◌, Option, none,
  some, ltb, All, arith,
}
use backit_on_stellar.Prelude.Text.{str_eq, str_eq_iff}
use backit_on_stellar.Relay.{
  ScAddress, contract_address, account_address, HostFunction, invoke_contract, other_function,
  Operation, TimeBounds, FeeBump, Envelope, regular, fee_bump, Refusal, Answer, ok, refused, ◌>>◌,
  guard, Sdk, World, check_contract, check_function, check_operation, check_operations, check_some,
  is_signed, is_late, is_early, check_times, inner_of, sign,
}

pub then-eq-ok {ℓ} :
    {A : Type ℓ} (m : Answer (Unit {0})) (k : Answer A) {a : A}
    → (m >> k) ≡ ok a
    → (m ≡ ok tt) × (k ≡ ok a)
then-eq-ok (ok _) k h = (refl, h)
then-eq-ok (refused r) k h = cc

pub guard-eq-ok : (b : Bool) (r : Refusal) → guard b r ≡ ok tt → b ≡ true
guard-eq-ok true r h = refl
guard-eq-ok false r h = cc

pub guard-true : (b : Bool) (r : Refusal) → b ≡ true → guard b r ≡ ok tt
guard-true b r h = rw h

not_iff : (b : Bool) → (not b ≡ true) ↔ (b ≢ true)
not_iff true = (λ h. cc, λ h. absurd (h refl))
not_iff false = (λ h e. cc, λ h. refl)

pub unequal_iff : (a b : String) → (not (str_eq a b) ≡ true) ↔ (a ≢ b)
unequal_iff a b = (
  λ h e. (not_iff (str_eq a b)).0 h ((str_eq_iff a b).1 e),
  λ h. (not_iff (str_eq a b)).1 (λ e. h ((str_eq_iff a b).0 e)),
)

-- A guard that lets a bound pass: there is none, or `p` fails of it.
bound_iff : (a b : Bool) → (not (a && b) ≡ true) ↔ (a ≡ true → b ≢ true)
bound_iff true b = ((λ h e. (not_iff b).0 h), λ h. (not_iff b).1 (h refl))
bound_iff false b = ((λ h e k. cc), λ h. refl)

pub is_signed_iff : (keys : List String) → (is_signed keys ≡ true) ↔ (keys ≢ [])
unfolding is_signed
is_signed_iff [] = (λ h. cc, λ h. absurd (h refl))
is_signed_iff (k ∷ ks) = (λ h e. cc, λ h. refl)

not_lt : (a b : ℕ) → ltb a b ≢ true → b ≤ a
not_lt a b h = ground arith

lt_not : (a b : ℕ) → b ≤ a → ltb a b ≢ true
lt_not a b h e = ground arith

module _ {V : Type 0} (sdk : Sdk V) where
  abbrev pub At : String → ScAddress → Type 0
  At allowed account_address = ⊥
  At allowed (contract_address bytes) = sdk.encode_contract bytes ≡ allowed

  abbrev pub Calls : String → Option (HostFunction V) → Type 0
  Calls allowed none = ⊥
  Calls allowed (some other_function) = ⊥
  Calls allowed (some (invoke_contract call)) = At allowed call.contract

  -- The operation invokes the allowed contract.
  abbrev pub Invokes : String → Operation V → Type 0
  Invokes allowed op = (op.type ≡ "invokeHostFunction") × Calls allowed op.func

  -- The time, in seconds, lies in the bounds. "0" is no bound.
  abbrev pub Timely : ℕ → Option TimeBounds → Type 0
  Timely now none = Unit
  Timely now (some bounds) =
      (bounds.max_time ≢ "0" → now ≤ sdk.parse_int bounds.max_time)
      × (bounds.min_time ≢ "0" → sdk.parse_int bounds.min_time ≤ now)

  -- The sponsor's transaction for what the client gave: the client's own, if it names the wallet as
  -- the source of its fee, or a new one for the client's transaction.
  abbrev pub Sponsors : String → Envelope V → FeeBump V → Type 0
  Sponsors wallet (fee_bump bump) b = (bump.fee_source ≡ wallet) × (sign wallet bump ≡ b)
  Sponsors wallet (regular tx) b =
      (bump : FeeBump V) × (sdk.build_fee_bump wallet (tx.fee + 500) tx ≡ some bump)
      × (sign wallet bump ≡ b)

  pub record Permitted (w : World V) (xdr : String) (b : FeeBump V) : Type 0 where
    pub wallet : String
    pub allowed : String
    pub env : Envelope V
    pub configured : w.hot_wallet ≡ some wallet
    pub decoded : sdk.from_xdr xdr ≡ some env
    pub target : w.settings ≡ some (some allowed)
    pub target_given : allowed ≢ ""
    pub some_operation : (inner_of env).operations ≢ []
    pub invocations : All (Invokes allowed) (inner_of env).operations
    pub signed : (inner_of env).signatures ≢ []
    pub timely : Timely (w.now / 1000) (inner_of env).time_bounds
    pub sponsored : Sponsors wallet env b

  check_contract_iff :
      (allowed : String) (a : ScAddress) → (check_contract sdk allowed a ≡ ok tt) ↔ At allowed a
  unfolding check_contract
  check_contract_iff allowed account_address = (λ h. cc, λ h. absurd h)
  check_contract_iff allowed (contract_address bytes) =
      let same = str_eq_iff (sdk.encode_contract bytes) allowed in
      (λ h. same.0 (guard-eq-ok _ _ h), λ h. guard-true _ _ (same.1 h))

  check_function_iff :
      (allowed : String) (f : Option (HostFunction V))
      → (check_function sdk allowed f ≡ ok tt) ↔ Calls allowed f
  unfolding check_function
  check_function_iff allowed none = (λ h. cc, λ h. absurd h)
  check_function_iff allowed (some other_function) = (λ h. cc, λ h. absurd h)
  check_function_iff allowed (some (invoke_contract call)) =
      check_contract_iff allowed call.contract

  check_operation_iff :
      (allowed : String) (op : Operation V)
      → (check_operation sdk allowed op ≡ ok tt) ↔ Invokes allowed op
  unfolding check_operation
  check_operation_iff allowed op =
      let same = str_eq_iff op.type "invokeHostFunction" in
      let calls = check_function_iff allowed op.func in
      (
        λ h. let (a, b) = then-eq-ok _ _ h in (same.0 (guard-eq-ok _ _ a), calls.0 b),
        λ h. rw (same.1 h.0) (calls.1 h.1),
      )

  check_operations_iff :
      (allowed : String) (ops : List (Operation V))
      → (check_operations sdk allowed ops ≡ ok tt) ↔ All (Invokes allowed) ops
  unfolding check_operations
  check_operations_iff allowed [] = (λ h. tt, λ h. refl)
  check_operations_iff allowed (op ∷ ops) =
      let first = check_operation_iff allowed op in
      let rest = check_operations_iff allowed ops in
      (
        λ h. let (a, b) = then-eq-ok _ _ h in (first.0 a, rest.0 b),
        λ h. rw (first.1 h.0) (rest.1 h.1),
      )

  pub check_some_iff :
      (allowed : String) (ops : List (Operation V))
      → (check_some sdk allowed ops ≡ ok tt) ↔ ((ops ≢ []) × All (Invokes allowed) ops)
  unfolding check_some
  check_some_iff allowed [] = (λ h. cc, λ h. absurd (h.0 refl))
  check_some_iff allowed (op ∷ ops) =
      let whole = check_operations_iff allowed (op ∷ ops) in
      (λ h. (λ e. cc, whole.0 h), λ h. whole.1 h.1)

  late_iff :
      (now : ℕ) (bound : String)
      → (not (is_late sdk now bound) ≡ true) ↔ (bound ≢ "0" → now ≤ sdk.parse_int bound)
  unfolding is_late
  late_iff now bound =
      let open_end = unequal_iff bound "0" in
      let both = bound_iff (not (str_eq bound "0")) (ltb (sdk.parse_int bound) now) in
      (
        λ h e. not_lt (sdk.parse_int bound) now (both.0 h (open_end.1 e)),
        λ h. both.1 (λ e. lt_not (sdk.parse_int bound) now (h (open_end.0 e))),
      )

  early_iff :
      (now : ℕ) (bound : String)
      → (not (is_early sdk now bound) ≡ true) ↔ (bound ≢ "0" → sdk.parse_int bound ≤ now)
  unfolding is_early
  early_iff now bound =
      let open_end = unequal_iff bound "0" in
      let both = bound_iff (not (str_eq bound "0")) (ltb now (sdk.parse_int bound)) in
      (
        λ h e. not_lt now (sdk.parse_int bound) (both.0 h (open_end.1 e)),
        λ h. both.1 (λ e. lt_not now (sdk.parse_int bound) (h (open_end.0 e))),
      )

  pub check_times_iff :
      (now : ℕ) (bounds : Option TimeBounds)
      → (check_times sdk now bounds ≡ ok tt) ↔ Timely now bounds
  unfolding check_times
  check_times_iff now none = (λ h. tt, λ h. refl)
  check_times_iff now (some bounds) =
      let late = late_iff now bounds.max_time in
      let early = early_iff now bounds.min_time in
      (
        λ h.
            let (a, b) = then-eq-ok _ _ h in
            (late.0 (guard-eq-ok _ _ a), early.0 (guard-eq-ok _ _ b)),
        λ h. rw (late.1 h.0) (guard-true _ _ (early.1 h.1)),
      )
