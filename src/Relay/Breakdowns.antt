-- ===== src/Relay/Breakdowns.antt =====
-- What `simulate` of packages/backend/src/relay/relay.service.ts tells, and how long it is kept.
use Prim.Native.String.{String}
use backit_on_stellar.Prelude.{
  ℕ, ◌+◌, ◌<◌, ◌≡◌, ◌≢◌, ◌↔◌, refl, Bool, true, false, ◌||◌, List, [], ◌∷◌, Option, none, some,
  if◌then◌else◌, arith, Bool-cases, inl, inr,
}
use backit_on_stellar.Prelude.Text.{str_eq, str_eq_iff}
use backit_on_stellar.Relay.{Transaction, Envelope, inner_of, ok, Sdk}
use backit_on_stellar.Relay.Actions.{
  Values, Details, TokenTransfer, or_text, first_details, action_of, created, staked, stake_of,
  paid, payout, effect_of,
}
use backit_on_stellar.Relay.Simulation.{
  Run, SimulationResult, Cache, Simulator, succeeds, message_of, sim_error, retval_of, breakdown,
  cache_key, simulate_decoded, simulate_cached, simulate,
}

-- Where the tokens of a call of the contract go.
pub data Direction : Type 0 where
  to_contract to_user nowhere : Direction

unfoldable pub named_direction : String → Direction
named_direction name =
    if str_eq name "create_call"
    then to_contract
    else if str_eq name "stake_on_call"
    then to_contract
    else if str_eq name "claim_payout"
    then to_user
    else if str_eq name "withdraw_stake"
    then to_user
    else if str_eq name "cancel_call"
    then to_user
    else nowhere

unfoldable pub direction_of : String → Direction
unfolding named_direction
direction_of name =
    if str_eq name "redeem_shares" || str_eq name "withdraw_payout"
    then to_user
    else if str_eq name "claim_void_refund" || str_eq name "claim_expired_refund"
    then to_user
    else named_direction name

-- The sender and the receiver of each transfer.
unfoldable pub ends : List TokenTransfer → List (String × String)
ends [] = []
ends (t ∷ ts) = (t.from, t.to) ∷ ends ts

unfoldable pub route : Direction → String → String → List (String × String)
route to_contract user contract = (user, contract) ∷ []
route to_user user contract = (contract, user) ∷ []
route nowhere user contract = []

known : (user other : String) → user ≢ "" → or_text user other ≡ user
unfolding or_text
known user other h = ground (arith, str_eq_iff user "")

nonempty : (text : String) → text ≢ "" → str_eq text "" ≡ false
nonempty text h = ground (arith, str_eq_iff text "")

module _ {V : Type 0} (fl : Values V) (d : Details V) (given : d.user ≢ "") where
  ends-created : ends (created fl d).token_transfers ≡ (d.user, d.contract_called) ∷ []
  unfolding ends created
  ends-created = rw (known d.user "user_address" given)

  ends-staked :
      (n : ℕ × ℕ) → ends (staked fl d n).token_transfers ≡ (d.user, d.contract_called) ∷ []
  unfolding ends staked
  ends-staked (n, p) = rw (known d.user "staker_address" given)

  ends-paid :
      (unknown amount won : String)
      → ends (paid fl d unknown amount won).token_transfers ≡ (d.contract_called, d.user) ∷ []
  unfolding ends paid
  ends-paid unknown amount won = rw (known d.user unknown given)

  -- An action that is the function's name.
  same_ends :
      (name : String) (won : Bool) (retval : Option V)
      → ends (effect_of fl name d won retval).token_transfers
        ≡ route (named_direction name) d.user d.contract_called
  unfolding effect_of named_direction route ends
  same_ends name won retval = elim (Bool-cases (str_eq name "create_call")) [
    | inl e ↦ rw e ends-created
    | inr e ↦ rw e (elim (Bool-cases (str_eq name "stake_on_call")) [
      | inl f ↦ rw f (ends-staked (stake_of fl d.args))
      | inr f ↦ rw f (elim (Bool-cases (str_eq name "claim_payout")) [
        | inl g ↦ rw g (ends-paid "redeemer_address" (payout fl won retval) (payout fl won retval))
        | inr g ↦ rw g (elim (Bool-cases (str_eq name "withdraw_stake")) [
          | inl h ↦ rw h (ends-paid "staker_address" "100.00" "0.00")
          | inr h ↦ rw h (elim (Bool-cases (str_eq name "cancel_call")) [
            | inl k ↦ rw k (ends-paid "creator_address" "100.00" "0.00")
            | inr k ↦ rw k refl
          ])
        ])
      ])
    ])
  ]

  effect_ends :
      (name : String) (won : Bool) (retval : Option V)
      → ends (effect_of fl (action_of name) d won retval).token_transfers
        ≡ route (direction_of name) d.user d.contract_called
  unfolding action_of direction_of route
  effect_ends name won retval =
      elim (Bool-cases (str_eq name "redeem_shares" || str_eq name "withdraw_payout")) [
        | inl e ↦ rw e (unfold named_direction in same_ends "claim_payout" won retval)
        | inr e ↦
            rw e
              (elim (Bool-cases
                (str_eq name "claim_void_refund" || str_eq name "claim_expired_refund")) [
                  | inl f ↦ rw f (unfold named_direction in same_ends "withdraw_stake" won retval)
                  | inr f ↦ rw f (same_ends name won retval)
                ])
      ]

succeeds_iff :
    (to_lower : List ℕ → List ℕ) (error : Option (List ℕ))
    → (succeeds error ≡ true) ↔ (message_of to_lower error ≡ none)
unfolding succeeds message_of
succeeds_iff to_lower none = (λ h. refl, λ h. refl)
succeeds_iff to_lower (some why) = (λ h. cc, λ h. cc)

module _ {V : Type 0} (sdk : Sdk V) (fl : Values V) (to_lower : List ℕ → List ℕ)
    (cache : Cache) where
  abbrev Fresh : Envelope V → (Transaction V → Run V) → SimulationResult
  Fresh env run =
      let tx = inner_of env in
      breakdown sdk fl to_lower cache (first_details fl tx.operations tx.source) (run tx)

  -- A text that is not cached and decodes is simulated, once, and the answer has an error message
  -- exactly if it says that the transaction will fail. If the transaction has a source, its transfers
  -- are those of the contract's function that it calls: from the source to the contract for a new
  -- call or a stake, the other way for a payout, a refund or a cancellation, and none for others.
  pub simulation_tells :
      (xdr : String) (run : Transaction V → Run V) (s : Simulator cache.Table) (now later : ℕ)
      (env : Envelope V)
      → xdr ≢ ""
      → cache.get s.cached now (cache_key xdr) ≡ none
      → sdk.from_xdr xdr ≡ some env
      → let tx = inner_of env in
        let d = first_details fl tx.operations tx.source in
        (r : SimulationResult) × ((simulate sdk fl to_lower cache xdr run s now later).0 ≡ ok r)
        × ((simulate sdk fl to_lower cache xdr run s now later).1.simulations ≡ s.simulations + 1)
        × ((r.will_succeed ≡ true) ↔ (r.error_message ≡ none))
        × (d.user ≢ ""
            → ends r.effect.token_transfers
              ≡ route (direction_of d.function_called) d.user d.contract_called)
  unfolding simulate simulate_cached simulate_decoded breakdown
  simulation_tells xdr run s now later env given missed decodes =
      let tx = inner_of env in
      let d = first_details fl tx.operations tx.source in
      (
        Fresh env run,
        rw (nonempty xdr given) (rw missed (rw decodes)),
        rw (nonempty xdr given) (rw missed (rw decodes)),
        succeeds_iff to_lower (sim_error (run tx)),
        λ user. effect_ends fl d user d.function_called _ (retval_of (run tx)),
      )

  -- While it is kept, for 30 seconds from when it was stored, the same text gets the same answer, with
  -- no other simulation and nothing else changed, whatever a simulation would now give.
  pub repeat_is_cached :
      ((t : cache.Table) (at : ℕ) (key : String) (r : SimulationResult) (ttl soon : ℕ)
        → soon < at + ttl
        → cache.get (cache.set t at key r ttl) soon key ≡ some r)
      → (xdr : String) (run run' : Transaction V → Run V) (s : Simulator cache.Table)
        (now later now' later' : ℕ) (env : Envelope V)
      → xdr ≢ ""
      → cache.get s.cached now (cache_key xdr) ≡ none
      → sdk.from_xdr xdr ≡ some env
      → now' < later + 30000
      → let (answer, s') = simulate sdk fl to_lower cache xdr run s now later in
        simulate sdk fl to_lower cache xdr run' s' now' later' ≡ (answer, s')
  unfolding simulate simulate_cached simulate_decoded
  repeat_is_cached keeps xdr run run' s now later now' later' env given missed decodes soon =
      let hit = keeps s.cached later (cache_key xdr) (Fresh env run) 30000 now' soon in
      rw (nonempty xdr given) (rw missed (rw decodes (rw hit)))
