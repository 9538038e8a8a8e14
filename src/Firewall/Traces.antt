-- ===== src/Firewall/Traces.antt =====
-- Sequences of operations of packages/backend/src/firewall/firewall.service.ts.
use Prim.Native.String.{String}
use backit_on_stellar.Prelude.{
  ℕ, ◌≡◌, ◌≢◌, ◌⊎◌, inl, inr, refl, ap, ◌∙◌, ◌||◌, Bool, true, false, List, [], ◌∷◌, All, ltb, ◌-◌,
  Bool-cases,
}
use backit_on_stellar.Prelude.Text.{str_eq, str_eq_iff}
use backit_on_stellar.Firewall.Address.{ip_matches_cidr}
use backit_on_stellar.Firewall.{
  whitelist, IpRule, allowed, Snapshot, Firewall, Outside, is_type, some_rule, block, refresh_cache,
  is_bot_user_agent, cache_ttl_ms, maybe_refresh_cache, evaluate_with, evaluate,
  record_turnstile_failure, add_rule, without, remove_rule, blacklist,
}
use backit_on_stellar.Firewall.Rules.{Fresh, maybe_refresh_cases, matching_rule}

-- An operation with the time and what the outside gives it.
pub data Op : Type 0 where
  requesting : Outside → Snapshot → String → Bool → ℕ → Op
  failing_turnstile : Snapshot → String → Bool → Op
  adding : IpRule → ℕ → Op
  removing : String → ℕ → Op

unfoldable pub step : Firewall → Op → Firewall
step f (requesting out snap code stores now) = (evaluate out f snap code stores now).1
step f (failing_turnstile snap code stores) = (record_turnstile_failure f snap code stores).1
step f (adding rule now) = add_rule f rule now
step f (removing id now) = remove_rule f id now

unfoldable pub run : Firewall → List Op → Firewall
unfolding step
run f [] = f
run f (op ∷ ops) = run (step f op) ops

-- The operation does not remove the rule with this id.
abbrev pub Spares : String → Op → Type 0
Spares id (removing j now) = id ≢ j
Spares id (requesting out snap code stores now) = Unit
Spares id (failing_turnstile snap code stores) = Unit
Spares id (adding rule now) = Unit

abbrev Has : IpRule → List IpRule → Type 0
Has rule [] = ⊥
Has rule (r ∷ rs) = (r ≡ rule) ⊎ Has rule rs

-- The table has the rule, and the cache is the table.
record Holds (rule : IpRule) (f : Firewall) : Type 0 where
  fresh : Fresh f
  has : Has rule f.rules

Has-without :
    (rule : IpRule) (id : String) (rs : List IpRule)
    → rule.id ≢ id
    → Has rule rs
    → Has rule (without id rs)
unfolding without
Has-without rule id [] other h = elim h [ ]
Has-without rule id (r ∷ rs) other h = elim (Bool-cases (str_eq r.id id)) [
  | inl e ↦ rw e (elim h [
    | inl same ↦
        let removed : r.id ≡ id = (str_eq_iff r.id id).0 e in absurd (other (rw same at removed))
    | inr later ↦ Has-without rule id rs other later
  ])
  | inr e ↦
      rw e (elim h [ inl same ↦ inl same | inr later ↦ inr (Has-without rule id rs other later) ])
]

or_true : (b : Bool) → (b || true) ≡ true
or_true true = refl
or_true false = refl

Has-some_rule :
    (out : Outside) (rule : IpRule) (ip : List ℕ) (rs : List IpRule)
    → rule.type ≡ whitelist
    → ip_matches_cidr out.net ip rule.cidr ≡ true
    → Has rule rs
    → some_rule out whitelist rs ip ≡ true
unfolding some_rule is_type
Has-some_rule out rule ip [] kind hit h = elim h [ ]
Has-some_rule out rule ip (r ∷ rs) kind hit (inl same) =
    let kind' : r.type ≡ whitelist = ap (λ (x : IpRule). x.type) same ∙ kind in
    matching_rule out whitelist r rs ip (rw kind' refl)
      (ap (λ (x : IpRule). ip_matches_cidr out.net ip x.cidr) same ∙ hit)
Has-some_rule out rule ip (r ∷ rs) kind hit (inr later) =
    let rest = Has-some_rule out rule ip rs kind hit later in rw rest (or_true _)

refreshed-Holds :
    (rule : IpRule) (f : Firewall) (now : ℕ) → Holds rule f → Holds rule (maybe_refresh_cache f now)
unfolding maybe_refresh_cache refresh_cache
refreshed-Holds rule f now h = elim (Bool-cases (ltb cache_ttl_ms (now - f.cache_loaded_at))) [
  | inl e ↦ rw e (record { fresh = refl; has = h.has })
  | inr e ↦ rw e h
]

evaluated-Holds :
    (rule : IpRule) (out : Outside) (f : Firewall) (snap : Snapshot) (code : String) (stores : Bool)
    → Holds rule f
    → Holds rule (evaluate_with out f snap code stores).1
unfolding evaluate_with block
evaluated-Holds rule out f snap code stores h =
    elim (Bool-cases (some_rule out whitelist f.rule_cache snap.ip)) [
      | inl e ↦ rw e h
      | inr e ↦ rw e (elim (Bool-cases (some_rule out blacklist f.rule_cache snap.ip)) [
        | inl k ↦ rw k (record { fresh = h.fresh; has = h.has })
        | inr k ↦ rw k (elim (Bool-cases (is_bot_user_agent out snap.user_agent [])) [
          | inl l ↦ rw l (record { fresh = h.fresh; has = h.has })
          | inr l ↦ rw l h
        ])
      ])
    ]

step-Holds :
    (rule : IpRule) (f : Firewall) (op : Op)
    → Spares rule.id op
    → Holds rule f
    → Holds rule (step f op)
unfolding step evaluate record_turnstile_failure block add_rule remove_rule refresh_cache
step-Holds rule f (requesting out snap code stores now) spares h =
    evaluated-Holds rule out (maybe_refresh_cache f now) snap code stores
      (refreshed-Holds rule f now h)
step-Holds rule f (failing_turnstile snap code stores) spares h = record {
  fresh = h.fresh;
  has = h.has;
}
step-Holds rule f (adding other now) spares h = record { fresh = refl; has = inr h.has }
step-Holds rule f (removing id now) spares h = record {
  fresh = refl;
  has = Has-without rule id f.rules spares h.has;
}

run-Holds :
    (rule : IpRule) (f : Firewall) (ops : List Op)
    → All (Spares rule.id) ops
    → Holds rule f
    → Holds rule (run f ops)
unfolding run
run-Holds rule f [] spares h = h
run-Holds rule f (op ∷ ops) spares h =
    run-Holds rule (step f op) ops spares.1 (step-Holds rule f op spares.0 h)

-- Once a whitelist rule is added, and as long as it is not removed: whatever requests come, whatever
-- other rules are added or removed through the service, and whenever it is, one after another, a
-- request from an address that the rule matches is allowed, and it is not logged.
pub whitelist_wins :
    (out : Outside) (f : Firewall) (rule : IpRule) (ops : List Op) (snap : Snapshot) (code : String)
    (stores : Bool) (added now : ℕ)
    → rule.type ≡ whitelist
    → ip_matches_cidr out.net snap.ip rule.cidr ≡ true
    → All (Spares rule.id) ops
    → let f' = run (add_rule f rule added) ops in
      let (verdict, after) = evaluate out f' snap code stores now in
      (verdict ≡ allowed) × (after.log ≡ f'.log)
unfolding add_rule refresh_cache evaluate evaluate_with
whitelist_wins out f rule ops snap code stores added now kind hit spares =
    let f' = run (add_rule f rule added) ops in
    let h : Holds rule f' =
      run-Holds rule (add_rule f rule added) ops spares (record { fresh = refl; has = inl refl }) in
    let (cached, log) = maybe_refresh_cases f' now h.fresh in
    let white : some_rule out whitelist f'.rules snap.ip ≡ true =
      Has-some_rule out rule snap.ip f'.rules kind hit h.has in
    rw cached (rw white (refl, log))
