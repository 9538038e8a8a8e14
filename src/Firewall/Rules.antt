-- ===== src/Firewall/Rules.antt =====
-- What packages/backend/src/firewall/firewall.service.ts decides and stores.
use Prim.Native.String.{String}
use backit_on_stellar.Prelude.{
  ℕ, ◌+◌, ◌-◌, ◌<◌, ◌≡◌, refl, sym, ◌∙◌, Bool, true, false, ◌||◌, List, [], ◌∷◌, All, Option, none,
  some, if◌then◌else◌, ltb, arith, Bool-cases, inl, inr,
}
use backit_on_stellar.Prelude.Text.{str_eq, str_eq_iff}
use backit_on_stellar.Firewall.Address.{ip_matches_cidr}
use backit_on_stellar.Firewall.{
  IpRuleType, whitelist, blacklist, IpRule, BlockReason, blacklisted_ip, bot_fingerprint,
  is_bot_user_agent, Verdict, allowed, blocked, Snapshot, Firewall, Outside, cache_ttl_ms,
  safe_header_names, is_type, some_rule, keep_header, safe_headers, persisted, block, refresh_cache,
  maybe_refresh_cache, evaluate_with, evaluate, add_rule,
}

-- A firewall whose cache is its table.
abbrev pub Fresh : Firewall → Type 0
Fresh f = f.rule_cache ≡ f.rules

pub maybe_refresh_cases :
    (f : Firewall) (now : ℕ)
    → Fresh f
    → ((maybe_refresh_cache f now).rule_cache ≡ f.rules) × ((maybe_refresh_cache f now).log ≡ f.log)
unfolding maybe_refresh_cache refresh_cache
maybe_refresh_cases f now h = elim (Bool-cases (ltb cache_ttl_ms (now - f.cache_loaded_at))) [
  | inl e ↦ rw e (refl, refl)
  | inr e ↦ rw e (h, refl)
]

pub matching_rule :
    (out : Outside) (t : IpRuleType) (r : IpRule) (rs : List IpRule) (ip : List ℕ)
    → is_type r.type t ≡ true
    → ip_matches_cidr out.net ip r.cidr ≡ true
    → some_rule out t (r ∷ rs) ip ≡ true
unfolding some_rule
matching_rule out t r rs ip h k = rw h (rw k refl)

other_rule :
    (out : Outside) (t : IpRuleType) (r : IpRule) (rs : List IpRule) (ip : List ℕ)
    → is_type r.type t ≡ false
    → some_rule out t (r ∷ rs) ip ≡ some_rule out t rs ip
unfolding some_rule
other_rule out t r rs ip h = rw h refl

-- The first request after a blacklist rule is added, whenever it comes, from an address that the rule
-- matches and that no whitelist rule of the table matches, is blocked as blacklisted; it is logged,
-- with its error code, unless the database fails.
pub blacklist_blocks :
    (out : Outside) (f : Firewall) (rule : IpRule) (snap : Snapshot) (code : String) (stores : Bool)
    (added now : ℕ)
    → rule.type ≡ blacklist
    → ip_matches_cidr out.net snap.ip rule.cidr ≡ true
    → some_rule out whitelist f.rules snap.ip ≡ false
    → let f' = add_rule f rule added in
      let (verdict, after) = evaluate out f' snap code stores now in
      (verdict ≡ blocked blacklisted_ip code)
      × (after.log ≡ (if stores then persisted snap blacklisted_ip code ∷ f.log else f.log))
unfolding add_rule refresh_cache evaluate evaluate_with block is_type
blacklist_blocks out f rule snap code stores added now kind hit free =
    let f' = add_rule f rule added in
    let (cached, log) = maybe_refresh_cases f' now refl in
    let white : some_rule out whitelist (rule ∷ f.rules) snap.ip ≡ false =
      let e = other_rule out whitelist rule f.rules snap.ip (rw kind refl) in rw e free in
    let black : some_rule out blacklist (rule ∷ f.rules) snap.ip ≡ true =
      matching_rule out blacklist rule f.rules snap.ip (rw kind refl) hit in
    rw cached (rw white (rw black (refl, rw log refl)))

-- The verdict by the three tests.
abbrev verdict_of : Bool → Bool → Bool → String → Verdict
verdict_of white black bot code =
    if white
    then allowed
    else if black
    then blocked blacklisted_ip code
    else if bot
    then blocked bot_fingerprint code
    else allowed

evaluate_verdict :
    (out : Outside) (f : Firewall) (snap : Snapshot) (code : String) (stores : Bool)
    → (evaluate_with out f snap code stores).0
      ≡ verdict_of
          (some_rule out whitelist f.rule_cache snap.ip)
          (some_rule out blacklist f.rule_cache snap.ip)
          (is_bot_user_agent out snap.user_agent [])
          code
unfolding evaluate_with block
evaluate_verdict out f snap code stores =
    elim (Bool-cases (some_rule out whitelist f.rule_cache snap.ip)) [
      | inl e ↦ rw e refl
      | inr e ↦ rw e (elim (Bool-cases (some_rule out blacklist f.rule_cache snap.ip)) [
        | inl h ↦ rw h refl
        | inr h ↦ rw h (elim (Bool-cases (is_bot_user_agent out snap.user_agent [])) [
          | inl k ↦ rw k refl
          | inr k ↦ rw k refl
        ])
      ])
    ]

-- A change of the table from outside counts for every request more than a minute after the cache
-- was loaded: the verdict is the one that a firewall with the table as its cache gives.
pub cache_expires :
    (out : Outside) (f : Firewall) (snap : Snapshot) (code : String) (stores : Bool) (now : ℕ)
    → f.cache_loaded_at + cache_ttl_ms < now
    → (evaluate out f snap code stores now).0
      ≡ (evaluate_with out (record f { rule_cache = f.rules }) snap code stores).0
unfolding evaluate maybe_refresh_cache refresh_cache
cache_expires out f snap code stores now h =
    let e : ltb cache_ttl_ms (now - f.cache_loaded_at) ≡ true = ground arith in
    rw e (
      evaluate_verdict out (refresh_cache f now) snap code stores
      ∙ sym (evaluate_verdict out (record f { rule_cache = f.rules }) snap code stores))

abbrev pub is_listed : String → List String → Bool
is_listed name [] = false
is_listed name (n ∷ names) = str_eq name n || is_listed name names

-- A header of the request under one of some names.
abbrev pub Listed : List String → (String → Option String) → String × String → Type 0
Listed names headers (name, value) = (is_listed name names ≡ true) × (headers name ≡ some value)

Listed-more :
    (n : String) (names : List String) (headers : String → Option String)
    (kept : List (String × String))
    → All (Listed names headers) kept
    → All (Listed (n ∷ names) headers) kept
Listed-more n names headers [] h = tt
Listed-more n names headers ((name, value) ∷ kept) h =
    ((ground (arith, h.0), h.0.1), Listed-more n names headers kept h.1)

keep_header-Listed :
    (o : Option String) (n : String) (names : List String) (headers : String → Option String)
    (kept : List (String × String))
    → headers n ≡ o
    → All (Listed (n ∷ names) headers) kept
    → All (Listed (n ∷ names) headers) (keep_header o n kept)
unfolding keep_header
keep_header-Listed none n names headers kept e h = h
keep_header-Listed (some value) n names headers kept e h = elim (Bool-cases (str_eq value "")) [
  | inl t ↦ rw t h
  | inr t ↦ let same = (str_eq_iff n n).1 refl in rw t ((rw same refl, e), h)
]

safe_headers-Listed :
    (names : List String) (headers : String → Option String)
    → All (Listed names headers) (safe_headers names headers)
unfolding safe_headers
safe_headers-Listed [] headers = tt
safe_headers-Listed (n ∷ names) headers =
    keep_header-Listed (headers n) n names headers _ refl
      (Listed-more n names headers _ (safe_headers-Listed names headers))

-- Whatever headers a blocked request had, its row in the log holds only headers of the request, under
-- the seven safe names: no cookie and no authorization.
pub persisted-Listed :
    (snap : Snapshot) (reason : BlockReason) (code : String)
    → All (Listed safe_header_names snap.headers) (persisted snap reason code).headers
unfolding persisted
persisted-Listed snap reason code = safe_headers-Listed safe_header_names snap.headers
