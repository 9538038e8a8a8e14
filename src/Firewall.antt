-- ===== src/Firewall.antt =====
-- packages/backend/src/firewall: which requests the firewall lets pass (utils/ip-matcher.util.ts and
-- firewall.service.ts). Texts that the code cuts are lists of code units.
pub mod Block
pub mod Address
pub mod Rules
pub mod Traces
mod Tests
use Prim.Native.String.{String}
use backit_on_stellar.Prelude.{
  ℕ, ◌-◌, Bool, true, false, not, List, [], ◌∷◌, ◌++◌, Option, none, some, ◌||◌, ◌&&◌, ltb,
  if◌then◌else◌,
}
use backit_on_stellar.Prelude.Text.{str_eq}
use backit_on_stellar.Firewall.Address.{Net, ip_matches_cidr}

pub data IpRuleType : Type 0 where
  whitelist blacklist : IpRuleType

pub record IpRule : Type 0 where
  pub id : String
  pub cidr : List ℕ
  pub type : IpRuleType
  pub reason : Option String
  pub created_by : Option String

pub data BlockReason : Type 0 where
  blacklisted_ip bot_fingerprint turnstile_failed rate_limit_exceeded malformed_request :
      BlockReason

pub data Verdict : Type 0 where
  allowed : Verdict
  blocked : BlockReason → String → Verdict

-- The headers of a request, by name; one that is missing is none.
pub record Snapshot : Type 0 where
  pub ip : List ℕ
  pub method : String
  pub path : String
  pub user_agent : Option String
  pub headers : String → Option String

pub record BlockedRequest : Type 0 where
  pub error_code : String
  pub ip : List ℕ
  pub reason : BlockReason
  pub method : String
  pub path : String
  pub user_agent : Option String
  pub headers : List (String × String)

-- The table of rules, the cache of it with the time when it was loaded, and the log.
pub record Firewall : Type 0 where
  pub rules : List IpRule
  pub rule_cache : List IpRule
  pub cache_loaded_at : ℕ
  pub log : List BlockedRequest

abbrev pub cache_ttl_ms : ℕ
cache_ttl_ms = 60000

-- The sources of the patterns, all of them without regard to case.
abbrev pub bot_ua_patterns : List String
bot_ua_patterns =
    "bot" ∷ "crawl" ∷ "spider" ∷ "scrape" ∷ "curl\\/" ∷ "wget\\/" ∷ "python-requests"
    ∷ "go-http-client" ∷ "axios\\/" ∷ "java\\/" ∷ "libwww-perl" ∷ "scrapy" ∷ "semrush" ∷ "ahrefs"
    ∷ "mj12bot" ∷ "dotbot" ∷ "sistrix" ∷ "petalbot" ∷ []

abbrev pub safe_header_names : List String
safe_header_names =
    "accept" ∷ "accept-language" ∷ "content-type" ∷ "origin" ∷ "referer" ∷ "x-forwarded-for"
    ∷ "cf-ipcountry" ∷ []

-- What the firewall takes from Node: addresses, and a pattern's test of a text.
pub record Outside : Type 0 where
  pub net : Net
  pub test : String → String → Bool

unfoldable pub some_test : Outside → List String → String → Bool
some_test out [] text = false
some_test out (p ∷ ps) text = out.test p text || some_test out ps text

unfoldable pub is_bot_user_agent : Outside → Option String → List String → Bool
unfolding some_test
is_bot_user_agent out none allowed_bots = true
is_bot_user_agent out (some text) allowed_bots =
    if str_eq text ""
    then true
    else if some_test out allowed_bots text
    then false
    else some_test out bot_ua_patterns text

unfoldable pub is_type : IpRuleType → IpRuleType → Bool
is_type whitelist whitelist = true
is_type blacklist blacklist = true
is_type _ _ = false

-- Whether a rule of a type matches the address.
unfoldable pub some_rule : Outside → IpRuleType → List IpRule → List ℕ → Bool
unfolding is_type
some_rule out t [] ip = false
some_rule out t (r ∷ rs) ip =
    (is_type r.type t && ip_matches_cidr out.net ip r.cidr) || some_rule out t rs ip

-- A header is kept if it is there and not empty.
unfoldable pub keep_header :
    Option String → String → List (String × String) → List (String × String)
keep_header none name rest = rest
keep_header (some value) name rest = if str_eq value "" then rest else (name, value) ∷ rest

unfoldable pub safe_headers : List String → (String → Option String) → List (String × String)
unfolding keep_header
safe_headers [] headers = []
safe_headers (name ∷ names) headers = keep_header (headers name) name (safe_headers names headers)

-- `persistBlockedRequest`.
unfoldable pub persisted : Snapshot → BlockReason → String → BlockedRequest
unfolding safe_headers
persisted snap reason code = record {
  error_code = code;
  ip = snap.ip;
  reason = reason;
  method = snap.method;
  path = snap.path;
  user_agent = snap.user_agent;
  headers = safe_headers safe_header_names snap.headers;
}

-- `block`, told whether the database takes the row, and the code that it generates.
unfoldable pub block : Firewall → Snapshot → BlockReason → String → Bool → Verdict × Firewall
unfolding persisted
block f snap reason code stores = (
  blocked reason code,
  record f { log = if stores then persisted snap reason code ∷ f.log else f.log },
)

unfoldable pub refresh_cache : Firewall → ℕ → Firewall
refresh_cache f now = record f { rule_cache = f.rules; cache_loaded_at = now }

unfoldable pub maybe_refresh_cache : Firewall → ℕ → Firewall
unfolding refresh_cache
maybe_refresh_cache f now =
    if ltb cache_ttl_ms (now - f.cache_loaded_at) then refresh_cache f now else f

unfoldable pub evaluate_with : Outside → Firewall → Snapshot → String → Bool → Verdict × Firewall
unfolding some_rule block is_bot_user_agent
evaluate_with out f snap code stores =
    if some_rule out whitelist f.rule_cache snap.ip
    then (allowed, f)
    else if some_rule out blacklist f.rule_cache snap.ip
    then block f snap blacklisted_ip code stores
    else if is_bot_user_agent out snap.user_agent []
    then block f snap bot_fingerprint code stores
    else (allowed, f)

unfoldable pub evaluate : Outside → Firewall → Snapshot → String → Bool → ℕ → Verdict × Firewall
unfolding evaluate_with maybe_refresh_cache
evaluate out f snap code stores now = evaluate_with out (maybe_refresh_cache f now) snap code stores

unfoldable pub record_turnstile_failure : Firewall → Snapshot → String → Bool → Verdict × Firewall
unfolding block
record_turnstile_failure f snap code stores = block f snap turnstile_failed code stores

-- `addRule`, for a rule that the database stores.
unfoldable pub add_rule : Firewall → IpRule → ℕ → Firewall
unfolding refresh_cache
add_rule f rule now = refresh_cache (record f { rules = rule ∷ f.rules }) now

unfoldable pub without : String → List IpRule → List IpRule
without id [] = []
without id (r ∷ rs) = let rest = without id rs in if str_eq r.id id then rest else r ∷ rest

unfoldable pub remove_rule : Firewall → String → ℕ → Firewall
unfolding refresh_cache without
remove_rule f id now = refresh_cache (record f { rules = without id f.rules }) now
