-- ===== src/Idempotency/Interceptor.antt =====
-- packages/backend/src/idempotency/idempotency.interceptor.ts, with `extractErrorInfo` of
-- idempotency.service.ts. Other requests run between the claim and the end of the handler, so a
-- request is two steps: `begin` up to the handler, and `settle` with the handler's result.
pub mod Replays
use Prim.Native.String
use Prim.Native.String.{String}
use backit_on_stellar.Prelude.{
  ℕ, ◌≡◌, Bool, true, false, Option, none, some, List, [], ◌∷◌, leb, ltb, if◌then◌else◌, or_else,
  length, ◌||◌, ◌==◌,
}
use backit_on_stellar.Prelude.Text.{units}
use backit_on_stellar.Prelude.Json.{Value, obj, Fields, end, undefined, null}
use backit_on_stellar.Prelude.Repo.{Repo}
use backit_on_stellar.Idempotency.{
  ClaimKey, IdempotencyRecord, ClaimResult, claimed, replayed, busy, conflict, Service,
  claim_or_replay, fail,
}
use backit_on_stellar.Idempotency.Sanitise.{complete}

abbrev pub max_key_length : ℕ
max_key_length = 128

-- A header that is missing, given once, or given several times.
pub data Header : Type 0 where
  missing : Header
  single : String → Header
  several : List String → Header

pub record Request : Type 0 where
  pub key_header : Header
  pub method : String
  pub route_path : Option String
  pub path : String
  pub address : Option String
  pub body : Value

pub data Refusal : Type 0 where
  key_required key_length key_conflict key_in_progress : Refusal

pub data Begin : Type 0 where
  bypass : Begin
  refuse : Refusal → Begin
  replay : ℕ → Fields → Begin
  run : ClaimKey → Begin

-- `rawKey[0]` of several values, or the value.
unfoldable pub first_value : Header → Option String
first_value missing = none
first_value (single k) = some k
first_value (several []) = none
first_value (several (k ∷ ks)) = some k

-- The empty text is falsy, so that it is refused as missing.
unfoldable pub check_key : Option String → Option Refusal
check_key none = some key_required
check_key (some k) =
    let n = length (units k) in
    if n == 0
    then some key_required
    else if ltb n 1 || ltb max_key_length n
    then some key_length
    else none

abbrev pub principal_of : Request → String
principal_of req = or_else req.address "anonymous"

abbrev pub route_of : Request → String
route_of req = String.◌++◌ req.method (String.◌++◌ " " (or_else req.route_path req.path))

abbrev pub id_of : Request → String → ClaimKey
id_of req key = record { key = key; route = route_of req; principal = principal_of req }

-- `req.body ?? {}`.
abbrev pub body_of : Value → Value
body_of undefined = obj end
body_of null = obj end
body_of v = v

-- What the handler may throw: an HttpException, or anything else with what it has of `status` and,
-- if it is an Error, its message.
pub data Thrown : Type 0 where
  http_exception : ℕ → List ℕ → Thrown
  other : Option ℕ → Option (List ℕ) → Thrown

unfoldable pub extract_error_info : Thrown → ℕ × List ℕ
extract_error_info (http_exception status message) = (status, message)
extract_error_info (other status message) =
    (or_else status 500, or_else message (units "Unknown error"))

pub data Handled : Type 0 where
  returned : ℕ → Value → Handled
  threw : Thrown → Handled

pub data Reply : Type 0 where
  body : Value → Reply
  error : Thrown → Reply

-- `fingerprint` stands for the service's digest of principal, route and body.
module _ (db : Repo ClaimKey IdempotencyRecord)
    (fingerprint : String → String → Value → String) where
  abbrev pub fingerprint_of : Request → String
  fingerprint_of req = fingerprint (principal_of req) (route_of req) (body_of req.body)

  abbrev pub answer : ClaimKey → ClaimResult → Begin
  answer id claimed = run id
  answer id (replayed status stored) = replay status stored
  answer id busy = refuse key_in_progress
  answer id conflict = refuse key_conflict

  begin_checked :
      Option Refusal → Service db.Table → Request → String → ℕ → Begin × Service db.Table
  begin_checked (some why) s req key now = (refuse why, s)
  begin_checked none s req key now =
      let (r, s') = claim_or_replay db s (id_of req key) (fingerprint_of req) now in
      (answer (id_of req key) r, s')

  -- `intercept` up to the call of the handler.
  unfoldable pub begin : Service db.Table → Bool → Request → ℕ → Begin × Service db.Table
  unfolding begin_checked first_value check_key
  begin s false req now = (bypass, s)
  begin s true req now =
      let key = first_value req.key_header in
      begin_checked (check_key key) s req (or_else key "") now

  -- The rest of it. A write that fails is logged and changes nothing.
  unfoldable pub settle :
      Service db.Table → ClaimKey → Handled → Bool → ℕ → Reply × Service db.Table
  unfolding extract_error_info
  settle s id (returned status response) persists now =
      (body response, if persists then complete db s id status response now else s)
  settle s id (threw err) persists now =
      let (status, message) = extract_error_info err in
      (error err, if persists then fail db s id status message now else s)
