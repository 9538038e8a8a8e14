-- ===== src/Idempotency.antt =====
-- packages/backend/src/idempotency: the record of a claimed key and the service that moves it
-- through its states. `DataSource.transaction('SERIALIZABLE')` makes a claim one step.
pub mod Sanitise
pub mod Lifecycle
pub mod Traces
pub mod Interceptor
mod Tests
use Prim.Native.String.{String}
use backit_on_stellar.Prelude.{
  ℕ, ◌+◌, ◌*◌, ◌≡◌, refl, Bool, true, false, not, ◌&&◌, ◌||◌, Option, none, some, List, [], ◌∷◌,
  ◌==◌, ltb, if◌then◌else◌, or_else, take, ◌↔◌, arith,
}
use backit_on_stellar.Prelude.Text.{str_eq, str_eq_iff}
use backit_on_stellar.Prelude.Json.{Value, Fields, end}
use backit_on_stellar.Prelude.Repo.{Repo}

pub data State : Type 0 where
  in_progress success failed retryable : State

-- The primary key of the table.
pub record ClaimKey : Type 0 where
  pub key : String
  pub route : String
  pub principal : String

pub record IdempotencyRecord : Type 0 where
  pub id : ClaimKey
  pub fingerprint : String
  pub state : State
  pub http_status : Option ℕ
  pub response_body : Option Fields
  pub note : Option (List ℕ)
  pub expires_at : ℕ

abbrev pub default_retention_ms : ℕ
default_retention_ms = 24 * 60 * 60 * 1000

-- RETRYABLE_HTTP_STATUSES.
unfoldable pub is_retryable : ℕ → Bool
is_retryable status =
    status == 408 || status == 429 || status == 502 || status == 503 || status == 504

pub data ClaimResult : Type 0 where
  claimed : ClaimResult
  replayed : ℕ → Fields → ClaimResult
  busy : ClaimResult
  conflict : ClaimResult

-- The names of IDEMPOTENCY_EVENTS.
pub data EventName : Type 0 where
  on_claimed on_replayed on_conflicted on_in_progress on_failed on_retryable : EventName

-- What the service changes: the table, and the events that it emits, the latest first.
pub record Service (T : Type 0) : Type 0 where
  pub table : T
  pub events : List (EventName × ClaimKey)

abbrev pub emit : {T : Type 0} → EventName → ClaimKey → Service T → Service T
emit name id s = record s { events = (name, id) ∷ s.events }

module _ (db : Repo ClaimKey IdempotencyRecord) where
  -- The record that a first claim inserts.
  abbrev pub placeholder : ClaimKey → String → ℕ → IdempotencyRecord
  placeholder id fp now = record {
    id = id;
    fingerprint = fp;
    state = in_progress;
    http_status = none;
    response_body = none;
    note = none;
    expires_at = now + default_retention_ms;
  }

  -- The branches on the state of a record with the same fingerprint.
  claim_same :
      State → Service db.Table → ClaimKey → IdempotencyRecord → ℕ → ClaimResult × Service db.Table
  claim_same in_progress s id existing now = (busy, emit on_in_progress id s)
  claim_same retryable s id existing now = (
    claimed,
    emit on_claimed id (record s {
      table = db.save s.table id (record existing {
        state = in_progress;
        http_status = none;
        response_body = none;
        note = none;
        expires_at = now + default_retention_ms;
      });
    }),
  )
  claim_same success s id existing now = (
    replayed (or_else existing.http_status 200) (or_else existing.response_body end),
    emit on_replayed id s,
  )
  claim_same failed s id existing now = (
    replayed (or_else existing.http_status 200) (or_else existing.response_body end),
    emit on_replayed id s,
  )

  claim_found :
      Option IdempotencyRecord
      → Service db.Table
      → ClaimKey
      → String
      → ℕ
      → ClaimResult × Service db.Table
  claim_found none s id fp now = (
    claimed,
    emit on_claimed id (record s { table = db.save s.table id (placeholder id fp now) }),
  )
  claim_found (some existing) s id fp now =
      if not (str_eq existing.fingerprint fp)
      then (conflict, emit on_conflicted id s)
      else claim_same existing.state s id existing now

  unfoldable pub claim_or_replay :
      Service db.Table → ClaimKey → String → ℕ → ClaimResult × Service db.Table
  unfolding claim_same claim_found
  claim_or_replay s id fp now = claim_found (db.find_one s.table id) s id fp now

  complete_found :
      Option IdempotencyRecord → Service db.Table → ClaimKey → ℕ → Fields → ℕ → Service db.Table
  complete_found none s id status sanitised now = s
  complete_found (some r) s id status sanitised now = record s {
    table = db.save s.table id (record r {
      state = success;
      http_status = some status;
      response_body = some sanitised;
      note = none;
      expires_at = now + default_retention_ms;
    });
  }

  -- `complete`, after the call of `sanitise` on the response (see Sanitise.complete).
  unfoldable pub complete_with : Service db.Table → ClaimKey → ℕ → Fields → ℕ → Service db.Table
  unfolding complete_found
  complete_with s id status sanitised now =
      complete_found (db.find_one s.table id) s id status sanitised now

  abbrev pub failure_state : ℕ → State
  failure_state status = if is_retryable status then retryable else failed

  abbrev pub failure_event : ℕ → EventName
  failure_event status = if is_retryable status then on_retryable else on_failed

  fail_found :
      Option IdempotencyRecord → Service db.Table → ClaimKey → ℕ → List ℕ → ℕ → Service db.Table
  fail_found none s id status reason now = s
  fail_found (some r) s id status reason now = record s {
    table = db.save s.table id (record r {
      state = failure_state status;
      http_status = some status;
      note = some (take 1024 reason);
      expires_at = now + default_retention_ms;
    });
  }

  -- The event goes out before the record is looked up.
  unfoldable pub fail : Service db.Table → ClaimKey → ℕ → List ℕ → ℕ → Service db.Table
  unfolding fail_found
  fail s id status reason now =
      fail_found (db.find_one s.table id) (emit (failure_event status) id s) id status reason now

  abbrev pub is_in_progress : State → Bool
  is_in_progress in_progress = true
  is_in_progress _ = false

  -- The WHERE clause of the clean-up.
  abbrev pub is_expired : ℕ → IdempotencyRecord → Bool
  is_expired now r = ltb r.expires_at now && not (is_in_progress r.state)

  unfoldable pub cleanup_expired : Service db.Table → ℕ → Service db.Table
  cleanup_expired s now = record s { table = db.delete_where (is_expired now) s.table }

unfoldable pub same_id : ClaimKey → ClaimKey → Bool
same_id a b = str_eq a.key b.key && str_eq a.route b.route && str_eq a.principal b.principal

pub same_id_iff : (a b : ClaimKey) → (same_id a b ≡ true) ↔ (a ≡ b)
unfolding same_id
same_id_iff a b =
    ground (
      arith,
      str_eq_iff a.key b.key,
      str_eq_iff a.route b.route,
      str_eq_iff a.principal b.principal,
    )
