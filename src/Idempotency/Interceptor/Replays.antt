-- ===== src/Idempotency/Interceptor/Replays.antt =====
-- What a client that repeats a request meets, through
-- packages/backend/src/idempotency/idempotency.interceptor.ts.
use Prim.Native.String.{String}
use backit_on_stellar.Prelude.{
  ℕ, ◌≤◌, ◌≡◌, refl, true, if◌then◌else◌, arith, inl, inr, Option, none, some, Bool-cases, length,
  ap,
}
use backit_on_stellar.Prelude.Text.{str_eq_iff, units}
use backit_on_stellar.Prelude.Json.{Value, end}
use backit_on_stellar.Prelude.Repo.{Repo}
use backit_on_stellar.Idempotency.{
  ClaimKey, IdempotencyRecord, ClaimResult, claimed, busy, Service, claim_or_replay, fail,
  in_progress, is_retryable,
}
use backit_on_stellar.Idempotency.Sanitise.{sanitise, complete}
use backit_on_stellar.Idempotency.Lifecycle.{row, claimed_row, complete_then_claim, fail_then_claim}
use backit_on_stellar.Idempotency.Interceptor.{
  Request, refuse, replay, run, Refusal, key_in_progress, max_key_length, first_value, check_key,
  id_of, fingerprint_of, answer, begin_checked, begin, returned, threw, Thrown, settle,
  extract_error_info,
}

busy_of :
    (db : Repo ClaimKey IdempotencyRecord) (s : Service db.Table) (id : ClaimKey) (fp : String)
    (now : ℕ) {r : IdempotencyRecord}
    → row db s id ≡ some r
    → r.fingerprint ≡ fp
    → r.state ≡ in_progress
    → (claim_or_replay db s id fp now).0 ≡ busy
unfolding claim_or_replay
busy_of db s id fp now {r} e f st = rw e (ground (arith, str_eq_iff r.fingerprint fp))

module _ (db : Repo ClaimKey IdempotencyRecord)
    (fingerprint : String → String → Value → String) where
  answer-run :
      (id id' : ClaimKey) (r : ClaimResult)
      → answer db fingerprint id r ≡ run id'
      → (r ≡ claimed) × (id ≡ id')
  answer-run id id' r h = ground arith

  key_bounds :
      (k : String) → check_key (some k) ≡ none → (1 ≤ length (units k)) × (length (units k) ≤ 128)
  unfolding check_key
  key_bounds k h = ground arith

  begin_valid :
      (s : Service db.Table) (req : Request) (now : ℕ) (key : String)
      → first_value req.key_header ≡ some key
      → check_key (some key) ≡ none
      → (begin db fingerprint s true req now).0
        ≡ answer db fingerprint
            (id_of req key)
            (claim_or_replay db s (id_of req key) (fingerprint_of db fingerprint req) now).0
  unfolding begin
  begin_valid s req now key e v = rw (e, v)

  module _ (s : Service db.Table) (req : Request) (now : ℕ) where
    -- What it took to reach the handler: a key that passes the checks, and a granted claim.
    pub record Ran (id : ClaimKey) (s' : Service db.Table) : Type 0 where
      pub key : String
      pub header : first_value req.key_header ≡ some key
      pub valid : check_key (some key) ≡ none
      pub same : id_of req key ≡ id
      pub granted :
          (claim_or_replay db s (id_of req key) (fingerprint_of db fingerprint req) now).0 ≡ claimed
      pub state :
          (claim_or_replay db s (id_of req key) (fingerprint_of db fingerprint req) now).1 ≡ s'

    begin_checked-Ran :
        (key : String) (c : Option Refusal) {id : ClaimKey} {s' : Service db.Table}
        → first_value req.key_header ≡ some key
        → check_key (some key) ≡ c
        → begin_checked db fingerprint c s req key now ≡ (run id, s')
        → Ran id s'
    unfolding begin_checked
    begin_checked-Ran key (some why) e v h = cc (ap (λ p. p.0) h)
    begin_checked-Ran key none e v h =
        let (granted, same) = answer-run _ _ _ (ap (λ p. p.0) h) in
        record {
          key = key;
          header = e;
          valid = v;
          same = same;
          granted = granted;
          state = ap (λ p. p.1) h;
        }

    begin-Ran_of :
        (o : Option String) {id : ClaimKey} {s' : Service db.Table}
        → first_value req.key_header ≡ o
        → begin db fingerprint s true req now ≡ (run id, s')
        → Ran id s'
    unfolding begin
    begin-Ran_of none e h = cc (ap (λ p. p.0) (rw e at h))
    begin-Ran_of (some key) e h = begin_checked-Ran key _ e refl (rw e at h)

    -- The handler runs only for a request whose key has 1 to 128 characters.
    pub run-key_bounds :
        {id : ClaimKey} {s' : Service db.Table}
        → begin db fingerprint s true req now ≡ (run id, s')
        → (key : String) × (first_value req.key_header ≡ some key)
          × (1 ≤ length (units key))
          × (length (units key) ≤ max_key_length)
    run-key_bounds h =
        let r = begin-Ran_of _ refl h in
        let (lo, hi) = key_bounds r.key r.valid in (r.key, r.header, lo, hi)

    module _ {id : ClaimKey} {s' : Service db.Table}
        (h : begin db fingerprint s true req now ≡ (run id, s')) where
      -- The record of a request that runs.
      run-row :
          (r : IdempotencyRecord) × (row db s' id ≡ some r)
          × (r.fingerprint ≡ fingerprint_of db fingerprint req)
          × (r.state ≡ in_progress)
          × (r.response_body ≡ none)
      run-row =
          let ran = begin-Ran_of _ refl h in
          let (r, found, fp, st, none_yet, _) = claimed_row db s _ _ now ran.granted in
          (r, rw (← ran.state, ← ran.same) found, fp, st, none_yet)

      -- The answer that the same request gets in a later state of the service.
      again :
          (s'' : Service db.Table) (later : ℕ)
          → (begin db fingerprint s'' true req later).0
            ≡ answer db fingerprint id
                (claim_or_replay db s'' id (fingerprint_of db fingerprint req) later).0
      again s'' later =
          let ran = begin-Ran_of _ refl h in
          rw (← ran.same) (begin_valid s'' req later ran.key ran.header ran.valid)

-- Once a request has been let run, the same request, coming next and before the first has ended,
-- is refused with "in progress".
pub concurrent_duplicate_refused :
    (db : Repo ClaimKey IdempotencyRecord) (fingerprint : String → String → Value → String)
    (s s' : Service db.Table) (req : Request) (id : ClaimKey) (now later : ℕ)
    → begin db fingerprint s true req now ≡ (run id, s')
    → (begin db fingerprint s' true req later).0 ≡ refuse key_in_progress
concurrent_duplicate_refused db fingerprint s s' req id now later h =
    let (r, found, fp, st, _) = run-row db fingerprint s req now h in
    rw (again db fingerprint s req now h s' later) (rw (busy_of db s' id _ later found fp st) refl)

-- Once the handler has returned and the result is stored, the same request, coming next, does not
-- run again: it gets the first status and the sanitised body of the first response.
pub duplicate_replays :
    (db : Repo ClaimKey IdempotencyRecord) (fingerprint : String → String → Value → String)
    (s s' : Service db.Table) (req : Request) (id : ClaimKey) (status now ended later : ℕ)
    (response : Value)
    → begin db fingerprint s true req now ≡ (run id, s')
    → (begin db fingerprint
        (settle db fingerprint s' id (returned status response) true ended).1
        true
        req
        later).0
      ≡ replay status (sanitise response)
unfolding settle
duplicate_replays db fingerprint s s' req id status now ended later response h =
    let (r, found, fp, _, _) = run-row db fingerprint s req now h in
    let done = complete db s' id status response ended in
    rw (again db fingerprint s req now h done later, ← fp)
      (rw (complete_then_claim db s' id r.fingerprint status ended later response found)
        (rw ((str_eq_iff r.fingerprint r.fingerprint).1 refl) refl))

-- Once the handler has thrown and the failure is stored, the same request, coming next, runs again
-- if the status taken from the error is one of the retryable ones, and otherwise gets that status
-- with an empty body.
pub failure_answers :
    (db : Repo ClaimKey IdempotencyRecord) (fingerprint : String → String → Value → String)
    (s s' : Service db.Table) (req : Request) (id : ClaimKey) (now ended later : ℕ) (err : Thrown)
    → begin db fingerprint s true req now ≡ (run id, s')
    → (begin db fingerprint (settle db fingerprint s' id (threw err) true ended).1 true req later).0
      ≡ (if is_retryable (extract_error_info err).0
          then run id
          else replay (extract_error_info err).0 end)
unfolding settle
failure_answers db fingerprint s s' req id now ended later err h =
    let (r, found, fp, _, none_yet) = run-row db fingerprint s req now h in
    let (status, message) = extract_error_info err in
    rw (again db fingerprint s req now h (fail db s' id status message ended) later, ← fp)
      (rw (fail_then_claim db s' id status ended later message found)
        (rw none_yet (elim (Bool-cases (is_retryable status)) [ inl t ↦ rw t | inr t ↦ rw t ])))
