-- ===== src/Idempotency/Lifecycle.antt =====
-- What each operation of packages/backend/src/idempotency/idempotency.service.ts does to the record
-- of one key, and the answers that later requests get.
use Prim.Native.String.{String}
use backit_on_stellar.Prelude.{
  ℕ, ◌+◌, ◌≡◌, ◌≢◌, refl, if◌then◌else◌, arith, inl, inr, ◌↔◌, Option, none, some, List, Bool-cases,
  or_else,
}
use backit_on_stellar.Prelude.Text.{str_eq, str_eq_iff}
use backit_on_stellar.Prelude.Json.{Value, end}
use backit_on_stellar.Prelude.Repo.{Repo, spare}
use backit_on_stellar.Idempotency.{
  in_progress, retryable, ClaimKey, IdempotencyRecord, claimed, replayed, conflict, Service,
  placeholder, claim_or_replay, complete_with, fail, cleanup_expired, is_retryable,
  default_retention_ms, is_expired,
}
use backit_on_stellar.Idempotency.Sanitise.{sanitise, complete}

module _ (db : Repo ClaimKey IdempotencyRecord) where
  -- The row of a key.
  abbrev pub row : Service db.Table → ClaimKey → Option IdempotencyRecord
  row s id = db.find_one s.table id

  -- A request with this fingerprint would run the handler.
  abbrev pub Claimable : String → Option IdempotencyRecord → Type 0
  Claimable fp none = Unit
  Claimable fp (some r) = (r.fingerprint ≡ fp) × (r.state ≡ retryable)

  claim_found_row :
      (s : Service db.Table) (id : ClaimKey) (fp : String) (now : ℕ) (o : Option IdempotencyRecord)
      → row s id ≡ o
      → ((claim_or_replay db s id fp now).0 ≡ claimed) ↔ Claimable fp o
  unfolding claim_or_replay
  claim_found_row s id fp now none e = rw e ((λ _. tt), (λ _. refl))
  claim_found_row s id fp now (some r) e = rw e (ground (arith, str_eq_iff r.fingerprint fp))

  -- A claim is granted exactly when the key has no record, or its record has the same fingerprint
  -- and stands in RETRYABLE.
  pub claimed_iff :
      (s : Service db.Table) (id : ClaimKey) (fp : String) (now : ℕ)
      → ((claim_or_replay db s id fp now).0 ≡ claimed) ↔ Claimable fp (row s id)
  claimed_iff s id fp now = claim_found_row s id fp now (row s id) refl

  claimed_row_of :
      (s : Service db.Table) (id : ClaimKey) (fp : String) (now : ℕ) (o : Option IdempotencyRecord)
      → row s id ≡ o
      → Claimable fp o
      → (r : IdempotencyRecord) × (row (claim_or_replay db s id fp now).1 id ≡ some r)
        × (r.fingerprint ≡ fp)
        × (r.state ≡ in_progress)
        × (r.response_body ≡ none)
        × (r.expires_at ≡ now + default_retention_ms)
  unfolding claim_or_replay
  claimed_row_of s id fp now none e c =
      (placeholder db id fp now, rw e (db.find_one-save_self _ _ _), refl, refl, refl, refl)
  claimed_row_of s id fp now (some r) e c =
      let r' : IdempotencyRecord = record r {
        state = in_progress;
        http_status = none;
        response_body = none;
        note = none;
        expires_at = now + default_retention_ms;
      } in
      (
        r',
        ground (arith, str_eq_iff r.fingerprint fp, db.find_one-save_self s.table id r'),
        c.0,
        refl,
        refl,
        refl,
      )

  -- A granted claim leaves the record of the key in progress under the fingerprint, with no
  -- response, and with the retention counted from the claim.
  pub claimed_row :
      (s : Service db.Table) (id : ClaimKey) (fp : String) (now : ℕ)
      → (claim_or_replay db s id fp now).0 ≡ claimed
      → (r : IdempotencyRecord) × (row (claim_or_replay db s id fp now).1 id ≡ some r)
        × (r.fingerprint ≡ fp)
        × (r.state ≡ in_progress)
        × (r.response_body ≡ none)
        × (r.expires_at ≡ now + default_retention_ms)
  claimed_row s id fp now h =
      claimed_row_of s id fp now (row s id) refl ((claimed_iff s id fp now).0 h)

  refused_of :
      (s : Service db.Table) (id : ClaimKey) (fp : String) (now : ℕ) (o : Option IdempotencyRecord)
      → row s id ≡ o
      → (claim_or_replay db s id fp now).0 ≢ claimed
      → (claim_or_replay db s id fp now).1.table ≡ s.table
  unfolding claim_or_replay
  refused_of s id fp now none e h = absurd (h (rw e))
  refused_of s id fp now (some r) e h = ground (arith, str_eq_iff r.fingerprint fp)

  -- A claim that is not granted (a replay, a conflict, a request in progress) writes no record.
  pub refused_table :
      (s : Service db.Table) (id : ClaimKey) (fp : String) (now : ℕ)
      → (claim_or_replay db s id fp now).0 ≢ claimed
      → (claim_or_replay db s id fp now).1.table ≡ s.table
  refused_table s id fp now h = refused_of s id fp now (row s id) refl h

  -- Once the operation of a key with a record has completed, the next request with the same
  -- fingerprint gets the stored status and the sanitised body, and one with another fingerprint
  -- gets a conflict.
  pub complete_then_claim :
      (s : Service db.Table) (id : ClaimKey) (fp : String) (status now later : ℕ) (body : Value)
      {r : IdempotencyRecord}
      → row s id ≡ some r
      → (claim_or_replay db (complete db s id status body now) id fp later).0
        ≡ (if str_eq r.fingerprint fp then replayed status (sanitise body) else conflict)
  unfolding claim_or_replay complete complete_with
  complete_then_claim s id fp status now later body {r} e =
      rw (e, db.find_one-save_self _ _ _)
        (elim (Bool-cases (str_eq r.fingerprint fp)) [ inl t ↦ rw t | inr t ↦ rw t ])

  -- After a failure of a key with a record, the next request with the same fingerprint runs again
  -- if the status is retryable, and otherwise gets the stored status with the body that the record
  -- held before, or an empty one.
  pub fail_then_claim :
      (s : Service db.Table) (id : ClaimKey) (status now later : ℕ) (reason : List ℕ)
      {r : IdempotencyRecord}
      → row s id ≡ some r
      → (claim_or_replay db (fail db s id status reason now) id r.fingerprint later).0
        ≡ (if is_retryable status then claimed else replayed status (or_else r.response_body end))
  unfolding claim_or_replay fail
  fail_then_claim s id status now later reason {r} e =
      rw (e, db.find_one-save_self _ _ _)
        (rw ((str_eq_iff r.fingerprint r.fingerprint).1 refl)
          (elim (Bool-cases (is_retryable status)) [ inl t ↦ rw t | inr t ↦ rw t ]))

  -- The clean-up keeps every record in progress and every record that has not expired, and removes
  -- the others.
  pub cleanup_row :
      (s : Service db.Table) (id : ClaimKey) (now : ℕ)
      → row (cleanup_expired db s now) id ≡ spare (is_expired db now) (row s id)
  unfolding cleanup_expired
  cleanup_row s id now = db.find_one-delete_where _ _ _
