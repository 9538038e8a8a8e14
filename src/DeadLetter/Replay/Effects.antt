-- ===== src/DeadLetter/Replay/Effects.antt =====
-- What one replay or dismissal does, on every branch
-- (packages/backend/src/common/queues/dead-letter.service.ts).

use backit_on_stellar.Prelude.{
  ℕ, ◌≡◌, refl, true, List, Option, none, some, ◌⊎◌, inl, inr, Bool-cases, or_else,
}
use backit_on_stellar.Prelude.Text.{str_eq, str_eq_iff}
use backit_on_stellar.DeadLetter.Schema.{Validation, valid, invalid, validate_source_job_data}
use backit_on_stellar.DeadLetter.Entry.{
  ReplayStatus, opened, replayed, dismissed, Rejection, Payload, Entry,
}
use backit_on_stellar.DeadLetter.Queue.{DeadQueue, SourceQueues, Held, Retry, retried, refused}
use backit_on_stellar.DeadLetter.Replay.{
  Outcome, accepted, rejected, Request, State, mark_replayed, mark_failure, is_open, is_supported,
  after_retry, after_validation, after_source, after_lookup, do_replay, record_replay_failure,
}

abbrev pub status_of : Payload → ReplayStatus
status_of p = or_else p.replay_status opened

pub opened_of : (s : ReplayStatus) → is_open s ≡ true → s ≡ opened
opened_of opened h = refl
opened_of replayed h = cc
opened_of dismissed h = cc

module _ (to_number : List ℕ → ℕ) (dq : DeadQueue) (sq : SourceQueues) where
  -- What a successful replay has found, and the world that it leaves.
  pub record Replayed (w : State to_number dq sq) (req : Request) (w' : State to_number dq sq)
      : Type 0 where
    pub payload : Payload
    pub held : Held
    pub entry : dq.get_job w.dlq req.id ≡ some payload
    pub was_open : status_of payload ≡ opened
    pub supported : is_supported payload.source_queue ≡ true
    pub source : sq.get_source w.sources payload.source_queue payload.job_id ≡ some held
    pub well_formed : validate_source_job_data to_number payload.source_queue held.job_data ≡ valid
    pub has_failed : held.state ≡ "failed"
    pub retry : sq.retry w.sources payload.source_queue payload.job_id ≡ retried w'.sources
    pub stored : w'.dlq ≡ dq.update_data w.dlq req.id (mark_replayed req payload)

  -- A refused replay: nothing changes, or the reason is written into the open entry.
  unfoldable pub Kept : State to_number dq sq → Request → State to_number dq sq → Type 0
  Kept w req w' =
      (w' ≡ w)
      ⊎ ((p : Payload) × (why : Rejection) × (dq.get_job w.dlq req.id ≡ some p)
          × (w' ≡ record w { dlq = dq.update_data w.dlq req.id (mark_failure req why p) }))

  module _ (w : State to_number dq sq) (req : Request) where
    abbrev Cases : Outcome × State to_number dq sq → Type 0
    Cases r =
        (((e : Entry) × (r.0 ≡ accepted e)) × Replayed w req r.1)
        ⊎ (((why : Rejection) × (r.0 ≡ rejected why)) × Kept w req r.1)

    module _ (p : Payload) (found : dq.get_job w.dlq req.id ≡ some p) where
      marked : (why : Rejection) → Cases (record_replay_failure to_number dq sq w req p why)
      unfolding Kept record_replay_failure
      marked why = inr ((why, refl), inr (p, why, found, refl))

      module _ (was_open : status_of p ≡ opened) (sup : is_supported p.source_queue ≡ true)
          (held : Held) (src : sq.get_source w.sources p.source_queue p.job_id ≡ some held) where
        retry-Cases :
            (r : Retry sq.Sources)
            → sq.retry w.sources p.source_queue p.job_id ≡ r
            → validate_source_job_data to_number p.source_queue held.job_data ≡ valid
            → held.state ≡ "failed"
            → Cases (after_retry to_number dq sq r w req p)
        unfolding after_retry
        retry-Cases (refused why) e v f = marked _
        retry-Cases (retried s) e v f = inl (
          (_, refl),
          record {
            payload = p;
            held = held;
            entry = found;
            was_open = was_open;
            supported = sup;
            source = src;
            well_formed = v;
            has_failed = f;
            retry = e;
            stored = refl;
          },
        )

        validation-Cases :
            (v : Validation)
            → validate_source_job_data to_number p.source_queue held.job_data ≡ v
            → Cases (after_validation to_number dq sq v w req p held)
        unfolding after_validation
        validation-Cases (invalid why) e = marked _
        validation-Cases valid e = elim (Bool-cases (str_eq held.state "failed")) [
          | inl t ↦ rw t (retry-Cases _ refl e ((str_eq_iff _ _).0 t))
          | inr t ↦ rw t (marked _)
        ]

      source-Cases :
          (o : Option Held)
          → status_of p ≡ opened
          → is_supported p.source_queue ≡ true
          → sq.get_source w.sources p.source_queue p.job_id ≡ o
          → Cases (after_source to_number dq sq o w req p)
      unfolding after_source
      source-Cases none st sup src = marked _
      source-Cases (some held) st sup src = validation-Cases st sup held src _ refl

    unchanged : (why : Rejection) → Cases (rejected why, w)
    unfolding Kept
    unchanged why = inr ((why, refl), inl refl)

    lookup-Cases :
        (o : Option Payload)
        → dq.get_job w.dlq req.id ≡ o
        → Cases (after_lookup to_number dq sq o w req)
    unfolding after_lookup
    lookup-Cases none e = unchanged _
    lookup-Cases (some p) e = elim (Bool-cases (is_open (status_of p))) [
      | inr t ↦ rw t (unchanged _)
      | inl t ↦ elim (Bool-cases (is_supported p.source_queue)) [
        | inr u ↦ rw (t, u) (unchanged _)
        | inl u ↦ rw (t, u) (source-Cases p e _ (opened_of _ t) u refl)
      ]
    ]

    -- A replay succeeds after all its checks and marks the entry, or it is refused and changes at
    -- most the note of the last failure.
    pub do_replay-Cases : Cases (do_replay to_number dq sq w req)
    unfolding do_replay
    do_replay-Cases = lookup-Cases _ refl

  -- A replay is accepted only for an open entry of a replayable queue whose source job still exists,
  -- passes today's validation, is in state "failed" and is taken back by its queue; the entry is then
  -- marked as replayed, with the operator, the reason and the time.
  pub accepted-Replayed :
      (w : State to_number dq sq) (req : Request) (e : Entry)
      → (do_replay to_number dq sq w req).0 ≡ accepted e
      → Replayed w req (do_replay to_number dq sq w req).1
  accepted-Replayed w req e h = elim (do_replay-Cases w req) [ inl x ↦ x.1 | inr x ↦ cc (x.0.1) ]
