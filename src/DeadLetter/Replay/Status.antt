-- ===== src/DeadLetter/Replay/Status.antt =====
-- The status of the entries across replays and dismissals
-- (packages/backend/src/common/queues/dead-letter.service.ts).
use Prim.Native.String.{String}
use mathlib.Core.Option
use backit_on_stellar.Prelude.{
  ℕ, ◌≡◌, ◌≢◌, refl, sym, List, Option, some, inl, inr, Bool-cases, ◌∙◌,
}
use backit_on_stellar.Prelude.Text.{str_eq, str_eq_iff}
use backit_on_stellar.DeadLetter.Entry.{ReplayStatus, Rejection, Payload}
use backit_on_stellar.DeadLetter.Queue.{
  DeadQueue, SourceQueues, find, find-replace_self, find-replace_ne,
}
use backit_on_stellar.DeadLetter.Replay.Effects.{status_of, Kept, do_replay-Cases}
use backit_on_stellar.DeadLetter.Replay.{rejected, Request, State, do_replay}

module _ (to_number : List ℕ → ℕ) (dq : DeadQueue) (sq : SourceQueues) where
  -- The status of an entry, if it is there.
  abbrev pub status_at : dq.Queue → String → Option ReplayStatus
  status_at q id = Option.map status_of (find id (dq.waiting q))

  pub status-update_ne :
      (q : dq.Queue) (k j : String) (p : Payload)
      → k ≢ j
      → status_at (dq.update_data q k p) j ≡ status_at q j
  status-update_ne q k j p h = rw (dq.waiting-update_data q k p, find-replace_ne k j p _ h)

  pub status-update_self :
      (q : dq.Queue) (k : String) (old p : Payload)
      → dq.get_job q k ≡ some old
      → status_at (dq.update_data q k p) k ≡ some (status_of p)
  status-update_self q k old p h =
      rw (
        dq.waiting-update_data q k p,
        find-replace_self k p old _ (sym (dq.get_job-waiting q k) ∙ h),
      )

  pub status_found :
      (q : dq.Queue) (k : String) (p : Payload)
      → dq.get_job q k ≡ some p
      → status_at q k ≡ some (status_of p)
  status_found q k p h = rw (sym (dq.get_job-waiting q k) ∙ h)

  pub Kept-status :
      (w w' : State to_number dq sq) (req : Request) (id : String)
      → Kept to_number dq sq w req w'
      → (w'.sources ≡ w.sources) × (status_at w'.dlq id ≡ status_at w.dlq id)
  unfolding Kept
  Kept-status w w' req id (inl e) = rw e (refl, refl)
  Kept-status w w' req id (inr (p, why, found, e)) = rw e (
    refl,
    elim (Bool-cases (str_eq req.id id)) [
      | inl t ↦
          rw (← (str_eq_iff _ _).0 t)
            (status-update_self w.dlq req.id p _ found ∙ sym (status_found w.dlq req.id p found))
      | inr t ↦ status-update_ne w.dlq req.id id _ (λ q. cc ((str_eq_iff _ _).1 q))
    ],
  )

  -- A refused replay leaves the source queues and the status of every entry as they were.
  pub rejected_keeps :
      (w : State to_number dq sq) (req : Request) (why : Rejection) (id : String)
      → (do_replay to_number dq sq w req).0 ≡ rejected why
      → ((do_replay to_number dq sq w req).1.sources ≡ w.sources)
        × (status_at (do_replay to_number dq sq w req).1.dlq id ≡ status_at w.dlq id)
  rejected_keeps w req why id h = elim (do_replay-Cases to_number dq sq w req) [
    | inl x ↦ cc (x.0.1)
    | inr x ↦ Kept-status w _ req id x.1
  ]
