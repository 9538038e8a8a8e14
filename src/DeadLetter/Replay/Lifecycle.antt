-- ===== src/DeadLetter/Replay/Lifecycle.antt =====
-- Sequences of replays and dismissals, as several operators send them
-- (packages/backend/src/common/queues/dead-letter.service.ts).
use Prim.Native.String.{String}
use backit_on_stellar.Prelude.{
  ℕ, ◌+◌, ◌≤◌, ◌≡◌, refl, Bool, true, false, List, [], ◌∷◌, Option, none, some, if◌then◌else◌,
  arith, inl, inr, Bool-cases,
}
use backit_on_stellar.Prelude.Text.{str_eq, str_eq_iff}
use backit_on_stellar.DeadLetter.Entry.{ReplayStatus, opened, replayed, dismissed, Payload}
use backit_on_stellar.DeadLetter.Queue.{DeadQueue, SourceQueues}
use backit_on_stellar.DeadLetter.Replay.Effects.{status_of, do_replay-Cases, opened_of}
use backit_on_stellar.DeadLetter.Replay.Status.{
  status_at, status-update_ne, status-update_self, status_found, Kept-status,
}
use backit_on_stellar.DeadLetter.Replay.{
  Outcome, accepted, rejected, Request, State, mark_replayed, mark_dismissed, is_open, do_replay,
  replay_entry, dismiss_found, dismiss_entry,
}

pub data Op : Type 0 where
  replay : Bool → Request → Op
  dismiss : Request → Op

abbrev pub request_of : Op → Request
request_of (replay acquired req) = req
request_of (dismiss req) = req

-- How many decisions an entry in this status can still take.
abbrev pub slot : Option ReplayStatus → ℕ
slot none = 0
slot (some opened) = 1
slot (some replayed) = 0
slot (some dismissed) = 0

abbrev pub is_accepted : Outcome → ℕ
is_accepted (accepted e) = 1
is_accepted (rejected why) = 0

module _ (to_number : List ℕ → ℕ) (dq : DeadQueue) (sq : SourceQueues) where
  unfoldable pub step : State to_number dq sq → Op → Outcome × State to_number dq sq
  step w (replay acquired req) = replay_entry to_number dq sq acquired w req
  step w (dismiss req) = dismiss_entry to_number dq sq w req

  -- The accepted replays and dismissals of one entry.
  unfoldable pub decisions : String → State to_number dq sq → List Op → ℕ
  decisions id w [] = 0
  decisions id w (op ∷ ops) =
      let (r, w') = step w op in
      (if str_eq (request_of op).id id then is_accepted r else 0) + decisions id w' ops

  -- `n` decisions about the target, from one state of the queue to another, are covered by what the
  -- entry's status loses.
  abbrev Spends : String → String → ℕ → dq.Queue → dq.Queue → Type 0
  Spends target id n q q' =
      (if str_eq target id then n else 0) + slot (status_at to_number dq sq q' id)
      ≤ slot (status_at to_number dq sq q id)

  kept :
      (target id : String) (q q' : dq.Queue)
      → status_at to_number dq sq q' id ≡ status_at to_number dq sq q id
      → Spends target id 0 q q'
  kept target id q q' e = rw e (elim (Bool-cases (str_eq target id)) [
    | inl t ↦ rw t (omega arith)
    | inr t ↦ rw t (omega arith)
  ])

  decided_self :
      (w : State to_number dq sq) (q : dq.Queue) (id : String) (p p' : Payload)
      → dq.get_job w.dlq id ≡ some p
      → status_of p ≡ opened
      → slot (some (status_of p')) ≡ 0
      → q ≡ dq.update_data w.dlq id p'
      → 1 + slot (status_at to_number dq sq q id) ≤ slot (status_at to_number dq sq w.dlq id)
  decided_self w q id p p' found st closed e =
      rw
        (
          e,
          status-update_self to_number dq sq w.dlq id p p' found,
          status_found to_number dq sq w.dlq id p found,
          st,
          closed,
        )
        (omega arith)

  -- An accepted decision writes a closed status over an open entry.
  decided :
      (w : State to_number dq sq) (q : dq.Queue) (target id : String) (p p' : Payload)
      → dq.get_job w.dlq target ≡ some p
      → status_of p ≡ opened
      → slot (some (status_of p')) ≡ 0
      → q ≡ dq.update_data w.dlq target p'
      → Spends target id 1 w.dlq q
  decided w q target id p p' found st closed e = elim (Bool-cases (str_eq target id)) [
    | inl t ↦
        rw t (rw (← (str_eq_iff target id).0 t) (decided_self w q target p p' found st closed e))
    | inr t ↦
        rw
          (
            t,
            e,
            status-update_ne to_number dq sq w.dlq target id p' (λ q. cc ((str_eq_iff _ _).1 q)),
          )
          (omega arith)
  ]

  replay_spends :
      (w : State to_number dq sq) (req : Request) (id : String)
      → Spends req.id id
          (is_accepted (do_replay to_number dq sq w req).0)
          w.dlq
          (do_replay to_number dq sq w req).1.dlq
  replay_spends w req id = elim (do_replay-Cases to_number dq sq w req) [
    | inl ((e, is_e), d) ↦ rw is_e (
        decided w _ req.id id d.payload (mark_replayed req d.payload) d.entry d.was_open refl
          d.stored)
    | inr ((why, is_why), k) ↦
        rw is_why (kept req.id id _ _ (Kept-status to_number dq sq w _ req id k).1)
  ]

  dismiss_spends :
      (w : State to_number dq sq) (req : Request) (id : String) (o : Option Payload)
      → dq.get_job w.dlq req.id ≡ o
      → Spends req.id id
          (is_accepted (dismiss_found to_number dq sq o w req).0)
          w.dlq
          (dismiss_found to_number dq sq o w req).1.dlq
  unfolding dismiss_found
  dismiss_spends w req id none e = kept req.id id w.dlq w.dlq refl
  dismiss_spends w req id (some p) e = elim (Bool-cases (is_open (status_of p))) [
    | inl t ↦ rw t (decided w _ req.id id p (mark_dismissed req p) e (opened_of _ t) refl refl)
    | inr t ↦ rw t (kept req.id id w.dlq w.dlq refl)
  ]

  step_spends :
      (w : State to_number dq sq) (op : Op) (id : String)
      → Spends (request_of op).id id (is_accepted (step w op).0) w.dlq (step w op).1.dlq
  unfolding step replay_entry dismiss_entry
  step_spends w (replay true req) id = replay_spends w req id
  step_spends w (replay false req) id = kept req.id id w.dlq w.dlq refl
  step_spends w (dismiss req) id = dismiss_spends w req id _ refl

  -- Over any sequence of replays and dismissals, whoever sends them, an entry takes at most one
  -- decision, and none if it is not open at the start.
  pub decided_at_most_once :
      (w : State to_number dq sq) (id : String) (ops : List Op)
      → decisions id w ops ≤ slot (status_at to_number dq sq w.dlq id)
  unfolding decisions
  decided_at_most_once w id [] = omega arith
  decided_at_most_once w id (op ∷ ops) =
      omega (arith, step_spends w op id, decided_at_most_once (step w op).1 id ops)
