-- ===== src/DeadLetter/Move.antt =====
-- `moveToDeadLetter` of packages/backend/src/common/queues/dead-letter.service.ts: the entry that a
-- failed job becomes, and what the other operations make of it.
use Prim.Native.String.{String}
use backit_on_stellar.Prelude.{ℕ, ◌≡◌, refl, Bool, false, List, [], ◌∷◌, ◌++◌, Option, some}
use backit_on_stellar.Prelude.Json.{Fields, obj}
use backit_on_stellar.DeadLetter.{QueueName}
use backit_on_stellar.DeadLetter.Classify.{RegExp, Failure}
use backit_on_stellar.DeadLetter.Redaction.{SecretPattern}
use backit_on_stellar.DeadLetter.Redaction.Allowlist.{Kept, redact_job_data-Kept}
use backit_on_stellar.DeadLetter.Entry.{SourceJob, Payload, opened, dead_letter_of}
use backit_on_stellar.DeadLetter.Queue.{DeadQueue}
use backit_on_stellar.DeadLetter.Cleanup.{should_remove}

module _ (dq : DeadQueue) (replace_all : SecretPattern → List ℕ → List ℕ → List ℕ)
    (test : RegExp → List ℕ → Bool) where
  unfoldable pub move_to_dead_letter :
      dq.Queue → QueueName → SourceJob → Option Failure → String → ℕ → dq.Queue
  move_to_dead_letter q queue job err uuid now =
      dq.add q (dead_letter_of replace_all test queue job err uuid now)

  -- A moved job goes to the back of the queue behind the entries that were there; its data has one of
  -- the allowed shapes of its source queue, its status is open, and no clean-up, however late, would
  -- remove it as it is.
  pub moved_job :
      (q : dq.Queue) (queue : QueueName) (job : SourceJob) (err : Option Failure) (uuid : String)
      (now : ℕ)
      → (p : Payload) × (dq.waiting (move_to_dead_letter q queue job err uuid now)
          ≡ dq.waiting q ++ (dq.new_id q, p) ∷ [])
        × (p.source_queue ≡ queue)
        × (p.replay_status ≡ some opened)
        × ((fs : Fields) × (p.job_data ≡ obj fs) × Kept queue fs)
        × ((later : ℕ) (id : String) → should_remove later id p ≡ false)
  unfolding move_to_dead_letter dead_letter_of should_remove
  moved_job q queue job err uuid now = (
    dead_letter_of replace_all test queue job err uuid now,
    dq.waiting-add q _,
    refl,
    refl,
    (_, refl, redact_job_data-Kept queue job.job_data),
    λ later id. refl,
  )
