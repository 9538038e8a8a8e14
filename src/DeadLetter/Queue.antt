-- ===== src/DeadLetter/Queue.antt =====
-- What dead-letter.service.ts uses of BullMQ, which is not part of the repository: the waiting jobs
-- of the dead-letter queue, in order, and the source queues whose failed jobs can be retried.
pub mod Unique
use Prim.Native.String.{String}
use backit_on_stellar.Prelude.{
  ℕ, zero, suc, ◌-◌, ◌≡◌, refl, Bool, true, false, List, [], ◌∷◌, ◌++◌, Option, none, some, take,
  drop, if◌then◌else◌, arith, ◌≢◌,
}
use backit_on_stellar.Prelude.Text.{str_eq, str_eq_iff}
use backit_on_stellar.Prelude.Json.{Value}
use backit_on_stellar.DeadLetter.{QueueName}
use backit_on_stellar.DeadLetter.Entry.{Payload}

-- A list of jobs with their ids, as the laws of the queue speak of it.
unfoldable pub find : String → List (String × Payload) → Option Payload
find k [] = none
find k ((j, p) ∷ jobs) = let rest = find k jobs in if str_eq j k then some p else rest

unfoldable pub replace : String → Payload → List (String × Payload) → List (String × Payload)
replace k q [] = []
replace k q ((j, p) ∷ jobs) = (j, if str_eq j k then q else p) ∷ replace k q jobs

unfoldable pub erase : String → List (String × Payload) → List (String × Payload)
erase k [] = []
erase k ((j, p) ∷ jobs) = let rest = erase k jobs in if str_eq j k then rest else (j, p) ∷ rest

pub record DeadQueue : Type 1 where
  pub Queue : Type 0
  pub waiting : Queue → List (String × Payload)
  pub get_jobs : Queue → ℕ → ℕ → List (String × Payload)
  pub get_job : Queue → String → Option Payload
  pub update_data : Queue → String → Payload → Queue
  pub remove : Queue → String → Queue
  pub new_id : Queue → String
  pub add : Queue → Payload → Queue
  -- `getJobs(['waiting'], start, end, true)`, both ends counted.
  pub get_jobs-waiting :
      (q : Queue) (start finish : ℕ)
      → get_jobs q start finish ≡ take (suc finish - start) (drop start (waiting q))
  pub get_job-waiting : (q : Queue) (id : String) → get_job q id ≡ find id (waiting q)
  pub waiting-update_data :
      (q : Queue) (id : String) (p : Payload)
      → waiting (update_data q id p) ≡ replace id p (waiting q)
  pub waiting-remove : (q : Queue) (id : String) → waiting (remove q id) ≡ erase id (waiting q)
  pub waiting-add : (q : Queue) (p : Payload) → waiting (add q p) ≡ waiting q ++ (new_id q, p) ∷ []

-- A job of a source queue: its data and the state that `getState` gives.
pub record Held : Type 0 where
  pub job_data : Value
  pub state : String

-- The three source queues. `retry` moves a failed job back, or fails with a message.
pub data Retry (S : Type 0) : Type 0 where
  retried : S → Retry S
  refused : String → Retry S

pub record SourceQueues : Type 1 where
  pub Sources : Type 0
  pub get_source : Sources → QueueName → String → Option Held
  pub retry : Sources → QueueName → String → Retry Sources

pub find-replace_self :
    (k : String) (q p : Payload) (jobs : List (String × Payload))
    → find k jobs ≡ some p
    → find k (replace k q jobs) ≡ some q
unfolding find replace
find-replace_self k q p [] h = cc
find-replace_self k q p ((j, r) ∷ jobs) h = ground (arith, find-replace_self k q p jobs)

pub find-replace_ne :
    (k j : String) (q : Payload) (jobs : List (String × Payload))
    → k ≢ j
    → find j (replace k q jobs) ≡ find j jobs
unfolding find replace
find-replace_ne k j q [] h = refl
find-replace_ne k j q ((i, p) ∷ jobs) h =
    ground (arith, find-replace_ne k j q jobs h, str_eq_iff i k, str_eq_iff i j)

pub find-erase_ne :
    (k j : String) (jobs : List (String × Payload)) → k ≢ j → find j (erase k jobs) ≡ find j jobs
unfolding find erase
find-erase_ne k j [] h = refl
find-erase_ne k j ((i, p) ∷ jobs) h =
    ground (arith, find-erase_ne k j jobs h, str_eq_iff i k, str_eq_iff i j)

pub find-erase_self : (k : String) (jobs : List (String × Payload)) → find k (erase k jobs) ≡ none
unfolding find erase
find-erase_self k [] = refl
find-erase_self k ((i, p) ∷ jobs) = ground (arith, find-erase_self k jobs)
