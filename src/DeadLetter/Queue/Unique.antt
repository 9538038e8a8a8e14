-- ===== src/DeadLetter/Queue/Unique.antt =====
-- Queues whose jobs have distinct ids, and what reading and removing jobs does to them.
use Prim.Native.String.{String}
use backit_on_stellar.Prelude.{
  ℕ, zero, suc, ◌≡◌, refl, sym, ◌∙◌, List, [], ◌∷◌, none, some, take, arith, inl, inr, Bool-cases,
}
use backit_on_stellar.Prelude.Text.{str_eq, str_eq_iff}
use backit_on_stellar.DeadLetter.Entry.{Payload}
use backit_on_stellar.DeadLetter.Queue.{find, erase, find-erase_ne}

-- No two jobs of the queue have one id.
abbrev pub Unique : List (String × Payload) → Type 0
Unique [] = Unit
Unique ((j, p) ∷ jobs) = (find j jobs ≡ none) × Unique jobs

find-take-none :
    (j : String) (n : ℕ) (jobs : List (String × Payload))
    → find j jobs ≡ none
    → find j (take n jobs) ≡ none
unfolding find
find-take-none j zero jobs h = refl
find-take-none j (suc n) [] h = refl
find-take-none j (suc n) ((i, p) ∷ jobs) h = ground (arith, find-take-none j n jobs)

pub Unique-take : (n : ℕ) (jobs : List (String × Payload)) → Unique jobs → Unique (take n jobs)
Unique-take zero jobs u = tt
Unique-take (suc n) [] u = tt
Unique-take (suc n) ((j, p) ∷ jobs) (h, u) = (find-take-none j n jobs h, Unique-take n jobs u)

pub find-erase-none :
    (j k : String) (jobs : List (String × Payload))
    → find j jobs ≡ none
    → find j (erase k jobs) ≡ none
unfolding find erase
find-erase-none j k [] h = refl
find-erase-none j k ((i, p) ∷ jobs) h = ground (arith, find-erase-none j k jobs)

pub Unique-erase :
    (k : String) (jobs : List (String × Payload)) → Unique jobs → Unique (erase k jobs)
unfolding erase
Unique-erase k [] u = tt
Unique-erase k ((j, p) ∷ jobs) (h, u) = elim (Bool-cases (str_eq j k)) [
  | inl t ↦ rw t (Unique-erase k jobs u)
  | inr t ↦ rw t (find-erase-none j k jobs h, Unique-erase k jobs u)
]

-- Jobs that the queue holds as they were read.
abbrev pub HeldIn : List (String × Payload) → List (String × Payload) → Type 0
HeldIn jobs [] = Unit
HeldIn jobs ((j, p) ∷ read) = (find j jobs ≡ some p) × HeldIn jobs read

HeldIn-cons :
    (j : String) (p : Payload) (jobs read : List (String × Payload))
    → find j jobs ≡ none
    → HeldIn jobs read
    → HeldIn ((j, p) ∷ jobs) read
unfolding find
HeldIn-cons j p jobs [] h held = tt
HeldIn-cons j p jobs ((i, q) ∷ read) h (here, held) =
    (ground (arith, str_eq_iff j i), HeldIn-cons j p jobs read h held)

pub HeldIn-take : (n : ℕ) (jobs : List (String × Payload)) → Unique jobs → HeldIn jobs (take n jobs)
unfolding find
HeldIn-take zero jobs u = tt
HeldIn-take (suc n) [] u = tt
HeldIn-take (suc n) ((j, p) ∷ jobs) (h, u) =
    (ground (arith, str_eq_iff j j), HeldIn-cons j p jobs (take n jobs) h (HeldIn-take n jobs u))

pub HeldIn-erase :
    (k : String) (jobs read : List (String × Payload))
    → find k read ≡ none
    → HeldIn jobs read
    → HeldIn (erase k jobs) read
unfolding find
HeldIn-erase k jobs [] h held = tt
HeldIn-erase k jobs ((i, q) ∷ read) h (here, held) = elim (Bool-cases (str_eq i k)) [
  | inl t ↦ cc (rw t at h)
  | inr t ↦ (
    find-erase_ne k i jobs (λ e. cc ((str_eq_iff i k).1 (sym e))) ∙ here,
    HeldIn-erase k jobs read (rw t at h) held,
  )
]
