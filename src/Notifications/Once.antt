-- ===== src/Notifications/Once.antt =====
-- That at most one attempt to send a notification ends well (packages/backend/src/notifications).
use Prim.Native.String.{String}
use backit_on_stellar.Prelude.{
  ℕ, suc, ◌+◌, ◌≤◌, ◌<◌, ◌≡◌, refl, Bool, true, false, List, [], ◌∷◌, Option, none, some,
  if◌then◌else◌, ◌==◌, ==_iff, All, arith, Bool-cases, inl, inr,
}
use backit_on_stellar.Notifications.{Notification, Notifications, is_external}
use backit_on_stellar.Notifications.Dispatch.{
  Attempt, find_row, update_row, dispatched, caught, after_sender, send_row, close_row,
  process_waiting, process_found,
}

unfoldable pub times : ℕ → List ℕ → ℕ
times id [] = 0
times id (x ∷ xs) = if x == id then suc (times id xs) else times id xs

times_here : (id : ℕ) (xs : List ℕ) → times id (id ∷ xs) ≡ suc (times id xs)
unfolding times
times_here id xs = ground arith

times_other : (x id : ℕ) (xs : List ℕ) → (x == id) ≡ false → times id (x ∷ xs) ≡ times id xs
unfolding times
times_other x id xs h = rw h

-- How often an attempt for the row may still end well.
abbrev pub room : Notification → ℕ
room r = if r.is_dispatched then 0 else 1

abbrev pub room? : Option Notification → ℕ
room? none = 1
room? (some r) = room r

pub record IsOnce (s : Notifications) : Type 0 where
  pub fresh : All (λ (r : Notification). r.id < s.next_id) s.rows
  pub once : (id : ℕ) → times id s.attempts + room? (find_row s.rows id) ≤ 1 + times id s.errors

-- A change of rows that keeps their ids and reopens none.
pub record Lowers (f : Notification → Notification) : Type 0 where
  pub same_id : (r : Notification) → (f r).id ≡ r.id
  pub closes : (r : Notification) → room (f r) ≤ room r

pub absent :
    (rows : List Notification) (n id : ℕ)
    → All (λ (r : Notification). r.id < n) rows
    → n ≤ id
    → find_row rows id ≡ none
unfolding find_row
absent [] n id h k = refl
absent (r ∷ rs) n id h k = ground (arith, absent rs n id h.1 k)

pub room_le : (r : Notification) → room r ≤ 1
room_le r = ground arith

find_row_id :
    (rows : List Notification) (id : ℕ) (r : Notification) → find_row rows id ≡ some r → r.id ≡ id
unfolding find_row
find_row_id [] id r h = cc
find_row_id (x ∷ xs) id r h = elim (Bool-cases (x.id == id)) [
  | inl e ↦ let same : some x ≡ some r = rw e at h in let found = (==_iff x.id id).0 e in cc
  | inr e ↦ find_row_id xs id r (rw e at h)
]

module _ (f : Notification → Notification) (low : Lowers f) where
  All-update_row :
      (n id : ℕ) (rows : List Notification)
      → All (λ (r : Notification). r.id < n) rows
      → All (λ (r : Notification). r.id < n) (update_row rows id f)
  unfolding update_row
  All-update_row n id [] h = tt
  All-update_row n id (r ∷ rs) h = elim (Bool-cases (r.id == id)) [
    | inl e ↦ rw e (rw (low.same_id r) h.0, All-update_row n id rs h.1)
    | inr e ↦ rw e (h.0, All-update_row n id rs h.1)
  ]

  find_row-update_row :
      (id j : ℕ) (rows : List Notification)
      → room? (find_row (update_row rows id f) j) ≤ room? (find_row rows j)
  unfolding update_row find_row
  find_row-update_row id j [] = omega arith
  find_row-update_row id j (r ∷ rs) = elim (Bool-cases (r.id == id)) [
    | inl e ↦ rw e (
        rw (low.same_id r) (elim (Bool-cases (r.id == j)) [
          | inl k ↦ rw k (low.closes r)
          | inr k ↦ rw k (find_row-update_row id j rs)
        ]))
    | inr e ↦ rw e (elim (Bool-cases (r.id == j)) [
      | inl k ↦ rw k (omega arith)
      | inr k ↦ rw k (find_row-update_row id j rs)
    ])
  ]

  pub update_row-IsOnce :
      (s : Notifications) (id : ℕ) → IsOnce s → IsOnce (record s { rows = update_row s.rows id f })
  update_row-IsOnce s id h = record {
    fresh = All-update_row s.next_id id s.rows h.fresh;
    once = λ j. omega (arith, find_row-update_row id j s.rows, h.once j);
  }

dispatched-Lowers : Lowers dispatched
dispatched-Lowers = record { same_id = λ r. refl; closes = λ r. omega arith }

pub marked-Lowers : Lowers (λ r. record r { is_dispatched = true })
marked-Lowers = record { same_id = λ r. refl; closes = λ r. omega arith }

pub failed-Lowers : (why : String) → Lowers (λ r. record r { dispatch_error = some why })
failed-Lowers why = record { same_id = λ r. refl; closes = λ r. omega arith }

-- The row that went out is closed.
closed :
    (rows : List Notification) (id : ℕ) (r : Notification)
    → find_row rows id ≡ some r
    → room? (find_row (update_row rows id dispatched) id) ≡ 0
unfolding find_row update_row
closed [] id r h = cc
closed (x ∷ xs) id r h = elim (Bool-cases (x.id == id)) [
  | inl e ↦ rw e (rw e refl)
  | inr e ↦ rw e (rw e (closed xs id r (rw e at h)))
]

module _ (s : Notifications) (id : ℕ) (r : Notification) (found : find_row s.rows id ≡ some r)
    (waiting : r.is_dispatched ≡ false) (h : IsOnce s) where
  never_done : times id s.attempts ≤ times id s.errors
  never_done =
      let now : times id s.attempts + room? (some r) ≤ 1 + times id s.errors =
        rw found at (h.once id) in
      let left : times id s.attempts + 1 ≤ 1 + times id s.errors = rw waiting at now in omega arith

  done_once :
      (j : ℕ)
      → times j (id ∷ s.attempts) + room? (find_row (update_row s.rows id dispatched) j)
        ≤ 1 + times j s.errors
  done_once j = elim (Bool-cases (id == j)) [
    | inl e ↦
        let same : id ≡ j = (==_iff id j).0 e in
        rw (← same) (omega (arith, times_here id s.attempts, never_done, closed s.rows id r found))
    | inr e ↦ omega (
      arith,
      times_other id j s.attempts e,
      find_row-update_row dispatched dispatched-Lowers id j s.rows,
      h.once j,
    )
  ]

  failed_once :
      (j : ℕ) → times j (id ∷ s.attempts) + room? (find_row s.rows j) ≤ 1 + times j (id ∷ s.errors)
  failed_once j = elim (Bool-cases (id == j)) [
    | inl e ↦
        let same : id ≡ j = (==_iff id j).0 e in
        rw (← same) (omega (arith, times_here id s.attempts, times_here id s.errors, h.once id))
    | inr e ↦ omega (arith, times_other id j s.attempts e, times_other id j s.errors e, h.once j)
  ]

  -- The state after a failed attempt, before the `catch` records the error.
  failed-IsOnce : IsOnce (record s { attempts = id ∷ s.attempts; errors = id ∷ s.errors })
  failed-IsOnce = record { fresh = h.fresh; once = failed_once }

  caught-IsOnce :
      (records : Bool) (why : String)
      → IsOnce (caught records why (record s { attempts = r.id ∷ s.attempts }) r)
  unfolding caught
  caught-IsOnce false why = rw (find_row_id s.rows id r found) failed-IsOnce
  caught-IsOnce true why =
      rw (find_row_id s.rows id r found)
        (update_row-IsOnce _ (failed-Lowers why) _ id failed-IsOnce)

  after_sender-IsOnce :
      (thrown : Option String) (marks : Bool) (a : Attempt)
      → IsOnce (after_sender thrown marks a (record s { attempts = r.id ∷ s.attempts }) r).1
  unfolding after_sender
  after_sender-IsOnce (some why) marks a = caught-IsOnce a.records why
  after_sender-IsOnce none false a = caught-IsOnce a.records a.update_error
  after_sender-IsOnce none true a = rw (find_row_id s.rows id r found) (record {
    fresh = All-update_row dispatched dispatched-Lowers s.next_id id s.rows h.fresh;
    once = done_once;
  })

  close_row-IsOnce : (marks : Bool) → IsOnce (close_row marks s r).1
  unfolding close_row
  close_row-IsOnce false = h
  close_row-IsOnce true = update_row-IsOnce dispatched dispatched-Lowers s r.id h

  waiting-IsOnce : (a : Attempt) → IsOnce (process_waiting a s r).1
  unfolding process_waiting send_row
  waiting-IsOnce a = elim (Bool-cases (is_external r.dispatch_type)) [
    | inl e ↦ rw e (after_sender-IsOnce a.sender_throws a.marks a)
    | inr e ↦ rw e (close_row-IsOnce a.marks)
  ]

pub branch-IsOnce {ℓ} :
    {A : Type ℓ} (b : Bool) (x y : A × Notifications)
    → IsOnce x.1
    → (b ≡ false → IsOnce y.1)
    → IsOnce (if b then x else y).1
branch-IsOnce true x y h k = h
branch-IsOnce false x y h k = k refl

pub process_found-IsOnce :
    (outcome : Attempt) (s : Notifications) (id : ℕ) (found : Option Notification)
    → find_row s.rows id ≡ found
    → IsOnce s
    → IsOnce (process_found found outcome s).1
unfolding process_found
process_found-IsOnce outcome s id none e h = h
process_found-IsOnce outcome s id (some r) e h =
    branch-IsOnce r.is_dispatched (true, s) (process_waiting outcome s r) h
      (λ waiting. waiting-IsOnce s id r e waiting h outcome)
