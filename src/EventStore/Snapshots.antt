-- ===== src/EventStore/Snapshots.antt =====
-- Replay from a snapshot against replay of all events
-- (packages/backend/src/event-store/event-store.service.ts).
use mathlib.Core.List.{append_assoc, append-nil}
use mathlib.Core.Option.{some-injective}
use backit_on_stellar.Prelude.{
  ℕ, ◌+◌, ◌≡◌, ◌≤◌, ◌<◌, refl, sym, ◌∙◌, ap, true, List, [], ◌∷◌, ◌++◌, Option, none, some, leb,
  All, All-append, arith, inl, inr, Bool-cases,
}
use backit_on_stellar.EventStore.{
  Aggregate, Event, Snapshot, AggregateState, at_least, fold_event, spread, replay_over, start_of,
}

-- Equal in what is folded from all events: the version, the last sequence and the state.
unfoldable pub Agree : AggregateState → AggregateState → Type 0
Agree r r' = (r.version ≡ r'.version) × (r.last_sequence ≡ r'.last_sequence) × (r.state ≡ r'.state)

pub replay_over-Agree :
    (es : List Event) (r r' : AggregateState)
    → Agree r r'
    → Agree (replay_over r es) (replay_over r' es)
unfolding Agree replay_over
replay_over-Agree [] r r' h = h
replay_over-Agree (e ∷ es) r r' (v, l, s) =
    replay_over-Agree es (fold_event r e) (fold_event r' e)
      (ap (λ n. n + 1) v, refl, ap (λ st. spread st e.payload) s)

pub replay_over-append :
    (xs ys : List Event) (r : AggregateState)
    → replay_over r (xs ++ ys) ≡ replay_over (replay_over r xs) ys
unfolding replay_over
replay_over-append [] ys r = refl
replay_over-append (e ∷ xs) ys r = replay_over-append xs ys (fold_event r e)

pub at_least-append :
    (n : ℕ) (xs ys : List Event) → at_least n (xs ++ ys) ≡ at_least n xs ++ at_least n ys
unfolding at_least
at_least-append n [] ys = refl
at_least-append n (e ∷ xs) ys = elim (Bool-cases (leb n e.sequence)) [
  | inl t ↦ rw (t, at_least-append n xs ys)
  | inr t ↦ rw (t, at_least-append n xs ys)
]

-- All the events come before a sequence number.
abbrev pub Before : ℕ → List Event → Type 0
Before n es = All (λ e. e.sequence < n) es

at_least_none : (n : ℕ) (es : List Event) → Before n es → at_least n es ≡ []
unfolding at_least
at_least_none n [] h = refl
at_least_none n (e ∷ es) (lt, h) = ground (arith, at_least_none n es h)

Before-weaken : (q n : ℕ) (es : List Event) → q ≤ n → Before q es → Before n es
Before-weaken q n [] le h = tt
Before-weaken q n (e ∷ es) le (lt, h) = (omega arith, Before-weaken q n es le h)

Before-left : (m : ℕ) (xs ys : List Event) → Before m (xs ++ ys) → Before m xs
Before-left m [] ys h = tt
Before-left m (e ∷ xs) ys (lt, h) = (lt, Before-left m xs ys h)

Before-last : (m : ℕ) (xs : List Event) (e : Event) → Before m (xs ++ e ∷ []) → e.sequence < m
Before-last m [] e (lt, h) = lt
Before-last m (x ∷ xs) e (lt, h) = Before-last m xs e h

-- A snapshot is the fold of the events up to its sequence.
pub record Faithful (a : Aggregate) (es : List Event) (s : Snapshot) : Type 0 where
  pub seen : List Event
  pub unseen : List Event
  pub split : es ≡ seen ++ unseen
  pub before : at_least (s.sequence + 1) seen ≡ []
  pub after : at_least (s.sequence + 1) unseen ≡ unseen
  pub folded : Agree (start_of a (some s)) (replay_over (start_of a none) seen)
  pub bound : (m : ℕ) → Before m es → s.sequence < m

unfoldable pub FaithfulIfAny : Aggregate → List Event → Option Snapshot → Type 0
FaithfulIfAny a es none = Unit
FaithfulIfAny a es (some s) = Faithful a es s

module _ (a : Aggregate) (es : List Event) (e : Event) (later : Before e.sequence es) where
  pub grown : (o : Option Snapshot) → FaithfulIfAny a es o → FaithfulIfAny a (es ++ e ∷ []) o
  unfolding FaithfulIfAny at_least
  grown none h = tt
  grown (some s) h = record {
    seen = h.seen;
    unseen = h.unseen ++ e ∷ [];
    split = ap (λ xs. xs ++ e ∷ []) h.split ∙ append_assoc h.seen h.unseen (e ∷ []);
    before = h.before;
    after =
        let next : leb (s.sequence + 1) e.sequence ≡ true =
          ground (arith, h.bound e.sequence later) in
        at_least-append (s.sequence + 1) h.unseen (e ∷ []) ∙ rw (h.after, next);
    folded = h.folded;
    bound = λ m b. h.bound m (Before-left m es (e ∷ []) b);
  }

  last_of : (replay_over (start_of a none) (es ++ e ∷ [])).last_sequence ≡ some e.sequence
  unfolding replay_over
  last_of = rw (replay_over-append es (e ∷ []) (start_of a none))

  -- The snapshot taken right after an event.
  pub taken :
      (q : ℕ) (r : AggregateState)
      → Agree r (replay_over (start_of a none) (es ++ e ∷ []))
      → r.last_sequence ≡ some q
      → (q ≡ e.sequence)
        × Faithful a (es ++ e ∷ []) (record { sequence = q; version = r.version; state = r.state })
  unfolding Agree at_least
  taken q r (v, l, st) at =
      let is_last : q ≡ e.sequence = some-injective _ _ (sym at ∙ l ∙ last_of) in
      (
        is_last,
        record {
          seen = es ++ e ∷ [];
          unseen = [];
          split = sym (append-nil (es ++ e ∷ []));
          before = at_least_none (q + 1) (es ++ e ∷ []) (
              All-append _ es (e ∷ []) (Before-weaken q (q + 1) es (omega arith) (rw is_last later))
                (omega (arith, is_last), tt));
          after = refl;
          folded = (v, sym at ∙ l, st);
          bound = λ m b. rw is_last (Before-last m es e b);
        },
      )
