-- ===== src/EventStore/Appends.antt =====
-- Replay after any appends
-- (packages/backend/src/event-store/event-store.service.ts).
use mathlib.Core.Option.{some-injective}
use backit_on_stellar.Prelude.{
  ℕ, ◌+◌, ◌≡◌, ◌≢◌, ◌≤◌, refl, ◌∙◌, ap, Bool, true, false, ◌&&◌, ◌↔◌, List, [], ◌∷◌, ◌++◌, Option,
  none, some, length, ltb, arith, inl, inr, Bool-cases,
}
use backit_on_stellar.Prelude.Text.{str_eq, str_eq_iff}
use backit_on_stellar.EventStore.Snapshots.{
  Agree, replay_over-Agree, replay_over-append, at_least-append, Faithful, FaithfulIfAny, grown,
  taken,
}
use backit_on_stellar.EventStore.{
  Aggregate, Draft, Event, Snapshot, AggregateState, at_least, EventRepo, SnapshotRepo, fold_event,
  replay_over, start_of, first_unseen, State, replay_aggregate, save_snapshot, snapshot_of,
  maybe_snapshot, append,
}

unfoldable pub same_aggregate : Aggregate → Aggregate → Bool
same_aggregate a b =
    str_eq a.aggregate_type b.aggregate_type && str_eq a.aggregate_id b.aggregate_id

pub same_aggregate_iff : (a b : Aggregate) → (same_aggregate a b ≡ true) ↔ (a ≡ b)
unfolding same_aggregate
same_aggregate_iff a b =
    ground (
      arith,
      str_eq_iff a.aggregate_type b.aggregate_type,
      str_eq_iff a.aggregate_id b.aggregate_id,
    )

module _ (er : EventRepo) (sr : SnapshotRepo) where
  -- Every snapshot is faithful.
  unfoldable pub Sound : State er sr → Type 0
  Sound w = (a : Aggregate) → FaithfulIfAny a (er.stream w.events a) (sr.latest w.snapshots a)

  replay_of :
      (w : State er sr) (a : Aggregate) (o : Option Snapshot)
      → sr.latest w.snapshots a ≡ o
      → FaithfulIfAny a (er.stream w.events a) o
      → Agree (replay_aggregate er sr w a) (replay_over (start_of a none) (er.stream w.events a))
  unfolding FaithfulIfAny Agree replay_aggregate
  replay_of w a none e h = rw (e, er.find-stream w.events a none) (refl, refl, refl)
  replay_of w a (some s) e h =
      let rest : er.find w.events a (some (s.sequence + 1)) ≡ h.unseen =
        er.find-stream w.events a (some (s.sequence + 1))
        ∙ ap (at_least (s.sequence + 1)) h.split
        ∙ at_least-append (s.sequence + 1) h.seen h.unseen
        ∙ rw (h.before, h.after) in
      rw (e, rest, h.split, replay_over-append h.seen h.unseen (start_of a none))
        (replay_over-Agree h.unseen _ _ h.folded)

  -- With faithful snapshots, replay gives the version, the last sequence and the state that a replay
  -- of all events gives.
  replay-Agree :
      (w : State er sr) (a : Aggregate)
      → Sound w
      → Agree (replay_aggregate er sr w a) (replay_over (start_of a none) (er.stream w.events a))
  unfolding Sound
  replay-Agree w a h = replay_of w a _ refl (h a)

  module _ (w : State er sr) (a : Aggregate) (d : Draft) (h : Sound w) where
    abbrev saved : State er sr
    saved = record w { events = er.save w.events a d }

    saved_same :
        (b : Aggregate)
        → a ≡ b
        → FaithfulIfAny b (er.stream saved.events b) (sr.latest w.snapshots b)
    unfolding Sound
    saved_same b e =
        rw (← e, er.stream-save w.events a d)
          (grown a (er.stream w.events a) (er.created w.events a d)
            (er.sequence-grows w.events a a d) _ (h a))

    saved_other :
        (b : Aggregate)
        → a ≢ b
        → FaithfulIfAny b (er.stream saved.events b) (sr.latest w.snapshots b)
    unfolding Sound
    saved_other b ne = rw (er.stream-save_ne w.events a b d ne) (h b)

    saved-Sound : Sound saved
    unfolding Sound
    saved-Sound b = elim (Bool-cases (same_aggregate a b)) [
      | inl t ↦ saved_same b ((same_aggregate_iff a b).0 t)
      | inr t ↦ saved_other b (λ e. cc ((same_aggregate_iff a b).1 e))
    ]

    abbrev new_event : Event
    new_event = er.created w.events a d

    abbrev replayed_now : AggregateState
    replayed_now = replay_aggregate er sr saved a

    module _ (q : ℕ) (at : replayed_now.last_sequence ≡ some q) where
      now_taken :
          (q ≡ new_event.sequence)
          × Faithful a (er.stream w.events a ++ new_event ∷ []) (snapshot_of er sr q replayed_now)
      now_taken =
          taken a (er.stream w.events a) new_event (er.sequence-grows w.events a a d) q replayed_now
            (rw (er.stream-save w.events a d) at (replay-Agree saved a saved-Sound)) at

      newer :
          (old : Snapshot) (o : Option Snapshot)
          → FaithfulIfAny a (er.stream w.events a) o
          → o ≡ some old
          → old.sequence ≤ q
      unfolding FaithfulIfAny
      newer old none f e = cc
      newer old (some s) f e =
          let same : s ≡ old = some-injective _ _ e in
          let lt = f.bound new_event.sequence (er.sequence-grows w.events a a d) in
          rw (← same) (omega (arith, lt, now_taken.0))

      stored_same :
          (b : Aggregate)
          → a ≡ b
          → FaithfulIfAny b
              (er.stream saved.events b)
              (sr.latest (sr.save w.snapshots a (snapshot_of er sr q replayed_now)) b)
      unfolding FaithfulIfAny Sound
      stored_same b e =
          rw
            (
              ← e,
              er.stream-save w.events a d,
              sr.latest-save w.snapshots a (snapshot_of er sr q replayed_now)
                  (λ old. newer old _ (h a)),
            )
            now_taken.1

      stored-Sound : Sound (save_snapshot er sr (some q) saved a replayed_now)
      unfolding Sound save_snapshot
      stored-Sound b = elim (Bool-cases (same_aggregate a b)) [
        | inl t ↦ stored_same b ((same_aggregate_iff a b).0 t)
        | inr t ↦
            rw
              (sr.latest-save_ne w.snapshots a b (snapshot_of er sr q replayed_now)
                (λ e. cc ((same_aggregate_iff a b).1 e)))
              (saved-Sound b)
      ]

    snapshot-Sound :
        (o : Option ℕ)
        → replayed_now.last_sequence ≡ o
        → Sound (save_snapshot er sr o saved a replayed_now)
    unfolding save_snapshot
    snapshot-Sound none e = saved-Sound
    snapshot-Sound (some q) e = stored-Sound q e

  -- An append keeps every snapshot faithful, whether or not the compaction goes through.
  append-Sound :
      (compacts : Bool) (w : State er sr) (a : Aggregate) (d : Draft)
      → Sound w
      → Sound (append er sr compacts w a d).1
  unfolding append maybe_snapshot
  append-Sound false w a d h = saved-Sound w a d h
  append-Sound true w a d h =
      elim (Bool-cases
        (ltb (er.count (er.save w.events a d) a (first_unseen (sr.latest w.snapshots a))) 20)) [
          | inl t ↦ rw t (saved-Sound w a d h)
          | inr t ↦ rw t (snapshot-Sound w a d h _ refl)
        ]

no_snapshots :
    (er : EventRepo) (sr : SnapshotRepo) (w : State er sr)
    → ((b : Aggregate) → sr.latest w.snapshots b ≡ none)
    → Sound er sr w
unfolding Sound FaithfulIfAny
no_snapshots er sr w empty b = rw (empty b) tt

-- Appends in order, to any aggregates.
pub append_all :
    (er : EventRepo) (sr : SnapshotRepo)
    → State er sr
    → List (Bool × Aggregate × Draft)
    → State er sr
append_all er sr w [] = w
append_all er sr w ((compacts, a, d) ∷ rest) = append_all er sr (append er sr compacts w a d).1 rest

append_all-Sound :
    (er : EventRepo) (sr : SnapshotRepo) (w : State er sr)
    (appends : List (Bool × Aggregate × Draft))
    → Sound er sr w
    → Sound er sr (append_all er sr w appends)
unfolding append_all
append_all-Sound er sr w [] h = h
append_all-Sound er sr w ((compacts, a, d) ∷ rest) h =
    append_all-Sound er sr (append er sr compacts w a d).1 rest
      (append-Sound er sr compacts w a d h)

-- From a state without snapshots, after any appends to any aggregates, with or without compaction,
-- the replay of an aggregate, from its latest snapshot, gives the version, the last sequence and the
-- state that a replay of all its events gives.
pub replay_aggregate-Agree :
    (er : EventRepo) (sr : SnapshotRepo) (w : State er sr)
    (appends : List (Bool × Aggregate × Draft)) (a : Aggregate)
    → ((b : Aggregate) → sr.latest w.snapshots b ≡ none)
    → let w' = append_all er sr w appends in
      Agree (replay_aggregate er sr w' a) (replay_over (start_of a none) (er.stream w'.events a))
replay_aggregate-Agree er sr w appends a empty =
    replay-Agree er sr (append_all er sr w appends) a
      (append_all-Sound er sr w appends (no_snapshots er sr w empty))

version_counts :
    (es : List Event) (st : AggregateState) → (replay_over st es).version ≡ st.version + length es
unfolding replay_over
version_counts [] st = omega arith
version_counts (e ∷ es) st = omega (arith, version_counts es (fold_event st e))

-- From a state without snapshots, after any appends to any aggregates, the version that the replay
-- of an aggregate gives is the number of its events.
pub replay_aggregate_version :
    (er : EventRepo) (sr : SnapshotRepo) (w : State er sr)
    (appends : List (Bool × Aggregate × Draft)) (a : Aggregate)
    → ((b : Aggregate) → sr.latest w.snapshots b ≡ none)
    → let w' = append_all er sr w appends in
      (replay_aggregate er sr w' a).version ≡ length (er.stream w'.events a)
unfolding Agree
replay_aggregate_version er sr w appends a empty =
    let (counted, _, _) = replay_aggregate-Agree er sr w appends a empty in
    omega (
      arith,
      counted,
      version_counts (er.stream (append_all er sr w appends).events a) (start_of a none),
    )
