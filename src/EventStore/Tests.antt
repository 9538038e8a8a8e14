-- ===== src/EventStore/Tests.antt =====
-- A run of the event store (packages/backend/src/event-store) on concrete tables.
use backit_on_stellar.Prelude.{
  ℕ, zero, suc, ◌+◌, ◌≡◌, ◌≢◌, ◌<◌, refl, Bool, true, false, List, [], ◌∷◌, ◌++◌, Option, none,
  if◌then◌else◌, max, length, All, arith, inl, inr, Bool-cases,
}
use backit_on_stellar.Prelude.Repo.{put, put_self, put_ne}
use backit_on_stellar.Prelude.Json.{num, field, end}
use backit_on_stellar.EventStore.{
  Aggregate, Draft, Event, Snapshot, bounded, EventRepo, SnapshotRepo, draft_of, replay_over,
  start_of, State, replay_aggregate,
}
use backit_on_stellar.EventStore.Snapshots.{Agree}
use backit_on_stellar.EventStore.Appends.{
  same_aggregate, same_aggregate_iff, append_all, replay_aggregate-Agree,
}

abbrev Rows : Type 0
Rows = List (Aggregate × Event)

of_aggregate : Rows → Aggregate → List Event
of_aggregate [] a = []
of_aggregate ((b, e) ∷ rows) a =
    let rest = of_aggregate rows a in if same_aggregate b a then e ∷ rest else rest

greatest : Rows → ℕ
greatest [] = 0
greatest ((b, e) ∷ rows) = max e.sequence (greatest rows)

new_row : Rows → Aggregate → Draft → Event
new_row rows a d = record {
  sequence = greatest rows + 1;
  event_type = d.event_type;
  payload = d.payload;
  correlation_id = d.correlation_id;
  created_at = 0;
}

of_aggregate_self :
    (rows : Rows) (a : Aggregate) (e : Event)
    → of_aggregate (rows ++ (a, e) ∷ []) a ≡ of_aggregate rows a ++ e ∷ []
unfolding of_aggregate
of_aggregate_self [] a e = rw ((same_aggregate_iff a a).1 refl)
of_aggregate_self ((b, x) ∷ rows) a e = elim (Bool-cases (same_aggregate b a)) [
  | inl t ↦ rw (t, of_aggregate_self rows a e)
  | inr t ↦ rw (t, of_aggregate_self rows a e)
]

differ : (a b : Aggregate) → a ≢ b → same_aggregate a b ≡ false
differ a b h = elim (Bool-cases (same_aggregate a b)) [
  | inl t ↦ absurd (h ((same_aggregate_iff a b).0 t))
  | inr t ↦ t
]

of_aggregate_ne :
    (rows : Rows) (a b : Aggregate) (e : Event)
    → a ≢ b
    → of_aggregate (rows ++ (a, e) ∷ []) b ≡ of_aggregate rows b
unfolding of_aggregate
of_aggregate_ne [] a b e h = rw (differ a b h)
of_aggregate_ne ((c, x) ∷ rows) a b e h = elim (Bool-cases (same_aggregate c b)) [
  | inl t ↦ rw (t, of_aggregate_ne rows a b e h)
  | inr t ↦ rw (t, of_aggregate_ne rows a b e h)
]

below_greatest :
    (rows : Rows) (b : Aggregate) (n : ℕ)
    → greatest rows < n
    → All (λ e. e.sequence < n) (of_aggregate rows b)
unfolding of_aggregate greatest
below_greatest [] b n h = tt
below_greatest ((c, x) ∷ rows) b n h = elim (Bool-cases (same_aggregate c b)) [
  | inl t ↦ rw t (omega arith, below_greatest rows b n (omega arith))
  | inr t ↦ rw t (below_greatest rows b n (omega arith))
]

rows_repo : EventRepo
unfolding new_row
rows_repo = record {
  Table = Rows;
  stream = of_aggregate;
  find = λ t a from. bounded from (of_aggregate t a);
  count = λ t a from. length (bounded from (of_aggregate t a));
  created = new_row;
  save = λ t a d. t ++ (a, new_row t a d) ∷ [];
  find-stream = λ t a from. refl;
  count-find = λ t a from. refl;
  stream-save = λ t a d. of_aggregate_self t a (new_row t a d);
  stream-save_ne = λ t a b d h. of_aggregate_ne t a b (new_row t a d) h;
  sequence-grows = λ t a b d. below_greatest t b (greatest t + 1) (omega arith);
}

latest_repo : SnapshotRepo
latest_repo = record {
  Table = Aggregate → Option Snapshot;
  latest = λ t a. t a;
  save = put same_aggregate same_aggregate_iff;
  latest-save = λ t a s h. put_self same_aggregate same_aggregate_iff t a s;
  latest-save_ne = λ t a b s h. put_ne same_aggregate same_aggregate_iff t a b s h;
}

abbrev call_seven : Aggregate
call_seven = record { aggregate_type = "call"; aggregate_id = "7" }

abbrev stake_added : Draft
stake_added = draft_of "StakeAdded" (field "stake" (num 5) end) none none

abbrev appends : ℕ → List (Bool × Aggregate × Draft)
appends zero = []
appends (suc n) = (true, call_seven, stake_added) ∷ appends n

abbrev empty_store : State rows_repo latest_repo
unfolding rows_repo latest_repo
empty_store = record { events = []; snapshots = λ a. none }

empty_latest : (b : Aggregate) → latest_repo.latest empty_store.snapshots b ≡ none
unfolding latest_repo empty_store
empty_latest b = refl

replay_aggregate-Agree_example :
    let w = append_all rows_repo latest_repo empty_store (appends 25) in
    Agree
      (replay_aggregate rows_repo latest_repo w call_seven)
      (replay_over (start_of call_seven none) (rows_repo.stream w.events call_seven))
replay_aggregate-Agree_example =
    replay_aggregate-Agree rows_repo latest_repo empty_store (appends 25) call_seven empty_latest
