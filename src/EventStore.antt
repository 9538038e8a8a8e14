-- ===== src/EventStore.antt =====
-- packages/backend/src/event-store/event-store.service.ts: the events of aggregates, their replay,
-- and the snapshots that shorten it. The two tables are TypeORM repositories, so they are parameters.
pub mod Snapshots
pub mod Appends
mod Tests
use Prim.Native.String.{String}
use backit_on_stellar.Prelude.{
  ℕ, suc, ◌+◌, ◌≡◌, ◌≢◌, ◌≤◌, ◌<◌, Bool, List, [], ◌∷◌, ◌++◌, Option, none, some, if◌then◌else◌,
  or_else, length, ltb, leb, All,
}
use backit_on_stellar.Prelude.Text.{str_eq}
use backit_on_stellar.Prelude.Json.{Value, undefined, Fields, end, field}

pub record Aggregate : Type 0 where
  pub aggregate_type : String
  pub aggregate_id : String

-- A new event. Of the metadata only the correlation id is kept, and no ledger sequence.
pub record Draft : Type 0 where
  pub event_type : String
  pub payload : Fields
  pub correlation_id : String

-- EventStoreEntry.
pub record Event : Type 0 where
  pub sequence : ℕ
  pub event_type : String
  pub payload : Fields
  pub correlation_id : String
  pub created_at : ℕ

-- AggregateSnapshot. An object is given by what its keys hold.
pub record Snapshot : Type 0 where
  pub sequence : ℕ
  pub version : ℕ
  pub state : String → Value

pub record AggregateState : Type 0 where
  pub aggregate : Aggregate
  pub version : ℕ
  pub last_sequence : Option ℕ
  pub last_event_type : Option String
  pub last_event_at : Option ℕ
  pub state : String → Value

-- The events from a sequence number on.
unfoldable pub at_least : ℕ → List Event → List Event
at_least n [] = []
at_least n (e ∷ es) = let rest = at_least n es in if leb n e.sequence then e ∷ rest else rest

-- `{ sequence: MoreThanOrEqual(n) }`, if it is given.
abbrev pub bounded : Option ℕ → List Event → List Event
bounded none es = es
bounded (some n) es = at_least n es

-- The table of events. `sequence` is a column that the database counts up.
pub record EventRepo : Type 1 where
  pub Table : Type 0
  pub stream : Table → Aggregate → List Event
  pub find : Table → Aggregate → Option ℕ → List Event
  pub count : Table → Aggregate → Option ℕ → ℕ
  pub created : Table → Aggregate → Draft → Event
  pub save : Table → Aggregate → Draft → Table
  pub find-stream :
      (t : Table) (a : Aggregate) (from : Option ℕ) → find t a from ≡ bounded from (stream t a)
  pub count-find :
      (t : Table) (a : Aggregate) (from : Option ℕ) → count t a from ≡ length (find t a from)
  pub stream-save :
      (t : Table) (a : Aggregate) (d : Draft)
      → stream (save t a d) a ≡ stream t a ++ created t a d ∷ []
  pub stream-save_ne :
      (t : Table) (a b : Aggregate) (d : Draft) → a ≢ b → stream (save t a d) b ≡ stream t b
  pub sequence-grows :
      (t : Table) (a b : Aggregate) (d : Draft)
      → All (λ e. e.sequence < (created t a d).sequence) (stream t b)

-- The table of snapshots; `latest` is the one with the greatest sequence.
pub record SnapshotRepo : Type 1 where
  pub Table : Type 0
  pub latest : Table → Aggregate → Option Snapshot
  pub save : Table → Aggregate → Snapshot → Table
  pub latest-save :
      (t : Table) (a : Aggregate) (s : Snapshot)
      → ((old : Snapshot) → latest t a ≡ some old → old.sequence ≤ s.sequence)
      → latest (save t a s) a ≡ some s
  pub latest-save_ne :
      (t : Table) (a b : Aggregate) (s : Snapshot) → a ≢ b → latest (save t a s) b ≡ latest t b

-- The value of an own key.
abbrev pub own : Fields → String → Option Value
own end k = none
own (field j v fs) k = let rest = own fs k in if str_eq j k then some v else rest

-- `{ ...state, ...payload }`.
abbrev pub spread : (String → Value) → Fields → String → Value
spread state fs k = or_else (own fs k) (state k)

abbrev pub fold_event : AggregateState → Event → AggregateState
fold_event st e = record st {
  state = spread st.state e.payload;
  last_sequence = some e.sequence;
  last_event_type = some e.event_type;
  last_event_at = some e.created_at;
  version = st.version + 1;
}

-- The loop of `replayAggregate`.
unfoldable pub replay_over : AggregateState → List Event → AggregateState
replay_over st [] = st
replay_over st (e ∷ es) = replay_over (fold_event st e) es

-- The state that the loop starts from.
abbrev pub start_of : Aggregate → Option Snapshot → AggregateState
start_of a none = record {
  aggregate = a;
  version = 0;
  last_sequence = none;
  last_event_type = none;
  last_event_at = none;
  state = λ k. undefined;
}
start_of a (some s) = record {
  aggregate = a;
  version = s.version;
  last_sequence = some s.sequence;
  last_event_type = none;
  last_event_at = none;
  state = s.state;
}

abbrev pub first_unseen : Option Snapshot → Option ℕ
first_unseen none = none
first_unseen (some s) = some (s.sequence + 1)

abbrev pub snapshot_interval : ℕ
snapshot_interval = 20

abbrev pub correlation_of : Option String → Option String → String
correlation_of given current = or_else given (or_else current "unknown")

-- The entry that `append` creates, from the metadata and the correlation id of the request.
abbrev pub draft_of : String → Fields → Option String → Option String → Draft
draft_of event_type payload given current = record {
  event_type = event_type;
  payload = payload;
  correlation_id = correlation_of given current;
}

pub record World (E S : Type 0) : Type 0 where
  pub events : E
  pub snapshots : S

module _ (er : EventRepo) (sr : SnapshotRepo) where
  abbrev pub State : Type 0
  State = World er.Table sr.Table

  unfoldable pub replay_aggregate : State → Aggregate → AggregateState
  replay_aggregate w a =
      let snapshot = sr.latest w.snapshots a in
      replay_over (start_of a snapshot) (er.find w.events a (first_unseen snapshot))

  abbrev pub snapshot_of : ℕ → AggregateState → Snapshot
  snapshot_of q r = record { sequence = q; version = r.version; state = r.state }

  unfoldable pub save_snapshot : Option ℕ → State → Aggregate → AggregateState → State
  save_snapshot none w a r = w
  save_snapshot (some q) w a r = record w { snapshots = sr.save w.snapshots a (snapshot_of q r) }

  unfoldable pub maybe_snapshot : State → Aggregate → State
  maybe_snapshot w a =
      let snapshot = sr.latest w.snapshots a in
      let replayed = replay_aggregate w a in
      if ltb (er.count w.events a (first_unseen snapshot)) snapshot_interval
      then w
      else save_snapshot replayed.last_sequence w a replayed

  -- `append`, told whether the compaction goes through: an error of it is caught and logged.
  unfoldable pub append : Bool → State → Aggregate → Draft → Event × State
  append compacts w a d =
      let w' = record w { events = er.save w.events a d } in
      (er.created w.events a d, if compacts then maybe_snapshot w' a else w')
