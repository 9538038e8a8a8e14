-- ===== src/Reconciliation/Run.antt =====
-- Runs of packages/backend/src/reconciliation/reconciliation.service.ts: startRun, executeRun,
-- fetchEventsForRange and recordDiscrepancy. Durations and the texts for the operator are left out.
use Prim.Native.String
use Prim.Native.String.{String}
use backit_on_stellar.Prelude.{
  ℕ, ◌+◌, ◌≤◌, ◌<◌, ◌≡◌, Bool, true, false, not, List, [], ◌∷◌, ◌++◌, Option, none, some, ◌||◌,
  ◌&&◌, leb, if◌then◌else◌,
}
use backit_on_stellar.Prelude.Text.{str_eq}
use backit_on_stellar.Reconciliation.{
  ChainEvent, EventData, Discrepancy, DiscrepancyType, DiscrepancyStatus, missing_offchain,
  duplicate_offchain, value_mismatch, unknown_contract, unrecoverable, detected, repaired,
  quarantined,
}

-- What the service uses of the cache: an entry is there until its time to live has passed.
pub record Cache : Type 1 where
  pub Store : Type 0
  pub has : Store → String → ℕ → Bool
  pub set : Store → String → ℕ → ℕ → Store
  pub del : Store → String → Store
  pub has-set_live :
      (c : Store) (key : String) (ttl now later : ℕ)
      → later < now + ttl
      → has (set c key ttl now) key later ≡ true
  pub has-set_expired :
      (c : Store) (key : String) (ttl now later : ℕ)
      → now + ttl ≤ later
      → has (set c key ttl now) key later ≡ false
  pub has-del : (c : Store) (key : String) (now : ℕ) → has (del c key) key now ≡ false

pub data RunStatus : Type 0 where
  pending_run running completed failed_run : RunStatus

pub record Breakdown : Type 0 where
  pub missing : ℕ
  pub duplicate : ℕ
  pub mismatch : ℕ
  pub unknown : ℕ
  pub unrecovered : ℕ

pub record ReconciliationRun : Type 0 where
  pub network : String
  pub contract_ids : List String
  pub from_ledger : ℕ
  pub to_ledger : ℕ
  pub is_dry_run : Bool
  pub status : RunStatus
  pub scanned_events_count : ℕ
  pub discrepancy_count : ℕ
  pub repaired_count : ℕ
  pub quarantined_count : ℕ
  pub discrepancy_breakdown : Option Breakdown

-- A row of the table of discrepancies.
pub record ReconciliationDiscrepancy : Type 0 where
  pub run_id : String
  pub event : ChainEvent
  pub discrepancy_type : DiscrepancyType
  pub status : DiscrepancyStatus

-- The totals of a run, and what it has written so far.
pub record Tally (T : Type 0) : Type 0 where
  pub tables : T
  pub rows : List ReconciliationDiscrepancy
  pub discrepancies : ℕ
  pub repairs : ℕ
  pub quarantines : ℕ
  pub breakdown : Breakdown

-- Whether the database serves an event: its repair and its row, only its repair, or nothing.
pub data Serving : Type 0 where
  serving not_recording refusing : Serving

pub data StartAnswer : Type 0 where
  started : ReconciliationRun → StartAnswer
  bad_range conflict : StartAnswer

pub record Request : Type 0 where
  pub network : Option String
  pub contract_ids : Option (List String)
  pub from_ledger : ℕ
  pub to_ledger : ℕ
  pub is_dry_run : Option Bool

-- A row of the event log, and an event of the RPC server, whose data the service does not read.
pub record EventLog : Type 0 where
  pub contract_id : String
  pub ledger : ℕ
  pub tx_hash : String
  pub event_type : String
  pub event_data : EventData

pub record RpcEvent : Type 0 where
  pub ledger : ℕ
  pub tx_hash : String
  pub topic : Option String

-- Where events come from; none is a query that throws, and no events where there is no server.
pub record Chain : Type 0 where
  pub event_log : String → ℕ → ℕ → Option (List EventLog)
  pub rpc_events : String → ℕ → Option (List RpcEvent)

abbrev pub no_data : EventData
no_data = record {
  call_id = none;
  market_id = none;
  title = none;
  description = none;
  creator_address = none;
  creator = none;
  user_address = none;
  staker = none;
  staker_address = none;
  amount = none;
  outcome = none;
  result = none;
}

unfoldable pub includes : String → List String → Bool
includes x [] = false
includes x (y ∷ ys) = str_eq x y || includes x ys

unfoldable pub parse_logs : ℕ → List EventLog → List ChainEvent
parse_logs index [] = []
parse_logs index (log ∷ logs) =
    record {
      contract_id = log.contract_id;
      ledger = log.ledger;
      tx_hash = log.tx_hash;
      event_index = index;
      event_name = log.event_type;
      event_data = log.event_data;
    }
    ∷ parse_logs (index + 1) logs

abbrev pub topic_name : Option String → String
topic_name none = "Unknown"
topic_name (some name) = name

unfoldable pub parse_rpc : String → ℕ → ℕ → ℕ → List RpcEvent → List ChainEvent
parse_rpc contract from to index [] = []
parse_rpc contract from to index (ev ∷ evs) =
    let rest = parse_rpc contract from to (index + 1) evs in
    let parsed : ChainEvent = record {
      contract_id = contract;
      ledger = ev.ledger;
      tx_hash = ev.tx_hash;
      event_index = index;
      event_name = topic_name ev.topic;
      event_data = no_data;
    } in
    if leb from ev.ledger && leb ev.ledger to then parsed ∷ rest else rest

unfoldable pub from_rpc : Option (List RpcEvent) → String → ℕ → ℕ → List ChainEvent
unfolding parse_rpc
from_rpc none contract from to = []
from_rpc (some evs) contract from to = parse_rpc contract from to 0 evs

-- The events of one contract: those of the log, or of the server where the log has none.
unfoldable pub fetch_contract : Option (List EventLog) → Chain → String → ℕ → ℕ → List ChainEvent
unfolding parse_logs from_rpc
fetch_contract none chain contract from to = []
fetch_contract (some []) chain contract from to =
    from_rpc (chain.rpc_events contract from) contract from to
fetch_contract (some (log ∷ logs)) chain contract from to = parse_logs 0 (log ∷ logs)

unfoldable pub fetch_events_for_range : Chain → List String → ℕ → ℕ → List ChainEvent
unfolding fetch_contract
fetch_events_for_range chain [] from to = []
fetch_events_for_range chain (contract ∷ contracts) from to =
    fetch_contract (chain.event_log contract from to) chain contract from to
    ++ fetch_events_for_range chain contracts from to

unfoldable pub bump : DiscrepancyType → Breakdown → Breakdown
bump missing_offchain b = record b { missing = b.missing + 1 }
bump duplicate_offchain b = record b { duplicate = b.duplicate + 1 }
bump value_mismatch b = record b { mismatch = b.mismatch + 1 }
bump unknown_contract b = record b { unknown = b.unknown + 1 }
bump unrecoverable b = record b { unrecovered = b.unrecovered + 1 }

abbrev pub no_breakdown : Breakdown
no_breakdown = record { missing = 0; duplicate = 0; mismatch = 0; unknown = 0; unrecovered = 0 }

unfoldable pub count_repaired : DiscrepancyStatus → ℕ
count_repaired repaired = 1
count_repaired _ = 0

unfoldable pub count_quarantined : DiscrepancyStatus → ℕ
count_quarantined quarantined = 1
count_quarantined _ = 0

unfoldable pub row_status : Bool → DiscrepancyStatus → DiscrepancyStatus
row_status true status = detected
row_status false status = status

-- The counters that a found discrepancy moves.
unfoldable pub counted : {T : Type 0} → Tally T → Discrepancy → Tally T
unfolding bump count_repaired count_quarantined
counted t d = record t {
  discrepancies = t.discrepancies + 1;
  repairs = t.repairs + count_repaired d.status;
  quarantines = t.quarantines + count_quarantined d.status;
  breakdown = bump d.type t.breakdown;
}

-- `recordDiscrepancy`.
unfoldable pub record_discrepancy :
    {T : Type 0} → Bool → String → ChainEvent → Discrepancy → Tally T → Tally T
unfolding row_status
record_discrepancy dry run_id e d t = record t {
  rows =
      record {
        run_id = run_id;
        event = e;
        discrepancy_type = d.type;
        status = row_status dry d.status;
      }
      ∷ t.rows;
}

unfoldable pub is_unknown : List String → ChainEvent → Bool
unfolding includes
is_unknown [] e = false
is_unknown (c ∷ cs) e = not (includes e.contract_id (c ∷ cs))

abbrev pub lock_key : String → String
lock_key network = String.◌++◌ "reconciliation_lock:" network

abbrev pub lock_ttl : ℕ
lock_ttl = 900000
