-- ===== src/Reconciliation/Tests.antt =====
-- Runs of packages/backend/src/reconciliation/reconciliation.service.ts on a concrete chain.
use Prim.Native.String.{String}
use backit_on_stellar.Prelude.{
  ℕ, ◌+◌, ◌≤◌, ◌<◌, ◌≡◌, ◌≢◌, refl, Bool, true, false, List, [], ◌∷◌, ◌++◌, All, none, some,
  if◌then◌else◌, ltb, arith,
}
use backit_on_stellar.Prelude.Text.{str_eq, str_eq_iff}
use backit_on_stellar.Prelude.Repo.{Repo, function_repo}
use backit_on_stellar.Payouts.{Staker, PayoutClaim, same_staker, same_staker_iff}
use backit_on_stellar.Reconciliation.{Call, ChainEvent, Tables, detected}
use backit_on_stellar.Reconciliation.Events.{reconcile_event}
use backit_on_stellar.Reconciliation.Run.{
  Cache, ReconciliationRun, ReconciliationDiscrepancy, Serving, serving, Chain, EventLog, no_data,
  Request, StartAnswer, conflict, started, pending_run,
}
use backit_on_stellar.Reconciliation.Execute.{Service, execute_run}
use backit_on_stellar.Reconciliation.DryRun.Whole.{dry_run_keeps}
use backit_on_stellar.Reconciliation.Counts.{Finished, run_completes}
use backit_on_stellar.Reconciliation.Lock.{lock_cycle, lock_stolen, start, execute, run_of}
use backit_on_stellar.Reconciliation.Repairs.{reports_repair, repair_settles}

abbrev calls_repo : Repo String Call
calls_repo = function_repo str_eq str_eq_iff

abbrev stakes_repo : Repo Staker (List ℕ)
stakes_repo = function_repo same_staker same_staker_iff

abbrev claims_repo : Repo Staker PayoutClaim
claims_repo = function_repo same_staker same_staker_iff

abbrev runs_repo : Repo String ReconciliationRun
runs_repo = function_repo str_eq str_eq_iff

-- A cache as a function that gives the instant at which an entry is gone.
unfoldable has_live : (String → ℕ) → String → ℕ → Bool
has_live c key now = ltb now (c key)

unfoldable set_until : (String → ℕ) → String → ℕ → ℕ → String → ℕ
set_until c key ttl now other = if str_eq key other then now + ttl else c other

unfoldable del_key : (String → ℕ) → String → String → ℕ
del_key c key other = if str_eq key other then 0 else c other

set_live :
    (c : String → ℕ) (key : String) (ttl now later : ℕ)
    → later < now + ttl
    → has_live (set_until c key ttl now) key later ≡ true
unfolding has_live set_until
set_live c key ttl now later h = let same = (str_eq_iff key key).1 refl in rw same (ground arith)

set_expired :
    (c : String → ℕ) (key : String) (ttl now later : ℕ)
    → now + ttl ≤ later
    → has_live (set_until c key ttl now) key later ≡ false
unfolding has_live set_until
set_expired c key ttl now later h = let same = (str_eq_iff key key).1 refl in rw same (ground arith)

del_gone : (c : String → ℕ) (key : String) (now : ℕ) → has_live (del_key c key) key now ≡ false
unfolding has_live del_key
del_gone c key now = let same = (str_eq_iff key key).1 refl in rw same (ground arith)

unfoldable cache : Cache
cache = record {
  Store = String → ℕ;
  has = has_live;
  set = set_until;
  del = del_key;
  has-set_live = set_live;
  has-set_expired = set_expired;
  has-del = del_gone;
}

abbrev same_text : String → String
same_text text = text

abbrev one : String → ℕ
one text = 1

abbrev creation : EventLog
creation = record {
  contract_id = "C1";
  ledger = 5;
  tx_hash = "tx";
  event_type = "call_created";
  event_data = record no_data { call_id = some "7"; creator = some "GALICE" };
}

abbrev chain : Chain
chain = record {
  event_log = λ contract from to. some (creation ∷ []);
  rpc_events = λ contract from. some [];
}

abbrev all_served : ChainEvent → Serving
all_served e = serving

abbrev tables : Tables calls_repo.Table stakes_repo.Table claims_repo.Table
tables = record { calls = calls_repo.empty; stakes = stakes_repo.empty; claims = claims_repo.empty }

abbrev planned : Bool → ReconciliationRun
planned dry = record {
  network = "testnet";
  contract_ids = "C1" ∷ [];
  from_ledger = 1;
  to_ledger = 9;
  is_dry_run = dry;
  status = pending_run;
  scanned_events_count = 0;
  discrepancy_count = 0;
  repaired_count = 0;
  quarantined_count = 0;
  discrepancy_breakdown = none;
}

no_locks : cache.Store
unfolding cache
no_locks = λ key. 0

no_locks_has : (key : String) → cache.has no_locks key 0 ≡ false
unfolding cache no_locks has_live
no_locks_has key = refl

abbrev service :
    Bool
    → Service
        (Tables calls_repo.Table stakes_repo.Table claims_repo.Table)
        runs_repo.Table
        cache.Store
service dry = record {
  tables = tables;
  runs = runs_repo.save runs_repo.empty "r" (planned dry);
  rows = [];
  lock = no_locks;
  jobs = [];
}

planned_row : (dry : Bool) → runs_repo.find_one (service dry).runs "r" ≡ some (planned dry)
planned_row dry = runs_repo.find_one-save_self _ _ _

dry_run_keeps_example :
    let s' =
      (execute_run calls_repo stakes_repo claims_repo runs_repo cache same_text one
        (service true)
        "r"
        chain
        all_served
        3).1 in
    (s'.tables ≡ tables)
    × ((new : List ReconciliationDiscrepancy) × (s'.rows ≡ new ++ [])
        × All (λ r. r.status ≡ detected) new)
dry_run_keeps_example =
    dry_run_keeps calls_repo stakes_repo claims_repo runs_repo cache same_text one (service true)
      "r" (planned true) chain all_served 3 (planned_row true) refl

every_event : (e : ChainEvent) → all_served e ≡ serving
every_event e = refl

run_completes_example :
    Finished calls_repo stakes_repo claims_repo runs_repo cache same_text one (service false) "r" (
      execute_run calls_repo stakes_repo claims_repo runs_repo cache same_text one
        (service false)
        "r"
        chain
        all_served
        3)
run_completes_example =
    run_completes calls_repo stakes_repo claims_repo runs_repo cache same_text one (service false)
      "r" (planned false) chain all_served 3 (planned_row false) every_event

abbrev created : ChainEvent
created = record {
  contract_id = "C1";
  ledger = 5;
  tx_hash = "tx";
  event_index = 0;
  event_name = "call_created";
  event_data = record no_data { call_id = some "7"; creator = some "GALICE" };
}

repairs_it :
    reports_repair
      (reconcile_event calls_repo stakes_repo claims_repo same_text one false tables created 3).0
    ≡ true
unfolding reconcile_event function_repo
repairs_it = refl

repair_settles_example :
    let s' =
      (reconcile_event calls_repo stakes_repo claims_repo same_text one false tables created 3).1 in
    reconcile_event calls_repo stakes_repo claims_repo same_text one true s' created 4 ≡ (none, s')
repair_settles_example =
    repair_settles calls_repo stakes_repo claims_repo same_text one tables created 3 4 true
      repairs_it

abbrev request : Request
request = record {
  network = none;
  contract_ids = some ("C1" ∷ []);
  from_ledger = 1;
  to_ledger = 9;
  is_dry_run = none;
}

abbrev start_at :
    Service
      (Tables calls_repo.Table stakes_repo.Table claims_repo.Table)
      runs_repo.Table
      cache.Store
    → String
    → ℕ
    → StartAnswer
      × Service
          (Tables calls_repo.Table stakes_repo.Table claims_repo.Table)
          runs_repo.Table
          cache.Store
start_at s id now =
    start calls_repo stakes_repo claims_repo runs_repo cache same_text one "C1" s id request now

abbrev execute_first :
    Service
      (Tables calls_repo.Table stakes_repo.Table claims_repo.Table)
      runs_repo.Table
      cache.Store
    → ℕ
    → Service
        (Tables calls_repo.Table stakes_repo.Table claims_repo.Table)
        runs_repo.Table
        cache.Store
execute_first s at =
    execute calls_repo stakes_repo claims_repo runs_repo cache same_text one "C1" s "a" chain
      all_served at

abbrev requested : ReconciliationRun
requested = run_of calls_repo stakes_repo claims_repo runs_repo cache same_text one "C1" request

lock_cycle_example :
    let s1 = (start_at (service false) "a" 0).1 in
    ((start_at (service false) "a" 0).0 ≡ started requested)
    × (start_at s1 "b" 5 ≡ (conflict, s1))
    × ((start_at (execute_first s1 6) "b" 7).0 ≡ started requested)
lock_cycle_example =
    lock_cycle calls_repo stakes_repo claims_repo runs_repo cache same_text one "C1" (service false)
      "a" "b" request request chain all_served 0 5 6 7 (omega arith) (omega arith) refl
      (no_locks_has _) (omega arith)

abbrev run_a : String
run_a = "a"

abbrev run_b : String
run_b = "b"

a_is_not_b : run_a ≢ run_b
a_is_not_b = λ e. let t = (str_eq_iff run_a run_b).1 e in cc

lock_stolen_example :
    let s1 = (start_at (service false) "a" 0).1 in
    let s2 = (start_at s1 "b" 900000).1 in
    ((start_at s1 "b" 900000).0 ≡ started requested)
    × ((start_at (execute_first s2 900001) "c" 900002).0 ≡ started requested)
lock_stolen_example =
    lock_stolen calls_repo stakes_repo claims_repo runs_repo cache same_text one "C1"
      (service false) "a" "b" "c" request chain all_served 0 900000 900001 900002 (omega arith)
      a_is_not_b (no_locks_has _) (omega arith)
