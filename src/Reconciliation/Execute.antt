-- ===== src/Reconciliation/Execute.antt =====
-- startRun and executeRun of packages/backend/src/reconciliation/reconciliation.service.ts.
use Prim.Native.String.{String}
use backit_on_stellar.Prelude.{
  ℕ, Bool, true, false, List, [], ◌∷◌, Option, none, some, or_else, ltb, length, if◌then◌else◌,
}
use backit_on_stellar.Prelude.Text.{str_eq}
use backit_on_stellar.Prelude.Repo.{Repo}
use backit_on_stellar.Payouts.{Staker, PayoutClaim}
use backit_on_stellar.Reconciliation.{
  Call, ChainEvent, Tables, Discrepancy, unknown_contract, quarantined, found,
}
use backit_on_stellar.Reconciliation.Events.{reconcile_event}
use backit_on_stellar.Reconciliation.Run.{
  Cache, pending_run, running, completed, failed_run, ReconciliationRun, ReconciliationDiscrepancy,
  Tally, Serving, serving, not_recording, refusing, StartAnswer, started, bad_range, conflict,
  Request, Chain, fetch_events_for_range, no_breakdown, counted, record_discrepancy, is_unknown,
  lock_key, lock_ttl,
}

pub record Service (T R L : Type 0) : Type 0 where
  pub tables : T
  pub runs : R
  pub rows : List ReconciliationDiscrepancy
  pub lock : L
  pub jobs : List String

module _ (cr : Repo String Call) (sr : Repo Staker (List ℕ)) (pr : Repo Staker PayoutClaim)
    (rr : Repo String ReconciliationRun) (cache : Cache) (to_upper : String → String)
    (to_number : String → ℕ) where
  abbrev pub TablesState : Type 0
  TablesState = Tables cr.Table sr.Table pr.Table

  abbrev pub ServiceState : Type 0
  ServiceState = Service TablesState rr.Table cache.Store

  unfoldable pub contracts_of : Option (List String) → String → List String
  contracts_of (some (c ∷ cs)) standard = c ∷ cs
  contracts_of (some []) standard = if str_eq standard "" then [] else standard ∷ []
  contracts_of none standard = if str_eq standard "" then [] else standard ∷ []

  unfoldable pub new_run : Request → String → ReconciliationRun
  unfolding contracts_of
  new_run req standard = record {
    network = or_else req.network "testnet";
    contract_ids = contracts_of req.contract_ids standard;
    from_ledger = req.from_ledger;
    to_ledger = req.to_ledger;
    is_dry_run = or_else req.is_dry_run true;
    status = pending_run;
    scanned_events_count = 0;
    discrepancy_count = 0;
    repaired_count = 0;
    quarantined_count = 0;
    discrepancy_breakdown = none;
  }

  -- Told whether the lock of the network is there.
  unfoldable pub start_unless :
      Bool → ServiceState → String → ReconciliationRun → ℕ → StartAnswer × ServiceState
  start_unless true s id run now = (conflict, s)
  start_unless false s id run now = (
    started run,
    record s {
      lock = cache.set s.lock (lock_key run.network) lock_ttl now;
      runs = rr.save s.runs id run;
      jobs = id ∷ s.jobs;
    },
  )

  -- `startRun`, with the id that the database gives the run and the default contract. A run that the
  -- queue does not take is executed later all the same.
  unfoldable pub start_run :
      ServiceState → String → Request → String → ℕ → StartAnswer × ServiceState
  unfolding start_unless new_run
  start_run s id req standard now =
      let run = new_run req standard in
      if ltb req.to_ledger req.from_ledger
      then (bad_range, s)
      else start_unless (cache.has s.lock (lock_key run.network) now) s id run now

  -- What one event is found to be, and the tables after its repair.
  unfoldable pub verdict :
      Bool → ReconciliationRun → TablesState → ChainEvent → ℕ → Option Discrepancy × TablesState
  verdict true run t e now = (found unknown_contract quarantined, t)
  verdict false run t e now = reconcile_event cr sr pr to_upper to_number run.is_dry_run t e now

  unfoldable pub write_down :
      Option Discrepancy
      → Bool
      → ReconciliationRun
      → String
      → ChainEvent
      → Tally TablesState
      → Tally TablesState
  unfolding counted record_discrepancy
  write_down none recording run id e t = t
  write_down (some d) true run id e t = record_discrepancy run.is_dry_run id e d (counted t d)
  write_down (some d) false run id e t = counted t d

  unfoldable pub handle_event :
      Bool → ReconciliationRun → String → ChainEvent → ℕ → Tally TablesState → Tally TablesState
  unfolding verdict write_down is_unknown
  handle_event recording run id e now t =
      let (d, tables) = verdict (is_unknown run.contract_ids e) run t.tables e now in
      write_down d recording run id e (record t { tables = tables })

  -- What follows an event: the rest of the loop, or its end with what was written.
  unfoldable pub served :
      Serving
      → Bool × Tally TablesState
      → Tally TablesState
      → Tally TablesState
      → Bool × Tally TablesState
  served serving rest unrecorded t = rest
  served not_recording rest unrecorded t = (false, unrecorded)
  served refusing rest unrecorded t = (false, t)

  -- The loop over the events, and whether it came to their end. The database may refuse an event, or
  -- its row; that ends the run.
  unfoldable pub event_loop :
      (ChainEvent → Serving)
      → ReconciliationRun
      → String
      → ℕ
      → List ChainEvent
      → Tally TablesState
      → Bool × Tally TablesState
  unfolding handle_event served
  event_loop serves run id now [] t = (true, t)
  event_loop serves run id now (e ∷ es) t =
      served (serves e) (event_loop serves run id now es (handle_event true run id e now t))
        (handle_event false run id e now t) t

  unfoldable pub finish : Bool × Tally TablesState → ReconciliationRun → ℕ → ReconciliationRun
  finish (true, t) run scanned = record run {
    status = completed;
    scanned_events_count = scanned;
    discrepancy_count = t.discrepancies;
    repaired_count = t.repairs;
    quarantined_count = t.quarantines;
    discrepancy_breakdown = some t.breakdown;
  }
  finish (false, t) run scanned = record run { status = failed_run; scanned_events_count = scanned }

  abbrev pub tally_of : ServiceState → Tally TablesState
  tally_of s = record {
    tables = s.tables;
    rows = s.rows;
    discrepancies = 0;
    repairs = 0;
    quarantines = 0;
    breakdown = no_breakdown;
  }

  unfoldable pub execute_found :
      Option ReconciliationRun
      → ServiceState
      → String
      → Chain
      → (ChainEvent → Serving)
      → ℕ
      → Option ReconciliationRun × ServiceState
  unfolding event_loop finish fetch_events_for_range
  execute_found none s id chain serves now = (none, s)
  execute_found (some found_run) s id chain serves now =
      let run : ReconciliationRun = record found_run { status = running } in
      let events = fetch_events_for_range chain run.contract_ids run.from_ledger run.to_ledger in
      let (reached, t) = event_loop serves run id now events (tally_of s) in
      let run' = finish (reached, t) run (length events) in
      (
        some run',
        record s {
          tables = t.tables;
          rows = t.rows;
          runs = rr.save (rr.save s.runs id run) id run';
          lock = cache.del s.lock (lock_key run.network);
        },
      )

  -- `executeRun`; none is its NotFoundException.
  unfoldable pub execute_run :
      ServiceState
      → String
      → Chain
      → (ChainEvent → Serving)
      → ℕ
      → Option ReconciliationRun × ServiceState
  unfolding execute_found
  execute_run s id chain serves now = execute_found (rr.find_one s.runs id) s id chain serves now
