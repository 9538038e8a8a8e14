-- ===== src/Reconciliation/DryRun/Whole.antt =====
-- A whole dry run of packages/backend/src/reconciliation/reconciliation.service.ts.
use Prim.Native.String.{String}
use backit_on_stellar.Prelude.{
  ℕ, ◌≡◌, refl, sym, ap, ◌∙◌, Bool, true, false, List, [], ◌∷◌, ◌++◌, append_assoc, All, All-append,
  Option, none, some, arith,
}
use backit_on_stellar.Prelude.Repo.{Repo}
use backit_on_stellar.Payouts.{Staker, PayoutClaim}
use backit_on_stellar.Reconciliation.{Call, ChainEvent, Tables, Discrepancy, detected}
use backit_on_stellar.Reconciliation.Run.{
  Cache, ReconciliationRun, ReconciliationDiscrepancy, Tally, Serving, serving, not_recording,
  refusing, Chain, counted, record_discrepancy, row_status, running, is_unknown,
  fetch_events_for_range,
}
use backit_on_stellar.Reconciliation.Execute.{
  verdict, write_down, handle_event, served, event_loop, ServiceState, execute_run, execute_found,
  tally_of,
}
use backit_on_stellar.Reconciliation.DryRun.{Untouched, verdict-Untouched}

module _ (cr : Repo String Call) (sr : Repo Staker (List ℕ)) (pr : Repo Staker PayoutClaim)
    (rr : Repo String ReconciliationRun) (cache : Cache) (to_upper : String → String)
    (to_number : String → ℕ) where
  abbrev pub Totals : Type 0
  Totals = Tally (Tables cr.Table sr.Table pr.Table)

  -- What a dry run has done so far: rows that only detect.
  record Dry (t t' : Totals) : Type 0 where
    tables : t'.tables ≡ t.tables
    repairs : t'.repairs ≡ t.repairs
    new : List ReconciliationDiscrepancy
    rows : t'.rows ≡ new ++ t.rows
    all_detected : All (λ r. r.status ≡ detected) new

  nothing-Dry : (t : Totals) → Dry t t
  nothing-Dry t = record { tables = refl; repairs = refl; new = []; rows = refl; all_detected = tt }

  then-Dry : (t t' t'' : Totals) → Dry t t' → Dry t' t'' → Dry t t''
  then-Dry t t' t'' d e = record {
    tables = e.tables ∙ d.tables;
    repairs = e.repairs ∙ d.repairs;
    new = e.new ++ d.new;
    rows = e.rows ∙ ap (λ r. e.new ++ r) d.rows ∙ sym (append_assoc e.new d.new t.rows);
    all_detected = All-append (λ r. r.status ≡ detected) e.new d.new e.all_detected d.all_detected;
  }

  write-Dry :
      (o : Option Discrepancy) (recording : Bool) (run : ReconciliationRun) (id : String)
      (e : ChainEvent) (t : Totals) (tables : Tables cr.Table sr.Table pr.Table)
      → run.is_dry_run ≡ true
      → Untouched cr sr pr to_upper to_number t.tables (o, tables)
      → Dry t (
          write_down cr sr pr rr cache to_upper to_number o recording run id e
            (record t { tables = tables }))
  unfolding write_down counted record_discrepancy row_status
  write-Dry none recording run id e t tables h u = record {
    tables = u;
    repairs = refl;
    new = [];
    rows = refl;
    all_detected = tt;
  }
  write-Dry (some d) false run id e t tables h u = record {
    tables = u.0;
    repairs = omega (arith, u.1);
    new = [];
    rows = refl;
    all_detected = tt;
  }
  write-Dry (some d) true run id e t tables h u = record {
    tables = u.0;
    repairs = omega (arith, u.1);
    new = _ ∷ [];
    rows = refl;
    all_detected = (rw h refl, tt);
  }

  handle-Dry :
      (recording : Bool) (run : ReconciliationRun) (id : String) (e : ChainEvent) (now : ℕ)
      (t : Totals)
      → run.is_dry_run ≡ true
      → Dry t (handle_event cr sr pr rr cache to_upper to_number recording run id e now t)
  unfolding handle_event
  handle-Dry recording run id e now t h =
      let unknown = is_unknown run.contract_ids e in
      let (o, tables) = verdict cr sr pr rr cache to_upper to_number unknown run t.tables e now in
      write-Dry o recording run id e t tables h
        (verdict-Untouched cr sr pr to_upper to_number unknown run t.tables e now rr cache h)

  served-Dry :
      (sv : Serving) (rest : Bool × Totals) (lost t : Totals)
      → Dry t rest.1
      → Dry t lost
      → Dry t (served cr sr pr rr cache to_upper to_number sv rest lost t).1
  unfolding served
  served-Dry serving rest lost t d e = d
  served-Dry not_recording rest lost t d e = e
  served-Dry refusing rest lost t d e = nothing-Dry t

  loop-Dry :
      (serves : ChainEvent → Serving) (run : ReconciliationRun) (id : String) (now : ℕ)
      (es : List ChainEvent) (t : Totals)
      → run.is_dry_run ≡ true
      → Dry t (event_loop cr sr pr rr cache to_upper to_number serves run id now es t).1
  unfolding event_loop
  loop-Dry serves run id now [] t h = nothing-Dry t
  loop-Dry serves run id now (e ∷ es) t h =
      let t' = handle_event cr sr pr rr cache to_upper to_number true run id e now t in
      let lost = handle_event cr sr pr rr cache to_upper to_number false run id e now t in
      served-Dry (serves e) _ lost t
        (then-Dry t t' _ (handle-Dry true run id e now t h) (loop-Dry serves run id now es t' h))
        (handle-Dry false run id e now t h)

  -- A dry run, whether it completes or the database stops it, leaves the calls, the stakes and the
  -- claims as they were, and every row that it records says only that a discrepancy was detected.
  pub dry_run_keeps :
      (s : ServiceState cr sr pr rr cache to_upper to_number) (id : String)
      (run : ReconciliationRun) (chain : Chain) (serves : ChainEvent → Serving) (now : ℕ)
      → rr.find_one s.runs id ≡ some run
      → run.is_dry_run ≡ true
      → let s' = (execute_run cr sr pr rr cache to_upper to_number s id chain serves now).1 in
        (s'.tables ≡ s.tables)
        × ((new : List ReconciliationDiscrepancy) × (s'.rows ≡ new ++ s.rows)
            × All (λ r. r.status ≡ detected) new)
  unfolding execute_run execute_found
  dry_run_keeps s id run chain serves now h dry =
      let run' : ReconciliationRun = record run { status = running } in
      let es = fetch_events_for_range chain run.contract_ids run.from_ledger run.to_ledger in
      let d =
        loop-Dry serves run' id now es (tally_of cr sr pr rr cache to_upper to_number s) dry in
      rw h (d.tables, (d.new, d.rows, d.all_detected))
