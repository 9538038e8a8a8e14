-- ===== src/Reconciliation/Counts.antt =====
-- The totals and the lock of a run of packages/backend/src/reconciliation/reconciliation.service.ts.
use Prim.Native.String.{String}
use backit_on_stellar.Prelude.{
  ℕ, ◌+◌, ◌≤◌, ◌≡◌, refl, sym, ap, ◌∙◌, Bool, true, false, List, [], ◌∷◌, ◌++◌, append_assoc,
  length-append, Option, none, some, length, arith,
}
use backit_on_stellar.Prelude.Repo.{Repo}
use backit_on_stellar.Payouts.{Staker, PayoutClaim}
use backit_on_stellar.Reconciliation.{
  Call, ChainEvent, Tables, Discrepancy, DiscrepancyType, DiscrepancyStatus, missing_offchain,
  duplicate_offchain, value_mismatch, unknown_contract, unrecoverable, detected, repaired,
  quarantined, ignored,
}
use backit_on_stellar.Reconciliation.Run.{
  Cache, ReconciliationRun, ReconciliationDiscrepancy, Tally, Serving, serving, not_recording,
  refusing, Chain, count_repaired, count_quarantined, counted, record_discrepancy, running,
  completed, is_unknown, fetch_events_for_range, Breakdown, bump,
}
use backit_on_stellar.Reconciliation.Execute.{
  verdict, write_down, handle_event, served, event_loop, ServiceState, execute_run, execute_found,
  finish, tally_of,
}

abbrev pub total : Breakdown → ℕ
total b = b.missing + b.duplicate + b.mismatch + b.unknown + b.unrecovered

-- How many rows say that the discrepancy was repaired, or put into quarantine.
unfoldable pub rows_with : (DiscrepancyStatus → ℕ) → List ReconciliationDiscrepancy → ℕ
rows_with f [] = 0
rows_with f (r ∷ rs) = f r.status + rows_with f rs

total-bump : (k : DiscrepancyType) (b : Breakdown) → total (bump k b) ≡ total b + 1
unfolding bump
total-bump missing_offchain b = omega arith
total-bump duplicate_offchain b = omega arith
total-bump value_mismatch b = omega arith
total-bump unknown_contract b = omega arith
total-bump unrecoverable b = omega arith

one_kind : (st : DiscrepancyStatus) → count_repaired st + count_quarantined st ≤ 1
unfolding count_repaired count_quarantined
one_kind detected = omega arith
one_kind repaired = omega arith
one_kind quarantined = omega arith
one_kind ignored = omega arith

module _ (cr : Repo String Call) (sr : Repo Staker (List ℕ)) (pr : Repo Staker PayoutClaim)
    (rr : Repo String ReconciliationRun) (cache : Cache) (to_upper : String → String)
    (to_number : String → ℕ) where
  abbrev pub Totals : Type 0
  Totals = Tally (Tables cr.Table sr.Table pr.Table)

  -- The counters agree with the rows that were added.
  record Exact (t t' : Totals) : Type 0 where
    new : List ReconciliationDiscrepancy
    rows : t'.rows ≡ new ++ t.rows
    found_rows : t'.discrepancies ≡ t.discrepancies + length new
    kinds : total t'.breakdown ≡ total t.breakdown + length new
    split :
        t'.repairs + t'.quarantines + t.discrepancies ≤ t'.discrepancies + t.repairs + t.quarantines

  then-Exact : (t t' t'' : Totals) → Exact t t' → Exact t' t'' → Exact t t''
  then-Exact t t' t'' d e = record {
    new = e.new ++ d.new;
    rows = e.rows ∙ ap (λ r. e.new ++ r) d.rows ∙ sym (append_assoc e.new d.new t.rows);
    found_rows = omega (arith, d.found_rows, e.found_rows, length-append e.new d.new);
    kinds = omega (arith, d.kinds, e.kinds, length-append e.new d.new);
    split = omega (arith, d.split, e.split, d.found_rows, e.found_rows);
  }

  write-Exact :
      (o : Option Discrepancy) (run : ReconciliationRun) (id : String) (e : ChainEvent) (t : Totals)
      (tables : Tables cr.Table sr.Table pr.Table)
      → Exact t (
          write_down cr sr pr rr cache to_upper to_number o true run id e
            (record t { tables = tables }))
  unfolding write_down counted record_discrepancy
  write-Exact none run id e t tables = record {
    new = [];
    rows = refl;
    found_rows = omega arith;
    kinds = omega arith;
    split = omega arith;
  }
  write-Exact (some d) run id e t tables = record {
    new = _ ∷ [];
    rows = refl;
    found_rows = omega arith;
    kinds = let b = total-bump d.type t.breakdown in omega (arith, b);
    split = let k = one_kind d.status in omega (arith, k);
  }

  handle-Exact :
      (run : ReconciliationRun) (id : String) (e : ChainEvent) (now : ℕ) (t : Totals)
      → Exact t (handle_event cr sr pr rr cache to_upper to_number true run id e now t)
  unfolding handle_event
  handle-Exact run id e now t =
      let unknown = is_unknown run.contract_ids e in
      let (o, tables) = verdict cr sr pr rr cache to_upper to_number unknown run t.tables e now in
      write-Exact o run id e t tables

  served-Exact :
      (sv : Serving) (rest : Bool × Totals) (lost t : Totals)
      → (served cr sr pr rr cache to_upper to_number sv rest lost t).0 ≡ true
      → (rest.0 ≡ true → Exact t rest.1)
      → Exact t (served cr sr pr rr cache to_upper to_number sv rest lost t).1
  unfolding served
  served-Exact serving rest lost t h k = k h
  served-Exact not_recording rest lost t h k = absurd cc
  served-Exact refusing rest lost t h k = absurd cc

  -- The loop that came to the end of the events.
  loop-Exact :
      (serves : ChainEvent → Serving) (run : ReconciliationRun) (id : String) (now : ℕ)
      (es : List ChainEvent) (t : Totals)
      → let r = event_loop cr sr pr rr cache to_upper to_number serves run id now es t in
        r.0 ≡ true → Exact t r.1
  unfolding event_loop
  loop-Exact serves run id now [] t h = record {
    new = [];
    rows = refl;
    found_rows = omega arith;
    kinds = omega arith;
    split = omega arith;
  }
  loop-Exact serves run id now (e ∷ es) t h =
      let t' = handle_event cr sr pr rr cache to_upper to_number true run id e now t in
      served-Exact (serves e) _ _ t h (λ k.
        then-Exact t t' _ (handle-Exact run id e now t) (loop-Exact serves run id now es t' k))

  served_all :
      (sv : Serving) (rest : Bool × Totals) (lost t : Totals)
      → sv ≡ serving
      → rest.0 ≡ true
      → (served cr sr pr rr cache to_upper to_number sv rest lost t).0 ≡ true
  unfolding served
  served_all serving rest lost t h k = k
  served_all not_recording rest lost t h k = absurd cc
  served_all refusing rest lost t h k = absurd cc

  loop_reaches :
      (serves : ChainEvent → Serving) (run : ReconciliationRun) (id : String) (now : ℕ)
      (es : List ChainEvent) (t : Totals)
      → ((e : ChainEvent) → serves e ≡ serving)
      → (event_loop cr sr pr rr cache to_upper to_number serves run id now es t).0 ≡ true
  unfolding event_loop
  loop_reaches serves run id now [] t h = refl
  loop_reaches serves run id now (e ∷ es) t h =
      served_all (serves e) _ _ t (h e) (loop_reaches serves run id now es _ h)

  abbrev pub State : Type 0
  State = ServiceState cr sr pr rr cache to_upper to_number

  -- What a run leaves that came to the end of its events.
  pub record Finished (s : State) (id : String) (answer : Option ReconciliationRun × State)
      : Type 0 where
    pub run : ReconciliationRun
    pub new : List ReconciliationDiscrepancy
    pub kinds : Breakdown
    pub answered : answer.0 ≡ some run
    pub stored : rr.find_one answer.1.runs id ≡ some run
    pub status : run.status ≡ completed
    pub rows : answer.1.rows ≡ new ++ s.rows
    pub counted_rows : run.discrepancy_count ≡ length new
    pub breakdown : run.discrepancy_breakdown ≡ some kinds
    pub breakdown_total : total kinds ≡ length new
    pub split : run.repaired_count + run.quarantined_count ≤ run.discrepancy_count

  finish_counts :
      (r : Bool × Totals) (s : State) (id : String) (run : ReconciliationRun) (scanned : ℕ)
      (lock : cache.Store)
      → r.0 ≡ true
      → Exact (tally_of cr sr pr rr cache to_upper to_number s) r.1
      → let run' = finish cr sr pr rr cache to_upper to_number r run scanned in
        Finished s id (
          some run',
          record s {
            tables = r.1.tables;
            rows = r.1.rows;
            runs = rr.save (rr.save s.runs id run) id run';
            lock = lock;
          },
        )
  unfolding finish
  finish_counts (false, t) s id run scanned lock h e = absurd cc
  finish_counts (true, t) s id run scanned lock h e = record {
    run = _;
    new = e.new;
    kinds = t.breakdown;
    answered = refl;
    stored = rr.find_one-save_self _ _ _;
    status = refl;
    rows = e.rows;
    counted_rows = omega (arith, e.found_rows);
    breakdown = refl;
    breakdown_total = omega (arith, e.kinds);
    split = omega (arith, e.split);
  }

  -- If the database serves every event, a run completes: its count of discrepancies and the sum of
  -- its breakdown are the number of rows that it recorded, and the repaired and the quarantined ones
  -- are together no more.
  pub run_completes :
      (s : State) (id : String) (run : ReconciliationRun) (chain : Chain)
      (serves : ChainEvent → Serving) (now : ℕ)
      → rr.find_one s.runs id ≡ some run
      → ((e : ChainEvent) → serves e ≡ serving)
      → Finished s id (execute_run cr sr pr rr cache to_upper to_number s id chain serves now)
  unfolding execute_run execute_found
  run_completes s id run chain serves now h served_ok =
      let run' : ReconciliationRun = record run { status = running } in
      let es = fetch_events_for_range chain run.contract_ids run.from_ledger run.to_ledger in
      let t = tally_of cr sr pr rr cache to_upper to_number s in
      let reached = loop_reaches serves run' id now es t served_ok in
      rw h (
        finish_counts _ s id run' (length es) _ reached
          (loop-Exact serves run' id now es t reached))
