-- ===== src/Oracle/Effects.antt =====
-- What each operation of packages/backend/src/oracle/oracle.service.ts does to the call that it is
-- about: a step of the lifecycle of a call.
use Prim.Native.String.{String}
use backit_on_stellar.Prelude.{
  ℕ, ◌+◌, ◌≡◌, ◌≢◌, refl, Bool, true, false, List, ◌∷◌, Option, none, some, if◌then◌else◌, ◌==◌,
  leb, arith, Bool-cases, inl, inr,
}
use backit_on_stellar.Prelude.Repo.{Repo}
use backit_on_stellar.Oracle.Prices.{is_deviating}
use backit_on_stellar.Oracle.Calls.{
  OracleCallStatus, draft, opened, paused, settling, resolved_yes, resolved_no, OracleCall, Outcome,
  yes, no, Oracle, OracleOutcome, Outside, HealthLog, reported, is_opened, is_resolvable, status_of,
  evaluate_outcome, report_threshold,
}
use backit_on_stellar.Oracle.{save_call, unpause_found, force_if, force_saved}
use backit_on_stellar.Oracle.Resolution.{
  resolve_found, resolve_paused, cross_check, submit, halt_deviating, settle, store_outcome,
  submit_signed,
}
use backit_on_stellar.Oracle.Lifecycle.{
  is_terminal, is_active, Lifecycle, stays, pauses, unpauses, settles, orphans, forced, announced,
  stored, announcements, storings,
}

module _ (db : Repo ℕ OracleCall) where
  -- A state that differs from another in what one step of one call does.
  pub record Effect (admin : Bool) (s s' : Oracle db.Table) (j : ℕ) (c : OracleCall) : Type 0 where
    pub after : OracleCall
    pub step : Lifecycle admin c after
    pub row : db.find_one s'.calls j ≡ some after
    pub others : (k : ℕ) → j ≢ k → db.find_one s'.calls k ≡ db.find_one s.calls k
    pub events :
        (k : ℕ)
        → announced k s'.events ≡ (if j == k then announcements step else 0) + announced k s.events
    pub outcomes :
        (k : ℕ) → stored k s'.outcomes ≡ (if j == k then storings step else 0) + stored k s.outcomes

  if_zero : (b : Bool) (n : ℕ) → n ≡ (if b then 0 else 0) + n
  if_zero true n = omega arith
  if_zero false n = omega arith

  if_one : (b : Bool) (n : ℕ) → (if b then 1 + n else n) ≡ (if b then 1 else 0) + n
  if_one true n = omega arith
  if_one false n = omega arith

  pub quiet-Effect :
      {admin : Bool} (s : Oracle db.Table) (log : List HealthLog) (j : ℕ) (c : OracleCall)
      → db.find_one s.calls j ≡ some c
      → Effect admin s (record s { health = log }) j c
  quiet-Effect s log j c h = record {
    after = c;
    step = stays refl refl;
    row = h;
    others = λ k ne. refl;
    events = λ k. if_zero (j == k) _;
    outcomes = λ k. if_zero (j == k) _;
  }

  saved-Effect :
      {admin : Bool} (s : Oracle db.Table) (log : List HealthLog) (j : ℕ) (c c' : OracleCall)
      (m : Lifecycle admin c c')
      → announcements m ≡ 0
      → storings m ≡ 0
      → Effect admin s (record s { calls = db.save s.calls j c'; health = log }) j c
  saved-Effect s log j c c' m e f = record {
    after = c';
    step = m;
    row = db.find_one-save_self _ _ _;
    others = λ k ne. db.find_one-save_ne _ _ _ _ ne;
    events = λ k. rw e (if_zero (j == k) _);
    outcomes = λ k. rw f (if_zero (j == k) _);
  }

  status_of-terminal : (o : Outcome) → is_terminal (status_of o) ≡ true
  unfolding status_of
  status_of-terminal yes = refl
  status_of-terminal no = refl

  settle-Effect :
      (out : Outside) (s : Oracle db.Table) (row : OracleOutcome) (kept : Option String) (j : ℕ)
      (c : OracleCall) (observed : String) (mid : Option ℕ) (now : ℕ)
      → is_active c.status ≡ true
      → row.call_id ≡ j
      → db.find_one s.calls j ≡ some c
      → Effect false s
          (settle db kept out (record s { outcomes = row ∷ s.outcomes }) j c observed mid now).1
          j
          c
  unfolding settle save_call announced stored
  settle-Effect out s row none j c observed mid now h own found = record {
    after = c;
    step = orphans h refl refl;
    row = found;
    others = λ k ne. refl;
    events = λ k. if_zero (j == k) _;
    outcomes = λ k. rw own (if_one (j == k) _);
  }
  settle-Effect out s row (some kept) j c observed mid now h own found = record {
    after = record c {
      status = status_of (evaluate_outcome out.doubles c observed);
      final_price = some kept;
      resolved_at = some now;
      processed_at = some now;
    };
    step = settles h (status_of-terminal _);
    row = db.find_one-save_self _ _ _;
    others = λ k ne. db.find_one-save_ne _ _ _ _ ne;
    events = λ k. if_one (j == k) _;
    outcomes = λ k. rw own (if_one (j == k) _);
  }

  store-Effect :
      (out : Outside) (s : Oracle db.Table) (saves : Bool) (row : OracleOutcome) (j : ℕ)
      (c : OracleCall) (observed : String) (mid : Option ℕ) (now : ℕ)
      → is_active c.status ≡ true
      → row.call_id ≡ j
      → db.find_one s.calls j ≡ some c
      → Effect false s (store_outcome db saves row out s j c observed mid now).1 j c
  unfolding store_outcome
  store-Effect out s false row j c observed mid now h own found = quiet-Effect s s.health j c found
  store-Effect out s true row j c observed mid now h own found =
      settle-Effect out s row (out.final_price_column observed) j c observed mid now h own found

  signed-Effect :
      (out : Outside) (s : Oracle db.Table) (signature : Option String) (j : ℕ) (c : OracleCall)
      (observed : String) (mid : Option ℕ) (now : ℕ)
      → is_active c.status ≡ true
      → db.find_one s.calls j ≡ some c
      → Effect false s (submit_signed db signature out s j c observed mid now).1 j c
  unfolding submit_signed
  signed-Effect out s none j c observed mid now h found = quiet-Effect s s.health j c found
  signed-Effect out s (some signature) j c observed mid now h found =
      store-Effect out s _ _ j c observed mid now h refl found

  submit-Effect :
      (out : Outside) (s : Oracle db.Table) (j : ℕ) (c : OracleCall) (observed : String)
      (mid : Option ℕ) (now : ℕ)
      → is_active c.status ≡ true
      → db.find_one s.calls j ≡ some c
      → Effect false s (submit db out s j c observed mid now).1 j c
  unfolding submit
  submit-Effect out s j c observed mid now h found =
      signed-Effect out s _ j c observed mid now h found

  cross_check-Effect :
      (out : Outside) (s : Oracle db.Table) (j : ℕ) (c : OracleCall) (observed : String)
      (mid : Option ℕ) (now : ℕ)
      → is_active c.status ≡ true
      → db.find_one s.calls j ≡ some c
      → Effect false s (cross_check db out s j c observed mid now).1 j c
  unfolding cross_check halt_deviating save_call
  cross_check-Effect out s j c observed none now h found =
      submit-Effect out s j c observed none now h found
  cross_check-Effect out s j c observed (some mid) now h found =
      elim (Bool-cases
        (is_deviating out.doubles out.threshold_bps (out.doubles.parse_float observed) mid)) [
          | inl e ↦ rw e (saved-Effect s _ j c _ (stays refl refl) refl refl)
          | inr e ↦ rw e (submit-Effect out s j c observed (some mid) now h found)
        ]

  pub resolve-Effect :
      (out : Outside) (s : Oracle db.Table) (j : ℕ) (c : OracleCall) (observed : String) (now : ℕ)
      (st : OracleCallStatus)
      → c.status ≡ st
      → db.find_one s.calls j ≡ some c
      → Effect false s (resolve_found db st out s j c observed now).1 j c
  unfolding resolve_found resolve_paused save_call
  resolve-Effect out s j c observed now draft e h = quiet-Effect s _ j c h
  resolve-Effect out s j c observed now resolved_yes e h = quiet-Effect s _ j c h
  resolve-Effect out s j c observed now resolved_no e h = quiet-Effect s _ j c h
  resolve-Effect out s j c observed now paused e h =
      saved-Effect s _ j c _ (stays refl refl) refl refl
  resolve-Effect out s j c observed now opened e h =
      cross_check-Effect out s j c observed _ now (rw e refl) h
  resolve-Effect out s j c observed now settling e h =
      cross_check-Effect out s j c observed _ now (rw e refl) h

  report-Lifecycle :
      (c : OracleCall) (full : Bool) (st : OracleCallStatus)
      → leb report_threshold (c.report_count + 1) ≡ full
      → c.status ≡ st
      → (m : Lifecycle false c (reported c)) × (announcements m ≡ 0) × (storings m ≡ 0)
  unfolding is_opened
  report-Lifecycle c true opened e f =
      let g : (reported c).status ≡ paused = rw e (rw f) in (pauses f g e refl, refl, refl)
  report-Lifecycle c true draft e f =
      let g : (reported c).status ≡ c.status = rw e (rw f) in (stays g refl, refl, refl)
  report-Lifecycle c true paused e f =
      let g : (reported c).status ≡ c.status = rw e (rw f) in (stays g refl, refl, refl)
  report-Lifecycle c true settling e f =
      let g : (reported c).status ≡ c.status = rw e (rw f) in (stays g refl, refl, refl)
  report-Lifecycle c true resolved_yes e f =
      let g : (reported c).status ≡ c.status = rw e (rw f) in (stays g refl, refl, refl)
  report-Lifecycle c true resolved_no e f =
      let g : (reported c).status ≡ c.status = rw e (rw f) in (stays g refl, refl, refl)
  report-Lifecycle c false st e f =
      let g : (reported c).status ≡ c.status = rw e in (stays g refl, refl, refl)

  pub report-Effect :
      (s : Oracle db.Table) (j : ℕ) (c : OracleCall)
      → Effect false s (save_call db s j (reported c)) j c
  unfolding save_call
  report-Effect s j c =
      let m = report-Lifecycle c _ c.status refl refl in saved-Effect s s.health j c _ m.0 m.1 m.2

  pub unpause-Effect :
      (s : Oracle db.Table) (j : ℕ) (c : OracleCall) (st : OracleCallStatus)
      → c.status ≡ st
      → db.find_one s.calls j ≡ some c
      → Effect true s (unpause_found db st s j c).1 j c
  unfolding unpause_found save_call
  unpause-Effect s j c draft e h = quiet-Effect s _ j c h
  unpause-Effect s j c opened e h = quiet-Effect s _ j c h
  unpause-Effect s j c settling e h = quiet-Effect s _ j c h
  unpause-Effect s j c resolved_yes e h = quiet-Effect s _ j c h
  unpause-Effect s j c resolved_no e h = quiet-Effect s _ j c h
  unpause-Effect s j c paused e h = saved-Effect s _ j c _ (unpauses refl e refl refl) refl refl

  force_saved-Effect :
      (s : Oracle db.Table) (j : ℕ) (c : OracleCall) (o : Outcome) (price : Option String) (now : ℕ)
      (kept : Option (Option String))
      → is_resolvable c.status ≡ true
      → db.find_one s.calls j ≡ some c
      → Effect true s (force_saved db kept s j c o price now).1 j c
  unfolding save_call force_saved
  force_saved-Effect s j c o price now none h g = quiet-Effect s s.health j c g
  force_saved-Effect s j c o price now (some kept) h g =
      saved-Effect s s.health j c _ (forced refl h (status_of-terminal o)) refl refl

  pub force-Effect :
      (column : String → Option String) (s : Oracle db.Table) (j : ℕ) (c : OracleCall) (o : Outcome)
      (price : Option String) (now : ℕ) (resolvable : Bool)
      → is_resolvable c.status ≡ resolvable
      → db.find_one s.calls j ≡ some c
      → Effect true s (force_if db resolvable column s j c o price now).1 j c
  unfolding force_if
  force-Effect column s j c o price now true h g = force_saved-Effect s j c o price now _ h g
  force-Effect column s j c o price now false h g = quiet-Effect s s.health j c g
