-- ===== src/Oracle/Resolves.antt =====
-- What resolveMarket of packages/backend/src/oracle/oracle.service.ts stores and announces.
use Prim.Native.String.{String}
use backit_on_stellar.Prelude.{
  ℕ, ◌+◌, ◌≡◌, ◌≢◌, refl, Bool, true, false, not, ◌&&◌, Option, none, some, if◌then◌else◌,
  Bool-cases, inl, inr, ◌==◌, ==_iff,
}
use backit_on_stellar.Prelude.Repo.{Repo}
use backit_on_stellar.Oracle.Prices.{fetch_horizon_midpoint, is_deviating}
use backit_on_stellar.Oracle.Calls.{
  OracleCallStatus, draft, opened, paused, settling, resolved_yes, resolved_no, OracleCall, Oracle,
  Outside, Result, ok, thrown, Reason, call_save_failed, outcome_save_failed, sign_failed,
  OracleOutcome, evaluate_outcome, sign_outcome, status_of,
}
use backit_on_stellar.Oracle.{with_call, save_call}
use backit_on_stellar.Oracle.Resolution.{
  resolve_market, resolve_found, cross_check, submit, halt_deviating, resolve_paused, settle,
  store_outcome, submit_signed, outcome_row, data_of,
}
use backit_on_stellar.Oracle.Lifecycle.{is_active, announced, stored, settlement}

-- Whether the cross-check with the order book stops a resolution.
abbrev pub is_halted : Outside → String → Option ℕ → Bool
is_halted out observed none = false
is_halted out observed (some mid) =
    is_deviating out.doubles out.threshold_bps (out.doubles.parse_float observed) mid

abbrev pub midpoint : Outside → OracleCall → Option ℕ
midpoint out c = fetch_horizon_midpoint out.doubles out.horizon c.base_token c.quote_token

module _ (db : Repo ℕ OracleCall) where
  -- The call is resolved with the price that its column keeps, announced and its outcome stored.
  abbrev pub Settles :
      String
      → Outside
      → Oracle db.Table
      → ℕ
      → OracleCall
      → String
      → ℕ
      → Result Unit × Oracle db.Table
      → Type 0
  Settles kept out s id c observed now (answer, s') =
      (answer ≡ ok tt)
      × (db.find_one s'.calls id
          ≡ some (record c {
            status = status_of (evaluate_outcome out.doubles c observed);
            final_price = some kept;
            resolved_at = some now;
            processed_at = some now;
          }))
      × (announced id s'.events ≡ 1 + announced id s.events)
      × (stored id s'.outcomes ≡ 1 + stored id s.outcomes)

  -- An outcome is stored, but the call is as it was, nothing is announced and the resolution throws.
  abbrev pub Orphans : Oracle db.Table → ℕ → OracleCall → Result Unit × Oracle db.Table → Type 0
  Orphans s id c (answer, s') =
      (answer ≡ thrown call_save_failed)
      × (db.find_one s'.calls id ≡ some c)
      × (s'.events ≡ s.events)
      × (stored id s'.outcomes ≡ 1 + stored id s.outcomes)

  -- The call keeps its status and settlement; nothing is announced or stored.
  abbrev pub Keeps : Oracle db.Table → ℕ → OracleCall → Result Unit × Oracle db.Table → Type 0
  Keeps s id c (answer, s') =
      ((c' : OracleCall) × (db.find_one s'.calls id ≡ some c')
        × (c'.status ≡ c.status)
        × (settlement c' ≡ settlement c))
      × (s'.events ≡ s.events)
      × (s'.outcomes ≡ s.outcomes)

  -- Told whether the outcome is stored and what the column keeps of the final price.
  abbrev pub Resolves :
      Bool
      → Option String
      → Outside
      → Oracle db.Table
      → ℕ
      → OracleCall
      → String
      → ℕ
      → Result Unit × Oracle db.Table
      → Type 0
  Resolves false kept out s id c observed now r = (r.0 ≢ ok tt) × Keeps s id c r
  Resolves true none out s id c observed now r = Orphans s id c r
  Resolves true (some kept) out s id c observed now r = Settles kept out s id c observed now r

  -- There is a signature and the outcome with it is saved.
  abbrev pub stores : Option String → Outside → ℕ → OracleCall → String → Bool
  stores none out id c observed = false
  stores (some signature) out id c observed =
      out.saves_outcome (outcome_row db out id c observed signature)

  abbrev pub Submits :
      Outside
      → Oracle db.Table
      → ℕ
      → OracleCall
      → String
      → ℕ
      → Result Unit × Oracle db.Table
      → Type 0
  Submits out s id c observed now r =
      Resolves (stores (sign_outcome out (data_of db out id c observed now)) out id c observed)
        (out.final_price_column observed) out s id c observed now r

  failed_why : (why : Reason) → thrown why ≢ ok tt
  failed_why why e = cc

  settle-Resolves :
      (out : Outside) (s : Oracle db.Table) (saves : Bool) (row : OracleOutcome)
      (kept : Option String) (id : ℕ) (c : OracleCall) (observed : String) (mid : Option ℕ)
      (now : ℕ)
      → out.final_price_column observed ≡ kept
      → row.call_id ≡ id
      → db.find_one s.calls id ≡ some c
      → Resolves saves kept out s id c observed now
          (store_outcome db saves row out s id c observed mid now)
  unfolding store_outcome settle save_call announced stored
  settle-Resolves out s false row kept id c observed mid now e own h =
      (failed_why outcome_save_failed, ((c, h, refl, refl), refl, refl))
  settle-Resolves out s true row none id c observed mid now e own h =
      let same : (row.call_id == id) ≡ true = (==_iff row.call_id id).1 own in
      rw e (refl, h, refl, rw same refl)
  settle-Resolves out s true row (some kept) id c observed mid now e own h =
      let same : (id == id) ≡ true = (==_iff id id).1 refl in
      let own' : (row.call_id == id) ≡ true = (==_iff row.call_id id).1 own in
      rw e (refl, db.find_one-save_self _ _ _, rw same refl, rw own' refl)

  signed-Resolves :
      (out : Outside) (s : Oracle db.Table) (signature : Option String) (id : ℕ) (c : OracleCall)
      (observed : String) (mid : Option ℕ) (now : ℕ)
      → db.find_one s.calls id ≡ some c
      → Resolves
          (stores signature out id c observed)
          (out.final_price_column observed)
          out
          s
          id
          c
          observed
          now
          (submit_signed db signature out s id c observed mid now)
  unfolding submit_signed
  signed-Resolves out s none id c observed mid now h =
      (failed_why sign_failed, ((c, h, refl, refl), refl, refl))
  signed-Resolves out s (some signature) id c observed mid now h =
      settle-Resolves out s _ (outcome_row db out id c observed signature) _ id c observed mid now
        refl refl h

  submit-Submits :
      (out : Outside) (s : Oracle db.Table) (id : ℕ) (c : OracleCall) (observed : String)
      (mid : Option ℕ) (now : ℕ)
      → db.find_one s.calls id ≡ some c
      → Submits out s id c observed now (submit db out s id c observed mid now)
  unfolding submit
  submit-Submits out s id c observed mid now h = signed-Resolves out s _ id c observed mid now h

  cross_check-Settles :
      (out : Outside) (s : Oracle db.Table) (id : ℕ) (c : OracleCall) (observed : String)
      (mid : Option ℕ) (now : ℕ)
      → db.find_one s.calls id ≡ some c
      → let r = cross_check db out s id c observed mid now in
        if not (is_halted out observed mid)
        then Submits out s id c observed now r
        else Keeps s id c r
  unfolding cross_check halt_deviating save_call
  cross_check-Settles out s id c observed none now h = submit-Submits out s id c observed none now h
  cross_check-Settles out s id c observed (some mid) now h =
      elim (Bool-cases (is_halted out observed (some mid))) [
        | inl t ↦ rw t ((_, db.find_one-save_self _ _ _, refl, refl), refl, refl)
        | inr t ↦ rw t (submit-Submits out s id c observed (some mid) now h)
      ]

  resolve_found-Settles :
      (out : Outside) (s : Oracle db.Table) (id : ℕ) (c : OracleCall) (observed : String) (now : ℕ)
      (st : OracleCallStatus)
      → db.find_one s.calls id ≡ some c
      → let r = resolve_found db st out s id c observed now in
        if is_active st && not (is_halted out observed (midpoint out c))
        then Submits out s id c observed now r
        else Keeps s id c r
  unfolding resolve_found resolve_paused save_call
  resolve_found-Settles out s id c observed now opened h =
      cross_check-Settles out s id c observed _ now h
  resolve_found-Settles out s id c observed now settling h =
      cross_check-Settles out s id c observed _ now h
  resolve_found-Settles out s id c observed now paused h =
      ((_, db.find_one-save_self _ _ _, refl, refl), refl, refl)
  resolve_found-Settles out s id c observed now draft h = ((c, h, refl, refl), refl, refl)
  resolve_found-Settles out s id c observed now resolved_yes h = ((c, h, refl, refl), refl, refl)
  resolve_found-Settles out s id c observed now resolved_no h = ((c, h, refl, refl), refl, refl)

  -- A stored call that is open or settling, at a price that the cross-check with the order book does
  -- not stop: if there is a signature and the outcome and the call are saved, the resolution succeeds,
  -- the call gets the status that `evaluateOutcome` gives and the final price that its column keeps,
  -- one outcome of it is stored and it is announced. If only the save of the call fails, the outcome is
  -- stored all the same, but the call is as it was, nothing is announced and the resolution throws; if
  -- there is no signature or the outcome is not saved, it throws, and the call keeps its status and
  -- settlement. So does every other call, and then nothing is stored or announced.
  pub resolve-Settles :
      (out : Outside) (s : Oracle db.Table) (id : ℕ) (c : OracleCall) (observed : String) (now : ℕ)
      → db.find_one s.calls id ≡ some c
      → let r = resolve_market db out s id observed now in
        if is_active c.status && not (is_halted out observed (midpoint out c))
        then Submits out s id c observed now r
        else Keeps s id c r
  unfolding resolve_market with_call
  resolve-Settles out s id c observed now h =
      rw h (resolve_found-Settles out s id c observed now c.status h)
