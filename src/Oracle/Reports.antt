-- ===== src/Oracle/Reports.antt =====
-- Reports of a call in packages/backend/src/oracle/oracle.service.ts.
use backit_on_stellar.Prelude.{
  ℕ, zero, suc, ◌+◌, ◌≤◌, ◌≡◌, refl, true, false, none, some, leb, if◌then◌else◌, arith, Bool-cases,
  inl, inr,
}
use backit_on_stellar.Prelude.Repo.{Repo}
use backit_on_stellar.Oracle.Calls.{opened, paused, OracleCall, Oracle, reported, is_opened}
use backit_on_stellar.Oracle.{with_call, save_call, record_report, unpause_call, unpause_found}
use backit_on_stellar.Oracle.Lifecycle.{settlement}

module _ (db : Repo ℕ OracleCall) where
  abbrev pub reports : ℕ → Oracle db.Table → ℕ → Oracle db.Table
  reports zero s id = s
  reports (suc n) s id = (record_report db (reports n s id) id).1

  reported_status :
      (c : OracleCall) (n : ℕ)
      → c.report_count ≡ n
      → c.status ≡ (if leb 5 n then paused else opened)
      → (reported c).status ≡ (if leb 5 (n + 1) then paused else opened)
  unfolding is_opened
  reported_status c n e f = elim (Bool-cases (leb 5 n)) [
    | inl t ↦
        let f' : c.status ≡ paused = rw t at f in
        let u : leb 5 (n + 1) ≡ true = ground arith in rw e (rw u (rw f' refl))
    | inr t ↦
        let f' : c.status ≡ opened = rw t at f in
        elim (Bool-cases (leb 5 (n + 1))) [
          | inl u ↦ rw e (rw u (rw f' refl))
          | inr u ↦ rw e (rw u f')
        ]
  ]

  report_row :
      (s : Oracle db.Table) (id : ℕ) (c : OracleCall)
      → db.find_one s.calls id ≡ some c
      → db.find_one (record_report db s id).1.calls id ≡ some (reported c)
  unfolding record_report with_call save_call
  report_row s id c h = rw h (db.find_one-save_self _ _ _)

  -- After any number of reports, and nothing else, of an open call without reports, the call counts
  -- them all, it is hidden exactly from the fifth on, and from the fifth on it is paused instead of
  -- open; its settlement is as it was.
  pub reports_count :
      (s : Oracle db.Table) (id n : ℕ) (c : OracleCall)
      → db.find_one s.calls id ≡ some c
      → c.status ≡ opened
      → c.report_count ≡ 0
      → c.is_hidden ≡ false
      → (c' : OracleCall) × (db.find_one (reports n s id).calls id ≡ some c')
        × (c'.report_count ≡ n)
        × (c'.is_hidden ≡ leb 5 n)
        × (c'.status ≡ (if leb 5 n then paused else opened))
        × (settlement c' ≡ settlement c)
  reports_count s id zero c h st count hidden = (c, h, count, hidden, st, refl)
  reports_count s id (suc n) c h st count hidden =
      let (c', a, b, d, e, f) = reports_count s id n c h st count hidden in
      let k : n + 1 ≡ suc n = omega arith in
      let k' : c'.report_count + 1 ≡ suc n = omega (arith, b) in
      let st' : (reported c').status ≡ (if leb 5 (suc n) then paused else opened) =
        let g = reported_status c' n b e in rw k at g in
      (reported c', report_row (reports n s id) id c' a, k', rw k' refl, st', f)

  -- An administrator's unpausing of a call that was paused by reports opens it again, but leaves its
  -- count of reports and leaves it hidden; so a single further report pauses it again.
  pub reopened_pauses_again :
      (s : Oracle db.Table) (id : ℕ) (c : OracleCall)
      → db.find_one s.calls id ≡ some c
      → c.status ≡ paused
      → c.is_hidden ≡ true
      → 5 ≤ c.report_count
      → let s' = (unpause_call db s id).1 in
        ((c' : OracleCall) × (db.find_one s'.calls id ≡ some c')
          × (c'.status ≡ opened)
          × (c'.is_hidden ≡ true))
        × ((c'' : OracleCall) × (db.find_one (record_report db s' id).1.calls id ≡ some c'')
            × (c''.status ≡ paused))
  unfolding unpause_call unpause_found with_call save_call is_opened
  reopened_pauses_again s id c h st hidden many =
      let c' : OracleCall = record c { status = opened; failed_at = none } in
      let row : db.find_one (unpause_call db s id).1.calls id ≡ some c' =
        rw h (rw st (db.find_one-save_self _ _ _)) in
      let u : leb 5 (c.report_count + 1) ≡ true = ground arith in
      let st' : (reported c').status ≡ paused = rw u refl in
      ((c', row, refl, hidden), (reported c', report_row _ id c' row, st'))
