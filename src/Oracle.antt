-- ===== src/Oracle.antt =====
-- packages/backend/src/oracle/oracle.service.ts: the operations on calls and their reports, over the
-- rows of Calls.
pub mod Prices
pub mod Calls
pub mod Disputes
pub mod Deviation
pub mod Halts
pub mod Resolution
pub mod Lifecycle
pub mod Effects
pub mod Traces
mod Tests
pub mod Reports
pub mod Resolves
pub mod Settled
use Prim.Native.String.{String}
use backit_on_stellar.Prelude.{ℕ, Bool, true, false, List, Option, none, some}
use backit_on_stellar.Prelude.Repo.{Repo}
use backit_on_stellar.Oracle.Calls.{
  OracleCallStatus, opened, paused, OracleCall, MarketStatus, Outcome, not_found, not_paused,
  cannot_force, Result, ok, thrown, Oracle, market_status, is_opened, status_of, new_call, reported,
  is_resolvable, kept_price, force_resolved, call_save_failed,
}

module _ (db : Repo ℕ OracleCall) where
  -- `findCallOrThrow`, and what is done with the call that it finds.
  unfoldable pub with_call :
      {A : Type 0}
      → Option OracleCall
      → Oracle db.Table
      → (OracleCall → Result A × Oracle db.Table)
      → Result A × Oracle db.Table
  with_call none s k = (thrown not_found, s)
  with_call (some c) s k = k c

  unfoldable pub save_call : Oracle db.Table → ℕ → OracleCall → Oracle db.Table
  save_call s id c = record s { calls = db.save s.calls id c }

  unfoldable pub get_market_status : Oracle db.Table → ℕ → Result MarketStatus × Oracle db.Table
  unfolding with_call market_status
  get_market_status s id =
      with_call (db.find_one s.calls id) s (λ c. (ok (market_status c.status), s))

  -- The database chooses the id.
  unfoldable pub create_oracle_call :
      Oracle db.Table → ℕ → String → List ℕ → List ℕ → ℕ → ℕ → Oracle db.Table
  unfolding save_call
  create_oracle_call s id pair base quote strike time =
      save_call s id (new_call pair base quote strike time)

  unfoldable pub record_report : Oracle db.Table → ℕ → Result OracleCall × Oracle db.Table
  unfolding with_call save_call is_opened
  record_report s id =
      with_call (db.find_one s.calls id) s (λ c. (ok (reported c), save_call s id (reported c)))

  unfoldable pub unpause_found :
      OracleCallStatus → Oracle db.Table → ℕ → OracleCall → Result OracleCall × Oracle db.Table
  unfolding save_call
  unpause_found paused s id c =
      let c' : OracleCall = record c { status = opened; failed_at = none } in
      (ok c', save_call s id c')
  unpause_found other s id c = (thrown (not_paused other), s)

  unfoldable pub unpause_call : Oracle db.Table → ℕ → Result OracleCall × Oracle db.Table
  unfolding with_call unpause_found
  unpause_call s id = with_call (db.find_one s.calls id) s (λ c. unpause_found c.status s id c)

  -- The save of a forced call: what the column of the final price keeps of the price, if the save does
  -- not fail.
  unfoldable pub force_saved :
      Option (Option String)
      → Oracle db.Table
      → ℕ
      → OracleCall
      → Outcome
      → Option String
      → ℕ
      → Result OracleCall × Oracle db.Table
  unfolding save_call status_of
  force_saved none s id c resolution price now = (thrown call_save_failed, s)
  force_saved (some kept) s id c resolution price now = (
    ok (force_resolved c resolution price now),
    save_call s id (force_resolved c resolution kept now),
  )

  unfoldable pub force_if :
      Bool
      → (String → Option String)
      → Oracle db.Table
      → ℕ
      → OracleCall
      → Outcome
      → Option String
      → ℕ
      → Result OracleCall × Oracle db.Table
  unfolding force_saved
  force_if true column s id c resolution price now =
      force_saved (kept_price column price) s id c resolution price now
  force_if false column s id c resolution price now = (thrown (cannot_force c.status), s)

  unfoldable pub admin_resolve_call :
      (String → Option String)
      → Oracle db.Table
      → ℕ
      → Outcome
      → Option String
      → ℕ
      → Result OracleCall × Oracle db.Table
  unfolding with_call force_if is_resolvable
  admin_resolve_call column s id resolution price now =
      with_call (db.find_one s.calls id) s
        (λ c. force_if (is_resolvable c.status) column s id c resolution price now)
