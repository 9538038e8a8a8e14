-- ===== src/Reconciliation/Lock.antt =====
-- The lock of a network in packages/backend/src/reconciliation/reconciliation.service.ts.
use Prim.Native.String.{String}
use backit_on_stellar.Prelude.{
  ℕ, ◌+◌, ◌≤◌, ◌<◌, ◌≡◌, ◌≢◌, ◌∙◌, refl, sym, true, false, List, some, arith, ltb,
}
use backit_on_stellar.Prelude.Repo.{Repo}
use backit_on_stellar.Payouts.{Staker, PayoutClaim}
use backit_on_stellar.Reconciliation.{Call, ChainEvent}
use backit_on_stellar.Reconciliation.Run.{
  Cache, ReconciliationRun, Serving, Chain, lock_key, lock_ttl, Request, StartAnswer, conflict,
  started,
}
use backit_on_stellar.Reconciliation.Execute.{
  ServiceState, execute_run, execute_found, start_run, start_unless, new_run,
}

module _ (cr : Repo String Call) (sr : Repo Staker (List ℕ)) (pr : Repo Staker PayoutClaim)
    (rr : Repo String ReconciliationRun) (cache : Cache) (to_upper : String → String)
    (to_number : String → ℕ) (standard : String) where
  abbrev pub State : Type 0
  State = ServiceState cr sr pr rr cache to_upper to_number

  abbrev pub start : State → String → Request → ℕ → StartAnswer × State
  start s id req now = start_run cr sr pr rr cache to_upper to_number s id req standard now

  abbrev pub execute : State → String → Chain → (ChainEvent → Serving) → ℕ → State
  execute s id chain serves now =
      (execute_run cr sr pr rr cache to_upper to_number s id chain serves now).1

  abbrev pub run_of : Request → ReconciliationRun
  run_of req = new_run cr sr pr rr cache to_upper to_number req standard

  abbrev pub Free : State → Request → ℕ → Type 0
  Free s req now = cache.has s.lock (lock_key (run_of req).network) now ≡ false

  unlocked_starts :
      (s : State) (id : String) (req : Request) (now : ℕ)
      → req.from_ledger ≤ req.to_ledger
      → Free s req now
      → (start s id req now).0 ≡ started (run_of req)
  unfolding start_run start_unless
  unlocked_starts s id req now range free =
      let r : ltb req.to_ledger req.from_ledger ≡ false = ground arith in rw r (rw free refl)

  -- A start that is let through takes the lock and stores its run.
  started_state :
      (s : State) (id : String) (req : Request) (now : ℕ)
      → req.from_ledger ≤ req.to_ledger
      → Free s req now
      → ((start s id req now).1.lock
          ≡ cache.set s.lock (lock_key (run_of req).network) lock_ttl now)
        × (rr.find_one (start s id req now).1.runs id ≡ some (run_of req))
  unfolding start_run start_unless
  started_state s id req now range free =
      let r : ltb req.to_ledger req.from_ledger ≡ false = ground arith in
      rw r (rw free (refl, rr.find_one-save_self _ _ _))

  started_frame :
      (s : State) (id other : String) (req : Request) (now : ℕ)
      → req.from_ledger ≤ req.to_ledger
      → Free s req now
      → id ≢ other
      → rr.find_one (start s id req now).1.runs other ≡ rr.find_one s.runs other
  unfolding start_run start_unless
  started_frame s id other req now range free ne =
      let r : ltb req.to_ledger req.from_ledger ≡ false = ground arith in
      rw r (rw free (rr.find_one-save_ne _ _ _ _ ne))

  -- Executing a stored run frees the lock of its network.
  executed_Free :
      (s : State) (id : String) (run : ReconciliationRun) (chain : Chain)
      (serves : ChainEvent → Serving) (at now : ℕ)
      → rr.find_one s.runs id ≡ some run
      → cache.has
          (execute_run cr sr pr rr cache to_upper to_number s id chain serves at).1.lock
          (lock_key run.network)
          now
        ≡ false
  unfolding execute_run execute_found
  executed_Free s id run chain serves at now h = rw h (cache.has-del _ _ _)

  -- While the lock is live, a start is refused.
  locked_conflicts :
      (s : State) (id : String) (req : Request) (now : ℕ)
      → req.from_ledger ≤ req.to_ledger
      → cache.has s.lock (lock_key (run_of req).network) now ≡ true
      → start s id req now ≡ (conflict, s)
  unfolding start_run start_unless
  locked_conflicts s id req now range locked =
      let r : ltb req.to_ledger req.from_ledger ≡ false = ground arith in rw r (rw locked refl)

  -- On a network that is not locked, a start with a proper range of ledgers succeeds. For the next
  -- 900000 milliseconds a second start on that network is refused and changes nothing; but after the
  -- execution of the first run, whether it completed or failed, the second start succeeds at any time.
  pub lock_cycle :
      (s : State) (id other : String) (req again : Request) (chain : Chain)
      (serves : ChainEvent → Serving) (now later at after : ℕ)
      → req.from_ledger ≤ req.to_ledger
      → again.from_ledger ≤ again.to_ledger
      → (run_of again).network ≡ (run_of req).network
      → Free s req now
      → later < now + lock_ttl
      → let s1 = (start s id req now).1 in
        ((start s id req now).0 ≡ started (run_of req))
        × (start s1 other again later ≡ (conflict, s1))
        × ((start (execute s1 id chain serves at) other again after).0 ≡ started (run_of again))
  lock_cycle s id other req again chain serves now later at after range range' same free live =
      let (lock, row) = started_state s id req now range free in
      let s1 = (start s id req now).1 in
      let held : cache.has s1.lock (lock_key (run_of again).network) later ≡ true =
        rw lock (rw same (cache.has-set_live _ _ _ _ _ live)) in
      let gone : Free (execute s1 id chain serves at) again after =
        rw same (executed_Free s1 id (run_of req) chain serves at after row) in
      (
        unlocked_starts s id req now range free,
        locked_conflicts s1 other again later range' held,
        unlocked_starts (execute s1 id chain serves at) other again after range' gone,
      )

  -- A run that takes longer than the lock lives loses it: a second run on the network starts, and when
  -- the first ends it frees the lock of the second, so a third starts while the second has not ended.
  pub lock_stolen :
      (s : State) (first second third : String) (req : Request) (chain : Chain)
      (serves : ChainEvent → Serving) (now later at after : ℕ)
      → req.from_ledger ≤ req.to_ledger
      → first ≢ second
      → Free s req now
      → now + lock_ttl ≤ later
      → let s1 = (start s first req now).1 in
        let s2 = (start s1 second req later).1 in
        ((start s1 second req later).0 ≡ started (run_of req))
        × ((start (execute s2 first chain serves at) third req after).0 ≡ started (run_of req))
  lock_stolen s first second third req chain serves now later at after range apart free expired =
      let (lock, row) = started_state s first req now range free in
      let s1 = (start s first req now).1 in
      let free1 : Free s1 req later = rw lock (cache.has-set_expired _ _ _ _ _ expired) in
      let s2 = (start s1 second req later).1 in
      let row2 : rr.find_one s2.runs first ≡ some (run_of req) =
        started_frame s1 second first req later range free1 (λ e. apart (sym e)) ∙ row in
      let gone : Free (execute s2 first chain serves at) req after =
        executed_Free s2 first (run_of req) chain serves at after row2 in
      (
        unlocked_starts s1 second req later range free1,
        unlocked_starts (execute s2 first chain serves at) third req after range gone,
      )
