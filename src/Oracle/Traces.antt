-- ===== src/Oracle/Traces.antt =====
-- Sequences of operations of packages/backend/src/oracle/oracle.service.ts on any calls.
use Prim.Native.String.{String}
use backit_on_stellar.Prelude.{
  ℕ, ◌+◌, ◌≡◌, ◌≢◌, refl, sym, ◌∙◌, Bool, true, false, List, [], ◌∷◌, Option, none, some, ◌==◌,
  ==_iff, arith, Bool-cases, inl, inr,
}
use backit_on_stellar.Prelude.Repo.{Repo}
use backit_on_stellar.Oracle.Calls.{OracleCall, Outcome, Oracle, Outside, Result}
use backit_on_stellar.Oracle.{
  with_call, save_call, create_oracle_call, record_report, unpause_call, admin_resolve_call,
}
use backit_on_stellar.Oracle.Resolution.{resolve_market}
use backit_on_stellar.Oracle.Lifecycle.{
  Lifecycle, stays, announced, stored, announcements, storings,
}
use backit_on_stellar.Oracle.Effects.{
  Effect, resolve-Effect, report-Effect, unpause-Effect, force-Effect,
}

-- A call of the service with its arguments and the time of the call. A new call gets an id from the
-- database.
pub data Op : Type 0 where
  create : String → List ℕ → List ℕ → ℕ → ℕ → Op
  resolve : Outside → ℕ → String → ℕ → Op
  report : ℕ → Op
  unpause : ℕ → Op
  force : (String → Option String) → ℕ → Outcome → Option String → ℕ → Op

-- An administrator's operation on the call.
abbrev pub is_admin : ℕ → Op → Bool
is_admin id (create pair base quote strike time) = false
is_admin id (resolve out j observed now) = false
is_admin id (report j) = false
is_admin id (unpause j) = j == id
is_admin id (force column j outcome price now) = j == id

-- The generated key of the table is not in use.
module _ (db : Repo ℕ OracleCall) (next : db.Table → ℕ)
    (next_fresh : (t : db.Table) → db.find_one t (next t) ≡ none) where
  unfoldable pub step : Oracle db.Table → Op → Oracle db.Table
  step s (create pair base quote strike time) =
      create_oracle_call db s (next s.calls) pair base quote strike time
  step s (resolve out id observed now) = (resolve_market db out s id observed now).1
  step s (report id) = (record_report db s id).1
  step s (unpause id) = (unpause_call db s id).1
  step s (force column id outcome price now) =
      (admin_resolve_call db column s id outcome price now).1

  unfoldable pub run : Oracle db.Table → List Op → Oracle db.Table
  run s [] = s
  run s (op ∷ ops) = run (step s op) ops

  -- What one operation does to one call: a step of its lifecycle, and its announcements.
  pub record Moves (admin : Bool) (s s' : Oracle db.Table) (id : ℕ) (c : OracleCall) : Type 0 where
    pub after : OracleCall
    pub move : Lifecycle admin c after
    pub row : db.find_one s'.calls id ≡ some after
    pub events : announced id s'.events ≡ announcements move + announced id s.events
    pub outcomes : stored id s'.outcomes ≡ storings move + stored id s.outcomes

  unmoved :
      {admin : Bool} (s s' : Oracle db.Table) (id : ℕ) (c : OracleCall)
      → db.find_one s'.calls id ≡ some c
      → announced id s'.events ≡ announced id s.events
      → stored id s'.outcomes ≡ stored id s.outcomes
      → Moves admin s s' id c
  unmoved s s' id c h e f = record {
    after = c;
    move = stays refl refl;
    row = h;
    events = omega (arith, e);
    outcomes = omega (arith, f);
  }

  Effect-Moves_self :
      {admin : Bool} (s s' : Oracle db.Table) (id : ℕ) (c : OracleCall)
      → Effect db admin s s' id c
      → Moves admin s s' id c
  Effect-Moves_self s s' id c e =
      let same : (id == id) ≡ true = (==_iff id id).1 refl in
      record {
        after = e.after;
        move = e.step;
        row = e.row;
        events = let f = e.events id in rw same at f;
        outcomes = let f = e.outcomes id in rw same at f;
      }

  Effect-Moves :
      {acted admin : Bool} (s s' : Oracle db.Table) (j id : ℕ) (c d : OracleCall)
      → db.find_one s.calls id ≡ some c
      → db.find_one s.calls j ≡ some d
      → Effect db acted s s' j d
      → (j ≡ id → acted ≡ admin)
      → Moves admin s s' id c
  Effect-Moves s s' j id c d h g e by = elim (Bool-cases (j == id)) [
    | inl t ↦
        let q : j ≡ id = (==_iff j id).0 t in
        let r : d ≡ c = cc in Effect-Moves_self s s' id c (rw q at (rw r at (rw (by q) at e)))
    | inr t ↦
        let ne : j ≢ id = λ q. cc ((==_iff j id).1 q) in
        let f = e.events id in
        let k = e.outcomes id in
        let f' : announced id s'.events ≡ 0 + announced id s.events = rw t at f in
        let k' : stored id s'.outcomes ≡ 0 + stored id s.outcomes = rw t at k in
        unmoved s s' id c (e.others id ne ∙ h) (omega (arith, f')) (omega (arith, k'))
  ]

  lookup-Moves :
      {A : Type 0} {acted admin : Bool} (s : Oracle db.Table) (j id : ℕ) (c : OracleCall)
      (o : Option OracleCall) (k : OracleCall → Result A × Oracle db.Table)
      → db.find_one s.calls id ≡ some c
      → db.find_one s.calls j ≡ o
      → ((d : OracleCall) → db.find_one s.calls j ≡ some d → Effect db acted s (k d).1 j d)
      → (j ≡ id → acted ≡ admin)
      → Moves admin s (with_call db o s k).1 id c
  unfolding with_call
  lookup-Moves s j id c none k h g e by = unmoved s s id c h refl refl
  lookup-Moves s j id c (some d) k h g e by = Effect-Moves s _ j id c d h g (e d g) by

  -- Every operation moves every stored call by one step of the lifecycle, or leaves it.
  pub step-Moves :
      (s : Oracle db.Table) (op : Op) (id : ℕ) (c : OracleCall)
      → db.find_one s.calls id ≡ some c
      → Moves (is_admin id op) s (step s op) id c
  unfolding step create_oracle_call save_call resolve_market record_report unpause_call
      admin_resolve_call with_call
  step-Moves s (create pair base quote strike time) id c h =
      let f = next_fresh s.calls in
      let ne : next s.calls ≢ id = λ q. let g : none ≡ some c = sym f ∙ (rw q h) in cc in
      unmoved s _ id c (db.find_one-save_ne _ _ _ _ ne ∙ h) refl refl
  step-Moves s (resolve out j observed now) id c h =
      lookup-Moves s j id c _ _ h refl
        (λ d g. resolve-Effect db out s j d observed now d.status refl g) (λ q. refl)
  step-Moves s (report j) id c h =
      lookup-Moves s j id c _ _ h refl (λ d g. report-Effect db s j d) (λ q. refl)
  step-Moves s (unpause j) id c h =
      lookup-Moves s j id c _ _ h refl (λ d g. unpause-Effect db s j d d.status refl g)
        (λ q. sym ((==_iff j id).1 q))
  step-Moves s (force column j outcome price now) id c h =
      lookup-Moves s j id c _ _ h refl
        (λ d g. force-Effect db column s j d outcome price now _ refl g)
        (λ q. sym ((==_iff j id).1 q))
