-- ===== src/Oracle/Settled.antt =====
-- What no sequence of operations of packages/backend/src/oracle/oracle.service.ts does to a call.
use Prim.Native.String.{String}
use backit_on_stellar.Prelude.{
  ℕ, ◌+◌, ◌≤◌, ◌≡◌, refl, ◌∙◌, Bool, true, false, List, [], ◌∷◌, All, none, some, if◌then◌else◌,
  arith, Bool-cases, inl, inr,
}
use backit_on_stellar.Prelude.Repo.{Repo}
use backit_on_stellar.Oracle.Calls.{
  OracleCallStatus, draft, opened, paused, settling, resolved_yes, resolved_no, OracleCall, Oracle,
  is_resolvable, new_call,
}
use backit_on_stellar.Oracle.{create_oracle_call, save_call}
use backit_on_stellar.Oracle.Lifecycle.{
  Lifecycle, stays, pauses, unpauses, settles, orphans, forced, announced, stored, announcements,
  storings, is_terminal, is_active, settlement,
}
use backit_on_stellar.Oracle.Traces.{Op, create, step, run, is_admin, step-Moves}

-- No one moves a call from a resolved status.
terminal_only :
    (st : OracleCallStatus)
    → is_terminal st ≡ true
    → (is_active st ≡ false) × (is_resolvable st ≡ false)
unfolding is_resolvable
terminal_only resolved_yes h = (refl, refl)
terminal_only resolved_no h = (refl, refl)
terminal_only draft h = absurd cc
terminal_only opened h = absurd cc
terminal_only paused h = absurd cc
terminal_only settling h = absurd cc

-- A resolved call makes no other step than to stay.
resolved-Lifecycle :
    {admin : Bool} (c c' : OracleCall) (m : Lifecycle admin c c')
    → is_terminal c.status ≡ true
    → (c'.status ≡ c.status)
      × (settlement c' ≡ settlement c)
      × (announcements m ≡ 0)
      × (storings m ≡ 0)
resolved-Lifecycle c c' (stays e f) h = (e, f, refl, refl)
resolved-Lifecycle c c' (pauses e f g i) h =
    let k : is_terminal opened ≡ true = rw e at h in absurd cc
resolved-Lifecycle c c' (unpauses a e f g) h =
    let k : is_terminal paused ≡ true = rw e at h in absurd cc
resolved-Lifecycle c c' (settles e f) h = let k = terminal_only c.status h in absurd cc
resolved-Lifecycle c c' (orphans e f g) h = let k = terminal_only c.status h in absurd cc
resolved-Lifecycle c c' (forced a e f) h = let k = terminal_only c.status h in absurd cc

draft-Lifecycle :
    {admin : Bool} (c c' : OracleCall) (m : Lifecycle admin c c')
    → c.status ≡ draft
    → (c'.status ≡ draft) × (announcements m ≡ 0)
unfolding is_resolvable
draft-Lifecycle c c' (stays e f) t = (e ∙ t, refl)
draft-Lifecycle c c' (pauses e f g i) t = absurd cc
draft-Lifecycle c c' (unpauses a e f g) t = absurd cc
draft-Lifecycle c c' (orphans e f g) t = (f ∙ t, refl)
draft-Lifecycle c c' (settles e f) t = let k : is_active draft ≡ true = rw t at e in absurd cc
draft-Lifecycle c c' (forced a e f) t = let k : is_resolvable draft ≡ true = rw t at e in absurd cc

paused-Lifecycle :
    {admin : Bool} (c c' : OracleCall) (m : Lifecycle admin c c')
    → c.status ≡ paused
    → admin ≡ false
    → (c'.status ≡ paused) × (announcements m ≡ 0)
paused-Lifecycle c c' (stays e f) t n = (e ∙ t, refl)
paused-Lifecycle c c' (pauses e f g i) t n = absurd cc
paused-Lifecycle c c' (unpauses a e f g) t n = absurd cc
paused-Lifecycle c c' (forced a e f) t n = absurd cc
paused-Lifecycle c c' (orphans e f g) t n = (f ∙ t, refl)
paused-Lifecycle c c' (settles e f) t n = let k : is_active paused ≡ true = rw t at e in absurd cc

-- How many more announcements a call can get.
abbrev quota : OracleCallStatus → ℕ
quota st = if is_terminal st then 0 else 1

quota-Lifecycle :
    {admin : Bool} (c c' : OracleCall) (m : Lifecycle admin c c')
    → quota c'.status + announcements m ≤ quota c.status
quota-Lifecycle c c' (stays e f) = rw e (omega arith)
quota-Lifecycle c c' (pauses e f g i) = rw e (rw f (omega arith))
quota-Lifecycle c c' (unpauses a e f g) = rw e (rw f (omega arith))
quota-Lifecycle c c' (orphans e f g) = rw f (omega arith)
quota-Lifecycle c c' (forced a e f) = rw f (omega arith)
quota-Lifecycle c c' (settles e f) = elim (Bool-cases (is_terminal c.status)) [
  | inl t ↦ let k = terminal_only c.status t in absurd cc
  | inr t ↦ rw t (rw f (omega arith))
]

-- What is announced is stored.
announced-storings :
    {admin : Bool} (c c' : OracleCall) (m : Lifecycle admin c c') → announcements m ≤ storings m
announced-storings c c' (stays e f) = omega arith
announced-storings c c' (pauses e f g h) = omega arith
announced-storings c c' (unpauses a e f g) = omega arith
announced-storings c c' (settles e f) = omega arith
announced-storings c c' (orphans e f g) = omega arith
announced-storings c c' (forced a e f) = omega arith

module _ (db : Repo ℕ OracleCall) (next : db.Table → ℕ)
    (next_fresh : (t : db.Table) → db.find_one t (next t) ≡ none) where
  -- Whatever operations follow, on this call and on others, a resolved call keeps its status, its
  -- final price and the times of its resolution, and no outcome of it is stored or announced again.
  pub resolved_stays :
      (s : Oracle db.Table) (ops : List Op) (id : ℕ) (c : OracleCall)
      → db.find_one s.calls id ≡ some c
      → is_terminal c.status ≡ true
      → let s' = run db next next_fresh s ops in
        ((c' : OracleCall) × (db.find_one s'.calls id ≡ some c')
          × (c'.status ≡ c.status)
          × (settlement c' ≡ settlement c))
        × (announced id s'.events ≡ announced id s.events)
        × (stored id s'.outcomes ≡ stored id s.outcomes)
  unfolding run
  resolved_stays s [] id c h t = ((c, h, refl, refl), refl, refl)
  resolved_stays s (op ∷ ops) id c h t =
      let m = step-Moves db next next_fresh s op id c h in
      let (e, f, g, k) = resolved-Lifecycle c m.after m.move t in
      let t' : is_terminal m.after.status ≡ true = rw e t in
      let ((c', a, b, d), i, j) =
        resolved_stays (step db next next_fresh s op) ops id m.after m.row t' in
      let i' = m.events in
      let j' = m.outcomes in
      ((c', a, b ∙ e, d ∙ f), omega (arith, i, i', g), omega (arith, j, j', k))

  quota_le : (st : OracleCallStatus) → quota st ≤ 1
  quota_le st = elim (Bool-cases (is_terminal st)) [
    | inl t ↦ rw t (omega arith)
    | inr t ↦ rw t (omega arith)
  ]

  bounded :
      (s : Oracle db.Table) (ops : List Op) (id : ℕ) (c : OracleCall)
      → db.find_one s.calls id ≡ some c
      → let s' = run db next next_fresh s ops in
        (announced id s'.events ≤ quota c.status + announced id s.events)
        × (announced id s'.events + stored id s.outcomes
            ≤ stored id s'.outcomes + announced id s.events)
  unfolding run
  bounded s [] id c h = (omega arith, omega arith)
  bounded s (op ∷ ops) id c h =
      let m = step-Moves db next next_fresh s op id c h in
      let (a, b) = bounded (step db next next_fresh s op) ops id m.after m.row in
      let q = quota-Lifecycle c m.after m.move in
      let i = m.events in
      let j = m.outcomes in
      let l = announced-storings c m.after m.move in
      (omega (arith, a, q, i), omega (arith, b, i, j, l))

  -- In any sequence of operations after a call was created, whichever saves and signatures fail, the
  -- oracle announces its resolution at most once, and only together with an outcome that it stores;
  -- it can store outcomes that it never announces.
  pub announced_once :
      (s : Oracle db.Table) (ops : List Op) (id : ℕ) (c : OracleCall)
      → db.find_one s.calls id ≡ some c
      → let s' = run db next next_fresh s ops in
        (announced id s'.events ≤ 1 + announced id s.events)
        × (announced id s'.events + stored id s.outcomes
            ≤ stored id s'.outcomes + announced id s.events)
  announced_once s ops id c h =
      let (a, b) = bounded s ops id c h in
      let k : quota c.status ≤ 1 = quota_le c.status in (omega (arith, a, k), b)

  draft_remains :
      (s : Oracle db.Table) (ops : List Op) (id : ℕ) (c : OracleCall)
      → db.find_one s.calls id ≡ some c
      → c.status ≡ draft
      → let s' = run db next next_fresh s ops in
        ((c' : OracleCall) × (db.find_one s'.calls id ≡ some c') × (c'.status ≡ draft))
        × (announced id s'.events ≡ announced id s.events)
  unfolding run
  draft_remains s [] id c h t = ((c, h, t), refl)
  draft_remains s (op ∷ ops) id c h t =
      let m = step-Moves db next next_fresh s op id c h in
      let (e, g) = draft-Lifecycle c m.after m.move t in
      let (a, i) = draft_remains (step db next next_fresh s op) ops id m.after m.row e in
      let i' = m.events in (a, omega (arith, i, i', g))

  -- The call that createOracleCall makes is a draft, and whatever operations follow, on it and on
  -- others, it is never made anything else and its resolution is never announced.
  pub draft_stays :
      (s : Oracle db.Table) (pair : String) (base quote : List ℕ) (strike time : ℕ) (ops : List Op)
      → let id = next s.calls in
        let s' = run db next next_fresh s (create pair base quote strike time ∷ ops) in
        ((c' : OracleCall) × (db.find_one s'.calls id ≡ some c') × (c'.status ≡ draft))
        × (announced id s'.events ≡ announced id s.events)
  unfolding run step create_oracle_call save_call
  draft_stays s pair base quote strike time ops =
      let made = step db next next_fresh s (create pair base quote strike time) in
      draft_remains made ops (next s.calls) (new_call pair base quote strike time)
        (db.find_one-save_self _ _ _) refl

  -- As long as no administrator acts on it, a paused call stays paused, whatever is reported and
  -- whatever price the oracle submits, and no outcome of it is announced.
  pub paused_needs_admin :
      (s : Oracle db.Table) (ops : List Op) (id : ℕ) (c : OracleCall)
      → db.find_one s.calls id ≡ some c
      → c.status ≡ paused
      → All (λ op. is_admin id op ≡ false) ops
      → let s' = run db next next_fresh s ops in
        ((c' : OracleCall) × (db.find_one s'.calls id ≡ some c') × (c'.status ≡ paused))
        × (announced id s'.events ≡ announced id s.events)
  unfolding run
  paused_needs_admin s [] id c h t no_admin = ((c, h, t), refl)
  paused_needs_admin s (op ∷ ops) id c h t no_admin =
      let m = step-Moves db next next_fresh s op id c h in
      let (e, g) = paused-Lifecycle c m.after m.move t no_admin.0 in
      let (a, i) =
        paused_needs_admin (step db next next_fresh s op) ops id m.after m.row e no_admin.1 in
      let i' = m.events in (a, omega (arith, i, i', g))
