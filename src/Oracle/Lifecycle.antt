-- ===== src/Oracle/Lifecycle.antt =====
-- The lifecycle of a call in packages/backend/src/oracle/oracle.service.ts.
use Prim.Native.String.{String}
use backit_on_stellar.Prelude.{
  ℕ, ◌+◌, ◌≡◌, Bool, true, false, List, [], ◌∷◌, Option, if◌then◌else◌, ◌==◌, leb,
}
use backit_on_stellar.Oracle.Calls.{
  OracleCallStatus, draft, opened, paused, settling, resolved_yes, resolved_no, OracleCall,
  OracleOutcome, Event, call_resolved, oracle_submitted, is_resolvable, report_threshold,
}

abbrev pub is_terminal : OracleCallStatus → Bool
is_terminal resolved_yes = true
is_terminal resolved_no = true
is_terminal draft = false
is_terminal opened = false
is_terminal paused = false
is_terminal settling = false

-- The status from which the oracle resolves a call.
abbrev pub is_active : OracleCallStatus → Bool
is_active opened = true
is_active settling = true
is_active resolved_yes = false
is_active resolved_no = false
is_active draft = false
is_active paused = false

-- What a resolution fixes.
pub record Settlement : Type 0 where
  pub final_price : Option String
  pub resolved_at : Option ℕ
  pub processed_at : Option ℕ

abbrev pub settlement : OracleCall → Settlement
settlement c = record {
  final_price = c.final_price;
  resolved_at = c.resolved_at;
  processed_at = c.processed_at;
}

-- The lifecycle of a call: from which status to which it moves, and whether an administrator moves
-- it. Only a resolution by the oracle is announced.
pub data Lifecycle (admin : Bool) (c c' : OracleCall) : Type 0 where
  stays : c'.status ≡ c.status → settlement c' ≡ settlement c → Lifecycle admin c c'
  pauses :
      c.status ≡ opened
      → c'.status ≡ paused
      → leb report_threshold c'.report_count ≡ true
      → settlement c' ≡ settlement c
      → Lifecycle admin c c'
  unpauses :
      admin ≡ true
      → c.status ≡ paused
      → c'.status ≡ opened
      → settlement c' ≡ settlement c
      → Lifecycle admin c c'
  settles : is_active c.status ≡ true → is_terminal c'.status ≡ true → Lifecycle admin c c'
  -- The outcome is stored, but the call is not.
  orphans :
      is_active c.status ≡ true
      → c'.status ≡ c.status
      → settlement c' ≡ settlement c
      → Lifecycle admin c c'
  forced :
      admin ≡ true
      → is_resolvable c.status ≡ true
      → is_terminal c'.status ≡ true
      → Lifecycle admin c c'

-- How often the resolution of a call was announced, and how many outcomes were stored for it.
unfoldable pub announced : ℕ → List Event → ℕ
announced id [] = 0
announced id (call_resolved j outcome price ∷ es) =
    let n = announced id es in if j == id then 1 + n else n
announced id (oracle_submitted j price outcome mid ∷ es) = announced id es

unfoldable pub stored : ℕ → List OracleOutcome → ℕ
stored id [] = 0
stored id (o ∷ os) = let n = stored id os in if o.call_id == id then 1 + n else n

-- The number of announcements that a step makes.
abbrev pub announcements : {admin : Bool} {c c' : OracleCall} → Lifecycle admin c c' → ℕ
announcements (stays e f) = 0
announcements (pauses e f g h) = 0
announcements (unpauses a e f g) = 0
announcements (settles e f) = 1
announcements (orphans e f g) = 0
announcements (forced a e f) = 0

-- The number of outcomes that a step stores.
abbrev pub storings : {admin : Bool} {c c' : OracleCall} → Lifecycle admin c c' → ℕ
storings (stays e f) = 0
storings (pauses e f g h) = 0
storings (unpauses a e f g) = 0
storings (settles e f) = 1
storings (orphans e f g) = 1
storings (forced a e f) = 0
