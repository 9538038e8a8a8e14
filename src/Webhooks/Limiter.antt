-- ===== src/Webhooks/Limiter.antt =====
-- `UrlRateLimiter` of packages/backend/src/webhooks/webhook-dispatch.processor.ts.
pub mod Window
use Prim.Native.String.{String}
use backit_on_stellar.Prelude.{
  ℕ, ◌-◌, Bool, true, false, List, [], ◌∷◌, ◌++◌, or_else, leb, ltb, if◌then◌else◌, length,
}
use backit_on_stellar.Prelude.Repo.{Repo}

abbrev pub max_per_second : ℕ
max_per_second = 10

abbrev pub window_ms : ℕ
window_ms = 1000

-- The instants of the window that ends now. A clock that went back gives a negative difference in
-- the source, and 0 here, both below the window.
unfoldable pub recent : ℕ → List ℕ → List ℕ
recent now [] = []
recent now (ts ∷ rest) =
    let kept = recent now rest in if ltb (now - ts) window_ms then ts ∷ kept else kept

module _ (db : Repo String (List ℕ)) where
  -- Told whether the window is full.
  unfoldable pub admit : Bool → db.Table → String → ℕ → List ℕ → Bool × db.Table
  admit true windows url now existing = (false, windows)
  admit false windows url now existing = (true, db.save windows url (existing ++ now ∷ []))

  unfoldable pub is_allowed : db.Table → String → ℕ → Bool × db.Table
  unfolding recent admit
  is_allowed windows url now =
      let existing = recent now (or_else (db.find_one windows url) []) in
      admit (leb max_per_second (length existing)) windows url now existing
