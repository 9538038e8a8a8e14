-- ===== src/Webhooks/Limiter/Window.antt =====
-- The rate limiter of packages/backend/src/webhooks/webhook-dispatch.processor.ts, compared with a log
-- of all requests that it let pass.
use Prim.Native.String.{String}
use backit_on_stellar.Prelude.{
  ℕ, ◌+◌, ◌-◌, ◌≤◌, ◌<◌, ◌≡◌, ◌≢◌, refl, Bool, true, false, ◌&&◌, List, [], ◌∷◌, ◌++◌, or_else, leb,
  ltb, if◌then◌else◌, length, arith, Bool-cases, inl, inr,
}
use backit_on_stellar.Prelude.Text.{str_eq, str_eq_iff}
use backit_on_stellar.Prelude.Repo.{Repo}
use backit_on_stellar.Webhooks.Limiter.{max_per_second, window_ms, recent, admit, is_allowed}

-- A call of the limiter.
pub record Request : Type 0 where
  pub url : String
  pub now : ℕ

-- The clock does not go back.
abbrev pub Ordered : ℕ → List Request → Type 0
Ordered t [] = Unit
Ordered t (r ∷ rs) = (t ≤ r.now) × Ordered r.now rs

abbrev pub last_time : ℕ → List Request → ℕ
last_time t [] = t
last_time t (r ∷ rs) = last_time r.now rs

-- How many instants lie in the window that begins at `a`.
unfoldable pub within : ℕ → List ℕ → ℕ
within a [] = 0
within a (ts ∷ rest) =
    let n = within a rest in if leb a ts && ltb ts (a + window_ms) then 1 + n else n

recent_append :
    (t : ℕ) (xs : List ℕ) (n : ℕ)
    → length (recent t (xs ++ n ∷ []))
      ≡ length (recent t xs) + (if ltb (t - n) window_ms then 1 else 0)
unfolding recent
recent_append t [] n = ground arith
recent_append t (x ∷ xs) n = ground (arith, recent_append t xs n)

-- What is dropped at an instant is not recent at a later one.
recent_twice :
    (t now : ℕ) (xs : List ℕ) → now ≤ t → length (recent t (recent now xs)) ≡ length (recent t xs)
unfolding recent
recent_twice t now [] h = refl
recent_twice t now (x ∷ xs) h = elim (Bool-cases (ltb (now - x) window_ms)) [
  | inl e ↦ rw e (ground (arith, recent_twice t now xs h))
  | inr e ↦
      let u : ltb (t - x) window_ms ≡ false = ground arith in rw e (rw u (recent_twice t now xs h))
]

-- A window that contains an instant holds only what is recent at that instant.
within-recent :
    (a now : ℕ) (xs : List ℕ) → a ≤ now → now < a + window_ms → within a xs ≤ length (recent now xs)
unfolding within recent
within-recent a now [] h k = omega arith
within-recent a now (x ∷ xs) h k = ground (arith, within-recent a now xs h k)

module _ (db : Repo String (List ℕ)) (u : String) where
  abbrev pub seen : db.Table → List ℕ
  seen windows = or_else (db.find_one windows u) []

  -- The state of the limiter after a request, and the instants of the requests to `u` that passed,
  -- the latest first.
  abbrev pub log_if : Bool → ℕ → List ℕ → List ℕ
  log_if true now log = now ∷ log
  log_if false now log = log

  abbrev pub request : db.Table × List ℕ → Request → db.Table × List ℕ
  request (windows, log) r =
      let (allowed, windows') = is_allowed db windows r.url r.now in
      (windows', log_if (str_eq r.url u && allowed) r.now log)

  abbrev pub requests : db.Table × List ℕ → List Request → db.Table × List ℕ
  requests s [] = s
  requests s (r ∷ rs) = requests (request s r) rs

  -- From an instant on, the stored list and the log agree on what is recent; and no window holds too
  -- many.
  pub record Sound (t : ℕ) (s : db.Table × List ℕ) : Type 0 where
    pub same : (now : ℕ) → t ≤ now → length (recent now (seen s.0)) ≡ length (recent now s.1)
    pub few : (a : ℕ) → within a s.1 ≤ max_per_second

  pub Sound-later : (t now : ℕ) (s : db.Table × List ℕ) → t ≤ now → Sound t s → Sound now s
  Sound-later t now s h k = record { same = λ n le. k.same n (omega (arith, h, le)); few = k.few }

  admit_other :
      (full : Bool) (windows : db.Table) (url : String) (now : ℕ) (existing : List ℕ)
      → url ≢ u
      → seen (admit db full windows url now existing).1 ≡ seen windows
  unfolding admit
  admit_other true windows url now existing ne = refl
  admit_other false windows url now existing ne = rw (db.find_one-save_ne windows url u _ ne)

  -- A request to the URL that is let pass.
  admit-Sound :
      (t now : ℕ) (s : db.Table × List ℕ)
      → t ≤ now
      → Sound t s
      → leb max_per_second (length (recent now (seen s.0))) ≡ false
      → Sound now (db.save s.0 u (recent now (seen s.0) ++ now ∷ []), now ∷ s.1)
  unfolding recent within
  admit-Sound t now s h k free = record {
    same = λ n le.
        let a = recent_append n (recent now (seen s.0)) now in
        let b = recent_twice n now (seen s.0) le in
        let c = k.same n (omega (arith, h, le)) in
        rw (db.find_one-save_self _ _ _) (ground (arith, a, b, c));
    few = λ a.
        let b = k.few a in
        let c = within-recent a now s.1 in let d = k.same now h in ground (arith, b, c, d, free);
  }

  self-Sound :
      (t now : ℕ) (s : db.Table × List ℕ) (full : Bool)
      → t ≤ now
      → Sound t s
      → leb max_per_second (length (recent now (seen s.0))) ≡ full
      → let (allowed, windows) = admit db full s.0 u now (recent now (seen s.0)) in
        Sound now (windows, log_if allowed now s.1)
  unfolding admit
  self-Sound t now s true h k e = Sound-later t now s h k
  self-Sound t now s false h k e = admit-Sound t now s h k e

  admit_answer :
      (windows : db.Table) (now n : ℕ) (existing : List ℕ)
      → length existing ≡ n
      → (admit db (leb max_per_second (length existing)) windows u now existing).0
        ≡ ltb n max_per_second
  unfolding admit
  admit_answer windows now n existing e = elim (Bool-cases (leb max_per_second (length existing))) [
    | inl t ↦ rw t (ground (arith, e))
    | inr t ↦ rw t (ground (arith, e))
  ]

  pub request-Sound :
      (t : ℕ) (s : db.Table × List ℕ) (r : Request)
      → t ≤ r.now
      → Sound t s
      → Sound r.now (request s r)
  unfolding is_allowed
  request-Sound t s r h k = elim (Bool-cases (str_eq r.url u)) [
    | inr e ↦
        let ne : r.url ≢ u = λ q. cc ((str_eq_iff r.url u).1 q) in
        let same : seen (request s r).0 ≡ seen s.0 = admit_other _ s.0 r.url r.now _ ne in
        let k' = Sound-later t r.now s h k in
        rw e (record { same = λ n le. rw same (k'.same n le); few = k'.few })
    | inl e ↦ rw e (rw ((str_eq_iff r.url u).0 e) (self-Sound t r.now s _ h k refl))
  ]

  requests-Sound :
      (t : ℕ) (s : db.Table × List ℕ) (rs : List Request)
      → Ordered t rs
      → Sound t s
      → Sound (last_time t rs) (requests s rs)
  requests-Sound t s [] h k = k
  requests-Sound t s (r ∷ rs) h k =
      requests-Sound r.now (request s r) rs h.1 (request-Sound t s r h.0 k)

  pub empty-Sound : Sound 0 (db.empty, [])
  unfolding recent within
  empty-Sound = record { same = λ now h. rw (db.find_one-empty u) refl; few = λ a. omega arith }

  -- As long as the clock does not go back, of the requests to one URL, whatever requests to others
  -- come between, no 1000 milliseconds, wherever they begin, let more than 10 pass.
  pub limiter_bound :
      (rs : List Request) (a : ℕ)
      → Ordered 0 rs
      → within a (requests (db.empty, []) rs).1 ≤ max_per_second
  limiter_bound rs a h = (requests-Sound 0 (db.empty, []) rs h empty-Sound).few a

  -- As long as the clock does not go back, the limiter, which forgets what it finds too old at a
  -- request, lets a request pass exactly if a complete log has fewer than 10 that passed in the last
  -- 1000 milliseconds.
  pub limiter_exact :
      (rs : List Request) (now : ℕ)
      → Ordered 0 rs
      → last_time 0 rs ≤ now
      → let (windows, log) = requests (db.empty, []) rs in
        (is_allowed db windows u now).0 ≡ ltb (length (recent now log)) max_per_second
  unfolding is_allowed
  limiter_exact rs now h k =
      let e = (requests-Sound 0 (db.empty, []) rs h empty-Sound).same now k in
      admit_answer _ now _ _ e
