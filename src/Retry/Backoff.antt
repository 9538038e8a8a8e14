-- ===== src/Retry/Backoff.antt =====
-- What callers of packages/backend/src/utils/retry.ts get, and how long the delays are.
use backit_on_stellar.Prelude.{
  ℕ, zero, suc, ◌+◌, ◌-◌, ◌*◌, ◌^◌, ◌≡◌, ◌≤◌, ◌<◌, refl, sym, ◌∙◌, ap, true, false, List, [], ◌∷◌,
  ◌++◌, Option, none, some, leb, ◌==◌, max, arith, length, length-append,
}
use native.Mathlib.Nat.{two-pow-succ}
use backit_on_stellar.Retry.{
  Attempt, resolved, failing, Result, returned, threw, delay_after, after_call, retry_loop,
  retry_with_backoff, rxjs_loop, rxjs_retry_with_backoff,
}

abbrev pub total : List ℕ → ℕ
total [] = 0
total (d ∷ ds) = d + total ds

total_append : (xs ys : List ℕ) → total (xs ++ ys) ≡ total xs + total ys
total_append [] ys = omega arith
total_append (x ∷ xs) ys = omega (arith, total_append xs ys)

module _ {V E : Type 0} (call : ℕ → Attempt V E) (max_attempts base : ℕ) where
  -- The attempts from one number on, so many of them, all fail.
  abbrev pub AllFail : ℕ → ℕ → Type 0
  AllFail from zero = Unit
  AllFail from (suc n) = ((err : E) × (call from ≡ failing err)) × AllFail (from + 1) n

  doubled : (k : ℕ) → base * 2 ^ (k + 1) ≡ base * 2 ^ k + base * 2 ^ k
  doubled k = let next : k + 1 ≡ suc k = omega arith in rw (next, two-pow-succ k) (omega arith)

  total_next :
      (delays : List ℕ) (k : ℕ)
      → total (delays ++ delay_after call max_attempts base (k + 1) ∷ [])
        ≡ total delays + base * 2 ^ k
  total_next delays k =
      let back : k + 1 - 1 ≡ k = omega arith in
      rw back (omega (arith, total_append delays (base * 2 ^ k ∷ [])))

  next_attempt :
      (passes attempt : ℕ) (last_error : Option E) (delays : List ℕ) (err : E)
      → call attempt ≡ failing err
      → (attempt == max_attempts) ≡ false
      → retry_loop call max_attempts base (suc passes) attempt last_error delays
        ≡ retry_loop call max_attempts base passes
            (attempt + 1)
            (some err)
            (delays ++ delay_after call max_attempts base attempt ∷ [])
  unfolding retry_loop after_call
  next_attempt passes attempt last_error delays err e go_on = rw (e, go_on)

  -- After so many failures the loop stands at the next attempt, and the delays double.
  after_failures :
      (n passes k : ℕ) (last_error : Option E) (delays : List ℕ)
      → AllFail (k + 1) n
      → k + n < max_attempts
      → (last_error' : Option E) × (delays' : List ℕ) × (retry_loop call max_attempts base
            (n + passes)
            (k + 1)
            last_error
            delays
          ≡ retry_loop call max_attempts base passes (k + n + 1) last_error' delays')
        × (total delays' + base * 2 ^ k ≡ total delays + base * 2 ^ (k + n))
        × (length delays' ≡ length delays + n)
  unfolding retry_loop
  after_failures zero passes k last_error delays h hi =
      let no_fuel : 0 + passes ≡ passes = omega arith in
      let same : k + 0 ≡ k = omega arith in
      (last_error, delays, rw (no_fuel, same), rw same, omega arith)
  after_failures (suc n) passes k last_error delays ((err, e), h) hi =
      let fuel : suc n + passes ≡ suc (n + passes) = omega arith in
      let go_on : (k + 1 == max_attempts) ≡ false = ground (arith, hi) in
      let reached : k + suc n ≡ k + 1 + n = omega arith in
      let power : base * 2 ^ (k + 1) ≡ base * 2 ^ k + base * 2 ^ k = doubled k in
      let next = delays ++ delay_after call max_attempts base (k + 1) ∷ [] in
      let delay : total next ≡ total delays + base * 2 ^ k = total_next delays k in
      let (o, ds, run, sum, count) =
        after_failures n passes (k + 1) (some err) next h (omega (arith, hi)) in
      (
        o,
        ds,
        ap (λ f. retry_loop call max_attempts base f (k + 1) last_error delays) fuel
            ∙ next_attempt (n + passes) (k + 1) last_error delays err e go_on
            ∙ run
            ∙ ap (λ a. retry_loop call max_attempts base passes (a + 1) o ds) (sym reached),
        rw reached (omega (arith, sum, power, delay)),
        omega
            (arith, count, length-append delays (delay_after call max_attempts base (k + 1) ∷ [])),
      )

  last_attempt :
      (passes attempt : ℕ) (last_error : Option E) (delays : List ℕ) (v : V)
      → call attempt ≡ resolved v
      → retry_loop call max_attempts base (suc passes) attempt last_error delays
        ≡ (returned v, delays)
  unfolding retry_loop after_call
  last_attempt passes attempt last_error delays v e = rw e

  gives_up :
      (passes attempt : ℕ) (last_error : Option E) (delays : List ℕ) (err : E)
      → call attempt ≡ failing err
      → (attempt == max_attempts) ≡ true
      → retry_loop call max_attempts base (suc passes) attempt last_error delays
        ≡ (threw (some err), delays)
  unfolding retry_loop after_call
  gives_up passes attempt last_error delays err e stop = rw (e, stop)

  -- Some failures, then an attempt that ends the loop with an answer.
  ends_after :
      (k passes : ℕ) (answer : Result V E)
      → AllFail 1 k
      → k < max_attempts
      → max_attempts ≡ k + suc passes
      → ((last_error : Option E) (delays : List ℕ)
          → retry_loop call max_attempts base (suc passes) (k + 1) last_error delays
            ≡ (answer, delays))
      → ((retry_with_backoff call max_attempts base).0 ≡ answer)
        × (length (retry_with_backoff call max_attempts base).1 ≡ k)
        × (total (retry_with_backoff call max_attempts base).1 + base ≡ base * 2 ^ k)
  unfolding retry_with_backoff
  ends_after k passes answer h hi split last =
      let (o, ds, run, sum, count) =
        after_failures k (suc passes) 0 none [] h (omega (arith, hi)) in
      let zero_k : 0 + k ≡ k = omega arith in
      let whole : retry_with_backoff call max_attempts base ≡ (answer, ds) =
        ap (λ f. retry_loop call max_attempts base f 1 none []) split
        ∙ (rw zero_k at run)
        ∙ last o ds in
      rw whole (refl, omega (arith, count), omega (arith, rw zero_k at sum))

  -- If the first calls fail and a later one, up to the maximum, succeeds, the caller gets its value;
  -- there was one delay for each failure, and k delays last base * (2 ^ k - 1) together.
  pub retry_returns :
      (k : ℕ) (v : V)
      → AllFail 1 k
      → call (k + 1) ≡ resolved v
      → k < max_attempts
      → ((retry_with_backoff call max_attempts base).0 ≡ returned v)
        × (length (retry_with_backoff call max_attempts base).1 ≡ k)
        × (total (retry_with_backoff call max_attempts base).1 + base ≡ base * 2 ^ k)
  retry_returns k v h e hi =
      let passes = max_attempts - k - 1 in
      ends_after k passes (returned v) h hi (omega (arith, hi))
        (λ o ds. last_attempt passes (k + 1) o ds v e)

  -- If every call up to the maximum fails, the caller gets the error of the last one; there was one
  -- delay less than calls, and k delays last base * (2 ^ k - 1) together.
  pub retry_gives_up :
      (k : ℕ) (err : E)
      → AllFail 1 k
      → call (k + 1) ≡ failing err
      → k + 1 ≡ max_attempts
      → ((retry_with_backoff call max_attempts base).0 ≡ threw (some err))
        × (length (retry_with_backoff call max_attempts base).1 ≡ k)
        × (total (retry_with_backoff call max_attempts base).1 + base ≡ base * 2 ^ k)
  retry_gives_up k err h e hi =
      ends_after k 0 (threw (some err)) h (omega (arith, hi)) (omega (arith, hi))
        (λ o ds. gives_up 0 (k + 1) o ds err e (ground (arith, hi)))

  same_end :
      (c : Attempt V E) (delays : List ℕ) (f g : E → Result V E × List ℕ)
      → after_call call max_attempts base c true delays f
        ≡ after_call call max_attempts base c true delays g
  unfolding after_call
  same_end (resolved v) delays f g = refl
  same_end (failing err) delays f g = refl

  same_next :
      (c : Attempt V E) (delays : List ℕ) (f g : E → Result V E × List ℕ)
      → ((err : E) → f err ≡ g err)
      → after_call call max_attempts base c false delays f
        ≡ after_call call max_attempts base c false delays g
  unfolding after_call
  same_next (resolved v) delays f g h = refl
  same_next (failing err) delays f g h = h err

  -- Where the retrying operator has the same calls left, it ends as the loop does.
  loops_agree :
      (passes k : ℕ) (o : Option E) (delays : List ℕ)
      → max_attempts ≡ k + suc passes
      → rxjs_loop call max_attempts base (suc passes) k delays
        ≡ retry_loop call max_attempts base (suc passes) (k + 1) o delays
  unfolding rxjs_loop retry_loop
  loops_agree zero k o delays h =
      let a : leb max_attempts (k + 1) ≡ true = ground (arith, h) in
      let b : (k + 1 == max_attempts) ≡ true = ground (arith, h) in
      rw (a, b) (same_end (call (k + 1)) delays _ _)
  loops_agree (suc passes) k o delays h =
      let a : leb max_attempts (k + 1) ≡ false = ground (arith, h) in
      let b : (k + 1 == max_attempts) ≡ false = ground (arith, h) in
      rw (a, b)
        (same_next (call (k + 1)) delays _ _
          (λ err. loops_agree passes (k + 1) (some err) _ (omega (arith, h))))

  -- With at least one attempt, and a source that gives one value or an error each time, the first
  -- subscription to what the retrying operator for observables makes gives the same result after the
  -- same delays as the loop for promises.
  pub rxjs_agrees :
      1 ≤ max_attempts
      → rxjs_retry_with_backoff call max_attempts base 0 ≡ retry_with_backoff call max_attempts base
  unfolding rxjs_retry_with_backoff retry_with_backoff
  rxjs_agrees lo =
      let fuel : max (max_attempts - 0) 1 ≡ suc (max_attempts - 1) = omega arith in
      let same : max_attempts ≡ suc (max_attempts - 1) = omega arith in
      ap (λ f. rxjs_loop call max_attempts base f 0 []) fuel
      ∙ loops_agree (max_attempts - 1) 0 none [] (omega arith)
      ∙ ap (λ f. retry_loop call max_attempts base f 1 none []) (sym same)
