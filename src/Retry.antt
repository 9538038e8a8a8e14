-- ===== src/Retry.antt =====
-- packages/backend/src/utils/retry.ts: calls that are tried again after a growing delay. A delay is
-- an output of the model; nothing waits.
pub mod Backoff
mod Tests
use backit_on_stellar.Prelude.{
  Bool, true, false, ℕ, zero, suc, ◌+◌, ◌-◌, ◌*◌, ◌^◌, List, [], ◌∷◌, ◌++◌, Option, none, some,
  if◌then◌else◌, leb, ◌==◌, max,
}

-- What one call of the function gives: the value of the promise, or the error it is rejected with.
pub data Attempt (V E : Type 0) : Type 0 where
  resolved : V → Attempt V E
  failing : E → Attempt V E

-- What the caller gets. `running` says that the fuel of the model ran out.
pub data Result (V E : Type 0) : Type 0 where
  returned : V → Result V E
  threw : Option E → Result V E
  running : Result V E

abbrev pub default_max_attempts : ℕ
default_max_attempts = 4

abbrev pub base_delay_ms : ℕ
base_delay_ms = 1000

module _ {V E : Type 0} (call : ℕ → Attempt V E) (max_attempts base : ℕ) where
  abbrev pub delay_after : ℕ → ℕ
  delay_after attempt = base * 2 ^ (attempt - 1)

  -- What follows a call: the value, the error if no attempt is left, or the next attempt.
  unfoldable pub after_call :
      Attempt V E → Bool → List ℕ → (E → Result V E × List ℕ) → Result V E × List ℕ
  after_call (resolved v) is_last delays again = (returned v, delays)
  after_call (failing err) true delays again = (threw (some err), delays)
  after_call (failing err) false delays again = again err

  -- The loop with so many passes left; it gives the result and the delays.
  unfoldable pub retry_loop : ℕ → ℕ → Option E → List ℕ → Result V E × List ℕ
  retry_loop zero attempt last_error delays = (threw last_error, delays)
  retry_loop (suc passes) attempt last_error delays =
      after_call (call attempt) (attempt == max_attempts) delays
        (λ err. retry_loop passes (attempt + 1) (some err) (delays ++ delay_after attempt ∷ []))

  -- `retryWithBackoff`, whose loop runs from 1 to the maximum.
  unfoldable pub retry_with_backoff : Result V E × List ℕ
  retry_with_backoff = retry_loop max_attempts 1 none []

  -- One subscription to the observable of `rxjsRetryWithBackoff`, for a source that gives one value or
  -- an error each time: after each error the counter goes up, and the source is subscribed again
  -- unless the maximum is reached.
  unfoldable pub rxjs_loop : ℕ → ℕ → List ℕ → Result V E × List ℕ
  rxjs_loop zero attempt delays = (running, delays)
  rxjs_loop (suc fuel) attempt delays =
      after_call (call (attempt + 1)) (leb max_attempts (attempt + 1)) delays
        (λ err. rxjs_loop fuel (attempt + 1) (delays ++ delay_after (attempt + 1) ∷ []))

  -- The counter belongs to the application of the operator: it is 0 for the first subscription, and a
  -- later one goes on where it was left.
  unfoldable pub rxjs_retry_with_backoff : ℕ → Result V E × List ℕ
  rxjs_retry_with_backoff attempt = rxjs_loop (max (max_attempts - attempt) 1) attempt []
