-- ===== src/Retry/Tests.antt =====
-- Runs of packages/backend/src/utils/retry.ts on concrete sequences of outcomes.
use backit_on_stellar.Prelude.{ℕ, ◌≡◌, refl, [], some, if◌then◌else◌, ltb, arith}
use backit_on_stellar.Retry.{
  Attempt, resolved, failing, threw, retry_with_backoff, rxjs_retry_with_backoff, rxjs_loop,
  after_call,
}
use backit_on_stellar.Retry.Backoff.{rxjs_agrees}

-- Fails with the number of the attempt before the third, and then gives 7.
abbrev third_time : ℕ → Attempt ℕ ℕ
third_time n = if ltb n 3 then failing n else resolved 7

abbrev never : ℕ → Attempt ℕ ℕ
never n = failing n

rxjs_agrees_example :
    rxjs_retry_with_backoff third_time 4 1000 0 ≡ retry_with_backoff third_time 4 1000
rxjs_agrees_example = rxjs_agrees third_time 4 1000 (omega arith)

-- The counter stands at three: one attempt is left, and there is no delay.
second_subscription_fails : rxjs_retry_with_backoff never 4 1000 3 ≡ (threw (some 4), [])
unfolding rxjs_retry_with_backoff rxjs_loop after_call
second_subscription_fails = refl
