-- ===== src/Idempotency/Tests.antt =====
-- Runs of the idempotency model (packages/backend/src/idempotency) on concrete requests.
use Prim.Native.String
use Prim.Native.String.{String}
use backit_on_stellar.Prelude.{◌+◌, ◌≤◌, ◌≡◌, ◌≢◌, refl, true, some, List, [], ◌∷◌}
use backit_on_stellar.Prelude.Text.{units}
use backit_on_stellar.Prelude.Json.{Value, str, obj, arr, num, item, no_items, end, field}
use backit_on_stellar.Prelude.Repo.{Repo, function_repo, put}
use backit_on_stellar.Idempotency.{
  ClaimKey, IdempotencyRecord, Service, complete_with, claim_or_replay, claimed, busy, fail,
  is_retryable, placeholder, same_id, same_id_iff,
}
use backit_on_stellar.Idempotency.Sanitise.{sanitise, complete, CleanFields, sanitise-CleanFields}
use backit_on_stellar.Idempotency.Lifecycle.{row}
use backit_on_stellar.Idempotency.Traces.{Op, claim, done, failure, step, executions}
use backit_on_stellar.Idempotency.Traces.Bound.{slot, renewals, executions_bounded}
use backit_on_stellar.Idempotency.Interceptor.{
  Request, single, begin, settle, run, replay, returned, first_value, check_key,
}
use backit_on_stellar.Idempotency.Interceptor.Replays.{duplicate_replays}

abbrev table_repo : Repo ClaimKey IdempotencyRecord
table_repo = function_repo same_id same_id_iff

abbrev fresh : Service table_repo.Table
fresh = record { table = table_repo.empty; events = [] }

abbrev order : ClaimKey
order = record { key = "order-1"; route = "POST /calls"; principal = "10.0.0.1" }

abbrev other_order : ClaimKey
other_order = record { key = "order-2"; route = "POST /calls"; principal = "10.0.0.1" }

abbrev response : Value
response = obj (field "token" (str (units "abc")) (field "items" (arr (item (num 1) no_items)) end))

abbrev calls : List Op
calls =
    claim order "f" 0
    ∷ claim order "f" 1
    ∷ failure order 503 (units "down") 2
    ∷ claim order "f" 3
    ∷ done order 201 response 4
    ∷ claim order "f" 5
    ∷ []

-- The sequence runs the handler twice: at first, and after the retryable failure.
two_executions : executions table_repo order fresh calls ≡ 2
unfolding function_repo put executions step claim_or_replay complete complete_with fail is_retryable
    same_id
two_executions = refl

abbrev running : Service table_repo.Table
running = (claim_or_replay table_repo fresh order "f" 0).1

running-row : row table_repo running order ≡ some (placeholder table_repo order "f" 0)
unfolding function_repo put claim_or_replay same_id
running-row = refl

first_claim : (claim_or_replay table_repo fresh order "f" 0).0 ≡ claimed
unfolding function_repo put claim_or_replay
first_claim = refl

second_busy : (claim_or_replay table_repo running order "f" 1).0 ≡ busy
unfolding function_repo put claim_or_replay same_id
second_busy = refl

second_refused : (claim_or_replay table_repo running order "f" 1).0 ≢ claimed
second_refused = λ e. cc (rw second_busy at e)

other_order_ne : other_order ≢ order
unfolding same_id
other_order_ne = λ e. cc ((same_id_iff other_order order).1 e)

executions_bounded_example :
    executions table_repo order fresh calls
    ≤ slot (row table_repo fresh order) + renewals order calls
executions_bounded_example = executions_bounded table_repo fresh order calls

sanitise-CleanFields_example : CleanFields (sanitise response)
sanitise-CleanFields_example = sanitise-CleanFields response

abbrev digest : String → String → Value → String
digest principal route body = String.◌++◌ principal route

abbrev request : Request
request = record {
  key_header = single "order-1";
  method = "POST";
  route_path = some "/calls";
  path = "/calls";
  address = some "10.0.0.1";
  body = response;
}

abbrev begun : Service table_repo.Table
begun = (begin table_repo digest fresh true request 0).1

request_runs : begin table_repo digest fresh true request 0 ≡ (run order, begun)
unfolding function_repo put begin first_value check_key claim_or_replay
request_runs = refl

duplicate_replays_example :
    (begin table_repo digest
      (settle table_repo digest begun order (returned 201 response) true 8).1
      true
      request
      9).0
    ≡ replay 201 (sanitise response)
duplicate_replays_example =
    duplicate_replays table_repo digest fresh begun request order 201 0 8 9 response request_runs
