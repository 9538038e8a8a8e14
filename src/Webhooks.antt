-- ===== src/Webhooks.antt =====
-- packages/backend/src/webhooks: subscriptions, the queue of deliveries and the delivery of a job
-- (webhook.service.ts, webhook-dispatch.processor.ts, webhook.entity.ts).
pub mod Limiter
pub mod Delivery
pub mod Process
pub mod Traces
mod Tests
use Prim.Native.String
use Prim.Native.String.{String}
use backit_on_stellar.Prelude.{
  ℕ, ◌+◌, ◌≡◌, Bool, true, false, List, [], ◌∷◌, Option, none, some, ◌&&◌, ◌||◌, leb, ltb,
  if◌then◌else◌,
}
use backit_on_stellar.Prelude.Text.{str_eq, index_key}
use backit_on_stellar.Prelude.Repo.{Repo}
use backit_on_stellar.Webhooks.Limiter.{is_allowed}

pub record WebhookSubscription : Type 0 where
  pub id : String
  pub user_address : String
  pub url : String
  pub secret : String
  pub events : List String
  pub is_active : Bool

pub record WebhookDeliveryLog : Type 0 where
  pub subscription_id : String
  pub event_type : String
  pub payload : String
  pub success : Bool
  pub status_code : Option ℕ
  pub error_message : Option String
  pub attempt : ℕ

-- The data of a job, as JSON.
pub record DispatchWebhookJob : Type 0 where
  pub subscription_id : String
  pub event : String
  pub event_data : String

-- What a POST gives: an answer with a status, or an error with the status of its response, if any,
-- and its message.
pub data Post : Type 0 where
  answered : ℕ → Post
  failing : Option ℕ → String → Post

pub data Failure : Type 0 where
  rate_limited : String → Failure
  delivery_failed : String → Failure
  log_failed : String → Failure

-- What `process` does: it returns, or throws, for BullMQ to try again.
pub data Outcome : Type 0 where
  done : Outcome
  again : Failure → Outcome

pub data Access : Type 0 where
  granted not_found forbidden : Access

-- What the service uses of a BullMQ queue: a job whose id is in the queue is not added again.
pub record JobQueue : Type 1 where
  pub Queue : Type 0
  pub get_job : Queue → String → Option DispatchWebhookJob
  pub add : Queue → String → DispatchWebhookJob → Queue
  pub add_known :
      (q : Queue) (id : String) (old job : DispatchWebhookJob)
      → get_job q id ≡ some old
      → add q id job ≡ q
  pub get_job-add_self :
      (q : Queue) (id : String) (job : DispatchWebhookJob)
      → get_job q id ≡ none
      → get_job (add q id job) id ≡ some job
  pub get_job-add_other :
      (q : Queue) (id other : String) (job old : DispatchWebhookJob)
      → get_job q other ≡ some old
      → get_job (add q id job) other ≡ some old

-- A delivery that was posted: when, to which URL, with which payload.
pub record Posted : Type 0 where
  pub at : ℕ
  pub url : String
  pub payload : String

pub record Webhooks (T W : Type 0) : Type 0 where
  pub subs : T
  pub windows : W
  pub posted : List Posted
  pub logs : List WebhookDeliveryLog

unfoldable pub includes : String → List String → Bool
includes event [] = false
includes event (e ∷ es) = str_eq event e || includes event es

-- The id of the job of a subscription.
unfoldable pub job_id : String → String → ℕ → String
job_id id event now =
    String.◌++◌ id (String.◌++◌ "-" (String.◌++◌ event (String.◌++◌ "-" (index_key now))))

-- `buildPayload` with its `JSON.stringify` and the HMAC, all of the event, the data, the secret and
-- the time; the answer to a post; and the message with which the save of a log throws, if it does.
pub record Outside : Type 0 where
  pub build_payload : String → String → String → ℕ → String
  pub post : String → String → Post
  pub log_fails : WebhookDeliveryLog → Option String

module _ (jq : JobQueue) where
  -- `dispatchEvent`, given the active subscriptions.
  unfoldable pub dispatch_event :
      jq.Queue → List WebhookSubscription → String → String → ℕ → jq.Queue
  unfolding includes job_id
  dispatch_event q [] event event_data now = q
  dispatch_event q (sub ∷ subs) event event_data now =
      let job : DispatchWebhookJob = record {
        subscription_id = sub.id;
        event = event;
        event_data = event_data;
      } in
      let q' = if includes event sub.events then jq.add q (job_id sub.id event now) job else q in
      dispatch_event q' subs event event_data now

unfoldable pub is_success : ℕ → Bool
is_success status = leb 200 status && ltb status 300

module _ (sr : Repo String WebhookSubscription) (wr : Repo String (List ℕ)) (out : Outside) where
  abbrev pub State : Type 0
  State = Webhooks sr.Table wr.Table

  unfoldable pub subscribe : State → String → String → String → String → List String → State
  subscribe s id user url secret events =
      let sub : WebhookSubscription = record {
        id = id;
        user_address = user;
        url = url;
        secret = secret;
        events = events;
        is_active = true;
      } in
      record s { subs = sr.save s.subs id sub }

  -- `findOwnedOrThrow`.
  unfoldable pub access : Option WebhookSubscription → String → Access
  access none user = not_found
  access (some sub) user = if str_eq sub.user_address user then granted else forbidden

  unfoldable pub remove_if : Access → State → String → Access × State
  remove_if granted s id =
      (granted, record s { subs = sr.delete_where (λ sub. str_eq sub.id id) s.subs })
  remove_if not_found s id = (not_found, s)
  remove_if forbidden s id = (forbidden, s)

  unfoldable pub unsubscribe : State → String → String → Access × State
  unfolding access remove_if
  unsubscribe s user id = remove_if (access (sr.find_one s.subs id) user) s id

  -- The log of an attempt; `recordDelivery` saves it.
  abbrev pub delivery :
      DispatchWebhookJob → String → Bool → Option ℕ → Option String → ℕ → WebhookDeliveryLog
  delivery job payload success status error attempts_made = record {
    subscription_id = job.subscription_id;
    event_type = job.event;
    payload = payload;
    success = success;
    status_code = status;
    error_message = error;
    attempt = attempts_made + 1;
  }

  -- The `finally`, after which the `try` or the `catch` ends as it would, unless the save throws.
  unfoldable pub record_delivery :
      Option String → Outcome → State → WebhookDeliveryLog → Outcome × State
  record_delivery none end s log = (end, record s { logs = log ∷ s.logs })
  record_delivery (some why) end s log = (again (log_failed why), s)

  -- The `try`, `catch` and `finally` of `process`.
  unfoldable pub after_post : Post → State → DispatchWebhookJob → String → ℕ → Outcome × State
  unfolding is_success record_delivery
  after_post (answered status) s job payload attempts_made =
      let log = delivery job payload (is_success status) (some status) none attempts_made in
      record_delivery (out.log_fails log) done s log
  after_post (failing status message) s job payload attempts_made =
      let log = delivery job payload false status (some message) attempts_made in
      record_delivery (out.log_fails log) (again (delivery_failed message)) s log

  unfoldable pub deliver :
      Bool → State → WebhookSubscription → DispatchWebhookJob → ℕ → ℕ → Outcome × State
  unfolding after_post
  deliver false s sub job attempts_made now = (again (rate_limited sub.url), s)
  deliver true s sub job attempts_made now =
      let payload = out.build_payload job.event job.event_data sub.secret now in
      let posted : Posted = record { at = now; url = sub.url; payload = payload } in
      after_post (out.post sub.url payload) (record s { posted = posted ∷ s.posted }) job payload
        attempts_made

  unfoldable pub process_active :
      Bool → State → WebhookSubscription → DispatchWebhookJob → ℕ → ℕ → Outcome × State
  unfolding deliver
  process_active false s sub job attempts_made now = (done, s)
  process_active true s sub job attempts_made now =
      let (allowed, windows) = is_allowed wr s.windows sub.url now in
      deliver allowed (record s { windows = windows }) sub job attempts_made now

  unfoldable pub process_sub :
      Option WebhookSubscription → State → DispatchWebhookJob → ℕ → ℕ → Outcome × State
  unfolding process_active
  process_sub none s job attempts_made now = (done, s)
  process_sub (some sub) s job attempts_made now =
      process_active sub.is_active s sub job attempts_made now

  unfoldable pub process : State → DispatchWebhookJob → ℕ → ℕ → Outcome × State
  unfolding process_sub
  process s job attempts_made now =
      process_sub (sr.find_one s.subs job.subscription_id) s job attempts_made now
