-- ===== src/Webhooks/Process.antt =====
-- What `process` of packages/backend/src/webhooks/webhook-dispatch.processor.ts posts and logs.
use Prim.Native.String.{String}
use backit_on_stellar.Prelude.{
  ℕ, ◌+◌, ◌≡◌, ◌≤◌, ◌<◌, ◌↔◌, refl, arith, Bool, true, false, List, ◌∷◌, Option, none, some,
  if◌then◌else◌,
}
use backit_on_stellar.Prelude.Repo.{Repo}
use backit_on_stellar.Webhooks.Limiter.{is_allowed}
use backit_on_stellar.Webhooks.{
  WebhookSubscription, WebhookDeliveryLog, DispatchWebhookJob, Post, answered, failing, Outcome,
  done, again, rate_limited, delivery_failed, log_failed, Webhooks, Outside, is_success, delivery,
  record_delivery, after_post, deliver, process_active, process_sub, process,
}

-- There is an answer, and its status is in the 200s.
abbrev pub Succeeds : Post → Type 0
Succeeds (answered status) = (200 ≤ status) × (status < 300)
Succeeds (failing status message) = ⊥

is_success_iff : (status : ℕ) → (is_success status ≡ true) ↔ ((200 ≤ status) × (status < 300))
unfolding is_success
is_success_iff status = ground arith

abbrev pub is_answered : Post → Bool
is_answered (answered status) = true
is_answered (failing status message) = false

abbrev pub is_done : Outcome → Bool
is_done done = true
is_done (again why) = false

abbrev pub is_active_sub : Option WebhookSubscription → Bool
is_active_sub none = false
is_active_sub (some sub) = sub.is_active

module _ (sr : Repo String WebhookSubscription) (wr : Repo String (List ℕ)) (out : Outside) where
  abbrev pub State : Type 0
  State = Webhooks sr.Table wr.Table

  -- The log is saved, and the job is done exactly if there was an answer; or the save of the log
  -- throws, and then the job is thrown back.
  abbrev pub Logged :
      Option String → Post → WebhookDeliveryLog → List WebhookDeliveryLog → Outcome × State → Type 0
  Logged none post log logs (outcome, s') =
      (s'.logs ≡ log ∷ logs) × (is_done outcome ≡ is_answered post)
  Logged (some why) post log logs (outcome, s') =
      (s'.logs ≡ logs) × (outcome ≡ again (log_failed why))

  -- What is logged of a post.
  abbrev pub Tells : Post → String → ℕ → WebhookDeliveryLog → Type 0
  Tells post payload attempts_made log =
      (log.attempt ≡ attempts_made + 1)
      × ((log.success ≡ true) ↔ Succeeds post)
      × (log.payload ≡ payload)

  abbrev pub Delivered :
      State → WebhookSubscription → DispatchWebhookJob → ℕ → ℕ → Outcome × State → Type 0
  Delivered s sub job attempts_made now r =
      let payload = out.build_payload job.event job.event_data sub.secret now in
      let post = out.post sub.url payload in
      (r.1.posted ≡ record { at = now; url = sub.url; payload = payload } ∷ s.posted)
      × ((log : WebhookDeliveryLog) × Tells post payload attempts_made log
          × Logged (out.log_fails log) post log s.logs r)

  record-Logged :
      (saved : Option String) (p : Post) (end : Outcome) (s : State) (log : WebhookDeliveryLog)
      → is_done end ≡ is_answered p
      → let r = record_delivery sr wr out saved end s log in
        (r.1.posted ≡ s.posted) × Logged saved p log s.logs r
  unfolding record_delivery
  record-Logged none p end s log h = (refl, (refl, h))
  record-Logged (some why) p end s log h = (refl, (refl, refl))

  after_post_logs :
      (p : Post) (s : State) (job : DispatchWebhookJob) (payload : String) (attempts_made : ℕ)
      → let r = after_post sr wr out p s job payload attempts_made in
        (r.1.posted ≡ s.posted)
        × ((log : WebhookDeliveryLog) × Tells p payload attempts_made log
            × Logged (out.log_fails log) p log s.logs r)
  unfolding after_post
  after_post_logs (answered status) s job payload attempts_made =
      let log =
        delivery sr wr out job payload (is_success status) (some status) none attempts_made in
      let (posted, logged) = record-Logged (out.log_fails log) (answered status) done s log refl in
      (posted, (log, (refl, is_success_iff status, refl), logged))
  after_post_logs (failing status message) s job payload attempts_made =
      let log = delivery sr wr out job payload false status (some message) attempts_made in
      let (posted, logged) =
        record-Logged (out.log_fails log) (failing status message) (again (delivery_failed message))
          s log refl in
      (posted, (log, (refl, (λ e. absurd cc, λ e. elim e [ ]), refl), logged))

  deliver_cases :
      (allowed : Bool) (w : wr.Table) (s : State) (sub : WebhookSubscription)
      (job : DispatchWebhookJob) (attempts_made now : ℕ)
      → let r = deliver sr wr out allowed (record s { windows = w }) sub job attempts_made now in
        if allowed
        then Delivered s sub job attempts_made now r
        else ((r.0 ≡ again (rate_limited sub.url)) × (r.1.posted ≡ s.posted) × (r.1.logs ≡ s.logs))
  unfolding deliver
  deliver_cases false w s sub job attempts_made now = (refl, refl, refl)
  deliver_cases true w s sub job attempts_made now =
      let payload = out.build_payload job.event job.event_data sub.secret now in
      let (posted, log) =
        after_post_logs (out.post sub.url payload)
          (record s {
            windows = w;
            posted = record { at = now; url = sub.url; payload = payload } ∷ s.posted;
          })
          job payload attempts_made in
      (posted, log)

  active_cases :
      (active : Bool) (s : State) (sub : WebhookSubscription) (job : DispatchWebhookJob)
      (attempts_made now : ℕ)
      → active ≡ true
      → let r = process_active sr wr out active s sub job attempts_made now in
        if (is_allowed wr s.windows sub.url now).0
        then Delivered s sub job attempts_made now r
        else ((r.0 ≡ again (rate_limited sub.url)) × (r.1.posted ≡ s.posted) × (r.1.logs ≡ s.logs))
  unfolding process_active
  active_cases false s sub job attempts_made now h = absurd cc
  active_cases true s sub job attempts_made now h =
      let (allowed, w) = is_allowed wr s.windows sub.url now in
      deliver_cases allowed w s sub job attempts_made now

  skip_active :
      (active : Bool) (s : State) (sub : WebhookSubscription) (job : DispatchWebhookJob)
      (attempts_made now : ℕ)
      → active ≡ false
      → process_active sr wr out active s sub job attempts_made now ≡ (done, s)
  unfolding process_active
  skip_active true s sub job attempts_made now h = absurd cc
  skip_active false s sub job attempts_made now h = refl

  -- For an active subscription, `process` asks the rate limiter first. If that refuses, the job is
  -- thrown back, and nothing is posted or logged. If not, exactly one request is posted and one log
  -- of it made, with a number one above the attempts made, as a success exactly if there was an answer
  -- with a status from 200 to 299. If that log is saved, the job is done exactly if there was an answer;
  -- if its save throws, the job is thrown back without a log, even when the receiver answered.
  pub process_delivers :
      (s : State) (sub : WebhookSubscription) (job : DispatchWebhookJob) (attempts_made now : ℕ)
      → sr.find_one s.subs job.subscription_id ≡ some sub
      → sub.is_active ≡ true
      → let r = process sr wr out s job attempts_made now in
        if (is_allowed wr s.windows sub.url now).0
        then Delivered s sub job attempts_made now r
        else ((r.0 ≡ again (rate_limited sub.url)) × (r.1.posted ≡ s.posted) × (r.1.logs ≡ s.logs))
  unfolding process process_sub process_active
  process_delivers s sub job attempts_made now h active =
      rw h (active_cases sub.is_active s sub job attempts_made now active)

  -- A subscription that is missing or inactive is skipped: the job is done, nothing changes.
  pub process_skips :
      (s : State) (o : Option WebhookSubscription) (job : DispatchWebhookJob)
      (attempts_made now : ℕ)
      → sr.find_one s.subs job.subscription_id ≡ o
      → is_active_sub o ≡ false
      → process sr wr out s job attempts_made now ≡ (done, s)
  unfolding process process_sub process_active
  process_skips s none job attempts_made now h inactive = rw h refl
  process_skips s (some sub) job attempts_made now h inactive =
      rw h (skip_active sub.is_active s sub job attempts_made now inactive)
