-- ===== src/Webhooks/Delivery.antt =====
-- What webhook-dispatch.processor.ts and webhook.service.ts of packages/backend/src/webhooks do to
-- the queue, the log of deliveries and the requests that they send.
use Prim.Native.String.{String}
use backit_on_stellar.Prelude.{
  ℕ, ◌≡◌, refl, true, List, [], ◌∷◌, some, Bool-cases, Option-cases, inl, inr,
}
use backit_on_stellar.Webhooks.{
  WebhookSubscription, DispatchWebhookJob, JobQueue, includes, job_id, dispatch_event,
}

module _ (jq : JobQueue) where
  -- A queue in which every subscription to the event has its job.
  abbrev Queued : jq.Queue → List WebhookSubscription → String → ℕ → Type 0
  Queued q [] event now = Unit
  Queued q (sub ∷ subs) event now =
      (includes event sub.events ≡ true
        → (job : DispatchWebhookJob) × (jq.get_job q (job_id sub.id event now) ≡ some job))
      × Queued q subs event now

  dispatch_keeps :
      (subs : List WebhookSubscription) (event event_data id : String) (now : ℕ) (q : jq.Queue)
      (job : DispatchWebhookJob)
      → jq.get_job q id ≡ some job
      → jq.get_job (dispatch_event jq q subs event event_data now) id ≡ some job
  unfolding dispatch_event
  dispatch_keeps [] event event_data id now q job h = h
  dispatch_keeps (sub ∷ subs) event event_data id now q job h =
      elim (Bool-cases (includes event sub.events)) [
        | inl e ↦
            rw e
              (dispatch_keeps subs event event_data id now _ job (jq.get_job-add_other _ _ _ _ _ h))
        | inr e ↦ rw e (dispatch_keeps subs event event_data id now q job h)
      ]

  add_present :
      (q : jq.Queue) (id : String) (job : DispatchWebhookJob)
      → (old : DispatchWebhookJob) × (jq.get_job (jq.add q id job) id ≡ some old)
  add_present q id job = elim (Option-cases (jq.get_job q id)) [
    | inl e ↦ (job, jq.get_job-add_self q id job e)
    | inr (old, e) ↦ (old, rw (jq.add_known q id old job e) e)
  ]

  -- After a dispatch of an event, every given subscription that includes it has a job in the queue.
  pub dispatch_queues :
      (subs : List WebhookSubscription) (event event_data : String) (now : ℕ) (q : jq.Queue)
      → Queued (dispatch_event jq q subs event event_data now) subs event now
  unfolding dispatch_event
  dispatch_queues [] event event_data now q = tt
  dispatch_queues (sub ∷ subs) event event_data now q = (
    (λ e. rw e (
        let (old, h) = add_present q _ _ in
        (old, dispatch_keeps subs event event_data _ now _ old h))),
    dispatch_queues subs event event_data now _,
  )

  dispatch_known :
      (subs : List WebhookSubscription) (event event_data : String) (now : ℕ) (q : jq.Queue)
      → Queued q subs event now
      → dispatch_event jq q subs event event_data now ≡ q
  unfolding dispatch_event
  dispatch_known [] event event_data now q h = refl
  dispatch_known (sub ∷ subs) event event_data now q h =
      elim (Bool-cases (includes event sub.events)) [
        | inl e ↦
            let (old, k) = h.0 e in
            rw e (rw (jq.add_known q _ old _ k) (dispatch_known subs event event_data now q h.1))
        | inr e ↦ rw e (dispatch_known subs event event_data now q h.1)
      ]

  -- A second event of the same kind in the same millisecond adds no job for the subscriptions of the
  -- first, whatever its data: the id of a job holds the subscription, the event and the time only.
  pub second_event_dropped :
      (subs : List WebhookSubscription) (event first second : String) (now : ℕ) (q : jq.Queue)
      → let q' = dispatch_event jq q subs event first now in
        dispatch_event jq q' subs event second now ≡ q'
  second_event_dropped subs event first second now q =
      dispatch_known subs event second now _ (dispatch_queues subs event first now q)
