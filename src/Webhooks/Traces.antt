-- ===== src/Webhooks/Traces.antt =====
-- Sequences of jobs that webhook-dispatch.processor.ts of packages/backend/src/webhooks processes, and
-- of changes to the subscriptions.
use Prim.Native.String.{String}
use backit_on_stellar.Prelude.{
  ℕ, ◌≤◌, ◌≡◌, refl, ◌∙◌, Bool, true, false, ◌&&◌, List, [], ◌∷◌, Option, none, some, if◌then◌else◌,
  Bool-cases, inl, inr,
}
use backit_on_stellar.Prelude.Text.{str_eq}
use backit_on_stellar.Prelude.Repo.{Repo}
use backit_on_stellar.Webhooks.Limiter.{is_allowed, max_per_second}
use backit_on_stellar.Webhooks.Limiter.Window.{
  within, log_if, Sound, Sound-later, request-Sound, empty-Sound,
}
use backit_on_stellar.Webhooks.{
  WebhookSubscription, DispatchWebhookJob, Post, answered, failing, Access, Posted, Webhooks,
  Outside, WebhookDeliveryLog, Outcome, record_delivery, after_post, deliver, process_active,
  process_sub, process, subscribe, unsubscribe, remove_if, granted, not_found, forbidden,
}

-- A job of the queue that is processed, or a change of the subscriptions.
pub data Op : Type 0 where
  processing : DispatchWebhookJob → ℕ → ℕ → Op
  subscribing : String → String → String → String → List String → Op
  unsubscribing : String → String → Op

-- The instants of the deliveries posted to a URL.
unfoldable pub posts_to : String → List Posted → List ℕ
posts_to u [] = []
posts_to u (p ∷ ps) = let rest = posts_to u ps in if str_eq p.url u then p.at ∷ rest else rest

module _ (sr : Repo String WebhookSubscription) (wr : Repo String (List ℕ)) (out : Outside) where
  abbrev pub State : Type 0
  State = Webhooks sr.Table wr.Table

  unfoldable pub step : State → Op → State
  step s (processing job attempts_made now) = (process sr wr out s job attempts_made now).1
  step s (subscribing id user url secret events) = subscribe sr wr out s id user url secret events
  step s (unsubscribing user id) = (unsubscribe sr wr out s user id).1

  unfoldable pub run : State → List Op → State
  run s [] = s
  run s (op ∷ ops) = run (step s op) ops

  -- The clock of the processor does not go back.
  abbrev pub Ordered : ℕ → List Op → Type 0
  Ordered t [] = Unit
  Ordered t (processing job attempts_made now ∷ ops) = (t ≤ now) × Ordered now ops
  Ordered t (subscribing id user url secret events ∷ ops) = Ordered t ops
  Ordered t (unsubscribing user id ∷ ops) = Ordered t ops

  abbrev limited : String → State → wr.Table × List ℕ
  limited u s = (s.windows, posts_to u s.posted)

  record_delivery-limited :
      (u : String) (fails : Option String) (end : Outcome) (s : State) (log : WebhookDeliveryLog)
      → limited u (record_delivery sr wr out fails end s log).1 ≡ limited u s
  unfolding record_delivery
  record_delivery-limited u none end s log = refl
  record_delivery-limited u (some why) end s log = refl

  after_post-limited :
      (u : String) (p : Post) (s : State) (job : DispatchWebhookJob) (payload : String)
      (attempts_made : ℕ)
      → limited u (after_post sr wr out p s job payload attempts_made).1 ≡ limited u s
  unfolding after_post
  after_post-limited u (answered status) s job payload attempts_made =
      record_delivery-limited u _ _ s _
  after_post-limited u (failing status message) s job payload attempts_made =
      record_delivery-limited u _ _ s _

  deliver-limited :
      (u : String) (allowed : Bool) (w : wr.Table) (s : State) (sub : WebhookSubscription)
      (job : DispatchWebhookJob) (attempts_made now : ℕ)
      → limited u (deliver sr wr out allowed (record s { windows = w }) sub job attempts_made now).1
        ≡ (w, log_if wr u (str_eq sub.url u && allowed) now (posts_to u s.posted))
  unfolding deliver posts_to
  deliver-limited u false w s sub job attempts_made now = elim (Bool-cases (str_eq sub.url u)) [
    | inl e ↦ rw e refl
    | inr e ↦ rw e refl
  ]
  deliver-limited u true w s sub job attempts_made now =
      let payload = out.build_payload job.event job.event_data sub.secret now in
      after_post-limited u (out.post sub.url payload) _ job payload attempts_made
      ∙ elim (Bool-cases (str_eq sub.url u)) [ inl e ↦ rw e refl | inr e ↦ rw e refl ]

  active-Sound :
      (u : String) (active : Bool) (t : ℕ) (s : State) (sub : WebhookSubscription)
      (job : DispatchWebhookJob) (attempts_made now : ℕ)
      → t ≤ now
      → Sound wr u t (limited u s)
      → Sound wr u now (limited u (process_active sr wr out active s sub job attempts_made now).1)
  unfolding process_active
  active-Sound u false t s sub job attempts_made now h k = Sound-later wr u t now _ h k
  active-Sound u true t s sub job attempts_made now h k =
      let (allowed, w) = is_allowed wr s.windows sub.url now in
      rw (deliver-limited u allowed w s sub job attempts_made now)
        (request-Sound wr u t (limited u s) (record { url = sub.url; now = now }) h k)

  process-Sound :
      (u : String) (t : ℕ) (s : State) (job : DispatchWebhookJob) (attempts_made now : ℕ)
      (o : Option WebhookSubscription)
      → t ≤ now
      → Sound wr u t (limited u s)
      → Sound wr u now (limited u (process_sub sr wr out o s job attempts_made now).1)
  unfolding process_sub
  process-Sound u t s job attempts_made now none h k = Sound-later wr u t now _ h k
  process-Sound u t s job attempts_made now (some sub) h k =
      active-Sound u sub.is_active t s sub job attempts_made now h k

  unsubscribe-limited :
      (u : String) (a : Access) (s : State) (id : String)
      → limited u (remove_if sr wr out a s id).1 ≡ limited u s
  unfolding remove_if
  unsubscribe-limited u granted s id = refl
  unsubscribe-limited u not_found s id = refl
  unsubscribe-limited u forbidden s id = refl

  run-Sound :
      (u : String) (t : ℕ) (s : State) (ops : List Op)
      → Ordered t ops
      → Sound wr u t (limited u s)
      → (a : ℕ) → within a (posts_to u (run s ops).posted) ≤ max_per_second
  unfolding run step process subscribe unsubscribe
  run-Sound u t s [] h k a = k.few a
  run-Sound u t s (processing job attempts_made now ∷ ops) h k a =
      run-Sound u now (step s (processing job attempts_made now)) ops h.1
        (process-Sound u t s job attempts_made now _ h.0 k) a
  run-Sound u t s (subscribing id user url secret events ∷ ops) h k a =
      run-Sound u t (step s (subscribing id user url secret events)) ops h k a
  run-Sound u t s (unsubscribing user id ∷ ops) h k a =
      run-Sound u t (step s (unsubscribing user id)) ops h (rw (unsubscribe-limited u _ s id) k) a

  -- Whatever jobs are processed, at times that do not go back, and however the subscriptions change
  -- in between, no more than 10 deliveries are posted to one URL within any 1000 milliseconds, by all
  -- of the subscriptions with that URL together.
  pub posts_bounded :
      (subs : sr.Table) (ops : List Op) (u : String) (a : ℕ)
      → Ordered 0 ops
      → let s : State = record { subs = subs; windows = wr.empty; posted = []; logs = [] } in
        within a (posts_to u (run s ops).posted) ≤ max_per_second
  unfolding posts_to
  posts_bounded subs ops u a h = run-Sound u 0 _ ops h (empty-Sound wr u) a
