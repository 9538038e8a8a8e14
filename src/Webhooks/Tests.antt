-- ===== src/Webhooks/Tests.antt =====
-- Runs of packages/backend/src/webhooks on a concrete subscription.
use Prim.Native.String.{String}
use backit_on_stellar.Prelude.{
  ℕ, ◌≤◌, ◌≡◌, refl, sym, ◌∙◌, true, List, [], ◌∷◌, Option, none, some, if◌then◌else◌, ltb, length,
  arith,
}
use backit_on_stellar.Prelude.Text.{str_eq, str_eq_iff}
use backit_on_stellar.Prelude.Repo.{Repo, function_repo, put, put_self, put_ne}
use backit_on_stellar.Webhooks.Limiter.{recent, is_allowed, max_per_second}
use backit_on_stellar.Webhooks.Limiter.Window.{Request, requests, within, limiter_exact}
use backit_on_stellar.Webhooks.{
  WebhookSubscription, DispatchWebhookJob, answered, again, rate_limited, JobQueue, Webhooks,
  Outside, process,
}
use backit_on_stellar.Webhooks.Process.{Delivered, process_delivers}
use backit_on_stellar.Webhooks.Traces.{Op, processing, subscribing, run, posts_to, posts_bounded}

abbrev subs_repo : Repo String WebhookSubscription
subs_repo = function_repo str_eq str_eq_iff

abbrev windows_repo : Repo String (List ℕ)
windows_repo = function_repo str_eq str_eq_iff

abbrev twice : List Request
twice = record { url = "u"; now = 5 } ∷ record { url = "v"; now = 900 } ∷ []

limiter_exact_example :
    let (windows, log) = requests windows_repo "u" (windows_repo.empty, []) twice in
    (is_allowed windows_repo windows "u" 1004).0 ≡ ltb (length (recent 1004 log)) max_per_second
limiter_exact_example =
    limiter_exact windows_repo "u" twice 1004 (omega arith, (omega arith, tt)) (omega arith)

abbrev outside : Outside
outside = record {
  build_payload = λ event event_data secret now. "{}";
  post = λ url payload. answered 204;
  log_fails = λ log. none;
}

abbrev sub : WebhookSubscription
sub = record {
  id = "s";
  user_address = "GALICE";
  url = "u";
  secret = "secret";
  events = "call.resolved" ∷ [];
  is_active = true;
}

abbrev job : DispatchWebhookJob
job = record { subscription_id = "s"; event = "call.resolved"; event_data = "{}" }

abbrev start : Webhooks subs_repo.Table windows_repo.Table
start = record {
  subs = subs_repo.save subs_repo.empty "s" sub;
  windows = windows_repo.empty;
  posted = [];
  logs = [];
}

process_delivers_example :
    let r = process subs_repo windows_repo outside start job 0 7 in
    if (is_allowed windows_repo start.windows "u" 7).0
    then Delivered subs_repo windows_repo outside start sub job 0 7 r
    else ((r.0 ≡ again (rate_limited "u")) × (r.1.posted ≡ []) × (r.1.logs ≡ []))
process_delivers_example =
    process_delivers subs_repo windows_repo outside start sub job 0 7
      (subs_repo.find_one-save_self _ _ _) refl

abbrev two_jobs : List Op
two_jobs = processing job 0 7 ∷ subscribing "t" "GBOB" "u" "k" [] ∷ processing job 1 8 ∷ []

posts_bounded_example :
    let s : Webhooks subs_repo.Table windows_repo.Table = record {
      subs = start.subs;
      windows = windows_repo.empty;
      posted = [];
      logs = [];
    } in
    within 7 (posts_to "u" (run subs_repo windows_repo outside s two_jobs).posted) ≤ max_per_second
posts_bounded_example =
    posts_bounded subs_repo windows_repo outside start.subs two_jobs "u" 7
      (omega arith, (omega arith, tt))

-- A queue as a function of the ids.
abbrev Jobs : Type 0
Jobs = String → Option DispatchWebhookJob

unfoldable add_new : Option DispatchWebhookJob → Jobs → String → DispatchWebhookJob → Jobs
add_new none q id j = put str_eq str_eq_iff q id j
add_new (some old) q id j = q

add_known :
    (q : Jobs) (id : String) (old j : DispatchWebhookJob)
    → q id ≡ some old
    → add_new (q id) q id j ≡ q
unfolding add_new
add_known q id old j h = rw h refl

add_self :
    (q : Jobs) (id : String) (j : DispatchWebhookJob)
    → q id ≡ none
    → add_new (q id) q id j id ≡ some j
unfolding add_new
add_self q id j h = rw h (put_self str_eq str_eq_iff q id j)

add_other_of :
    (o : Option DispatchWebhookJob) (q : Jobs) (id other : String) (j old : DispatchWebhookJob)
    → q id ≡ o
    → q other ≡ some old
    → add_new o q id j other ≡ some old
unfolding add_new
add_other_of (some found) q id other j old e h = h
add_other_of none q id other j old e h =
    put_ne str_eq str_eq_iff q id other j (λ p. let g : none ≡ some old = sym e ∙ rw p h in cc) ∙ h

jobs : JobQueue
jobs = record {
  Queue = Jobs;
  get_job = λ q id. q id;
  add = λ q id j. add_new (q id) q id j;
  add_known = add_known;
  get_job-add_self = add_self;
  get_job-add_other = λ q id other j old h. add_other_of (q id) q id other j old refl h;
}

abbrev no_jobs : jobs.Queue
unfolding jobs
no_jobs = λ id. none
