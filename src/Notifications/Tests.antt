-- ===== src/Notifications/Tests.antt =====
-- Runs of packages/backend/src/notifications on concrete users.
use Prim.Native.String.{String}
use backit_on_stellar.Prelude.{
  ℕ, ◌+◌, ◌<◌, ◌≡◌, ◌≢◌, ◌↔◌, refl, true, false, List, [], ◌∷◌, ◌++◌, none, some, arith,
}
use backit_on_stellar.Notifications.Preferences.{
  payout_ready, in_app, email, webhook, NotificationPreference, UpdatePreference, is_supported,
  channel_discrete, check_preference, update_preferences,
}
use backit_on_stellar.Notifications.Enabled.{effective}
use backit_on_stellar.Notifications.Updates.{updated, update_then_check}
use backit_on_stellar.Notifications.{
  undispatched, by_email, by_webhook, Notifications, Content, get_notifications, notify,
}
use backit_on_stellar.Notifications.Dispatch.{find_row, went_in, Attempt}
use backit_on_stellar.Notifications.Once.{IsOnce, times}
use backit_on_stellar.Notifications.Traces.{Op, notifying, processing, enqueueing, run, run-IsOnce}
use backit_on_stellar.Notifications.Closing.{Call, Closing, Outside}
use backit_on_stellar.Notifications.Alerts.{Run, runs, Agree, runs-Agree}
use backit_on_stellar.Notifications.Obeys.{all_told, told_if, notify_obeys, pages-append}

abbrev no_rows : List NotificationPreference
no_rows = []

abbrev wants_mail : UpdatePreference
wants_mail = record { notification_type = payout_ready; channel = email; enabled = true }

payout_supported : is_supported payout_ready ≡ true
unfolding is_supported
payout_supported = refl

mail_after_update :
    (check_preference (update_preferences no_rows "u" (wants_mail ∷ [])) "u" payout_ready email).0
    ≡ true
unfolding check_preference update_preferences channel_discrete
mail_after_update = refl

update_then_check_example :
    ((check_preference (update_preferences no_rows "u" (wants_mail ∷ [])) "u" payout_ready email).0
      ≡ updated (wants_mail ∷ []) payout_ready email (effective no_rows "u" payout_ready email))
    × ((other : String)
        → other ≢ "u"
        → effective (update_preferences no_rows "u" (wants_mail ∷ [])) other payout_ready email
          ≡ effective no_rows other payout_ready email)
update_then_check_example =
    update_then_check "u" payout_ready email no_rows (wants_mail ∷ []) payout_supported

abbrev empty : Notifications
empty = record {
  rows = [];
  next_id = 1;
  preferences = [];
  enqueued = [];
  attempts = [];
  errors = [];
}

abbrev payout : Content
payout = record { type = payout_ready; message = "You won"; reference_id = none }

abbrev mail_user : Notifications
mail_user = record empty {
  preferences =
      record {
        user_address = "u";
        notification_type = payout_ready;
        channel = email;
        enabled = true;
      }
      ∷ [];
}

notify_obeys_example :
    all_told (notify mail_user "u" payout undispatched).1.rows
    ≡ told_if
        (effective mail_user.preferences "u" payout_ready webhook)
        ("u", payout, by_webhook, false)
        (told_if
          (effective mail_user.preferences "u" payout_ready email)
          ("u", payout, by_email, false)
          (told_if
            (effective mail_user.preferences "u" payout_ready in_app)
            ("u", payout, undispatched, true)
            (all_told mail_user.rows)))
notify_obeys_example = notify_obeys mail_user "u" payout payout_supported undispatched

pages-append_example :
    let s = (notify mail_user "u" payout undispatched).1 in
    ((get_notifications s "u" 1 0).items ++ (get_notifications s "u" 2 1).items
      ≡ (get_notifications s "u" 3 0).items)
    × (((get_notifications s "u" 1 0).has_next ≡ true)
        ↔ (0 + 1 < (get_notifications s "u" 1 0).total_count))
pages-append_example = pages-append (notify mail_user "u" payout undispatched).1 "u" 1 2 0

empty-IsOnce : IsOnce mail_user
unfolding times find_row
empty-IsOnce = record { fresh = tt; once = λ id. omega arith }

abbrev goes_well : Attempt
goes_well = record { sender_throws = none; marks = true; update_error = ""; records = true }

abbrev refuses : Attempt
refuses = record goes_well { sender_throws = some "refused" }

-- The sender sends, but the row cannot be marked.
abbrev cannot_mark : Attempt
cannot_mark = record goes_well { marks = false; update_error = "lost"; records = false }

abbrev jobs : List Op
jobs =
    notifying "u" payout undispatched
    ∷ processing refuses 2
    ∷ processing goes_well 2
    ∷ enqueueing (λ row. went_in) (λ rows. rows)
    ∷ processing goes_well 2
    ∷ []

sent_once : ((run mail_user jobs).attempts ≡ 2 ∷ 2 ∷ []) × ((run mail_user jobs).errors ≡ 2 ∷ [])
unfolding run channel_discrete
sent_once = (refl, refl)

-- A row that could not be marked goes out again.
unmarked_goes_out_again :
    (run mail_user (
      notifying "u" payout undispatched
      ∷ processing cannot_mark 2
      ∷ processing goes_well 2
      ∷ [])).attempts
    ≡ 2 ∷ 2 ∷ []
unfolding run channel_discrete
unmarked_goes_out_again = refl

run-IsOnce_example : IsOnce (run mail_user jobs)
run-IsOnce_example = run-IsOnce jobs mail_user empty-IsOnce

abbrev soon : Call
soon = record { id = "c"; title = "t"; ends_at = some 3000000; odds_ratio = 0 }

abbrev outside : Outside
outside = record {
  message = λ title minutes position. title;
  stakes = λ id.
      record { user_address = "u"; position = "YES" }
      ∷ record { user_address = "u"; position = "NO" }
      ∷ [];
  stores = λ events key. true;
}

abbrev at_time : ℕ → Run
at_time now = record { out = outside; open_calls = soon ∷ []; now = now }

abbrev quiet : Closing
quiet = record { sent_alerts = []; emitted = []; notifications = empty }

abbrev quiet_mail : Closing
quiet_mail = record { sent_alerts = []; emitted = []; notifications = mail_user }

abbrev cron_runs : List Run
cron_runs = at_time 0 ∷ at_time 300000 ∷ at_time 2400000 ∷ []

two_waves : (runs quiet cron_runs).sent_alerts ≡ "c:u:urgent" ∷ "c:u:standard" ∷ []
unfolding runs
two_waves = refl

runs-Agree_example : Agree (runs quiet cron_runs) (runs quiet_mail cron_runs)
runs-Agree_example = runs-Agree cron_runs quiet quiet_mail (record { keys = refl; events = refl })
