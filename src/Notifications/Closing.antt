-- ===== src/Notifications/Closing.antt =====
-- packages/backend/src/notifications/closing-soon.service.ts: alerts for calls that close soon.
use Prim.Native.String
use Prim.Native.String.{String}
use backit_on_stellar.Prelude.{
  ℕ, ◌+◌, ◌-◌, ◌/◌, Bool, true, false, List, [], ◌∷◌, Option, none, some, if◌then◌else◌, leb,
}
use backit_on_stellar.Prelude.Text.{str_eq}
use backit_on_stellar.Notifications.Preferences.{call_closing, in_app, check_preference}
use backit_on_stellar.Notifications.{Notifications, undispatched, create_notification}

pub data AlertWave : Type 0 where
  standard urgent : AlertWave

pub data Position : Type 0 where
  up down : Position

-- What is read of a call; the odds are those of `computeOddsRatio`.
pub record Call : Type 0 where
  pub id : String
  pub title : String
  pub ends_at : Option ℕ
  pub odds_ratio : ℕ

pub record Stake : Type 0 where
  pub user_address : String
  pub position : String

pub record ClosingSoonEvent : Type 0 where
  pub call_id : String
  pub title : String
  pub user_address : String
  pub position : Position
  pub minutes_left : ℕ
  pub odds_ratio : ℕ
  pub wave : AlertWave

-- The keys of the alerts that were sent, the events that were emitted, the newest first, and the
-- notifications.
pub record Closing : Type 0 where
  pub sent_alerts : List String
  pub emitted : List ClosingSoonEvent
  pub notifications : Notifications

-- The text of the message, the stakes of a call, and whether the database stores the
-- notification of a key after these events.
pub record Outside : Type 0 where
  pub message : String → ℕ → Position → String
  pub stakes : String → List Stake
  pub stores : List ClosingSoonEvent → String → Bool

unfoldable pub wave_text : AlertWave → String
wave_text standard = "standard"
wave_text urgent = "urgent"

unfoldable pub alert_key : String → String → AlertWave → String
unfolding wave_text
alert_key id user wave =
    String.◌++◌ id (String.◌++◌ ":" (String.◌++◌ user (String.◌++◌ ":" (wave_text wave))))

unfoldable pub has_key : List String → String → Bool
has_key [] key = false
has_key (k ∷ ks) key = if str_eq k key then true else has_key ks key

-- `Math.max(0, Math.round(ms / 60000))`, for a time that is not over.
unfoldable pub minutes_left : ℕ → ℕ → ℕ
minutes_left ends_at now = (ends_at - now + 30000) / 60000

unfoldable pub wave_of : ℕ → AlertWave
wave_of minutes = if leb minutes 15 then urgent else standard

unfoldable pub position_of : Stake → Position
position_of stake = if str_eq stake.position "YES" then up else down

abbrev pub event_of : Call → ℕ → Stake → ClosingSoonEvent
event_of call minutes stake = record {
  call_id = call.id;
  title = call.title;
  user_address = stake.user_address;
  position = position_of stake;
  minutes_left = minutes;
  odds_ratio = call.odds_ratio;
  wave = wave_of minutes;
}

-- `Between(now, horizon)`, and the calls that are open are the argument.
unfoldable pub ends_soon : ℕ → Option ℕ → Bool
ends_soon now none = false
ends_soon now (some at) = if leb now at then leb at (now + 3600000) else false

unfoldable pub closing_calls : ℕ → List Call → List Call
unfolding ends_soon
closing_calls now [] = []
closing_calls now (c ∷ cs) =
    if ends_soon now c.ends_at then c ∷ closing_calls now cs else closing_calls now cs

module _ (out : Outside) where
  -- A stake whose user wants alerts: whether the loop goes on, and the state.
  unfoldable pub alert : Closing → Call → ℕ → Stake → String → Bool × Closing
  unfolding create_notification position_of wave_of
  alert s call minutes stake key =
      if out.stores s.emitted key
      then (
        true,
        record {
          sent_alerts = key ∷ s.sent_alerts;
          emitted = event_of call minutes stake ∷ s.emitted;
          notifications =
              (create_notification s.notifications stake.user_address
                (record {
                  type = call_closing;
                  message = out.message call.title minutes (position_of stake);
                  reference_id = some call.id;
                })
                undispatched true).1;
        },
      )
      else (false, s)

  unfoldable pub alert_if : Bool → Closing → Call → ℕ → Stake → String → Bool × Closing
  unfolding alert
  alert_if true s call minutes stake key = alert s call minutes stake key
  alert_if false s call minutes stake key = (true, record s { sent_alerts = key ∷ s.sent_alerts })

  -- The body of the loop over the stakes.
  unfoldable pub process_stake : Closing → Call → ℕ → Stake → Bool × Closing
  unfolding alert_if has_key alert_key wave_of check_preference
  process_stake s call minutes stake =
      let key = alert_key call.id stake.user_address (wave_of minutes) in
      let (enabled, prefs) =
        check_preference s.notifications.preferences stake.user_address call_closing in_app in
      let s' : Closing = record s {
        notifications = record s.notifications { preferences = prefs };
      } in
      if has_key s.sent_alerts key then (true, s) else alert_if enabled s' call minutes stake key

  -- An exception ends the loop.
  unfoldable pub go_on : Bool → Closing → Closing → Closing
  go_on true s rest = rest
  go_on false s rest = s

  unfoldable pub process_stakes : Closing → Call → ℕ → List Stake → Closing
  unfolding process_stake go_on
  process_stakes s call minutes [] = s
  process_stakes s call minutes (stake ∷ stakes) =
      let (more, s') = process_stake s call minutes stake in
      go_on more s' (process_stakes s' call minutes stakes)

  unfoldable pub process_ending : Option ℕ → Closing → Call → ℕ → Closing
  unfolding process_stakes minutes_left
  process_ending none s call now = s
  process_ending (some ends_at) s call now =
      process_stakes s call (minutes_left ends_at now) (out.stakes call.id)

  unfoldable pub process_call : Closing → Call → ℕ → Closing
  unfolding process_ending
  process_call s call now = process_ending call.ends_at s call now

  -- The loop of `handleClosingSoon`, over the calls that end within the hour.
  unfoldable pub process_calls : Closing → List Call → ℕ → Closing
  unfolding process_call
  process_calls s [] now = s
  process_calls s (call ∷ calls) now = process_calls (process_call s call now) calls now

  unfoldable pub handle_closing_soon : Closing → List Call → ℕ → Closing
  unfolding process_calls closing_calls
  handle_closing_soon s open_calls now = process_calls s (closing_calls now open_calls) now
