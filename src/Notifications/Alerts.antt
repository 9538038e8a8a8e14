-- ===== src/Notifications/Alerts.antt =====
-- What the alerts of packages/backend/src/notifications/closing-soon.service.ts come to.
use Prim.Native.String.{String}
use backit_on_stellar.Prelude.{
  ℕ, suc, ◌+◌, ◌≤◌, ◌≡◌, refl, Bool, true, false, List, [], ◌∷◌, Option, none, some, if◌then◌else◌,
  Bool-cases, inl, inr,
}
use backit_on_stellar.Prelude.Text.{str_eq}
use backit_on_stellar.Notifications.Closing.{
  Call, Stake, ClosingSoonEvent, Closing, Outside, alert_key, has_key, minutes_left, wave_of, alert,
  alert_if, process_stake, go_on, process_stakes, process_ending, process_call, process_calls,
  closing_calls, handle_closing_soon,
}

abbrev key_of : ClosingSoonEvent → String
key_of e = alert_key e.call_id e.user_address e.wave

unfoldable pub count_key : String → List ClosingSoonEvent → ℕ
count_key k [] = 0
count_key k (e ∷ es) = if str_eq (key_of e) k then suc (count_key k es) else count_key k es

abbrev room : Bool → ℕ
room true = 0
room false = 1

-- No key has two events, and a key without an entry has none.
abbrev pub IsSingle : Closing → Type 0
IsSingle s = (k : String) → count_key k s.emitted + room (has_key s.sent_alerts k) ≤ 1

-- A run of the cron job.
pub record Run : Type 0 where
  pub out : Outside
  pub open_calls : List Call
  pub now : ℕ

unfoldable pub runs : Closing → List Run → Closing
unfolding handle_closing_soon
runs s [] = s
runs s (r ∷ rs) = runs (handle_closing_soon r.out s r.open_calls r.now) rs

-- The same alerts have been sent.
pub record Agree (s t : Closing) : Type 0 where
  pub keys : s.sent_alerts ≡ t.sent_alerts
  pub events : s.emitted ≡ t.emitted

module _ (out : Outside) where
  process_stake-Agree :
      (s t : Closing) (call : Call) (minutes : ℕ) (stake : Stake)
      → Agree s t
      → ((process_stake out s call minutes stake).0 ≡ (process_stake out t call minutes stake).0)
        × Agree
            (process_stake out s call minutes stake).1
            (process_stake out t call minutes stake).1
  unfolding process_stake alert_if alert
  process_stake-Agree s t call minutes stake h =
      let key = alert_key call.id stake.user_address (wave_of minutes) in
      elim (Bool-cases (has_key t.sent_alerts key)) [
        | inl e ↦ rw h.keys (rw e (refl, record { keys = refl; events = h.events }))
        | inr e ↦ rw h.keys (
            rw e (
              rw h.events (elim (Bool-cases (out.stores t.emitted key)) [
                | inl d ↦ rw d (refl, record { keys = refl; events = refl })
                | inr d ↦ rw d (refl, record { keys = refl; events = refl })
              ])))
      ]

  go_on-Agree :
      (b b' : Bool) (s s' t t' : Closing)
      → b ≡ b'
      → Agree s s'
      → Agree t t'
      → Agree (go_on out b s t) (go_on out b' s' t')
  unfolding go_on
  go_on-Agree true true s s' t t' e h k = k
  go_on-Agree false false s s' t t' e h k = h
  go_on-Agree true false s s' t t' e h k = cc
  go_on-Agree false true s s' t t' e h k = cc

  process_stakes-Agree :
      (stakes : List Stake) (s t : Closing) (call : Call) (minutes : ℕ)
      → Agree s t
      → Agree (process_stakes out s call minutes stakes) (process_stakes out t call minutes stakes)
  unfolding process_stakes
  process_stakes-Agree [] s t call minutes h = h
  process_stakes-Agree (stake ∷ stakes) s t call minutes h =
      let (same, one) = process_stake-Agree s t call minutes stake h in
      go_on-Agree _ _ _ _ _ _ same one (
        process_stakes-Agree stakes (process_stake out s call minutes stake).1
          (process_stake out t call minutes stake).1 call minutes one)

  process_ending-Agree :
      (ends_at : Option ℕ) (s t : Closing) (call : Call) (now : ℕ)
      → Agree s t
      → Agree (process_ending out ends_at s call now) (process_ending out ends_at t call now)
  unfolding process_ending
  process_ending-Agree none s t call now h = h
  process_ending-Agree (some ends_at) s t call now h =
      process_stakes-Agree (out.stakes call.id) s t call (minutes_left ends_at now) h

  process_calls-Agree :
      (calls : List Call) (s t : Closing) (now : ℕ)
      → Agree s t
      → Agree (process_calls out s calls now) (process_calls out t calls now)
  unfolding process_calls process_call
  process_calls-Agree [] s t now h = h
  process_calls-Agree (call ∷ calls) s t now h =
      process_calls-Agree calls (process_call out s call now) (process_call out t call now) now
        (process_ending-Agree call.ends_at s t call now h)

-- Which alerts the runs send does not depend on any preference, nor on the notifications: from two
-- states in which the same alerts have been sent, the same are sent.
pub runs-Agree : (rs : List Run) (s t : Closing) → Agree s t → Agree (runs s rs) (runs t rs)
unfolding runs handle_closing_soon
runs-Agree [] s t h = h
runs-Agree (r ∷ rs) s t h =
    runs-Agree rs (handle_closing_soon r.out s r.open_calls r.now)
      (handle_closing_soon r.out t r.open_calls r.now)
      (process_calls-Agree r.out (closing_calls r.now r.open_calls) s t r.now h)
