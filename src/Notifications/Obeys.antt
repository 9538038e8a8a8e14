-- ===== src/Notifications/Obeys.antt =====
-- What `notify` creates and `getNotifications` lists
-- (packages/backend/src/notifications/notifications.service.ts).
use Prim.Native.String.{String}
use backit_on_stellar.Prelude.{
  ℕ, suc, ◌+◌, ◌<◌, ◌≡◌, ◌↔◌, refl, sym, ap, ◌∙◌, Bool, true, false, List, [], ◌∷◌, ◌++◌, Option,
  none, some, ltb, ltb→lt, lt→ltb, take, drop, take-take, length, zero, length-take, length-drop,
  drop-drop, arith,
}
use backit_on_stellar.Notifications.Preferences.{
  NotificationPreference, in_app, email, webhook, is_supported, check_preference,
}
use backit_on_stellar.Notifications.Enabled.{effective, check-effective}
use backit_on_stellar.Notifications.{
  DispatchType, undispatched, by_email, by_webhook, Notification, Notifications, Content,
  create_notification, create_if, notify_enabled, notify, listed, get_notifications,
}

-- What is told over a channel: to whom, what, where it goes, and whether it shows in the application.
abbrev pub Told : Type 0
Told = String × Content × DispatchType × Bool

abbrev pub told_if : Bool → Told → List Told → List Told
told_if true x xs = x ∷ xs
told_if false x xs = xs

abbrev pub told_of : Notification → Told
told_of r = (
  r.user_id,
  record { type = r.type; message = r.message; reference_id = r.reference_id },
  r.dispatch_type,
  r.in_app,
)

unfoldable pub all_told : List Notification → List Told
all_told [] = []
all_told (r ∷ rs) = told_of r ∷ all_told rs

all_told-create_if :
    (b : Bool) (result : Option Notification × Notifications) (user : String) (content : Content)
    (dispatch : DispatchType) (shown : Bool)
    → all_told (create_if b result user content dispatch shown).1.rows
      ≡ told_if b (user, content, dispatch, shown) (all_told result.1.rows)
unfolding all_told create_if create_notification
all_told-create_if false result user content dispatch shown = refl
all_told-create_if true (none, s) user content dispatch shown = refl
all_told-create_if true (some row, s) user content dispatch shown = refl

has_next_iff :
    (limit offset : ℕ) (all : List Notification)
    → (ltb limit (length (take (limit + 1) (drop offset all))) ≡ true)
      ↔ (offset + limit < length all)
has_next_iff limit offset all =
    let taken = length-take (limit + 1) (drop offset all) in
    let dropped = length-drop offset all in
    (λ h. let lt = ltb→lt _ _ h in omega arith, λ h. lt→ltb _ _ (omega arith))

take_more : (n : ℕ) (xs : List Notification) → take n (take (n + 1) xs) ≡ take n xs
take_more n xs = take-take n (n + 1) xs (omega arith)

take-nil : (n : ℕ) → take {A = Notification} n [] ≡ []
take-nil zero = refl
take-nil (suc n) = refl

take-split : (n m : ℕ) (xs : List Notification) → take n xs ++ take m (drop n xs) ≡ take (n + m) xs
take-split zero m xs = let e : zero + m ≡ m = omega arith in rw e refl
take-split (suc n) m [] = take-nil m ∙ sym (take-nil (suc n + m))
take-split (suc n) m (x ∷ xs) =
    let e : suc n + m ≡ suc (n + m) = omega arith in rw e (ap (λ r. x ∷ r) (take-split n m xs))

items :
    (n m offset : ℕ) (all : List Notification)
    → take n (take (n + 1) (drop offset all)) ++ take m (take (m + 1) (drop (offset + n) all))
      ≡ take (n + m) (take (n + m + 1) (drop offset all))
items n m offset all =
    rw
      (
        take_more n (drop offset all),
        take_more m (drop (offset + n) all),
        take_more (n + m) (drop offset all),
      )
      (rw (← drop-drop offset n all) (take-split n m (drop offset all)))

module _ (s : Notifications) (user : String) (content : Content)
    (h : is_supported content.type ≡ true) where
  notify-enabled :
      (dispatch : DispatchType) → notify s user content dispatch ≡ notify_enabled s user content
  unfolding notify
  notify-enabled dispatch = rw h refl

  told : (app mail hook : Bool) → List Told
  told app mail hook =
      told_if hook (user, content, by_webhook, false)
        (told_if mail (user, content, by_email, false)
          (told_if app (user, content, undispatched, true) (all_told s.rows)))

  made :
      (app mail hook : Bool) (prefs : List NotificationPreference)
      → let start : Option Notification × Notifications =
          (none, record s { preferences = prefs }) in
        let shown = create_if app start user content undispatched true in
        let mailed = create_if mail shown user content by_email false in
        all_told (create_if hook mailed user content by_webhook false).1.rows ≡ told app mail hook
  unfolding told
  made app mail hook prefs =
      let start : Option Notification × Notifications = (none, record s { preferences = prefs }) in
      let shown = create_if app start user content undispatched true in
      let mailed = create_if mail shown user content by_email false in
      all_told-create_if hook mailed user content by_webhook false
      ∙ ap (told_if hook (user, content, by_webhook, false)) (
          all_told-create_if mail shown user content by_email false
          ∙ ap (told_if mail (user, content, by_email, false))
              (all_told-create_if app start user content undispatched true))

  enabled_told :
      all_told (notify_enabled s user content).1.rows
      ≡ told
          (effective s.preferences user content.type in_app)
          (effective s.preferences user content.type email)
          (effective s.preferences user content.type webhook)
  unfolding notify_enabled told
  enabled_told =
      let first = check-effective s.preferences user content.type in_app h in
      let prefs = (check_preference s.preferences user content.type in_app).1 in
      let second = check-effective prefs user content.type email h in
      let prefs' = (check_preference prefs user content.type email).1 in
      let third = check-effective prefs' user content.type webhook h in
      let wants_mail = second.0 ∙ first.1 user content.type email in
      let wants_hook =
        third.0 ∙ second.1 user content.type webhook ∙ first.1 user content.type webhook in
      made (check_preference s.preferences user content.type in_app).0
        (check_preference prefs user content.type email).0
        (check_preference prefs' user content.type webhook).0
        (check_preference prefs' user content.type webhook).1
      ∙ (λ i. told (first.0 i) (wants_mail i) (wants_hook i))

  -- A notification of a configurable type is created once for each channel that the user wants it
  -- over, and for no other: in the application, by mail and by webhook, in this order, each for this
  -- user and with the type, the message and the reference that were given.
  pub notify_obeys :
      (dispatch : DispatchType)
      → all_told (notify s user content dispatch).1.rows
        ≡ told_if
            (effective s.preferences user content.type webhook)
            (user, content, by_webhook, false)
            (told_if
              (effective s.preferences user content.type email)
              (user, content, by_email, false)
              (told_if
                (effective s.preferences user content.type in_app)
                (user, content, undispatched, true)
                (all_told s.rows)))
  unfolding told
  notify_obeys dispatch =
      ap (λ (r : Option Notification × Notifications). all_told r.1.rows) (notify-enabled dispatch)
      ∙ enabled_told

-- Where one page ends the next begins: two of them are one page of both lengths. A page says that
-- there is another exactly if there are more notifications than it and those before it hold.
pub pages-append :
    (s : Notifications) (user : String) (limit more offset : ℕ)
    → ((get_notifications s user limit offset).items
          ++ (get_notifications s user more (offset + limit)).items
        ≡ (get_notifications s user (limit + more) offset).items)
      × (((get_notifications s user limit offset).has_next ≡ true)
          ↔ (offset + limit < (get_notifications s user limit offset).total_count))
unfolding get_notifications
pages-append s user limit more offset =
    let all = listed user s.rows in (items limit more offset all, has_next_iff limit offset all)
