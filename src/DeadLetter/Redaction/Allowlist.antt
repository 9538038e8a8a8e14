-- ===== src/DeadLetter/Redaction/Allowlist.antt =====
-- What packages/backend/src/common/queues/dead-letter-redaction.ts lets through, for every shape of job data.
use backit_on_stellar.Prelude.{
  ℕ, zero, suc, ◌≡◌, ◌≤◌, ◌+◌, refl, Bool, List, [], ◌∷◌, arith, length, length-append, length-take,
  ltb, take, map, Option, none, some, All, inl, inr, Bool-cases,
}
use backit_on_stellar.Prelude.Text.{units}
use backit_on_stellar.Prelude.Json.{Value, num, obj, Fields, get, end, field}
use backit_on_stellar.DeadLetter.{
  QueueName, ipfs_pinning, notifications, oracle_signing, dead_letter, reconciliation,
}
use backit_on_stellar.DeadLetter.Schema.{is_text}
use backit_on_stellar.DeadLetter.Redaction.{
  SecretPattern, truncate, redact_stacktrace, redact_job_data, redact_secret_text, oracle_fields,
  content_fields, evidence_fields, pick_number, redact_oracle_payload, redact_oracle_signing,
  redact_ipfs_pinning, redact_notifications, redact_content, redact_evidence, redact_oracle_found,
  redact_content_found, redact_evidence_found, redact_notification_found, max_stack_frames,
}

-- The marker is 14 code units long.
length-truncate : (value : List ℕ) (limit : ℕ) → length (truncate value limit) ≤ limit + 14
unfolding truncate
length-truncate value limit = elim (Bool-cases (ltb limit (length value))) [
  | inl t ↦ rw t (
      omega
        (arith, length-append (take limit value) (units "...[truncated]"), length-take limit value))
  | inr t ↦ rw t (ground arith)
]

frames_bounded :
    (replace_all : SecretPattern → List ℕ → List ℕ → List ℕ) (n : ℕ) (frames : List (List ℕ))
    → let kept =
        map (λ frame. truncate (redact_secret_text replace_all frame) 500) (take n frames) in
      (length kept ≤ n) × All (λ frame. length frame ≤ 514) kept
frames_bounded replace_all zero frames = (omega arith, tt)
frames_bounded replace_all (suc n) [] = (omega arith, tt)
frames_bounded replace_all (suc n) (f ∷ frames) =
    let (count, sizes) = frames_bounded replace_all n frames in
    (omega arith, (length-truncate (redact_secret_text replace_all f) 500, sizes))

-- A stored stack trace has at most 20 frames of at most 514 characters each.
pub redact_stacktrace_bounded :
    (replace_all : SecretPattern → List ℕ → List ℕ → List ℕ) (frames : List (List ℕ))
    → (kept : List (List ℕ)) × (redact_stacktrace replace_all (some frames) ≡ some kept)
      × (length kept ≤ 20)
      × All (λ frame. length frame ≤ 514) kept
unfolding redact_stacktrace
redact_stacktrace_bounded replace_all frames =
    let (count, sizes) = frames_bounded replace_all max_stack_frames frames in
    (_, refl, count, sizes)

-- The fields that may be kept for each queue, and the size of the free texts among them.
pub data Kept : QueueName → Fields → Type 0 where
  nothing : {q : QueueName} → Kept q end
  price :
      (asset price : List ℕ) (timestamp : ℕ)
      → Kept oracle_signing (oracle_fields asset price timestamp)
  content :
      (title thesis created_at : List ℕ) (omitted : Bool)
      → length title ≤ 514
      → length thesis ≤ 514
      → Kept ipfs_pinning (content_fields title thesis created_at omitted)
  evidence :
      (call_id : ℕ) (timestamp source : List ℕ) (omitted : Bool)
      → Kept ipfs_pinning (evidence_fields call_id timestamp source omitted)
  notification : (id : ℕ) → Kept notifications (field "notificationId" (num id) end)

oracle-Kept :
    (a p : Option (List ℕ)) (t : Option ℕ) → Kept oracle_signing (redact_oracle_found a p t).fields
unfolding redact_oracle_found
oracle-Kept (some a) (some p) (some t) = price a p t
oracle-Kept _ _ _ = nothing

content-Kept :
    (t h c : Option (List ℕ)) (omitted : Bool)
    → Kept ipfs_pinning (redact_content_found t h c omitted).fields
unfolding redact_content_found
content-Kept (some t) (some h) (some c) omitted =
    content _ _ c omitted (length-truncate t 500) (length-truncate h 500)
content-Kept _ _ _ omitted = nothing

evidence-Kept :
    (n : Option ℕ) (t s : Option (List ℕ)) (omitted : Bool)
    → Kept ipfs_pinning (redact_evidence_found n t s omitted).fields
unfolding redact_evidence_found
evidence-Kept (some n) (some t) (some s) omitted = evidence n t s omitted
evidence-Kept _ _ _ omitted = nothing

oracle_payload-Kept : (v : Value) → Kept oracle_signing (redact_oracle_payload v).fields
unfolding redact_oracle_payload
oracle_payload-Kept (obj p) = oracle-Kept _ _ _
oracle_payload-Kept _ = nothing

content_of-Kept : (v : Value) → Kept ipfs_pinning (redact_content v).fields
unfolding redact_content
content_of-Kept (obj c) = content-Kept _ _ _ _
content_of-Kept _ = nothing

evidence_of-Kept : (v : Value) → Kept ipfs_pinning (redact_evidence v).fields
unfolding redact_evidence
evidence_of-Kept (obj e) = evidence-Kept _ _ _ _
evidence_of-Kept _ = nothing

notification-Kept : (n : Option ℕ) → Kept notifications (redact_notification_found n).fields
unfolding redact_notification_found
notification-Kept none = nothing
notification-Kept (some n) = notification n

signing-Kept : (v : Value) → Kept oracle_signing (redact_oracle_signing v).fields
unfolding redact_oracle_signing
signing-Kept (obj fs) = oracle_payload-Kept (get fs "payload")
signing-Kept _ = nothing

pinning-Kept : (v : Value) → Kept ipfs_pinning (redact_ipfs_pinning v).fields
unfolding redact_ipfs_pinning
pinning-Kept (obj fs) = elim (Bool-cases (is_text (get fs "type") "call-content")) [
  | inl t ↦ rw t (content_of-Kept (get fs "content"))
  | inr t ↦ rw t (elim (Bool-cases (is_text (get fs "type") "oracle-evidence")) [
    | inl u ↦ rw u (evidence_of-Kept (get fs "evidence"))
    | inr u ↦ rw u nothing
  ])
]
pinning-Kept _ = nothing

notifications-Kept : (v : Value) → Kept notifications (redact_notifications v).fields
unfolding redact_notifications
notifications-Kept (obj fs) = notification-Kept (pick_number fs "notificationId")
notifications-Kept _ = nothing

-- Whatever a job's data holds, what is kept of it has one of the allowed shapes of its queue, with
-- titles and theses of at most 514 characters, or is empty.
pub redact_job_data-Kept : (q : QueueName) (v : Value) → Kept q (redact_job_data q v).fields
unfolding redact_job_data
redact_job_data-Kept oracle_signing v = signing-Kept v
redact_job_data-Kept ipfs_pinning v = pinning-Kept v
redact_job_data-Kept notifications v = notifications-Kept v
redact_job_data-Kept dead_letter v = nothing
redact_job_data-Kept reconciliation v = nothing
