-- ===== src/DeadLetter/Redaction.antt =====
-- packages/backend/src/common/queues/dead-letter-redaction.ts: the view of a failed job that is kept
-- for operators. `replace_all` is `String.prototype.replace` with a global regular expression.
pub mod Allowlist
pub mod Agreement
use Prim.Native.String.{String}
use backit_on_stellar.Prelude.{
  ℕ, ◌≡◌, ◌≤◌, ◌+◌, refl, Bool, true, false, not, ◌&&◌, ◌||◌, List, [], ◌∷◌, ◌++◌, if◌then◌else◌,
  arith, length, ◌==◌, ltb, take, map, Option, none, some,
}
use backit_on_stellar.Prelude.Text.{units, units_eq}
use backit_on_stellar.Prelude.Json.{
  Value, undefined, null, bool, num, str, arr, obj, Fields, get, end, field,
}
use backit_on_stellar.DeadLetter.{
  QueueName, ipfs_pinning, notifications, oracle_signing, dead_letter, reconciliation,
}
use backit_on_stellar.DeadLetter.Schema.{is_text}

pub record RedactedPayload : Type 0 where
  pub fields : Fields
  pub redaction_failed : Bool

abbrev pub max_text_field_length : ℕ
max_text_field_length = 500

abbrev pub max_failed_reason_length : ℕ
max_failed_reason_length = 2000

abbrev pub max_stack_frames : ℕ
max_stack_frames = 20

abbrev pub max_stack_frame_length : ℕ
max_stack_frame_length = 500

-- The patterns of SECRET_TEXT_PATTERNS, in their order.
pub data SecretPattern : Type 0 where
  jwt bearer hex_key base64_blob key_value : SecretPattern

abbrev pub secret_text_patterns : List SecretPattern
secret_text_patterns = jwt ∷ bearer ∷ hex_key ∷ base64_blob ∷ key_value ∷ []

unfoldable pub truncate : List ℕ → ℕ → List ℕ
truncate value limit =
    if ltb limit (length value) then take limit value ++ units "...[truncated]" else value

module _ (replace_all : SecretPattern → List ℕ → List ℕ → List ℕ) where
  unfoldable pub redact_with : List SecretPattern → List ℕ → List ℕ
  redact_with [] text = text
  redact_with (p ∷ ps) text = redact_with ps (replace_all p text (units "[REDACTED]"))

  unfoldable pub redact_secret_text : List ℕ → List ℕ
  unfolding redact_with
  redact_secret_text input = redact_with secret_text_patterns input

  unfoldable pub redact_failed_reason : Option (List ℕ) → Option (List ℕ)
  redact_failed_reason none = none
  redact_failed_reason (some reason) =
      if length reason == 0
      then some reason
      else some (truncate (redact_secret_text reason) max_failed_reason_length)

  unfoldable pub redact_stacktrace : Option (List (List ℕ)) → Option (List (List ℕ))
  redact_stacktrace none = none
  redact_stacktrace (some frames) = some (
      map (λ frame. truncate (redact_secret_text frame) max_stack_frame_length)
        (take max_stack_frames frames))

unfoldable pub pick_string : Fields → String → Option (List ℕ)
unfolding get
pick_string fs key = elim (get fs key) [ str s ↦ some s | _ ↦ none ]

unfoldable pub pick_number : Fields → String → Option ℕ
unfolding get
pick_number fs key = elim (get fs key) [ num n ↦ some n | _ ↦ none ]

abbrev pub stub : RedactedPayload
stub = record { fields = end; redaction_failed = true }

abbrev pub redacted_as : Fields → RedactedPayload
redacted_as fs = record { fields = fs; redaction_failed = false }

-- `evidence.priceData !== undefined`.
unfoldable pub is_present : Value → Bool
is_present undefined = false
is_present _ = true

abbrev pub oracle_fields : List ℕ → List ℕ → ℕ → Fields
oracle_fields asset price timestamp =
    field "payload"
      (obj (
        field "asset" (str asset)
          (field "price" (str price) (field "timestamp" (num timestamp) end))))
      end

unfoldable pub redact_oracle_found : Option (List ℕ) → Option (List ℕ) → Option ℕ → RedactedPayload
redact_oracle_found (some asset) (some price) (some timestamp) =
    redacted_as (oracle_fields asset price timestamp)
redact_oracle_found _ _ _ = stub

unfoldable pub redact_oracle_payload : Value → RedactedPayload
unfolding redact_oracle_found pick_string pick_number
redact_oracle_payload (obj payload) =
    redact_oracle_found (pick_string payload "asset") (pick_string payload "price")
      (pick_number payload "timestamp")
redact_oracle_payload _ = stub

unfoldable pub redact_oracle_signing : Value → RedactedPayload
unfolding redact_oracle_payload get
redact_oracle_signing (obj fs) = redact_oracle_payload (get fs "payload")
redact_oracle_signing _ = stub

abbrev pub content_fields : List ℕ → List ℕ → List ℕ → Bool → Fields
content_fields title thesis created_at omitted = field "type" (str (units "call-content")) (
    field "content"
      (obj (
        field "title" (str title) (
          field "thesis" (str thesis) (
            field "createdAt" (str created_at) (field "conditionJsonOmitted" (bool omitted) end)))))
      end)

unfoldable pub redact_content_found :
    Option (List ℕ) → Option (List ℕ) → Option (List ℕ) → Bool → RedactedPayload
unfolding truncate
redact_content_found (some title) (some thesis) (some created_at) omitted = redacted_as (
    content_fields (truncate title max_text_field_length) (truncate thesis max_text_field_length)
      created_at omitted)
redact_content_found _ _ _ omitted = stub

unfoldable pub redact_content : Value → RedactedPayload
unfolding redact_content_found pick_string is_present get
redact_content (obj content) =
    redact_content_found (pick_string content "title") (pick_string content "thesis")
      (pick_string content "createdAt") (is_present (get content "conditionJson"))
redact_content _ = stub

abbrev pub evidence_fields : ℕ → List ℕ → List ℕ → Bool → Fields
evidence_fields call_id timestamp source omitted = field "type" (str (units "oracle-evidence")) (
    field "evidence"
      (obj (
        field "callId" (num call_id) (
          field "timestamp" (str timestamp)
            (field "source" (str source) (field "priceDataOmitted" (bool omitted) end)))))
      end)

unfoldable pub redact_evidence_found :
    Option ℕ → Option (List ℕ) → Option (List ℕ) → Bool → RedactedPayload
redact_evidence_found (some call_id) (some timestamp) (some source) omitted =
    redacted_as (evidence_fields call_id timestamp source omitted)
redact_evidence_found _ _ _ omitted = stub

unfoldable pub redact_evidence : Value → RedactedPayload
unfolding redact_evidence_found pick_string pick_number is_present get
redact_evidence (obj evidence) =
    redact_evidence_found (pick_number evidence "callId") (pick_string evidence "timestamp")
      (pick_string evidence "source") (is_present (get evidence "priceData"))
redact_evidence _ = stub

unfoldable pub redact_ipfs_pinning : Value → RedactedPayload
unfolding redact_content redact_evidence is_text get
redact_ipfs_pinning (obj fs) =
    if is_text (get fs "type") "call-content"
    then redact_content (get fs "content")
    else if is_text (get fs "type") "oracle-evidence"
    then redact_evidence (get fs "evidence")
    else stub
redact_ipfs_pinning _ = stub

unfoldable pub redact_notification_found : Option ℕ → RedactedPayload
redact_notification_found none = stub
redact_notification_found (some id) = redacted_as (field "notificationId" (num id) end)

unfoldable pub redact_notifications : Value → RedactedPayload
unfolding redact_notification_found pick_number
redact_notifications (obj fs) = redact_notification_found (pick_number fs "notificationId")
redact_notifications _ = stub

unfoldable pub redact_job_data : QueueName → Value → RedactedPayload
unfolding redact_oracle_signing redact_ipfs_pinning redact_notifications
redact_job_data oracle_signing v = redact_oracle_signing v
redact_job_data ipfs_pinning v = redact_ipfs_pinning v
redact_job_data notifications v = redact_notifications v
redact_job_data dead_letter v = stub
redact_job_data reconciliation v = stub
