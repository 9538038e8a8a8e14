-- ===== src/DeadLetter/Schema.antt =====
-- packages/backend/src/common/queues/dead-letter-schema.ts: whether a job's data still has the
-- shape that its queue expects. `to_number` is the conversion `Number(text)`.
use Prim.Native.String.{String}
use backit_on_stellar.Prelude.{ℕ, Bool, false, not, ◌&&◌, List, if◌then◌else◌, length, ◌==◌}
use backit_on_stellar.Prelude.Text.{units, units_eq, is_finite, is_nan, le_zero}
use backit_on_stellar.Prelude.Json.{Value, num, str, obj, get}
use backit_on_stellar.DeadLetter.{
  QueueName, ipfs_pinning, notifications, oracle_signing, dead_letter, reconciliation,
}

-- One for each message.
pub data Reason : Type 0 where
  data_not_object payload_not_object asset_empty price_not_numeric timestamp_not_positive : Reason
  content_not_object title_empty thesis_empty created_at_empty : Reason
  evidence_not_object call_id_not_number timestamp_empty source_empty : Reason
  unrecognized_type : Value → Reason
  notification_id_not_number : Reason
  unsupported_queue : QueueName → Reason

pub data Validation : Type 0 where
  valid : Validation
  invalid : Reason → Validation

-- `typeof v !== 'string' || v.length === 0` is the negation.
unfoldable pub is_filled : Value → Bool
is_filled (str s) = not (length s == 0)
is_filled _ = false

-- `typeof v === 'number' && Number.isFinite(v)`.
unfoldable pub is_finite_number : Value → Bool
unfolding is_finite
is_finite_number (num n) = is_finite n
is_finite_number _ = false

unfoldable pub is_positive : Value → Bool
unfolding is_finite le_zero
is_positive (num n) = is_finite n && not (le_zero n)
is_positive _ = false

-- `v === text`.
unfoldable pub is_text : Value → String → Bool
is_text (str s) text = units_eq s (units text)
is_text _ text = false

module _ (to_number : List ℕ → ℕ) where
  unfoldable pub is_numeric : Value → Bool
  unfolding is_nan
  is_numeric (str s) = not (length s == 0) && not (is_nan (to_number s))
  is_numeric _ = false

  unfoldable pub validate_oracle_payload : Value → Validation
  unfolding is_filled is_numeric is_positive get
  validate_oracle_payload (obj payload) =
      if not (is_filled (get payload "asset"))
      then invalid asset_empty
      else if not (is_numeric (get payload "price"))
      then invalid price_not_numeric
      else if not (is_positive (get payload "timestamp"))
      then invalid timestamp_not_positive
      else valid
  validate_oracle_payload _ = invalid payload_not_object

  unfoldable pub validate_oracle_signing : Value → Validation
  unfolding validate_oracle_payload get
  validate_oracle_signing (obj fs) = validate_oracle_payload (get fs "payload")
  validate_oracle_signing _ = invalid data_not_object

unfoldable pub validate_content : Value → Validation
unfolding is_filled get
validate_content (obj content) =
    if not (is_filled (get content "title"))
    then invalid title_empty
    else if not (is_filled (get content "thesis"))
    then invalid thesis_empty
    else if not (is_filled (get content "createdAt"))
    then invalid created_at_empty
    else valid
validate_content _ = invalid content_not_object

unfoldable pub validate_evidence : Value → Validation
unfolding is_filled is_finite_number get
validate_evidence (obj evidence) =
    if not (is_finite_number (get evidence "callId"))
    then invalid call_id_not_number
    else if not (is_filled (get evidence "timestamp"))
    then invalid timestamp_empty
    else if not (is_filled (get evidence "source"))
    then invalid source_empty
    else valid
validate_evidence _ = invalid evidence_not_object

unfoldable pub validate_ipfs_pinning : Value → Validation
unfolding validate_content validate_evidence is_text get
validate_ipfs_pinning (obj fs) =
    if is_text (get fs "type") "call-content"
    then validate_content (get fs "content")
    else if is_text (get fs "type") "oracle-evidence"
    then validate_evidence (get fs "evidence")
    else invalid (unrecognized_type (get fs "type"))
validate_ipfs_pinning _ = invalid data_not_object

unfoldable pub validate_notifications : Value → Validation
unfolding is_finite_number get
validate_notifications (obj fs) =
    if is_finite_number (get fs "notificationId") then valid else invalid notification_id_not_number
validate_notifications _ = invalid data_not_object

unfoldable pub validate_source_job_data : (List ℕ → ℕ) → QueueName → Value → Validation
unfolding validate_oracle_signing validate_ipfs_pinning validate_notifications
validate_source_job_data to_number oracle_signing v = validate_oracle_signing to_number v
validate_source_job_data to_number ipfs_pinning v = validate_ipfs_pinning v
validate_source_job_data to_number notifications v = validate_notifications v
validate_source_job_data to_number dead_letter v = invalid (unsupported_queue dead_letter)
validate_source_job_data to_number reconciliation v = invalid (unsupported_queue reconciliation)
