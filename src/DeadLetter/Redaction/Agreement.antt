-- ===== src/DeadLetter/Redaction/Agreement.antt =====
-- How dead-letter-redaction.ts and dead-letter-schema.ts of packages/backend/src/common/queues agree
-- on the shape of a job's data.
use backit_on_stellar.Prelude.{ℕ, ◌≡◌, false, List, arith, inl, inr, Bool-cases}
use backit_on_stellar.Prelude.Json.{Value, obj, get}
use backit_on_stellar.DeadLetter.{
  QueueName, ipfs_pinning, notifications, oracle_signing, dead_letter, reconciliation,
}
use backit_on_stellar.DeadLetter.Schema.{
  valid, is_text, validate_source_job_data, validate_oracle_payload, validate_ipfs_pinning,
  validate_notifications, validate_content, validate_evidence,
}
use backit_on_stellar.DeadLetter.Redaction.{
  redact_job_data, redact_oracle_payload, redact_ipfs_pinning, redact_notifications, redact_content,
  redact_evidence,
}

oracle_redacts :
    (to_number : List ℕ → ℕ) (v : Value)
    → validate_oracle_payload to_number v ≡ valid
    → (redact_oracle_payload v).redaction_failed ≡ false
unfolding validate_oracle_payload redact_oracle_payload
oracle_redacts to_number (obj p) h = ground arith
oracle_redacts to_number _ h = cc

content_redacts :
    (v : Value) → validate_content v ≡ valid → (redact_content v).redaction_failed ≡ false
unfolding validate_content redact_content
content_redacts (obj p) h = ground arith
content_redacts _ h = cc

evidence_redacts :
    (v : Value) → validate_evidence v ≡ valid → (redact_evidence v).redaction_failed ≡ false
unfolding validate_evidence redact_evidence
evidence_redacts (obj p) h = ground arith
evidence_redacts _ h = cc

pinning_redacts :
    (v : Value) → validate_ipfs_pinning v ≡ valid → (redact_ipfs_pinning v).redaction_failed ≡ false
unfolding validate_ipfs_pinning redact_ipfs_pinning
pinning_redacts (obj fs) h = elim (Bool-cases (is_text (get fs "type") "call-content")) [
  | inl t ↦ rw t (content_redacts (get fs "content") (rw t at h))
  | inr t ↦ elim (Bool-cases (is_text (get fs "type") "oracle-evidence")) [
    | inl u ↦ rw (t, u) (evidence_redacts (get fs "evidence") (rw (t, u) at h))
    | inr u ↦ cc (rw (t, u) at h)
  ]
]
pinning_redacts _ h = cc

notifications_redact :
    (v : Value)
    → validate_notifications v ≡ valid
    → (redact_notifications v).redaction_failed ≡ false
unfolding validate_notifications redact_notifications
notifications_redact (obj fs) h = ground arith
notifications_redact _ h = cc

-- Job data that passes the validation of its queue is never reported as a failed redaction.
pub valid-redacts :
    (to_number : List ℕ → ℕ) (q : QueueName) (v : Value)
    → validate_source_job_data to_number q v ≡ valid
    → (redact_job_data q v).redaction_failed ≡ false
unfolding validate_source_job_data redact_job_data
valid-redacts to_number oracle_signing (obj fs) h = oracle_redacts to_number (get fs "payload") h
valid-redacts to_number ipfs_pinning v h = pinning_redacts v h
valid-redacts to_number notifications v h = notifications_redact v h
valid-redacts to_number oracle_signing _ h = cc
valid-redacts to_number dead_letter v h = cc
valid-redacts to_number reconciliation v h = cc
