-- ===== src/DeadLetter/Classify.antt =====
-- packages/backend/src/common/queues/dead-letter-classification.enum.ts: what kind of failure an
-- error tells of. `test` is `RegExp.prototype.test`.
use Prim.Native.String.{String}
use backit_on_stellar.Prelude.{
  ℕ, ◌≡◌, Bool, true, false, ◌&&◌, ◌||◌, List, [], ◌∷◌, ◌++◌, if◌then◌else◌, arith, length, ◌==◌,
  Option, none, some, or_else, ◌↔◌,
}
use backit_on_stellar.Prelude.Text.{units}

pub data Classification : Type 0 where
  retryable_infrastructure permanent_validation permanent_configuration unknown : Classification

-- A regular expression, by its source and its flags.
pub record RegExp : Type 0 where
  pub source : String
  pub flags : String

abbrev re : String → RegExp
re source = record { source = source; flags = "i" }

abbrev exact : String → RegExp
exact source = record { source = source; flags = "" }

abbrev pub infra_patterns : List RegExp
infra_patterns =
    re "ECONNREFUSED"
    ∷ re "ECONNRESET"
    ∷ re "ETIMEDOUT"
    ∷ re "EAI_AGAIN"
    ∷ re "ENOTFOUND"
    ∷ re "EPIPE"
    ∷ re "\\btimeout\\b"
    ∷ re "timed out"
    ∷ re "socket hang up"
    ∷ re "connection (?:reset|refused|closed)"
    ∷ exact "\\b5\\d{2}\\b"
    ∷ re "rate limit"
    ∷ re "too many requests"
    ∷ exact "\\b429\\b"
    ∷ []

abbrev pub config_patterns : List RegExp
config_patterns =
    re "missing.*(?:env|config|api[\\s-]?key|credential)"
    ∷ re "invalid.*(?:api[\\s-]?key|credential|config)"
    ∷ re "not configured"
    ∷ re "unauthorized"
    ∷ re "forbidden"
    ∷ exact "\\b401\\b"
    ∷ exact "\\b403\\b"
    ∷ []

-- `{ name?: string; message?: string }`.
pub record Failure : Type 0 where
  pub name : Option (List ℕ)
  pub message : Option (List ℕ)

-- `!text`.
abbrev pub is_blank : Option (List ℕ) → Bool
is_blank none = true
is_blank (some s) = length s == 0

module _ (test : RegExp → List ℕ → Bool) where
  -- `patterns.some((pattern) => pattern.test(text))`.
  unfoldable pub some_match : List RegExp → List ℕ → Bool
  some_match [] text = false
  some_match (p ∷ ps) text = test p text || some_match ps text

  abbrev pub text_of : Failure → List ℕ
  text_of err = or_else err.name [] ++ (units " " ++ or_else err.message [])

  unfoldable pub classify_failure : Option Failure → Classification
  classify_failure none = unknown
  classify_failure (some err) =
      if is_blank err.name && is_blank err.message
      then unknown
      else if some_match config_patterns (text_of err)
      then permanent_configuration
      else if some_match infra_patterns (text_of err)
      then retryable_infrastructure
      else permanent_validation

  -- A failure is called retryable exactly when its error says something, no pattern of a
  -- configuration fault matches, and one of an infrastructure fault does.
  pub retryable_iff :
      (err : Failure)
      → (classify_failure (some err) ≡ retryable_infrastructure) ↔ (
          (is_blank err.name && is_blank err.message ≡ false)
          × (some_match config_patterns (text_of err) ≡ false)
          × (some_match infra_patterns (text_of err) ≡ true))
  unfolding classify_failure
  retryable_iff err = ground arith
