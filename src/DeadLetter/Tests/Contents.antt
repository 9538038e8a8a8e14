-- ===== src/DeadLetter/Tests/Contents.antt =====
-- Runs of redaction, validation, classification and the move of a job in
-- packages/backend/src/common/queues.
use backit_on_stellar.Prelude.{ℕ, Bool, none, some, List, [], ◌∷◌}
use backit_on_stellar.Prelude.Text.{str_eq, units}
use backit_on_stellar.DeadLetter.Redaction.{SecretPattern}
use backit_on_stellar.DeadLetter.Classify.{RegExp, Failure}
use backit_on_stellar.DeadLetter.Entry.{SourceJob}
use backit_on_stellar.DeadLetter.Tests.{notice}

abbrev replace_none : SecretPattern → List ℕ → List ℕ → List ℕ
replace_none pattern by text = text

abbrev frames : List (List ℕ)
frames = units "at main" ∷ []

abbrev refused_test : RegExp → List ℕ → Bool
refused_test pattern text = str_eq pattern.source "ECONNREFUSED"

abbrev refused_connection : Failure
refused_connection = record { name = none; message = some (units "ECONNREFUSED") }

abbrev failed_job : SourceJob
failed_job = record {
  name = "send";
  id = some "7";
  job_data = notice;
  attempts_made = 3;
  attempts = some 3;
  failed_reason = some (units "ECONNREFUSED");
  stacktrace = some frames;
  timestamp = 0;
}
