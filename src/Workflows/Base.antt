-- ===== src/Workflows/Base.antt =====
-- What the workflows report: progress events (workflows/progress.py), the exceptions that they raise
-- (workflows/exceptions.py), and texts. A text is the list of the pieces that an f-string joins.
use pytvt.Prelude.Int.{ℤ}
use pytvt.Prelude.{ℕ, String, Bool, List, [], is_empty}

pub data Part : Type 0 where
  str : String → Part
  num : ℕ → Part
  flag : Bool → Part
  int : ℤ → Part
  nothing : Part

abbrev pub Text : Type 0
Text = List Part

-- `if text:`. A literal piece of the program is never the empty string.
abbrev pub is_blank : Text → Bool
is_blank t = is_empty t

pub data Level : Type 0 where
  info success warning error : Level

pub record ProgressEvent : Type 0 where
  pub level : Level
  pub code : String
  pub message : Text
  pub context : List (String × Part)

abbrev pub event : Level → String → Text → ProgressEvent
event l c m = record { level = l; code = c; message = m; context = [] }

-- An exception that a call of the recorder's client may raise, with `str(exc)`.
pub data Exc : Type 0 where
  nvr_api_error : Text → Exc
  other_error : Text → Exc

abbrev pub exc_text : Exc → Text
exc_text (nvr_api_error t) = t
exc_text (other_error t) = t

pub data Reply {ℓ} (A : Type ℓ) : Type ℓ where
  ok : A → Reply A
  exc : Exc → Reply A

-- An exception that leaves a workflow: `WorkflowPrecheckError`, `WorkflowError`, and the
-- `ValueError` of a text that is no network.
pub data Raised : Type 0 where
  precheck_error : Text → Raised
  workflow_error : Text → Raised
  value_error : Raised

pub data Outcome {ℓ} (A : Type ℓ) : Type ℓ where
  returns : A → Outcome A
  raises : Raised → Outcome A
