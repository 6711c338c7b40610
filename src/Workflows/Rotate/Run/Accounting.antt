-- ===== src/Workflows/Rotate/Run/Accounting.antt =====
-- The report of a password rotation accounts for every channel in scope.
use mathlib.Core.List.{Perm}
use pytvt.Prelude.{◌≡◌, List, [], map, length, All, count_if}
use pytvt.Workflows.Base.{Text, Outcome, returns, raises, workflow_error}
use pytvt.Workflows.Client.{Channel}
use pytvt.Workflows.Rotate.{is_failed}
use pytvt.Workflows.Rotate.Tally.{subject, subject_of, IsTold, is_rotated, is_synced, is_already_ok}
use pytvt.Workflows.Rotate.Select.{PasswordRotateResult}

-- Each channel has exactly one result, with an error exactly where it failed or was skipped, and
-- the report's numbers count the results.
pub record Accounts (cands : List Channel) (r : PasswordRotateResult) : Type 0 where
  pub account : Perm (map subject r.results) (map subject_of cands)
  pub told : All IsTold r.results
  pub total : r.channels_total ≡ length cands
  pub rotated : count_if is_rotated r.results ≡ r.channels_rotated
  pub synced : count_if is_synced r.results ≡ r.channels_synced
  pub already : count_if is_already_ok r.results ≡ r.channels_already_ok
  pub failed : count_if is_failed r.results ≡ r.channels_failed
  pub no_error : r.error ≡ []

-- A run that ends by an exception ended by the second query.
pub data IsAccounted (cands : List Channel) : Outcome PasswordRotateResult → Type 0 where
  returned : {r : PasswordRotateResult} → Accounts cands r → IsAccounted cands (returns r)
  requery_failed : (e : Text) → IsAccounted cands (raises (workflow_error e))
