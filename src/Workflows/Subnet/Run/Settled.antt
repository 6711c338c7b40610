-- ===== src/Workflows/Subnet/Run/Settled.antt =====
-- The report of a subnet change accounts for every planned camera, in the order of the plans.
use pytvt.Prelude.{◌+◌, ◌≡◌, List, [], length, count_if}
use pytvt.Prelude.Dict.{Dict}
use pytvt.Workflows.Base.{Outcome, returns, raises, value_error}
use pytvt.Workflows.Subnet.{CameraReaddressPlan, SiteSubnetChangeResult, is_failed, is_readdressed}
use pytvt.Workflows.Subnet.Follows.{Follows}

-- The report of an applied run.
pub record Settles (ps : List CameraReaddressPlan) (r : SiteSubnetChangeResult) : Type 0 where
  pub follows : Follows ps r.results
  pub total : r.cameras_total ≡ length ps
  pub moved : r.cameras_readdressed ≡ count_if is_readdressed r.results
  pub failed : r.cameras_failed ≡ count_if is_failed r.results
  pub split : r.cameras_readdressed + r.cameras_failed ≡ r.cameras_total
  pub no_error : r.error ≡ []

-- A run that ends by an exception ended by the rotation's `ValueError`.
pub data Ends (ps : List CameraReaddressPlan) : Outcome SiteSubnetChangeResult → Type 0 where
  reported : {r : SiteSubnetChangeResult} → Settles ps r → Ends ps (returns r)
  bad_network : Ends ps (raises value_error)
