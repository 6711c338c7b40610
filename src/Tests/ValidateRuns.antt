-- ===== src/Tests/ValidateRuns.antt =====
-- Validation and comparison at the recorder of Lab.
use pytvt.Prelude.{String, ◌≡◌, refl, none, some, [], ◌∷◌}
use pytvt.Workflows.Base.{str}
use pytvt.Workflows.Validate.{Expected, SiteValidationResult, is_ok, parsed_net}
use pytvt.Workflows.Validate.Site.{validate_site}
use pytvt.Workflows.Validate.Site.Health.{is_healthy, validate_site-IsOk}
use pytvt.Tests.Lab.{cameras, lab, start, table, old_net}

abbrev plain : String → String
plain t = t

abbrev wanted : Expected
wanted = record {
  expected_subnet = some "10.0.0.0/24";
  expected_channel_count = some 2;
  expected_nvr_subnet = none;
}

validate_site-IsOk_example :
    is_ok (validate_site plain lab table wanted start).0
    ≡ is_healthy plain table wanted "10.0.0.250" (some old_net) none cameras
unfolding parsed_net
validate_site-IsOk_example =
    validate_site-IsOk plain lab table wanted start (some old_net) none cameras refl refl refl

abbrev site : SiteValidationResult
site = record {
  nvr_host = "10.0.0.250";
  expected_subnet = none;
  expected_channel_count = none;
  expected_nvr_subnet = none;
  channels_total = 2;
  channels_online = 1;
  channels_in_subnet = 2;
  channels = [];
  issues = (str "1/2 channel(s) offline: ch1" ∷ []) ∷ [];
  error = [];
}
