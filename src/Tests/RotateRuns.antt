-- ===== src/Tests/RotateRuns.antt =====
-- Password rotation at the recorder of Lab.
use mathlib.Core.List.Perm
use pytvt.Workflows.Client.{Channel}
use pytvt.Prelude.{List, count_if, ◌≡◌, refl, ◌⊎◌, true, false, none, some, [], ◌∷◌, All, filter}
use pytvt.Workflows.Rotate.{RotateArgs, result, already_in_sync}
use pytvt.Workflows.Rotate.Allowed.{IsAllowed}
use pytvt.Workflows.Rotate.Select.{PasswordRotateResult, candidates}
use pytvt.Workflows.Rotate.Run.{rotate_nvr_channel_passwords}
use pytvt.Workflows.Rotate.Run.Accounting.{IsAccounted, Accounts}
use pytvt.Workflows.Rotate.Run.Scope.{rotate-Accounts}
use pytvt.Workflows.Rotate.Run.Calls.{devices, rotate_writes_in_scope, rotate_dry_run_quiet}
use pytvt.Tests.Lab.{camera, cameras, lab, start, table}

abbrev args : RotateArgs
args = record {
  old_password = "123456";
  new_password = "NewPw@2026";
  username = "admin";
  subnet = some "10.0.0.0/24";
  channel_ids = none;
  apply = true;
  include_online = false;
}

rotate-Accounts_example : IsAccounted cameras (rotate_nvr_channel_passwords lab table args start).0
unfolding candidates filter
rotate-Accounts_example = rotate-Accounts lab table args start cameras cameras refl refl refl refl

rotate_writes_in_scope_example :
    All
      (IsAllowed args (devices lab args cameras))
      (rotate_nvr_channel_passwords lab table args start).1.calls
unfolding candidates filter
rotate_writes_in_scope_example =
    rotate_writes_in_scope lab table args start cameras cameras refl refl refl

abbrev dry : RotateArgs
dry = record args { apply = false }

rotate_dry_run_quiet_example :
    ((rotate_nvr_channel_passwords lab table dry start).1.calls ≡ [])
    × (((rotate_nvr_channel_passwords lab table dry start).1.world ≡ tt)
        ⊎ ((rotate_nvr_channel_passwords lab table dry start).1.world ≡ tt))
rotate_dry_run_quiet_example = rotate_dry_run_quiet lab table dry start refl

abbrev same : RotateArgs
same = record args { new_password = "123456" }

-- One channel that is already in sync.
abbrev one : List Channel
one = camera 2 "dev2" "10.0.0.12" true ∷ []

abbrev in_sync_report : PasswordRotateResult
in_sync_report = record {
  nvr_host = "10.0.0.250";
  dry_run = false;
  channels_total = 1;
  channels_rotated = 0;
  channels_synced = 0;
  channels_already_ok = 1;
  channels_failed = 0;
  results = result (camera 2 "dev2" "10.0.0.12" true) already_in_sync [] ∷ [];
  error = [];
}

in_sync_report-Accounts : Accounts one in_sync_report
unfolding count_if
in_sync_report-Accounts = record {
  account = Perm.refl _;
  told = (refl, tt);
  total = refl;
  rotated = refl;
  synced = refl;
  already = refl;
  failed = refl;
  no_error = refl;
}
