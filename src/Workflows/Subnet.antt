-- ===== src/Workflows/Subnet.antt =====
-- Moving the cameras of one recorder to another subnet (workflows/site_subnet_change.py): the plans,
-- the results and the arguments.
pub mod Follows
pub mod Planned
pub mod Targets
pub mod Readdress
pub mod Stored
pub mod Run
use pytvt.Prelude.{ℕ, String, Bool, true, false, Option, none, some, List, ◌&&◌, not, ◌==◌}
use pytvt.Workflows.Base.{Text, is_blank}
use pytvt.Workflows.Rotate.Select.{PasswordRotateResult, is_success}

-- The texts "channel", "channel+free" and "free", in their order.
pub data Source : Type 0 where
  channel channel_free free : Source

pub record CameraReaddressPlan : Type 0 where
  pub old_ip : String
  pub new_ip : String
  pub mac : String
  pub netmask : String
  pub gateway : String
  pub source : Source

-- The statuses that the workflow gives. "channel-updated" and "skipped" are named in a comment of the
-- record and given nowhere.
pub data ReaddressStatus : Type 0 where
  planned readdressed failed : ReaddressStatus

pub record CameraReaddressResult : Type 0 where
  pub old_ip : String
  pub new_ip : String
  pub mac : String
  pub status : ReaddressStatus
  pub error : Text

abbrev pub result_of : CameraReaddressPlan → ReaddressStatus → Text → CameraReaddressResult
result_of p st e = record {
  old_ip = p.old_ip;
  new_ip = p.new_ip;
  mac = p.mac;
  status = st;
  error = e;
}

abbrev pub is_failed : CameraReaddressResult → Bool
is_failed r = elim r.status [ failed ↦ true | _ ↦ false ]

-- `r.status in {"readdressed", "channel-updated"}`
abbrev pub is_readdressed : CameraReaddressResult → Bool
is_readdressed r = elim r.status [ readdressed ↦ true | _ ↦ false ]

pub record SiteSubnetChangeResult : Type 0 where
  pub nvr_host : String
  pub old_subnet : String
  pub new_subnet : String
  pub dry_run : Bool
  pub cameras_total : ℕ
  pub cameras_readdressed : ℕ
  pub cameras_failed : ℕ
  pub channels_ip_updated : ℕ
  pub password_rotation : Option PasswordRotateResult
  pub results : List CameraReaddressResult
  pub error : Text

-- The property `success`.
pub succeeded : SiteSubnetChangeResult → Bool
succeeded r =
    is_blank r.error
    && r.cameras_failed == 0
    && elim r.password_rotation [ none ↦ true | some rotation ↦ is_success rotation ]

pub record SubnetArgs : Type 0 where
  pub old_subnet : String
  pub new_subnet : String
  pub camera_username : String
  pub camera_password : String
  pub new_camera_password : Option String
  pub target_ips : Option (List String)
  pub apply : Bool
  pub rotate_passwords : Bool
  pub settle_seconds : ℕ
