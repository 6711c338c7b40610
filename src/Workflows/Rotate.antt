-- ===== src/Workflows/Rotate.antt =====
-- Password rotation over the channels of one recorder (workflows/password_rotate.py):
-- the results and the arguments. The passes and the whole workflow are the modules below.
pub mod Tally
pub mod Allowed
pub mod Force
pub mod PassA
pub mod PassB
pub mod Select
pub mod Run
use pytvt.Prelude.{ℕ, String, Bool, true, false, Option, List, [], ◌∷◌}
use pytvt.Workflows.Base.{Part, str, num, Text}
use pytvt.Workflows.Client.{Channel}

pub data Status : Type 0 where
  already_in_sync already_ours rotated_via_force synced_via_pass_a : Status
  rotated_via_pass_b skipped failed : Status

pub record ChannelRotationResult : Type 0 where
  pub chl_num : ℕ
  pub dev_id : String
  pub ip : String
  pub status : Status
  pub error : Text

abbrev pub result : Channel → Status → Text → ChannelRotationResult
result ch st e = record {
  chl_num = ch.chl_num;
  dev_id = ch.dev_id;
  ip = ch.ip;
  status = st;
  error = e;
}

-- `r.status == "failed"`
abbrev pub is_failed : ChannelRotationResult → Bool
is_failed r = elim r.status [ failed ↦ true | _ ↦ false ]

pub record RotateArgs : Type 0 where
  pub old_password : String
  pub new_password : String
  pub username : String
  pub subnet : Option String
  pub channel_ids : Option (List String)
  pub apply : Bool
  pub include_online : Bool

abbrev pub label : Channel → Text
label ch = str "ch" ∷ num ch.chl_num ∷ str " " ∷ str ch.ip ∷ []

-- `{"chl_num": ch.chl_num, "ip": ch.ip}`
abbrev pub channel_context : Channel → List (String × Part)
channel_context ch = ("chl_num", num ch.chl_num) ∷ ("ip", str ch.ip) ∷ []
