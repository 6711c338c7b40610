-- ===== src/Workflows/Subnet/Planned.antt =====
-- The writing calls that a subnet change without a password rotation may make.
use mathlib.Core.List.{Mem}
use pytvt.Prelude.{String, ◌≡◌, true, List, ◌∷◌, map, All}
use pytvt.Prelude.Dict.{Dict}
use pytvt.Workflows.Client.{
  NvrClient, RunState, Call, store_credentials, change_password, change_network, store_ip,
}
use pytvt.Workflows.Rotate.Select.{contains}
use pytvt.Workflows.Subnet.{CameraReaddressPlan}

abbrev pub new_ips : List CameraReaddressPlan → List String
new_ips ps = map (λ (p : CameraReaddressPlan). p.new_ip) ps

abbrev pub ends_of : CameraReaddressPlan → String × String
ends_of p = (p.old_ip, p.new_ip)

-- A camera goes from a plan's old address to that plan's new one; a channel is stored with the
-- address that was collected for it, which is a plan's new one.
abbrev pub IsPlanned : List CameraReaddressPlan → Dict String → Call → Type 0
IsPlanned ps stored (store_credentials d u p) = ⊥
IsPlanned ps stored (change_password d p) = ⊥
IsPlanned ps stored (change_network old new) = Mem (old, new) (map ends_of ps)
IsPlanned ps stored (store_ip d n) = Mem (d, n) stored × (contains (new_ips ps) n ≡ true)

-- Every writing call so far is planned.
pub record Plans {c : NvrClient} (ps : List CameraReaddressPlan) (stored : Dict String)
    (s : RunState c) : Type 0 where
  pub calls_planned : All (IsPlanned ps stored) s.calls

module _ {c : NvrClient} (ps : List CameraReaddressPlan) (stored : Dict String)
    (s : RunState c) where
  pub Plans-call :
      (k : Call) (w : NvrClient.World c)
      → IsPlanned ps stored k
      → Plans ps stored s
      → Plans ps stored (record s { world = w; calls = k ∷ s.calls })
  Plans-call k w ok h = record { calls_planned = (ok, h.calls_planned) }
