-- ===== src/Workflows/Subnet/Readdress/Calls.antt =====
-- Step 2 moves each camera as its plan says.
use mathlib.Core.List.{Mem}
use pytvt.Prelude.{List, [], ◌∷◌, map, All, String}
use pytvt.Prelude.Dict.{Dict}
use pytvt.Workflows.Base.{Reply, ok, exc, nvr_api_error, other_error}
use pytvt.Workflows.Client.{Network, IpAddress, NvrClient, RunState}
use pytvt.Workflows.Subnet.{CameraReaddressPlan, SubnetArgs}
use pytvt.Workflows.Subnet.Planned.{Plans, Plans-call, ends_of}
use pytvt.Workflows.Subnet.Readdress.{ReaddressState, answered, readdress_step, readdress_all}

module _ (c : NvrClient) (ip : IpAddress) (a : SubnetArgs) (old_net new_net : Network)
    (all : List CameraReaddressPlan) (stored : Dict String) where
  answered-Plans :
      (p : CameraReaddressPlan) (st : ReaddressState) (r : Reply Unit) (s : RunState c)
      → Plans all stored s
      → Plans all stored (answered c ip a old_net new_net p st r s).1
  unfolding answered
  answered-Plans p st (ok _) s h = record { calls_planned = h.calls_planned }
  answered-Plans p st (exc (nvr_api_error e)) s h = record { calls_planned = h.calls_planned }
  answered-Plans p st (exc (other_error e)) s h = record { calls_planned = h.calls_planned }

  pub readdress_all-Plans :
      (ps : List CameraReaddressPlan) (st : ReaddressState) (s : RunState c)
      → All (λ p. Mem (ends_of p) (map ends_of all)) ps
      → Plans all stored s
      → Plans all stored (readdress_all c ip a old_net new_net ps st s).1
  unfolding readdress_all readdress_step
  readdress_all-Plans [] st s m h = h
  readdress_all-Plans (p ∷ ps) st s m h =
      readdress_all-Plans ps _ _ m.1 (answered-Plans p st _ _ (Plans-call all stored _ _ _ m.0 h))
