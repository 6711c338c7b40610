-- ===== src/Workflows/Subnet/Targets/Quiet.antt =====
-- The discovery of the cameras writes nothing.
use pytvt.Prelude.{String, ◌≡◌, refl, List}
use pytvt.Workflows.Base.{Reply, ok, exc}
use pytvt.Workflows.Client.{Channel, NvrLanFreeDevice, Network, IpAddress, NvrClient, RunState}
use pytvt.Workflows.Subnet.Targets.{collect_targets, listed, found}

module _ (strip : String → String) (ip : IpAddress) (old_net new_net : Network)
    (c : NvrClient) where
  found-calls :
      (chs : List Channel) (r : Reply (List NvrLanFreeDevice)) (s : RunState c)
      → (found strip ip old_net new_net c chs r s).1.calls ≡ s.calls
  unfolding found
  found-calls chs (ok ds) s = refl
  found-calls chs (exc e) s = refl

  listed-calls :
      (r : Reply (List Channel)) (s : RunState c)
      → (listed strip ip old_net new_net c r s).1.calls ≡ s.calls
  unfolding listed
  listed-calls (exc e) s = refl
  listed-calls (ok chs) s = found-calls chs _ _

  pub collect_targets-quiet :
      (s : RunState c) → (collect_targets strip ip old_net new_net c s).1.calls ≡ s.calls
  unfolding collect_targets
  collect_targets-quiet s = listed-calls _ _
