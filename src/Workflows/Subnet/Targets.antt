-- ===== src/Workflows/Subnet/Targets.antt =====
-- The cameras to move (`_mapped_ip` and `_collect_targets` of workflows/site_subnet_change.py).
-- `none` is a `ValueError` throughout.
pub mod Quiet
pub mod Mapping
use pytvt.Prelude.{
  ℕ, ◌+◌, ◌-◌, String, Bool, true, false, not, ◌&&◌, Option, none, some, List, [], ◌∷◌, str_eq,
  ◌==◌, ltb, leb, if◌then◌else◌,
}
use pytvt.Prelude.Dict.{Dict, get, put, values}
use pytvt.Workflows.Base.{
  str, exc_text, Reply, ok, exc, Outcome, returns, raises, workflow_error, value_error,
}
use pytvt.Workflows.Client.{
  Channel, NvrLanFreeDevice, Network, IpAddress, NvrClient, Act, pure, ask, ◌>>=◌,
}
use pytvt.Workflows.Subnet.{Source, channel, channel_free, free, CameraReaddressPlan}

unfoldable pub mapped_ip : IpAddress → String → Network → Network → Option String
mapped_ip ip old_ip old_net new_net =
    if not (old_net.prefixlen == new_net.prefixlen) then none else elim (ip.ip_address old_ip) [
      | none ↦ none
      | some old ↦
          if ip.has_address old_net old
          then some (ip.str_address (new_net.network_address + (old - old_net.network_address)))
          else none
    ]

-- `ipaddress.ip_address(ip) in old_net`, where a text that is no address is passed over.
in_old : IpAddress → Network → String → Bool
in_old ip old_net t = elim (ip.ip_address t) [ none ↦ false | some n ↦ ip.has_address old_net n ]

-- `plans` and `channel_new_ip`.
pub record Targets : Type 0 where
  pub plans : Dict CameraReaddressPlan
  pub channel_new_ip : Dict String

-- The plan of a camera that the recorder lists as a free device or not.
channel_plan : String → String → Option NvrLanFreeDevice → CameraReaddressPlan
channel_plan old new none = record {
  old_ip = old;
  new_ip = new;
  mac = "";
  netmask = "";
  gateway = "";
  source = channel;
}
channel_plan old new (some dev) = record {
  old_ip = old;
  new_ip = new;
  mac = dev.mac;
  netmask = dev.mask;
  gateway = dev.gateway;
  source = channel_free;
}

free_plan : String → String → NvrLanFreeDevice → CameraReaddressPlan
free_plan old new dev = record {
  old_ip = old;
  new_ip = new;
  mac = dev.mac;
  netmask = dev.mask;
  gateway = dev.gateway;
  source = free;
}

-- The order of the sort: address, then source.
rank : Source → ℕ
rank channel = 0
rank channel_free = 1
rank free = 2

module _ (strip : String → String) (ip : IpAddress) (old_net new_net : Network) where
  index_free : Dict NvrLanFreeDevice → List NvrLanFreeDevice → Dict NvrLanFreeDevice
  index_free d [] = d
  index_free d (dev ∷ devs) =
      index_free (if str_eq (strip dev.ip) "" then d else put (strip dev.ip) dev d) devs

  add_channel : Dict NvrLanFreeDevice → Channel → Targets → Option Targets
  unfolding in_old channel_plan
  add_channel free_by_ip ch t =
      let a = strip ch.ip in
      if not (str_eq a "") && in_old ip old_net a
      then elim (mapped_ip ip a old_net new_net) [
        | none ↦ none
        | some b ↦ some (record {
          plans = put a (channel_plan a b (get a free_by_ip)) t.plans;
          channel_new_ip = put ch.dev_id b t.channel_new_ip;
        })
      ]
      else some t

  add_channels : Dict NvrLanFreeDevice → List Channel → Targets → Option Targets
  add_channels free_by_ip [] t = some t
  add_channels free_by_ip (ch ∷ chs) t = elim (add_channel free_by_ip ch t) [
    | none ↦ none
    | some u ↦ add_channels free_by_ip chs u
  ]

  add_free : String → NvrLanFreeDevice → Targets → Option Targets
  unfolding in_old free_plan
  add_free a dev t = elim (get a t.plans) [
    | some p ↦ some t
    | none ↦
        if in_old ip old_net a
        then elim (mapped_ip ip a old_net new_net) [
          | none ↦ none
          | some b ↦ some (record t { plans = put a (free_plan a b dev) t.plans })
        ]
        else some t
  ]

  add_all_free : Dict NvrLanFreeDevice → Targets → Option Targets
  add_all_free [] t = some t
  add_all_free ((a, dev) ∷ d) t = elim (add_free a dev t) [
    | none ↦ none
    | some u ↦ add_all_free d u
  ]

  -- Whether a plan sorts before or with another. Every planned address is one.
  before : CameraReaddressPlan → CameraReaddressPlan → Bool
  unfolding rank
  before p q = elim (ip.ip_address p.old_ip) [
    | none ↦ true
    | some m ↦ elim (ip.ip_address q.old_ip) [
      | none ↦ true
      | some n ↦ if m == n then leb (rank p.source) (rank q.source) else ltb m n
    ]
  ]

  insert : CameraReaddressPlan → List CameraReaddressPlan → List CameraReaddressPlan
  insert p [] = p ∷ []
  insert p (q ∷ qs) = let rest = insert p qs in if before p q then p ∷ q ∷ qs else q ∷ rest

  -- `sorted(plans, key=...)`, which is stable.
  sort : List CameraReaddressPlan → List CameraReaddressPlan
  sort [] = []
  sort (p ∷ ps) = insert p (sort ps)

  pub planned_targets :
      List Channel → List NvrLanFreeDevice → Option (List CameraReaddressPlan × Dict String)
  planned_targets channels free_devices =
      let free_by_ip = index_free [] free_devices in
      elim (add_channels free_by_ip channels (record { plans = []; channel_new_ip = [] })) [
        | none ↦ none
        | some t ↦ elim (add_all_free free_by_ip t) [
          | none ↦ none
          | some u ↦ some (sort (values u.plans), u.channel_new_ip)
        ]
      ]

  module _ (c : NvrClient) where
    abbrev Found : Type 0
    Found = Outcome (List CameraReaddressPlan × Dict String)

    found : List Channel → Reply (List NvrLanFreeDevice) → Act c Found
    found channels (exc e) =
        pure (raises (workflow_error (str "queryNvrLanDevList failed: " ∷ exc_text e)))
    found channels (ok devices) =
        pure (elim (planned_targets channels devices) [
          | none ↦ raises value_error
          | some t ↦ returns t
        ])

    listed : Reply (List Channel) → Act c Found
    unfolding found
    listed (exc e) = pure (raises (workflow_error (str "queryDevList failed: " ∷ exc_text e)))
    listed (ok channels) = do
      free_devices ← ask (NvrClient.query_nvr_lan_free_devices c)
      found channels free_devices

    pub collect_targets : Act c (Outcome (List CameraReaddressPlan × Dict String))
    unfolding listed
    collect_targets = do channels ← ask (NvrClient.query_channels c); listed channels
