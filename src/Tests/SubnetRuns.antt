-- ===== src/Tests/SubnetRuns.antt =====
-- A subnet change at the recorder of Lab.
use pytvt.Prelude.{
  All, ℕ, String, ◌≡◌, refl, ◌+◌, ◌-◌, ◌^◌, true, false, ◌&&◌, none, some, [], ◌∷◌, leb, ltb, arith,
  str_eq, if◌then◌else◌, ◌==◌, ◌⊎◌, inl, inr,
}
use pytvt.Workflows.Client.{Network, IpAddress}
use pytvt.Workflows.Subnet.{CameraReaddressPlan, SubnetArgs, channel, result_of, readdressed}
use pytvt.Workflows.Subnet.Stored.{StoredState}
use pytvt.Workflows.Subnet.Targets.{mapped_ip}
use pytvt.Workflows.Subnet.Targets.Mapping.{HoldsBlock, ReadsBack, mapped_ip_keeps_host}
use pytvt.Workflows.Subnet.Run.{migrate}
use pytvt.Workflows.Subnet.Planned.{IsPlanned}
use pytvt.Workflows.Subnet.Run.Writes.{migrate_writes-IsPlanned}
use pytvt.Tests.Lab.{lab, start, table, old_net, new_net}

abbrev same_text : String → String
same_text t = t

abbrev moving : SubnetArgs
moving = record {
  old_subnet = "10.0.0.0/24";
  new_subnet = "20.0.0.0/24";
  camera_username = "admin";
  camera_password = "123456";
  new_camera_password = none;
  target_ips = none;
  apply = true;
  rotate_passwords = false;
  settle_seconds = 8;
}

abbrev plan : CameraReaddressPlan
plan = record {
  old_ip = "10.0.0.11";
  new_ip = "20.0.0.11";
  mac = "";
  netmask = "";
  gateway = "";
  source = channel;
}

abbrev probing : SubnetArgs
probing = record moving { apply = false }

abbrev readdressed_one : StoredState
readdressed_one = record { channels_ip_updated = 1; results = result_of plan readdressed [] ∷ [] }

-- Two networks of two addresses each.
abbrev two_old : Network
two_old = record { network_address = 10; prefixlen = 31 }

abbrev two_new : Network
two_new = record { network_address = 20; prefixlen = 31 }

abbrev small : IpAddress
small = record table {
  ip_address = λ t.
      if str_eq t "old1"
      then some 11
      else if str_eq t "new0"
      then some 20
      else if str_eq t "new1"
      then some 21
      else none;
  has_address =
      λ net n. leb net.network_address n && ltb n (net.network_address + 2 ^ (32 - net.prefixlen));
  str_address = λ n. if n == 20 then "new0" else "new1";
}

small-HoldsBlock : (net : Network) → HoldsBlock small net
small-HoldsBlock net n = refl

two_cases : (n : ℕ) → (leb 20 n && ltb n 22) ≡ true → (n ≡ 20) ⊎ (n ≡ 21)
two_cases n h = ground arith

small-ReadsBack : ReadsBack small two_new
small-ReadsBack n h = elim (two_cases n h) [ inl e ↦ rw e refl | inr e ↦ rw e refl ]

mapped_ip_keeps_host_example :
    (n m : ℕ) × (small.ip_address "old1" ≡ some n)
    × (small.has_address two_old n ≡ true)
    × (small.ip_address "new1" ≡ some m)
    × (small.has_address two_new m ≡ true)
    × (n + 20 ≡ m + 10)
unfolding mapped_ip
mapped_ip_keeps_host_example =
    mapped_ip_keeps_host small "old1" "new1" two_old two_new (small-HoldsBlock two_old)
      (small-HoldsBlock two_new) small-ReadsBack refl

migrate_writes-IsPlanned_example :
    All
      (IsPlanned (plan ∷ []) (("dev1", "20.0.0.11") ∷ []))
      (migrate same_text lab table moving old_net new_net
        (plan ∷ [], ("dev1", "20.0.0.11") ∷ [])
        start).1.calls
migrate_writes-IsPlanned_example =
    migrate_writes-IsPlanned same_text lab table moving old_net new_net (plan ∷ [])
      (("dev1", "20.0.0.11") ∷ []) start refl refl
