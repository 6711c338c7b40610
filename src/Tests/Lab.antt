-- ===== src/Tests/Lab.antt =====
-- A recorder with two cameras, and addresses read from a short table.
use pytvt.Prelude.{
  ℕ, ◌+◌, String, Bool, true, false, ◌&&◌, none, some, List, [], ◌∷◌, str_eq, ltb, leb,
  if◌then◌else◌,
}
use pytvt.Workflows.Base.{ok}
use pytvt.Workflows.Client.{Channel, Network, IpAddress, NvrClient, RunState}

abbrev pub camera : ℕ → String → String → Bool → Channel
camera n d i up = record {
  chl_num = n;
  name = "IP Camera";
  ip = i;
  port = 9008;
  dev_id = d;
  model = "TD-9544S4-C";
  manufacturer = "TVT";
  protocol = "TVT";
  online = up;
  add_type = "";
  poe_index = 0;
  chl_type = "";
  access_type = "";
  auto_report_id = "";
  guid = "";
}

abbrev pub cameras : List Channel
cameras = camera 1 "dev1" "10.0.0.11" false ∷ camera 2 "dev2" "10.0.0.12" true ∷ []

-- Every call succeeds, and the cameras' state never changes.
abbrev pub lab : NvrClient
lab = record {
  World = Unit {0};
  host = "10.0.0.250";
  query_channels = λ w. (ok cameras, w);
  query_nvr_lan_free_devices = λ w. (ok [], w);
  update_device_credentials = λ d u p w. (ok tt, w);
  edit_nvr_ipc_passwords = λ d p w. (ok tt, w);
  edit_ipc_password_status = λ d p w. (ok "changed", w);
  edit_nvr_lan_device_network = λ o n m g u p w. (ok tt, w);
  post_edit_dev_list = λ d i w. (ok tt, w);
  sleep = λ w. w;
}

abbrev pub start : RunState lab
start = record { world = tt; events = []; calls = [] }

abbrev pub old_net : Network
old_net = record { network_address = 2560; prefixlen = 24 }

abbrev pub new_net : Network
new_net = record { network_address = 5120; prefixlen = 24 }

-- Two addresses and two networks; the numbers stand for their last bytes.
abbrev pub table : IpAddress
table = record {
  ip_address = λ t.
      if str_eq t "10.0.0.11" then some 2571 else if str_eq t "10.0.0.12" then some 2572 else none;
  ip_network = λ t.
      if str_eq t "10.0.0.0/24"
      then some old_net
      else if str_eq t "20.0.0.0/24"
      then some new_net
      else none;
  has_address = λ n a. leb n.network_address a && ltb a (n.network_address + 256);
  overlaps = λ n m. false;
  str_address = λ n. if ltb n 5120 then "10.0.0.11" else "20.0.0.11";
  str_network = λ n. "20.0.0.0/24";
  netmask = λ n. "255.255.255.0";
  first_host = λ n. "20.0.0.1";
}
