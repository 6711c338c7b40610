-- ===== src/Workflows/Client.antt =====
-- The recorder's client (NvrClient of xml_api.py) as the workflows use it, and their run state.
-- What a call answers, and what it does to the recorder and the cameras, is the interface's.
use pytvt.Prelude.{ℕ, String, Bool, Option, List, ◌∷◌}
use pytvt.Workflows.Base.{ProgressEvent, Reply}

pub record Channel : Type 0 where
  pub chl_num : ℕ
  pub name : String
  pub ip : String
  pub port : ℕ
  pub dev_id : String
  pub model : String
  pub manufacturer : String
  pub protocol : String
  pub online : Bool
  pub add_type : String
  pub poe_index : ℕ
  pub chl_type : String
  pub access_type : String
  pub auto_report_id : String
  pub guid : String

pub record NvrLanFreeDevice : Type 0 where
  pub ip : String
  pub mask : String
  pub gateway : String
  pub mac : String
  pub port : ℕ
  pub http_port : ℕ
  pub protocol : String
  pub manufacturer : String
  pub model : String
  pub name : String
  pub serial_number : String
  pub local_eth_name : String
  pub sub_ip : String
  pub sub_ip_netmask : String
  pub activated : Option Bool
  pub activate_status : String
  pub industry_product_type : String
  pub device_type : String

-- A network as the ipaddress module gives it, by its address as a number and its prefix length.
pub record Network : Type 0 where
  pub network_address : ℕ
  pub prefixlen : ℕ

-- The functions of the ipaddress module that the workflows call.
pub record IpAddress : Type 0 where
  pub ip_address : String → Option ℕ
  pub ip_network : String → Option Network
  pub has_address : Network → ℕ → Bool
  pub overlaps : Network → Network → Bool
  pub str_address : ℕ → String
  pub str_network : Network → String
  pub netmask : Network → String
  -- `next(net.hosts())`; a network has a host.
  pub first_host : Network → String

-- `World` is the state of the recorder and its cameras. Each call runs in it.
pub record NvrClient : Type 1 where
  pub World : Type 0
  pub host : String
  pub query_channels : World → Reply (List Channel) × World
  pub query_nvr_lan_free_devices : World → Reply (List NvrLanFreeDevice) × World
  -- `update_device_credentials(dev_ids=[dev_id], username=…, password=…)`
  pub update_device_credentials : String → String → String → World → Reply (Unit {0}) × World
  -- `edit_nvr_ipc_passwords([dev_id], new_password=…)`
  pub edit_nvr_ipc_passwords : String → String → World → Reply (Unit {0}) × World
  pub edit_ipc_password_status : String → String → World → Reply String × World
  -- old address, new address, mask, gateway, user name, password
  pub edit_nvr_lan_device_network :
      String → String → String → String → String → String → World → Reply (Unit {0}) × World
  -- the request of `_edit_channel_ip`: device and new address
  pub post_edit_dev_list : String → String → World → Reply (Unit {0}) × World
  -- `time.sleep(settle_seconds)`
  pub sleep : World → World

-- The calls that change the recorder or a camera, as a run makes them.
pub data Call : Type 0 where
  store_credentials : String → String → String → Call
  change_password : String → String → Call
  change_network : String → String → Call
  store_ip : String → String → Call

-- A run so far: the world, the events emitted and the writing calls made, the latest first.
pub record RunState (c : NvrClient) : Type 0 where
  pub world : NvrClient.World c
  pub events : List ProgressEvent
  pub calls : List Call

-- The device, or the old address, that a call is about.
abbrev pub target : Call → String
target (store_credentials d u p) = d
target (change_password d p) = d
target (change_network a b) = a
target (store_ip d a) = d

module _ {c : NvrClient} {A : Type 0} where
  abbrev pub pure : A → RunState c → A × RunState c
  pure a s = (a, s)

  -- A reading call.
  abbrev pub ask :
      (NvrClient.World c → Reply A × NvrClient.World c) → RunState c → Reply A × RunState c
  ask f s = let (r, w) = f s.world in (r, record s { world = w })

  -- A writing call, which may raise after it has reached the recorder.
  abbrev pub perform :
      Call → (NvrClient.World c → Reply A × NvrClient.World c) → RunState c → Reply A × RunState c
  perform k f s = let (r, w) = f s.world in (r, record s { world = w; calls = k ∷ s.calls })

module _ {c : NvrClient} where
  abbrev pub emit : ProgressEvent → RunState c → Unit {0} × RunState c
  emit e s = (tt, record s { events = e ∷ s.events })

  abbrev pub settle : RunState c → Unit {0} × RunState c
  settle s = (tt, record s { world = NvrClient.sleep c s.world })

module _ {c : NvrClient} {A B : Type 0} where
  infixl 5 ◌>>=◌ ◌>>◌
  abbrev pub ◌>>=◌ :
      (RunState c → A × RunState c)
      → (A → RunState c → B × RunState c)
      → RunState c
      → B × RunState c
  ◌>>=◌ m f s = let (a, t) = m s in f a t

  abbrev pub ◌>>◌ :
      (RunState c → A × RunState c) → (RunState c → B × RunState c) → RunState c → B × RunState c
  ◌>>◌ m n s = let (a, t) = m s in n t

-- An action of a run.
abbrev pub Act : NvrClient → Type 0 → Type 0
Act c A = RunState c → A × RunState c
