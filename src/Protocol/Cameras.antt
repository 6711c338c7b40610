-- ===== src/Protocol/Cameras.antt =====
-- The cameras in a recorder's JSON answers (protocol.py). `json.loads` and `str` are the standard
-- library's; `none` is a `ValueError`, which `int(port)` raises for a text that is no number.
use pytvt.Prelude.{
  String, Bool, false, not, ◌&&◌, Option, none, some, List, [], ◌∷◌, if◌then◌else◌, ◌==◌, ℕ,
}
use pytvt.Prelude.Int.{ℤ, pos, negsuc}
use pytvt.Prelude.Json.{
  Json, text, num, real, flag, null, array, object, Items, no_items, item, Members, no_members,
  member, is_true, get_member,
}

-- `str(v).strip()`, and `int(v)` where it is not an exception.
pub record Texts : Type 0 where
  pub stripped : Json → String
  pub to_int : Json → Option ℤ

-- `d.get(k1) or d.get(k2) or ... or default`
abbrev pub first_true : List String → Json → Members → Json
first_true [] default d = default
first_true (k ∷ ks) default d =
    let rest = first_true ks default d in if is_true (get_member k d) then get_member k d else rest

-- A name that is given, or `Channel {n}`.
pub data CameraName : Type 0 where
  given : String → CameraName
  numbered : ℕ → CameraName

-- A camera of a scan.
pub record Camera : Type 0 where
  pub channel : Json
  pub name : CameraName
  pub address : String
  pub port : ℤ
  pub status : String
  pub protocol : String
  pub model : String

-- `Online` for 1, which `True` equals too.
abbrev pub is_one : ℤ → Bool
is_one (pos n) = n == 1
is_one (negsuc n) = false

abbrev pub status_text : Json → String
status_text (num n) = if is_one n then "Online" else "Offline"
status_text (flag b) = if b then "Online" else "Offline"
status_text (text s) = s
status_text (real b s) = "Unknown"
status_text null = "Unknown"
status_text (array xs) = "Unknown"
status_text (object d) = "Unknown"

abbrev pub name_keys : List String
name_keys = "szChlname" ∷ "ChannelName" ∷ "channelName" ∷ "name" ∷ "CameraName" ∷ "cameraName" ∷ []

abbrev pub address_keys : List String
address_keys = "szServer" ∷ "Address" ∷ "address" ∷ "IP" ∷ "ip" ∷ "IpAddr" ∷ []

abbrev pub model_keys : List String
model_keys = "productModel" ∷ "Model" ∷ "model" ∷ "ProductModel" ∷ []

-- `if not name and not address`
abbrev pub is_unnamed : Members → Bool
is_unnamed d =
    not (is_true (first_true name_keys (text "") d))
    && not (is_true (first_true address_keys (text "") d))

abbrev pub both : Option (List Camera) → Option (List Camera) → Option (List Camera)
both none more = none
both (some []) more = more
both (some (c ∷ cs)) none = none
both (some (c ∷ cs)) (some ds) = some (c ∷ ds)

-- `if cameras: return cameras`, else what comes next.
abbrev pub or_next : Option (List Camera) → Option (List Camera) → Option (List Camera)
or_next none next = none
or_next (some []) next = next
or_next (some (c ∷ cs)) next = some (c ∷ cs)

abbrev pub list_keys : List String
list_keys = "IPCInfo" ∷ "ChannelInfo" ∷ "channels" ∷ "Channel" ∷ "data" ∷ "rows" ∷ []

module _ (lib : Texts) where
  -- `int(port) if port else 0`
  abbrev pub port_of : Json → Option ℤ
  port_of v = if is_true v then lib.to_int v else some (pos 0)

  abbrev pub camera_at : Members → Option ℤ → Option (List Camera)
  camera_at d none = none
  camera_at d (some port) = some (
      record {
        channel = first_true ("channel" ∷ "Channel" ∷ "ChannelNo" ∷ []) (num (pos 0)) d;
        name = given (lib.stripped (first_true name_keys (text "") d));
        address = lib.stripped (first_true address_keys (text "") d);
        port = port;
        status = status_text (first_true ("status" ∷ "Status" ∷ "OnlineStatus" ∷ []) (text "") d);
        protocol =
            lib.stripped
              (first_true ("manufacturerName" ∷ "Protocol" ∷ "protocol" ∷ []) (text "") d);
        model = lib.stripped (first_true model_keys (text "") d);
      }
      ∷ [])

  -- `_normalize_camera`: one camera or none.
  unfoldable pub normalize_camera : Json → Option (List Camera)
  normalize_camera (object d) =
      if is_unnamed d
      then some []
      else camera_at d (port_of (first_true ("nPort" ∷ "Port" ∷ "port" ∷ []) (num (pos 0)) d))
  normalize_camera (text s) = some []
  normalize_camera (num n) = some []
  normalize_camera (real b s) = some []
  normalize_camera (flag b) = some []
  normalize_camera null = some []
  normalize_camera (array xs) = some []

  -- `for item in items: ...`
  unfoldable pub cameras_of_items : Items → Option (List Camera)
  cameras_of_items no_items = some []
  cameras_of_items (item v more) = both (normalize_camera v) (cameras_of_items more)

  abbrev pub cameras_of_list : Json → Option (List Camera)
  cameras_of_list (array xs) = cameras_of_items xs
  cameras_of_list (object d) = some []
  cameras_of_list (text s) = some []
  cameras_of_list (num n) = some []
  cameras_of_list (real b s) = some []
  cameras_of_list (flag b) = some []
  cameras_of_list null = some []

  -- The loop over the keys under which recorders keep a list of cameras.
  unfoldable pub cameras_of_keys : List String → Members → Option (List Camera)
  cameras_of_keys [] d = some []
  cameras_of_keys (k ∷ ks) d = or_next (cameras_of_list (get_member k d)) (cameras_of_keys ks d)

  -- `_extract_cameras_from_json`, with its recursion into the values of an object.
  unfoldable mutual
    pub extract_cameras : Json → Option (List Camera)
    extract_cameras (object d) = or_next (cameras_of_keys list_keys d) (extract_from_values d)
    extract_cameras (array xs) = cameras_of_items xs
    extract_cameras (text s) = some []
    extract_cameras (num n) = some []
    extract_cameras (real b s) = some []
    extract_cameras (flag b) = some []
    extract_cameras null = some []

    pub extract_from_values : Members → Option (List Camera)
    extract_from_values no_members = some []
    extract_from_values (member k v more) = or_next (extract_cameras v) (extract_from_values more)
