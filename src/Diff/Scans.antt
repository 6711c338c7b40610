-- ===== src/Diff/Scans.antt =====
-- Which devices and cameras of two inventories differ (diff.py).
use pytvt.Prelude.{
  ℕ, ◌+◌, String, Bool, true, false, not, ◌&&◌, Option, none, some, List, [], ◌∷◌, ◌++◌, str_eq,
  if◌then◌else◌, length, is_empty, filter, count_if, map,
}
use pytvt.Prelude.Int.{pos}
use pytvt.Prelude.Keyed.{Eq, has, keys_of, sort_items, assign_all, value_or}
use pytvt.Diff.{
  ChannelKey, number, label, Value, str, int, flag, nothing, int_eq, option_eq, CameraInfo,
  ScanResult, FieldChange, DiffStatus, added, removed, changed, unchanged, CameraDiff, DeviceDiff,
  ScanDiff, TextLibrary, channel_key_eq, ip_eq,
}

-- `x or y` on texts
abbrev pub or_other : String → String → String
or_other s t = if str_eq s "" then t else s

-- A compared field of a device: its name, its old and new value, and whether they differ.
abbrev pub change_if : String → Bool → Value → Value → List FieldChange
change_if name same old new =
    if same then [] else record { field = name; old = old; new = new } ∷ []

abbrev pub value_of_option : Option String → Value
value_of_option none = nothing
value_of_option (some s) = str s

abbrev pub text_change : String → String → String → List FieldChange
text_change name old new = change_if name (str_eq old new) (str old) (str new)

abbrev pub same_flag : Bool → Bool → Bool
same_flag true b = b
same_flag false b = not b

-- The loop over `_DEVICE_COMPARE_FIELDS`.
unfoldable pub compare_device_fields : ScanResult → ScanResult → List FieldChange
compare_device_fields old new =
    change_if "success" (same_flag old.success new.success) (flag old.success) (flag new.success)
    ++ (text_change "device_name" old.device_name new.device_name
        ++ (text_change "device_model" old.device_model new.device_model
            ++ (text_change "serial_number" old.serial_number new.serial_number
                ++ (text_change "firmware" old.firmware new.firmware
                    ++ (change_if "total_channels" (int_eq old.total_channels new.total_channels)
                          (int old.total_channels) (int new.total_channels)
                        ++ (text_change "backend" old.backend new.backend
                            ++ change_if "error" (option_eq old.error new.error)
                                (value_of_option old.error) (value_of_option new.error)))))))

abbrev pub value_of_key : ChannelKey → Value
value_of_key (number n) = int n
value_of_key (label s) = str s

-- `cam.channel if cam.channel != "" else id(cam)`
abbrev pub key_of_camera : CameraInfo → ChannelKey → ChannelKey
key_of_camera c (number n) = number n
key_of_camera c (label s) = if str_eq s "" then number (pos c.identity) else label s

abbrev pub camera_diff : DiffStatus → ChannelKey × CameraInfo → CameraDiff
camera_diff status (ch, c) = record { channel = ch; name = c.name; status = status; changes = [] }

-- The items of one dict whose keys are not in another, and those whose keys are.
abbrev pub items_without {ℓ κ} :
    {K : Type ℓ} {V : Type κ} ⦃e : Eq K⦄ → List (K × V) → List (K × V) → List (K × V)
items_without other d = filter (λ (x : _ × _). not (has x.0 (keys_of other))) d

abbrev pub items_within {ℓ κ} :
    {K : Type ℓ} {V : Type κ} ⦃e : Eq K⦄ → List (K × V) → List (K × V) → List (K × V)
items_within other d = filter (λ (x : _ × _). has x.0 (keys_of other)) d

abbrev pub changed_camera :
    ChannelKey → CameraInfo → CameraInfo → List FieldChange → List CameraDiff
changed_camera ch old new [] = []
changed_camera ch old new (f ∷ fs) =
    record { channel = ch; name = or_other new.name old.name; status = changed; changes = f ∷ fs }
    ∷ []

pub record CameraDiffs : Type 0 where
  pub cams_added : List CameraDiff
  pub cams_removed : List CameraDiff
  pub cams_changed : List CameraDiff

abbrev pub is_same_device : List FieldChange → CameraDiffs → Bool
is_same_device fields cams =
    is_empty fields
    && (is_empty cams.cams_added && (is_empty cams.cams_removed && is_empty cams.cams_changed))

abbrev pub bare_device : DiffStatus → ScanResult → ℕ → ℕ → DeviceDiff
bare_device status r count_old count_new = record {
  nvr_ip = r.nvr_ip;
  site = r.site;
  hostname = r.hostname;
  status = status;
  field_changes = [];
  cameras_added = [];
  cameras_removed = [];
  cameras_changed = [];
  camera_count_old = count_old;
  camera_count_new = count_new;
}

abbrev pub is_changed : DiffStatus → Bool
is_changed changed = true
is_changed added = false
is_changed removed = false
is_changed unchanged = false

abbrev pub noted : DeviceDiff → List DeviceDiff × ℕ → List DeviceDiff × ℕ
noted dd (more, n) = if is_changed dd.status then (dd ∷ more, n) else (more, n + 1)

-- `{r.nvr_ip: r for r in results}`
unfoldable pub by_ip : List ScanResult → List (String × ScanResult)
by_ip rs = assign_all (map (λ (r : ScanResult). (r.nvr_ip, r)) rs) []

abbrev pub value_of_item : String × ScanResult → ScanResult
value_of_item x = x.1

module _ (lib : TextLibrary) where
  -- `CameraInfo.has_camera_address`
  unfoldable pub has_camera_address : CameraInfo → Bool
  has_camera_address c = not (str_eq (lib.strip c.address) "")

  -- `ScanResult.camera_count`
  unfoldable pub camera_count : ScanResult → ℕ
  camera_count r = count_if has_camera_address r.cameras

  -- The assignments of `_cameras_by_channel`.
  unfoldable pub keyed_cameras : List CameraInfo → List (ChannelKey × CameraInfo)
  keyed_cameras [] = []
  keyed_cameras (c ∷ cs) =
      let rest = keyed_cameras cs in
      if has_camera_address c then (key_of_camera c c.channel, c) ∷ rest else rest

  -- `_cameras_by_channel`
  unfoldable pub cameras_by_channel : List CameraInfo → List (ChannelKey × CameraInfo)
  cameras_by_channel cs = assign_all (keyed_cameras cs) []

  -- `str(v)` of a port.
  abbrev pub key_text : ChannelKey → String
  key_text (number n) = lib.int_text n
  key_text (label s) = s

  -- `_compare_camera_fields`
  unfoldable pub compare_camera_fields : CameraInfo → CameraInfo → List FieldChange
  compare_camera_fields old new =
      text_change "name" old.name new.name
      ++ (text_change "address" old.address new.address
          ++ (change_if "port" (str_eq (key_text old.port) (key_text new.port))
                (value_of_key old.port) (value_of_key new.port)
              ++ (text_change "status" old.status new.status
                  ++ (text_change "protocol" old.protocol new.protocol
                      ++ text_change "model" old.model new.model))))

  -- `_sort_channel`, as the order of its pairs.
  abbrev pub channel_le : ChannelKey → ChannelKey → Bool
  channel_le (number m) (number n) =
      lib.text_le (lib.zfill_10 (lib.int_text m)) (lib.zfill_10 (lib.int_text n))
  channel_le (number m) (label t) = true
  channel_le (label s) (number n) = false
  channel_le (label s) (label t) = lib.text_le s t

  -- The loop over the common channels, from the old cameras; the key is in the new ones.
  unfoldable pub changed_cameras :
      List (ChannelKey × CameraInfo) → List (ChannelKey × CameraInfo) → List CameraDiff
  changed_cameras new_by [] = []
  changed_cameras new_by ((ch, old) ∷ more) =
      changed_camera ch old (value_or old ch new_by)
        (compare_camera_fields old (value_or old ch new_by))
      ++ changed_cameras new_by more

  abbrev pub diff_by_channel :
      List (ChannelKey × CameraInfo) → List (ChannelKey × CameraInfo) → CameraDiffs
  diff_by_channel old_by new_by = record {
    cams_added = map (camera_diff added) (sort_items channel_le (items_without old_by new_by));
    cams_removed = map (camera_diff removed) (sort_items channel_le (items_without new_by old_by));
    cams_changed = changed_cameras new_by (sort_items channel_le (items_within new_by old_by));
  }

  -- `_diff_cameras`
  unfoldable pub diff_cameras : List CameraInfo → List CameraInfo → CameraDiffs
  diff_cameras old new = diff_by_channel (cameras_by_channel old) (cameras_by_channel new)

  abbrev pub device_diff : ScanResult → ScanResult → List FieldChange → CameraDiffs → DeviceDiff
  device_diff old new fields cams = record {
    nvr_ip = old.nvr_ip;
    site = or_other new.site old.site;
    hostname = or_other new.hostname old.hostname;
    status = if is_same_device fields cams then unchanged else changed;
    field_changes = fields;
    cameras_added = cams.cams_added;
    cameras_removed = cams.cams_removed;
    cameras_changed = cams.cams_changed;
    camera_count_old = camera_count old;
    camera_count_new = camera_count new;
  }

  -- `_diff_device`
  unfoldable pub diff_device : ScanResult → ScanResult → DeviceDiff
  diff_device old new =
      device_diff old new (compare_device_fields old new) (diff_cameras old.cameras new.cameras)

  -- `_make_added_device` and `_make_removed_device`
  unfoldable pub make_added_device : ScanResult → DeviceDiff
  make_added_device r = bare_device added r 0 (camera_count r)

  unfoldable pub make_removed_device : ScanResult → DeviceDiff
  make_removed_device r = bare_device removed r (camera_count r) 0

  -- The loop over the common devices: the changed ones, and the number of the others.
  unfoldable pub changed_devices :
      List (String × ScanResult) → List (String × ScanResult) → List DeviceDiff × ℕ
  changed_devices new_by [] = ([], 0)
  changed_devices new_by ((ip, old) ∷ more) =
      noted (diff_device old (value_or old ip new_by)) (changed_devices new_by more)

  abbrev pub diff_by_ip :
      String
      → String
      → List ScanResult
      → List ScanResult
      → List (String × ScanResult)
      → List (String × ScanResult)
      → ScanDiff
  diff_by_ip old_file new_file old new old_by new_by =
      let common = changed_devices new_by (sort_items lib.text_le (items_within new_by old_by)) in
      record {
        old_file = old_file;
        new_file = new_file;
        old_device_count = length old;
        new_device_count = length new;
        devices_added =
            map (λ x. make_added_device (value_of_item x))
              (sort_items lib.text_le (items_without old_by new_by));
        devices_removed =
            map (λ x. make_removed_device (value_of_item x))
              (sort_items lib.text_le (items_without new_by old_by));
        devices_changed = common.0;
        unchanged_count = common.1;
      }

  -- `diff_scans`
  unfoldable pub diff_scans : String → String → List ScanResult → List ScanResult → ScanDiff
  diff_scans old_file new_file old new =
      diff_by_ip old_file new_file old new (by_ip old) (by_ip new)
