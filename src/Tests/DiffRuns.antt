-- ===== src/Tests/DiffRuns.antt =====
-- The comparison of inventories at concrete inputs.
use pytvt.Prelude.{ℕ, ◌+◌, ◌≡◌, refl, String, true, none, List, [], ◌∷◌, length, filter}
use pytvt.Prelude.Int.{pos}
use pytvt.Prelude.Keyed.{has, value_or, store, assign_all, sort_items}
use pytvt.Diff.{number, label, channel_eq, CameraInfo, ScanResult, TextLibrary, changed}
use pytvt.Diff.Scans.{
  by_ip, cameras_by_channel, keyed_cameras, has_camera_address, diff_device, diff_scans,
  diff_cameras, changed_devices, changed_cameras, compare_device_fields, compare_camera_fields,
}
use pytvt.Diff.Counts.{diff_scans-counts}
use pytvt.Diff.Unkeyed.{unkeyed_camera_changes}

abbrev plain_library : TextLibrary
plain_library = record {
  strip = λ s. s;
  int_text = λ n. "7";
  zfill_10 = λ s. s;
  text_le = λ s t. true;
}

-- A camera without a channel, as the object with the identity `n`.
abbrev gate_camera : ℕ → CameraInfo
gate_camera n = record {
  identity = n;
  channel = label "";
  name = "Gate";
  address = "192.168.1.9";
  port = number (pos 80);
  status = "Online";
  protocol = "TVT";
  model = "M1";
}

abbrev recorder : String → List CameraInfo → ScanResult
recorder ip cams = record {
  site = "S";
  hostname = "H";
  nvr_ip = ip;
  success = true;
  device_name = "N";
  device_model = "M";
  serial_number = "1";
  firmware = "F";
  total_channels = pos 4;
  cameras = cams;
  error = none;
  backend = "protocol";
}

abbrev old_scan : List ScanResult
old_scan = recorder "10.0.0.1" [] ∷ recorder "10.0.0.2" (gate_camera 5 ∷ []) ∷ []

abbrev new_scan_results : List ScanResult
new_scan_results = recorder "10.0.0.2" (gate_camera 6 ∷ []) ∷ recorder "10.0.0.3" [] ∷ []

diff_scans-counts_example :
    (length (diff_scans plain_library "a" "b" old_scan new_scan_results).devices_added
        + (length (diff_scans plain_library "a" "b" old_scan new_scan_results).devices_changed
            + (diff_scans plain_library "a" "b" old_scan new_scan_results).unchanged_count)
      ≡ length (by_ip new_scan_results))
    × (length (diff_scans plain_library "a" "b" old_scan new_scan_results).devices_removed
          + (length (diff_scans plain_library "a" "b" old_scan new_scan_results).devices_changed
              + (diff_scans plain_library "a" "b" old_scan new_scan_results).unchanged_count)
        ≡ length (by_ip old_scan))
diff_scans-counts_example = diff_scans-counts plain_library "a" "b" old_scan new_scan_results

unkeyed_camera_changes_example :
    (diff_device plain_library
      (recorder "10.0.0.2" (gate_camera 5 ∷ []))
      (recorder "10.0.0.2" (gate_camera 6 ∷ []))).status
    ≡ changed
unfolding has_camera_address cameras_by_channel keyed_cameras assign_all store has channel_eq
unkeyed_camera_changes_example =
    unkeyed_camera_changes plain_library (recorder "10.0.0.2" (gate_camera 5 ∷ []))
      (recorder "10.0.0.2" (gate_camera 6 ∷ [])) (gate_camera 5) [] [] refl refl refl refl

-- One recorder goes, one comes, and one has a camera without a channel.
test_counts : (diff_scans plain_library "a" "b" old_scan new_scan_results).unchanged_count ≡ 0
unfolding diff_scans by_ip assign_all store has sort_items changed_devices diff_device diff_cameras
    cameras_by_channel keyed_cameras has_camera_address changed_cameras compare_device_fields
    compare_camera_fields value_or filter channel_eq
test_counts = refl
