-- ===== src/Alarm.antt =====
-- Alarm frames that recorders push (alarm_protocol.py): the frame, its codes, and what the parsers use
-- of Python's libraries.
pub mod Json
pub mod Tree
pub mod Xml
pub mod Split
pub mod Frame
pub mod Binary
pub mod Escapes
pub mod Total
pub mod Server
pub mod Pieces
use pytvt.Prelude.{ℕ, ◌==◌, String, Bool, Option, none, some, List, [], ◌∷◌, if◌then◌else◌}
use pytvt.Prelude.Bytes.{Bytes}
use pytvt.Prelude.Dict.{Dict, get}
use pytvt.Prelude.Int.{ℤ}

-- `TVT_ALARM_CODES`: code, name and category.
abbrev pub AlarmCode : Type 0
AlarmCode = ℕ × String × String

abbrev pub tvt_alarm_codes : List AlarmCode
tvt_alarm_codes =
    (0x01, "motion", "alarm")
    ∷ (0x02, "sensor", "alarm")
    ∷ (0x03, "video_loss", "video_loss")
    ∷ (0x04, "front_offline", "status_change")
    ∷ (0x05, "object_removed_left", "ai")
    ∷ (0x06, "video_abnormal", "ai")
    ∷ (0x0A, "tripwire", "ai")
    ∷ (0x0B, "perimeter_intrusion", "ai")
    ∷ (0x0C, "face_detect", "face")
    ∷ (0x0D, "crowd_density", "ai")
    ∷ (0x0E, "people_intrusion", "ai")
    ∷ (0x0F, "people_counting", "ai")
    ∷ (0x10, "face_match", "face")
    ∷ (0x11, "face_match_ipc", "face")
    ∷ (0x12, "tripwire_perimeter_ipc", "ai")
    ∷ (0x13, "target_tracking", "ai")
    ∷ (0x14, "vehicle_plate", "lpr")
    ∷ (0x15, "area_entry", "ai")
    ∷ (0x16, "area_leave", "ai")
    ∷ (0x17, "line_crossing_count", "ai")
    ∷ (0x18, "traffic_statistics", "ai")
    ∷ (0x19, "doorbell", "alarm")
    ∷ (0x1A, "illegal_parking", "ai")
    ∷ (0x1B, "loitering", "ai")
    ∷ (0x1C, "audio_abnormal", "ai")
    ∷ (0x61, "temperature", "ai")
    ∷ (0x62, "fire_detection", "ai")
    ∷ (0x41, "exception", "exception")
    ∷ (0x42, "ip_conflict", "network")
    ∷ (0x43, "disk_io_error", "disk_error")
    ∷ (0x44, "disk_full", "disk_error")
    ∷ (0x48, "net_disconnect", "network")
    ∷ (0x49, "no_disk", "disk_error")
    ∷ (0x4B, "hdd_pull_out", "disk_error")
    ∷ (0x65, "front_online", "status_change")
    ∷ (0x66, "video_loss_off", "status_change")
    ∷ (0x68, "disk_io_error_off", "status_change")
    ∷ (0x69, "disk_full_off", "status_change")
    ∷ (0x6A, "no_disk_off", "status_change")
    ∷ []

unfoldable pub find_code : ℕ → List AlarmCode → Option (String × String)
find_code n [] = none
find_code n (entry ∷ rest) =
    let later = find_code n rest in if entry.0 == n then some (entry.1, entry.2) else later

abbrev pub categories : List AlarmCode → Dict String
categories [] = []
categories (entry ∷ rest) = (entry.1, entry.2) ∷ categories rest

-- `_CATEGORY_BY_CODE`
abbrev pub category_by_code : Dict String
category_by_code = categories tvt_alarm_codes

pub data Format : Type 0 where
  json http binary xml http_xml unknown : Format

-- `V` is the type of the JSON values inside an object, which the code hands on as they are.
pub data Payload (V : Type 0) : Type 0 where
  object : Dict V → Payload V
  value : V → Payload V

-- An event code: a text, or one that the code formats from a number, a value or an element's name.
pub data EventCode (V : Type 0) : Type 0 where
  named : String → EventCode V
  binary_code : ℕ → EventCode V
  code_of : Option V → EventCode V
  xml_element : String → EventCode V

pub data FrameChannel (V : Type 0) : Type 0 where
  no_channel : FrameChannel V
  number : ℕ → FrameChannel V
  given : V → FrameChannel V

pub record BinaryDetail : Type 0 where
  pub declared_length : ℕ
  pub actual_length : ℕ
  pub payload : Bytes
  pub alarm_code : Option ℕ
  pub channel_raw : Option ℕ

pub data Dialect : Type 0 where
  ipc nvr : Dialect

-- `_status_entry`; the last three fields are there in the dialect of the recorders only.
pub record StatusEntry (V : Type 0) : Type 0 where
  pub element : String
  pub id : String
  pub code : EventCode V
  pub name : Option String
  pub channel_display : Option ℕ
  pub channel_index : Option ℕ

pub record XmlDetail (V : Type 0) : Type 0 where
  pub dialect : Dialect
  pub xml_root : String
  pub xml_namespace : String
  pub device_info : Dict String
  pub data_time : String
  pub active_alarms : List (StatusEntry V)
  pub inactive_count : ℕ
  pub cleared_alarms : List (StatusEntry V)

pub data Reason : Type 0 where
  xml_too_large xml_doctype_refused malformed_xml unrecognized_xml_document : Reason

-- The dictionary `parsed`; a dump is determined by its bytes.
pub data Detail (V : Type 0) : Type 0 where
  nothing : Detail V
  dump : Bytes → Detail V
  hex : Bytes → Detail V
  json_detail : Payload V → Detail V
  binary_detail : BinaryDetail → Detail V
  xml_detail : XmlDetail V → Detail V
  xml_unknown : Reason → String → Bytes → Detail V

pub record ParsedAlarmFrame (V : Type 0) : Type 0 where
  pub event_code : EventCode V
  pub event_type : String
  pub channel : FrameChannel V
  pub device_id : String
  pub parse_format : Format
  pub parsed : Detail V

abbrev pub new_frame : {V : Type 0} → ParsedAlarmFrame V
new_frame = record {
  event_code = named "";
  event_type = "other";
  channel = no_channel;
  device_id = "";
  parse_format = unknown;
  parsed = nothing;
}

-- An XML element as `ElementTree` gives it.
mutual
  pub data Element : Type 0 where
    node : String → String → Dict String → Elements → Element

  pub data Elements : Type 0 where
    no_more : Elements
    more : Element → Elements → Elements

-- `int(value)`: a number, an exception that the code catches (`TypeError`, `ValueError`), or
-- `OverflowError`.
pub data Converted : Type 0 where
  converted : ℤ → Converted
  refused : Converted
  overflow : Converted

-- What `json.loads` makes of bytes: `not_json` is the `JSONDecodeError` and the `UnicodeDecodeError`,
-- which the code catches, `unloadable` every other exception.
pub data Loaded (V : Type 0) : Type 0 where
  loaded : Payload V → Loaded V
  not_json unloadable : Loaded V

-- What the code uses of `json`, `xml.etree.ElementTree` and `str`; `none` is an exception that it
-- catches, save in `digits_value`, which is `int` of a text and may raise `ValueError`.
pub record Libraries (V : Type 0) : Type 0 where
  pub loads : Bytes → Loaded V
  pub value_text : V → String
  pub value_int : V → Converted
  pub from_xml : Bytes → Option Element
  pub lower : String → String
  pub strip : String → String
  pub is_digits : String → Bool
  pub digits_value : String → Option ℕ

abbrev pub or_value : {A : Type 0} → Option A → Option A → Option A
or_value (some a) other = some a
or_value none other = other
