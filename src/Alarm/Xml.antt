-- ===== src/Alarm/Xml.antt =====
-- `_parse_xml_payload` of alarm_protocol.py. `none` is an exception that
-- leaves the parser.
use pytvt.Alarm.Tree.{
  namespace_of, tag_of, raw_text, attributes_of, children_of, children_by_name, or_text, or_filled,
  has_bytes,
}
use pytvt.Prelude.{
  ℕ, ◌-◌, String, Bool, ◌||◌, Option, none, some, List, [], ◌∷◌, ◌++◌, ltb, leb, str_eq,
  if◌then◌else◌, length,
}
use pytvt.Prelude.Bytes.{Bytes, ascii}
use pytvt.Prelude.Dict.{Dict, get, put}
use pytvt.Alarm.{
  category_by_code, or_value, Format, unknown, EventCode, named, binary_code, code_of, xml_element,
  FrameChannel, no_channel, number, Dialect, ipc, nvr, StatusEntry, XmlDetail, Reason,
  xml_too_large, xml_doctype_refused, malformed_xml, unrecognized_xml_document, xml_detail,
  xml_unknown, ParsedAlarmFrame, new_frame, Element, node, Libraries,
}

abbrev pub max_frame_size : ℕ
max_frame_size = 65536

abbrev pub xml_status_element_codes : Dict String
xml_status_element_codes =
    ("motionAlarm", "motion")
    ∷ ("perimeterAlarm", "perimeter_intrusion")
    ∷ ("tripwireAlarm", "tripwire")
    ∷ ("ipdAlarm", "people_intrusion")
    ∷ ("oscAlarm", "object_removed_left")
    ∷ ("cddAlarm", "crowd_density")
    ∷ ("cpcAlarm", "people_counting")
    ∷ ("vfdAlarm", "face_detect")
    ∷ ("avdAlarm", "video_abnormal")
    ∷ ("sensorAlarmIn", "sensor")
    ∷ []

abbrev pub device_info_fields : Dict String
device_info_fields =
    ("devicename", "device_name")
    ∷ ("deviceno.", "device_no")
    ∷ ("sn", "sn")
    ∷ ("ipaddress", "ip_address")
    ∷ ("macaddress", "mac_address")
    ∷ []

module _ {V : Type 0} (lib : Libraries V) where
  abbrev pub text_in : Element → String
  text_in e = lib.strip (raw_text e)

  unfoldable pub device_fields : List Element → Dict String → Dict String
  device_fields [] d = d
  device_fields (e ∷ es) d =
      device_fields es (elim (get (lib.lower (tag_of e)) device_info_fields) [
        | none ↦ d
        | some key ↦ put key (text_in e) d
      ])

  abbrev pub at_least_one : Option ℕ → Option (Option ℕ)
  at_least_one none = none
  at_least_one (some n) = some (if leb 1 n then some n else none)

  -- `int(raw_id) if raw_id.isdigit() and int(raw_id) >= 1 else None`; the outer `none` is the
  -- `ValueError` of `int`.
  abbrev pub display_of : String → Option (Option ℕ)
  display_of raw_id =
      if lib.is_digits raw_id then at_least_one (lib.digits_value raw_id) else some none

  abbrev pub index_of : Option ℕ → Option ℕ
  index_of none = none
  index_of (some n) = some (n - 1)

  abbrev pub id_of : Element → String
  id_of e = or_text (get "id" (attributes_of e)) ""

  abbrev pub nvr_entry : String → EventCode V → Element → Option (Option ℕ) → Option (StatusEntry V)
  nvr_entry element event_code e none = none
  nvr_entry element event_code e (some display) = some (record {
    element = element;
    id = id_of e;
    code = event_code;
    name = some (or_text (get "name" (attributes_of e)) "");
    channel_display = display;
    channel_index = index_of display;
  })

  unfoldable pub status_entry : String → EventCode V → Element → Dialect → Option (StatusEntry V)
  status_entry element event_code e ipc = some (record {
    element = element;
    id = id_of e;
    code = event_code;
    name = none;
    channel_display = none;
    channel_index = none;
  })
  status_entry element event_code e nvr = nvr_entry element event_code e (display_of (id_of e))

  -- `XML_STATUS_ELEMENT_CODES.get(name, f"xml_{name}")`
  abbrev pub status_code : String → EventCode V
  status_code name = elim (get name xml_status_element_codes) [
    | some c ↦ named c
    | none ↦ xml_element name
  ]

  abbrev pub is_item : Element → Bool
  is_item e = str_eq (tag_of e) "item"

  abbrev pub items_in : List Element → List Element
  items_in [] = []
  items_in (e ∷ es) = let rest = items_in es in if is_item e then e ∷ rest else rest

  -- `items or [element]`
  abbrev pub nodes_of : Element → List Element
  nodes_of e = elim (items_in (children_of e)) [ [] ↦ e ∷ [] | i ∷ is ↦ i ∷ is ]

  -- What the loops over the status elements add to.
  abbrev pub Tally : Type 0
  Tally = List (StatusEntry V) × List (StatusEntry V)

  abbrev pub tallied : Element → Option (StatusEntry V) → Tally → Option Tally
  tallied e none tally = none
  tallied e (some entry) (active, cleared) = some (
      if str_eq (lib.lower (text_in e)) "true"
      then (active ++ entry ∷ [], cleared)
      else (active, cleared ++ entry ∷ []))

  -- The rest of a loop, unless an exception leaves it.
  abbrev pub and_then : Option Tally → (Tally → Option Tally) → Option Tally
  and_then none rest = none
  and_then (some tally) rest = rest tally

  unfoldable pub add_nodes : String → Dialect → List Element → Tally → Option Tally
  unfolding status_entry
  add_nodes name dialect [] tally = some tally
  add_nodes name dialect (e ∷ es) tally =
      and_then (tallied e (status_entry name (status_code name) e dialect) tally)
        (add_nodes name dialect es)

  unfoldable pub add_elements : Dialect → List Element → Tally → Option Tally
  unfolding add_nodes
  add_elements dialect [] tally = some tally
  add_elements dialect (e ∷ es) tally =
      and_then (add_nodes (tag_of e) dialect (nodes_of e) tally) (add_elements dialect es)

  -- `_CATEGORY_BY_CODE.get(code, "alarm")`
  abbrev pub category_of : EventCode V → String
  category_of (named c) = or_text (get c category_by_code) "alarm"
  category_of (binary_code n) = "alarm"
  category_of (code_of v) = "alarm"
  category_of (xml_element e) = "alarm"

  abbrev pub channel_at : Option ℕ → FrameChannel V
  channel_at none = no_channel
  channel_at (some n) = number n

  -- The channel that a recorder's entry gives; a camera's gives none.
  abbrev pub entry_channel : Dialect → StatusEntry V → FrameChannel V
  entry_channel ipc entry = no_channel
  entry_channel nvr entry = channel_at entry.channel_index

  abbrev pub xml_refused : Bytes → Reason → String → ParsedAlarmFrame V
  xml_refused raw reason root = record new_frame {
    parse_format = unknown;
    event_type = "other";
    event_code = named "";
    parsed = xml_unknown reason root raw;
  }

  -- The frame of a document without a status element.
  abbrev pub heartbeat_frame : Format → String → XmlDetail V → ParsedAlarmFrame V
  heartbeat_frame format device detail = record new_frame {
    parse_format = format;
    device_id = device;
    parsed = xml_detail detail;
    event_type = "heartbeat";
    event_code = named "heartbeat";
  }

  -- The frame after the loops.
  unfoldable pub status_frame : Format → String → XmlDetail V → Tally → ParsedAlarmFrame V
  status_frame format device detail ([], cleared) = record new_frame {
    parse_format = format;
    device_id = device;
    event_type = "status_change";
    event_code = named "alarm_status_inactive";
    channel = elim cleared [ [] ↦ no_channel | entry ∷ _ ↦ entry_channel detail.dialect entry ];
    parsed = xml_detail (record detail {
      inactive_count = length cleared;
      cleared_alarms = elim detail.dialect [ ipc ↦ [] | nvr ↦ cleared ];
    });
  }
  status_frame format device detail (first ∷ active, cleared) = record new_frame {
    parse_format = format;
    device_id = device;
    event_type = category_of first.code;
    event_code = first.code;
    channel = entry_channel detail.dialect first;
    parsed = xml_detail (record detail {
      active_alarms = first ∷ active;
      inactive_count = length cleared;
      cleared_alarms = elim detail.dialect [ ipc ↦ [] | nvr ↦ cleared ];
    });
  }

  -- The status element, the device's element and the dialect of a document; both may be missing.
  pub document_parts : Element → Option Element × Option Element × Dialect
  document_parts root =
      let children = children_by_name (children_of root) [] in
      if str_eq (lib.lower (tag_of root)) "deviceinfo"
      then (none, some root, nvr)
      else if str_eq (tag_of root) "config"
      then elim (get "deviceInfo" children) [
        | some info ↦ (get "alarmStatusInfo" children, some info, ipc)
        | none ↦ elim (get "DeviceInfo" children) [
          | some info ↦ (get "alarmStatusInfo" children, some info, nvr)
          | none ↦ (get "alarmStatusInfo" children, none, ipc)
        ]
      ]
      else (none, none, ipc)

  abbrev pub detail_of : Element → Option Element → Dialect → XmlDetail V
  detail_of root info dialect =
      let children = children_by_name (children_of root) [] in
      record {
        dialect = dialect;
        xml_root = tag_of root;
        xml_namespace = elim root [ node tag _ _ _ ↦ namespace_of tag ];
        device_info = elim info [ none ↦ [] | some e ↦ device_fields (children_of e) [] ];
        data_time = elim (or_value (get "dataTime" children) (get "DataTime" children)) [
          | none ↦ ""
          | some e ↦ text_in e
        ];
        active_alarms = [];
        inactive_count = 0;
        cleared_alarms = [];
      }

  -- `device_info.get("sn") or device_info.get("mac_address", "")`
  abbrev pub device_of : XmlDetail V → String
  device_of detail =
      or_filled (get "sn" detail.device_info) (or_text (get "mac_address" detail.device_info) "")

  abbrev pub finished : Format → XmlDetail V → Option Tally → Option (ParsedAlarmFrame V)
  finished format detail none = none
  finished format detail (some tally) = some (status_frame format (device_of detail) detail tally)

  -- The frame of a document by its parts.
  unfoldable pub parts_frame :
      Format
      → Bytes
      → Element
      → Option Element
      → Option Element
      → Dialect
      → Option (ParsedAlarmFrame V)
  unfolding add_elements status_frame
  parts_frame format raw root none none dialect =
      some (xml_refused raw unrecognized_xml_document (tag_of root))
  parts_frame format raw root none (some info) dialect =
      let detail = detail_of root (some info) dialect in
      some (heartbeat_frame format (device_of detail) detail)
  parts_frame format raw root (some status) info dialect =
      finished format (detail_of root info dialect)
        (add_elements dialect (children_of status) ([], []))

  -- By what `ElementTree.fromstring` gives.
  unfoldable pub root_frame : Format → Bytes → Option Element → Option (ParsedAlarmFrame V)
  unfolding parts_frame
  root_frame format raw none = some (xml_refused raw malformed_xml "")
  root_frame format raw (some root) =
      let parts = document_parts root in parts_frame format raw root parts.0 parts.1 parts.2

  unfoldable pub parse_xml_payload : Format → Bytes → Option (ParsedAlarmFrame V)
  unfolding root_frame
  parse_xml_payload format raw =
      if ltb max_frame_size (length raw)
      then some (xml_refused raw xml_too_large "")
      else if has_bytes (ascii "<!DOCTYPE") raw || has_bytes (ascii "<!ENTITY") raw
      then some (xml_refused raw xml_doctype_refused "")
      else root_frame format raw (lib.from_xml raw)
