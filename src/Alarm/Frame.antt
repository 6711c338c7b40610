-- ===== src/Alarm/Frame.antt =====
-- `parse_alarm_frame` of alarm_protocol.py with its forms of a frame. `none` is an exception that
-- leaves it.
use pytvt.Prelude.{
  ℕ, ◌+◌, ◌-◌, String, Bool, false, ◌&&◌, ◌||◌, Option, none, some, [], ◌∷◌, ltb, leb, ◌==◌,
  if◌then◌else◌, length, is_empty,
}
use pytvt.Prelude.Bytes.{Bytes, take, drop, starts_with, ascii, u32_le}
use pytvt.Alarm.{
  tvt_alarm_codes, find_code, json, http, binary, xml, http_xml, unknown, EventCode, named,
  binary_code, no_channel, number, dump, binary_detail, ParsedAlarmFrame, new_frame, Libraries,
}
use pytvt.Alarm.Json.{parse_json_payload}
use pytvt.Alarm.Xml.{max_frame_size, parse_xml_payload}

-- `TVT_BINARY_MAGIC`
abbrev pub tvt_binary_magic : Bytes
tvt_binary_magic = 84 ∷ 86 ∷ 84 ∷ 0 ∷ []

-- The whitespace of `bytes.strip`.
abbrev pub is_space : ℕ → Bool
is_space b = b == 32 || (leb 9 b && leb b 13)

abbrev pub lstrip : (ℕ → Bool) → Bytes → Bytes
lstrip p [] = []
lstrip p (b ∷ bs) = let rest = lstrip p bs in if p b then rest else b ∷ bs

abbrev pub rstrip : Bytes → Bytes
rstrip [] = []
rstrip (b ∷ bs) = let rest = rstrip bs in if is_space b && is_empty rest then [] else b ∷ rest

abbrev pub strip_bytes : Bytes → Bytes
strip_bytes data_bytes = rstrip (lstrip is_space data_bytes)

-- `bytes.upper`
abbrev pub upper : Bytes → Bytes
upper [] = []
upper (b ∷ bs) = (if leb 97 b && leb b 122 then b - 32 else b) ∷ upper bs

-- What follows the first blank line, as `find` and the slice after it give it.
unfoldable pub after_blank_line : Bytes → Option Bytes
after_blank_line [] = none
after_blank_line (b ∷ bs) =
    let rest = after_blank_line bs in
    if starts_with (13 ∷ 10 ∷ 13 ∷ 10 ∷ []) (b ∷ bs) then some (drop 4 (b ∷ bs)) else rest

unfoldable pub extract_http_body : Bytes → Option Bytes
extract_http_body frame =
    if starts_with (ascii "POST ") (upper frame) then after_blank_line frame else none

-- The whitespace and the byte order mark before XML.
abbrev pub is_xml_lead : ℕ → Bool
is_xml_lead b = b == 239 || b == 187 || b == 191 || b == 32 || b == 9 || b == 13 || b == 10

abbrev pub looks_like_xml : Bytes → Bool
looks_like_xml frame = starts_with (60 ∷ []) (lstrip is_xml_lead frame)

-- `frame and frame[0:1] in (b"{", b"[")`
abbrev pub opens_json : Bytes → Bool
opens_json [] = false
opens_json (b ∷ _) = b == 123 || b == 91

-- `data[8 : 8 + payload_len] if 8 + payload_len <= len(data) else data[8:]`
unfoldable pub binary_payload : Bytes → Bytes
binary_payload frame =
    let payload_len = u32_le (drop 4 frame) in
    if leb (8 + payload_len) (length frame) then take payload_len (drop 8 frame) else drop 8 frame

-- The body of a length-prefixed frame, empty where the prefix does not fit.
abbrev pub prefixed_body : Bytes → Bytes
prefixed_body frame =
    let declared = u32_le frame in
    if leb 8 (length frame)
      && ltb 4 declared
      && leb declared (length frame)
      && ltb declared max_frame_size
    then strip_bytes (take declared (drop 4 frame))
    else []

module _ {V : Type 0} where
  -- `TVT_ALARM_CODES.get(alarm_code, (f"binary_0x{alarm_code:02x}", "alarm"))`
  unfoldable pub code_event : ℕ → EventCode V × String
  code_event code = elim (find_code code tvt_alarm_codes) [
    | some (name, category) ↦ (named name, category)
    | none ↦ (binary_code code, "alarm")
  ]

  abbrev pub binary_info : Bytes → EventCode V × String
  binary_info payload =
      if leb 4 (length payload) then code_event (u32_le payload) else (named "", "other")

  -- The frame of a declared length and a payload.
  abbrev pub binary_frame : ℕ → Bytes → ParsedAlarmFrame V
  binary_frame declared payload = record {
    event_code = (binary_info payload).0;
    event_type = (binary_info payload).1;
    channel = if leb 8 (length payload) then number (u32_le (drop 4 payload)) else no_channel;
    device_id = "";
    parse_format = binary;
    parsed = binary_detail (record {
      declared_length = declared;
      actual_length = length payload;
      payload = payload;
      alarm_code = if leb 4 (length payload) then some (u32_le payload) else none;
      channel_raw = if leb 8 (length payload) then some (u32_le (drop 4 payload)) else none;
    });
  }

  unfoldable pub parse_binary_frame : Bytes → ParsedAlarmFrame V
  parse_binary_frame frame = binary_frame (u32_le (drop 4 frame)) (binary_payload frame)

  abbrev pub unknown_frame : Bytes → ParsedAlarmFrame V
  unknown_frame frame = record new_frame {
    parse_format = unknown;
    event_type = "other";
    parsed = dump frame;
  }

module _ {V : Type 0} (lib : Libraries V) where
  -- The forms that are not HTTP, in the order in which they are tried.
  unfoldable pub parse_bare : Bytes → Option (ParsedAlarmFrame V)
  parse_bare frame =
      if opens_json (strip_bytes frame)
      then parse_json_payload lib json (strip_bytes frame)
      else if looks_like_xml frame
      then parse_xml_payload lib xml frame
      else if starts_with tvt_binary_magic frame && leb 8 (length frame)
      then some (parse_binary_frame frame)
      else if opens_json (prefixed_body frame)
      then parse_json_payload lib json (prefixed_body frame)
      else some (unknown_frame frame)

  -- By the body of an HTTP request, if the frame is one.
  unfoldable pub parse_body : Bytes → Option Bytes → Option (ParsedAlarmFrame V)
  parse_body frame none = parse_bare frame
  parse_body frame (some body) =
      if looks_like_xml body
      then parse_xml_payload lib http_xml body
      else parse_json_payload lib http body

  unfoldable pub parse_alarm_frame : Bytes → Option (ParsedAlarmFrame V)
  parse_alarm_frame frame = parse_body frame (extract_http_body frame)
