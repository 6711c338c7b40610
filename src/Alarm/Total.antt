-- ===== src/Alarm/Total.antt =====
-- When `parse_alarm_frame` returns, and when an exception leaves it.
use pytvt.Prelude.{
  ◌≡◌, refl, false, Bool, ◌&&◌, inl, inr, Option, none, some, leb, length, Bool-cases,
  if◌then◌else◌,
}
use pytvt.Prelude.Bytes.{Bytes, starts_with}
use pytvt.Alarm.{Libraries}
use pytvt.Alarm.Escapes.{
  is_none, json_escapes, xml_escapes, parse_json_payload-is_none, parse_xml_payload-is_none,
}
use pytvt.Alarm.Frame.{
  strip_bytes, extract_http_body, looks_like_xml, opens_json, prefixed_body, tvt_binary_magic,
  parse_bare, parse_body, parse_alarm_frame,
}

-- The payload of a frame: JSON, XML, or none of them.
pub data Part : Type 0 where
  json_part xml_part : Bytes → Part
  no_part : Part

abbrev bare_part : Bytes → Part
bare_part frame =
    if opens_json (strip_bytes frame)
    then json_part (strip_bytes frame)
    else if looks_like_xml frame
    then xml_part frame
    else if starts_with tvt_binary_magic frame && leb 8 (length frame)
    then no_part
    else if opens_json (prefixed_body frame)
    then json_part (prefixed_body frame)
    else no_part

-- The payload of an HTTP request, or of a frame that is none.
abbrev pub part_of : Option Bytes → Bytes → Part
part_of none frame = bare_part frame
part_of (some body) frame = if looks_like_xml body then xml_part body else json_part body

module _ {V : Type 0} (lib : Libraries V) where
  -- The payload makes its parser raise what the parser does not catch.
  abbrev pub escapes : Part → Bool
  escapes (json_part raw) = json_escapes lib (lib.loads raw)
  escapes (xml_part raw) = xml_escapes lib raw
  escapes no_part = false

  parse_bare-is_none : (frame : Bytes) → is_none (parse_bare lib frame) ≡ escapes (bare_part frame)
  unfolding parse_bare
  parse_bare-is_none frame = elim (Bool-cases (opens_json (strip_bytes frame))) [
    | inl a ↦ rw (a) (parse_json_payload-is_none lib _ (strip_bytes frame))
    | inr a ↦ rw (a) (elim (Bool-cases (looks_like_xml frame)) [
      | inl b ↦ rw (b) (parse_xml_payload-is_none lib _ frame)
      | inr b ↦
          rw (b) (elim (Bool-cases (starts_with tvt_binary_magic frame && leb 8 (length frame))) [
            | inl c ↦ rw (c) refl
            | inr c ↦ rw (c) (elim (Bool-cases (opens_json (prefixed_body frame))) [
              | inl d ↦ rw (d) (parse_json_payload-is_none lib _ (prefixed_body frame))
              | inr d ↦ rw (d) refl
            ])
          ])
    ])
  ]

  parse_body-is_none :
      (frame : Bytes) (body : Option Bytes)
      → is_none (parse_body lib frame body) ≡ escapes (part_of body frame)
  unfolding parse_body
  parse_body-is_none frame none = parse_bare-is_none frame
  parse_body-is_none frame (some body) = elim (Bool-cases (looks_like_xml body)) [
    | inl a ↦ rw (a) (parse_xml_payload-is_none lib _ body)
    | inr a ↦ rw (a) (parse_json_payload-is_none lib _ body)
  ]

  -- An exception leaves `parse_alarm_frame` exactly if its payload is JSON for which `json.loads`
  -- raises what is not caught, or an alarm whose code `int` overflows on; or XML of a recorder that
  -- is read and has an entry with an id of digits that `int` refuses. In every other case there is a
  -- frame, whatever bytes arrive.
  pub parse_alarm_frame-escapes :
      (frame : Bytes)
      → is_none (parse_alarm_frame lib frame) ≡ escapes (part_of (extract_http_body frame) frame)
  unfolding parse_alarm_frame
  parse_alarm_frame-escapes frame = parse_body-is_none frame (extract_http_body frame)
