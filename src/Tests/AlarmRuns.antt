-- ===== src/Tests/AlarmRuns.antt =====
-- Alarm frames at concrete inputs, with small libraries in place of Python's.
use pytvt.Alarm.{
  xml, named, number, ParsedAlarmFrame, nvr, StatusEntry, xml_detail, object, Converted, converted,
  overflow, node, no_more, Libraries, loaded, find_code,
}
use pytvt.Alarm.Binary.{write_frame, frame_of, parse_alarm_frame-write_frame}
use pytvt.Alarm.Frame.{extract_http_body, code_event, parse_alarm_frame}
use pytvt.Alarm.Pieces.{active_of, all_active, IsPiece, split_alarm_frame-pieces}
use pytvt.Alarm.Split.{split_alarm_frame}
use pytvt.Alarm.Total.{parse_alarm_frame-escapes}
use pytvt.Alarm.Escapes.{is_none}
use pytvt.Prelude.{ℕ, ◌≡◌, refl, true, some, [], ◌∷◌, All, arith, ◌==◌, if◌then◌else◌}
use pytvt.Prelude.Bytes.{Bytes, starts_with}
use pytvt.Prelude.Dict.{Dict, get}
use pytvt.Prelude.Int.{pos}

abbrev alarm_object : Dict ℕ
alarm_object = ("type", 0) ∷ ("alarm_type", 9) ∷ []

-- The value 9 stands for an infinite number.
abbrev infinite : ℕ → Converted
infinite v = if v == 9 then overflow else converted (pos v)

abbrev libraries : (ℕ → Converted) → Libraries ℕ
libraries to_int = record {
  loads = λ b. loaded (object alarm_object);
  value_text = λ v. "alarm";
  value_int = to_int;
  from_xml = λ b. some (node "config" "" [] no_more);
  lower = λ s. s;
  strip = λ s. s;
  is_digits = λ s. true;
  digits_value = λ s. some 3;
}

abbrev calm : Libraries ℕ
calm = libraries (λ v. converted (pos v))

abbrev braces : Bytes
braces = 32 ∷ 123 ∷ 125 ∷ 10 ∷ []

parse_alarm_frame-write_frame_example :
    parse_alarm_frame calm (write_frame 0x14 11 (7 ∷ []) (1 ∷ []))
    ≡ some (frame_of 0x14 11 (7 ∷ []))
parse_alarm_frame-write_frame_example =
    parse_alarm_frame-write_frame calm 0x14 11 (7 ∷ []) (1 ∷ []) (omega arith) (omega arith)
      (omega arith)

-- An alarm whose code `int` overflows on.
parse_alarm_frame-escapes_example : is_none (parse_alarm_frame (libraries infinite) braces) ≡ true
unfolding extract_http_body starts_with get
parse_alarm_frame-escapes_example = parse_alarm_frame-escapes (libraries infinite) braces

abbrev entry_at : ℕ → StatusEntry ℕ
entry_at n = record {
  element = "motionAlarm";
  id = "12";
  code = named "motion";
  name = some "gate";
  channel_display = some n;
  channel_index = some n;
}

abbrev two_alarms : ParsedAlarmFrame ℕ
two_alarms = record {
  event_code = named "motion";
  event_type = "alarm";
  channel = number 3;
  device_id = "N1";
  parse_format = xml;
  parsed = xml_detail (record {
    dialect = nvr;
    xml_root = "config";
    xml_namespace = "";
    device_info = [];
    data_time = "";
    active_alarms = entry_at 3 ∷ entry_at 5 ∷ [];
    inactive_count = 0;
    cleared_alarms = [];
  });
}

split_alarm_frame-pieces_example :
    (all_active calm (split_alarm_frame calm two_alarms) ≡ active_of calm two_alarms.parsed)
    × All (IsPiece calm two_alarms) (split_alarm_frame calm two_alarms)
split_alarm_frame-pieces_example = split_alarm_frame-pieces calm two_alarms refl

-- The number of a known code gets its name.
plate_code : (frame_of {V = ℕ} 0x14 11 []).event_code ≡ named "vehicle_plate"
unfolding code_event find_code
plate_code = refl
