-- ===== src/Alarm/Json.antt =====
-- `_parse_json_payload` of alarm_protocol.py. `none` is an exception that leaves it.
use pytvt.Prelude.{String, ◌||◌, Option, none, some, List, [], ◌∷◌, str_eq, if◌then◌else◌}
use pytvt.Prelude.Bytes.{Bytes}
use pytvt.Prelude.Dict.{Dict, get}
use pytvt.Prelude.Int.{pos, negsuc}
use pytvt.Alarm.{
  or_value, tvt_alarm_codes, find_code, Format, unknown, object, value, Loaded, loaded, not_json,
  unloadable, EventCode, named, code_of, FrameChannel, no_channel, given, hex, json_detail,
  ParsedAlarmFrame, new_frame, Converted, converted, refused, overflow, Libraries,
}

-- `payload.get(a, payload.get(b, payload.get(c, None)))`, over any list of keys.
abbrev pub first_of : {V : Type 0} → List String → Dict V → Option V
first_of [] d = none
first_of (k ∷ ks) d = or_value (get k d) (first_of ks d)

abbrev pub channel_of : {V : Type 0} → Option V → FrameChannel V
channel_of none = no_channel
channel_of (some v) = given v

module _ {V : Type 0} (lib : Libraries V) where
  -- `str(v)`, with the default `""`
  abbrev pub text_of : Option V → String
  text_of none = ""
  text_of (some v) = lib.value_text v

  -- `int(alarm_code)`, with the default 0
  abbrev pub int_of : Option V → Converted
  int_of none = converted (pos 0)
  int_of (some v) = lib.value_int v

  -- `TVT_ALARM_CODES.get(code_key, (f"code_{alarm_code}", "alarm"))`; a `code_key` of -1 is in no row.
  abbrev pub code_or_default : Option V → Option (String × String) → EventCode V × String
  code_or_default v none = (code_of v, "alarm")
  code_or_default v (some info) = (named info.0, info.1)

  abbrev pub info_of_code : Option V → Converted → Option (EventCode V × String)
  info_of_code v (converted (pos n)) = some (code_or_default v (find_code n tvt_alarm_codes))
  info_of_code v (converted (negsuc n)) = some (code_of v, "alarm")
  info_of_code v refused = some (code_of v, "alarm")
  info_of_code v overflow = none

  -- The event code and type of an object, by its `msg_type`.
  unfoldable pub classified : String → Dict V → Option (EventCode V × String)
  classified msg_type payload =
      if str_eq msg_type "heartbeat" || str_eq msg_type "keepalive" || str_eq msg_type "keep_alive"
      then some (named "heartbeat", "heartbeat")
      else if str_eq msg_type "alarm" || str_eq msg_type "event"
      then (let code = first_of ("alarm_type" ∷ "alarmType" ∷ "AlarmType" ∷ []) payload in
          info_of_code code (int_of code))
      else if str_eq msg_type ""
      then some (named "unknown", "other")
      else some (named msg_type, "other")

  abbrev pub object_frame : Format → Dict V → EventCode V × String → ParsedAlarmFrame V
  object_frame format payload code = record {
    event_code = code.0;
    event_type = code.1;
    channel = channel_of (first_of ("channel" ∷ "Channel" ∷ "chl" ∷ []) payload);
    device_id = text_of (first_of ("device_id" ∷ "deviceId" ∷ "DeviceID" ∷ []) payload);
    parse_format = format;
    parsed = json_detail (object payload);
  }

  abbrev pub classified_frame :
      Format → Dict V → Option (EventCode V × String) → Option (ParsedAlarmFrame V)
  classified_frame format payload none = none
  classified_frame format payload (some code) = some (object_frame format payload code)

  -- By what `json.loads` gives.
  unfoldable pub loaded_frame : Format → Bytes → Loaded V → Option (ParsedAlarmFrame V)
  loaded_frame format raw unloadable = none
  loaded_frame format raw not_json =
      some (record new_frame { parse_format = unknown; parsed = hex raw })
  loaded_frame format raw (loaded (value v)) = some (record new_frame {
    parse_format = format;
    parsed = json_detail (value v);
    event_code = named "unknown";
    event_type = "other";
  })
  loaded_frame format raw (loaded (object payload)) =
      classified_frame format payload
        (classified (lib.lower (text_of (first_of ("type" ∷ "Type" ∷ []) payload))) payload)

  unfoldable pub parse_json_payload : Format → Bytes → Option (ParsedAlarmFrame V)
  parse_json_payload format raw = loaded_frame format raw (lib.loads raw)
