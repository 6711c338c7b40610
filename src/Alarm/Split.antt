-- ===== src/Alarm/Split.antt =====
-- `split_alarm_frame` of alarm_protocol.py.
use pytvt.Prelude.{Bool, true, false, List, [], ◌∷◌, ltb, if◌then◌else◌, length}
use pytvt.Alarm.{
  Format, xml, http_xml, ipc, nvr, StatusEntry, XmlDetail, Detail, xml_detail, ParsedAlarmFrame,
  Libraries,
}
use pytvt.Alarm.Xml.{category_of, channel_at}

-- One frame for one active alarm.
abbrev pub single :
    {V : Type 0}
    → Libraries V
    → ParsedAlarmFrame V
    → XmlDetail V
    → StatusEntry V
    → ParsedAlarmFrame V
single lib frame detail alarm = record frame {
  event_code = alarm.code;
  event_type = category_of lib alarm.code;
  channel = elim detail.dialect [ ipc ↦ frame.channel | nvr ↦ channel_at lib alarm.channel_index ];
  parsed = xml_detail (record detail { active_alarms = alarm ∷ [] });
}

abbrev pub singles :
    {V : Type 0}
    → Libraries V
    → ParsedAlarmFrame V
    → XmlDetail V
    → List (StatusEntry V)
    → List (ParsedAlarmFrame V)
singles lib frame detail [] = []
singles lib frame detail (a ∷ others) = single lib frame detail a ∷ singles lib frame detail others

abbrev pub is_xml : Format → Bool
is_xml xml = true
is_xml http_xml = true
is_xml _ = false

-- `frame.parsed.get("active_alarms")`
abbrev pub split_detail :
    {V : Type 0} → Libraries V → ParsedAlarmFrame V → Detail V → List (ParsedAlarmFrame V)
split_detail lib frame (xml_detail detail) =
    if ltb (length detail.active_alarms) 2
    then frame ∷ []
    else singles lib frame detail detail.active_alarms
split_detail lib frame _ = frame ∷ []

unfoldable pub split_alarm_frame :
    {V : Type 0} → Libraries V → ParsedAlarmFrame V → List (ParsedAlarmFrame V)
split_alarm_frame lib frame =
    if is_xml frame.parse_format then split_detail lib frame frame.parsed else frame ∷ []
