-- ===== src/Tests/RuntimeRuns.antt =====
-- The runtime's client at concrete inputs.
use pytvt.Prelude.{◌≡◌, ◌≤◌, ◌+◌, refl, String, true, false, none, some, List, [], ◌∷◌}
use pytvt.Prelude.Int.{pos}
use pytvt.Prelude.Bytes.{ascii}
use pytvt.Prelude.Json.{
  Json, text, num, flag, null, array, object, no_items, item, Members, no_members, member,
}
use pytvt.Protocol.Socket.{Incoming, chunk, fails, timed_out}
use pytvt.Runtime.{
  result, RuntimeLibraries, not_json, operation_timeout_ms, exchange_timeout_ms,
  runtime_response_grace_ms,
}
use pytvt.Runtime.Wire.{read_line, line, exchange_failed}
use pytvt.Runtime.Plates.{PlateStats, parse_plate_stats, parse_all}
use pytvt.Runtime.Plates.Event.{RuntimePlateEvent, parse_plate_event}
use pytvt.Runtime.Stream.{
  Session, RuntimeStream, Runtime, plate_stream_poll, plate_stream_ack, plate_stream_stop,
  opened_stream, no_timeout, poll, get_event, ack, close_stream, parse_plate_poll, parse_plate_ack,
  is_some,
}
use pytvt.Runtime.Deadlines.{deadlines_leave_grace}
use pytvt.Runtime.Lines.{Answers, read_line-Answers}
use pytvt.Runtime.Delivery.{Operation, ack_op, close_op, run, is_acked, delivery_kept_until_acked}
use pytvt.Runtime.Given.{get_event-pending}

deadlines_leave_grace_example :
    (1000 ≤ 4000) × (4000 ≤ 10000) × (7000 ≤ 10000 → 4000 + runtime_response_grace_ms ≤ 10000)
unfolding operation_timeout_ms exchange_timeout_ms
deadlines_leave_grace_example =
    deadlines_leave_grace (some 30000) (some 10000) 30000 {ms = 4000} {ex = 10000} refl refl

-- Two chunks with a line and a byte after it, and then a failure.
abbrev chunks : List Incoming
chunks = chunk (123 ∷ []) ∷ chunk (125 ∷ 10 ∷ 7 ∷ []) ∷ fails timed_out ∷ []

read_line-Answers_example :
    Answers (123 ∷ 125 ∷ 10 ∷ 7 ∷ []) exchange_failed (line (123 ∷ 125 ∷ 10 ∷ []))
unfolding read_line
read_line-Answers_example = read_line-Answers chunks

abbrev libraries_of_runtime : RuntimeLibraries
libraries_of_runtime = record {
  loads = λ bs. not_json;
  real_equals = λ s n. false;
  aware_datetime = λ s. true;
  b64_decoded = λ s. some (ascii s);
}

abbrev zero_number : Json
zero_number = num (pos 0)

abbrev raw_stats : Json
raw_stats = object (
    member "callbacks_received" zero_number (
      member "events_parsed" zero_number (
        member "events_dropped" zero_number (
          member "malformed_payloads" zero_number (
            member "rejected_callbacks" zero_number (
              member "ignored_commands" zero_number (
                member "buffered_events" zero_number (
                  member "buffered_image_bytes" zero_number
                    (member "last_error" null no_members)))))))))

abbrev no_counts : PlateStats
no_counts = record {
  callbacks_received = 0;
  events_parsed = 0;
  events_dropped = 0;
  malformed_payloads = 0;
  rejected_callbacks = 0;
  ignored_commands = 0;
  buffered_events = 0;
  buffered_image_bytes = 0;
  last_error = none;
}

-- A member for each name, before others.
abbrev members : List String → Json → Members → Members
members [] v d = d
members (k ∷ ks) v d = member k v (members ks v d)

abbrev raw_event : Json
raw_event = object (
    members ("warnings" ∷ "char_confidences" ∷ []) (array no_items) (
      members ("user_id" ∷ "channel_id" ∷ []) zero_number (
        members ("plate" ∷ "source_event_id" ∷ []) (text "AB12") (
          members ("source" ∷ []) (text "nvr") (
            members ("received_at" ∷ []) (text "2024-01-01T00:00:00+00:00") (
              members
                ("direction" ∷ "edge_match" ∷ "plate_color" ∷ "vehicle_type" ∷ "vehicle_color" ∷ [])
                (text "unknown")
                (members ("is_partial" ∷ []) (flag false) (
                  members
                    ("channel_guid" ∷ "occurred_at" ∷ "declared_plate_char_count"
                      ∷ "source_encryption_version" ∷ "confidence" ∷ "plate_rect" ∷ "plate_size"
                      ∷ "edge_match_code" ∷ "plate_color_code" ∷ "plate_brightness"
                      ∷ "plate_color_confidence" ∷ "vehicle_type_code" ∷ "vehicle_color_code"
                      ∷ "vehicle_brand_code" ∷ "source_end_at" ∷ "full_image_base64"
                      ∷ "plate_image_base64" ∷ "full_image_format" ∷ "plate_image_format"
                      ∷ "full_image_size" ∷ [])
                    null no_members))))))))

-- A runtime that holds the delivery 7.
abbrev holding_seven : Runtime
holding_seven (plate_stream_poll limit wait) = result (
    object (
      member "events" (array (item raw_event no_items))
        (member "delivery_sequence" (num (pos 7)) (member "stats" raw_stats no_members))))
holding_seven (plate_stream_ack n) =
    result (object (member "acked_sequence" (num (pos n)) (member "stats" raw_stats no_members)))
holding_seven plate_stream_stop = result null

abbrev fresh_session : Session
fresh_session = record { stream = opened_stream true no_counts; exchanges = [] }

abbrev given_event : RuntimePlateEvent
given_event = record {
  user_id = 0;
  channel_id = 0;
  source = "nvr";
  received_at = "2024-01-01T00:00:00+00:00";
  occurred_at = none;
  source_event_id = "AB12";
  plate = "AB12";
  declared_plate_char_count = none;
  source_encryption_version = none;
  confidence = none;
  char_confidences = [];
  direction = "unknown";
  plate_rect = none;
  plate_size = none;
  channel_guid = none;
  edge_match = "unknown";
  edge_match_code = none;
  plate_color = "unknown";
  plate_color_code = none;
  plate_brightness = none;
  plate_color_confidence = none;
  vehicle_type = "unknown";
  vehicle_type_code = none;
  vehicle_color = "unknown";
  vehicle_color_code = none;
  vehicle_brand_code = none;
  source_end_at = none;
  full_image = none;
  plate_image = none;
  full_image_format = none;
  plate_image_format = none;
  full_image_size = none;
  is_partial = false;
  warnings = [];
}

get_event-pending_example :
    is_some
      (get_event libraries_of_runtime holding_seven no_timeout
        fresh_session).1.stream.pending_sequence
    ≡ true
unfolding get_event poll parse_plate_poll parse_plate_event parse_plate_stats parse_all
get_event-pending_example =
    get_event-pending libraries_of_runtime holding_seven no_timeout fresh_session {e = given_event}
      refl refl

-- A stream with the delivery 7, which is acknowledged and then closed.
abbrev holding_stream : RuntimeStream
holding_stream = record (opened_stream true no_counts) {
  pending_sequence = some 7;
  delivery_state_uncertain = true;
}

abbrev settling : List (Operation × Runtime)
settling = (ack_op, holding_seven) ∷ (close_op, holding_seven) ∷ []

delivery_kept_until_acked_example :
    is_acked libraries_of_runtime 7
      (run libraries_of_runtime settling
        (record { stream = holding_stream; exchanges = [] })).exchanges
    ≡ true
unfolding run ack close_stream parse_plate_ack parse_plate_stats
delivery_kept_until_acked_example =
    delivery_kept_until_acked libraries_of_runtime 7 holding_stream settling refl refl refl
