-- ===== src/Tests/PlateRuns.antt =====
-- A small stream of plate events: two places, three events, one of which has to go, then a close.
use pytvt.Plates.{
  PlateEvent, ipc, unmatched, event_bytes, image_bytes, drop_oldest, VehicleDirection, PlateColor,
  VehicleColor, VehicleType,
}
use pytvt.Plates.Stream.{
  PlateEventStream, new_stream, enqueue, record_dequeue, close_begin, close_end, get, drain,
  stream_stats, requeue_close_signal, over_limit, get_nowait, taken, drained, make_room, into_room,
  put_event,
}
use pytvt.Plates.Stream.Delivery.{
  stream_stays_bounded, stream_keeps_order, close_wakes_readers, stats_count_events,
}
use pytvt.Plates.Stream.Enqueue.{events, signals, total_bytes}
use pytvt.Plates.Stream.Reading.{get_reads_inbox, inbox, inbox_get}
use pytvt.Plates.Stream.Steps.{
  System, start, offer, take_event, recorded, begin_close, end_close, Reach, here, next,
}
use pytvt.Prelude.{
  ℕ, ◌+◌, ◌≤◌, ◌≡◌, refl, true, false, none, some, [], ◌∷◌, ◌++◌, length, if◌then◌else◌,
}
use pytvt.Prelude.Int.{pos}
use pytvt.Prelude.Sequence.{IsSubsequence}

abbrev plate_event : ℕ → PlateEvent
plate_event n = record {
  user_id = pos 1;
  channel_id = pos 0;
  source = ipc;
  received_at = 0;
  occurred_at = none;
  source_event_id = n;
  plate = "ABC123";
  declared_plate_char_count = some 6;
  source_encryption_version = none;
  confidence = some 90;
  char_confidences = [];
  direction = VehicleDirection.unknown;
  plate_rect = none;
  plate_size = none;
  channel_guid = none;
  edge_match = unmatched;
  edge_match_code = some (pos 0);
  plate_color = PlateColor.unknown;
  plate_color_code = some 0;
  plate_brightness = some 0;
  plate_color_confidence = some 0;
  vehicle_type = VehicleType.unknown;
  vehicle_type_code = some 0;
  vehicle_color = VehicleColor.unknown;
  vehicle_color_code = some 0;
  vehicle_brand_code = none;
  source_end_at = none;
  full_image = some (255 ∷ 216 ∷ []);
  plate_image = some (n ∷ []);
  full_image_format = none;
  plate_image_format = none;
  full_image_size = none;
  is_partial = false;
  warnings = [];
}

abbrev pub two_places : PlateEventStream
two_places = record {
  max_events = 2;
  max_buffer_bytes = 100;
  drop_policy = drop_oldest;
  queue = [];
  callbacks_received = 0;
  events_parsed = 0;
  events_dropped = 0;
  malformed_payloads = 0;
  rejected_callbacks = 0;
  ignored_commands = 0;
  last_error = none;
  buffered_image_bytes = 0;
  closed = false;
  closing = false;
  close_signal_queued = false;
}

two_places-made : new_stream 2 1000 50 100 drop_oldest ≡ some two_places
unfolding new_stream
two_places-made = refl

abbrev offered : PlateEvent → System → System
offered e y = record y { stream = enqueue e y.stream; offered = y.offered ++ e ∷ [] }

-- The first event has to go, the second is taken, and the stream is closed over the third.
abbrev three_offered : System
three_offered =
    offered (plate_event 3) (offered (plate_event 2) (offered (plate_event 1) (start two_places)))

abbrev one_taken : System
one_taken = record three_offered {
  stream = record three_offered.stream { queue = some (plate_event 3) ∷ [] };
  received = plate_event 2 ∷ [];
  unrecorded = plate_event 2 ∷ [];
}

abbrev one_recorded : System
one_recorded = record one_taken {
  stream = record_dequeue (plate_event 2) one_taken.stream;
  unrecorded = [];
}

abbrev closing_now : System
closing_now = record one_recorded { stream = record one_recorded.stream { closing = true } }

abbrev closed_now : System
closed_now = record closing_now { stream = close_end closing_now.stream }

closed_now-reached : Reach (start two_places) closed_now
unfolding enqueue over_limit make_room into_room put_event event_bytes image_bytes record_dequeue
    close_begin close_end
closed_now-reached =
    next
      (next
        (next
          (next
            (next (next (next here (offer (plate_event 1) _)) (offer (plate_event 2) _))
              (offer (plate_event 3) _))
            (take_event (plate_event 2) (some (plate_event 3) ∷ []) three_offered refl))
          (recorded (plate_event 2) [] [] one_taken refl))
        (begin_close closing_now.stream one_recorded refl))
      (end_close closing_now refl)

stream_stays_bounded_example :
    (length closed_now.stream.queue ≤ 2)
    × (total_bytes (events closed_now.stream.queue) ≤ 100)
    × (closed_now.stream.buffered_image_bytes
        ≡ total_bytes (events closed_now.stream.queue) + total_bytes closed_now.unrecorded)
stream_stays_bounded_example =
    stream_stays_bounded 2 1000 50 100 drop_oldest two_places two_places-made closed_now
      closed_now-reached

stream_keeps_order_example :
    IsSubsequence (closed_now.received ++ events closed_now.stream.queue) closed_now.offered
    × (length closed_now.offered
        ≡ length closed_now.received
          + length (events closed_now.stream.queue)
          + closed_now.stream.events_dropped)
stream_keeps_order_example =
    stream_keeps_order 2 1000 50 100 drop_oldest two_places two_places-made closed_now
      closed_now-reached

close_wakes_readers_example : 1 ≤ length closed_now.stream.queue
unfolding close_end record_dequeue enqueue over_limit make_room into_room put_event event_bytes
    image_bytes
close_wakes_readers_example =
    close_wakes_readers 2 1000 50 100 drop_oldest two_places two_places-made closed_now
      closed_now-reached refl refl refl

stats_count_events_example :
    (signals closed_now.stream.queue + closed_now.pending
      ≤ (if closed_now.stream.closed then 1 else 0))
    × ((stream_stats closed_now.stream).buffered_events ≡ length (events closed_now.stream.queue))
stats_count_events_example =
    stats_count_events 2 1000 50 100 drop_oldest two_places two_places-made closed_now
      closed_now-reached

get_reads_inbox_example :
    ((get closed_now.stream).0, events (get closed_now.stream).1.queue)
    ≡ inbox_get (inbox closed_now.stream)
get_reads_inbox_example =
    get_reads_inbox 2 1000 50 100 drop_oldest two_places two_places-made closed_now
      closed_now-reached

-- The event that is left when the stream is closed still comes.
left_over : (drain 5 closed_now.stream).0 ≡ plate_event 3 ∷ []
unfolding drain get_nowait taken drained record_dequeue requeue_close_signal close_end enqueue
    over_limit make_room into_room put_event event_bytes image_bytes
left_over = refl
