-- ===== src/Plates/Stream.antt =====
-- The bounded stream between the native callback and its readers (`PlateEventStream` of
-- device_sdk/plate_events.py). Each function here is one block that holds the lock, or one call of
-- the queue.
pub mod Enqueue
pub mod Steps
pub mod Sound
pub mod Readers
pub mod Reachable
pub mod Delivery
pub mod Reading
use pytvt.Prelude.{
  ℕ, zero, suc, ◌+◌, ◌-◌, ◌*◌, Bool, true, false, not, ◌&&◌, ◌||◌, Option, none, some, List, [],
  ◌∷◌, ◌++◌, leb, ltb, ◌==◌, if◌then◌else◌, length, is_empty,
}
use pytvt.Plates.{PlateEvent, PlateSource, DropPolicy, drop_oldest, drop_newest, event_bytes}

-- The last recorded error; the texts of the parsers' errors are not kept.
pub data StreamError : Type 0 where
  malformed : StreamError
  rejected : StreamError
  event_too_large : ℕ → ℕ → StreamError

-- An item of the queue: an event, or `None`, the close signal.
abbrev pub Item : Type 0
Item = Option PlateEvent

pub record PlateEventStream : Type 0 where
  pub max_events : ℕ
  pub max_buffer_bytes : ℕ
  pub drop_policy : DropPolicy
  pub queue : List Item
  pub callbacks_received : ℕ
  pub events_parsed : ℕ
  pub events_dropped : ℕ
  pub malformed_payloads : ℕ
  pub rejected_callbacks : ℕ
  pub ignored_commands : ℕ
  pub last_error : Option StreamError
  pub buffered_image_bytes : ℕ
  pub closed : Bool
  pub closing : Bool
  pub close_signal_queued : Bool

-- The range checks of `__init__`; `none` is a `ValueError`.
unfoldable pub new_stream : ℕ → ℕ → ℕ → ℕ → DropPolicy → Option PlateEventStream
new_stream max_events max_payload_bytes max_image_bytes max_buffer_bytes policy =
    if ltb max_events 1 || ltb 10000 max_events
    then none
    else if ltb max_payload_bytes 1 || ltb (64 * 1024 * 1024) max_payload_bytes
    then none
    else if ltb max_image_bytes 1 || ltb max_payload_bytes max_image_bytes
    then none
    else if ltb max_buffer_bytes 1 || ltb (1024 * 1024 * 1024) max_buffer_bytes
    then none
    else some (record {
      max_events = max_events;
      max_buffer_bytes = max_buffer_bytes;
      drop_policy = policy;
      queue = [];
      callbacks_received = 0;
      events_parsed = 0;
      events_dropped = 0;
      malformed_payloads = 0;
      rejected_callbacks = 0;
      ignored_commands = 0;
      last_error = none;
      buffered_image_bytes = 0;
      closed = false;
      closing = false;
      close_signal_queued = false;
    })

-- `self._queue.full()`
abbrev pub queue_full : PlateEventStream → Bool
queue_full s = leb s.max_events (length s.queue)

-- `self._queue.full() or self._buffered_image_bytes + event_bytes > self._max_buffer_bytes`
unfoldable pub over_limit : ℕ → PlateEventStream → Bool
over_limit n s = queue_full s || ltb s.max_buffer_bytes (s.buffered_image_bytes + n)

-- What `put_nowait` does where there is room; the callers test for it.
abbrev pub put_nowait : Item → PlateEventStream → PlateEventStream
put_nowait x s = record s { queue = s.queue ++ x ∷ [] }

abbrev pub drop_event : PlateEventStream → PlateEventStream
drop_event s = record s { events_dropped = s.events_dropped + 1 }

-- One round of the loop that makes room: the oldest event goes.
abbrev pub discard : PlateEvent → List Item → PlateEventStream → PlateEventStream
discard oldest q s = record s {
  queue = q;
  buffered_image_bytes = s.buffered_image_bytes - event_bytes oldest;
  events_dropped = s.events_dropped + 1;
}

-- What the loop ends with: room (or an empty queue), or the close signal met and put back.
pub data Room : Type 0 where
  room : PlateEventStream → Room
  signalled : PlateEventStream → Room

-- The loop of `_enqueue`, on the queue's items.
unfoldable pub make_room : ℕ → List Item → PlateEventStream → Room
make_room n [] s = room s
make_room n (none ∷ q) s =
    if over_limit n s
    then signalled (record s { queue = q ++ none ∷ []; close_signal_queued = true })
    else room s
make_room n (some oldest ∷ q) s =
    let rest = make_room n q (discard oldest q s) in if over_limit n s then rest else room s

-- The end of `_enqueue`.
unfoldable pub put_event : PlateEvent → PlateEventStream → PlateEventStream
put_event e s = if queue_full s then drop_event s else record (put_nowait (some e) s) {
  buffered_image_bytes = s.buffered_image_bytes + event_bytes e;
}

unfoldable pub into_room : PlateEvent → Room → PlateEventStream
unfolding put_event
into_room e (room s) = put_event e s
into_room e (signalled s) = s

abbrev pub is_drop_newest : DropPolicy → Bool
is_drop_newest drop_newest = true
is_drop_newest drop_oldest = false

unfoldable pub enqueue : PlateEvent → PlateEventStream → PlateEventStream
unfolding into_room make_room over_limit
enqueue e s =
    if s.closed || s.closing
    then drop_event s
    else if ltb s.max_buffer_bytes (event_bytes e)
    then record (drop_event s) {
      last_error = some (event_too_large (event_bytes e) s.max_buffer_bytes);
    }
    else if over_limit (event_bytes e) s && is_drop_newest s.drop_policy
    then drop_event s
    else into_room e (make_room (event_bytes e) s.queue s)

-- `_record_dequeue`. The queue is empty where the signal is put, so there is room.
unfoldable pub record_dequeue : PlateEvent → PlateEventStream → PlateEventStream
record_dequeue e s =
    let t = record s { buffered_image_bytes = s.buffered_image_bytes - event_bytes e } in
    if s.closed && not s.close_signal_queued && is_empty s.queue
    then record (put_nowait none t) { close_signal_queued = true }
    else t

-- `_requeue_close_signal`
unfoldable pub requeue_close_signal : PlateEventStream → PlateEventStream
requeue_close_signal s =
    if queue_full s
    then record s { close_signal_queued = false }
    else record (put_nowait none s) { close_signal_queued = true }

-- The answer of a reading call; `no_event` is `queue.Empty`, and `stream_closed` the `RuntimeError`.
pub data Got : Type 0 where
  event : PlateEvent → Got
  no_event : Got
  stream_closed : Got

-- What `queue.get` takes: the first item, if there is one.
unfoldable pub taken : Got → List Item → PlateEventStream → Got × PlateEventStream
unfolding record_dequeue requeue_close_signal
taken on_signal [] s = (no_event, s)
taken on_signal (none ∷ q) s = (on_signal, requeue_close_signal (record s { queue = q }))
taken on_signal (some e ∷ q) s = (event e, record_dequeue e (record s { queue = q }))

-- `get` with a timeout that has passed when the queue is empty, and no other thread in between.
unfoldable pub get : PlateEventStream → Got × PlateEventStream
unfolding taken
get s = if s.closed && is_empty s.queue then (stream_closed, s) else taken stream_closed s.queue s

unfoldable pub get_nowait : PlateEventStream → Got × PlateEventStream
unfolding taken
get_nowait s = taken no_event s.queue s

-- The two locked blocks of `close`, before and after the closer; `none` is the `RuntimeError`.
unfoldable pub close_begin : PlateEventStream → Option PlateEventStream
close_begin s =
    if s.closed then some s else if s.closing then none else some (record s { closing = true })

unfoldable pub close_end : PlateEventStream → PlateEventStream
close_end s =
    let t = record s { closing = false; closed = true } in
    if queue_full s then t else record (put_nowait none t) { close_signal_queued = true }

-- The block after an exception of the closer.
abbrev pub close_fails : PlateEventStream → PlateEventStream
close_fails s = record s { closing = false }

abbrev pub reject_callback : PlateEventStream → PlateEventStream
reject_callback s = record s {
  rejected_callbacks = s.rejected_callbacks + 1;
  last_error = some rejected;
}

unfoldable pub drained :
    Got → List PlateEvent × PlateEventStream → PlateEventStream → List PlateEvent × PlateEventStream
drained (event e) rest s = (e ∷ rest.0, rest.1)
drained no_event rest s = ([], s)
drained stream_closed rest s = ([], s)

-- `drain`; a limit below 1 gives no event.
unfoldable pub drain : ℕ → PlateEventStream → List PlateEvent × PlateEventStream
unfolding drained
drain zero s = ([], s)
drain (suc limit) s =
    let got = get_nowait s in let rest = drain limit got.1 in drained got.0 rest got.1

pub record PlateStreamStats : Type 0 where
  pub callbacks_received : ℕ
  pub events_parsed : ℕ
  pub events_dropped : ℕ
  pub malformed_payloads : ℕ
  pub rejected_callbacks : ℕ
  pub ignored_commands : ℕ
  pub buffered_events : ℕ
  pub buffered_image_bytes : ℕ
  pub last_error : Option StreamError

-- The subtraction stops at 0, as `max(0, buffered_events)` does.
pub stream_stats : PlateEventStream → PlateStreamStats
stream_stats s = record {
  callbacks_received = s.callbacks_received;
  events_parsed = s.events_parsed;
  events_dropped = s.events_dropped;
  malformed_payloads = s.malformed_payloads;
  rejected_callbacks = s.rejected_callbacks;
  ignored_commands = s.ignored_commands;
  buffered_events = length s.queue - (if s.close_signal_queued then 1 else 0);
  buffered_image_bytes = s.buffered_image_bytes;
  last_error = s.last_error;
}
