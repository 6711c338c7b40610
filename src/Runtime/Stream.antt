-- ===== src/Runtime/Stream.antt =====
-- `RuntimePlateEventStream` (runtime_client.py): the client's end of a plate stream that the runtime
-- keeps, with explicit acknowledgements. Each operation makes at most one call of the runtime, whose
-- answers are an argument, and the calls are kept with them in order.
use pytvt.Prelude.{
  ℕ, Bool, true, false, not, ◌&&◌, ◌||◌, Option, none, some, List, [], ◌∷◌, ◌++◌, leb, ◌==◌,
  if◌then◌else◌, length, is_empty,
}
use pytvt.Prelude.Int.{pos}
use pytvt.Prelude.Json.{Json, num, null, get_member, require}
use pytvt.Runtime.{
  max_runtime_plate_poll_items, max_runtime_delivery_sequence, RuntimeError, client_error,
  RuntimeReply, result, error, RuntimeLibraries, equals_number, smaller,
}
use pytvt.Runtime.Plates.{
  ◌>>=◌, ◌>>◌, ensure, the_object, the_list, parse_all, PlateStats, parse_plate_stats,
}
use pytvt.Runtime.Plates.Event.{RuntimePlateEvent, parse_plate_event}

-- The delivery's number in an answer: the inner `none` is a missing or null one.
abbrev pub sequence_of : Bool → Json → Option (Option ℕ)
sequence_of acked null = some none
sequence_of acked (num (pos n)) =
    if acked && (leb 1 n && leb n max_runtime_delivery_sequence) then some (some n) else none
sequence_of acked other = none

abbrev pub is_some {ℓ} : {A : Type ℓ} → Option A → Bool
is_some none = false
is_some (some a) = true

abbrev pub same : Bool → Bool → Bool
same true b = b
same false b = not b

-- What a poll's answer gives.
pub record Polled : Type 0 where
  pub events : List RuntimePlateEvent
  pub latest_stats : PlateStats
  pub sequence : Option ℕ

-- `_parse_plate_poll`
unfoldable pub parse_plate_poll : RuntimeLibraries → ℕ → Bool → Json → Option Polled
parse_plate_poll lib max_items acked v = do
  d ← the_object v
  raw_events ← require "events" d >>= the_list
  number ← sequence_of acked (get_member "delivery_sequence" d)
  ensure (leb (length raw_events) max_items)
  ensure (not acked || leb (length raw_events) 1)
  ensure (not acked || same (not (is_empty raw_events)) (is_some number))
  parsed ← parse_all (parse_plate_event lib) raw_events
  counts ← require "stats" d >>= parse_plate_stats
  some (record { events = parsed; latest_stats = counts; sequence = number })

-- `_parse_plate_ack`
unfoldable pub parse_plate_ack : RuntimeLibraries → ℕ → Json → Option PlateStats
parse_plate_ack lib expected v = do
  d ← the_object v
  acked ← require "acked_sequence" d
  ensure (equals_number lib acked expected)
  require "stats" d >>= parse_plate_stats

pub record RuntimeStream : Type 0 where
  pub acknowledged_delivery : Bool
  pub pending_sequence : Option ℕ
  pub delivery_state_uncertain : Bool
  pub closed : Bool
  pub latest_stats : PlateStats

-- `__init__`
abbrev pub opened_stream : Bool → PlateStats → RuntimeStream
opened_stream acked counts = record {
  acknowledged_delivery = acked;
  pending_sequence = none;
  delivery_state_uncertain = false;
  closed = false;
  latest_stats = counts;
}

-- The calls of the runtime: a poll with its limit and wait, an acknowledgement, a stop.
pub data RuntimeCall : Type 0 where
  plate_stream_poll : ℕ → ℕ → RuntimeCall
  plate_stream_ack : ℕ → RuntimeCall
  plate_stream_stop : RuntimeCall

abbrev pub Runtime : Type 0
Runtime = RuntimeCall → RuntimeReply Json

-- The stream, with the calls made and their answers.
pub record Session : Type 0 where
  pub stream : RuntimeStream
  pub exchanges : List (RuntimeCall × RuntimeReply Json)

-- What an operation raises.
pub data OperationError : Type 0 where
  stream_closed not_acknowledged nothing_to_acknowledge bad_timeout queue_empty : OperationError
  runtime_raised : RuntimeError → OperationError

pub data Done {ℓ} (A : Type ℓ) : Type ℓ where
  gives : A → Done A
  raises : OperationError → Done A

abbrev pub set_stream : RuntimeStream → Session → Session
set_stream st s = record s { stream = st }

abbrev pub logged : RuntimeCall → RuntimeReply Json → Session → Session
logged call reply s = record s { exchanges = s.exchanges ++ (call, reply) ∷ [] }

-- The timeout of a poll: `None`, a number in milliseconds, or what is refused.
pub data Timeout : Type 0 where
  no_timeout refused_timeout : Timeout
  milliseconds : ℕ → Timeout

-- `pending` is replaced by another delivery, or by none.
abbrev pub is_replaced : Option ℕ → Option ℕ → Bool
is_replaced none number = false
is_replaced (some m) none = true
is_replaced (some m) (some n) = not (m == n)

abbrev pub kept_delivery : Polled → RuntimeStream → Done (List RuntimePlateEvent) × RuntimeStream
kept_delivery p st =
    if is_replaced st.pending_sequence p.sequence
    then (raises (runtime_raised client_error), record st { latest_stats = p.latest_stats })
    else (
      gives p.events,
      record st {
        latest_stats = p.latest_stats;
        pending_sequence = p.sequence;
        delivery_state_uncertain = is_some p.sequence;
      },
    )

abbrev pub polled : Option Polled → RuntimeStream → Done (List RuntimePlateEvent) × RuntimeStream
polled none st = (raises (runtime_raised client_error), st)
polled (some p) st =
    if st.acknowledged_delivery
    then kept_delivery p st
    else (gives p.events, record st { latest_stats = p.latest_stats })

abbrev pub marked_uncertain : RuntimeStream → RuntimeStream
marked_uncertain st = record st {
  delivery_state_uncertain = st.acknowledged_delivery || st.delivery_state_uncertain;
}

module _ (lib : RuntimeLibraries) where
  abbrev pub poll_reply :
      ℕ → RuntimeReply Json → RuntimeStream → Done (List RuntimePlateEvent) × RuntimeStream
  poll_reply limit (result v) st = polled (parse_plate_poll lib limit st.acknowledged_delivery v) st
  poll_reply limit (error e) st = (raises (runtime_raised e), st)

  abbrev pub with_session :
      Session
      → Done (List RuntimePlateEvent) × RuntimeStream
      → Done (List RuntimePlateEvent) × Session
  with_session s (d, st) = (d, set_stream st s)

  abbrev pub poll_wait : Runtime → ℕ → ℕ → Session → Done (List RuntimePlateEvent) × Session
  poll_wait runtime limit wait s =
      with_session
        (logged (plate_stream_poll limit wait) (runtime (plate_stream_poll limit wait)) s)
        (poll_reply limit (runtime (plate_stream_poll limit wait)) (marked_uncertain s.stream))

  abbrev pub poll_for : Runtime → ℕ → Timeout → Session → Done (List RuntimePlateEvent) × Session
  poll_for runtime limit no_timeout s = poll_wait runtime limit 10000 s
  poll_for runtime limit refused_timeout s = (raises bad_timeout, s)
  poll_for runtime limit (milliseconds ms) s = poll_wait runtime limit (smaller 10000 ms) s

  -- `_poll`
  unfoldable pub poll : Runtime → ℕ → Timeout → Session → Done (List RuntimePlateEvent) × Session
  poll runtime limit timeout s =
      if s.stream.closed then (raises stream_closed, s) else poll_for runtime limit timeout s

  abbrev pub first_event :
      Done (List RuntimePlateEvent) × Session → Done RuntimePlateEvent × Session
  first_event (gives [], s) = (raises queue_empty, s)
  first_event (gives (e ∷ es), s) = (gives e, s)
  first_event (raises x, s) = (raises x, s)

  -- `get`
  unfoldable pub get_event : Runtime → Timeout → Session → Done RuntimePlateEvent × Session
  get_event runtime timeout s = first_event (poll runtime 1 timeout s)

  abbrev pub drain_limit : Bool → ℕ → ℕ
  drain_limit true limit = 1
  drain_limit false limit = limit

  -- `drain`; a negative limit is 0.
  unfoldable pub drain_events : Runtime → ℕ → Session → Done (List RuntimePlateEvent) × Session
  drain_events runtime limit s =
      if smaller limit max_runtime_plate_poll_items == 0
      then (gives [], s)
      else poll runtime
          (drain_limit s.stream.acknowledged_delivery (smaller limit max_runtime_plate_poll_items))
          (milliseconds 0) s

  abbrev pub acked_with : Option PlateStats → Session → Done (Unit {0}) × Session
  acked_with none s = (raises (runtime_raised client_error), s)
  acked_with (some counts) s = (
    gives tt,
    set_stream
        (record s.stream {
          latest_stats = counts;
          pending_sequence = none;
          delivery_state_uncertain = false;
        })
        s,
  )

  abbrev pub ack_reply : ℕ → RuntimeReply Json → Session → Done (Unit {0}) × Session
  ack_reply n (result v) s = acked_with (parse_plate_ack lib n v) s
  ack_reply n (error e) s = (raises (runtime_raised e), s)

  abbrev pub ack_pending : Runtime → Option ℕ → Session → Done (Unit {0}) × Session
  ack_pending runtime none s = (raises nothing_to_acknowledge, s)
  ack_pending runtime (some n) s =
      ack_reply n (runtime (plate_stream_ack n))
        (logged (plate_stream_ack n) (runtime (plate_stream_ack n)) s)

  -- `ack`
  unfoldable pub ack : Runtime → Session → Done (Unit {0}) × Session
  ack runtime s =
      if s.stream.closed
      then (raises stream_closed, s)
      else if not s.stream.acknowledged_delivery
      then (raises not_acknowledged, s)
      else ack_pending runtime s.stream.pending_sequence s

abbrev pub close_locally : Session → Session
close_locally s = set_stream (record s.stream { closed = true }) s

abbrev pub stop_reply : RuntimeReply Json → Session → Done (Unit {0}) × Session
stop_reply (result v) s = (gives tt, close_locally s)
stop_reply (error e) s = (raises (runtime_raised e), s)

-- `_pending_sequence is not None or _delivery_state_uncertain`, in an acknowledged stream
abbrev pub may_retain : RuntimeStream → Bool
may_retain st =
    st.acknowledged_delivery && (is_some st.pending_sequence || st.delivery_state_uncertain)

-- `close`, with `discard_unacked`
unfoldable pub close_stream : Runtime → Bool → Session → Done (Unit {0}) × Session
close_stream runtime discard s =
    if s.stream.closed
    then (gives tt, s)
    else if may_retain s.stream && not discard
    then (gives tt, close_locally s)
    else stop_reply (runtime plate_stream_stop)
        (logged plate_stream_stop (runtime plate_stream_stop) s)
