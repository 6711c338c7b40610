-- ===== src/Plates/Ingest.antt =====
-- `ingest` of device_sdk/plate_events.py: a native callback is parsed, and its events are put into
-- the stream. It is made of steps of the stream.
use mathlib.Core.List.{append_assoc, append-nil}
use mathlib.Core.Path.{subst}
use pytvt.Prelude.{
  ℕ, ◌+◌, sym, ◌||◌, inl, inr, some, List, [], ◌∷◌, ◌++◌, ◌==◌, if◌then◌else◌, length, Bool-cases,
}
use pytvt.Prelude.Bytes.{Bytes}
use pytvt.Prelude.Int.{ℤ}
use pytvt.Plates.{PlateEvent}
use pytvt.Plates.Parse.{Parsed, ok, err}
use pytvt.Plates.Parse.Ipc.{parse_ipc_plate_payload}
use pytvt.Plates.Parse.Nvr.{parse_nvr_plate_payload}
use pytvt.Plates.Stream.{PlateEventStream, enqueue, malformed}
use pytvt.Plates.Stream.Steps.{System, offer, counted, Reach, next}
use pytvt.Plates.Vendor.{Natives}

pub record Callback : Type 0 where
  pub user_id : ℤ
  pub channel_id : ℤ
  pub command : ℕ
  pub payload : Bytes
  pub received_at : ℕ

-- What parsing a callback comes to.
pub data ParseOutcome : Type 0 where
  parsed : List PlateEvent → ParseOutcome
  refused : ParseOutcome
  ignored : ParseOutcome

abbrev of_list : Parsed (List PlateEvent) → ParseOutcome
of_list (ok es) = parsed es
of_list (err _) = refused

abbrev of_event : Parsed PlateEvent → ParseOutcome
of_event (ok e) = parsed (e ∷ [])
of_event (err _) = refused

-- `SmartEventType.VEHICLE` and `SmartEventType.NVR_VEHICLE`
abbrev pub vehicle : ℕ
vehicle = 0x14

abbrev pub nvr_vehicle : ℕ
nvr_vehicle = 0x1D

pub parse_callback : Natives → ℕ → ℕ → Callback → ParseOutcome
parse_callback native max_payload_bytes max_image_bytes c =
    if c.command == vehicle
    then of_list (
        parse_ipc_plate_payload native max_payload_bytes max_image_bytes c.user_id c.channel_id
          c.received_at c.payload)
    else if c.command == nvr_vehicle
    then of_event (
        parse_nvr_plate_payload native max_payload_bytes max_image_bytes c.user_id c.channel_id
          c.received_at c.payload)
    else ignored

pub enqueue_all : List PlateEvent → PlateEventStream → PlateEventStream
enqueue_all [] s = s
enqueue_all (e ∷ es) s = enqueue_all es (enqueue e s)

pub ingested : ParseOutcome → PlateEventStream → PlateEventStream
unfolding enqueue_all
ingested (parsed es) s =
    let t = enqueue_all es s in record t { events_parsed = t.events_parsed + length es }
ingested refused s = record s {
  malformed_payloads = s.malformed_payloads + 1;
  last_error = some malformed;
}
ingested ignored s = record s { ignored_commands = s.ignored_commands + 1 }

-- With no other thread in between.
pub ingest : Natives → ℕ → ℕ → Callback → PlateEventStream → PlateEventStream
unfolding ingested
ingest native max_payload_bytes max_image_bytes c s =
    if s.closed || s.closing
    then s
    else ingested (parse_callback native max_payload_bytes max_image_bytes c)
        (record s { callbacks_received = s.callbacks_received + 1 })

-- The events that a callback offers to a stream.
abbrev pub offers : ParseOutcome → List PlateEvent
offers (parsed es) = es
offers refused = []
offers ignored = []

abbrev pub after_ingest : Natives → ℕ → ℕ → Callback → System → System
after_ingest native max_payload_bytes max_image_bytes c y = record y {
  stream = ingest native max_payload_bytes max_image_bytes c y.stream;
  offered =
      y.offered
      ++ (if y.stream.closed || y.stream.closing
          then []
          else offers (parse_callback native max_payload_bytes max_image_bytes c));
}

Reach-enqueue_all :
    (x : System) (es : List PlateEvent) (y : System)
    → Reach x y
    → Reach x (record y { stream = enqueue_all es y.stream; offered = y.offered ++ es })
unfolding enqueue_all
Reach-enqueue_all x [] y r =
    subst (λ l. Reach x (record y { offered = l })) (sym (append-nil y.offered)) r
Reach-enqueue_all x (e ∷ es) y r =
    subst (λ l. Reach x (record y { stream = enqueue_all es (enqueue e y.stream); offered = l }))
      (append_assoc y.offered (e ∷ []) es)
      (Reach-enqueue_all x es
        (record y { stream = enqueue e y.stream; offered = y.offered ++ e ∷ [] })
        (next r (offer e y)))

Reach-ingested :
    (x : System) (o : ParseOutcome) (y : System)
    → Reach x y
    → Reach x (record y { stream = ingested o y.stream; offered = y.offered ++ offers o })
unfolding ingested
Reach-ingested x (parsed es) y r =
    let z = record y { stream = enqueue_all es y.stream; offered = y.offered ++ es } in
    next (Reach-enqueue_all x es y r) (
      counted z.stream.callbacks_received (z.stream.events_parsed + length es)
        z.stream.malformed_payloads z.stream.ignored_commands z.stream.last_error z)
Reach-ingested x refused y r =
    subst (λ l. Reach x (record y { stream = ingested refused y.stream; offered = l }))
      (sym (append-nil y.offered))
      (next r (
        counted y.stream.callbacks_received y.stream.events_parsed (y.stream.malformed_payloads + 1)
          y.stream.ignored_commands (some malformed) y))
Reach-ingested x ignored y r =
    subst (λ l. Reach x (record y { stream = ingested ignored y.stream; offered = l }))
      (sym (append-nil y.offered))
      (next r (
        counted y.stream.callbacks_received y.stream.events_parsed y.stream.malformed_payloads
          (y.stream.ignored_commands + 1) y.stream.last_error y))

-- Whatever bytes a native callback brings, `ingest`, with no other thread in between, takes the
-- stream from one reachable state to another: it offers the events of the callback, or none if the
-- stream is closed or closing.
pub ingest-Reach :
    (native : Natives) (max_payload_bytes max_image_bytes : ℕ) (c : Callback) (x y : System)
    → Reach x y
    → Reach x (after_ingest native max_payload_bytes max_image_bytes c y)
unfolding ingest
ingest-Reach native m i c x y r = elim (Bool-cases (y.stream.closed || y.stream.closing)) [
  | inl b ↦ simp b (subst (λ l. Reach x (record y { offered = l })) (sym (append-nil y.offered)) r)
  | inr b ↦ simp b (
      Reach-ingested x (parse_callback native m i c)
        (record y {
          stream = record y.stream { callbacks_received = y.stream.callbacks_received + 1 };
        })
        (next r (
          counted (y.stream.callbacks_received + 1) y.stream.events_parsed
            y.stream.malformed_payloads y.stream.ignored_commands y.stream.last_error y)))
]
