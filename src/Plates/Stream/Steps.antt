-- ===== src/Plates/Stream/Steps.antt =====
-- The stream between its callback thread, any readers and a closer: each step is one locked block or
-- one call of the queue, by any thread at any time. A reader takes from the queue without the lock;
-- such a call is taken to fall before or after a locked block, not inside one.
use pytvt.Prelude.{ℕ, suc, true, Option, none, some, List, [], ◌∷◌, ◌++◌, ◌≡◌}
use pytvt.Plates.{PlateEvent}
use pytvt.Plates.Stream.{
  Item, StreamError, PlateEventStream, enqueue, record_dequeue, requeue_close_signal, close_begin,
  close_end, close_fails, reject_callback,
}

-- The stream, with what its users did: the events offered to it and received from it, the received
-- events whose reader has yet to record them, and the close signals whose reader has yet to put them
-- back.
pub record System : Type 0 where
  pub stream : PlateEventStream
  pub offered : List PlateEvent
  pub received : List PlateEvent
  pub unrecorded : List PlateEvent
  pub pending : ℕ

abbrev pub start : PlateEventStream → System
start s = record { stream = s; offered = []; received = []; unrecorded = []; pending = 0 }

-- A change of the fields that only `stats` reads.
abbrev pub recount : ℕ → ℕ → ℕ → ℕ → Option StreamError → PlateEventStream → PlateEventStream
recount callbacks parsed malformed ignored error s = record s {
  callbacks_received = callbacks;
  events_parsed = parsed;
  malformed_payloads = malformed;
  ignored_commands = ignored;
  last_error = error;
}

pub data StreamStep : System → System → Type 0 where
  offer :
      (e : PlateEvent) (y : System)
      → StreamStep y (record y { stream = enqueue e y.stream; offered = y.offered ++ e ∷ [] })
  take_event :
      (e : PlateEvent) (q : List Item) (y : System)
      → y.stream.queue ≡ some e ∷ q
      → StreamStep y (record y {
        stream = record y.stream { queue = q };
        received = y.received ++ e ∷ [];
        unrecorded = e ∷ y.unrecorded;
      })
  recorded :
      (e : PlateEvent) (before after : List PlateEvent) (y : System)
      → y.unrecorded ≡ before ++ e ∷ after
      → StreamStep y (record y { stream = record_dequeue e y.stream; unrecorded = before ++ after })
  take_signal :
      (q : List Item) (y : System)
      → y.stream.queue ≡ none ∷ q
      → StreamStep y (record y { stream = record y.stream { queue = q }; pending = suc y.pending })
  put_back :
      (n : ℕ) (y : System)
      → y.pending ≡ suc n
      → StreamStep y (record y { stream = requeue_close_signal y.stream; pending = n })
  begin_close :
      (s : PlateEventStream) (y : System)
      → close_begin y.stream ≡ some s
      → StreamStep y (record y { stream = s })
  fail_close :
      (y : System)
      → y.stream.closing ≡ true
      → StreamStep y (record y { stream = close_fails y.stream })
  end_close :
      (y : System)
      → y.stream.closing ≡ true
      → StreamStep y (record y { stream = close_end y.stream })
  reject : (y : System) → StreamStep y (record y { stream = reject_callback y.stream })
  counted :
      (callbacks parsed malformed ignored : ℕ) (error : Option StreamError) (y : System)
      → StreamStep y
          (record y { stream = recount callbacks parsed malformed ignored error y.stream })

pub data Reach (y : System) : System → Type 0 where
  here : Reach y y
  next : {u v : System} → Reach y u → StreamStep u v → Reach y v
