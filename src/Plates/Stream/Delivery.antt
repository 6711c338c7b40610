-- ===== src/Plates/Stream/Delivery.antt =====
-- What a stream promises to its users, whatever order its threads' steps take.
use mathlib.Core.Path.{subst}
use mathlib.Core.Option.{some-injective}
use pytvt.Prelude.{
  ℕ, ◌+◌, ◌*◌, ◌≤◌, ◌≡◌, refl, sym, ◌∙◌, ap, true, false, not, ◌&&◌, ◌||◌, some, [], ◌++◌, ◌⊎◌, inl,
  inr, ltb, if◌then◌else◌, length, is_empty, Bool-cases, arith,
}
use pytvt.Prelude.Sequence.{IsSubsequence}
use pytvt.Plates.{PlateEvent, DropPolicy}
use pytvt.Plates.Stream.{
  PlateEventStream, queue_full, close_begin, close_end, new_stream, enqueue, stream_stats,
  record_dequeue, requeue_close_signal,
}
use pytvt.Plates.Stream.Enqueue.{events, signals, total_bytes, length-queue, enqueue-Enqueues}
use pytvt.Plates.Stream.Reachable.{close_begin-cases, Reach-Sound}
use pytvt.Plates.Stream.Sound.{count, Closes, Sound, enqueue-closed}
use pytvt.Plates.Stream.Steps.{
  System, start, StreamStep, offer, take_event, recorded, take_signal, put_back, begin_close,
  fail_close, end_close, reject, counted, Reach, here, next,
}

-- A new stream has the limits it was made with.
record Fresh (m n : ℕ) (s : PlateEventStream) : Type 0 where
  events_limit : s.max_events ≡ m
  bytes_limit : s.max_buffer_bytes ≡ n
  sound : Sound (start s)

new_stream-Fresh :
    (max_events max_payload max_image max_buffer : ℕ) (policy : DropPolicy) (s : PlateEventStream)
    → new_stream max_events max_payload max_image max_buffer policy ≡ some s
    → Fresh max_events max_buffer s
unfolding new_stream
new_stream-Fresh m p i b policy s e =
    go (Bool-cases (ltb m 1 || ltb 10000 m)) (Bool-cases (ltb p 1 || ltb (64 * 1024 * 1024) p))
      (Bool-cases (ltb i 1 || ltb p i)) (Bool-cases (ltb b 1 || ltb (1024 * 1024 * 1024) b))
  where
    go :
        (ltb m 1 || ltb 10000 m ≡ true) ⊎ (ltb m 1 || ltb 10000 m ≡ false)
        → (ltb p 1 || ltb (64 * 1024 * 1024) p ≡ true)
          ⊎ (ltb p 1 || ltb (64 * 1024 * 1024) p ≡ false)
        → (ltb i 1 || ltb p i ≡ true) ⊎ (ltb i 1 || ltb p i ≡ false)
        → (ltb b 1 || ltb (1024 * 1024 * 1024) b ≡ true)
          ⊎ (ltb b 1 || ltb (1024 * 1024 * 1024) b ≡ false)
        → Fresh m b s
    go (inl x) _ _ _ = absurd (cc (simp x at e))
    go (inr x) (inl y) _ _ = absurd (cc (simp (x, y) at e))
    go (inr x) (inr y) (inl z) _ = absurd (cc (simp (x, y, z) at e))
    go (inr x) (inr y) (inr z) (inl w) = absurd (cc (simp (x, y, z, w) at e))
    go (inr x) (inr y) (inr z) (inr w) =
        subst (λ t. Fresh m b t) (some-injective _ _ (simp (x, y, z, w) at e))
          (record {
            events_limit = refl;
            bytes_limit = refl;
            sound = record {
              holds = record {
                place = ground arith;
                fits = omega arith;
                bytes = refl;
                within = omega arith;
                account = refl;
                order = tt;
              };
              closes = record {
                one_signal = refl;
                last = tt;
                alone = inl refl;
                unclosed = λ _. refl;
                busy = λ h. absurd (cc h);
                wake = λ h. absurd (cc h);
              };
            };
          })

-- The limits of a stream never change.
abbrev Alike : PlateEventStream → PlateEventStream → Type 0
Alike s t = (t.max_events ≡ s.max_events) × (t.max_buffer_bytes ≡ s.max_buffer_bytes)

enqueue-Alike : (e : PlateEvent) (y : System) → Sound y → Alike y.stream (enqueue e y.stream)
enqueue-Alike e y h = elim (Bool-cases y.stream.closed) [
  | inl c ↦ subst (Alike y.stream) (sym (enqueue-closed e y.stream c)) (refl, refl)
  | inr c ↦
      let none_left = h.closes.one_signal ∙ ap count (h.closes.unclosed c) in
      let r = enqueue-Enqueues e (total_bytes y.unrecorded) y.stream (record {
        no_signal = omega (arith, none_left);
        place = h.holds.place;
        fits = h.holds.fits;
        bytes = h.holds.bytes;
        within = h.holds.within;
      }) in
      (r.keeps.max_events, r.keeps.max_buffer_bytes)
]

record_dequeue-Alike : (e : PlateEvent) (s : PlateEventStream) → Alike s (record_dequeue e s)
unfolding record_dequeue
record_dequeue-Alike e s =
    elim (Bool-cases (s.closed && not s.close_signal_queued && is_empty s.queue)) [
      | inl b ↦ simp b (refl, refl)
      | inr b ↦ simp b (refl, refl)
    ]

requeue_close_signal-Alike : (s : PlateEventStream) → Alike s (requeue_close_signal s)
unfolding requeue_close_signal
requeue_close_signal-Alike s = elim (Bool-cases (queue_full s)) [
  | inl b ↦ simp b (refl, refl)
  | inr b ↦ simp b (refl, refl)
]

close_end-Alike : (s : PlateEventStream) → Alike s (close_end s)
unfolding close_end
close_end-Alike s = elim (Bool-cases (queue_full s)) [
  | inl b ↦ simp b (refl, refl)
  | inr b ↦ simp b (refl, refl)
]

close_begin-Alike : (s t : PlateEventStream) → close_begin s ≡ some t → Alike s t
close_begin-Alike s t p = elim (close_begin-cases s t p) [
  | inl q ↦ subst (Alike s) q (refl, refl)
  | inr (_, q) ↦ subst (Alike s) q (refl, refl)
]

StreamStep-Alike : (y z : System) → StreamStep y z → Sound y → Alike y.stream z.stream
StreamStep-Alike y z (offer e _) h = enqueue-Alike e y h
StreamStep-Alike y z (take_event e q _ p) h = (refl, refl)
StreamStep-Alike y z (recorded e before after _ p) h = record_dequeue-Alike e y.stream
StreamStep-Alike y z (take_signal q _ p) h = (refl, refl)
StreamStep-Alike y z (put_back n _ p) h = requeue_close_signal-Alike y.stream
StreamStep-Alike y z (begin_close s _ p) h = close_begin-Alike y.stream s p
StreamStep-Alike y z (fail_close _ p) h = (refl, refl)
StreamStep-Alike y z (end_close _ p) h = close_end-Alike y.stream
StreamStep-Alike y z (reject _) h = (refl, refl)
StreamStep-Alike y z (counted a b c d r _) h = (refl, refl)

Reach-Alike : (y z : System) → Sound y → Reach y z → Alike y.stream z.stream
Reach-Alike y z h here = (refl, refl)
Reach-Alike y z h (next {u = u} r s) =
    let p = Reach-Alike y u h r in
    let q = StreamStep-Alike u z s (Reach-Sound y u h r) in (q.0 ∙ p.0, q.1 ∙ p.1)

module _ (max_events max_payload max_image max_buffer : ℕ) (policy : DropPolicy)
    (s : PlateEventStream)
    (made : new_stream max_events max_payload max_image max_buffer policy ≡ some s) (y : System)
    (run : Reach (start s) y) where
  pub run-Sound : Sound y
  run-Sound =
      Reach-Sound (start s) y
        (new_stream-Fresh max_events max_payload max_image max_buffer policy s made).sound run

  -- In every state that a new stream, its readers and its closer can reach, the queue holds at most
  -- `max_events` items, the images of the events in it are at most `max_buffer_bytes`, and the
  -- stream's count of bytes is that of the events in it and of those whose reader has yet to record
  -- them.
  pub stream_stays_bounded :
      (length y.stream.queue ≤ max_events)
      × (total_bytes (events y.stream.queue) ≤ max_buffer)
      × (y.stream.buffered_image_bytes
          ≡ total_bytes (events y.stream.queue) + total_bytes y.unrecorded)
  stream_stays_bounded =
      let f = new_stream-Fresh max_events max_payload max_image max_buffer policy s made in
      let a = Reach-Alike (start s) y f.sound run in
      let h = run-Sound.holds in
      (
        omega (arith, h.fits, a.0, f.events_limit),
        omega (arith, h.within, a.1, f.bytes_limit),
        h.bytes,
      )

  -- In every state that a new stream, its readers and its closer can reach, the events received, then
  -- those in the queue, come in the order in which they were offered, and the number of events
  -- offered is that of the events received, in the queue and dropped.
  pub stream_keeps_order :
      IsSubsequence (y.received ++ events y.stream.queue) y.offered
      × (length y.offered
          ≡ length y.received + length (events y.stream.queue) + y.stream.events_dropped)
  stream_keeps_order = (run-Sound.holds.order, run-Sound.holds.account)

  -- In every state that a new stream, its readers and its closer can reach, if the stream is closed
  -- and no reader is between its call of the queue and the locked block after it, the queue is not
  -- empty: a reader that waits on it gets an event or the close signal.
  pub close_wakes_readers :
      y.stream.closed ≡ true → y.unrecorded ≡ [] → y.pending ≡ 0 → 1 ≤ length y.stream.queue
  close_wakes_readers c u p = elim (run-Sound.closes.wake c) [
    | inl f ↦ omega (arith, length-queue y.stream.queue, run-Sound.closes.one_signal, ap count f)
    | inr n ↦ omega (arith, length-queue y.stream.queue, ap (λ l. length l) u)
  ]

  -- In every state that a new stream, its readers and its closer can reach, the close signals in
  -- the queue and on their way back to it are at most one, none if the stream is not closed, and the
  -- statistics show the number of events in the queue.
  pub stats_count_events :
      (signals y.stream.queue + y.pending ≤ (if y.stream.closed then 1 else 0))
      × ((stream_stats y.stream).buffered_events ≡ length (events y.stream.queue))
  unfolding stream_stats
  stats_count_events =
      (one (Bool-cases y.stream.closed), shown (Bool-cases y.stream.close_signal_queued))
    where
      h : Closes y
      h = run-Sound.closes

      one :
          (y.stream.closed ≡ true) ⊎ (y.stream.closed ≡ false)
          → signals y.stream.queue + y.pending ≤ (if y.stream.closed then 1 else 0)
      one (inl c) = simp c (elim (Bool-cases y.stream.close_signal_queued) [
        | inl f ↦ omega (arith, h.one_signal, ap count f)
        | inr f ↦ omega (arith, h.one_signal, ap count f)
      ])
      one (inr c) = simp c (omega (arith, h.one_signal, ap count (h.unclosed c)))

      shown :
          (y.stream.close_signal_queued ≡ true) ⊎ (y.stream.close_signal_queued ≡ false)
          → (stream_stats y.stream).buffered_events ≡ length (events y.stream.queue)
      shown (inl f) = elim h.alone [
        | inl z ↦ simp f (omega (arith, length-queue y.stream.queue, h.one_signal, ap count f))
        | inr n ↦ simp f (omega (arith, ap (λ l. length l) n, ap (λ l. length (events l)) n))
      ]
      shown (inr f) = simp f (omega (arith, length-queue y.stream.queue, h.one_signal, ap count f))
