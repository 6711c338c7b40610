-- ===== src/Plates/Stream/Reading.antt =====
-- The stream's reading calls against a plain first-in first-out list of events.
use mathlib.Core.Path.{subst, ap₂}
use mathlib.Core.List.{append-nil}
use pytvt.Plates.Stream.Readers.{is_empty-nil}
use pytvt.Prelude.{
  ℕ, zero, suc, ◌≡◌, refl, sym, ◌∙◌, ap, Bool, false, not, ◌&&◌, none, some, List, [], ◌∷◌, inl,
  inr, if◌then◌else◌, is_empty, Bool-cases, arith,
}
use pytvt.Prelude.Bytes.{take, drop}
use pytvt.Plates.{PlateEvent, DropPolicy}
use pytvt.Plates.Stream.{
  Item, PlateEventStream, queue_full, new_stream, record_dequeue, requeue_close_signal, Got, event,
  no_event, stream_closed, taken, get, get_nowait, drained, drain,
}
use pytvt.Plates.Stream.Delivery.{run-Sound}
use pytvt.Plates.Stream.Enqueue.{events, signals, events-append}
use pytvt.Plates.Stream.Sound.{count, SignalLast, SignalLast-signal}
use pytvt.Plates.Stream.Steps.{System, start, Reach}

-- What a reader sees of the stream.
pub record Inbox : Type 0 where
  pub waiting : List PlateEvent
  pub shut : Bool

abbrev pub inbox : PlateEventStream → Inbox
inbox s = record { waiting = events s.queue; shut = s.closed }

-- The abstract calls.
pub inbox_get : Inbox → Got × List PlateEvent
inbox_get i = elim i.waiting [
  | [] ↦ (if i.shut then stream_closed else no_event, [])
  | e ∷ es ↦ (event e, es)
]

-- Recording a received event leaves the events of the queue alone.
record Recorded (s t : PlateEventStream) : Type 0 where
  same : events t.queue ≡ events s.queue
  last : SignalLast t.queue
  state : t.closed ≡ s.closed

record_dequeue-Recorded :
    (e : PlateEvent) (s : PlateEventStream) → SignalLast s.queue → Recorded s (record_dequeue e s)
unfolding record_dequeue
record_dequeue-Recorded e s h =
    elim (Bool-cases (s.closed && not s.close_signal_queued && is_empty s.queue)) [
      | inl b ↦
          let q = is_empty-nil s.queue (ground arith) in
          simp b (record {
            same = events-append s.queue (none ∷ []) ∙ append-nil (events s.queue);
            last = SignalLast-signal s.queue (ap signals q);
            state = refl;
          })
      | inr b ↦ simp b (record { same = refl; last = h; state = refl })
    ]

-- The close signal that a reader put back is not an event.
requeue_close_signal-Recorded :
    (s : PlateEventStream) → s.queue ≡ [] → Recorded s (requeue_close_signal s)
unfolding requeue_close_signal
requeue_close_signal-Recorded s q = elim (Bool-cases (queue_full s)) [
  | inl b ↦ simp b (record { same = refl; last = subst SignalLast (sym q) tt; state = refl })
  | inr b ↦ simp b (record {
    same = events-append s.queue (none ∷ []) ∙ append-nil (events s.queue);
    last = SignalLast-signal s.queue (ap signals q);
    state = refl;
  })
]

-- One call takes the first event, or leaves the events as they are.
record Takes (on_signal : Got) (q : List Item) (s : PlateEventStream) (r : Got × PlateEventStream)
    : Type 0 where
  rest : events r.1.queue ≡ drop 1 (events q)
  last : SignalLast r.1.queue
  state : r.1.closed ≡ s.closed

taken-Takes :
    (on_signal : Got) (q : List Item) (s : PlateEventStream)
    → s.queue ≡ q
    → SignalLast q
    → Takes on_signal q s (taken on_signal q s)
unfolding taken
taken-Takes g [] s p h = record {
  rest = ap events p;
  last = subst SignalLast (sym p) tt;
  state = refl;
}
taken-Takes g (none ∷ q) s p h =
    let r = requeue_close_signal-Recorded (record s { queue = q }) h in
    record {
      rest = r.same ∙ ap events h ∙ sym (ap (λ l. drop 1 (events l)) h);
      last = r.last;
      state = r.state;
    }
taken-Takes g (some e ∷ q) s p h =
    let r = record_dequeue-Recorded e (record s { queue = q }) h in
    record { rest = r.same; last = r.last; state = r.state }

-- A call of `drain` takes the first `n` events.
abbrev Drains : ℕ → PlateEventStream → List PlateEvent × PlateEventStream → Type 0
Drains n s r = (r.0 ≡ take n (events s.queue)) × (events r.1.queue ≡ drop n (events s.queue))

drained-Drains :
    (n : ℕ) (q : List Item) (s : PlateEventStream)
    → s.queue ≡ q
    → SignalLast q
    → ((t : PlateEventStream) → SignalLast t.queue → Drains n t (drain n t))
    → (drained (taken no_event q s).0 (drain n (taken no_event q s).1) (taken no_event q s).1).0
        ≡ take (suc n) (events q)
      × (events
            (drained
              (taken no_event q s).0
              (drain n (taken no_event q s).1)
              (taken no_event q s).1).1.queue
          ≡ drop (suc n) (events q))
unfolding taken drained
drained-Drains n [] s p h more = (refl, ap events p)
drained-Drains n (none ∷ q) s p h more =
    let r = requeue_close_signal-Recorded (record s { queue = q }) h in
    (
      sym (ap (λ l. take (suc n) (events l)) h),
      r.same ∙ ap events h ∙ sym (ap (λ l. drop (suc n) (events l)) h),
    )
drained-Drains n (some e ∷ q) s p h more =
    let r = record_dequeue-Recorded e (record s { queue = q }) h in
    let m = more (record_dequeue e (record s { queue = q })) r.last in
    (ap (λ l. e ∷ l) (m.0 ∙ ap (take n) r.same), m.1 ∙ ap (drop n) r.same)

drain-Drains : (n : ℕ) (s : PlateEventStream) → SignalLast s.queue → Drains n s (drain n s)
unfolding drain get_nowait
drain-Drains zero s h = (refl, refl)
drain-Drains (suc n) s h = let r = drained-Drains n s.queue s refl h (drain-Drains n) in (r.0, r.1)

first-get :
    (q : List Item) (s : PlateEventStream)
    → s.queue ≡ q
    → SignalLast q
    → (s.closed ≡ false → signals q ≡ 0)
    → (get s).0 ≡ (inbox_get (inbox s)).0
unfolding get taken inbox_get
first-get [] s p h o = elim (Bool-cases s.closed) [
  | inl c ↦ simp (p, c) refl
  | inr c ↦ simp (p, c) refl
]
first-get (none ∷ q) s p h o = elim (Bool-cases s.closed) [
  | inl c ↦ simp (p, c, h) refl
  | inr c ↦ absurd (omega (arith, o c))
]
first-get (some e ∷ q) s p h o = elim (Bool-cases s.closed) [
  | inl c ↦ simp (p, c) refl
  | inr c ↦ simp (p, c) refl
]

rest-get :
    (q : List Item) (s : PlateEventStream)
    → s.queue ≡ q
    → SignalLast q
    → events (get s).1.queue ≡ (inbox_get (inbox s)).1
unfolding get inbox_get
rest-get q s p h = elim (Bool-cases (s.closed && is_empty s.queue)) [
  | inl c ↦
      let n = is_empty-nil s.queue (ground arith) in
      simp c (
        subst (λ l. events l ≡ (inbox_get (record { waiting = events l; shut = s.closed })).1)
          (sym n) refl)
  | inr c ↦ simp c (
      (taken-Takes stream_closed s.queue s refl (subst SignalLast (sym p) h)).rest
      ∙ tail (events s.queue))
]
  where
    tail :
        (l : List PlateEvent) → drop 1 l ≡ (inbox_get (record { waiting = l; shut = s.closed })).1
    tail [] = refl
    tail (e ∷ l) = refl

module _ (max_events max_payload max_image max_buffer : ℕ) (policy : DropPolicy)
    (s : PlateEventStream)
    (made : new_stream max_events max_payload max_image max_buffer policy ≡ some s) (y : System)
    (run : Reach (start s) y) where
  -- In every state that a new stream, its readers and its closer can reach, `get`, with no other call
  -- meanwhile, does what it does on a plain list: it takes the first event in the queue, and where
  -- there is none it answers that the stream is closed, or that no event came in time if it is open.
  pub get_reads_inbox :
      ((get y.stream).0, events (get y.stream).1.queue) ≡ inbox_get (inbox y.stream)
  get_reads_inbox =
      let h = (run-Sound max_events max_payload max_image max_buffer policy s made y run).closes in
      ap₂ (λ a b. (a, b))
        (first-get y.stream.queue y.stream refl h.last
          (λ c. omega (arith, h.one_signal, ap count (h.unclosed c))))
        (rest-get y.stream.queue y.stream refl h.last)

  -- In every state that a new stream, its readers and its closer can reach, `drain`, with no other
  -- call meanwhile, returns the first `limit` events in the queue, or all of them if there are fewer,
  -- in their order, and leaves the others.
  pub drain_takes_first :
      (limit : ℕ)
      → ((drain limit y.stream).0 ≡ take limit (events y.stream.queue))
        × (events (drain limit y.stream).1.queue ≡ drop limit (events y.stream.queue))
  drain_takes_first limit =
      drain-Drains limit y.stream
        (run-Sound max_events max_payload max_image max_buffer policy s made y run).closes.last
