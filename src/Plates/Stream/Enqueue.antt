-- ===== src/Plates/Stream/Enqueue.antt =====
-- What one `_enqueue` does to an open stream: the oldest events leave, or the new one does, and the
-- rest stays in order and within both limits.
use mathlib.Core.Path.{subst}
use mathlib.Core.List.{append_assoc}
use pytvt.Prelude.{
  ℕ, suc, ◌+◌, ◌≤◌, ◌≡◌, refl, sym, ◌∙◌, ap, true, false, ◌&&◌, ◌||◌, Option, none, some, List, [],
  ◌∷◌, ◌++◌, ◌⊎◌, inl, inr, ltb, length, length-append, Bool-cases, arith,
}
use pytvt.Prelude.Sequence.{
  IsSubsequence, IsSubsequence-remove, IsSubsequence-append, IsSubsequence-snoc,
}
use pytvt.Plates.{PlateEvent, event_bytes}
use pytvt.Plates.Stream.{
  Item, PlateEventStream, queue_full, over_limit, drop_event, discard, Room, room, signalled,
  make_room, put_event, into_room, is_drop_newest, enqueue, StreamError, event_too_large,
}

-- The events in a queue, and the close signals in it.
abbrev pub events : List Item → List PlateEvent
events [] = []
events (none ∷ q) = events q
events (some e ∷ q) = e ∷ events q

abbrev pub signals : List Item → ℕ
signals [] = 0
signals (none ∷ q) = suc (signals q)
signals (some e ∷ q) = signals q

abbrev pub total_bytes : List PlateEvent → ℕ
total_bytes [] = 0
total_bytes (e ∷ es) = event_bytes e + total_bytes es

pub events-append : (q r : List Item) → events (q ++ r) ≡ events q ++ events r
events-append [] r = refl
events-append (none ∷ q) r = events-append q r
events-append (some e ∷ q) r = ap (λ l. e ∷ l) (events-append q r)

pub signals-append : (q r : List Item) → signals (q ++ r) ≡ signals q + signals r
signals-append [] r = omega arith
signals-append (none ∷ q) r = omega (arith, signals-append q r)
signals-append (some e ∷ q) r = signals-append q r

pub total_bytes-append :
    (xs ys : List PlateEvent) → total_bytes (xs ++ ys) ≡ total_bytes xs + total_bytes ys
total_bytes-append [] ys = omega arith
total_bytes-append (x ∷ xs) ys = omega (arith, total_bytes-append xs ys)

pub length-queue : (q : List Item) → length q ≡ length (events q) + signals q
length-queue [] = refl
length-queue (none ∷ q) = omega (arith, length-queue q)
length-queue (some e ∷ q) = omega (arith, length-queue q)

-- The fields that `_enqueue` leaves alone.
pub record Keeps (s t : PlateEventStream) : Type 0 where
  pub max_events : t.max_events ≡ s.max_events
  pub max_buffer_bytes : t.max_buffer_bytes ≡ s.max_buffer_bytes
  pub closed : t.closed ≡ s.closed
  pub closing : t.closing ≡ s.closing
  pub close_signal_queued : t.close_signal_queued ≡ s.close_signal_queued

-- A stream without a close signal, while readers still have to record events of `k` bytes.
pub record Tidy (k : ℕ) (s : PlateEventStream) : Type 0 where
  pub no_signal : signals s.queue ≡ 0
  pub place : 1 ≤ s.max_events
  pub fits : length s.queue ≤ s.max_events
  pub bytes : s.buffered_image_bytes ≡ total_bytes (events s.queue) + k
  pub within : total_bytes (events s.queue) ≤ s.max_buffer_bytes

-- After `_enqueue` of `e`: whatever was received before, the events still come in their order, and
-- each one that is gone is counted.
pub record Enqueues (e : PlateEvent) (k : ℕ) (s t : PlateEventStream) : Type 0 where
  pub keeps : Keeps s t
  pub tidy : Tidy k t
  pub account :
      length (events s.queue) + 1 + s.events_dropped ≡ length (events t.queue) + t.events_dropped
  pub order :
      (received offered : List PlateEvent)
      → IsSubsequence (received ++ events s.queue) offered
      → IsSubsequence (received ++ events t.queue) (offered ++ e ∷ [])

-- The new event is dropped.
Enqueues-drop :
    (e : PlateEvent) (k : ℕ) (s t : PlateEventStream)
    → Keeps s t
    → t.queue ≡ s.queue
    → t.buffered_image_bytes ≡ s.buffered_image_bytes
    → t.events_dropped ≡ s.events_dropped + 1
    → Tidy k s
    → Enqueues e k s t
Enqueues-drop e k s t f q b d h = record {
  keeps = f;
  tidy = record {
    no_signal = ap signals q ∙ h.no_signal;
    place = omega (arith, f.max_events, h.place);
    fits = omega (arith, f.max_events, h.fits, ap (λ l. length l) q);
    bytes = omega (arith, h.bytes, b, ap (λ l. total_bytes (events l)) q);
    within = omega (arith, h.within, f.max_buffer_bytes, ap (λ l. total_bytes (events l)) q);
  };
  account = omega (arith, d, ap (λ l. length (events l)) q);
  order = λ received offered o.
      IsSubsequence-append _ offered (e ∷ [])
        (subst (λ l. IsSubsequence (received ++ events l) offered) (sym q) o);
}

Keeps-same : (s : PlateEventStream) → Keeps s s
Keeps-same s = record {
  max_events = refl;
  max_buffer_bytes = refl;
  closed = refl;
  closing = refl;
  close_signal_queued = refl;
}

-- The loop that makes room, from a stream whose queue is `q`.
record Makes (n k : ℕ) (q : List Item) (s t : PlateEventStream) : Type 0 where
  keeps : Keeps s t
  no_signal : signals t.queue ≡ 0
  shorter : length t.queue ≤ length q
  lighter : total_bytes (events t.queue) ≤ total_bytes (events q)
  bytes : t.buffered_image_bytes ≡ total_bytes (events t.queue) + k
  account : length (events q) + s.events_dropped ≡ length (events t.queue) + t.events_dropped
  order :
      (received offered : List PlateEvent)
      → IsSubsequence (received ++ events q) offered
      → IsSubsequence (received ++ events t.queue) offered
  ends : (over_limit n t ≡ false) ⊎ (t.queue ≡ [])

data MakesRoom (n k : ℕ) (q : List Item) (s : PlateEventStream) : Room → Type 0 where
  made : {t : PlateEventStream} → Makes n k q s t → MakesRoom n k q s (room t)

MakesRoom-discard :
    (n k : ℕ) (o : PlateEvent) (q : List Item) (s : PlateEventStream) (r : Room)
    → MakesRoom n k q (discard o q s) r
    → MakesRoom n k (some o ∷ q) s r
MakesRoom-discard n k o q s (room t) (made h) = made (record {
  keeps = record {
    max_events = h.keeps.max_events;
    max_buffer_bytes = h.keeps.max_buffer_bytes;
    closed = h.keeps.closed;
    closing = h.keeps.closing;
    close_signal_queued = h.keeps.close_signal_queued;
  };
  no_signal = h.no_signal;
  shorter = omega (arith, h.shorter);
  lighter = omega (arith, h.lighter);
  bytes = h.bytes;
  account = omega (arith, h.account);
  order = λ received offered i.
      h.order received offered (IsSubsequence-remove received o (events q) offered i);
  ends = h.ends;
})
MakesRoom-discard n k o q s (signalled _) h = elim h [ ]

-- The loop stops at once.
Makes-same :
    (n k : ℕ) (q : List Item) (s : PlateEventStream)
    → s.queue ≡ q
    → signals q ≡ 0
    → s.buffered_image_bytes ≡ total_bytes (events q) + k
    → (over_limit n s ≡ false) ⊎ (s.queue ≡ [])
    → Makes n k q s s
Makes-same n k q s e z b f = record {
  keeps = Keeps-same s;
  no_signal = ap signals e ∙ z;
  shorter = omega (arith, ap (λ l. length l) e);
  lighter = omega (arith, ap (λ l. total_bytes (events l)) e);
  bytes = omega (arith, b, ap (λ l. total_bytes (events l)) e);
  account = omega (arith, ap (λ l. length (events l)) e);
  order = λ received offered i. subst (λ l. IsSubsequence (received ++ events l) offered) (sym e) i;
  ends = f;
}

make_room-MakesRoom :
    (n k : ℕ) (q : List Item) (s : PlateEventStream)
    → s.queue ≡ q
    → signals q ≡ 0
    → s.buffered_image_bytes ≡ total_bytes (events q) + k
    → MakesRoom n k q s (make_room n q s)
unfolding make_room
make_room-MakesRoom n k [] s e z b = made (Makes-same n k [] s e z b (inr e))
make_room-MakesRoom n k (none ∷ q) s e z b = absurd (omega arith)
make_room-MakesRoom n k (some o ∷ q) s e z b = elim (Bool-cases (over_limit n s)) [
  | inl f ↦ rw f (
      MakesRoom-discard n k o q s _
        (make_room-MakesRoom n k q (discard o q s) refl z (omega arith)))
  | inr f ↦ rw f (made (Makes-same n k (some o ∷ q) s e z b (inl f)))
]

-- There is room for an event of `n` bytes.
record Roomy (n : ℕ) (t : PlateEventStream) : Type 0 where
  free : queue_full t ≡ false
  light : total_bytes (events t.queue) + n ≤ t.max_buffer_bytes

Makes-Roomy :
    (n k : ℕ) (q : List Item) (s t : PlateEventStream)
    → 1 ≤ s.max_events
    → n ≤ s.max_buffer_bytes
    → Makes n k q s t
    → Roomy n t
unfolding over_limit
Makes-Roomy n k q s t p l h = elim h.ends [
  | inl f ↦ record { free = ground arith; light = ground (arith, h.bytes) }
  | inr f ↦ record {
    free = ground (arith, h.keeps.max_events, ap (λ l. length l) f);
    light = omega (arith, h.keeps.max_buffer_bytes, ap (λ l. total_bytes (events l)) f);
  }
]

put_event-Enqueues :
    (e : PlateEvent) (k : ℕ) (s t : PlateEventStream)
    → Tidy k s
    → event_bytes e ≤ s.max_buffer_bytes
    → Makes (event_bytes e) k s.queue s t
    → Enqueues e k s (put_event e t)
unfolding put_event
put_event-Enqueues e k s t h l m =
    let r = Makes-Roomy (event_bytes e) k s.queue s t h.place l m in
    let added = events-append t.queue (some e ∷ []) in
    let heavier = ap total_bytes added ∙ total_bytes-append (events t.queue) (e ∷ []) in
    simp r.free (record {
      keeps = record {
        max_events = m.keeps.max_events;
        max_buffer_bytes = m.keeps.max_buffer_bytes;
        closed = m.keeps.closed;
        closing = m.keeps.closing;
        close_signal_queued = m.keeps.close_signal_queued;
      };
      tidy = record {
        no_signal = signals-append t.queue (some e ∷ []) ∙ omega (arith, m.no_signal);
        place = omega (arith, h.place, m.keeps.max_events);
        fits = ground (arith, length-append t.queue (some e ∷ []), r.free);
        bytes = omega (arith, heavier, m.bytes);
        within = omega (arith, heavier, r.light);
      };
      account =
          omega
            (arith, m.account, ap (λ l. length l) added, length-append (events t.queue) (e ∷ []));
      order = λ received offered i.
          subst (λ l. IsSubsequence l (offered ++ e ∷ []))
            (append_assoc received (events t.queue) (e ∷ []) ∙ ap (λ l. received ++ l) (sym added))
            (IsSubsequence-snoc (received ++ events t.queue) offered e
              (m.order received offered i));
    })

into_room-Enqueues :
    (e : PlateEvent) (k : ℕ) (s : PlateEventStream) (r : Room)
    → Tidy k s
    → event_bytes e ≤ s.max_buffer_bytes
    → MakesRoom (event_bytes e) k s.queue s r
    → Enqueues e k s (into_room e r)
unfolding into_room
into_room-Enqueues e k s (room t) h l (made m) = put_event-Enqueues e k s t h l m
into_room-Enqueues e k s (signalled t) h l m = elim m [ ]

-- On a stream that has no close signal.
pub enqueue-Enqueues :
    (e : PlateEvent) (k : ℕ) (s : PlateEventStream) → Tidy k s → Enqueues e k s (enqueue e s)
unfolding enqueue
enqueue-Enqueues e k s h =
    go (Bool-cases (s.closed || s.closing)) (Bool-cases (ltb s.max_buffer_bytes (event_bytes e)))
      (Bool-cases (over_limit (event_bytes e) s && is_drop_newest s.drop_policy))
  where
    same : {err : Option StreamError} → Keeps s (record (drop_event s) { last_error = err })
    same = record {
      max_events = refl;
      max_buffer_bytes = refl;
      closed = refl;
      closing = refl;
      close_signal_queued = refl;
    }

    dropped :
        (err : Option StreamError) → Enqueues e k s (record (drop_event s) { last_error = err })
    dropped err = Enqueues-drop e k s _ same refl refl refl h

    go :
        (s.closed || s.closing ≡ true) ⊎ (s.closed || s.closing ≡ false)
        → (ltb s.max_buffer_bytes (event_bytes e) ≡ true)
          ⊎ (ltb s.max_buffer_bytes (event_bytes e) ≡ false)
        → (over_limit (event_bytes e) s && is_drop_newest s.drop_policy ≡ true)
          ⊎ (over_limit (event_bytes e) s && is_drop_newest s.drop_policy ≡ false)
        → Enqueues e k s (enqueue e s)
    go (inl a) b c = simp a (dropped s.last_error)
    go (inr a) (inl b) c =
        simp (a, b) (dropped (some (event_too_large (event_bytes e) s.max_buffer_bytes)))
    go (inr a) (inr b) (inl c) = simp (a, b, c) (dropped s.last_error)
    go (inr a) (inr b) (inr c) =
        simp (a, b, c)
          (into_room-Enqueues e k s _ h (ground arith)
            (make_room-MakesRoom (event_bytes e) k s.queue s refl h.no_signal h.bytes))
