-- ===== src/Runtime/Delivery.antt =====
-- That a delivery which the consumer was given stays with the runtime until it is acknowledged.
use pytvt.Prelude.{
  ℕ, ◌≡◌, ◌⊎◌, inl, inr, refl, sym, ap, ◌∙◌, Bool, true, false, not, ◌&&◌, ◌||◌, Option, none, some,
  List, [], ◌∷◌, ◌++◌, ◌==◌, if◌then◌else◌, arith,
}
use pytvt.Prelude.Json.{Json}
use pytvt.Runtime.{RuntimeReply, result, error, RuntimeLibraries}
use pytvt.Runtime.Plates.Event.{RuntimePlateEvent}
use mathlib.Core.Option.{some-injective}
use mathlib.Core.Path.{subst}
use pytvt.Runtime.{smaller}
use pytvt.Runtime.Plates.{PlateStats}
use pytvt.Runtime.Stream.{
  Polled, parse_plate_poll, parse_plate_ack, RuntimeStream, RuntimeCall, plate_stream_poll,
  plate_stream_ack, plate_stream_stop, Runtime, Session, Done, gives, raises, Timeout, no_timeout,
  refused_timeout, milliseconds, set_stream, logged, is_replaced, is_some, kept_delivery, polled,
  marked_uncertain, poll_reply, poll_wait, poll_for, poll, first_event, get_event, drain_events,
  acked_with, ack_reply, ack_pending, ack, close_locally, stop_reply, may_retain, close_stream,
}

-- What a consumer does with a stream, short of giving up its unacknowledged event.
pub data Operation : Type 0 where
  get_op : Timeout → Operation
  drain_op : ℕ → Operation
  ack_op : Operation
  close_op : Operation

abbrev pub operate : RuntimeLibraries → Runtime → Operation → Session → Session
operate lib runtime (get_op t) s = (get_event lib runtime t s).1
operate lib runtime (drain_op n) s = (drain_events lib runtime n s).1
operate lib runtime ack_op s = (ack lib runtime s).1
operate lib runtime close_op s = (close_stream runtime false s).1

-- Operations in their order, each with what the runtime answers then.
unfoldable pub run : RuntimeLibraries → List (Operation × Runtime) → Session → Session
run lib [] s = s
run lib ((op, runtime) ∷ ops) s = run lib ops (operate lib runtime op s)

abbrev is_stop : RuntimeCall → Bool
is_stop (plate_stream_poll l w) = false
is_stop (plate_stream_ack n) = false
is_stop plate_stream_stop = true

-- Whether the runtime was told to stop the stream.
abbrev pub has_stop : List (RuntimeCall × RuntimeReply Json) → Bool
has_stop [] = false
has_stop ((c, r) ∷ xs) = is_stop c || has_stop xs

abbrev confirms : RuntimeLibraries → ℕ → RuntimeCall → RuntimeReply Json → Bool
confirms lib n (plate_stream_ack m) (result v) = n == m && is_some (parse_plate_ack lib m v)
confirms lib n (plate_stream_ack m) (error e) = false
confirms lib n (plate_stream_poll l w) r = false
confirms lib n plate_stream_stop r = false

-- Whether the runtime confirmed an acknowledgement of `n`.
abbrev pub is_acked : RuntimeLibraries → ℕ → List (RuntimeCall × RuntimeReply Json) → Bool
is_acked lib n [] = false
is_acked lib n ((c, r) ∷ xs) = confirms lib n c r || is_acked lib n xs

record IsPending (n : ℕ) (s : Session) : Type 0 where
  acknowledges : s.stream.acknowledged_delivery ≡ true
  pending : s.stream.pending_sequence ≡ some n
  running : has_stop s.exchanges ≡ false

abbrev IsKept : RuntimeLibraries → ℕ → Session → Type 0
IsKept lib n s = (is_acked lib n s.exchanges ≡ true) ⊎ IsPending n s

has_stop-append :
    (xs : List (RuntimeCall × RuntimeReply Json)) (c : RuntimeCall) (r : RuntimeReply Json)
    → has_stop xs ≡ false
    → is_stop c ≡ false
    → has_stop (xs ++ (c, r) ∷ []) ≡ false
has_stop-append [] c r h k = ground arith
has_stop-append ((d, q) ∷ xs) c r h k = ground (arith, has_stop-append xs c r)

is_acked-append :
    (lib : RuntimeLibraries) (n : ℕ) (xs : List (RuntimeCall × RuntimeReply Json)) (c : RuntimeCall)
    (r : RuntimeReply Json)
    → is_acked lib n xs ≡ true
    → is_acked lib n (xs ++ (c, r) ∷ []) ≡ true
is_acked-append lib n [] c r h = absurd (ground arith)
is_acked-append lib n ((d, q) ∷ xs) c r h = ground (arith, is_acked-append lib n xs c r)

is_acked-last :
    (lib : RuntimeLibraries) (n : ℕ) (xs : List (RuntimeCall × RuntimeReply Json)) (c : RuntimeCall)
    (r : RuntimeReply Json)
    → confirms lib n c r ≡ true
    → is_acked lib n (xs ++ (c, r) ∷ []) ≡ true
is_acked-last lib n [] c r h = ground arith
is_acked-last lib n ((d, q) ∷ xs) c r h = ground (arith, is_acked-last lib n xs c r)

not_replaced : (n : ℕ) (q : Option ℕ) → is_replaced (some n) q ≡ false → q ≡ some n
not_replaced n none h = cc
not_replaced n (some m) h = ground arith

-- A state of the stream with an unacknowledged delivery.
abbrev Holds : ℕ → RuntimeStream → Type 0
Holds n st = (st.acknowledged_delivery ≡ true) × (st.pending_sequence ≡ some n)

if-Holds {ℓ} :
    {A : Type ℓ} (n : ℕ) (b : Bool) (x y : A × RuntimeStream)
    → (b ≡ true → Holds n x.1)
    → (b ≡ false → Holds n y.1)
    → Holds n (if b then x else y).1
if-Holds n true x y f g = f refl
if-Holds n false x y f g = g refl

kept_delivery-Holds :
    (p : Polled) (st : RuntimeStream) (n : ℕ) → Holds n st → Holds n (kept_delivery p st).1
kept_delivery-Holds p st n h =
    if-Holds n (is_replaced st.pending_sequence p.sequence) _ _ (λ e. h)
      (λ e. (h.0, not_replaced n p.sequence (ap (λ o. is_replaced o p.sequence) (sym h.1) ∙ e)))

polled-Holds :
    (o : Option Polled) (st : RuntimeStream) (n : ℕ) → Holds n st → Holds n (polled o st).1
polled-Holds none st n h = h
polled-Holds (some p) st n h =
    if-Holds n st.acknowledged_delivery _ _ (λ e. kept_delivery-Holds p st n h) (λ e. h)

poll_reply-Holds :
    (lib : RuntimeLibraries) (limit : ℕ) (r : RuntimeReply Json) (st : RuntimeStream) (n : ℕ)
    → Holds n st
    → Holds n (poll_reply lib limit r st).1
poll_reply-Holds lib limit (result v) st n h =
    polled-Holds (parse_plate_poll lib limit st.acknowledged_delivery v) st n h
poll_reply-Holds lib limit (error e) st n h = h

confirmed_at :
    (lib : RuntimeLibraries) (m n : ℕ) (v : Json) {counts : PlateStats}
    → parse_plate_ack lib m v ≡ some counts
    → n ≡ m
    → confirms lib n (plate_stream_ack m) (result v) ≡ true
confirmed_at lib m n v e q = rw (e) (ground arith)

-- The invariant of a session, under a call that is no stop and leaves the delivery alone.
logged-IsKept :
    (lib : RuntimeLibraries) (n : ℕ) (c : RuntimeCall) (r : RuntimeReply Json) (st : RuntimeStream)
    (s : Session)
    → is_stop c ≡ false
    → (Holds n s.stream → Holds n st)
    → IsKept lib n s
    → IsKept lib n (set_stream st (logged c r s))
logged-IsKept lib n c r st s k f (inl acked) = inl (is_acked-append lib n s.exchanges c r acked)
logged-IsKept lib n c r st s k f (inr p) =
    let (a, h) = f (p.acknowledges, p.pending) in
    inr (record {
      acknowledges = a;
      pending = h;
      running = has_stop-append s.exchanges c r p.running k;
    })

module _ (lib : RuntimeLibraries) (n : ℕ) (runtime : Runtime) where
  poll_wait-IsKept :
      (limit wait : ℕ) (s : Session)
      → IsKept lib n s
      → IsKept lib n (poll_wait lib runtime limit wait s).1
  poll_wait-IsKept limit wait s k =
      let c = plate_stream_poll limit wait in
      logged-IsKept lib n c (runtime c)
        (poll_reply lib limit (runtime c) (marked_uncertain s.stream)).1 s refl
        (λ h. poll_reply-Holds lib limit (runtime c) (marked_uncertain s.stream) n h) k

  poll_for-IsKept :
      (limit : ℕ) (t : Timeout) (s : Session)
      → IsKept lib n s
      → IsKept lib n (poll_for lib runtime limit t s).1
  poll_for-IsKept limit no_timeout s k = poll_wait-IsKept limit 10000 s k
  poll_for-IsKept limit refused_timeout s k = k
  poll_for-IsKept limit (milliseconds ms) s k = poll_wait-IsKept limit (smaller 10000 ms) s k

  if-IsKept {ℓ} :
      {A : Type ℓ} (b : Bool) (x y : A × Session)
      → IsKept lib n x.1
      → IsKept lib n y.1
      → IsKept lib n (if b then x else y).1
  if-IsKept true x y p q = p
  if-IsKept false x y p q = q

  poll-IsKept :
      (limit : ℕ) (t : Timeout) (s : Session)
      → IsKept lib n s
      → IsKept lib n (poll lib runtime limit t s).1
  unfolding poll
  poll-IsKept limit t s k = if-IsKept s.stream.closed _ _ k (poll_for-IsKept limit t s k)

  first_event-session : (d : Done (List RuntimePlateEvent) × Session) → (first_event lib d).1 ≡ d.1
  first_event-session (gives [], s) = refl
  first_event-session (gives (e ∷ es), s) = refl
  first_event-session (raises x, s) = refl

  acked_with-IsKept :
      (m : ℕ) (v : Json) (o : Option PlateStats) (s : Session)
      → parse_plate_ack lib m v ≡ o
      → s.stream.pending_sequence ≡ some m
      → IsKept lib n s
      → IsKept lib n (acked_with lib o (logged (plate_stream_ack m) (result v) s)).1
  acked_with-IsKept m v none s e h k =
      logged-IsKept lib n (plate_stream_ack m) (result v) s.stream s refl (λ x. x) k
  acked_with-IsKept m v (some counts) s e h (inl acked) =
      inl (is_acked-append lib n s.exchanges (plate_stream_ack m) (result v) acked)
  acked_with-IsKept m v (some counts) s e h (inr p) = inl (
      is_acked-last lib n s.exchanges (plate_stream_ack m) (result v)
        (confirmed_at lib m n v e (some-injective _ _ (sym p.pending ∙ h))))

  ack_reply-IsKept :
      (m : ℕ) (r : RuntimeReply Json) (s : Session)
      → s.stream.pending_sequence ≡ some m
      → IsKept lib n s
      → IsKept lib n (ack_reply lib m r (logged (plate_stream_ack m) r s)).1
  ack_reply-IsKept m (result v) s h k = acked_with-IsKept m v (parse_plate_ack lib m v) s refl h k
  ack_reply-IsKept m (error e) s h k =
      logged-IsKept lib n (plate_stream_ack m) (error e) s.stream s refl (λ x. x) k

  ack_pending-IsKept :
      (o : Option ℕ) (s : Session)
      → s.stream.pending_sequence ≡ o
      → IsKept lib n s
      → IsKept lib n (ack_pending lib runtime o s).1
  ack_pending-IsKept none s h k = k
  ack_pending-IsKept (some m) s h k = ack_reply-IsKept m (runtime (plate_stream_ack m)) s h k

  ack-IsKept : (s : Session) → IsKept lib n s → IsKept lib n (ack lib runtime s).1
  unfolding ack
  ack-IsKept s k = if-IsKept s.stream.closed _ _ k (
      if-IsKept (not s.stream.acknowledged_delivery) _ _ k
        (ack_pending-IsKept s.stream.pending_sequence s refl k))

  drain-IsKept :
      (limit : ℕ) (s : Session) → IsKept lib n s → IsKept lib n (drain_events lib runtime limit s).1
  unfolding drain_events
  drain-IsKept limit s k = if-IsKept _ _ _ k (poll-IsKept _ _ s k)

  get-IsKept :
      (t : Timeout) (s : Session) → IsKept lib n s → IsKept lib n (get_event lib runtime t s).1
  unfolding get_event
  get-IsKept t s k =
      subst (IsKept lib n) (sym (first_event-session (poll lib runtime 1 t s)))
        (poll-IsKept 1 t s k)

  stop_reply-acked :
      (r : RuntimeReply Json) (s : Session)
      → is_acked lib n s.exchanges ≡ true
      → IsKept lib n (stop_reply r (logged plate_stream_stop r s)).1
  stop_reply-acked (result v) s h =
      inl (is_acked-append lib n s.exchanges plate_stream_stop (result v) h)
  stop_reply-acked (error e) s h =
      inl (is_acked-append lib n s.exchanges plate_stream_stop (error e) h)

  close-IsKept : (s : Session) → IsKept lib n s → IsKept lib n (close_stream runtime false s).1
  unfolding close_stream
  close-IsKept s (inl h) = if-IsKept s.stream.closed _ _ (inl h) (
      if-IsKept (may_retain s.stream && true) _ _ (inl h)
        (stop_reply-acked (runtime plate_stream_stop) s h))
  close-IsKept s (inr p) = if-IsKept s.stream.closed _ _ (inr p) (rw (retains) (inr p'))
    where
      retains : (may_retain s.stream && true) ≡ true
      retains = ground (arith, p.acknowledges, p.pending)

      p' : IsPending n (close_locally s)
      p' = record { acknowledges = p.acknowledges; pending = p.pending; running = p.running }

operate-IsKept :
    (lib : RuntimeLibraries) (n : ℕ) (runtime : Runtime) (op : Operation) (s : Session)
    → IsKept lib n s
    → IsKept lib n (operate lib runtime op s)
operate-IsKept lib n runtime (get_op t) s k = get-IsKept lib n runtime t s k
operate-IsKept lib n runtime (drain_op m) s k = drain-IsKept lib n runtime m s k
operate-IsKept lib n runtime ack_op s k = ack-IsKept lib n runtime s k
operate-IsKept lib n runtime close_op s k = close-IsKept lib n runtime s k

run-IsKept :
    (lib : RuntimeLibraries) (n : ℕ) (ops : List (Operation × Runtime)) (s : Session)
    → IsKept lib n s
    → IsKept lib n (run lib ops s)
unfolding run
run-IsKept lib n [] s k = k
run-IsKept lib n ((op, runtime) ∷ ops) s k =
    run-IsKept lib n ops (operate lib runtime op s) (operate-IsKept lib n runtime op s k)

settled :
    (lib : RuntimeLibraries) (n : ℕ) (s : Session)
    → IsKept lib n s
    → has_stop s.exchanges ≡ true
    → is_acked lib n s.exchanges ≡ true
settled lib n s (inl h) e = h
settled lib n s (inr p) e = absurd (ground (arith, p.running))

-- While a delivery of an acknowledged stream is unacknowledged, no polling, draining, acknowledging
-- or closing without `discard_unacked` makes the client tell the runtime to stop the stream before
-- the runtime has confirmed the acknowledgement of that delivery, whatever the runtime answers.
pub delivery_kept_until_acked :
    (lib : RuntimeLibraries) (n : ℕ) (st : RuntimeStream) (ops : List (Operation × Runtime))
    → st.acknowledged_delivery ≡ true
    → st.pending_sequence ≡ some n
    → has_stop (run lib ops (record { stream = st; exchanges = [] })).exchanges ≡ true
    → is_acked lib n (run lib ops (record { stream = st; exchanges = [] })).exchanges ≡ true
delivery_kept_until_acked lib n st ops a h e =
    settled lib n _
      (run-IsKept lib n ops (record { stream = st; exchanges = [] })
        (inr (record { acknowledges = a; pending = h; running = refl })))
      e
