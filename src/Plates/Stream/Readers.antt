-- ===== src/Plates/Stream/Readers.antt =====
-- The steps of the readers of a stream keep the invariant.
use mathlib.Core.Path.{subst}
use mathlib.Core.List.{append_assoc, append-nil}
use pytvt.Prelude.{
  ℕ, suc, ◌+◌, ◌-◌, ◌≤◌, ◌≡◌, refl, sym, ◌∙◌, ap, Bool, true, false, not, ◌&&◌, none, some, List,
  [], ◌∷◌, ◌++◌, ◌⊎◌, inl, inr, length, length-append, is_empty, Bool-cases, arith,
}
use pytvt.Prelude.Sequence.{IsSubsequence}
use pytvt.Plates.{PlateEvent, event_bytes}
use pytvt.Plates.Stream.{Item, queue_full, put_nowait, record_dequeue, requeue_close_signal}
use pytvt.Plates.Stream.Enqueue.{
  events, signals, total_bytes, events-append, signals-append, total_bytes-append, length-queue,
}
use pytvt.Plates.Stream.Sound.{count, SignalLast, SignalLast-signal, Holds, Closes, Sound}
use pytvt.Plates.Stream.Steps.{System}

pub take_event-Sound :
    (e : PlateEvent) (q : List Item) (y : System)
    → y.stream.queue ≡ some e ∷ q
    → Sound y
    → Sound (record y {
      stream = record y.stream { queue = q };
      received = y.received ++ e ∷ [];
      unrecorded = e ∷ y.unrecorded;
    })
take_event-Sound e q y p h = record {
  holds = record {
    place = h.holds.place;
    fits = omega (arith, h.holds.fits, ap (λ l. length l) p);
    bytes = omega (arith, h.holds.bytes, ap (λ l. total_bytes (events l)) p);
    within = omega (arith, h.holds.within, ap (λ l. total_bytes (events l)) p);
    account =
        omega (
          arith,
          h.holds.account,
          ap (λ l. length (events l)) p,
          length-append y.received (e ∷ []),
        );
    order =
        subst (λ l. IsSubsequence l y.offered)
          (ap (λ l. y.received ++ events l) p ∙ sym (append_assoc y.received (e ∷ []) (events q)))
          h.holds.order;
  };
  closes = record {
    one_signal = sym (ap (λ l. signals l + y.pending) p) ∙ h.closes.one_signal;
    last = subst SignalLast p h.closes.last;
    alone = elim h.closes.alone [ inl z ↦ inl z | inr n ↦ absurd (cc (n, p)) ];
    unclosed = h.closes.unclosed;
    busy = h.closes.busy;
    wake = λ c. inr (omega arith);
  };
}

pub take_signal-Sound :
    (q : List Item) (y : System)
    → y.stream.queue ≡ none ∷ q
    → Sound y
    → Sound (record y { stream = record y.stream { queue = q }; pending = suc y.pending })
take_signal-Sound q y p h =
    let empty : q ≡ [] = subst SignalLast p h.closes.last in
    record {
      holds = record {
        place = h.holds.place;
        fits = omega (arith, h.holds.fits, ap (λ l. length l) p);
        bytes = omega (arith, h.holds.bytes, ap (λ l. total_bytes (events l)) p);
        within = omega (arith, h.holds.within, ap (λ l. total_bytes (events l)) p);
        account = omega (arith, h.holds.account, ap (λ l. length (events l)) p);
        order = subst (λ l. IsSubsequence (y.received ++ events l) y.offered) p h.holds.order;
      };
      closes = record {
        one_signal = omega (arith, h.closes.one_signal, ap signals p);
        last = subst SignalLast (sym empty) tt;
        alone = inr empty;
        unclosed = h.closes.unclosed;
        busy = h.closes.busy;
        wake = λ c. elim (h.closes.wake c) [
          | inl f ↦ inl f
          | inr l ↦ inr (omega (arith, ap (λ l. length (events l)) p))
        ];
      };
    }

-- A signal is put at the end of the queue.
pub Holds-signal :
    (y : System)
    → queue_full y.stream ≡ false
    → Holds y
    → Holds (record y { stream = record (put_nowait none y.stream) { close_signal_queued = true } })
Holds-signal y f h =
    let same = events-append y.stream.queue (none ∷ []) ∙ append-nil (events y.stream.queue) in
    record {
      place = h.place;
      fits = ground (arith, length-append y.stream.queue (none ∷ []));
      bytes = omega (arith, h.bytes, ap total_bytes same);
      within = omega (arith, h.within, ap total_bytes same);
      account = omega (arith, h.account, ap (λ l. length l) same);
      order = subst (λ l. IsSubsequence (y.received ++ l) y.offered) (sym same) h.order;
    }

pub Closes-signal :
    (y : System)
    → signals y.stream.queue + y.pending ≡ 0
    → y.stream.closed ≡ true
    → y.stream.closing ≡ false
    → Closes
        (record y { stream = record (put_nowait none y.stream) { close_signal_queued = true } })
Closes-signal y z c b = record {
  one_signal = omega (arith, signals-append y.stream.queue (none ∷ []));
  last = SignalLast-signal y.stream.queue (omega arith);
  alone = inl (omega arith);
  unclosed = λ d. absurd (cc (d, c));
  busy = λ d. absurd (cc (d, b));
  wake = λ _. inl refl;
}

-- A closed stream is not closing.
closed-idle : (y : System) → Closes y → y.stream.closed ≡ true → y.stream.closing ≡ false
closed-idle y h c = elim (Bool-cases y.stream.closing) [
  | inl b ↦ absurd (cc (h.busy b, c))
  | inr b ↦ b
]

-- A set flag means a closed stream.
flag-closed : (y : System) → Closes y → y.stream.close_signal_queued ≡ true → y.stream.closed ≡ true
flag-closed y h f = elim (Bool-cases y.stream.closed) [
  | inl c ↦ c
  | inr c ↦ absurd (cc (h.unclosed c, f))
]

total_bytes-remove :
    (before : List PlateEvent) (e : PlateEvent) (after : List PlateEvent)
    → total_bytes (before ++ e ∷ after) ≡ total_bytes (before ++ after) + event_bytes e
total_bytes-remove before e after =
    omega (arith, total_bytes-append before (e ∷ after), total_bytes-append before after)

-- The bytes of one event are recorded.
Holds-recorded :
    (e : PlateEvent) (before after : List PlateEvent) (y : System)
    → y.unrecorded ≡ before ++ e ∷ after
    → Holds y
    → Holds (record y {
      stream = record y.stream {
        buffered_image_bytes = y.stream.buffered_image_bytes - event_bytes e;
      };
      unrecorded = before ++ after;
    })
Holds-recorded e before after y p h = record {
  place = h.place;
  fits = h.fits;
  bytes = omega (arith, h.bytes, ap total_bytes p, total_bytes-remove before e after);
  within = h.within;
  account = h.account;
  order = h.order;
}

is_empty-length : (q : List Item) → is_empty q ≡ false → 1 ≤ length q
is_empty-length [] h = absurd (cc h)
is_empty-length (x ∷ q) h = omega arith

pub is_empty-nil : (q : List Item) → is_empty q ≡ true → q ≡ []
is_empty-nil [] h = refl
is_empty-nil (x ∷ q) h = absurd (cc h)

pub recorded-Sound :
    (e : PlateEvent) (before after : List PlateEvent) (y : System)
    → y.unrecorded ≡ before ++ e ∷ after
    → Sound y
    → Sound (record y { stream = record_dequeue e y.stream; unrecorded = before ++ after })
unfolding record_dequeue
recorded-Sound e before after y p h =
    elim (Bool-cases
      (y.stream.closed && not y.stream.close_signal_queued && is_empty y.stream.queue)) [
        | inl b ↦ simp b (last b)
        | inr b ↦ simp b (record {
          holds = Holds-recorded e before after y p h.holds;
          closes = record {
            one_signal = h.closes.one_signal;
            last = h.closes.last;
            alone = h.closes.alone;
            unclosed = h.closes.unclosed;
            busy = h.closes.busy;
            wake = still b;
          };
        })
      ]
  where
    still :
        y.stream.closed && not y.stream.close_signal_queued && is_empty y.stream.queue ≡ false
        → y.stream.closed ≡ true
        → (y.stream.close_signal_queued ≡ true)
          ⊎ (1 ≤ length (events y.stream.queue) + length (before ++ after))
    still b c = elim (Bool-cases y.stream.close_signal_queued) [
      | inl f ↦ inl f
      | inr f ↦ inr (
          omega (
            arith,
            length-queue y.stream.queue,
            h.closes.one_signal,
            ap count f,
            is_empty-length y.stream.queue (sym (simp (c, f) refl) ∙ b),
          ))
    ]

    t : System
    t = record y {
      stream = record y.stream {
        buffered_image_bytes = y.stream.buffered_image_bytes - event_bytes e;
      };
      unrecorded = before ++ after;
    }

    last :
        y.stream.closed && not y.stream.close_signal_queued && is_empty y.stream.queue ≡ true
        → Sound
            (record t { stream = record (put_nowait none t.stream) { close_signal_queued = true } })
    last b =
        let c : y.stream.closed ≡ true = ground arith in
        let f : y.stream.close_signal_queued ≡ false = ground arith in
        let q = is_empty-nil y.stream.queue (ground arith) in
        record {
          holds =
              Holds-signal t (ground (arith, h.holds.place, ap (λ l. length l) q))
                (Holds-recorded e before after y p h.holds);
          closes = Closes-signal t (h.closes.one_signal ∙ ap count f) c (closed-idle y h.closes c);
        }

count-true : (b : Bool) → 1 ≤ count b → b ≡ true
count-true true h = refl
count-true false h = absurd (omega arith)

pub put_back-Sound :
    (n : ℕ) (y : System)
    → y.pending ≡ suc n
    → Sound y
    → Sound (record y { stream = requeue_close_signal y.stream; pending = n })
unfolding requeue_close_signal
put_back-Sound n y p h =
    let f = count-true y.stream.close_signal_queued (omega (arith, h.closes.one_signal)) in
    let z : signals y.stream.queue + n ≡ 0 = omega (arith, h.closes.one_signal, ap count f) in
    let c = flag-closed y h.closes f in
    elim (Bool-cases (queue_full y.stream)) [
      | inl b ↦ simp b (record {
        holds = record {
          place = h.holds.place;
          fits = h.holds.fits;
          bytes = h.holds.bytes;
          within = h.holds.within;
          account = h.holds.account;
          order = h.holds.order;
        };
        closes = record {
          one_signal = z;
          last = h.closes.last;
          alone = inl (omega (arith, z));
          unclosed = λ d. refl;
          busy = h.closes.busy;
          wake = λ d. inr (ground (arith, length-queue y.stream.queue, h.holds.place, z));
        };
      })
      | inr b ↦ simp b (record {
        holds =
            Holds-signal (record y { pending = n }) b
              (record {
                place = h.holds.place;
                fits = h.holds.fits;
                bytes = h.holds.bytes;
                within = h.holds.within;
                account = h.holds.account;
                order = h.holds.order;
              });
        closes = Closes-signal (record y { pending = n }) z c (closed-idle y h.closes c);
      })
    ]
