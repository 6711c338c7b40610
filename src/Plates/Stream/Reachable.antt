-- ===== src/Plates/Stream/Reachable.antt =====
-- Every step of the stream, its readers and its closer keeps the invariant, and what follows for
-- the states they reach.
use mathlib.Core.Path.{subst}
use mathlib.Core.Option.{some-injective}
use pytvt.Prelude.{
  ℕ, ◌≡◌, refl, sym, ◌∙◌, ap, Bool, true, false, Option, some, ◌⊎◌, inl, inr, Bool-cases, arith,
}
use pytvt.Plates.Stream.{
  StreamError, PlateEventStream, queue_full, close_begin, close_end, close_fails, reject_callback,
}
use pytvt.Plates.Stream.Enqueue.{length-queue}
use pytvt.Plates.Stream.Readers.{
  take_event-Sound, take_signal-Sound, recorded-Sound, put_back-Sound, Holds-signal, Closes-signal,
}
use pytvt.Plates.Stream.Sound.{count, Holds, Sound, offer-Sound}
use pytvt.Plates.Stream.Steps.{
  System, recount, StreamStep, offer, take_event, recorded, take_signal, put_back, begin_close,
  fail_close, end_close, reject, counted, Reach, here, next,
}

Holds-fields :
    (y : System) (closed closing : Bool)
    → Holds y
    → Holds (record y { stream = record y.stream { closed = closed; closing = closing } })
Holds-fields y c b h = record {
  place = h.place;
  fits = h.fits;
  bytes = h.bytes;
  within = h.within;
  account = h.account;
  order = h.order;
}

-- A stream that is closed already stays as it is.
pub close_begin-cases :
    (s t : PlateEventStream)
    → close_begin s ≡ some t
    → (s ≡ t) ⊎ ((s.closed ≡ false) × (record s { closing = true } ≡ t))
unfolding close_begin
close_begin-cases s t p = elim (Bool-cases s.closed) [
  | inl c ↦ inl (some-injective _ _ (sym (simp c refl) ∙ p))
  | inr c ↦ elim (Bool-cases s.closing) [
    | inl b ↦ absurd (cc (simp (c, b) at p))
    | inr b ↦ inr (c, some-injective _ _ (sym (simp (c, b) refl) ∙ p))
  ]
]

begin_close-Sound :
    (s : PlateEventStream) (y : System)
    → close_begin y.stream ≡ some s
    → Sound y
    → Sound (record y { stream = s })
begin_close-Sound s y p h = elim (close_begin-cases y.stream s p) [
  | inl q ↦ subst (λ t. Sound (record y { stream = t })) q h
  | inr (c, q) ↦
      subst (λ t. Sound (record y { stream = t })) q
        (record {
          holds = Holds-fields y y.stream.closed true h.holds;
          closes = record {
            one_signal = h.closes.one_signal;
            last = h.closes.last;
            alone = h.closes.alone;
            unclosed = h.closes.unclosed;
            busy = λ _. c;
            wake = h.closes.wake;
          };
        })
]

fail_close-Sound :
    (y : System)
    → y.stream.closing ≡ true
    → Sound y
    → Sound (record y { stream = close_fails y.stream })
fail_close-Sound y b h = record {
  holds = Holds-fields y y.stream.closed false h.holds;
  closes = record {
    one_signal = h.closes.one_signal;
    last = h.closes.last;
    alone = h.closes.alone;
    unclosed = h.closes.unclosed;
    busy = λ _. h.closes.busy b;
    wake = h.closes.wake;
  };
}

end_close-Sound :
    (y : System)
    → y.stream.closing ≡ true
    → Sound y
    → Sound (record y { stream = close_end y.stream })
unfolding close_end
end_close-Sound y b h =
    let flag = h.closes.unclosed (h.closes.busy b) in
    let z = h.closes.one_signal ∙ ap count flag in
    let t = record y { stream = record y.stream { closed = true; closing = false } } in
    let kept = Holds-fields y true false h.holds in
    elim (Bool-cases (queue_full y.stream)) [
      | inl f ↦ simp f (record {
        holds = kept;
        closes = record {
          one_signal = h.closes.one_signal;
          last = h.closes.last;
          alone = inl (omega (arith, z));
          unclosed = λ _. flag;
          busy = λ d. absurd (cc d);
          wake = λ _. inr (ground (arith, length-queue y.stream.queue, h.holds.place, z));
        };
      })
      | inr f ↦
          simp f (record { holds = Holds-signal t f kept; closes = Closes-signal t z refl refl })
    ]

reject-Sound : (y : System) → Sound y → Sound (record y { stream = reject_callback y.stream })
reject-Sound y h = record {
  holds = record {
    place = h.holds.place;
    fits = h.holds.fits;
    bytes = h.holds.bytes;
    within = h.holds.within;
    account = h.holds.account;
    order = h.holds.order;
  };
  closes = record {
    one_signal = h.closes.one_signal;
    last = h.closes.last;
    alone = h.closes.alone;
    unclosed = h.closes.unclosed;
    busy = h.closes.busy;
    wake = h.closes.wake;
  };
}

counted-Sound :
    (a b c d : ℕ) (r : Option StreamError) (y : System)
    → Sound y
    → Sound (record y { stream = recount a b c d r y.stream })
counted-Sound a b c d r y h = record {
  holds = record {
    place = h.holds.place;
    fits = h.holds.fits;
    bytes = h.holds.bytes;
    within = h.holds.within;
    account = h.holds.account;
    order = h.holds.order;
  };
  closes = record {
    one_signal = h.closes.one_signal;
    last = h.closes.last;
    alone = h.closes.alone;
    unclosed = h.closes.unclosed;
    busy = h.closes.busy;
    wake = h.closes.wake;
  };
}

pub StreamStep-Sound : (y z : System) → StreamStep y z → Sound y → Sound z
StreamStep-Sound y z (offer e _) h = offer-Sound e y h
StreamStep-Sound y z (take_event e q _ p) h = take_event-Sound e q y p h
StreamStep-Sound y z (recorded e before after _ p) h = recorded-Sound e before after y p h
StreamStep-Sound y z (take_signal q _ p) h = take_signal-Sound q y p h
StreamStep-Sound y z (put_back n _ p) h = put_back-Sound n y p h
StreamStep-Sound y z (begin_close s _ p) h = begin_close-Sound s y p h
StreamStep-Sound y z (fail_close _ p) h = fail_close-Sound y p h
StreamStep-Sound y z (end_close _ p) h = end_close-Sound y p h
StreamStep-Sound y z (reject _) h = reject-Sound y h
StreamStep-Sound y z (counted a b c d r _) h = counted-Sound a b c d r y h

pub Reach-Sound : (y z : System) → Sound y → Reach y z → Sound z
Reach-Sound y z h here = h
Reach-Sound y z h (next {u = u} r s) = StreamStep-Sound u z s (Reach-Sound y u h r)
