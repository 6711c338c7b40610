-- ===== src/Plates/Stream/Sound.antt =====
-- The invariant of the stream, its readers and its closer.
use mathlib.Core.Path.{subst}
use pytvt.Prelude.{
  ℕ, ◌+◌, ◌≤◌, ◌≡◌, refl, sym, ◌∙◌, ap, Bool, true, false, none, some, List, [], ◌∷◌, ◌++◌, ◌⊎◌,
  inl, inr, length, length-append, Bool-cases, arith,
}
use pytvt.Prelude.Sequence.{IsSubsequence, IsSubsequence-append}
use pytvt.Plates.{PlateEvent}
use pytvt.Plates.Stream.{Item, PlateEventStream, drop_event, enqueue}
use pytvt.Plates.Stream.Enqueue.{events, signals, total_bytes, enqueue-Enqueues}
use pytvt.Plates.Stream.Steps.{System}

-- One signal when the flag is set, none otherwise.
abbrev pub count : Bool → ℕ
count true = 1
count false = 0

-- What concerns the events: the limits, the bytes, the account of the events and their order.
pub record Holds (y : System) : Type 0 where
  pub place : 1 ≤ y.stream.max_events
  pub fits : length y.stream.queue ≤ y.stream.max_events
  pub bytes :
      y.stream.buffered_image_bytes ≡ total_bytes (events y.stream.queue) + total_bytes y.unrecorded
  pub within : total_bytes (events y.stream.queue) ≤ y.stream.max_buffer_bytes
  pub account :
      length y.offered
      ≡ length y.received + length (events y.stream.queue) + y.stream.events_dropped
  pub order : IsSubsequence (y.received ++ events y.stream.queue) y.offered

-- Nothing comes after a close signal.
abbrev pub SignalLast : List Item → Type 0
SignalLast [] = Unit
SignalLast (none ∷ q) = q ≡ []
SignalLast (some e ∷ q) = SignalLast q

pub SignalLast-events : (q : List Item) → signals q ≡ 0 → SignalLast q
SignalLast-events [] h = tt
SignalLast-events (none ∷ q) h = absurd (omega arith)
SignalLast-events (some e ∷ q) h = SignalLast-events q h

pub SignalLast-signal : (q : List Item) → signals q ≡ 0 → SignalLast (q ++ none ∷ [])
SignalLast-signal [] h = refl
SignalLast-signal (none ∷ q) h = absurd (omega arith)
SignalLast-signal (some e ∷ q) h = SignalLast-signal q h

-- What concerns closing: the signal is unique, last and flagged, and comes only once the stream is closed;
-- then it or some event is still on its way.
pub record Closes (y : System) : Type 0 where
  pub one_signal : signals y.stream.queue + y.pending ≡ count y.stream.close_signal_queued
  pub last : SignalLast y.stream.queue
  pub alone : (y.pending ≡ 0) ⊎ (y.stream.queue ≡ [])
  pub unclosed : y.stream.closed ≡ false → y.stream.close_signal_queued ≡ false
  pub busy : y.stream.closing ≡ true → y.stream.closed ≡ false
  pub wake :
      y.stream.closed ≡ true
      → (y.stream.close_signal_queued ≡ true)
        ⊎ (1 ≤ length (events y.stream.queue) + length y.unrecorded)

pub record Sound (y : System) : Type 0 where
  pub holds : Holds y
  pub closes : Closes y

-- A closed stream drops what it is offered.
pub enqueue-closed :
    (e : PlateEvent) (s : PlateEventStream) → s.closed ≡ true → enqueue e s ≡ drop_event s
unfolding enqueue
enqueue-closed e s c = simp c

pub offer-Sound :
    (e : PlateEvent) (y : System)
    → Sound y
    → Sound (record y { stream = enqueue e y.stream; offered = y.offered ++ e ∷ [] })
offer-Sound e y h = elim (Bool-cases y.stream.closed) [
  | inl c ↦
      subst (λ s. Sound (record y { stream = s; offered = y.offered ++ e ∷ [] }))
        (sym (enqueue-closed e y.stream c))
        (record {
          holds = record {
            place = h.holds.place;
            fits = h.holds.fits;
            bytes = h.holds.bytes;
            within = h.holds.within;
            account = omega (arith, h.holds.account, length-append y.offered (e ∷ []));
            order = IsSubsequence-append _ y.offered (e ∷ []) h.holds.order;
          };
          closes = record {
            one_signal = h.closes.one_signal;
            last = h.closes.last;
            alone = h.closes.alone;
            unclosed = h.closes.unclosed;
            busy = h.closes.busy;
            wake = h.closes.wake;
          };
        })
  | inr c ↦
      let flag = h.closes.unclosed c in
      let none_left = h.closes.one_signal ∙ ap count flag in
      let r = enqueue-Enqueues e (total_bytes y.unrecorded) y.stream (record {
        no_signal = omega (arith, none_left);
        place = h.holds.place;
        fits = h.holds.fits;
        bytes = h.holds.bytes;
        within = h.holds.within;
      }) in
      record {
        holds = record {
          place = r.tidy.place;
          fits = r.tidy.fits;
          bytes = r.tidy.bytes;
          within = r.tidy.within;
          account = omega (arith, h.holds.account, r.account, length-append y.offered (e ∷ []));
          order = r.order y.received y.offered h.holds.order;
        };
        closes = record {
          one_signal =
              omega
                (arith, none_left, r.tidy.no_signal, ap count (r.keeps.close_signal_queued ∙ flag));
          last = SignalLast-events ((enqueue e y.stream).queue) r.tidy.no_signal;
          alone = inl (omega (arith, none_left));
          unclosed = λ _. r.keeps.close_signal_queued ∙ flag;
          busy = λ _. r.keeps.closed ∙ c;
          wake = λ d. absurd (cc (d, r.keeps.closed, c));
        };
      }
]
