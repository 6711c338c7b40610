-- ===== src/Runtime/Given.antt =====
-- That an event of an acknowledged stream comes with the number that acknowledges it.
use mathlib.Core.Option.{some-injective, none-ne-some}
use pytvt.Prelude.{
  ℕ, ◌≡◌, refl, sym, ap, ◌∙◌, Bool, true, false, not, Option, none, some, List, [], ◌∷◌, leb,
  length, if◌then◌else◌, is_empty, arith,
}
use pytvt.Prelude.Json.{Json, get_member, require}
use pytvt.Runtime.{RuntimeReply, result, error, RuntimeLibraries, smaller}
use pytvt.Runtime.Plates.{
  ◌>>=◌, ensure, the_object, the_list, cons_some, parse_all, parse_plate_stats,
}
use pytvt.Runtime.Plates.Event.{RuntimePlateEvent, parse_plate_event}
use pytvt.Runtime.Stream.{
  sequence_of, is_some, same, Polled, parse_plate_poll, RuntimeStream, Runtime, Session, Done,
  gives, raises, Timeout, no_timeout, refused_timeout, milliseconds, is_replaced, kept_delivery,
  polled, marked_uncertain, poll_reply, poll_wait, poll_for, poll, first_event, get_event,
  plate_stream_poll,
}

>>=-eq-some {ℓ κ} :
    {A : Type ℓ} {B : Type κ} (m : Option A) (f : A → Option B) {b : B}
    → (m >>= f) ≡ some b
    → (a : A) × (m ≡ some a) × (f a ≡ some b)
>>=-eq-some none f h = absurd (none-ne-some _ h)
>>=-eq-some (some a) f h = (a, refl, h)

ensure-true : (b : Bool) → {u : Unit {0}} → ensure b ≡ some u → b ≡ true
ensure-true true h = refl
ensure-true false h = absurd (none-ne-some _ h)

cons_some-is_empty {ℓ} :
    {A : Type ℓ} (o : Option A) (p : Option (List A)) {xs : List A}
    → cons_some o p ≡ some xs
    → false ≡ is_empty xs
cons_some-is_empty none p h = absurd (none-ne-some _ h)
cons_some-is_empty (some a) none h = absurd (none-ne-some _ h)
cons_some-is_empty (some a) (some more) h = ap is_empty (some-injective _ _ h)

parse_all-is_empty {ℓ} :
    {A : Type ℓ} (f : Json → Option A) (vs : List Json) {xs : List A}
    → parse_all f vs ≡ some xs
    → is_empty vs ≡ is_empty xs
unfolding parse_all
parse_all-is_empty f [] h = ap is_empty (some-injective _ _ h)
parse_all-is_empty f (v ∷ vs) h = cons_some-is_empty (f v) (parse_all f vs) h

-- A poll's answer with an event has a number.
parse_plate_poll-sequence :
    (lib : RuntimeLibraries) (limit : ℕ) (v : Json) {p : Polled}
    → parse_plate_poll lib limit true v ≡ some p
    → is_empty p.events ≡ false
    → is_some p.sequence ≡ true
unfolding parse_plate_poll
parse_plate_poll-sequence lib limit v h e =
    let (d, _, h1) = >>=-eq-some (the_object v) _ h in
    let (raw, _, h2) = >>=-eq-some (require "events" d >>= the_list) _ h1 in
    let (number, _, h3) = >>=-eq-some (sequence_of true (get_member "delivery_sequence" d)) _ h2 in
    let (_, _, h4) = >>=-eq-some (ensure (leb (length raw) limit)) _ h3 in
    let (_, _, h5) = >>=-eq-some (ensure (leb (length raw) 1)) _ h4 in
    let (_, agree, h6) = >>=-eq-some (ensure (same (not (is_empty raw)) (is_some number))) _ h5 in
    let (parsed, all, h7) = >>=-eq-some (parse_all (parse_plate_event lib) raw) _ h6 in
    let (counts, _, h8) = >>=-eq-some (require "stats" d >>= parse_plate_stats) _ h7 in
    let q = some-injective _ _ h8 in
    let filled : is_empty raw ≡ false =
      parse_all-is_empty (parse_plate_event lib) raw all
      ∙ ap (λ (x : Polled). is_empty x.events) q
      ∙ e in
    let numbered : is_some number ≡ true =
      ap (λ b. same (not b) (is_some number)) (sym filled) ∙ ensure-true _ agree in
    ap (λ (x : Polled). is_some x.sequence) (sym q) ∙ numbered

-- An event that comes leaves its number pending.
abbrev Shows : Done (List RuntimePlateEvent) × RuntimeStream → Type 0
Shows (gives events, st) = is_empty events ≡ false → is_some st.pending_sequence ≡ true
Shows (raises x, st) = Unit

if-Shows :
    (b : Bool) (x y : Done (List RuntimePlateEvent) × RuntimeStream)
    → Shows x
    → Shows y
    → Shows (if b then x else y)
if-Shows true x y p q = p
if-Shows false x y p q = q

polled-Shows :
    (lib : RuntimeLibraries) (limit : ℕ) (v : Json) (o : Option Polled) (st : RuntimeStream)
    → parse_plate_poll lib limit true v ≡ o
    → st.acknowledged_delivery ≡ true
    → Shows (polled o st)
polled-Shows lib limit v none st h a = tt
polled-Shows lib limit v (some p) st h a = acked st.acknowledged_delivery a
  where
    kept : Shows (kept_delivery p st)
    kept =
        if-Shows (is_replaced st.pending_sequence p.sequence) _ _ tt
          (λ e. parse_plate_poll-sequence lib limit v h e)

    acked :
        (b : Bool)
        → b ≡ true
        → Shows (
            if b
            then kept_delivery p st
            else (gives p.events, record st { latest_stats = p.latest_stats }))
    acked true e = kept
    acked false e = absurd (ground arith)

poll_reply-Shows :
    (lib : RuntimeLibraries) (limit : ℕ) (r : RuntimeReply Json) (st : RuntimeStream)
    → st.acknowledged_delivery ≡ true
    → Shows (poll_reply lib limit r st)
poll_reply-Shows lib limit (result v) st a =
    polled-Shows lib limit v (parse_plate_poll lib limit st.acknowledged_delivery v) st
      (ap (λ b. parse_plate_poll lib limit b v) (sym a)) a
poll_reply-Shows lib limit (error e) st a = tt

-- The same of a session.
abbrev Delivers : Done (List RuntimePlateEvent) × Session → Type 0
Delivers (d, s) = Shows (d, s.stream)

if-Delivers :
    (b : Bool) (x y : Done (List RuntimePlateEvent) × Session)
    → Delivers x
    → Delivers y
    → Delivers (if b then x else y)
if-Delivers true x y p q = p
if-Delivers false x y p q = q

poll_wait-Delivers :
    (lib : RuntimeLibraries) (runtime : Runtime) (limit wait : ℕ) (s : Session)
    → s.stream.acknowledged_delivery ≡ true
    → Delivers (poll_wait lib runtime limit wait s)
poll_wait-Delivers lib runtime limit wait s a =
    poll_reply-Shows lib limit (runtime (plate_stream_poll limit wait)) (marked_uncertain s.stream)
      a

poll_for-Delivers :
    (lib : RuntimeLibraries) (runtime : Runtime) (limit : ℕ) (t : Timeout) (s : Session)
    → s.stream.acknowledged_delivery ≡ true
    → Delivers (poll_for lib runtime limit t s)
poll_for-Delivers lib runtime limit no_timeout s a = poll_wait-Delivers lib runtime limit 10000 s a
poll_for-Delivers lib runtime limit refused_timeout s a = tt
poll_for-Delivers lib runtime limit (milliseconds ms) s a =
    poll_wait-Delivers lib runtime limit (smaller 10000 ms) s a

poll-Delivers :
    (lib : RuntimeLibraries) (runtime : Runtime) (limit : ℕ) (t : Timeout) (s : Session)
    → s.stream.acknowledged_delivery ≡ true
    → Delivers (poll lib runtime limit t s)
unfolding poll
poll-Delivers lib runtime limit t s a =
    if-Delivers s.stream.closed _ _ tt (poll_for-Delivers lib runtime limit t s a)

first_event-pending :
    (lib : RuntimeLibraries) (d : Done (List RuntimePlateEvent) × Session)
    → Delivers d
    → {e : RuntimePlateEvent} → (first_event lib d).0 ≡ gives e
    → is_some (first_event lib d).1.stream.pending_sequence ≡ true
first_event-pending lib (gives [], s) h k = absurd (ground arith)
first_event-pending lib (gives (e ∷ es), s) h k = h refl
first_event-pending lib (raises x, s) h k = absurd (ground arith)

-- An event that `get` gives of an acknowledged stream leaves a number to acknowledge, whatever the
-- runtime answers.
pub get_event-pending :
    (lib : RuntimeLibraries) (runtime : Runtime) (t : Timeout) (s : Session) {e : RuntimePlateEvent}
    → s.stream.acknowledged_delivery ≡ true
    → (get_event lib runtime t s).0 ≡ gives e
    → is_some (get_event lib runtime t s).1.stream.pending_sequence ≡ true
unfolding get_event
get_event-pending lib runtime t s a k =
    first_event-pending lib (poll lib runtime 1 t s) (poll-Delivers lib runtime 1 t s a) k
