-- ===== src/Plates/Parse/Fit.antt =====
-- What the parsers guarantee of the events they return, and the camera's parser in particular.
use mathlib.Core.Path.{subst}
use pytvt.Prelude.{
  ℕ, suc, ◌+◌, ◌≤◌, ◌≡◌, refl, ap, String, Bool, false, not, ◌&&◌, ◌||◌, inl, inr, Option, none,
  some, List, [], ◌∷◌, leb, ltb, ◌==◌, length, is_empty, Bool-cases, All, arith,
}
use pytvt.Prelude.Bytes.{Bytes}
use pytvt.Prelude.Int.{ℤ}
use pytvt.Plates.{PlateEvent, image_bytes, Warning}
use pytvt.Plates.Parse.{
  no_metadata_item, ok, ◌>>◌, refuse, read_structure, decode_plate, read_items,
}
use pytvt.Plates.Parse.Ipc.{
  Shared, event_warnings, event_of, of_type, with_image, picked, first_image, event_items,
  shared_of, ipc_event, ipc_events, parse_ipc_plate_payload, max_plates_per_callback,
}
use pytvt.Plates.Parse.Items.{
  IsRead, >>=-ok, refuse-ok, ok-injective, read_structure-ok, read_items-ok,
}
use pytvt.Plates.Vendor.{IpcItem, Natives, round_percent, percent_confidence}

abbrev pub AtMost : ℕ → Option ℕ → Type 0
AtMost limit none = Unit
AtMost limit (some n) = n ≤ limit

-- Each image is at most `limit` bytes, the confidence is a percentage, and the event is marked
-- partial exactly if it has a warning.
pub record Fits (limit : ℕ) (e : PlateEvent) : Type 0 where
  pub full : image_bytes e.full_image ≤ limit
  pub plate : image_bytes e.plate_image ≤ limit
  pub percent : AtMost 100 e.confidence
  pub partial : e.is_partial ≡ not (is_empty e.warnings)

round_percent-le : (value : ℕ) → value ≤ 10000 → round_percent value ≤ 100
unfolding round_percent
round_percent-le value h = ground arith

pub percent_confidence-AtMost :
    (basis : Bool) (value : ℕ) (warnings : List Warning)
    → AtMost 100 (percent_confidence basis value warnings).0
unfolding percent_confidence round_percent
percent_confidence-AtMost basis value warnings = elim (Bool-cases (leb value 100)) [
  | inl a ↦ simp a (ground arith)
  | inr a ↦ elim (Bool-cases (basis && leb value 10000)) [
    | inl b ↦ simp (a, b) (round_percent-le value (ground arith))
    | inr b ↦ simp (a, b) tt
  ]
]

event_of-Fits :
    (limit : ℕ) (shared : Shared) (item : IpcItem) (image : Option Bytes) (plate : String)
    → image_bytes shared.full_image ≤ limit
    → image_bytes image ≤ limit
    → Fits limit (event_of shared item image plate)
unfolding event_of
event_of-Fits limit shared item image plate f p = record {
  full = f;
  plate = p;
  percent =
      percent_confidence-AtMost false item.plate_confidence (event_warnings shared plate image);
  partial = refl;
}

of_type-All :
    (P : IpcItem × Bytes → Type 0) (kind : ℕ) (parsed : List (IpcItem × Bytes))
    → All P parsed
    → All P (of_type kind parsed)
of_type-All P kind [] h = tt
of_type-All P kind ((item, image) ∷ rest) h = elim (Bool-cases (item.image_type == kind)) [
  | inl e ↦ simp e (h.0, of_type-All P kind rest h.1)
  | inr e ↦ simp e (of_type-All P kind rest h.1)
]

-- The images that become those of the events.
abbrev Small : ℕ → IpcItem × Option Bytes → Type 0
Small limit r = image_bytes r.1 ≤ limit

with_image-Small :
    (limit : ℕ) (parsed : List (IpcItem × Bytes))
    → All (IsRead limit) parsed
    → All (Small limit) (with_image parsed)
unfolding image_bytes
with_image-Small limit [] h = tt
with_image-Small limit ((item, image) ∷ rest) h = (h.0.1, with_image-Small limit rest h.1)

picked-Small :
    (limit : ℕ) (plates full : List (IpcItem × Bytes))
    → All (IsRead limit) plates
    → All (Small limit) (picked plates full)
unfolding picked image_bytes
picked-Small limit [] [] h = tt
picked-Small limit [] (f ∷ _) h = (omega arith, tt)
picked-Small limit (plate ∷ plates) full h = with_image-Small limit (plate ∷ plates) h

first_image-le :
    (limit : ℕ) (full : List (IpcItem × Bytes))
    → All (IsRead limit) full
    → image_bytes (first_image full) ≤ limit
unfolding image_bytes
first_image-le limit [] h = omega arith
first_image-le limit ((item, image) ∷ rest) h = h.0.1

shared_of-image :
    (limit : ℕ) (user_id channel_id : ℤ) (received_at : ℕ) (trailing : Bool) (count : ℕ)
    (parsed : List (IpcItem × Bytes))
    → All (IsRead limit) parsed
    → image_bytes (shared_of user_id channel_id received_at trailing count parsed).full_image
      ≤ limit
unfolding shared_of
shared_of-image limit user_id channel_id received_at trailing count parsed h =
    first_image-le limit (of_type 0 parsed) (of_type-All (IsRead limit) 0 parsed h)

length-with_image : (parsed : List (IpcItem × Bytes)) → length (with_image parsed) ≡ length parsed
length-with_image [] = refl
length-with_image ((item, image) ∷ rest) = ap suc (length-with_image rest)

length-of_type :
    (kind : ℕ) (parsed : List (IpcItem × Bytes)) → length (of_type kind parsed) ≤ length parsed
length-of_type kind [] = omega arith
length-of_type kind ((item, image) ∷ rest) = elim (Bool-cases (item.image_type == kind)) [
  | inl e ↦ simp e (omega (arith, length-of_type kind rest))
  | inr e ↦ simp e (omega (arith, length-of_type kind rest))
]

length-picked :
    (n : ℕ) (plates full : List (IpcItem × Bytes))
    → length plates ≤ n
    → length full ≤ n
    → length (picked plates full) ≤ n
unfolding picked
length-picked n [] [] p f = omega arith
length-picked n [] (x ∷ full) p f = omega arith
length-picked n (plate ∷ plates) full p f = omega (arith, length-with_image (plate ∷ plates))

ipc_events-Fits :
    (native : Natives) (limit : ℕ) (shared : Shared) (items : List (IpcItem × Option Bytes))
    {es : List PlateEvent}
    → image_bytes shared.full_image ≤ limit
    → All (Small limit) items
    → ipc_events native shared items ≡ ok es
    → (length es ≡ length items) × All (Fits limit) es
unfolding ipc_events ipc_event
ipc_events-Fits native limit shared [] f h e =
    subst (λ l. (length l ≡ 0) × All (Fits limit) l) (ok-injective e) (refl, tt)
ipc_events-Fits native limit shared ((item, image) ∷ rest) f h e =
    let (event, p, k) = >>=-ok (ipc_event native shared item image) _ e in
    let (plate, q, k') = >>=-ok (decode_plate native item.plate item.plate_char_count) _ p in
    let (events, r, k'') = >>=-ok (ipc_events native shared rest) _ k in
    let u = ipc_events-Fits native limit shared rest f h.1 r in
    let fits =
      subst (Fits limit) (ok-injective k') (event_of-Fits limit shared item image plate f h.0) in
    subst (λ l. (length l ≡ suc (length rest)) × All (Fits limit) l) (ok-injective k'')
      (ap suc u.0, (fits, u.1))

positive-length : {A : Type 0} (l : List A) → is_empty l ≡ false → 1 ≤ length l
positive-length [] h = absurd (cc h)
positive-length (x ∷ l) h = omega arith

-- The part of the camera's parser after its items are read.
events_of_items :
    (native : Natives) (limit count plate_count : ℕ) (user_id channel_id : ℤ) (received_at : ℕ)
    (trailing : Bool) (parsed : List (IpcItem × Bytes)) {es : List PlateEvent}
    → length parsed ≡ count
    → All (IsRead limit) parsed
    → (refuse (is_empty (event_items parsed)) no_metadata_item
        >> ipc_events native
            (shared_of user_id channel_id received_at trailing plate_count parsed)
            (event_items parsed))
      ≡ ok es
    → All (Fits limit) es × (1 ≤ length es) × (length es ≤ count)
unfolding event_items
events_of_items native limit count plate_count user_id channel_id received_at trailing parsed l h
      e =
    let plates = of_type 1 parsed in
    let full = of_type 0 parsed in
    let p = refuse-ok (is_empty (event_items parsed)) no_metadata_item _ e in
    let small = picked-Small limit plates full (of_type-All (IsRead limit) 1 parsed h) in
    let image =
      shared_of-image limit user_id channel_id received_at trailing plate_count parsed h in
    let u = ipc_events-Fits native limit _ (event_items parsed) image small p.1 in
    (
      u.1,
      omega (arith, u.0, positive-length (event_items parsed) p.0),
      omega (
        arith,
        u.0,
        l,
        length-picked (length parsed) plates full (length-of_type 1 parsed)
            (length-of_type 0 parsed),
      ),
    )

-- Every event that a camera's callback gives has images of at most `max_image_bytes` bytes, a
-- confidence of at most 100 where it has one, and the mark of a partial event exactly if it has a
-- warning; and there are between one event and 33.
pub ipc_events_fit :
    (native : Natives) (max_payload_bytes max_image_bytes : ℕ) (user_id channel_id : ℤ)
    (received_at : ℕ) (payload : Bytes) (es : List PlateEvent)
    → parse_ipc_plate_payload native max_payload_bytes max_image_bytes user_id channel_id
        received_at payload
      ≡ ok es
    → All (Fits max_image_bytes) es × (1 ≤ length es) × (length es ≤ max_plates_per_callback + 1)
unfolding parse_ipc_plate_payload
ipc_events_fit native m limit user_id channel_id received_at payload es e =
    let p = refuse-ok (ltb m (length payload)) _ _ e in
    let ((head, start), q, k) =
      >>=-ok (read_structure native.head_size native.head payload 0) _ p.1 in
    let r =
      refuse-ok (ltb head.item_cnt 1 || ltb (max_plates_per_callback + 1) head.item_cnt) _ _ k in
    let s = refuse-ok (ltb max_plates_per_callback head.plate_cnt) _ _ r.1 in
    let ((parsed, offset), t, k') =
      >>=-ok (read_items native limit head.item_cnt payload start) _ s.1 in
    let begin = read_structure-ok native.head_size native.head payload 0 q in
    let v = read_items-ok native limit head.item_cnt payload start begin.1 t in
    let w =
      events_of_items native limit head.item_cnt head.plate_cnt user_id channel_id received_at
        (not (offset == length payload)) parsed v.0 v.2 k' in
    (w.0, w.1, ground (arith, w.2, r.0))
