-- ===== src/Plates/Parse/NvrFit.antt =====
-- What the recorder's parser guarantees of the event it returns.
use mathlib.Core.Path.{subst}
use pytvt.Prelude.{ℕ, ◌≤◌, ◌≡◌, refl, true, inl, inr, ltb, ◌==◌, length, Bool-cases, arith}
use pytvt.Prelude.Bytes.{Bytes}
use pytvt.Prelude.Int.{ℤ, pos, negsuc}
use pytvt.Plates.{PlateEvent, image_bytes}
use pytvt.Plates.Parse.{ok, read_structure, take_image, decode_plate}
use pytvt.Plates.Parse.Items.{>>=-ok, refuse-ok, ok-injective, read_structure-ok, take_image-ok}
use pytvt.Plates.Parse.Nvr.{
  Picture, picture_of_size, optional_picture, nvr_event, parse_nvr_plate_payload,
}
use pytvt.Plates.Vendor.{Natives}
use pytvt.Plates.Parse.Fit.{Fits, percent_confidence-AtMost}

-- The picture's image is at most `limit` bytes, and it ends inside the payload.
picture_of_size-ok :
    (payload : Bytes) (start limit : ℕ) (code : ℤ) (size : ℤ × ℤ) (n : ℤ) {p : Picture}
    → start ≤ length payload
    → picture_of_size payload start limit code size n ≡ ok p
    → (image_bytes p.image ≤ limit) × (p.end ≤ length payload)
unfolding picture_of_size image_bytes
picture_of_size-ok payload start limit code size (negsuc n) s h = absurd (cc h)
picture_of_size-ok payload start limit code size (pos n) s h = elim (Bool-cases (n == 0)) [
  | inl z ↦
      subst (λ p. (image_bytes p.image ≤ limit) × (p.end ≤ length payload))
        (ok-injective (simp z at h)) (omega arith, s)
  | inr z ↦
      let ((image, end), t, k) = >>=-ok (take_image payload start n n limit) _ (simp z at h) in
      let u = take_image-ok payload start n n limit t in
      subst (λ p. (image_bytes p.image ≤ limit) × (p.end ≤ length payload)) (ok-injective k)
        (omega (arith, u.0, u.1), u.3)
]

pub optional_picture-ok :
    (native : Natives) (payload : Bytes) (offset limit : ℕ) {p : Picture}
    → offset ≤ length payload
    → optional_picture native payload offset limit ≡ ok p
    → (image_bytes p.image ≤ limit) × (p.end ≤ length payload)
unfolding optional_picture image_bytes
optional_picture-ok native payload offset limit o h = elim (Bool-cases (offset == length payload)) [
  | inl z ↦
      subst (λ p. (image_bytes p.image ≤ limit) × (p.end ≤ length payload))
        (ok-injective (simp z at h)) (omega arith, o)
  | inr z ↦
      let ((info, start), t, k) =
        >>=-ok (read_structure native.picture_size native.picture payload offset) _ (simp z at h) in
      picture_of_size-ok payload start limit _ _ info.pic_size
        (read_structure-ok native.picture_size native.picture payload offset t).1 k
]

-- The event that a recorder's callback gives has images of at most `max_image_bytes` bytes, a
-- confidence of at most 100 if it has one, and the mark of a partial event exactly if it has a
-- warning.
pub nvr_event-Fits :
    (native : Natives) (max_payload_bytes max_image_bytes : ℕ) (user_id channel_id : ℤ)
    (received_at : ℕ) (payload : Bytes) (e : PlateEvent)
    → parse_nvr_plate_payload native max_payload_bytes max_image_bytes user_id channel_id
        received_at payload
      ≡ ok e
    → Fits max_image_bytes e
unfolding parse_nvr_plate_payload nvr_event
nvr_event-Fits native m limit user_id channel_id received_at payload es e =
    let p = refuse-ok (ltb m (length payload)) _ _ e in
    let ((info, start), q, k) =
      >>=-ok (read_structure native.info_size native.info payload 0) _ p.1 in
    let (full, r, k') = >>=-ok (optional_picture native payload start limit) _ k in
    let (plate, s, k'') = >>=-ok (optional_picture native payload full.end limit) _ k' in
    let (text, t, last) = >>=-ok (decode_plate native info.plate info.plate_char_count) _ k'' in
    let begin = (read_structure-ok native.info_size native.info payload 0 q).1 in
    let u = optional_picture-ok native payload start limit begin r in
    let v = optional_picture-ok native payload full.end limit u.1 s in
    subst (Fits limit) (ok-injective last) (record {
      full = u.0;
      plate = v.0;
      percent = percent_confidence-AtMost true info.plate_confidence _;
      partial = refl;
    })
