-- ===== src/Plates/Parse/VsdFit.antt =====
-- What the parser of structured video data guarantees of the events it returns.
use mathlib.Core.Path.{subst}
use pytvt.Prelude.{
  ℕ, zero, suc, ◌≤◌, ◌≡◌, refl, Bool, true, false, not, List, [], ◌∷◌, ltb, ◌==◌, if◌then◌else◌,
  length, is_empty, All, arith,
}
use pytvt.Prelude.Bytes.{Bytes}
use pytvt.Prelude.Int.{ℤ}
use pytvt.Plates.{image_bytes}
use pytvt.Plates.Parse.{ok, read_structure, take_image}
use pytvt.Plates.Parse.Items.{>>=-ok, refuse-ok, ok-injective, read_structure-ok, take_image-ok}
use pytvt.Plates.Parse.Nvr.{optional_picture}
use pytvt.Plates.Parse.NvrFit.{optional_picture-ok}
use pytvt.Plates.Parse.Vsd.{
  VsdTarget, VsdNatives, VehicleMetadataEvent, max_vsd_targets_per_callback, vsd_target_car,
  or_no_image, vsd_event, read_targets, parse_vsd_vehicle_payload,
}
use pytvt.Plates.Vendor.{Natives}

-- Both images are at most `limit` bytes, and the event is marked partial exactly if it has a warning.
pub record VsdFits (limit : ℕ) (e : VehicleMetadataEvent) : Type 0 where
  pub full : image_bytes e.full_image ≤ limit
  pub target : image_bytes e.target_image ≤ limit
  pub partial : e.is_partial ≡ not (is_empty e.warnings)

or_no_image-le :
    (limit : ℕ) (image : Bytes) → length image ≤ limit → image_bytes (or_no_image image) ≤ limit
unfolding image_bytes
or_no_image-le limit [] h = h
or_no_image-le limit (b ∷ bs) h = h

module _ (native : Natives) (vsd : VsdNatives) (limit : ℕ)
    (make : VsdTarget → Bytes → VehicleMetadataEvent)
    (made : (t : VsdTarget) (image : Bytes)
      → length image ≤ limit
      → VsdFits limit (make t image)) where
  kept-VsdFits :
      (b : Bool) (e : VehicleMetadataEvent) (es : List VehicleMetadataEvent) (n : ℕ)
      → VsdFits limit e
      → (length es ≤ n) × All (VsdFits limit) es
      → (length (if b then e ∷ es else es) ≤ suc n) × All (VsdFits limit) (if b then e ∷ es else es)
  kept-VsdFits true e es n h hs = (omega (arith, hs.0), (h, hs.1))
  kept-VsdFits false e es n h hs = (omega (arith, hs.0), hs.1)

  read_targets-VsdFits :
      (count : ℕ) (payload : Bytes) (offset : ℕ) {r : List VehicleMetadataEvent × ℕ}
      → read_targets native vsd limit make count payload offset ≡ ok r
      → (length r.0 ≤ count) × All (VsdFits limit) r.0
  unfolding read_targets
  read_targets-VsdFits zero payload offset h =
      subst (λ r. (length r.0 ≤ 0) × All (VsdFits limit) r.0) (ok-injective h) (omega arith, tt)
  read_targets-VsdFits (suc count) payload offset h =
      let ((target, start), p, k) =
        >>=-ok (read_structure vsd.target_size vsd.target payload offset) _ h in
      let ((image, end), q, k') =
        >>=-ok (take_image payload start target.data_len target.data_len limit) _ k in
      let ((events, last), s, k'') =
        >>=-ok (read_targets native vsd limit make count payload end) _ k' in
      let t = take_image-ok payload start target.data_len target.data_len limit q in
      subst (λ r. (length r.0 ≤ suc count) × All (VsdFits limit) r.0) (ok-injective k'')
        (kept-VsdFits (target.target_type == vsd_target_car) (make target image) events count
          (made target image (omega (arith, t.0, t.1))) (read_targets-VsdFits count payload end s))

-- A callback of structured video data gives at most 64 events, each with images of at most
-- `max_image_bytes` bytes and the mark of a partial event exactly if it has a warning.
pub vsd_events-VsdFits :
    (native : Natives) (vsd : VsdNatives) (max_payload_bytes max_image_bytes : ℕ) (user_id : ℤ)
    (received_at : ℕ) (payload : Bytes) (es : List VehicleMetadataEvent)
    → parse_vsd_vehicle_payload native vsd max_payload_bytes max_image_bytes user_id received_at
        payload
      ≡ ok es
    → (length es ≤ max_vsd_targets_per_callback) × All (VsdFits max_image_bytes) es
unfolding parse_vsd_vehicle_payload vsd_event
vsd_events-VsdFits native vsd m limit user_id received_at payload es e =
    let p = refuse-ok (ltb m (length payload)) _ _ e in
    let ((head, start), q, k) = >>=-ok (read_structure vsd.head_size vsd.head payload 0) _ p.1 in
    let r = refuse-ok (ltb max_vsd_targets_per_callback head.target_count) _ _ k in
    let (full, s, k') = >>=-ok (optional_picture native payload start limit) _ r.1 in
    let make = vsd_event native vsd user_id received_at head full in
    let ((events, offset), t, k'') =
      >>=-ok (read_targets native vsd limit make head.target_count payload full.end) _ k' in
    let u = refuse-ok (not (offset == length payload)) _ _ k'' in
    let begin = (read_structure-ok vsd.head_size vsd.head payload 0 q).1 in
    let v = optional_picture-ok native payload start limit begin s in
    let w =
      read_targets-VsdFits native vsd limit make
        (λ target image h. record {
          full = v.0;
          target = or_no_image-le limit image h;
          partial = refl;
        })
        head.target_count payload full.end t in
    subst (λ l. (length l ≤ max_vsd_targets_per_callback) × All (VsdFits limit) l)
      (ok-injective u.1) (ground (arith, w.0, r.0), w.1)
