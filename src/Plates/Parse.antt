-- ===== src/Plates/Parse.antt =====
-- The parsers of the two plate callbacks (`parse_ipc_plate_payload` and `parse_nvr_plate_payload` of
-- device_sdk/plate_events.py), on the bytes of a payload. The texts of the errors are not kept.
pub mod Ipc
pub mod Nvr
pub mod Items
pub mod Written
pub mod Fit
pub mod NvrFit
pub mod Vsd
pub mod VsdFit
use text.Mathlib.Text.{◌==◌ as str_eq}
use pytvt.Prelude.{
  ℕ, zero, suc, ◌+◌, ◌-◌, ◌*◌, String, Bool, true, false, not, ◌&&◌, ◌||◌, Option, none, some, List,
  [], ◌∷◌, ◌++◌, map, leb, ltb, ◌==◌, if◌then◌else◌, length, is_empty,
}
use pytvt.Prelude.Bytes.{Bytes, take, drop}
use pytvt.Prelude.Int.{ℤ, pos, negsuc}
use pytvt.Plates.{
  PlateEvent, ipc, nvr, VehicleDirection, ImageFormat, Warning, trailing_payload_bytes,
  multiple_full_images, plate_count_mismatch, plate_text_missing, full_image_missing,
  plate_image_missing, picture_descriptor_missing, picture_data_missing,
}
use pytvt.Plates.Vendor.{
  IpcHead, IpcItem, PictureInfo, NvrPlateInfo, Natives, direction, image_format, picture_format,
  has_trailing_payload_bytes, edge_match, vehicle_color_of, ipc_plate_color, nvr_plate_color,
  vehicle_type_of, percent_confidence,
}

-- `PlatePayloadError`, by the check that raises it.
pub data PlatePayloadError : Type 0 where
  payload_too_long truncated_structure bad_char_count bad_utf8 : PlatePayloadError
  bad_image_lengths image_too_long truncated_image : PlatePayloadError
  bad_item_count bad_plate_count no_metadata_item negative_picture_size : PlatePayloadError
  bad_target_count trailing_bytes : PlatePayloadError

pub data Parsed (A : Type 0) : Type 0 where
  ok : A → Parsed A
  err : PlatePayloadError → Parsed A

infixl 5 ◌>>=◌ ◌>>◌
abbrev pub ◌>>=◌ : {A B : Type 0} → Parsed A → (A → Parsed B) → Parsed B
ok a >>= f = f a
err e >>= f = err e

abbrev pub ◌>>◌ : {A B : Type 0} → Parsed A → Parsed B → Parsed B
m >> k = m >>= λ _. k

-- `if refused: raise`
abbrev pub refuse : Bool → PlatePayloadError → Parsed (Unit {0})
refuse true e = err e
refuse false e = ok tt

-- The structure and the offset after it. `size` and `view` stand for the structure's type.
unfoldable pub read_structure : {A : Type 0} → ℕ → (Bytes → A) → Bytes → ℕ → Parsed (A × ℕ)
read_structure size view payload offset = do
  refuse (ltb (length payload) (offset + size)) truncated_structure
  ok (view (take size (drop offset payload)), offset + size)

-- `raw.split(b"\0", 1)[0]`
unfoldable pub before_nul : Bytes → Bytes
before_nul [] = []
before_nul (b ∷ bs) = let rest = before_nul bs in if b == 0 then [] else b ∷ rest

unfoldable pub take_image : Bytes → ℕ → ℕ → ℕ → ℕ → Parsed (Bytes × ℕ)
take_image payload offset data_length storage_length max_image_bytes = do
  refuse (ltb storage_length data_length) bad_image_lengths
  refuse (ltb max_image_bytes data_length) image_too_long
  refuse (ltb (length payload) (offset + storage_length)) truncated_image
  ok (take data_length (drop offset payload), offset + storage_length)

-- `virtual_length or data_length`
abbrev pub storage_length : IpcItem → ℕ
storage_length i = if i.jpeg_vir_len == 0 then i.jpeg_len else i.jpeg_vir_len

abbrev pub warn_if : Bool → Warning → List Warning
warn_if true w = w ∷ []
warn_if false w = []

abbrev pub is_none : {A : Type 0} → Option A → Bool
is_none none = true
is_none (some a) = false

abbrev pub is_blank : String → Bool
is_blank s = str_eq s ""

module _ (native : Natives) where
  unfoldable pub decode_plate : Bytes → ℕ → Parsed String
  unfolding before_nul
  decode_plate raw declared_count = do
    refuse (ltb (length raw) declared_count) bad_char_count
    elim (native.decode
        (before_nul (if declared_count == 0 then before_nul raw else take declared_count raw))) [
          | none ↦ err bad_utf8
          | some text ↦ ok (native.strip text)
        ]

  -- The loop over the items, each with the image after it, and the offset after the last.
  unfoldable pub read_items : ℕ → ℕ → Bytes → ℕ → Parsed (List (IpcItem × Bytes) × ℕ)
  unfolding read_structure take_image
  read_items max_image_bytes zero payload offset = ok ([], offset)
  read_items max_image_bytes (suc count) payload offset = do
    (item, start) ← read_structure native.item_size native.item payload offset
    (image, end) ← take_image payload start item.jpeg_len (storage_length item) max_image_bytes
    (items, last) ← read_items max_image_bytes count payload end
    ok ((item, image) ∷ items, last)
