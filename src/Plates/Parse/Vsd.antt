-- ===== src/Plates/Parse/Vsd.antt =====
-- `parse_vsd_vehicle_payload` of device_sdk/plate_events.py: the car targets of one callback of
-- structured video data.
use pytvt.Prelude.{
  ℕ, zero, suc, ◌+◌, String, Bool, not, ◌&&◌, Option, none, some, List, [], ◌∷◌, ◌++◌, leb, ltb,
  ◌==◌, if◌then◌else◌, length, is_empty,
}
use pytvt.Prelude.Bytes.{Bytes}
use pytvt.Prelude.Int.{ℤ}
use pytvt.Plates.{
  ImageFormat, VehicleColor, VehicleType, Warning, target_image_missing, vehicle_brand_invalid_utf8,
  vehicle_model_invalid_utf8,
}
use pytvt.Plates.Parse.{
  payload_too_long, bad_target_count, trailing_bytes, Parsed, ok, ◌>>=◌, ◌>>◌, refuse,
  read_structure, before_nul, take_image, warn_if,
}
use pytvt.Plates.Parse.Nvr.{Picture, optional_picture}
use pytvt.Plates.Vendor.{Natives, image_format, vehicle_color_of, vehicle_type_of}

-- The fields that the parser uses; all but the sizes and the format are unsigned.
pub record VsdHead : Type 0 where
  pub target_count : ℕ
  pub channel : ℕ
  pub relative_tick : ℕ

pub record VsdTarget : Type 0 where
  pub target_id : ℕ
  pub target_type : ℕ
  pub data_len : ℕ
  pub rect : ℕ × ℕ × ℕ × ℕ
  pub width : ℤ
  pub height : ℤ
  pub pic_format : ℤ
  pub color : ℕ
  pub year : ℕ
  pub car_type : ℕ
  pub brand : Bytes
  pub model : Bytes
  pub brand_type : ℕ
  pub model_type : ℕ

-- What `ctypes` does for the two structures.
pub record VsdNatives : Type 0 where
  pub head_size : ℕ
  pub head : Bytes → VsdHead
  pub target_size : ℕ
  pub target : Bytes → VsdTarget

pub record VehicleMetadataEvent : Type 0 where
  pub user_id : ℤ
  pub channel_id : ℕ
  pub received_at : ℕ
  pub relative_tick : ℕ
  pub target_id : ℕ
  pub target_rect : ℕ × ℕ × ℕ × ℕ
  pub vehicle_color : VehicleColor
  pub vehicle_color_code : ℕ
  pub vehicle_year : Option ℕ
  pub vehicle_year_code : ℕ
  pub vehicle_type : VehicleType
  pub vehicle_type_code : ℕ
  pub vehicle_brand : String
  pub vehicle_model : String
  pub vehicle_brand_code : ℕ
  pub vehicle_model_code : ℕ
  pub full_image : Option Bytes
  pub target_image : Option Bytes
  pub full_image_format : Option ImageFormat
  pub target_image_format : ImageFormat
  pub full_image_size : Option (ℤ × ℤ)
  pub target_image_size : ℤ × ℤ
  pub is_partial : Bool
  pub warnings : List Warning

abbrev pub max_vsd_targets_per_callback : ℕ
max_vsd_targets_per_callback = 64

abbrev pub vsd_target_car : ℕ
vsd_target_car = 2

pub vehicle_year_of : ℕ → Option ℕ
vehicle_year_of value = if leb 1 value && leb value 11 then some (value + 2007) else none

-- The text with the warning that it may add.
abbrev pub vsd_text : (String → String) → Warning → Option String → String × List Warning
vsd_text strip w none = ("", w ∷ [])
vsd_text strip w (some text) = (strip text, [])

-- `target_image or None`
abbrev pub or_no_image : Bytes → Option Bytes
or_no_image [] = none
or_no_image (b ∷ bs) = some (b ∷ bs)

abbrev pub format_of_code : Option ℤ → Option ImageFormat
format_of_code none = none
format_of_code (some code) = some (image_format code)

module _ (native : Natives) (vsd : VsdNatives) where
  abbrev pub decode_vsd_text : Warning → Bytes → String × List Warning
  decode_vsd_text w raw = vsd_text native.strip w (native.decode (before_nul raw))

  -- `dwChannel` is unsigned, so its test for a negative number always takes it.
  unfoldable pub vsd_event : ℤ → ℕ → VsdHead → Picture → VsdTarget → Bytes → VehicleMetadataEvent
  vsd_event user_id received_at head full target image =
      let brand = decode_vsd_text vehicle_brand_invalid_utf8 target.brand in
      let model = decode_vsd_text vehicle_model_invalid_utf8 target.model in
      let warnings =
        full.warning ++ warn_if (is_empty image) target_image_missing ++ brand.1 ++ model.1 in
      record {
        user_id = user_id;
        channel_id = head.channel;
        received_at = received_at;
        relative_tick = head.relative_tick;
        target_id = target.target_id;
        target_rect = target.rect;
        vehicle_color = vehicle_color_of target.color;
        vehicle_color_code = target.color;
        vehicle_year = vehicle_year_of target.year;
        vehicle_year_code = target.year;
        vehicle_type = vehicle_type_of target.car_type;
        vehicle_type_code = target.car_type;
        vehicle_brand = brand.0;
        vehicle_model = model.0;
        vehicle_brand_code = target.brand_type;
        vehicle_model_code = target.model_type;
        full_image = full.image;
        target_image = or_no_image image;
        full_image_format = format_of_code full.code;
        target_image_format = image_format target.pic_format;
        full_image_size = full.size;
        target_image_size = (target.width, target.height);
        is_partial = not (is_empty warnings);
        warnings = warnings;
      }

  -- The loop over the targets, with the offset after the last.
  unfoldable pub read_targets :
      ℕ
      → (VsdTarget → Bytes → VehicleMetadataEvent)
      → ℕ
      → Bytes
      → ℕ
      → Parsed (List VehicleMetadataEvent × ℕ)
  read_targets max_image_bytes make zero payload offset = ok ([], offset)
  read_targets max_image_bytes make (suc count) payload offset = do
    (target, start) ← read_structure vsd.target_size vsd.target payload offset
    (image, end) ← take_image payload start target.data_len target.data_len max_image_bytes
    (events, last) ← read_targets max_image_bytes make count payload end
    ok (if target.target_type == vsd_target_car then make target image ∷ events else events, last)

  unfoldable pub parse_vsd_vehicle_payload :
      ℕ → ℕ → ℤ → ℕ → Bytes → Parsed (List VehicleMetadataEvent)
  parse_vsd_vehicle_payload max_payload_bytes max_image_bytes user_id received_at payload = do
    refuse (ltb max_payload_bytes (length payload)) payload_too_long
    (head, start) ← read_structure vsd.head_size vsd.head payload 0
    refuse (ltb max_vsd_targets_per_callback head.target_count) bad_target_count
    full ← optional_picture native payload start max_image_bytes
    (events, offset) ←
        read_targets max_image_bytes (vsd_event user_id received_at head full) head.target_count
          payload full.end
    refuse (not (offset == length payload)) trailing_bytes
    ok events
