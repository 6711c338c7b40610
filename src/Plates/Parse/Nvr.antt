-- ===== src/Plates/Parse/Nvr.antt =====
-- `parse_nvr_plate_payload` of device_sdk/plate_events.py: one callback of a recorder, one event.
use pytvt.Prelude.{
  ℕ, String, Bool, true, not, Option, none, some, List, [], ◌∷◌, ◌++◌, ltb, ◌==◌, if◌then◌else◌,
  length, is_empty,
}
use pytvt.Prelude.Bytes.{Bytes}
use pytvt.Prelude.Int.{ℤ, pos, negsuc}
use pytvt.Plates.{
  PlateEvent, nvr, VehicleDirection, Warning, trailing_payload_bytes, plate_text_missing,
  picture_descriptor_missing, picture_data_missing,
}
use pytvt.Plates.Parse.{
  payload_too_long, negative_picture_size, Parsed, ok, err, ◌>>=◌, ◌>>◌, refuse, read_structure,
  take_image, decode_plate, warn_if, is_blank,
}
use pytvt.Plates.Vendor.{
  NvrPlateInfo, Natives, picture_format, has_trailing_payload_bytes, edge_match, vehicle_color_of,
  nvr_plate_color, vehicle_type_of, percent_confidence,
}

-- The five results of `_optional_picture`; the warning is a list of at most one.
pub record Picture : Type 0 where
  pub image : Option Bytes
  pub code : Option ℤ
  pub size : Option (ℤ × ℤ)
  pub end : ℕ
  pub warning : List Warning

-- The part of `_optional_picture` after the sign of the size is known.
unfoldable pub picture_of_size : Bytes → ℕ → ℕ → ℤ → ℤ × ℤ → ℤ → Parsed Picture
picture_of_size payload data_offset max_image_bytes code size (negsuc n) = err negative_picture_size
picture_of_size payload data_offset max_image_bytes code size (pos n) =
    if n == 0
    then ok (record {
      image = none;
      code = some code;
      size = some size;
      end = data_offset;
      warning = picture_data_missing ∷ [];
    })
    else do
      (image, end) ← take_image payload data_offset n n max_image_bytes
      ok (record {
        image = some image;
        code = some code;
        size = some size;
        end = end;
        warning = [];
      })

module _ (native : Natives) where
  unfoldable pub optional_picture : Bytes → ℕ → ℕ → Parsed Picture
  unfolding picture_of_size
  optional_picture payload offset max_image_bytes =
      if offset == length payload
      then ok (record {
        image = none;
        code = none;
        size = none;
        end = offset;
        warning = picture_descriptor_missing ∷ [];
      })
      else do
        (info, data_offset) ← read_structure native.picture_size native.picture payload offset
        picture_of_size payload data_offset max_image_bytes info.pic_format
            (info.width, info.height) info.pic_size

  abbrev pub from_epoch_seconds : ℕ → Option ℕ
  from_epoch_seconds value = if value == 0 then none else native.from_timestamp value

  unfoldable pub nvr_event :
      ℤ → ℤ → ℕ → NvrPlateInfo → Picture → Picture → Bool → String → PlateEvent
  nvr_event user_id channel_id received_at info full plate_picture trailing plate =
      let checked = percent_confidence true info.plate_confidence (
        full.warning
        ++ plate_picture.warning
        ++ warn_if trailing trailing_payload_bytes
        ++ warn_if (is_blank plate) plate_text_missing) in
      record {
        user_id = user_id;
        channel_id = channel_id;
        source = nvr;
        received_at = received_at;
        occurred_at = from_epoch_seconds info.start_time;
        source_event_id = info.plate_id;
        plate = plate;
        declared_plate_char_count = some info.plate_char_count;
        source_encryption_version = some info.encrypt_ver;
        confidence = checked.0;
        char_confidences = [];
        direction = VehicleDirection.unknown;
        plate_rect = some info.rect;
        plate_size = plate_picture.size;
        channel_guid = some info.channel_guid;
        edge_match = edge_match info.list_type;
        edge_match_code = some info.list_type;
        plate_color = nvr_plate_color info.plate_color;
        plate_color_code = some info.plate_color;
        plate_brightness = some info.plate_intensity;
        plate_color_confidence = some info.plate_color_rate;
        vehicle_type = vehicle_type_of info.plate_style;
        vehicle_type_code = some info.plate_style;
        vehicle_color = vehicle_color_of info.vehicle_color;
        vehicle_color_code = some info.vehicle_color;
        vehicle_brand_code = some info.brand;
        source_end_at = from_epoch_seconds info.end_time;
        full_image = full.image;
        plate_image = plate_picture.image;
        full_image_format = picture_format full.code full.image;
        plate_image_format = picture_format plate_picture.code plate_picture.image;
        full_image_size = full.size;
        is_partial = not (is_empty checked.1);
        warnings = checked.1;
      }

  unfoldable pub parse_nvr_plate_payload : ℕ → ℕ → ℤ → ℤ → ℕ → Bytes → Parsed PlateEvent
  unfolding optional_picture nvr_event
  parse_nvr_plate_payload max_payload_bytes max_image_bytes user_id channel_id received_at payload =
      do
        refuse (ltb max_payload_bytes (length payload)) payload_too_long
        (info, start) ← read_structure native.info_size native.info payload 0
        full ← optional_picture payload start max_image_bytes
        plate_picture ← optional_picture payload full.end max_image_bytes
        plate ← decode_plate native info.plate info.plate_char_count
        ok (
            nvr_event user_id channel_id received_at info full plate_picture
              (has_trailing_payload_bytes payload plate_picture.end) plate)
