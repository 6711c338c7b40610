-- ===== src/Plates/Parse/Ipc.antt =====
-- `parse_ipc_plate_payload` of device_sdk/plate_events.py: one callback of a camera, one event per
-- plate.
use pytvt.Prelude.{
  ℕ, ◌+◌, String, Bool, false, not, ◌&&◌, ◌||◌, Option, none, some, List, [], ◌∷◌, ◌++◌, ltb, ◌==◌,
  if◌then◌else◌, length, is_empty,
}
use pytvt.Prelude.Bytes.{Bytes, take}
use pytvt.Prelude.Int.{ℤ, pos}
use pytvt.Plates.{
  PlateEvent, ipc, ImageFormat, Warning, trailing_payload_bytes, multiple_full_images,
  plate_count_mismatch, plate_text_missing, full_image_missing, plate_image_missing,
}
use pytvt.Plates.Parse.{
  payload_too_long, bad_item_count, bad_plate_count, no_metadata_item, Parsed, ok, ◌>>=◌, ◌>>◌,
  refuse, read_structure, decode_plate, read_items, warn_if, is_none, is_blank,
}
use pytvt.Plates.Vendor.{
  IpcItem, Natives, direction, image_format, edge_match, vehicle_color_of, ipc_plate_color,
  vehicle_type_of, percent_confidence,
}

-- What the callback's items have in common.
pub record Shared : Type 0 where
  pub user_id : ℤ
  pub channel_id : ℤ
  pub received_at : ℕ
  pub full_image : Option Bytes
  pub full_image_format : Option ImageFormat
  pub warnings : List Warning

abbrev pub max_plates_per_callback : ℕ
max_plates_per_callback = 32

-- The warnings before that of the confidence.
abbrev pub event_warnings : Shared → String → Option Bytes → List Warning
event_warnings shared plate plate_image =
    shared.warnings
    ++ warn_if (is_blank plate) plate_text_missing
    ++ warn_if (is_none shared.full_image) full_image_missing
    ++ warn_if (is_none plate_image) plate_image_missing

-- `min(plateCharCount, len(plateCharConfid))` is the end of the slice, as `take` has it.
unfoldable pub event_of : Shared → IpcItem → Option Bytes → String → PlateEvent
event_of shared item plate_image plate =
    let checked =
      percent_confidence false item.plate_confidence (event_warnings shared plate plate_image) in
    record {
      user_id = shared.user_id;
      channel_id = shared.channel_id;
      source = ipc;
      received_at = shared.received_at;
      occurred_at = none;
      source_event_id = item.plate_id;
      plate = plate;
      declared_plate_char_count = some item.plate_char_count;
      source_encryption_version = none;
      confidence = checked.0;
      char_confidences = take item.plate_char_count item.plate_char_confid;
      direction = direction item.vehicle_direct;
      plate_rect =
          some (
            item.pt_left_top.0, item.pt_left_top.1, item.pt_right_bottom.0, item.pt_right_bottom.1,
          );
      plate_size = some (pos item.plate_width, pos item.plate_height);
      channel_guid = none;
      edge_match = edge_match item.list_type;
      edge_match_code = some item.list_type;
      plate_color = ipc_plate_color item.plate_color;
      plate_color_code = some item.plate_color;
      plate_brightness = some item.plate_intensity;
      plate_color_confidence = some item.plate_color_rate;
      vehicle_type = vehicle_type_of item.plate_style;
      vehicle_type_code = some item.plate_style;
      vehicle_color = vehicle_color_of item.vehicle_color;
      vehicle_color_code = some item.vehicle_color;
      vehicle_brand_code = none;
      source_end_at = none;
      full_image = shared.full_image;
      plate_image = plate_image;
      full_image_format = shared.full_image_format;
      plate_image_format = some (image_format (pos item.data_type));
      full_image_size =
          if ltb 0 item.pt_width && ltb 0 item.pt_height
          then some (pos item.pt_width, pos item.pt_height)
          else none;
      is_partial = not (is_empty checked.1);
      warnings = checked.1;
    }

-- The items with their images whose `image_type` is `kind`.
abbrev pub of_type : ℕ → List (IpcItem × Bytes) → List (IpcItem × Bytes)
of_type kind [] = []
of_type kind ((item, image) ∷ rest) =
    if item.image_type == kind then (item, image) ∷ of_type kind rest else of_type kind rest

abbrev pub with_image : List (IpcItem × Bytes) → List (IpcItem × Option Bytes)
with_image [] = []
with_image ((item, image) ∷ rest) = (item, some image) ∷ with_image rest

-- The items that become events, of the plates' and the full images' items.
unfoldable pub picked :
    List (IpcItem × Bytes) → List (IpcItem × Bytes) → List (IpcItem × Option Bytes)
picked [] [] = []
picked [] ((item, _) ∷ _) = (item, none) ∷ []
picked (plate ∷ plates) full = with_image (plate ∷ plates)

unfoldable pub event_items : List (IpcItem × Bytes) → List (IpcItem × Option Bytes)
unfolding picked
event_items parsed = picked (of_type 1 parsed) (of_type 0 parsed)

abbrev pub first_image : List (IpcItem × Bytes) → Option Bytes
first_image [] = none
first_image ((_, image) ∷ _) = some image

abbrev pub first_format : List (IpcItem × Bytes) → Option ImageFormat
first_format [] = none
first_format ((item, _) ∷ _) = some (image_format (pos item.data_type))

-- What the events share, and the warnings of the whole callback.
unfoldable pub shared_of : ℤ → ℤ → ℕ → Bool → ℕ → List (IpcItem × Bytes) → Shared
shared_of user_id channel_id received_at trailing plate_count parsed = record {
  user_id = user_id;
  channel_id = channel_id;
  received_at = received_at;
  full_image = first_image (of_type 0 parsed);
  full_image_format = first_format (of_type 0 parsed);
  warnings =
      warn_if trailing trailing_payload_bytes
      ++ warn_if (ltb 1 (length (of_type 0 parsed))) multiple_full_images
      ++ warn_if (not (plate_count == length (of_type 1 parsed))) plate_count_mismatch;
}

module _ (native : Natives) where
  unfoldable pub ipc_event : Shared → IpcItem → Option Bytes → Parsed PlateEvent
  unfolding event_of
  ipc_event shared item plate_image = do
    plate ← decode_plate native item.plate item.plate_char_count
    ok (event_of shared item plate_image plate)

  unfoldable pub ipc_events : Shared → List (IpcItem × Option Bytes) → Parsed (List PlateEvent)
  unfolding ipc_event
  ipc_events shared [] = ok []
  ipc_events shared ((item, plate_image) ∷ rest) = do
    event ← ipc_event shared item plate_image
    events ← ipc_events shared rest
    ok (event ∷ events)

  unfoldable pub parse_ipc_plate_payload : ℕ → ℕ → ℤ → ℤ → ℕ → Bytes → Parsed (List PlateEvent)
  unfolding ipc_events event_items shared_of
  parse_ipc_plate_payload max_payload_bytes max_image_bytes user_id channel_id received_at payload =
      do
        refuse (ltb max_payload_bytes (length payload)) payload_too_long
        (head, start) ← read_structure native.head_size native.head payload 0
        refuse (ltb head.item_cnt 1 || ltb (max_plates_per_callback + 1) head.item_cnt)
            bad_item_count
        refuse (ltb max_plates_per_callback head.plate_cnt) bad_plate_count
        (parsed, offset) ← read_items native max_image_bytes head.item_cnt payload start
        refuse (is_empty (event_items parsed)) no_metadata_item
        ipc_events
            (shared_of user_id channel_id received_at (not (offset == length payload))
              head.plate_cnt parsed)
            (event_items parsed)
