-- ===== src/Plates.antt =====
-- License-plate events of recorders and cameras (device_sdk/plate_events.py): the typed event and
-- its vocabularies.
pub mod Stream
pub mod Vendor
pub mod Parse
pub mod Ingest
use pytvt.Prelude.{ℕ, ◌+◌, String, Bool, Option, none, some, List, length}
use pytvt.Prelude.Int.{ℤ}
use pytvt.Prelude.Bytes.{Bytes}

pub data PlateSource : Type 0 where
  ipc nvr : PlateSource

pub data VehicleDirection : Type 0 where
  unknown approaching leaving : VehicleDirection

pub data ImageFormat : Type 0 where
  jpeg yuv unknown : ImageFormat

pub data EdgePlateMatch : Type 0 where
  unmatched stranger allowlist denylist custom unknown : EdgePlateMatch

pub data PlateColor : Type 0 where
  unknown blue black yellow white green green_black red orange cyan purple gray : PlateColor

pub data VehicleColor : Type 0 where
  unknown red orange yellow green blue cyan purple black white silver gray gold brown : VehicleColor

pub data VehicleType : Type 0 where
  unknown sedan suv mpv sports_car van bus school_bus public_bus light_passenger pickup truck :
      VehicleType
  special : VehicleType

pub data DropPolicy : Type 0 where
  drop_oldest drop_newest : DropPolicy

-- The names of the warnings that a parser attaches to an event.
pub data Warning : Type 0 where
  trailing_payload_bytes multiple_full_images plate_count_mismatch plate_text_missing : Warning
  full_image_missing plate_image_missing picture_descriptor_missing picture_data_missing : Warning
  plate_confidence_out_of_range : Warning
  target_image_missing vehicle_brand_invalid_utf8 vehicle_model_invalid_utf8 : Warning

-- Times are numbers of the clock, and `source_event_id` the number whose text the code keeps. The
-- fields that one of the two parsers leaves at their default are
-- optional or have the value that it leaves.
pub record PlateEvent : Type 0 where
  pub user_id : ℤ
  pub channel_id : ℤ
  pub source : PlateSource
  pub received_at : ℕ
  pub occurred_at : Option ℕ
  pub source_event_id : ℕ
  pub plate : String
  pub declared_plate_char_count : Option ℕ
  pub source_encryption_version : Option ℕ
  pub confidence : Option ℕ
  pub char_confidences : List ℕ
  pub direction : VehicleDirection
  pub plate_rect : Option (ℤ × ℤ × ℤ × ℤ)
  pub plate_size : Option (ℤ × ℤ)
  pub channel_guid : Option String
  pub edge_match : EdgePlateMatch
  pub edge_match_code : Option ℤ
  pub plate_color : PlateColor
  pub plate_color_code : Option ℕ
  pub plate_brightness : Option ℕ
  pub plate_color_confidence : Option ℕ
  pub vehicle_type : VehicleType
  pub vehicle_type_code : Option ℕ
  pub vehicle_color : VehicleColor
  pub vehicle_color_code : Option ℕ
  pub vehicle_brand_code : Option ℕ
  pub source_end_at : Option ℕ
  pub full_image : Option Bytes
  pub plate_image : Option Bytes
  pub full_image_format : Option ImageFormat
  pub plate_image_format : Option ImageFormat
  pub full_image_size : Option (ℤ × ℤ)
  pub is_partial : Bool
  pub warnings : List Warning

-- `len(image or b"")`
unfoldable pub image_bytes : Option Bytes → ℕ
image_bytes none = 0
image_bytes (some b) = length b

-- `len(event.full_image or b"") + len(event.plate_image or b"")`
unfoldable pub event_bytes : PlateEvent → ℕ
unfolding image_bytes
event_bytes e = image_bytes e.full_image + image_bytes e.plate_image
