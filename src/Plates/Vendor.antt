-- ===== src/Plates/Vendor.antt =====
-- What the plate parsers of device_sdk/plate_events.py read: the fields of the native structures, and
-- the tables that turn vendor codes into the event's vocabularies.
use pytvt.Prelude.{
  ℕ, zero, suc, ◌+◌, ◌/◌, ◌%◌, String, Bool, true, false, ◌&&◌, Option, none, some, List, [], ◌∷◌,
  ◌++◌, leb, ltb, ◌==◌, if◌then◌else◌,
}
use pytvt.Prelude.Bytes.{Bytes, drop, starts_with}
use pytvt.Prelude.Int.{ℤ, pos, negsuc}
use pytvt.Plates.{
  VehicleDirection, approaching, leaving, ImageFormat, jpeg, yuv, EdgePlateMatch, unmatched,
  stranger, allowlist, denylist, custom, PlateColor, VehicleColor, VehicleType, Warning,
  plate_confidence_out_of_range,
}

-- The fields that the parsers use. An unsigned C field is a number, a signed one an integer; a
-- character array is the bytes that `ctypes` gives for it.
pub record IpcHead : Type 0 where
  pub item_cnt : ℕ
  pub plate_cnt : ℕ

pub record IpcItem : Type 0 where
  pub data_type : ℕ
  pub image_type : ℕ
  pub plate_id : ℕ
  pub plate_char_count : ℕ
  pub plate : Bytes
  pub plate_char_confid : List ℕ
  pub pt_width : ℕ
  pub pt_height : ℕ
  pub pt_left_top : ℤ × ℤ
  pub pt_right_bottom : ℤ × ℤ
  pub plate_width : ℕ
  pub plate_height : ℕ
  pub plate_confidence : ℕ
  pub plate_intensity : ℕ
  pub plate_color : ℕ
  pub plate_style : ℕ
  pub plate_color_rate : ℕ
  pub vehicle_color : ℕ
  pub jpeg_len : ℕ
  pub jpeg_vir_len : ℕ
  pub list_type : ℤ
  pub vehicle_direct : ℕ

pub record PictureInfo : Type 0 where
  pub width : ℤ
  pub height : ℤ
  pub pic_format : ℤ
  pub pic_size : ℤ

pub record NvrPlateInfo : Type 0 where
  pub plate_id : ℕ
  pub encrypt_ver : ℕ
  pub plate_char_count : ℕ
  pub plate : Bytes
  pub rect : ℤ × ℤ × ℤ × ℤ
  pub plate_confidence : ℕ
  pub plate_intensity : ℕ
  pub plate_color : ℕ
  pub plate_style : ℕ
  pub plate_color_rate : ℕ
  pub vehicle_color : ℕ
  pub brand : ℕ
  pub list_type : ℤ
  pub start_time : ℕ
  pub end_time : ℕ
  pub channel_guid : String

-- What `ctypes`, `bytes.decode`, `str.strip` and `datetime.fromtimestamp` do, where `none` is the
-- exception that the code catches.
pub record Natives : Type 0 where
  pub head_size : ℕ
  pub head : Bytes → IpcHead
  pub item_size : ℕ
  pub item : Bytes → IpcItem
  pub picture_size : ℕ
  pub picture : Bytes → PictureInfo
  pub info_size : ℕ
  pub info : Bytes → NvrPlateInfo
  pub decode : Bytes → Option String
  pub strip : String → String
  pub from_timestamp : ℕ → Option ℕ

pub direction : ℕ → VehicleDirection
direction value =
    if value == 2 then approaching else if value == 3 then leaving else VehicleDirection.unknown

pub image_format : ℤ → ImageFormat
image_format (pos value) =
    if value == 0 then jpeg else if value == 1 then yuv else ImageFormat.unknown
image_format (negsuc value) = ImageFormat.unknown

pub picture_format : Option ℤ → Option Bytes → Option ImageFormat
picture_format none image = none
picture_format (some code) none = some (image_format code)
picture_format (some code) (some image) =
    if starts_with (255 ∷ 216 ∷ []) image then some jpeg else some (image_format code)

abbrev any_set : Bytes → Bool
any_set [] = false
any_set (b ∷ bs) = let rest = any_set bs in if b == 0 then rest else true

-- `any(payload[offset:])`, which is false past the end.
unfoldable pub has_trailing_payload_bytes : Bytes → ℕ → Bool
has_trailing_payload_bytes payload offset = any_set (drop offset payload)

pub edge_match : ℤ → EdgePlateMatch
edge_match (negsuc value) = EdgePlateMatch.unknown
edge_match (pos value) =
    if value == 0
    then unmatched
    else if value == 1
    then stranger
    else if value == 2
    then allowlist
    else if value == 3
    then denylist
    else if leb value 24
    then custom
    else EdgePlateMatch.unknown

module _ {A : Type 0} where
  -- `items[i] if 0 <= i < len(items) else default`
  abbrev pub table_entry : A → List A → ℕ → A
  table_entry default [] i = default
  table_entry default (x ∷ xs) zero = x
  table_entry default (x ∷ xs) (suc i) = table_entry default xs i

pub vehicle_color_of : ℕ → VehicleColor
vehicle_color_of value =
    table_entry VehicleColor.unknown
      (VehicleColor.unknown ∷ VehicleColor.red ∷ VehicleColor.orange ∷ VehicleColor.yellow
        ∷ VehicleColor.green ∷ VehicleColor.blue ∷ VehicleColor.cyan ∷ VehicleColor.purple
        ∷ VehicleColor.black ∷ VehicleColor.white ∷ VehicleColor.silver ∷ VehicleColor.gray
        ∷ VehicleColor.gold ∷ VehicleColor.brown ∷ [])
      value

pub ipc_plate_color : ℕ → PlateColor
ipc_plate_color value =
    table_entry PlateColor.unknown
      (PlateColor.unknown ∷ PlateColor.blue ∷ PlateColor.yellow ∷ PlateColor.white
        ∷ PlateColor.black ∷ PlateColor.green ∷ PlateColor.green_black ∷ PlateColor.red
        ∷ PlateColor.orange ∷ PlateColor.cyan ∷ PlateColor.purple ∷ PlateColor.gray ∷ [])
      value

pub nvr_plate_color : ℕ → PlateColor
nvr_plate_color value =
    table_entry PlateColor.unknown
      (PlateColor.unknown ∷ PlateColor.blue ∷ PlateColor.black ∷ PlateColor.yellow
        ∷ PlateColor.white ∷ PlateColor.green ∷ PlateColor.red ∷ PlateColor.gray ∷ PlateColor.purple
        ∷ [])
      value

pub vehicle_type_of : ℕ → VehicleType
vehicle_type_of value =
    table_entry VehicleType.unknown
      (VehicleType.unknown ∷ VehicleType.sedan ∷ VehicleType.suv ∷ VehicleType.mpv
        ∷ VehicleType.sports_car ∷ VehicleType.van ∷ VehicleType.bus ∷ VehicleType.school_bus
        ∷ VehicleType.public_bus ∷ VehicleType.light_passenger ∷ VehicleType.pickup
        ∷ VehicleType.truck ∷ VehicleType.special ∷ [])
      value

-- `round(value / 100)`, which takes a half to the even neighbour.
unfoldable pub round_percent : ℕ → ℕ
round_percent value =
    let q = value / 100 in
    let r = value % 100 in if ltb r 50 then q else if ltb 50 r then q + 1 else q + q % 2

-- The confidence with the warnings after it.
unfoldable pub percent_confidence : Bool → ℕ → List Warning → Option ℕ × List Warning
unfolding round_percent
percent_confidence allow_basis_points value warnings =
    if leb value 100
    then (some value, warnings)
    else if allow_basis_points && leb value 10000
    then (some (round_percent value), warnings)
    else (none, warnings ++ plate_confidence_out_of_range ∷ [])
