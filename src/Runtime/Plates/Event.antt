-- ===== src/Runtime/Plates/Event.antt =====
-- The plate event in an answer of the runtime (`_parse_plate_event` of runtime_client.py).
use pytvt.Prelude.{ℕ, String, Bool, Option, some, List, [], ◌∷◌, ◌==◌, length}
use pytvt.Prelude.Json.{Json, Members, require}
use pytvt.Runtime.{RuntimeLibraries}
use pytvt.Runtime.Plates.{
  ◌>>=◌, ◌>>◌, ensure, required_nonnegative_int, optional_value, the_object, the_list, the_text,
  the_flag, text_within, number_within, parse_all, number_at, enum_text,
}

abbrev pub source_values : List String
source_values = "ipc" ∷ "nvr" ∷ []

abbrev pub direction_values : List String
direction_values = "unknown" ∷ "approaching" ∷ "leaving" ∷ []

abbrev pub format_values : List String
format_values = "jpeg" ∷ "yuv" ∷ "unknown" ∷ []

abbrev pub match_values : List String
match_values = "unmatched" ∷ "stranger" ∷ "allowlist" ∷ "denylist" ∷ "custom" ∷ "unknown" ∷ []

abbrev pub plate_color_values : List String
plate_color_values =
    "unknown" ∷ "blue" ∷ "black" ∷ "yellow" ∷ "white" ∷ "green" ∷ "green_black" ∷ "red" ∷ "orange"
    ∷ "cyan" ∷ "purple" ∷ "gray" ∷ []

abbrev pub vehicle_color_values : List String
vehicle_color_values =
    "unknown" ∷ "red" ∷ "orange" ∷ "yellow" ∷ "green" ∷ "blue" ∷ "cyan" ∷ "purple" ∷ "black"
    ∷ "white" ∷ "silver" ∷ "gray" ∷ "gold" ∷ "brown" ∷ []

abbrev pub vehicle_type_values : List String
vehicle_type_values =
    "unknown" ∷ "sedan" ∷ "suv" ∷ "mpv" ∷ "sports_car" ∷ "van" ∷ "bus" ∷ "school_bus" ∷ "public_bus"
    ∷ "light_passenger" ∷ "pickup" ∷ "truck" ∷ "special" ∷ []

-- `_optional_int_tuple`
abbrev pub int_tuple : ℕ → Json → Option (List ℕ)
int_tuple n v = do
  values ← the_list v
  ensure (length values == n)
  parse_all required_nonnegative_int values

-- `PlateEvent` as `_parse_plate_event` makes it: times and values of enumerations as their texts.
pub record RuntimePlateEvent : Type 0 where
  pub user_id : ℕ
  pub channel_id : ℕ
  pub source : String
  pub received_at : String
  pub occurred_at : Option String
  pub source_event_id : String
  pub plate : String
  pub declared_plate_char_count : Option ℕ
  pub source_encryption_version : Option ℕ
  pub confidence : Option ℕ
  pub char_confidences : List ℕ
  pub direction : String
  pub plate_rect : Option (List ℕ)
  pub plate_size : Option (List ℕ)
  pub channel_guid : Option String
  pub edge_match : String
  pub edge_match_code : Option ℕ
  pub plate_color : String
  pub plate_color_code : Option ℕ
  pub plate_brightness : Option ℕ
  pub plate_color_confidence : Option ℕ
  pub vehicle_type : String
  pub vehicle_type_code : Option ℕ
  pub vehicle_color : String
  pub vehicle_color_code : Option ℕ
  pub vehicle_brand_code : Option ℕ
  pub source_end_at : Option String
  pub full_image : Option (List ℕ)
  pub plate_image : Option (List ℕ)
  pub full_image_format : Option String
  pub plate_image_format : Option String
  pub full_image_size : Option (List ℕ)
  pub is_partial : Bool
  pub warnings : List String

abbrev pub texts_at : ℕ → String → Members → Option (List String)
texts_at n k d = require k d >>= the_list >>= parse_all (text_within n)

abbrev pub enum_at : List String → String → Members → Option String
enum_at values k d = require k d >>= enum_text values

abbrev pub optional_number : String → Members → Option (Option ℕ)
optional_number k d = require k d >>= optional_value required_nonnegative_int

abbrev pub optional_tuple : ℕ → String → Members → Option (Option (List ℕ))
optional_tuple n k d = require k d >>= optional_value (int_tuple n)

abbrev pub optional_format : String → Members → Option (Option String)
optional_format k d = require k d >>= optional_value (enum_text format_values)

module _ (lib : RuntimeLibraries) where
  -- `_aware_datetime`
  abbrev pub aware_time : Json → Option String
  aware_time v = do s ← the_text v; ensure (lib.aware_datetime s); some s

  -- `_optional_base64`
  abbrev pub optional_image : String → Members → Option (Option (List ℕ))
  optional_image k d = require k d >>= optional_value (λ v. the_text v >>= lib.b64_decoded)

  -- `_parse_plate_event`
  unfoldable pub parse_plate_event : Json → Option RuntimePlateEvent
  parse_plate_event v = do
    d ← the_object v
    warnings_of ← texts_at 200 "warnings" d
    confidences ← require "char_confidences" d >>= the_list >>= parse_all (number_within 100)
    plate_text ← require "plate" d >>= text_within 64
    event_id ← require "source_event_id" d >>= the_text
    guid ← require "channel_guid" d >>= optional_value (text_within 256)
    user ← number_at "user_id" d
    channel ← number_at "channel_id" d
    origin ← enum_at source_values "source" d
    received ← require "received_at" d >>= aware_time
    occurred ← require "occurred_at" d >>= optional_value aware_time
    char_count ← optional_number "declared_plate_char_count" d
    encryption ← optional_number "source_encryption_version" d
    certainty ← optional_number "confidence" d
    heading ← enum_at direction_values "direction" d
    rect ← optional_tuple 4 "plate_rect" d
    size ← optional_tuple 2 "plate_size" d
    edge ← enum_at match_values "edge_match" d
    edge_code ← optional_number "edge_match_code" d
    color ← enum_at plate_color_values "plate_color" d
    color_code ← optional_number "plate_color_code" d
    brightness ← optional_number "plate_brightness" d
    color_certainty ← optional_number "plate_color_confidence" d
    kind ← enum_at vehicle_type_values "vehicle_type" d
    kind_code ← optional_number "vehicle_type_code" d
    paint ← enum_at vehicle_color_values "vehicle_color" d
    paint_code ← optional_number "vehicle_color_code" d
    brand ← optional_number "vehicle_brand_code" d
    ended ← require "source_end_at" d >>= optional_value aware_time
    full ← optional_image "full_image_base64" d
    cut ← optional_image "plate_image_base64" d
    full_format ← optional_format "full_image_format" d
    cut_format ← optional_format "plate_image_format" d
    full_size ← optional_tuple 2 "full_image_size" d
    partial ← require "is_partial" d >>= the_flag
    some (record {
      user_id = user;
      channel_id = channel;
      source = origin;
      received_at = received;
      occurred_at = occurred;
      source_event_id = event_id;
      plate = plate_text;
      declared_plate_char_count = char_count;
      source_encryption_version = encryption;
      confidence = certainty;
      char_confidences = confidences;
      direction = heading;
      plate_rect = rect;
      plate_size = size;
      channel_guid = guid;
      edge_match = edge;
      edge_match_code = edge_code;
      plate_color = color;
      plate_color_code = color_code;
      plate_brightness = brightness;
      plate_color_confidence = color_certainty;
      vehicle_type = kind;
      vehicle_type_code = kind_code;
      vehicle_color = paint;
      vehicle_color_code = paint_code;
      vehicle_brand_code = brand;
      source_end_at = ended;
      full_image = full;
      plate_image = cut;
      full_image_format = full_format;
      plate_image_format = cut_format;
      full_image_size = full_size;
      is_partial = partial;
      warnings = warnings_of;
    })
