-- ===== src/Tests/PlateParses.antt =====
-- Plate callbacks at concrete inputs, with small structures in place of the native ones.
use pytvt.Plates.{PlateEvent, picture_data_missing}
use pytvt.Plates.Ingest.{Callback, vehicle, ingest-Reach, after_ingest}
use pytvt.Plates.Parse.{ok, err, read_structure, take_image, decode_plate, before_nul, read_items}
use pytvt.Plates.Parse.Fit.{Fits, ipc_events_fit}
use pytvt.Plates.Parse.Ipc.{
  parse_ipc_plate_payload, ipc_events, ipc_event, event_of, picked, event_items, shared_of,
  max_plates_per_callback,
}
use pytvt.Plates.Parse.Nvr.{nvr_event}
use pytvt.Plates.Parse.Written.{Written, IsWritten, write_items, read_items-write_items}
use pytvt.Plates.Stream.Steps.{start, Reach, here}
use pytvt.Plates.Vendor.{
  IpcHead, IpcItem, PictureInfo, NvrPlateInfo, Natives, percent_confidence, round_percent,
}
use pytvt.Prelude.{
  ℕ, ◌+◌, ◌≤◌, ◌≡◌, refl, false, none, some, List, [], ◌∷◌, ◌++◌, map, length, All, arith,
}
use pytvt.Prelude.Bytes.{Bytes}
use pytvt.Prelude.Int.{pos}
use pytvt.Tests.PlateRuns.{two_places}

-- An item of two bytes: the kind of its image and the image's length.
abbrev small_item : ℕ → ℕ → IpcItem
small_item kind size = record {
  data_type = 0;
  image_type = kind;
  plate_id = 7;
  plate_char_count = 2;
  plate = 65 ∷ 66 ∷ [];
  plate_char_confid = 90 ∷ 80 ∷ [];
  pt_width = 4;
  pt_height = 3;
  pt_left_top = (pos 0, pos 0);
  pt_right_bottom = (pos 2, pos 1);
  plate_width = 2;
  plate_height = 1;
  plate_confidence = 95;
  plate_intensity = 5;
  plate_color = 1;
  plate_style = 1;
  plate_color_rate = 50;
  vehicle_color = 9;
  jpeg_len = size;
  jpeg_vir_len = 3;
  list_type = pos 2;
  vehicle_direct = 2;
}

abbrev item_at : Bytes → IpcItem
item_at (kind ∷ size ∷ _) = small_item kind size
item_at _ = small_item 0 0

abbrev head_at : Bytes → IpcHead
head_at (items ∷ plates ∷ _) = record { item_cnt = items; plate_cnt = plates }
head_at _ = record { item_cnt = 0; plate_cnt = 0 }

abbrev picture_at : Bytes → PictureInfo
picture_at (n ∷ _) = record { width = pos 4; height = pos 3; pic_format = pos 1; pic_size = pos n }
picture_at [] = record { width = pos 0; height = pos 0; pic_format = pos 0; pic_size = pos 0 }

abbrev info_at : Bytes → NvrPlateInfo
info_at _ = record {
  plate_id = 9;
  encrypt_ver = 0;
  plate_char_count = 2;
  plate = 65 ∷ 66 ∷ [];
  rect = (pos 0, pos 0, pos 2, pos 1);
  plate_confidence = 9950;
  plate_intensity = 5;
  plate_color = 2;
  plate_style = 1;
  plate_color_rate = 50;
  vehicle_color = 9;
  brand = 1;
  list_type = pos 1;
  start_time = 100;
  end_time = 0;
  channel_guid = "guid";
}

abbrev pub small : Natives
small = record {
  head_size = 2;
  head = head_at;
  item_size = 2;
  item = item_at;
  picture_size = 1;
  picture = picture_at;
  info_size = 1;
  info = info_at;
  decode = λ b. some "AB";
  strip = λ t. t;
  from_timestamp = λ t. some t;
}

-- One plate item and one full image, each with three bytes of storage.
abbrev car : Bytes
car = 2 ∷ 1 ∷ 0 ∷ 2 ∷ 255 ∷ 216 ∷ 0 ∷ 1 ∷ 1 ∷ 7 ∷ 0 ∷ 0 ∷ []

abbrev car_events : List PlateEvent
car_events = elim (parse_ipc_plate_payload small 100 10 (pos 1) (pos 0) 5 car) [
  | ok es ↦ es
  | err _ ↦ []
]

ipc_events_fit_example :
    All (Fits 10) car_events
    × (1 ≤ length car_events)
    × (length car_events ≤ max_plates_per_callback + 1)
unfolding parse_ipc_plate_payload ipc_events ipc_event event_of picked event_items shared_of
    read_items read_structure take_image decode_plate before_nul
ipc_events_fit_example = ipc_events_fit small 100 10 (pos 1) (pos 0) 5 car car_events refl

abbrev seen : Bytes
seen = 0 ∷ 2 ∷ 255 ∷ 216 ∷ 0 ∷ []

abbrev seen_event : PlateEvent
seen_event =
    nvr_event small (pos 1) (pos 0) 5 (info_at seen)
      (record {
        image = some (255 ∷ 216 ∷ []);
        code = some (pos 1);
        size = some (pos 4, pos 3);
        end = 4;
        warning = [];
      })
      (record {
        image = none;
        code = some (pos 1);
        size = some (pos 4, pos 3);
        end = 5;
        warning = picture_data_missing ∷ [];
      })
      false "AB"

-- The recorder's basis points fold to a percentage, a half to the even side.
seen_confidence : seen_event.confidence ≡ some 100
unfolding nvr_event percent_confidence round_percent
seen_confidence = refl

abbrev small_pack : IpcItem → Bytes
small_pack i = i.image_type ∷ i.jpeg_len ∷ []

abbrev car_items : List Written
car_items =
    record { item = small_item 0 2; image = 255 ∷ 216 ∷ []; filler = 0 ∷ [] }
    ∷ record { item = small_item 1 1; image = 7 ∷ []; filler = 0 ∷ 0 ∷ [] }
    ∷ []

car_items-IsWritten : All (IsWritten small small_pack 10) car_items
car_items-IsWritten = (
  record { sized = refl; viewed = refl; declared = refl; stored = refl; short = omega arith },
  (record { sized = refl; viewed = refl; declared = refl; stored = refl; short = omega arith }, tt),
)

read_items-write_items_example :
    read_items small 10 2 ((2 ∷ 1 ∷ []) ++ (write_items small_pack car_items ++ [])) 2
    ≡ ok (map (λ w. (w.item, w.image)) car_items, 2 + length (write_items small_pack car_items))
read_items-write_items_example =
    read_items-write_items small small_pack 10 car_items (2 ∷ 1 ∷ []) [] car_items-IsWritten

abbrev car_seen : Callback
car_seen = record {
  user_id = pos 1;
  channel_id = pos 0;
  command = vehicle;
  payload = car;
  received_at = 5;
}

ingest-Reach_example :
    Reach (start two_places) (after_ingest small 100 10 car_seen (start two_places))
ingest-Reach_example = ingest-Reach small 100 10 car_seen (start two_places) (start two_places) here
