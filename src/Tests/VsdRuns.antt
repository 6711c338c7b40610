-- ===== src/Tests/VsdRuns.antt =====
-- A callback of structured video data at concrete inputs: one car among two targets.
use pytvt.Plates.Parse.{ok, err, read_structure, take_image, before_nul}
use pytvt.Plates.Parse.Nvr.{optional_picture, picture_of_size}
use pytvt.Plates.Parse.Vsd.{
  VsdHead, VsdTarget, VsdNatives, VehicleMetadataEvent, vsd_event, read_targets,
  parse_vsd_vehicle_payload,
}
use pytvt.Prelude.{ℕ, ◌≡◌, refl, List, [], ◌∷◌, length}
use pytvt.Prelude.Bytes.{Bytes}
use pytvt.Prelude.Int.{pos}
use pytvt.Tests.PlateParses.{small}

abbrev vsd_head_at : Bytes → VsdHead
vsd_head_at (n ∷ _) = record { target_count = n; channel = 3; relative_tick = 9 }
vsd_head_at [] = record { target_count = 0; channel = 0; relative_tick = 0 }

abbrev target_of : ℕ → ℕ → VsdTarget
target_of kind size = record {
  target_id = 5;
  target_type = kind;
  data_len = size;
  rect = (0, 0, 4, 3);
  width = pos 4;
  height = pos 3;
  pic_format = pos 0;
  color = 2;
  year = 4;
  car_type = 1;
  brand = 65 ∷ [];
  model = 66 ∷ 0 ∷ [];
  brand_type = 1;
  model_type = 1;
}

abbrev target_at : Bytes → VsdTarget
target_at (kind ∷ size ∷ _) = target_of kind size
target_at _ = target_of 0 0

abbrev small_vsd : VsdNatives
small_vsd = record { head_size = 1; head = vsd_head_at; target_size = 2; target = target_at }

abbrev scene : Bytes
scene = 2 ∷ 0 ∷ 1 ∷ 1 ∷ 8 ∷ 2 ∷ 2 ∷ 255 ∷ 216 ∷ []

abbrev scene_events : List VehicleMetadataEvent
scene_events = elim (parse_vsd_vehicle_payload small small_vsd 100 10 (pos 1) 5 scene) [
  | ok es ↦ es
  | err _ ↦ []
]

-- The person is skipped.
one_car : length scene_events ≡ 1
unfolding parse_vsd_vehicle_payload read_targets vsd_event read_structure take_image before_nul
    optional_picture picture_of_size
one_car = refl
