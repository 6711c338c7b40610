-- ===== src/Diff/Unkeyed.antt =====
-- What becomes of a camera without a channel in the comparison of two inventories.
use pytvt.Prelude.{
  ℕ, ◌<◌, ◌≡◌, refl, sym, ap, ◌∙◌, Bool, true, false, not, List, [], ◌∷◌, ◌++◌, length, filter,
  length-map, is_empty, if◌then◌else◌, arith, Bool-cases, inl, inr,
}
use pytvt.Prelude.Int.{pos}
use pytvt.Prelude.Keyed.{has, keys_of, sort_items, length-sort_items, has-assign_all, if_true}
use pytvt.Diff.{
  ChannelKey, number, label, channel_eq, channel_eq_iff, CameraInfo, ScanResult, TextLibrary,
  changed, removed, channel_key_eq, FieldChange,
}
use pytvt.Diff.Scans.{
  has_camera_address, key_of_camera, keyed_cameras, cameras_by_channel, items_without, camera_diff,
  channel_le, CameraDiffs, is_same_device, diff_cameras, diff_device, compare_device_fields,
}

true-ne_false : ¬ (true ≡ false)
true-ne_false h = cc

if_true_of : (b c : Bool) → b ≡ true → (if b then true else c) ≡ true
if_true_of true c h = refl
if_true_of false c h = absurd (true-ne_false (sym h))

-- A key of one dict that is not in another is in what is left of the first.
without-positive :
    (k : ChannelKey) (other d : List (ChannelKey × CameraInfo))
    → has k (keys_of other) ≡ false
    → has k (keys_of d) ≡ true
    → 0 < length (items_without other d)
unfolding has filter
without-positive k other [] h e = absurd (ground arith)
without-positive k other ((j, c) ∷ d) h e =
    choose (without-positive k other d h) (channel_eq j k) (has j (keys_of other)) refl refl
  where
    rest : Bool → ℕ
    rest b = length (if not b then (j, c) ∷ items_without other d else items_without other d)

    found : (b : Bool) → channel_eq j k ≡ true → has j (keys_of other) ≡ b → 0 < rest b
    found true g q =
        absurd
          (true-ne_false (sym q ∙ ap (λ x. has x (keys_of other)) ((channel_eq_iff j k).0 g) ∙ h))
    found false g q = omega arith

    choose :
        (has k (keys_of d) ≡ true → 0 < length (items_without other d))
        → (g b : Bool) → channel_eq j k ≡ g
        → has j (keys_of other) ≡ b
        → 0 < rest b
    choose more true b g q = found b g q
    choose more false true g q = more (rw (g) at e)
    choose more false false g q = omega arith

keyed_cameras-has :
    (lib : TextLibrary) (c : CameraInfo) (before after : List CameraInfo)
    → has_camera_address lib c ≡ true
    → c.channel ≡ label ""
    → has (number (pos c.identity)) (keys_of (keyed_cameras lib (before ++ c ∷ after))) ≡ true
unfolding keyed_cameras has
keyed_cameras-has lib c [] after a h =
    let key : key_of_camera c c.channel ≡ number (pos c.identity) = ap (key_of_camera c) h in
    rw (a) (
      if_true_of (channel_eq (key_of_camera c c.channel) (number (pos c.identity))) _
        ((channel_eq_iff _ _).1 key))
keyed_cameras-has lib c (b ∷ before) after a h = elim (Bool-cases (has_camera_address lib b)) [
  | inl e ↦ rw (e) (if_true _ (keyed_cameras-has lib c before after a h))
  | inr e ↦ rw (e) (keyed_cameras-has lib c before after a h)
]

is_empty-pos {ℓ} : {A : Type ℓ} (xs : List A) → 0 < length xs → is_empty xs ≡ false
is_empty-pos [] h = absurd (omega arith)
is_empty-pos (x ∷ xs) h = refl

removed-status :
    (fields : List FieldChange) (cams : CameraDiffs)
    → 0 < length cams.cams_removed
    → is_same_device fields cams ≡ false
removed-status fields cams h = ground (arith, is_empty-pos cams.cams_removed h)

in_dict :
    (lib : TextLibrary) (cameras : List CameraInfo) (c : CameraInfo)
    (before after : List CameraInfo)
    → cameras ≡ before ++ c ∷ after
    → has_camera_address lib c ≡ true
    → c.channel ≡ label ""
    → has (number (pos c.identity)) (keys_of (cameras_by_channel lib cameras)) ≡ true
unfolding cameras_by_channel
in_dict lib cameras c before after e a h =
    has-assign_all (number (pos c.identity)) (keyed_cameras lib cameras) [] (
      ap (λ cs. has (number (pos c.identity)) (keys_of (keyed_cameras lib cs))) e
      ∙ keyed_cameras-has lib c before after a h)

removes :
    (lib : TextLibrary) (old new : ScanResult) (c : CameraInfo) (before after : List CameraInfo)
    → old.cameras ≡ before ++ c ∷ after
    → has_camera_address lib c ≡ true
    → c.channel ≡ label ""
    → has (number (pos c.identity)) (keys_of (cameras_by_channel lib new.cameras)) ≡ false
    → 0 < length (diff_cameras lib old.cameras new.cameras).cams_removed
unfolding diff_cameras
removes lib old new c before after e a h absent =
    let new_by = cameras_by_channel lib new.cameras in
    let left = items_without new_by (cameras_by_channel lib old.cameras) in
    let there =
      without-positive (number (pos c.identity)) new_by (cameras_by_channel lib old.cameras) absent
        (in_dict lib old.cameras c before after e a h) in
    omega (
      arith,
      there,
      length-sort_items (channel_le lib) left,
      length-map (sort_items (channel_le lib) left) (camera_diff removed),
    )

-- A camera of the old scan that has an address and no channel makes its recorder count as changed,
-- whatever the new scan has, unless the new scan has a key that is equal to the object's identity.
pub unkeyed_camera_changes :
    (lib : TextLibrary) (old new : ScanResult) (c : CameraInfo) (before after : List CameraInfo)
    → old.cameras ≡ before ++ c ∷ after
    → has_camera_address lib c ≡ true
    → c.channel ≡ label ""
    → has (number (pos c.identity)) (keys_of (cameras_by_channel lib new.cameras)) ≡ false
    → (diff_device lib old new).status ≡ changed
unfolding diff_device
unkeyed_camera_changes lib old new c before after e a h absent =
    rw
      (removed-status (compare_device_fields old new) (diff_cameras lib old.cameras new.cameras)
        (removes lib old new c before after e a h absent))
      refl
