-- ===== src/Diff/Counts.antt =====
-- That the comparison of two inventories accounts for every address of both.
use pytvt.Prelude.{
  ℕ, ◌+◌, ◌≡◌, sym, ◌∙◌, String, List, [], ◌∷◌, length, map, length-filter, length-filter_split,
  length-map, arith,
}
use pytvt.Prelude.Keyed.{
  has, keys_of, sort_items, IsDistinct, count-common, length-sort_items, count_if-keys,
  assign_all-IsDistinct,
}
use pytvt.Diff.{ScanResult, DeviceDiff, TextLibrary, ip_eq}
use pytvt.Diff.Scans.{
  items_without, items_within, make_added_device, make_removed_device, noted, changed_devices,
  by_ip, value_of_item, diff_scans,
}

length-noted :
    (dd : DeviceDiff) (r : List DeviceDiff × ℕ)
    → length (noted dd r).0 + (noted dd r).1 ≡ length r.0 + r.1 + 1
length-noted dd (more, n) = ground arith

length-changed_devices :
    (lib : TextLibrary) (new_by items : List (String × ScanResult))
    → length (changed_devices lib new_by items).0 + (changed_devices lib new_by items).1
      ≡ length items
unfolding changed_devices
length-changed_devices lib new_by [] = omega arith
length-changed_devices lib new_by ((ip, old) ∷ more) = omega (
  arith,
  length-noted _ (changed_devices lib new_by more),
  length-changed_devices lib new_by more,
)

-- The addresses that two dicts share are as many from either side.
length-items_within :
    (xs ys : List (String × ScanResult))
    → IsDistinct (keys_of xs)
    → IsDistinct (keys_of ys)
    → length (items_within ys xs) ≡ length (items_within xs ys)
length-items_within xs ys dx dy =
    length-filter (λ (x : String × ScanResult). has x.0 (keys_of ys)) xs
    ∙ count_if-keys (λ k. has k (keys_of ys)) xs
    ∙ count-common (keys_of xs) (keys_of ys) dx dy
    ∙ sym (count_if-keys (λ k. has k (keys_of xs)) ys)
    ∙ sym (length-filter (λ (x : String × ScanResult). has x.0 (keys_of xs)) ys)

by_ip-IsDistinct : (rs : List ScanResult) → IsDistinct (keys_of (by_ip rs))
unfolding by_ip
by_ip-IsDistinct rs = assign_all-IsDistinct (map (λ (r : ScanResult). (r.nvr_ip, r)) rs) [] tt

-- The devices added, those changed and those unchanged are together as many as the new inventory has
-- addresses, and the devices removed, those changed and those unchanged as many as the old one has,
-- each address counted once.
pub diff_scans-counts :
    (lib : TextLibrary) (old_file new_file : String) (old new : List ScanResult)
    → (length (diff_scans lib old_file new_file old new).devices_added
          + (length (diff_scans lib old_file new_file old new).devices_changed
              + (diff_scans lib old_file new_file old new).unchanged_count)
        ≡ length (by_ip new))
      × (length (diff_scans lib old_file new_file old new).devices_removed
            + (length (diff_scans lib old_file new_file old new).devices_changed
                + (diff_scans lib old_file new_file old new).unchanged_count)
          ≡ length (by_ip old))
unfolding diff_scans
diff_scans-counts lib old_file new_file old new =
    let o = by_ip old in
    let n = by_ip new in
    let common = length-changed_devices lib n (sort_items lib.text_le (items_within n o)) in
    let sorted_common = length-sort_items lib.text_le (items_within n o) in
    let shared = length-items_within o n (by_ip-IsDistinct old) (by_ip-IsDistinct new) in
    (
      omega (
        arith,
        common,
        sorted_common,
        shared,
        length-map (sort_items lib.text_le (items_without o n))
            (λ x. make_added_device lib (value_of_item x)),
        length-sort_items lib.text_le (items_without o n),
        length-filter_split (λ (x : String × ScanResult). has x.0 (keys_of o)) n,
      ),
      omega (
        arith,
        common,
        sorted_common,
        length-map (sort_items lib.text_le (items_without n o))
            (λ x. make_removed_device lib (value_of_item x)),
        length-sort_items lib.text_le (items_without n o),
        length-filter_split (λ (x : String × ScanResult). has x.0 (keys_of n)) o,
      ),
    )
