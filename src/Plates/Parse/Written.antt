-- ===== src/Plates/Parse/Written.antt =====
-- The items of a camera's callback, written and read back.
use mathlib.Core.Path.{subst}
use mathlib.Core.List.{append_assoc}
use pytvt.Prelude.{
  ℕ, zero, suc, ◌+◌, ◌≤◌, ◌≡◌, refl, sym, ◌∙◌, ap, false, List, [], ◌∷◌, ◌++◌, map, ltb, length,
  length-append, All, arith,
}
use pytvt.Prelude.Bytes.{Bytes, take, drop, take-append, drop-append}
use pytvt.Plates.Parse.{ok, read_structure, take_image, storage_length, read_items}
use pytvt.Plates.Vendor.{IpcItem, Natives}

-- The bytes of an item: the structure, the image, and the bytes that fill its storage.
pub record Written : Type 0 where
  pub item : IpcItem
  pub image : Bytes
  pub filler : Bytes

abbrev pub write_items : (IpcItem → Bytes) → List Written → Bytes
write_items pack [] = []
write_items pack (w ∷ ws) = pack w.item ++ (w.image ++ (w.filler ++ write_items pack ws))

-- An item that its structure's bytes hold, whose lengths are those of the bytes that come with it,
-- and whose image is not too long.
pub record IsWritten (native : Natives) (pack : IpcItem → Bytes) (limit : ℕ) (w : Written)
    : Type 0 where
  pub sized : length (pack w.item) ≡ native.item_size
  pub viewed : native.item (pack w.item) ≡ w.item
  pub declared : length w.image ≡ w.item.jpeg_len
  pub stored : length w.image + length w.filler ≡ storage_length w.item
  pub short : length w.image ≤ limit

-- The bytes `xs` are what `payload` has from `offset` on.
record At (payload : Bytes) (offset : ℕ) (xs : Bytes) : Type 0 where
  slice : drop offset payload ≡ xs
  rest : offset + length xs ≡ length payload

drop-nil : (n : ℕ) → drop {A = ℕ} n [] ≡ []
drop-nil zero = refl
drop-nil (suc n) = refl

drop-drop : (m n : ℕ) (xs : Bytes) → drop (m + n) xs ≡ drop n (drop m xs)
drop-drop zero n xs = ap (λ k. drop k xs) (omega arith)
drop-drop (suc m) n [] = drop-nil (suc m + n) ∙ sym (drop-nil n)
drop-drop (suc m) n (x ∷ xs) =
    let e : suc m + n ≡ suc (m + n) = omega arith in ap (λ k. drop k (x ∷ xs)) e ∙ drop-drop m n xs

At-next :
    (payload : Bytes) (offset size : ℕ) (xs ys : Bytes)
    → length xs ≡ size
    → At payload offset (xs ++ ys)
    → At payload (offset + size) ys
At-next payload offset size xs ys l h = record {
  slice =
      drop-drop offset size payload
      ∙ ap (drop size) h.slice
      ∙ ap (λ n. drop n (xs ++ ys)) (sym l)
      ∙ drop-append xs ys;
  rest = omega (arith, h.rest, l, length-append xs ys);
}

read_structure-At :
    {A : Type 0} (size : ℕ) (view : Bytes → A) (payload : Bytes) (offset : ℕ) (xs ys : Bytes)
    → length xs ≡ size
    → At payload offset (xs ++ ys)
    → read_structure size view payload offset ≡ ok (view xs, offset + size)
unfolding read_structure
read_structure-At size view payload offset xs ys l h =
    let fits : ltb (length payload) (offset + size) ≡ false =
      ground (arith, h.rest, length-append xs ys, l) in
    let slice =
      ap (λ n. take n (drop offset payload)) (sym l)
      ∙ ap (take (length xs)) h.slice
      ∙ take-append xs ys in
    simp fits (ap (λ b. ok (view b, offset + size)) slice)

take_image-At :
    (payload : Bytes) (offset storage limit : ℕ) (image filler ys : Bytes)
    → length image + length filler ≡ storage
    → length image ≤ limit
    → At payload offset (image ++ (filler ++ ys))
    → take_image payload offset (length image) storage limit ≡ ok (image, offset + storage)
unfolding take_image
take_image-At payload offset storage limit image filler ys l m h =
    let a : ltb storage (length image) ≡ false = ground arith in
    let b : ltb limit (length image) ≡ false = ground arith in
    let c : ltb (length payload) (offset + storage) ≡ false =
      ground (arith, h.rest, length-append image (filler ++ ys), length-append filler ys) in
    simp (a, b, c)
      (ap (λ x. ok (x, offset + storage))
        (ap (take (length image)) h.slice ∙ take-append image (filler ++ ys)))

unnest : (a b c d e : Bytes) → (a ++ (b ++ (c ++ d))) ++ e ≡ a ++ (b ++ (c ++ (d ++ e)))
unnest a b c d e =
    append_assoc a (b ++ (c ++ d)) e
    ∙ ap (λ x. a ++ x) (append_assoc b (c ++ d) e ∙ ap (λ x. b ++ x) (append_assoc c d e))

module _ (native : Natives) (pack : IpcItem → Bytes) where
  read_items-At :
      (limit : ℕ) (ws : List Written) (payload : Bytes) (offset : ℕ) (ys : Bytes)
      → All (IsWritten native pack limit) ws
      → At payload offset (write_items pack ws ++ ys)
      → read_items native limit (length ws) payload offset
        ≡ ok (map (λ w. (w.item, w.image)) ws, offset + length (write_items pack ws))
  unfolding read_items
  read_items-At limit [] payload offset ys h a = ap (λ n. ok ([], n)) (omega arith)
  read_items-At limit (w ∷ ws) payload offset ys (h, hs) a =
      let later = write_items pack ws ++ ys in
      let a0 : At payload offset (pack w.item ++ (w.image ++ (w.filler ++ later))) =
        subst (At payload offset) (unnest (pack w.item) w.image w.filler (write_items pack ws) ys)
          a in
      let a1 = At-next payload offset native.item_size (pack w.item) _ h.sized a0 in
      let a2 =
        At-next payload (offset + native.item_size) (storage_length w.item) (w.image ++ w.filler)
          later (length-append w.image w.filler ∙ h.stored)
          (subst (At payload (offset + native.item_size))
            (sym (append_assoc w.image w.filler later)) a1) in
      let r1 =
        read_structure-At native.item_size native.item payload offset (pack w.item) _ h.sized a0
        ∙ ap (λ i. ok (i, offset + native.item_size)) (h.viewed) in
      let r2 =
        ap (λ n. take_image payload (offset + native.item_size) n (storage_length w.item) limit)
          (sym h.declared)
        ∙ take_image-At payload (offset + native.item_size) (storage_length w.item) limit w.image
            w.filler later h.stored h.short a1 in
      let r3 =
        read_items-At limit ws payload (offset + native.item_size + storage_length w.item) ys hs
          a2 in
      simp (r1, r2, r3)
        (ap (λ n. ok ((w.item, w.image) ∷ map (λ v. (v.item, v.image)) ws, n))
          (omega (
            arith,
            h.sized,
            h.stored,
            length-append (pack w.item) (w.image ++ (w.filler ++ write_items pack ws)),
            length-append w.image (w.filler ++ write_items pack ws),
            length-append w.filler (write_items pack ws),
          )))

  -- Items written one after the other, each followed by its image and the bytes that fill its
  -- storage, are read back as they were, with the offset after the last, wherever they stand in a
  -- payload, provided that the lengths in each item are those of the bytes after it, that no image
  -- is longer than the limit, and that the structure's bytes, `pack`, are of its size and hold it.
  pub read_items-write_items :
      (limit : ℕ) (ws : List Written) (before after : Bytes)
      → All (IsWritten native pack limit) ws
      → read_items native limit
          (length ws)
          (before ++ (write_items pack ws ++ after))
          (length before)
        ≡ ok (map (λ w. (w.item, w.image)) ws, length before + length (write_items pack ws))
  read_items-write_items limit ws before after h =
      read_items-At limit ws _ (length before) after h (record {
        slice = drop-append before (write_items pack ws ++ after);
        rest = sym (length-append before (write_items pack ws ++ after));
      })
