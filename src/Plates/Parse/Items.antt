-- ===== src/Plates/Parse/Items.antt =====
-- The loop over the items of a camera's callback: what it reads stays in the payload, and is what was
-- written.
use mathlib.Core.Path.{subst}
use pytvt.Prelude.{
  ℕ, zero, suc, ◌+◌, ◌≤◌, ◌≡◌, refl, sym, ◌∙◌, ap, Bool, true, false, List, ltb, length, All, arith,
}
use pytvt.Prelude.Bytes.{Bytes, drop, length-take, length-drop}
use pytvt.Plates.Parse.{
  PlatePayloadError, Parsed, ok, err, ◌>>=◌, ◌>>◌, refuse, read_structure, take_image,
  storage_length, read_items,
}
use pytvt.Plates.Vendor.{IpcItem, Natives}

-- A chain succeeds exactly when its parts do.
pub >>=-ok :
    {A B : Type 0} (m : Parsed A) (f : A → Parsed B) {b : B}
    → (m >>= f) ≡ ok b
    → (a : A) × (m ≡ ok a) × (f a ≡ ok b)
>>=-ok (ok a) f h = (a, refl, h)
>>=-ok (err e) f h = absurd (cc h)

pub refuse-ok :
    {B : Type 0} (b : Bool) (e : PlatePayloadError) (k : Parsed B) {x : B}
    → (refuse b e >> k) ≡ ok x
    → (b ≡ false) × (k ≡ ok x)
refuse-ok true e k h = absurd (cc h)
refuse-ok false e k h = (refl, h)

pub ok-injective : {A : Type 0} {a b : A} → Path (Parsed A) (ok a) (ok b) → a ≡ b
ok-injective {A} {a} h = ap value h
  where
    value : Parsed A → A
    value (ok b) = b
    value (err e) = a

pub read_structure-ok :
    {A : Type 0} (size : ℕ) (view : Bytes → A) (payload : Bytes) (offset : ℕ) {r : A × ℕ}
    → read_structure size view payload offset ≡ ok r
    → (r.1 ≡ offset + size) × (r.1 ≤ length payload)
unfolding read_structure
read_structure-ok size view payload offset h =
    let p = refuse-ok (ltb (length payload) (offset + size)) _ _ h in
    let e = ap (λ r. r.1) (ok-injective p.1) in (sym e, ground arith)

-- The image has its declared length, which is at most the limit.
pub take_image-ok :
    (payload : Bytes) (offset size storage limit : ℕ) {r : Bytes × ℕ}
    → take_image payload offset size storage limit ≡ ok r
    → (length r.0 ≡ size) × (size ≤ limit) × (r.1 ≡ offset + storage) × (r.1 ≤ length payload)
unfolding take_image
take_image-ok payload offset size storage limit h =
    let p = refuse-ok (ltb storage size) _ _ h in
    let q = refuse-ok (ltb limit size) _ _ p.1 in
    let r = refuse-ok (ltb (length payload) (offset + storage)) _ _ q.1 in
    let e = ok-injective r.1 in
    let n =
      length-take size (drop offset payload)
        (ground (arith, length-drop offset payload, p.0, r.0)) in
    (
      sym (ap (λ x. length x.0) e) ∙ n,
      ground (arith, q.0),
      sym (ap (λ x. x.1) e),
      ground (arith, ap (λ x. x.1) e, r.0),
    )

-- An item with the image that was read after it.
abbrev pub IsRead : ℕ → IpcItem × Bytes → Type 0
IsRead limit r = (length r.1 ≡ r.0.jpeg_len) × (length r.1 ≤ limit)

module _ (native : Natives) where
  pub read_items-ok :
      (limit count : ℕ) (payload : Bytes) (offset : ℕ) {r : List (IpcItem × Bytes) × ℕ}
      → offset ≤ length payload
      → read_items native limit count payload offset ≡ ok r
      → (length r.0 ≡ count) × (r.1 ≤ length payload) × All (IsRead limit) r.0
  unfolding read_items
  read_items-ok limit zero payload offset o h =
      subst (λ r. (length r.0 ≡ 0) × (r.1 ≤ length payload) × All (IsRead limit) r.0)
        (ok-injective h) (refl, o, tt)
  read_items-ok limit (suc count) payload offset {r} o h =
      let (i, p, k) = >>=-ok (read_structure native.item_size native.item payload offset) _ h in
      let (g, q, k') =
        >>=-ok (take_image payload i.1 i.0.jpeg_len (storage_length i.0) limit) _ k in
      let (m, s, k'') = >>=-ok (read_items native limit count payload g.1) _ k' in
      let t = take_image-ok payload i.1 i.0.jpeg_len (storage_length i.0) limit q in
      let u = read_items-ok limit count payload g.1 t.3 s in
      subst (λ r. (length r.0 ≡ suc count) × (r.1 ≤ length payload) × All (IsRead limit) r.0)
        (ok-injective k'') (ap suc u.0, u.1, ((t.0, omega (arith, t.0, t.1)), u.2))
