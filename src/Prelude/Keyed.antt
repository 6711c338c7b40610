-- ===== src/Prelude/Keyed.antt =====
-- Python's dicts and sets over any type of keys with an equality, and `sorted` by a key.
use Prim.Native.Nat.{ℕ, ◌+◌}
use mathlib.Core.Path.{◌≡◌, refl, sym, ap, ◌∙◌}
use mathlib.Core.Logic.{◌↔◌, inl, inr}
use mathlib.Core.Bool.{Bool, true, false}
use mathlib.Core.List.{List, [], ◌∷◌, map}
use native.Mathlib.Omega.{arith}
use pytvt.Prelude.Tests.{if◌then◌else◌, Bool-cases}
use pytvt.Prelude.Lists.{length, count_if}

pub record Eq {ℓ} (K : Type ℓ) : Type ℓ where
  pub beq : K → K → Bool
  pub beq_iff : (a b : K) → (beq a b ≡ true) ↔ (a ≡ b)

if_again : (b c : Bool) → (if b then true else c) ≡ (if b then true else if b then true else c)
if_again true c = refl
if_again false c = refl

if_swap :
    (b c d : Bool)
    → (if b then true else if c then true else d) ≡ (if c then true else if b then true else d)
if_swap true true d = refl
if_swap true false d = refl
if_swap false true d = refl
if_swap false false d = refl

pub if_true : (b : Bool) {c : Bool} → c ≡ true → (if b then true else c) ≡ true
if_true true h = refl
if_true false h = h

false-ne_true : ¬ (false ≡ true)
false-ne_true h = cc

module _ {ℓ} {K : Type ℓ} ⦃e : Eq K⦄ where
  -- `k in keys`
  unfoldable pub has : K → List K → Bool
  has k [] = false
  has k (j ∷ js) = let rest = has k js in if e.beq j k then true else rest

  -- No key twice.
  abbrev pub IsDistinct : List K → Type 0
  IsDistinct [] = Unit
  IsDistinct (k ∷ ks) = (has k ks ≡ false) × IsDistinct ks

  beq_refl : (k : K) → e.beq k k ≡ true
  beq_refl k = (e.beq_iff k k).1 refl

  beq_sym : (j k : K) → e.beq j k ≡ e.beq k j
  beq_sym j k = elim (Bool-cases (e.beq j k)) [
    | inl h ↦ h ∙ sym ((e.beq_iff k j).1 (sym ((e.beq_iff j k).0 h)))
    | inr h ↦ elim (Bool-cases (e.beq k j)) [
      | inl g ↦ (e.beq_iff j k).1 (sym ((e.beq_iff k j).0 g)) ∙ sym g
      | inr g ↦ h ∙ sym g
    ]
  ]

  has-same : (j k : K) (js : List K) → e.beq j k ≡ true → has k js ≡ has j js
  has-same j k js h = ap (λ x. has x js) (sym ((e.beq_iff j k).0 h))

  -- A key is in distinct keys once or not at all.
  count-key :
      (k : K) (ks : List K)
      → IsDistinct ks
      → count_if (λ j. e.beq j k) ks ≡ (if has k ks then 1 else 0)
  unfolding has count_if
  count-key k [] d = refl
  count-key k (j ∷ js) d = elim (Bool-cases (e.beq j k)) [
    | inl h ↦ let gone = has-same j k js h ∙ d.0 in ground (arith, count-key k js d.1)
    | inr h ↦ ground (arith, count-key k js d.1)
  ]

  count-head :
      (j : K) (js ks : List K)
      → has j js ≡ false
      → count_if (λ k. has k (j ∷ js)) ks
        ≡ count_if (λ k. e.beq k j) ks + count_if (λ k. has k js) ks
  unfolding has count_if
  count-head j js [] h = omega arith
  count-head j js (k ∷ ks) h = elim (Bool-cases (e.beq j k)) [
    | inl g ↦
        let gone = has-same j k js g ∙ h in
        let back = sym (beq_sym j k) ∙ g in ground (arith, count-head j js ks h)
    | inr g ↦ let back = sym (beq_sym j k) ∙ g in ground (arith, count-head j js ks h)
  ]

  count-none : (ks : List K) → count_if (λ k. has k []) ks ≡ 0
  unfolding has count_if
  count-none [] = refl
  count-none (k ∷ ks) = omega (arith, count-none ks)

  -- Two sets have as many keys in common from either side.
  pub count-common :
      (js ks : List K)
      → IsDistinct js
      → IsDistinct ks
      → count_if (λ j. has j ks) js ≡ count_if (λ k. has k js) ks
  unfolding count_if
  count-common [] ks dj dk = sym (count-none ks)
  count-common (j ∷ js) ks dj dk =
      omega (arith, count-head j js ks dj.0, count-key j ks dk, count-common js ks dj.1 dk)

module _ {ℓ κ} {K : Type ℓ} {V : Type κ} where
  unfoldable pub insert_item : (K → K → Bool) → K × V → List (K × V) → List (K × V)
  insert_item before x [] = x ∷ []
  insert_item before x (y ∷ ys) =
      let rest = insert_item before x ys in if before y.0 x.0 then y ∷ rest else x ∷ y ∷ ys

  -- `sorted(...)` of keys with their values: stable, and `before j k` says that `j` is less or equal.
  unfoldable pub sort_items : (K → K → Bool) → List (K × V) → List (K × V)
  unfolding insert_item
  sort_items before [] = []
  sort_items before (x ∷ xs) = insert_item before x (sort_items before xs)

  abbrev pub keys_of : List (K × V) → List K
  keys_of d = map (λ (x : K × V). x.0) d

  length-insert_item :
      (before : K → K → Bool) (x : K × V) (xs : List (K × V))
      → length (insert_item before x xs) ≡ length xs + 1
  unfolding insert_item
  length-insert_item before x [] = omega arith
  length-insert_item before x (y ∷ ys) = elim (Bool-cases (before y.0 x.0)) [
    | inl h ↦ rw (h) (omega (arith, length-insert_item before x ys))
    | inr h ↦ rw (h) (omega arith)
  ]

  pub length-sort_items :
      (before : K → K → Bool) (xs : List (K × V)) → length (sort_items before xs) ≡ length xs
  unfolding sort_items
  length-sort_items before [] = refl
  length-sort_items before (x ∷ xs) =
      omega (arith, length-insert_item before x (sort_items before xs), length-sort_items before xs)

  pub count_if-keys :
      (p : K → Bool) (d : List (K × V)) → count_if (λ (x : K × V). p x.0) d ≡ count_if p (keys_of d)
  unfolding count_if
  count_if-keys p [] = refl
  count_if-keys p (x ∷ xs) = ap (λ (n : ℕ). (if p x.0 then 1 else 0) + n) (count_if-keys p xs)

module _ {ℓ κ} {K : Type ℓ} {V : Type κ} ⦃e : Eq K⦄ where
  -- `d[k]` where the key is there, and `other` where it is not.
  unfoldable pub value_or : V → K → List (K × V) → V
  value_or other k [] = other
  value_or other k ((j, v) ∷ d) = let rest = value_or other k d in if e.beq j k then v else rest

  -- `d[k] = v`
  unfoldable pub store : K → V → List (K × V) → List (K × V)
  store k v [] = (k, v) ∷ []
  store k v ((j, w) ∷ d) = let rest = store k v d in if e.beq j k then (j, v) ∷ d else (j, w) ∷ rest

  -- Assignments in their order, as a dict comprehension makes them: the last value of a key counts.
  unfoldable pub assign_all : List (K × V) → List (K × V) → List (K × V)
  unfolding store
  assign_all [] d = d
  assign_all ((k, v) ∷ items) d = assign_all items (store k v d)

  has-store :
      (k j : K) (v : V) (d : List (K × V))
      → has k (keys_of (store j v d)) ≡ (if e.beq j k then true else has k (keys_of d))
  unfolding has store
  has-store k j v [] = refl
  has-store k j v ((i, w) ∷ d) = elim (Bool-cases (e.beq i j)) [
    | inl h ↦
        let same : e.beq j k ≡ e.beq i k = ap (λ x. e.beq x k) (sym ((e.beq_iff i j).0 h)) in
        rw (h, same) (if_again (e.beq i k) (has k (keys_of d)))
    | inr h ↦ rw (h, has-store k j v d) (if_swap (e.beq i k) (e.beq j k) (has k (keys_of d)))
  ]

  store-IsDistinct :
      (k : K) (v : V) (d : List (K × V))
      → IsDistinct (keys_of d)
      → IsDistinct (keys_of (store k v d))
  unfolding store has
  store-IsDistinct k v [] h = (refl, tt)
  store-IsDistinct k v ((j, w) ∷ d) h = elim (Bool-cases (e.beq j k)) [
    | inl g ↦ rw (g) h
    | inr g ↦ rw (g) (
      has-store j k v d
          ∙ ap (λ b. if b then true else has j (keys_of d)) (sym (beq_sym j k) ∙ g)
          ∙ h.0,
      store-IsDistinct k v d h.1,
    )
  ]

  pub assign_all-IsDistinct :
      (items d : List (K × V)) → IsDistinct (keys_of d) → IsDistinct (keys_of (assign_all items d))
  unfolding assign_all
  assign_all-IsDistinct [] d h = h
  assign_all-IsDistinct ((k, v) ∷ items) d h =
      assign_all-IsDistinct items (store k v d) (store-IsDistinct k v d h)

  stored :
      (k : K) (items d : List (K × V))
      → has k (keys_of d) ≡ true
      → has k (keys_of (assign_all items d)) ≡ true
  unfolding assign_all
  stored k [] d h = h
  stored k ((j, v) ∷ items) d h =
      stored k items (store j v d) (has-store k j v d ∙ if_true (e.beq j k) h)

  -- A key is in the dict of some assignments if it is among them.
  pub has-assign_all :
      (k : K) (items d : List (K × V))
      → has k (keys_of items) ≡ true
      → has k (keys_of (assign_all items d)) ≡ true
  unfolding has assign_all
  has-assign_all k [] d h = absurd (false-ne_true h)
  has-assign_all k ((j, v) ∷ items) d h = elim (Bool-cases (e.beq j k)) [
    | inl g ↦ stored k items (store j v d) (has-store k j v d ∙ rw (g) refl)
    | inr g ↦ has-assign_all k items (store j v d) (rw (g) at h)
  ]
