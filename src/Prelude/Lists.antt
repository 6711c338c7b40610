-- ===== src/Prelude/Lists.antt =====
-- Lists measured by native numbers, filtered by Boolean tests, and predicates on all elements.
use Prim.Native.Nat.{ℕ, suc, ◌+◌, ◌≤◌}
use mathlib.Core.Path.{◌≡◌, refl, sym, ap, ◌∙◌}
use mathlib.Core.Bool.{Bool, true, false, not, ◌&&◌}
use mathlib.Core.Logic.{∥∥₁_elim}
use mathlib.Core.Logic.Or
use mathlib.Core.List.{List, [], ◌∷◌, ◌++◌, map, Mem, mem-cons, Perm, Permᴰ, perm_middle}
use mathlib.Core.List.Perm
use native.Mathlib.Nat.{ℕ_set}
use native.Mathlib.Omega.{arith}
use pytvt.Prelude.Tests.{if◌then◌else◌}

module _ {ℓ} {A : Type ℓ} where
  abbrev pub length : List A → ℕ
  length [] = 0
  length (x ∷ xs) = suc (length xs)

  -- `[x for x in xs if p(x)]`
  unfoldable pub filter : (A → Bool) → List A → List A
  filter p [] = []
  filter p (x ∷ xs) = let rest = filter p xs in if p x then x ∷ rest else rest

  -- `sum(1 for x in xs if p(x))`
  unfoldable pub count_if : (A → Bool) → List A → ℕ
  count_if p [] = 0
  count_if p (x ∷ xs) = (if p x then 1 else 0) + count_if p xs

  abbrev pub is_empty : List A → Bool
  is_empty [] = true
  is_empty (x ∷ xs) = false

  -- `all(p(x) for x in xs)`
  abbrev pub every : (A → Bool) → List A → Bool
  every p [] = true
  every p (x ∷ xs) = p x && every p xs

  abbrev pub All {κ} : (A → Type κ) → List A → Type κ
  All P [] = Unit
  All P (x ∷ xs) = P x × All P xs

module _ {ℓ} {A : Type ℓ} where
  pub length-append : (xs ys : List A) → length (xs ++ ys) ≡ length xs + length ys
  length-append [] ys = omega arith
  length-append (x ∷ xs) ys = omega (arith, length-append xs ys)

  pub count_if-append :
      (p : A → Bool) (xs ys : List A) → count_if p (xs ++ ys) ≡ count_if p xs + count_if p ys
  unfolding count_if
  count_if-append p [] ys = omega arith
  count_if-append p (x ∷ xs) ys = omega (arith, count_if-append p xs ys)

  pub count_if-le-length : (p : A → Bool) (xs : List A) → count_if p xs ≤ length xs
  unfolding count_if
  count_if-le-length p [] = omega arith
  count_if-le-length p (x ∷ xs) = ground (arith, count_if-le-length p xs)

  pub length-filter : (p : A → Bool) (xs : List A) → length (filter p xs) ≡ count_if p xs
  unfolding filter count_if
  length-filter p [] = refl
  length-filter p (x ∷ xs) = ground (arith, length-filter p xs)

  -- A list is split by a test and its negation.
  pub length-filter_split :
      (p : A → Bool) (xs : List A)
      → length (filter p xs) + length (filter (λ x. not (p x)) xs) ≡ length xs
  unfolding filter
  length-filter_split p [] = omega arith
  length-filter_split p (x ∷ xs) = ground (arith, length-filter_split p xs)

  pub All-append {κ} : (P : A → Type κ) (xs ys : List A) → All P xs → All P ys → All P (xs ++ ys)
  All-append P [] ys hx hy = hy
  All-append P (x ∷ xs) ys hx hy = (hx.0, All-append P xs ys hx.1 hy)

  pub All-append_inv {κ} :
      (P : A → Type κ) (xs ys : List A) → All P (xs ++ ys) → All P xs × All P ys
  All-append_inv P [] ys h = (tt, h)
  All-append_inv P (x ∷ xs) ys h = let (hx, hy) = All-append_inv P xs ys h.1 in ((h.0, hx), hy)

  All-if {κ} :
      (P : A → Type κ) (b : Bool) (x : A) (xs : List A)
      → P x
      → All P xs
      → All P (if b then x ∷ xs else xs)
  All-if P true x xs h hs = (h, hs)
  All-if P false x xs h hs = hs

  pub All-filter {κ} :
      (P : A → Type κ) (p : A → Bool) (xs : List A) → All P xs → All P (filter p xs)
  unfolding filter
  All-filter P p [] h = tt
  All-filter P p (x ∷ xs) h = All-if P (p x) x (filter p xs) h.0 (All-filter P p xs h.1)

  pub is_empty-eq : (xs : List A) → is_empty xs ≡ true → xs ≡ []
  is_empty-eq [] h = refl
  is_empty-eq (x ∷ xs) h = cc

  perm_if :
      (b : Bool) (x : A) (ys zs : List A) {xs : List A}
      → Perm (ys ++ zs) xs
      → Perm ((if b then x ∷ ys else ys) ++ (if not b then x ∷ zs else zs)) (x ∷ xs)
  perm_if true x ys zs h = Perm.cons x h
  perm_if false x ys zs h = Perm.trans (perm_middle ys zs) (Perm.cons x h)

  -- What passes a test and what fails it are together the list, in another order.
  pub filter_split-perm :
      (p : A → Bool) (xs : List A) → Perm (filter p xs ++ filter (λ x. not (p x)) xs) xs
  unfolding filter
  filter_split-perm p [] = Perm.refl []
  filter_split-perm p (x ∷ xs) = perm_if (p x) x _ _ (filter_split-perm p xs)

  length_of_permᴰ : {xs ys : List A} → Permᴰ xs ys → length xs ≡ length ys
  length_of_permᴰ Permᴰ.nil = refl
  length_of_permᴰ (Permᴰ.cons e p) = ap suc (length_of_permᴰ p)
  length_of_permᴰ (Permᴰ.swap e f) = refl
  length_of_permᴰ (Permᴰ.trans p q) = length_of_permᴰ p ∙ length_of_permᴰ q

  pub length_of_perm : {xs ys : List A} → Perm xs ys → length xs ≡ length ys
  length_of_perm p = ∥∥₁_elim p (ℕ_set _ _) length_of_permᴰ

module _ {ℓ} {A : Type ℓ} where
  All-impl {μ ν} :
      {P : A → Type μ} {Q : A → Type ν} (xs : List A) → ((x : A) → P x → Q x) → All P xs → All Q xs
  All-impl [] f h = tt
  All-impl (x ∷ xs) f h = (f x h.0, All-impl xs f h.1)

module _ {ℓ κ} {A : Type ℓ} {B : Type κ} where
  pub length-map : (xs : List A) (f : A → B) → length (map f xs) ≡ length xs
  length-map [] f = refl
  length-map (x ∷ xs) f = ap suc (length-map xs f)

  -- Each element's image is in the list of the images.
  pub All-mem-map : (f : A → B) (xs : List A) → All (λ x. Mem (f x) (map f xs)) xs
  All-mem-map f [] = tt
  All-mem-map f (x ∷ xs) =
      (mem-cons.1 (Or.inl refl), All-impl xs (λ y h. mem-cons.1 (Or.inr h)) (All-mem-map f xs))

-- Each element is in the list.
module _ {ℓ} {A : Type ℓ} where
  pub All-mem : (xs : List A) → All (λ x. Mem x xs) xs
  All-mem [] = tt
  All-mem (x ∷ xs) =
      (mem-cons.1 (Or.inl refl), All-impl xs (λ y h. mem-cons.1 (Or.inr h)) (All-mem xs))

count_true : List Bool → ℕ
count_true [] = 0
count_true (b ∷ bs) = (if b then 1 else 0) + count_true bs

module _ {ℓ} {A : Type ℓ} where
  count_of_permᴰ : (p : A → Bool) {xs ys : List A} → Permᴰ xs ys → count_if p xs ≡ count_if p ys
  unfolding count_if
  count_of_permᴰ p Permᴰ.nil = refl
  count_of_permᴰ p (Permᴰ.cons e h) = rw (e, count_of_permᴰ p h) refl
  count_of_permᴰ p (Permᴰ.swap e f) = rw (e, f) (omega arith)
  count_of_permᴰ p (Permᴰ.trans h k) = count_of_permᴰ p h ∙ count_of_permᴰ p k

  pub count_of_perm : (p : A → Bool) {xs ys : List A} → Perm xs ys → count_if p xs ≡ count_if p ys
  count_of_perm p h = ∥∥₁_elim h (ℕ_set _ _) (count_of_permᴰ p)

  count_if-map : (p : A → Bool) (xs : List A) → count_if p xs ≡ count_true (map p xs)
  unfolding count_if count_true
  count_if-map p [] = refl
  count_if-map p (x ∷ xs) = rw (count_if-map p xs) refl

  -- Lists that the test reads alike have as many that pass it.
  pub count_of_map_eq :
      (p : A → Bool) (xs ys : List A) → map p xs ≡ map p ys → count_if p xs ≡ count_if p ys
  count_of_map_eq p xs ys e = count_if-map p xs ∙ ap count_true e ∙ sym (count_if-map p ys)

module _ {ℓ} {A : Type ℓ} where
  pub is_empty-append : (xs ys : List A) → is_empty (xs ++ ys) ≡ (is_empty xs && is_empty ys)
  is_empty-append [] ys = refl
  is_empty-append (x ∷ xs) ys = refl

  pub is_empty-filter :
      (p : A → Bool) (xs : List A) → is_empty (filter (λ x. not (p x)) xs) ≡ every p xs
  unfolding filter
  is_empty-filter p [] = refl
  is_empty-filter p (x ∷ xs) = ground (arith, is_empty-filter p xs)

  pub every-count : (p : A → Bool) (xs : List A) → every p xs ≡ true → count_if p xs ≡ length xs
  unfolding count_if
  every-count p [] h = refl
  every-count p (x ∷ xs) h = ground (arith, every-count p xs)
