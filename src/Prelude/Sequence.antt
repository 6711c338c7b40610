-- ===== src/Prelude/Sequence.antt =====
-- Subsequences: the elements of one list occur in another, in its order.
use mathlib.Core.Path.{◌≡◌, refl}
use mathlib.Core.Logic.{◌⊎◌, inl, inr}
use mathlib.Core.List.{List, [], ◌∷◌, ◌++◌}

module _ {A : Type 0} where
  abbrev pub IsSubsequence : List A → List A → Type 0
  IsSubsequence [] ys = Unit
  IsSubsequence (x ∷ xs) [] = ⊥
  IsSubsequence (x ∷ xs) (y ∷ ys) = ((x ≡ y) × IsSubsequence xs ys) ⊎ IsSubsequence (x ∷ xs) ys

  pub IsSubsequence-skip :
      (xs : List A) (y : A) (ys : List A) → IsSubsequence xs ys → IsSubsequence xs (y ∷ ys)
  IsSubsequence-skip [] y ys h = tt
  IsSubsequence-skip (x ∷ xs) y ys h = inr h

  IsSubsequence-tail : (x : A) (xs ys : List A) → IsSubsequence (x ∷ xs) ys → IsSubsequence xs ys
  IsSubsequence-tail x xs [] h = absurd h
  IsSubsequence-tail x xs (y ∷ ys) (inl (e, h)) = IsSubsequence-skip xs y ys h
  IsSubsequence-tail x xs (y ∷ ys) (inr h) =
      IsSubsequence-skip xs y ys (IsSubsequence-tail x xs ys h)

  -- An element may be left out.
  pub IsSubsequence-remove :
      (pre : List A) (x : A) (bs ys : List A)
      → IsSubsequence (pre ++ x ∷ bs) ys
      → IsSubsequence (pre ++ bs) ys
  IsSubsequence-remove [] x bs ys h = IsSubsequence-tail x bs ys h
  IsSubsequence-remove (a ∷ pre) x bs [] h = absurd h
  IsSubsequence-remove (a ∷ pre) x bs (y ∷ ys) (inl (e, h)) =
      inl (e, IsSubsequence-remove pre x bs ys h)
  IsSubsequence-remove (a ∷ pre) x bs (y ∷ ys) (inr h) =
      inr (IsSubsequence-remove (a ∷ pre) x bs ys h)

  -- The longer list may grow at its end, alone or with the shorter one.
  pub IsSubsequence-append : (xs ys zs : List A) → IsSubsequence xs ys → IsSubsequence xs (ys ++ zs)
  IsSubsequence-append [] ys zs h = tt
  IsSubsequence-append (x ∷ xs) [] zs h = absurd h
  IsSubsequence-append (x ∷ xs) (y ∷ ys) zs (inl (e, h)) = inl (e, IsSubsequence-append xs ys zs h)
  IsSubsequence-append (x ∷ xs) (y ∷ ys) zs (inr h) = inr (IsSubsequence-append (x ∷ xs) ys zs h)

  IsSubsequence-last : (z : A) (ys : List A) → IsSubsequence (z ∷ []) (ys ++ z ∷ [])
  IsSubsequence-last z [] = inl (refl, tt)
  IsSubsequence-last z (y ∷ ys) = inr (IsSubsequence-last z ys)

  pub IsSubsequence-snoc :
      (xs ys : List A) (z : A) → IsSubsequence xs ys → IsSubsequence (xs ++ z ∷ []) (ys ++ z ∷ [])
  IsSubsequence-snoc [] ys z h = IsSubsequence-last z ys
  IsSubsequence-snoc (x ∷ xs) [] z h = absurd h
  IsSubsequence-snoc (x ∷ xs) (y ∷ ys) z (inl (e, h)) = inl (e, IsSubsequence-snoc xs ys z h)
  IsSubsequence-snoc (x ∷ xs) (y ∷ ys) z (inr h) = inr (IsSubsequence-snoc (x ∷ xs) ys z h)
