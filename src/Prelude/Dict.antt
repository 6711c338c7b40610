-- ===== src/Prelude/Dict.antt =====
-- Python's dict with text keys, as the list of its items in insertion order.
use mathlib.Core.List.{Perm}
use mathlib.Core.List.Perm
use Prim.Native.String.{String}
use mathlib.Core.Path.{◌≡◌, refl, ap}
use mathlib.Core.Logic.{inl, inr}
use mathlib.Core.Option.{Option, none, some}
use mathlib.Core.List.{List, [], ◌∷◌, map}
use native.Mathlib.Omega.{arith}
use text.Mathlib.Text.{◌==◌}
use text.Mathlib.TextEquality.{eq_iff}
use pytvt.Prelude.Tests.{if◌then◌else◌, Bool-cases}

abbrev pub Dict {ℓ} : Type ℓ → Type ℓ
Dict V = List (String × V)

module _ {ℓ} {V : Type ℓ} where
  -- `d.get(k)`
  unfoldable pub get : String → Dict V → Option V
  get k [] = none
  get k ((j, v) ∷ d) = let rest = get k d in if j == k then some v else rest

  -- `d[k] = v`: the item keeps its place, or a new one comes last.
  pub put : String → V → Dict V → Dict V
  put k v [] = (k, v) ∷ []
  put k v ((j, w) ∷ d) = let rest = put k v d in if j == k then (j, v) ∷ d else (j, w) ∷ rest

  -- `del d[k]`, which changes nothing where there is no such key.
  pub erase : String → Dict V → Dict V
  erase k [] = []
  erase k ((j, w) ∷ d) = let rest = erase k d in if j == k then d else (j, w) ∷ rest

  abbrev pub values : Dict V → List V
  values d = map (λ (e : String × V). e.1) d

  abbrev pub keys : Dict V → List String
  keys d = map (λ (e : String × V). e.0) d

  pub get-put :
      (k j : String) (v : V) (d : Dict V) → get j (put k v d) ≡ (if k == j then some v else get j d)
  unfolding get put
  get-put k j v [] = refl
  get-put k j v ((i, w) ∷ d) = ground (arith, eq_iff k j, eq_iff i k, eq_iff i j, get-put k j v d)

  pub put_new-perm :
      (k : String) (v : V) (d : Dict V) → get k d ≡ none → Perm (values (put k v d)) (v ∷ values d)
  unfolding get put
  put_new-perm k v [] h = Perm.refl (v ∷ [])
  put_new-perm k v ((j, w) ∷ d) h = elim (Bool-cases (j == k)) [
    | inl e ↦ absurd (ground arith)
    | inr e ↦
        rw e
          (Perm.trans (Perm.cons w (put_new-perm k v d (ground arith))) (Perm.swap v w (values d)))
  ]

  pub put_old-perm :
      (k : String) (v old : V) (d : Dict V)
      → get k d ≡ some old
      → Perm (old ∷ values (put k v d)) (v ∷ values d)
  unfolding get put
  put_old-perm k v old [] h = absurd (ground arith)
  put_old-perm k v old ((j, w) ∷ d) h = elim (Bool-cases (j == k)) [
    | inl e ↦ rw e (let p : w ≡ old = ground arith in rw p (Perm.swap v old (values d)))
    | inr e ↦ rw e (
        Perm.trans (Perm.swap w old (values (put k v d))) (
          Perm.trans (Perm.cons w (put_old-perm k v old d (ground arith)))
            (Perm.swap v w (values d))))
  ]

  pub erase-perm :
      (k : String) (old : V) (d : Dict V)
      → get k d ≡ some old
      → Perm (old ∷ values (erase k d)) (values d)
  unfolding get erase
  erase-perm k old [] h = absurd (ground arith)
  erase-perm k old ((j, w) ∷ d) h = elim (Bool-cases (j == k)) [
    | inl e ↦ rw e (let p : w ≡ old = ground arith in rw p (Perm.refl (old ∷ values d)))
    | inr e ↦ rw e (
        Perm.trans (Perm.swap w old (values (erase k d)))
          (Perm.cons w (erase-perm k old d (ground arith))))
  ]

module _ {ℓ κ} {V : Type ℓ} {B : Type κ} where
  -- An update that leaves `f` alone.
  pub map-put_same :
      (f : V → B) (k : String) (v old : V) (d : Dict V)
      → get k d ≡ some old
      → f v ≡ f old
      → map f (values (put k v d)) ≡ map f (values d)
  unfolding get put
  map-put_same f k v old [] h e = absurd (ground arith)
  map-put_same f k v old ((j, w) ∷ d) h e = elim (Bool-cases (j == k)) [
    | inl q ↦ rw q (let p : w ≡ old = ground arith in rw (p, e) refl)
    | inr q ↦ rw q (ap (λ l. f w ∷ l) (map-put_same f k v old d (ground arith) e))
  ]
