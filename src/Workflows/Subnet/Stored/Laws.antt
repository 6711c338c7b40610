-- ===== src/Workflows/Subnet/Stored/Laws.antt =====
-- Step 3 keeps the results' cameras, and only turns a readdressed one into a failed one.
use pytvt.Prelude.{
  String, ◌≡◌, refl, ◌∙◌, ap, ◌&&◌, List, [], ◌∷◌, map, All, str_eq, Bool-cases, inl, inr,
}
use pytvt.Prelude.Dict.{Dict}
use pytvt.Workflows.Base.{Text, Reply, ok, exc, exc_text}
use pytvt.Workflows.Client.{NvrClient, RunState}
use pytvt.Workflows.Rotate.Select.{contains}
use pytvt.Workflows.Subnet.{CameraReaddressPlan, CameraReaddressResult, is_readdressed}
use pytvt.Workflows.Subnet.Follows.{Follows, move_of, IsSettled}
use pytvt.Workflows.Subnet.Stored.{StoredState, annotate, edited, store_step, store_all}

annotate-moves :
    (t : String) (e : Text) (rs : List CameraReaddressResult)
    → map move_of (annotate t e rs) ≡ map move_of rs
unfolding annotate
annotate-moves t e [] = refl
annotate-moves t e (r ∷ rs) = elim (Bool-cases (str_eq r.new_ip t && is_readdressed r)) [
  | inl b ↦ rw b refl
  | inr b ↦ rw b (ap (λ x. move_of r ∷ x) (annotate-moves t e rs))
]

annotate-IsSettled :
    (t : String) (e : Text) (rs : List CameraReaddressResult)
    → All IsSettled rs
    → All IsSettled (annotate t e rs)
unfolding annotate
annotate-IsSettled t e [] h = tt
annotate-IsSettled t e (r ∷ rs) h = elim (Bool-cases (str_eq r.new_ip t && is_readdressed r)) [
  | inl b ↦ rw b ((refl, refl), h.1)
  | inr b ↦ rw b (h.0, annotate-IsSettled t e rs h.1)
]

module _ (c : NvrClient) (successful : List String) (ps : List CameraReaddressPlan) where
  edited-Follows :
      (d n : String) (st : StoredState) (r : Reply (Unit {0})) (s : RunState c)
      → Follows ps st.results
      → Follows ps (edited c successful d n st r s).0.results
  unfolding edited
  edited-Follows d n st (ok _) s h = h
  edited-Follows d n st (exc e) s h = record {
    moves = annotate-moves n (exc_text e) st.results ∙ h.moves;
    settled = annotate-IsSettled n (exc_text e) st.results h.settled;
  }

  store_step-Follows :
      (d n : String) (st : StoredState) (s : RunState c)
      → Follows ps st.results
      → Follows ps (store_step c successful d n st s).0.results
  unfolding store_step
  store_step-Follows d n st s h = elim (Bool-cases (contains successful n)) [
    | inl e ↦ rw e (edited-Follows d n st _ _ h)
    | inr e ↦ rw e h
  ]

  pub store_all-Follows :
      (d : Dict String) (st : StoredState) (s : RunState c)
      → Follows ps st.results
      → Follows ps (store_all c successful d st s).0.results
  unfolding store_all
  store_all-Follows [] st s h = h
  store_all-Follows ((d, n) ∷ rest) st s h =
      store_all-Follows rest _ _ (store_step-Follows d n st s h)
