-- ===== src/Workflows/Subnet/Stored/Calls.antt =====
-- Step 3 stores the collected address of a channel, and only one that a camera was moved to.
use mathlib.Core.List.{Mem}
use pytvt.Prelude.{
  String, ◌≡◌, refl, sym, ◌∙◌, ap, true, List, [], ◌∷◌, map, filter, All, Bool-cases, inl, inr,
  arith,
}
use pytvt.Prelude.Dict.{Dict}
use pytvt.Workflows.Base.{Reply, ok, exc}
use pytvt.Workflows.Client.{NvrClient, RunState}
use pytvt.Workflows.Rotate.Select.{contains}
use pytvt.Workflows.Subnet.{CameraReaddressPlan, CameraReaddressResult}
use pytvt.Workflows.Subnet.Follows.{Follows, move_of, move_planned}
use pytvt.Workflows.Subnet.Planned.{Plans, Plans-call, new_ips}
use pytvt.Workflows.Subnet.Stored.{StoredState, edited, store_step, store_all, successful_new_ips}

contains-successful :
    (n : String) (rs : List CameraReaddressResult)
    → contains (successful_new_ips rs) n ≡ true
    → contains (map (λ (r : CameraReaddressResult). r.new_ip) rs) n ≡ true
unfolding contains successful_new_ips filter
contains-successful n [] h = h
contains-successful n (r ∷ rs) h = ground (arith, contains-successful n rs)

-- The second of three, of all results and of all plans.
second_of_results :
    (rs : List CameraReaddressResult)
    → map (λ (t : String × String × String). t.1) (map move_of rs)
      ≡ map (λ (r : CameraReaddressResult). r.new_ip) rs
second_of_results [] = refl
second_of_results (r ∷ rs) = ap (λ l. r.new_ip ∷ l) (second_of_results rs)

second_of_plans :
    (ps : List CameraReaddressPlan)
    → map (λ (t : String × String × String). t.1) (map move_planned ps) ≡ new_ips ps
second_of_plans [] = refl
second_of_plans (p ∷ ps) = ap (λ l. p.new_ip ∷ l) (second_of_plans ps)

pub successful-planned :
    (n : String) (ps : List CameraReaddressPlan) (rs : List CameraReaddressResult)
    → Follows ps rs
    → contains (successful_new_ips rs) n ≡ true
    → contains (new_ips ps) n ≡ true
successful-planned n ps rs f h =
    ap (λ l. contains l n)
      (sym (second_of_plans ps)
        ∙ ap (map (λ (t : String × String × String). t.1)) (sym f.moves)
        ∙ second_of_results rs)
    ∙ contains-successful n rs h

module _ (c : NvrClient) (ps : List CameraReaddressPlan) (all : Dict String)
    (rs : List CameraReaddressResult) (f : Follows ps rs) where
  edited-Plans :
      (d n : String) (st : StoredState) (r : Reply Unit) (s : RunState c)
      → Plans ps all s
      → Plans ps all (edited c (successful_new_ips rs) d n st r s).1
  unfolding edited
  edited-Plans d n st (ok _) s h = record { calls_planned = h.calls_planned }
  edited-Plans d n st (exc e) s h = record { calls_planned = h.calls_planned }

  store_step-Plans :
      (d n : String) (st : StoredState) (s : RunState c)
      → Mem (d, n) all
      → Plans ps all s
      → Plans ps all (store_step c (successful_new_ips rs) d n st s).1
  unfolding store_step
  store_step-Plans d n st s m h = elim (Bool-cases (contains (successful_new_ips rs) n)) [
    | inl e ↦
        rw e
          (edited-Plans d n st _ _ (Plans-call ps all _ _ _ (m, successful-planned n ps rs f e) h))
    | inr e ↦ rw e h
  ]

  pub store_all-Plans :
      (d : Dict String) (st : StoredState) (s : RunState c)
      → All (λ x. Mem x all) d
      → Plans ps all s
      → Plans ps all (store_all c (successful_new_ips rs) d st s).1
  unfolding store_all
  store_all-Plans [] st s m h = h
  store_all-Plans ((k, n) ∷ d) st s m h =
      store_all-Plans d _ _ m.1 (store_step-Plans k n st s m.0 h)
