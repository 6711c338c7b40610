-- ===== src/Workflows/Subnet/Readdress/Laws.antt =====
-- Step 2 gives every plan one result, in order.
use mathlib.Core.Path.{subst}
use mathlib.Core.List.{map-append, append_assoc, append-nil}
use pytvt.Prelude.{◌≡◌, refl, List, [], ◌∷◌, ◌++◌, All-append}
use pytvt.Workflows.Base.{Reply, ok, exc, nvr_api_error, other_error}
use pytvt.Workflows.Client.{Network, IpAddress, NvrClient, RunState}
use pytvt.Workflows.Subnet.{CameraReaddressPlan, CameraReaddressResult, SubnetArgs}
use pytvt.Workflows.Subnet.Follows.{Follows, move_of, move_planned, IsSettled}
use pytvt.Workflows.Subnet.Readdress.{ReaddressState, answered, readdress_step, readdress_all}

Follows-snoc :
    (ps : List CameraReaddressPlan) (p : CameraReaddressPlan) (rs : List CameraReaddressResult)
    (r : CameraReaddressResult)
    → Follows ps rs
    → move_of r ≡ move_planned p
    → IsSettled r
    → Follows (ps ++ p ∷ []) (rs ++ r ∷ [])
Follows-snoc ps p rs r h e i = record {
  moves = rw (map-append move_of rs (r ∷ []), map-append move_planned ps (p ∷ []), h.moves, e) refl;
  settled = All-append IsSettled rs (r ∷ []) h.settled (i, tt);
}

module _ (c : NvrClient) (ip : IpAddress) (a : SubnetArgs) (old_net new_net : Network) where
  answered-Follows :
      (done : List CameraReaddressPlan) (p : CameraReaddressPlan) (st : ReaddressState)
      (r : Reply (Unit {0})) (s : RunState c)
      → Follows done st.results
      → Follows (done ++ p ∷ []) (answered c ip a old_net new_net p st r s).0.results
  unfolding answered
  answered-Follows done p st (ok _) s h = Follows-snoc done p st.results _ h refl (refl, refl)
  answered-Follows done p st (exc (nvr_api_error e)) s h =
      Follows-snoc done p st.results _ h refl (refl, refl)
  answered-Follows done p st (exc (other_error e)) s h =
      Follows-snoc done p st.results _ h refl (refl, refl)

  pub readdress_all-Follows :
      (done ps : List CameraReaddressPlan) (st : ReaddressState) (s : RunState c)
      → Follows done st.results
      → Follows (done ++ ps) (readdress_all c ip a old_net new_net ps st s).0.results
  unfolding readdress_all readdress_step
  readdress_all-Follows done [] st s h = rw append-nil h
  readdress_all-Follows done (p ∷ ps) st s h =
      subst (λ l. Follows l (readdress_all c ip a old_net new_net (p ∷ ps) st s).0.results)
        (append_assoc done (p ∷ []) ps)
        (readdress_all-Follows (done ++ p ∷ []) ps _ _ (answered-Follows done p st _ _ h))
