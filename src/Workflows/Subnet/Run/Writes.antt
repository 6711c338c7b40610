-- ===== src/Workflows/Subnet/Run/Writes.antt =====
-- A subnet change writes what its plans say.
use mathlib.Core.Path.{subst}
use pytvt.Prelude.{
  String, ◌≡◌, refl, sym, false, List, [], ◌∷◌, All, All-mem-map, All-mem, Bool-cases, inl, inr,
}
use pytvt.Prelude.Dict.{Dict}
use pytvt.Workflows.Client.{Network, IpAddress, NvrClient, RunState}
use pytvt.Workflows.Subnet.{CameraReaddressPlan, SubnetArgs}
use pytvt.Workflows.Subnet.Planned.{Plans, IsPlanned, ends_of}
use pytvt.Workflows.Subnet.Readdress.Laws.{readdress_all-Follows}
use pytvt.Workflows.Subnet.Readdress.Calls.{readdress_all-Plans}
use pytvt.Workflows.Subnet.Stored.{StoredState}
use pytvt.Workflows.Subnet.Stored.Calls.{store_all-Plans}
use pytvt.Workflows.Subnet.Run.{
  final_report, rotation_step, wait, apply_steps, noop, dry_run_report, migrate,
}
use pytvt.Workflows.Subnet.Run.Calls.{plan_all-calls}

module _ (strip : String → String) (c : NvrClient) (ip : IpAddress) (a : SubnetArgs)
    (old_net new_net : Network) (ps : List CameraReaddressPlan) (stored : Dict String) where
  wait-Plans :
      (l : List String) (s : RunState c)
      → Plans ps stored s
      → Plans ps stored (wait strip c ip a old_net new_net l s).1
  unfolding wait
  wait-Plans [] s h = h
  wait-Plans (_ ∷ _) s h = record { calls_planned = h.calls_planned }

  rotation_step-Plans :
      (st : StoredState) (s : RunState c)
      → a.rotate_passwords ≡ false
      → Plans ps stored s
      → Plans ps stored (rotation_step strip c ip a old_net new_net ps st s).1
  unfolding rotation_step final_report
  rotation_step-Plans st s e h = simp e (record { calls_planned = h.calls_planned })

  apply_steps-Plans :
      (s : RunState c)
      → a.rotate_passwords ≡ false
      → Plans ps stored s
      → Plans ps stored (apply_steps strip c ip a old_net new_net ps stored s).1
  unfolding apply_steps
  apply_steps-Plans s e h = rotation_step-Plans _ _ e (
      store_all-Plans c ps stored _
        (readdress_all-Follows c ip a old_net new_net [] ps _ _
          (record { moves = refl; settled = tt }))
        stored _ _ (All-mem stored)
        (wait-Plans _ _ (
          readdress_all-Plans c ip a old_net new_net ps stored ps _ _ (All-mem-map ends_of ps)
            (record { calls_planned = h.calls_planned }))))

-- Without a password rotation, each writing call of a subnet change moves a camera from a plan's old
-- address to that plan's new one, or stores for a channel the address that was collected for it,
-- which is a plan's new address.
pub migrate_writes-IsPlanned :
    (strip : String → String) (c : NvrClient) (ip : IpAddress) (a : SubnetArgs)
    (old_net new_net : Network) (ps : List CameraReaddressPlan) (stored : Dict String)
    (s : RunState c)
    → a.rotate_passwords ≡ false
    → s.calls ≡ []
    → All (IsPlanned ps stored) (migrate strip c ip a old_net new_net (ps, stored) s).1.calls
unfolding migrate noop dry_run_report
migrate_writes-IsPlanned strip c ip a old_net new_net [] stored s e k =
    subst (All (IsPlanned [] stored)) (sym k) tt
migrate_writes-IsPlanned strip c ip a old_net new_net (p ∷ ps) stored s e k =
    elim (Bool-cases a.apply) [
      | inl f ↦
          simp f
            (apply_steps-Plans strip c ip a old_net new_net (p ∷ ps) stored _ e
              (record { calls_planned = none_yet })).calls_planned
      | inr f ↦ simp f (
          subst (All (IsPlanned (p ∷ ps) stored))
            (sym (plan_all-calls strip c ip a old_net new_net (p ∷ ps) _)) none_yet)
    ]
  where
    none_yet : All (IsPlanned (p ∷ ps) stored) s.calls
    none_yet = subst (All (IsPlanned (p ∷ ps) stored)) (sym k) tt
