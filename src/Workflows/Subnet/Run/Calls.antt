-- ===== src/Workflows/Subnet/Run/Calls.antt =====
-- What a subnet change writes.
use pytvt.Prelude.{
  String, ◌≡◌, refl, ◌∙◌, true, false, Option, none, some, not, List, [], ◌∷◌, Bool-cases, inl, inr,
  str_eq, ◌==◌, ◌&&◌, ◌⊎◌,
}
use pytvt.Prelude.Dict.{Dict}
use pytvt.Workflows.Base.{Outcome, returns, raises, value_error, workflow_error, precheck_error}
use pytvt.Workflows.Client.{Network, IpAddress, NvrClient, RunState}
use pytvt.Workflows.Subnet.{CameraReaddressPlan, SubnetArgs}
use pytvt.Workflows.Subnet.Targets.Quiet.{collect_targets-quiet}
use pytvt.Workflows.Subnet.Run.{
  plan_all, dry_run_report, noop, migrate, targets_found, in_networks, parsed, precheck, chosen,
  change_site_subnet_via_nvr, no_password, same_password,
}

module _ (strip : String → String) (c : NvrClient) (ip : IpAddress) (a : SubnetArgs)
    (old_net new_net : Network) where
  pub plan_all-calls :
      (ps : List CameraReaddressPlan) (s : RunState c)
      → (plan_all strip c ip a old_net new_net ps s).1.calls ≡ s.calls
  unfolding plan_all
  plan_all-calls [] s = refl
  plan_all-calls (p ∷ ps) s = plan_all-calls ps _

  migrate-calls :
      (t : List CameraReaddressPlan × Dict String) (s : RunState c)
      → a.apply ≡ false
      → (migrate strip c ip a old_net new_net t s).1.calls ≡ s.calls
  unfolding migrate noop dry_run_report
  migrate-calls ([], d) s h = refl
  migrate-calls (p ∷ ps, d) s h = simp h (plan_all-calls (p ∷ ps) _)

  targets_found-calls :
      (o : Outcome (List CameraReaddressPlan × Dict String)) (s : RunState c)
      → a.apply ≡ false
      → (targets_found strip c ip a old_net new_net o s).1.calls ≡ s.calls
  unfolding targets_found
  targets_found-calls (returns t) s h = migrate-calls (chosen strip a.target_ips t) s h
  targets_found-calls (raises (workflow_error e)) s h = refl
  targets_found-calls (raises (precheck_error e)) s h = refl
  targets_found-calls (raises value_error) s h = refl

  in_networks-calls :
      (s : RunState c)
      → a.apply ≡ false
      → (in_networks strip c ip a old_net new_net s).1.calls ≡ s.calls
  unfolding in_networks
  in_networks-calls s h = elim (Bool-cases (not (old_net.prefixlen == new_net.prefixlen))) [
    | inl e ↦ rw e refl
    | inr e ↦ elim (Bool-cases (ip.overlaps old_net new_net)) [
      | inl f ↦ rw (e, f) refl
      | inr f ↦
          rw (e, f) (targets_found-calls _ _ h ∙ collect_targets-quiet strip ip old_net new_net c s)
    ]
  ]

parsed-calls :
    (strip : String → String) (c : NvrClient) (ip : IpAddress) (a : SubnetArgs)
    (o n : Option Network) (s : RunState c)
    → a.apply ≡ false
    → (parsed strip c ip a o n s).1.calls ≡ s.calls
unfolding parsed precheck
parsed-calls strip c ip a none n s h = refl
parsed-calls strip c ip a (some o) none s h = refl
parsed-calls strip c ip a (some o) (some n) s h = in_networks-calls strip c ip a o n s h

-- Without `apply` a subnet change makes no writing call, however it ends.
pub subnet_dry_run_quiet :
    (strip : String → String) (c : NvrClient) (ip : IpAddress) (a : SubnetArgs) (s : RunState c)
    → a.apply ≡ false
    → (change_site_subnet_via_nvr strip c ip a s).1.calls ≡ s.calls
unfolding change_site_subnet_via_nvr
subnet_dry_run_quiet strip c ip a s h =
    go (Bool-cases (str_eq a.camera_password ""))
      (Bool-cases (a.rotate_passwords && no_password a.new_camera_password))
      (Bool-cases (a.rotate_passwords && same_password a.new_camera_password a.camera_password))
  where
    go :
        (str_eq a.camera_password "" ≡ true) ⊎ (str_eq a.camera_password "" ≡ false)
        → (a.rotate_passwords && no_password a.new_camera_password ≡ true)
          ⊎ (a.rotate_passwords && no_password a.new_camera_password ≡ false)
        → (a.rotate_passwords && same_password a.new_camera_password a.camera_password ≡ true)
          ⊎ (a.rotate_passwords && same_password a.new_camera_password a.camera_password ≡ false)
        → (change_site_subnet_via_nvr strip c ip a s).1.calls ≡ s.calls
    go (inl e) f g = rw e refl
    go (inr e) (inl f) g = rw (e, f) refl
    go (inr e) (inr f) (inl g) = rw (e, f, g) refl
    go (inr e) (inr f) (inr g) = rw (e, f, g) (parsed-calls strip c ip a _ _ s h)
