-- ===== src/Workflows/Subnet/Run.antt =====
-- The whole subnet change (`change_site_subnet_via_nvr` of workflows/site_subnet_change.py).
pub mod Settled
pub mod Calls
pub mod Writes
use pytvt.Prelude.{
  ℕ, String, Bool, true, false, not, ◌&&◌, Option, none, some, List, [], ◌∷◌, ◌++◌, str_eq, ◌==◌,
  if◌then◌else◌, length, filter, count_if, is_empty, map,
}
use pytvt.Prelude.Dict.{Dict}
use pytvt.Workflows.Base.{
  str, num, flag, Text, info, success, warning, error, event, Outcome, returns, raises, Raised,
  precheck_error, workflow_error, value_error,
}
use pytvt.Workflows.Client.{Network, IpAddress, NvrClient, Act, pure, emit, settle, ◌>>=◌, ◌>>◌}
use pytvt.Workflows.Rotate.{RotateArgs}
use pytvt.Workflows.Rotate.Select.{PasswordRotateResult, contains}
use pytvt.Workflows.Rotate.Run.{rotate_nvr_channel_passwords}
use pytvt.Workflows.Subnet.{
  Source, channel, channel_free, free, CameraReaddressPlan, CameraReaddressResult, SubnetArgs,
  SiteSubnetChangeResult, result_of, planned, is_failed, is_readdressed,
}
use pytvt.Workflows.Subnet.Targets.{collect_targets}
use pytvt.Workflows.Subnet.Readdress.{ReaddressState, readdress_all}
use pytvt.Workflows.Subnet.Stored.{StoredState, store_all, successful_new_ips}

-- The text of the `ValueError` of a subnet that is no network is not kept.
-- `not new_camera_password`, and `new_camera_password == camera_password`
no_password : Option String → Bool
no_password none = true
no_password (some t) = str_eq t ""

same_password : Option String → String → Bool
same_password none p = false
same_password (some t) p = str_eq t p

pub source_text : Source → String
source_text channel = "channel"
source_text channel_free = "channel+free"
source_text free = "free"

-- The choice of `target_ips`.
pub chosen :
    (String → String)
    → Option (List String)
    → List CameraReaddressPlan × Dict String
    → List CameraReaddressPlan × Dict String
chosen strip none t = t
chosen strip (some target_ips) (plans, stored) =
    let kept =
      filter (λ (p : CameraReaddressPlan). contains (map strip target_ips) p.old_ip) plans in
    (
      kept,
      filter
          (λ (d : String × String). contains (map (λ (p : CameraReaddressPlan). p.new_ip) kept) d.1)
          stored,
    )

module _ (strip : String → String) (c : NvrClient) (ip : IpAddress) (a : SubnetArgs)
    (old_net new_net : Network) where
  report : Bool → ℕ → List CameraReaddressResult → Text → SiteSubnetChangeResult
  report dry total results e = record {
    nvr_host = NvrClient.host c;
    old_subnet = ip.str_network old_net;
    new_subnet = ip.str_network new_net;
    dry_run = dry;
    cameras_total = total;
    cameras_readdressed = 0;
    cameras_failed = 0;
    channels_ip_updated = 0;
    password_rotation = none;
    results = results;
    error = e;
  }

  -- The loop of the dry run.
  pub plan_all : List CameraReaddressPlan → Act c (List CameraReaddressResult)
  plan_all [] = pure []
  plan_all (p ∷ ps) = do
    emit (record {
      level = info;
      code = "camera.plan";
      message =
          str "[DRY-RUN] "
          ∷ str p.old_ip
          ∷ str " -> "
          ∷ str p.new_ip
          ∷ str " ("
          ∷ str (source_text p.source)
          ∷ str ")"
          ∷ [];
      context =
          ("old_ip", str p.old_ip)
          ∷ ("new_ip", str p.new_ip)
          ∷ ("mac", str p.mac)
          ∷ ("netmask", str p.netmask)
          ∷ ("gateway", str p.gateway)
          ∷ ("source", str (source_text p.source))
          ∷ [];
    })
    rest ← plan_all ps
    pure (result_of p planned [] ∷ rest)

  dry_run_report : List CameraReaddressPlan → Act c (Outcome SiteSubnetChangeResult)
  unfolding report plan_all
  dry_run_report plans = do
    results ← plan_all plans
    pure (returns (report true (length plans) results []))

  final_report :
      List CameraReaddressPlan
      → StoredState
      → Option PasswordRotateResult
      → Act c (Outcome SiteSubnetChangeResult)
  unfolding report
  final_report plans st rotation = do
    let failed = count_if is_failed st.results
    let moved = count_if is_readdressed st.results
    emit (record {
      level = if failed == 0 then success else warning;
      code = "workflow.done";
      message =
          str "Done: readdressed="
          ∷ num moved
          ∷ str " channel_ip_updated="
          ∷ num st.channels_ip_updated
          ∷ str " failed="
          ∷ num failed
          ∷ [];
      context =
          ("readdressed", num moved)
          ∷ ("channel_ip_updated", num st.channels_ip_updated)
          ∷ ("failed", num failed)
          ∷ [];
    })
    pure (
        returns (record (report false (length plans) st.results []) {
          cameras_readdressed = moved;
          cameras_failed = failed;
          channels_ip_updated = st.channels_ip_updated;
          password_rotation = rotation;
        }))

  -- After the rotation: `except WorkflowError` catches its subclass `WorkflowPrecheckError` too.
  pub rotated :
      List CameraReaddressPlan
      → StoredState
      → Outcome PasswordRotateResult
      → Act c (Outcome SiteSubnetChangeResult)
  rotated plans st (returns r) = final_report plans st (some r)
  rotated plans st (raises (workflow_error e)) = do
    emit (event error "password_rotate.failed" (str "password rotation failed: " ∷ e))
    final_report plans st none
  rotated plans st (raises (precheck_error e)) = do
    emit (event error "password_rotate.failed" (str "password rotation failed: " ∷ e))
    final_report plans st none
  rotated plans st (raises value_error) = pure (raises value_error)

  rotate_args : RotateArgs
  rotate_args = record {
    old_password = a.camera_password;
    new_password = elim a.new_camera_password [ none ↦ "" | some p ↦ p ];
    username = a.camera_username;
    subnet = some (ip.str_network new_net);
    channel_ids = none;
    apply = true;
    include_online = false;
  }

  -- Step 4 and the report.
  rotation_step : List CameraReaddressPlan → StoredState → Act c (Outcome SiteSubnetChangeResult)
  rotation_step plans st =
      if a.rotate_passwords
      then (do
        emit (
            event info "step.password_rotate"
              (str "Rotating IPC passwords across migrated channels" ∷ []))
        outcome ← rotate_nvr_channel_passwords c ip rotate_args
        rotated plans st outcome)
      else final_report plans st none

  wait : List String → Act c (Unit {0})
  wait [] = pure tt
  wait (_ ∷ _) = do
    emit (
        event info "step.settle"
          (str "Waiting " ∷ num a.settle_seconds ∷ str "s for cameras to apply new addresses" ∷ []))
    settle

  apply_steps : List CameraReaddressPlan → Dict String → Act c (Outcome SiteSubnetChangeResult)
  apply_steps plans stored = do
    emit (
        event info "step.readdress.start"
          (str "Readdressing " ∷ num (length plans) ∷ str " camera(s) via editDevNetworkList" ∷ []))
    st ←
        readdress_all c ip a old_net new_net plans
          (record { readdressed_new_ips = []; results = [] })
    wait st.readdressed_new_ips
    st' ←
        store_all c (successful_new_ips st.results) stored
          (record { channels_ip_updated = 0; results = st.results })
    rotation_step plans st'

  noop : Act c (Outcome SiteSubnetChangeResult)
  unfolding report
  noop = do
    emit (
        event success "workflow.noop"
          (str "No cameras found in " ∷ str (ip.str_network old_net) ∷ str "; nothing to do." ∷ []))
    pure (returns (report (not a.apply) 0 [] []))

  pub migrate : List CameraReaddressPlan × Dict String → Act c (Outcome SiteSubnetChangeResult)
  migrate (plans, stored) = do
    emit (record {
      level = info;
      code = "workflow.start";
      message =
          str "Subnet migration on "
          ∷ str (NvrClient.host c)
          ∷ str ": "
          ∷ str (ip.str_network old_net)
          ∷ str " -> "
          ∷ str (ip.str_network new_net)
          ∷ str " ("
          ∷ num (length plans)
          ∷ str " camera(s), "
          ∷ str (if a.apply then "APPLY" else "DRY-RUN")
          ∷ str ")"
          ∷ [];
      context =
          ("nvr_host", str (NvrClient.host c))
          ∷ ("old_subnet", str (ip.str_network old_net))
          ∷ ("new_subnet", str (ip.str_network new_net))
          ∷ ("cameras_in_scope", num (length plans))
          ∷ ("apply", flag a.apply)
          ∷ [];
    })
    if is_empty plans
        then noop
        else if a.apply
        then apply_steps plans stored
        else dry_run_report plans

  targets_found :
      Outcome (List CameraReaddressPlan × Dict String) → Act c (Outcome SiteSubnetChangeResult)
  unfolding report
  targets_found (returns t) = migrate (chosen strip a.target_ips t)
  targets_found (raises (workflow_error e)) = pure (returns (report (not a.apply) 0 [] e))
  targets_found (raises (precheck_error e)) = pure (returns (report (not a.apply) 0 [] e))
  targets_found (raises value_error) = pure (raises value_error)

  pub in_networks : Act c (Outcome SiteSubnetChangeResult)
  in_networks =
      if not (old_net.prefixlen == new_net.prefixlen)
      then pure (
          raises (
            precheck_error (str "old_subnet and new_subnet must have the same prefix length" ∷ [])))
      else if ip.overlaps old_net new_net
      then pure (
          raises (
            precheck_error (
              str "old_subnet "
              ∷ str (ip.str_network old_net)
              ∷ str " overlaps new_subnet "
              ∷ str (ip.str_network new_net)
              ∷ [])))
      else (do outcome ← collect_targets strip ip old_net new_net c; targets_found outcome)

module _ (strip : String → String) (c : NvrClient) (ip : IpAddress) (a : SubnetArgs) where
  precheck : String → Act c (Outcome SiteSubnetChangeResult)
  precheck t = pure (raises (precheck_error (str t ∷ [])))

  -- With what `ip_network` makes of the two texts.
  parsed : Option Network → Option Network → Act c (Outcome SiteSubnetChangeResult)
  unfolding precheck
  parsed none new = precheck "invalid subnet: "
  parsed (some old_net) none = precheck "invalid subnet: "
  parsed (some old_net) (some new_net) = in_networks strip c ip a old_net new_net

  pub change_site_subnet_via_nvr : Act c (Outcome SiteSubnetChangeResult)
  unfolding precheck no_password same_password parsed
  change_site_subnet_via_nvr =
      if str_eq a.camera_password ""
      then precheck "camera_password is required"
      else if a.rotate_passwords && no_password a.new_camera_password
      then precheck "new_camera_password is required when rotate_passwords=True"
      else if a.rotate_passwords && same_password a.new_camera_password a.camera_password
      then precheck "new_camera_password equals camera_password (no-op rotation)"
      else parsed (ip.ip_network a.old_subnet) (ip.ip_network a.new_subnet)
