-- ===== src/Workflows/Rotate/Run.antt =====
-- The whole password rotation (`rotate_nvr_channel_passwords` of workflows/password_rotate.py):
-- prechecks, discovery, dry run, the passes and the report.
pub mod Accounting
pub mod Passes
pub mod Scope
pub mod Calls
pub mod Errors
use pytvt.Prelude.{
  ℕ, ◌+◌, String, Bool, true, false, not, ◌&&◌, Option, none, some, List, [], ◌∷◌, ◌++◌, map, ◌==◌,
  str_eq, if◌then◌else◌, length, filter, count_if, is_empty,
}
use pytvt.Workflows.Base.{
  str, num, flag, Text, is_blank, success, info, warning, event, exc_text, Reply, ok, exc, Outcome,
  returns, raises, precheck_error, workflow_error, value_error,
}
use pytvt.Workflows.Client.{
  Channel, Network, IpAddress, NvrClient, Act, pure, ask, emit, settle, ◌>>=◌, ◌>>◌,
}
use pytvt.Workflows.Rotate.{
  ChannelRotationResult, RotateArgs, already_in_sync, skipped, is_failed, result, label,
  channel_context,
}
use pytvt.Workflows.Rotate.Force.{ForceTally, force_rotate_online}
use pytvt.Workflows.Rotate.PassA.{PushState, SortState, push_all, fresh, sort_all}
use pytvt.Workflows.Rotate.PassB.{RotateState, rotate_all}
use pytvt.Workflows.Rotate.Select.{
  PasswordRotateResult, candidates, online, offline, force_online, already_ok, failures,
  in_sync_results,
}

module _ (c : NvrClient) (a : RotateArgs) (cands : List Channel) where
  report : Bool → ℕ → ℕ → ℕ → ℕ → List ChannelRotationResult → PasswordRotateResult
  report dry rotated synced already failed results = record {
    nvr_host = NvrClient.host c;
    dry_run = dry;
    channels_total = length cands;
    channels_rotated = rotated;
    channels_synced = synced;
    channels_already_ok = already;
    channels_failed = failed;
    results = results;
    error = [];
  }

  noop : Act c (Outcome PasswordRotateResult)
  unfolding report in_sync_results
  noop = do
    emit (
        event success "workflow.noop" (str "All channels already in sync; nothing to rotate." ∷ []))
    pure (
        returns (
          report (not a.apply) 0 0 (length (already_ok a cands)) 0
            (in_sync_results (already_ok a cands))))

  -- The two loops of the dry run, with the end of the message and the recorded reason.
  plan : String → String → List Channel → Act c (List ChannelRotationResult)
  plan ending reason [] = pure []
  plan ending reason (ch ∷ chs) = do
    emit (record {
      level = info;
      code = "channel.candidate";
      message = str "[DRY-RUN] " ∷ label ch ++ str ending ∷ [];
      context = channel_context ch ++ ("dev_id", str ch.dev_id) ∷ [];
    })
    rest ← plan ending reason chs
    pure (result ch skipped (str reason ∷ []) ∷ rest)

  dry_run_report : Act c (Outcome PasswordRotateResult)
  unfolding report in_sync_results plan
  dry_run_report = do
    forced ← plan " — force-rotate (online)" "dry-run (force-online)" (force_online a cands)
    rest ← plan " — needs rotation" "dry-run" (offline cands)
    pure (
        returns (
          report true 0 0 (length (already_ok a cands)) 0
            (in_sync_results (already_ok a cands) ++ (forced ++ rest))))

  -- The end of a run that had nothing offline.
  pub forced_report : ForceTally → List ChannelRotationResult → Act c (Outcome PasswordRotateResult)
  unfolding report
  forced_report forced results = do
    emit (
        event (if failures results == 0 then success else warning) "workflow.done" (
          str "Done: rotated="
          ∷ num forced.rotated
          ∷ str " already-ours="
          ∷ num forced.already
          ∷ str " failed="
          ∷ num (failures results)
          ∷ []))
    pure (
        returns (
          report false forced.rotated 0 (length (already_ok a cands) + forced.already)
            (failures results) results))

  done_report : ForceTally → ℕ → RotateState → Act c (Outcome PasswordRotateResult)
  unfolding report
  done_report forced synced st = do
    settle
    let failed = failures st.results
    let already = length (already_ok a cands) + forced.already
    let rotated = length st.rotated + forced.rotated
    emit (record {
      level = if failed == 0 then success else warning;
      code = "workflow.done";
      message =
          str "Done: already="
          ∷ num already
          ∷ str " synced="
          ∷ num synced
          ∷ str " rotated="
          ∷ num rotated
          ∷ str " failed="
          ∷ num failed
          ∷ [];
      context =
          ("already", num already)
          ∷ ("synced", num synced)
          ∷ ("rotated", num rotated)
          ∷ ("failed", num failed)
          ∷ [];
    })
    pure (returns (report false rotated synced already failed st.results))

  pass_b : ForceTally → SortState → Act c (Outcome PasswordRotateResult)
  unfolding report
  pass_b forced st =
      if is_empty st.still_offline
      then pure (
          returns (
            report false forced.rotated (length st.synced)
              (length (already_ok a cands) + forced.already) (failures st.results) st.results))
      else (do
        emit (
            event info "pass_b.start" (
              str "Pass B: rotating camera password via NVR for "
              ∷ num (length st.still_offline)
              ∷ str " channel(s)"
              ∷ []))
        st' ← rotate_all c a st.still_offline (record { rotated = []; results = st.results })
        done_report forced (length st.synced) st')

  -- After the second query.
  requeried : ForceTally → PushState → Reply (List Channel) → Act c (Outcome PasswordRotateResult)
  requeried forced st (exc e) =
      pure (raises (workflow_error (str "query_channels failed after Pass A: " ∷ exc_text e)))
  requeried forced st (ok chs) = do
    sorted ←
        sort_all c (fresh chs) st.attempted
          (record { synced = []; still_offline = []; results = st.results })
    pass_b forced sorted

  pub pass_a : ForceTally → List ChannelRotationResult → Act c (Outcome PasswordRotateResult)
  pass_a forced results = do
    emit (
        event info "pass_a.start" (
          str "Pass A: syncing NVR stored creds to new password for "
          ∷ num (length (offline cands))
          ∷ str " channel(s)"
          ∷ []))
    st ← push_all c a (offline cands) (record { attempted = []; results = results })
    settle
    latest ← ask (NvrClient.query_channels c)
    requeried forced st latest

  pub force_pass : Act c ForceTally
  force_pass =
      if is_empty (force_online a cands)
      then pure (record { rotated = 0; already = 0; out = [] })
      else (do
        emit (
            event info "force.start" (
              str "Force pass: rotating "
              ∷ num (length (force_online a cands))
              ∷ str " online channel(s)"
              ∷ []))
        force_rotate_online c a (force_online a cands))

  apply_passes : Act c (Outcome PasswordRotateResult)
  apply_passes = do
    forced ← force_pass
    let results = in_sync_results (already_ok a cands) ++ forced.out
    if is_empty (offline cands) then forced_report forced results else pass_a forced results

  pub rotate_candidates : Act c (Outcome PasswordRotateResult)
  rotate_candidates = do
    emit (record {
      level = info;
      code = "workflow.start";
      message =
          str "Password rotation on "
          ∷ str (NvrClient.host c)
          ∷ str ": "
          ∷ num (length cands)
          ∷ str " channel(s) in scope ("
          ∷ str (if a.apply then "APPLY" else "DRY-RUN")
          ∷ str ")"
          ∷ [];
      context =
          ("nvr_host", str (NvrClient.host c))
          ∷ ("channels_in_scope", num (length cands))
          ∷ ("apply", flag a.apply)
          ∷ [];
    })
    if is_empty (offline cands) && is_empty (force_online a cands)
        then noop
        else if a.apply
        then apply_passes
        else dry_run_report

module _ (c : NvrClient) (ip : IpAddress) (a : RotateArgs) where
  query_failed : Text → PasswordRotateResult
  query_failed t = record {
    nvr_host = NvrClient.host c;
    dry_run = not a.apply;
    channels_total = 0;
    channels_rotated = 0;
    channels_synced = 0;
    channels_already_ok = 0;
    channels_failed = 0;
    results = [];
    error = str "query_channels failed: " ∷ t;
  }

  discovered : Reply (List Channel) → Act c (Outcome PasswordRotateResult)
  unfolding query_failed
  discovered (exc e) = pure (returns (query_failed (exc_text e)))
  discovered (ok chs) = elim (candidates ip a chs) [
    | none ↦ pure (raises value_error)
    | some cands ↦ rotate_candidates c a cands
  ]

  unfoldable pub rotate_nvr_channel_passwords : Act c (Outcome PasswordRotateResult)
  unfolding discovered
  rotate_nvr_channel_passwords =
      if str_eq a.new_password ""
      then pure (raises (precheck_error (str "new_password must be non-empty" ∷ [])))
      else if str_eq a.new_password a.old_password
      then pure (raises (precheck_error (str "new_password equals old_password (no-op)" ∷ [])))
      else (do all ← ask (NvrClient.query_channels c); discovered all)
