-- ===== src/Workflows/Rotate/PassB.antt =====
-- Pass B (workflows/password_rotate.py): for a channel that is still offline the old credential is
-- installed, the camera's password is changed, and the new credential is restored.
pub mod Laws
pub mod Calls
use pytvt.Prelude.{List, [], ◌∷◌, ◌++◌}
use pytvt.Workflows.Base.{
  str, success, warning, error, nvr_api_error, other_error, event, exc_text, Reply, ok, exc,
}
use pytvt.Workflows.Client.{
  Channel, NvrClient, Act, store_credentials, change_password, pure, perform, emit, ◌>>=◌, ◌>>◌,
}
use pytvt.Workflows.Rotate.{
  ChannelRotationResult, RotateArgs, failed, rotated_via_pass_b, result, label, channel_context,
}

-- The variables `rotated` and `results`.
pub record RotateState : Type 0 where
  pub rotated : List Channel
  pub results : List ChannelRotationResult

module _ (c : NvrClient) (a : RotateArgs) where
  -- Step 3's outcome.
  restored : Channel → RotateState → Reply (Unit {0}) → Act c RotateState
  restored ch st (exc e) = do
    emit (
        event warning "pass_b.editDevList_new_failed"
          (label ch ++ str ": camera rotated but NVR cred NOT updated — " ∷ exc_text e))
    pure (record st {
      results =
          st.results
          ++ result ch failed (str "editDevList(new) post-rotation failed: " ∷ exc_text e) ∷ [];
    })
  restored ch st (ok _) = do
    emit (record {
      level = success;
      code = "channel.rotated";
      message = label ch ++ str ": rotated and NVR cred synced" ∷ [];
      context = channel_context ch;
    })
    pure (record st {
      rotated = st.rotated ++ ch ∷ [];
      results = st.results ++ result ch rotated_via_pass_b [] ∷ [];
    })

  -- Step 2's outcome: `except NvrApiError`, `except Exception`, or step 3.
  changed : Channel → RotateState → Reply (Unit {0}) → Act c RotateState
  changed ch st (exc (nvr_api_error e)) = do
    emit (event error "pass_b.editIPChlPassword_failed" (label ch ++ str ": " ∷ e))
    pure (record st {
      results = st.results ++ result ch failed (str "editIPChlPassword failed: " ∷ e) ∷ [];
    })
  changed ch st (exc (other_error e)) = do
    emit (event error "pass_b.editIPChlPassword_error" (label ch ++ str ": " ∷ e))
    pure (record st {
      results = st.results ++ result ch failed (str "editIPChlPassword raised: " ∷ e) ∷ [];
    })
  changed ch st (ok _) = do
    stored ←
        perform (store_credentials ch.dev_id a.username a.new_password)
          (NvrClient.update_device_credentials c ch.dev_id a.username a.new_password)
    restored ch st stored

  -- Step 1's outcome.
  installed : Channel → RotateState → Reply (Unit {0}) → Act c RotateState
  installed ch st (exc e) = do
    emit (event error "pass_b.editDevList_old_failed" (label ch ++ str ": " ∷ exc_text e))
    pure (record st {
      results = st.results ++ result ch failed (str "editDevList(old) failed: " ∷ exc_text e) ∷ [];
    })
  installed ch st (ok _) = do
    edited ←
        perform (change_password ch.dev_id a.new_password)
          (NvrClient.edit_nvr_ipc_passwords c ch.dev_id a.new_password)
    changed ch st edited

  rotate_step : Channel → RotateState → Act c RotateState
  rotate_step ch st = do
    stored ←
        perform (store_credentials ch.dev_id a.username a.old_password)
          (NvrClient.update_device_credentials c ch.dev_id a.username a.old_password)
    installed ch st stored

  pub rotate_all : List Channel → RotateState → Act c RotateState
  rotate_all [] st = pure st
  rotate_all (ch ∷ chs) st = do st' ← rotate_step ch st; rotate_all chs st'
