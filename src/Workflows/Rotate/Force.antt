-- ===== src/Workflows/Rotate/Force.antt =====
-- The force pass over online channels (`_force_rotate_online` of workflows/password_rotate.py).
pub mod Laws
pub mod Calls
use pytvt.Prelude.{ℕ, ◌+◌, String, List, [], ◌∷◌, ◌++◌, str_eq, if◌then◌else◌}
use pytvt.Workflows.Base.{str, success, info, warning, error, event, exc_text, Reply, ok, exc}
use pytvt.Workflows.Client.{
  Channel, NvrClient, Act, store_credentials, change_password, pure, perform, emit, ◌>>=◌, ◌>>◌,
}
use pytvt.Workflows.Rotate.{
  ChannelRotationResult, RotateArgs, failed, rotated_via_force, already_ours, result, label,
  channel_context,
}

-- The variables `rotated`, `already` and `out` of the force pass.
pub record ForceTally : Type 0 where
  pub rotated : ℕ
  pub already : ℕ
  pub out : List ChannelRotationResult

module _ (c : NvrClient) (a : RotateArgs) where
  -- The result of a call that answers the channel, after its exception or its status.
  force_stored : Channel → String → ForceTally → Reply (Unit {0}) → Act c ForceTally
  force_stored ch status acc (exc e) = do
    emit (
        event warning "force.editDevList_failed"
          (label ch ++ str ": camera changed but NVR cred NOT updated — " ∷ exc_text e))
    pure (record acc {
      out =
          acc.out
          ++ result ch failed (str "editDevList(new) after force rotate failed: " ∷ exc_text e)
            ∷ [];
    })
  force_stored ch status acc (ok _) =
      if str_eq status "changed"
      then (do
        emit (record {
          level = success;
          code = "channel.rotated";
          message = label ch ++ str ": force-rotated and NVR cred synced" ∷ [];
          context = channel_context ch;
        })
        pure (record acc {
          rotated = acc.rotated + 1;
          out = acc.out ++ result ch rotated_via_force [] ∷ [];
        }))
      else (do
        emit (record {
          level = info;
          code = "channel.already_ours";
          message = label ch ++ str ": already on target password (NVR cred re-synced)" ∷ [];
          context = channel_context ch;
        })
        pure (record acc {
          already = acc.already + 1;
          out = acc.out ++ result ch already_ours [] ∷ [];
        }))

  force_edited : Channel → ForceTally → Reply String → Act c ForceTally
  force_edited ch acc (exc e) = do
    emit (event error "force.editIPChlPassword_failed" (label ch ++ str ": " ∷ exc_text e))
    pure (record acc {
      out =
          acc.out ++ result ch failed (str "editIPChlPassword (force) failed: " ∷ exc_text e) ∷ [];
    })
  force_edited ch acc (ok status) = do
    stored ←
        perform (store_credentials ch.dev_id a.username a.new_password)
          (NvrClient.update_device_credentials c ch.dev_id a.username a.new_password)
    force_stored ch status acc stored

  -- The body of the force pass's loop.
  force_step : Channel → ForceTally → Act c ForceTally
  force_step ch acc = do
    edited ←
        perform (change_password ch.dev_id a.new_password)
          (NvrClient.edit_ipc_password_status c ch.dev_id a.new_password)
    force_edited ch acc edited

  force_loop : List Channel → ForceTally → Act c ForceTally
  force_loop [] acc = pure acc
  force_loop (ch ∷ chs) acc = do acc' ← force_step ch acc; force_loop chs acc'

  pub force_rotate_online : List Channel → Act c ForceTally
  force_rotate_online chs = force_loop chs (record { rotated = 0; already = 0; out = [] })
