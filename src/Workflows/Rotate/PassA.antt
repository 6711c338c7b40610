-- ===== src/Workflows/Rotate/PassA.antt =====
-- Pass A (workflows/password_rotate.py): the target password goes to the recorder's stored
-- credentials, and the channels that come online are sorted out.
pub mod Laws
pub mod Calls
use pytvt.Prelude.{
  String, Bool, false, Option, none, some, List, [], ◌∷◌, ◌++◌, str_eq, if◌then◌else◌,
}
use pytvt.Workflows.Base.{str, success, error, exc_text, Reply, ok, exc}
use pytvt.Workflows.Client.{
  Channel, NvrClient, Act, store_credentials, pure, perform, emit, ◌>>=◌, ◌>>◌,
}
use pytvt.Workflows.Rotate.{
  ChannelRotationResult, RotateArgs, failed, synced_via_pass_a, result, label, channel_context,
}

-- The variables `pass_a_attempted` and `results`.
pub record PushState : Type 0 where
  pub attempted : List Channel
  pub results : List ChannelRotationResult

-- The variables `synced`, `still_offline` and `results`.
pub record SortState : Type 0 where
  pub synced : List Channel
  pub still_offline : List Channel
  pub results : List ChannelRotationResult

module _ (c : NvrClient) (a : RotateArgs) where
  pushed : Channel → PushState → Reply (Unit {0}) → Act c PushState
  pushed ch st (ok _) = pure (record st { attempted = st.attempted ++ ch ∷ [] })
  pushed ch st (exc e) = do
    emit (record {
      level = error;
      code = "pass_a.editDevList_failed";
      message = label ch ++ str ": " ∷ exc_text e;
      context = channel_context ch;
    })
    pure (record st {
      results =
          st.results
          ++ result ch failed (str "editDevList(new) failed in Pass A: " ∷ exc_text e) ∷ [];
    })

  push_step : Channel → PushState → Act c PushState
  push_step ch st = do
    stored ←
        perform (store_credentials ch.dev_id a.username a.new_password)
          (NvrClient.update_device_credentials c ch.dev_id a.username a.new_password)
    pushed ch st stored

  pub push_all : List Channel → PushState → Act c PushState
  push_all [] st = pure st
  push_all (ch ∷ chs) st = do st' ← push_step ch st; push_all chs st'

-- `fresh.get(dev_id)` for `fresh = {c.dev_id: c for c in channels}`: a later channel overwrites.
pub fresh : List Channel → String → Option Channel
fresh [] d = none
fresh (ch ∷ chs) d = elim (fresh chs d) [
  | some x ↦ some x
  | none ↦ if str_eq ch.dev_id d then some ch else none
]

-- `latest is not None and latest.online`
pub came_online : Option Channel → Bool
came_online none = false
came_online (some ch) = ch.online

module _ (c : NvrClient) (latest : String → Option Channel) where
  sort_step : Channel → SortState → Act c SortState
  sort_step ch st =
      if came_online (latest ch.dev_id)
      then (do
        emit (record {
          level = success;
          code = "channel.synced";
          message = label ch ++ str ": came online after NVR sync (camera already rotated)" ∷ [];
          context = channel_context ch;
        })
        pure (record st {
          synced = st.synced ++ ch ∷ [];
          results = st.results ++ result ch synced_via_pass_a [] ∷ [];
        }))
      else pure (record st { still_offline = st.still_offline ++ ch ∷ [] })

  pub sort_all : List Channel → SortState → Act c SortState
  sort_all [] st = pure st
  sort_all (ch ∷ chs) st = do st' ← sort_step ch st; sort_all chs st'
