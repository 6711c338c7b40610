-- ===== src/Workflows/Subnet/Stored.antt =====
-- Step 3: the recorder's stored address of each channel whose camera moved (`_edit_channel_ip` and
-- its loop in workflows/site_subnet_change.py).
pub mod Laws
pub mod Calls
use pytvt.Prelude.{ℕ, ◌+◌, String, Bool, ◌&&◌, List, [], ◌∷◌, str_eq, if◌then◌else◌, map, filter}
use pytvt.Prelude.Dict.{Dict}
use pytvt.Workflows.Base.{str, success, warning, Text, exc_text, Reply, ok, exc}
use pytvt.Workflows.Client.{NvrClient, Act, store_ip, pure, perform, emit, ◌>>=◌, ◌>>◌}
use pytvt.Workflows.Rotate.Select.{contains}
use pytvt.Workflows.Subnet.{CameraReaddressResult, is_readdressed, failed}

-- The variables `channels_ip_updated` and `results`.
pub record StoredState : Type 0 where
  pub channels_ip_updated : ℕ
  pub results : List CameraReaddressResult

-- The first readdressed result with this address becomes a failed one.
pub annotate : String → Text → List CameraReaddressResult → List CameraReaddressResult
annotate new_ip e [] = []
annotate new_ip e (r ∷ rs) =
    let rest = annotate new_ip e rs in
    if str_eq r.new_ip new_ip && is_readdressed r
    then record r { status = failed; error = str "editDevList (channel IP) failed: " ∷ e } ∷ rs
    else r ∷ rest

-- `{r.new_ip for r in results if r.status == "readdressed"}`
pub successful_new_ips : List CameraReaddressResult → List String
successful_new_ips rs = map (λ (r : CameraReaddressResult). r.new_ip) (filter is_readdressed rs)

module _ (c : NvrClient) (successful : List String) where
  edited : String → String → StoredState → Reply (Unit {0}) → Act c StoredState
  edited dev_id new_ip st (ok _) = do
    emit (record {
      level = success;
      code = "channel.ip_updated";
      message = str "NVR channel " ∷ str dev_id ∷ str " -> " ∷ str new_ip ∷ [];
      context = ("dev_id", str dev_id) ∷ ("new_ip", str new_ip) ∷ [];
    })
    pure (record st { channels_ip_updated = st.channels_ip_updated + 1 })
  edited dev_id new_ip st (exc e) = do
    emit (record {
      level = warning;
      code = "channel.ip_update_failed";
      message = str "editDevList for " ∷ str dev_id ∷ str ": " ∷ exc_text e;
      context = ("dev_id", str dev_id) ∷ ("new_ip", str new_ip) ∷ [];
    })
    pure (record st { results = annotate new_ip (exc_text e) st.results })

  store_step : String → String → StoredState → Act c StoredState
  store_step dev_id new_ip st =
      if contains successful new_ip
      then (do
        reply ← perform (store_ip dev_id new_ip) (NvrClient.post_edit_dev_list c dev_id new_ip)
        edited dev_id new_ip st reply)
      else pure st

  pub store_all : Dict String → StoredState → Act c StoredState
  store_all [] st = pure st
  store_all ((dev_id, new_ip) ∷ d) st = do st' ← store_step dev_id new_ip st; store_all d st'
