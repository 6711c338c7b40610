-- ===== src/Workflows/Subnet/Readdress.antt =====
-- Step 2: every camera is given its new address (workflows/site_subnet_change.py).
pub mod Laws
pub mod Calls
use pytvt.Prelude.{String, List, [], ◌∷◌, ◌++◌, str_eq, if◌then◌else◌}
use pytvt.Workflows.Base.{str, success, error, nvr_api_error, other_error, event, Reply, ok, exc}
use pytvt.Workflows.Client.{
  Network, IpAddress, NvrClient, Act, change_network, pure, perform, emit, ◌>>=◌, ◌>>◌,
}
use pytvt.Workflows.Subnet.{
  CameraReaddressPlan, CameraReaddressResult, SubnetArgs, result_of, readdressed, failed,
}

-- The variables `readdressed_new_ips` and `results`.
pub record ReaddressState : Type 0 where
  pub readdressed_new_ips : List String
  pub results : List CameraReaddressResult

-- `text or default`
or_else : String → String → String
or_else t default = if str_eq t "" then default else t

module _ (c : NvrClient) (ip : IpAddress) (a : SubnetArgs) (old_net new_net : Network) where
  -- What follows the call: `except NvrApiError`, `except Exception`, or the success.
  answered : CameraReaddressPlan → ReaddressState → Reply (Unit {0}) → Act c ReaddressState
  answered p st (ok _) = do
    emit (record {
      level = success;
      code = "camera.readdressed";
      message = str p.old_ip ∷ str " -> " ∷ str p.new_ip ∷ [];
      context = ("old_ip", str p.old_ip) ∷ ("new_ip", str p.new_ip) ∷ ("mac", str p.mac) ∷ [];
    })
    pure (record {
      readdressed_new_ips = st.readdressed_new_ips ++ p.new_ip ∷ [];
      results = st.results ++ result_of p readdressed [] ∷ [];
    })
  answered p st (exc (nvr_api_error e)) = do
    emit (record {
      level = error;
      code = "camera.readdress_failed";
      message = str p.old_ip ∷ str ": " ∷ e;
      context = ("old_ip", str p.old_ip) ∷ [];
    })
    pure (record st {
      results = st.results ++ result_of p failed (str "editDevNetworkList failed: " ∷ e) ∷ [];
    })
  answered p st (exc (other_error e)) = do
    emit (event error "camera.readdress_error" (str p.old_ip ∷ str ": " ∷ e))
    pure (record st {
      results = st.results ++ result_of p failed (str "editDevNetworkList raised: " ∷ e) ∷ [];
    })

  readdress_step : CameraReaddressPlan → ReaddressState → Act c ReaddressState
  unfolding or_else
  readdress_step p st = do
    reply ← perform (change_network p.old_ip p.new_ip) (
        NvrClient.edit_nvr_lan_device_network c p.old_ip p.new_ip
          (or_else p.netmask (ip.netmask old_net)) (or_else p.gateway (ip.first_host new_net))
          a.camera_username a.camera_password)
    answered p st reply

  pub readdress_all : List CameraReaddressPlan → ReaddressState → Act c ReaddressState
  readdress_all [] st = pure st
  readdress_all (p ∷ ps) st = do st' ← readdress_step p st; readdress_all ps st'
