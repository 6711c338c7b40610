-- ===== src/Workflows/Validate/Site.antt =====
-- `validate_site` (workflows/validate.py).
pub mod Health
use pytvt.Prelude.{
  ℕ, ◌+◌, String, Bool, true, false, not, ◌&&◌, Option, none, some, List, [], ◌∷◌, ◌++◌, map,
  str_eq, ◌==◌, if◌then◌else◌, length, filter, is_empty,
}
use pytvt.Prelude.Int.{ℤ, minus, minus_both, is_zero}
use pytvt.Workflows.Base.{
  Part, str, num, int, nothing, Text, is_blank, info, success, warning, event, exc_text, Reply, ok,
  exc, Outcome, returns, raises, workflow_error,
}
use pytvt.Workflows.Client.{
  Channel, Network, IpAddress, NvrClient, Act, pure, ask, emit, ◌>>=◌, ◌>>◌,
}
use pytvt.Workflows.Validate.{
  ChannelHealth, SiteValidationResult, SiteComparisonResult, is_ok, is_same, ip_in_net, Expected,
  parsed_net, join, Survey, optional,
}

module _ (strip : String → String) (ip : IpAddress) where
  abbrev pub health : Option Network → Channel → ChannelHealth
  health cam_net ch = record {
    chl_num = ch.chl_num;
    dev_id = ch.dev_id;
    ip = strip ch.ip;
    online = ch.online;
    in_expected_subnet = ip_in_net ip (strip ch.ip) cam_net;
  }

  survey : Option Network → List Channel → Survey → Survey
  survey cam_net [] v = v
  survey cam_net (ch ∷ chs) v = survey cam_net chs (record {
    channels = v.channels ++ health cam_net ch ∷ [];
    online_count = if ch.online then v.online_count + 1 else v.online_count;
    in_subnet_count =
        if ip_in_net ip (strip ch.ip) cam_net then v.in_subnet_count + 1 else v.in_subnet_count;
  })

  -- Check 1.
  offline_issues : List ChannelHealth → List Text
  unfolding join
  offline_issues channels =
      let offline = filter (λ h. not h.online) channels in
      if is_empty offline
      then []
      else (num (length offline)
          ∷ str "/"
          ∷ num (length channels)
          ∷ str " channel(s) offline: "
          ∷ join (map (λ (h : ChannelHealth). str "ch" ∷ num h.chl_num ∷ []) offline))
        ∷ []

  -- Check 2.
  subnet_issues : Option Network → List ChannelHealth → List Text
  unfolding join
  subnet_issues none channels = []
  subnet_issues (some net) channels =
      let stray = filter (λ h. not h.in_expected_subnet) channels in
      if is_empty stray
      then []
      else (num (length stray)
          ∷ str " channel(s) outside expected "
          ∷ str (ip.str_network net)
          ∷ str ": "
          ∷ join (
              map
                (λ (h : ChannelHealth).
                  str "ch" ∷ num h.chl_num ∷ str "(" ∷ str h.ip ∷ str ")" ∷ [])
                stray))
        ∷ []

  -- Check 3.
  count_issues : Option ℕ → ℕ → List Text
  count_issues none n = []
  count_issues (some m) n =
      if not (n == m)
      then (str "channel count mismatch: got " ∷ num n ∷ str ", expected " ∷ num m ∷ []) ∷ []
      else []

  -- Check 4.
  host_issues : String → Option Network → List Text
  host_issues host none = []
  host_issues host (some net) =
      if not (ip_in_net ip host (some net))
      then (str "NVR host " ∷ str host ∷ str " outside expected " ∷ str (ip.str_network net) ∷ [])
        ∷ []
      else []

module _ (strip : String → String) (c : NvrClient) (ip : IpAddress) (x : Expected) where
  -- A result with an error and no channels.
  stopped : Text → SiteValidationResult
  stopped e = record {
    nvr_host = NvrClient.host c;
    expected_subnet = x.expected_subnet;
    expected_channel_count = x.expected_channel_count;
    expected_nvr_subnet = x.expected_nvr_subnet;
    channels_total = 0;
    channels_online = 0;
    channels_in_subnet = 0;
    channels = [];
    issues = [];
    error = e;
  }

  -- The result of the four checks.
  checked : Option Network → Option Network → List Channel → SiteValidationResult
  unfolding stopped
  checked cam_net nvr_net chs =
      let v =
        survey strip ip cam_net chs
          (record { channels = []; online_count = 0; in_subnet_count = 0 }) in
      record (stopped []) {
        channels_total = length v.channels;
        channels_online = v.online_count;
        channels_in_subnet = v.in_subnet_count;
        channels = v.channels;
        issues =
            offline_issues strip ip v.channels
            ++ (subnet_issues strip ip cam_net v.channels
                ++ (count_issues strip ip x.expected_channel_count (length v.channels)
                    ++ host_issues strip ip (NvrClient.host c) nvr_net));
      }

  emit_issues : List Text → Act c (Unit {0})
  emit_issues [] = pure tt
  emit_issues (t ∷ ts) = do emit (event warning "validate.issue" t); emit_issues ts

  announced : SiteValidationResult → Act c SiteValidationResult
  unfolding emit_issues
  announced r =
      if is_ok r
      then (do
        emit (
            event success "validate.done" (
              str (NvrClient.host c)
              ∷ str ": OK ("
              ∷ num (length r.channels)
              ∷ str " channel(s), all online)"
              ∷ []))
        pure r)
      else (do
        emit_issues r.issues
        emit (
            event warning "validate.done"
              (str (NvrClient.host c) ∷ str ": " ∷ num (length r.issues) ∷ str " issue(s)" ∷ []))
        pure r)

  queried : Option Network → Option Network → Reply (List Channel) → Act c SiteValidationResult
  queried cam_net nvr_net (exc e) = pure (stopped (str "query_channels failed: " ∷ exc_text e))
  queried cam_net nvr_net (ok chs) = announced (checked cam_net nvr_net chs)

  checking : Option Network → Option Network → Act c SiteValidationResult
  unfolding optional
  checking cam_net nvr_net = do
    emit (record {
      level = info;
      code = "validate.start";
      message = str "Validating " ∷ str (NvrClient.host c) ∷ [];
      context =
          ("expected_subnet", optional x.expected_subnet)
          ∷ (
            "expected_channel_count",
            elim x.expected_channel_count [ none ↦ nothing | some n ↦ num n ],
          )
          ∷ ("expected_nvr_subnet", optional x.expected_nvr_subnet)
          ∷ [];
    })
    raw_channels ← ask (NvrClient.query_channels c)
    queried cam_net nvr_net raw_channels

  -- The text of the `ValueError` is not kept.
  with_nets : Option (Option Network) → Option (Option Network) → Act c SiteValidationResult
  with_nets none nvr = pure (stopped (str "invalid expected subnet: " ∷ []))
  with_nets (some cam_net) none = pure (stopped (str "invalid expected subnet: " ∷ []))
  with_nets (some cam_net) (some nvr_net) = checking cam_net nvr_net

  pub validate_site : Act c SiteValidationResult
  unfolding parsed_net with_nets
  validate_site = with_nets (parsed_net ip x.expected_subnet) (parsed_net ip x.expected_nvr_subnet)
