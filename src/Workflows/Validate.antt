-- ===== src/Workflows/Validate.antt =====
-- The health check of one recorder's site, and the comparison of two sites (workflows/validate.py).
pub mod Site
pub mod Compare
use pytvt.Prelude.{
  ℕ, ◌+◌, String, Bool, true, false, not, ◌&&◌, Option, none, some, List, [], ◌∷◌, ◌++◌, map,
  str_eq, ◌==◌, if◌then◌else◌, length, filter, is_empty,
}
use pytvt.Prelude.Int.{ℤ, minus, minus_both, is_zero}
use pytvt.Workflows.Base.{
  Part, str, num, int, nothing, Text, is_blank, info, success, warning, event, exc_text, Reply, ok,
  exc, Outcome, returns, raises, workflow_error,
}
use pytvt.Workflows.Client.{
  Channel, Network, IpAddress, NvrClient, Act, pure, ask, emit, ◌>>=◌, ◌>>◌,
}

pub record ChannelHealth : Type 0 where
  pub chl_num : ℕ
  pub dev_id : String
  pub ip : String
  pub online : Bool
  pub in_expected_subnet : Bool

pub record SiteValidationResult : Type 0 where
  pub nvr_host : String
  pub expected_subnet : Option String
  pub expected_channel_count : Option ℕ
  pub expected_nvr_subnet : Option String
  pub channels_total : ℕ
  pub channels_online : ℕ
  pub channels_in_subnet : ℕ
  pub channels : List ChannelHealth
  pub issues : List Text
  pub error : Text

-- The property `ok`.
abbrev pub is_ok : SiteValidationResult → Bool
is_ok r = is_blank r.error && is_empty r.issues

pub record SiteComparisonResult : Type 0 where
  pub baseline_host : String
  pub candidate_host : String
  pub channel_count_delta : ℤ
  pub offline_delta : ℤ
  pub baseline_ok : Bool
  pub candidate_ok : Bool
  pub differences : List Text

-- The property `ok`.
abbrev pub is_same : SiteComparisonResult → Bool
is_same r =
    r.baseline_ok
    && r.candidate_ok
    && is_zero r.channel_count_delta
    && is_zero r.offline_delta
    && is_empty r.differences

abbrev pub ip_in_net : IpAddress → String → Option Network → Bool
ip_in_net ip t none = true
ip_in_net ip t (some net) = elim (ip.ip_address t) [ none ↦ false | some n ↦ ip.has_address net n ]

-- The expectations that the caller declares.
pub record Expected : Type 0 where
  pub expected_subnet : Option String
  pub expected_channel_count : Option ℕ
  pub expected_nvr_subnet : Option String

-- `ip_network(text) if text else None`; the outer `none` is a `ValueError`.
unfoldable pub parsed_net : IpAddress → Option String → Option (Option Network)
parsed_net ip none = some none
parsed_net ip (some t) =
    if str_eq t ""
    then some none
    else elim (ip.ip_network t) [ none ↦ none | some net ↦ some (some net) ]

-- `", ".join(texts)`
pub join : List Text → Text
join [] = []
join (t ∷ []) = t
join (t ∷ u ∷ ts) = t ++ str ", " ∷ join (u ∷ ts)

-- The variables of the loop over the channels.
pub record Survey : Type 0 where
  pub channels : List ChannelHealth
  pub online_count : ℕ
  pub in_subnet_count : ℕ

pub optional : Option String → Part
optional none = nothing
optional (some t) = str t
