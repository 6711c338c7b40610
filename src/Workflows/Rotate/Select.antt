-- ===== src/Workflows/Rotate/Select.antt =====
-- The report of a password rotation, and the channels that it is about (`PasswordRotateResult` and
-- `_filter_channels` of workflows/password_rotate.py, and the lists made of the candidates).
use pytvt.Prelude.{
  ℕ, String, Bool, true, false, not, ◌&&◌, Option, none, some, List, [], ◌∷◌, map, ◌==◌, str_eq,
  if◌then◌else◌, filter, count_if,
}
use pytvt.Workflows.Base.{Text, is_blank}
use pytvt.Workflows.Client.{Channel, Network, IpAddress}
use pytvt.Workflows.Rotate.{ChannelRotationResult, RotateArgs, already_in_sync, is_failed, result}

pub record PasswordRotateResult : Type 0 where
  pub nvr_host : String
  pub dry_run : Bool
  pub channels_total : ℕ
  pub channels_rotated : ℕ
  pub channels_synced : ℕ
  pub channels_already_ok : ℕ
  pub channels_failed : ℕ
  pub results : List ChannelRotationResult
  pub error : Text

-- The property `success`.
pub is_success : PasswordRotateResult → Bool
is_success r = is_blank r.error && r.channels_failed == 0

unfoldable pub contains : List String → String → Bool
contains [] d = false
contains (x ∷ xs) d = let rest = contains xs d in if str_eq x d then true else rest

pub in_network : IpAddress → Network → Channel → Bool
in_network ip net ch =
    if str_eq ch.ip ""
    then false
    else elim (ip.ip_address ch.ip) [ none ↦ false | some n ↦ ip.has_address net n ]

-- `none` is the `ValueError` of a subnet that is no network.
pub filter_channels : IpAddress → List Channel → Option String → Option (List Channel)
unfolding in_network
filter_channels ip chs none = some (filter (λ ch. not (str_eq ch.ip "")) chs)
filter_channels ip chs (some subnet) = elim (ip.ip_network subnet) [
  | none ↦ none
  | some net ↦ some (filter (in_network ip net) chs)
]

unfoldable pub candidates : IpAddress → RotateArgs → List Channel → Option (List Channel)
unfolding contains filter_channels
candidates ip a chs = elim a.channel_ids [
  | some wanted ↦ some (filter (λ ch. contains wanted ch.dev_id) chs)
  | none ↦ filter_channels ip chs a.subnet
]

unfoldable pub online : List Channel → List Channel
online = filter (λ ch. ch.online)

unfoldable pub offline : List Channel → List Channel
offline = filter (λ ch. not ch.online)

unfoldable pub force_online : RotateArgs → List Channel → List Channel
force_online a cands = if a.include_online then online cands else []

unfoldable pub already_ok : RotateArgs → List Channel → List Channel
already_ok a cands = if a.include_online then [] else online cands

-- `failed = sum(1 for r in results if r.status == "failed")`
unfoldable pub failures : List ChannelRotationResult → ℕ
failures = count_if is_failed

unfoldable pub in_sync_results : List Channel → List ChannelRotationResult
in_sync_results = map (λ ch. result ch already_in_sync [])
