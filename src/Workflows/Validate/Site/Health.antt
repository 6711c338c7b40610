-- ===== src/Workflows/Validate/Site/Health.antt =====
-- A site is reported as healthy exactly if it is as expected.
use mathlib.Core.List.{append_assoc, append-nil}
use pytvt.Prelude.{
  ℕ, ◌+◌, String, ◌≡◌, refl, sym, ◌∙◌, ap, Bool, true, not, ◌&&◌, Option, none, some, List, [], ◌∷◌,
  ◌++◌, map, arith, ◌==◌, Bool-cases, inl, inr, length, count_if, filter, every, is_empty,
  is_empty-append, is_empty-filter, length-map,
}
use pytvt.Workflows.Base.{Text, Reply, ok, exc}
use pytvt.Workflows.Client.{Channel, Network, IpAddress, NvrClient, RunState}
use pytvt.Workflows.Validate.{
  ChannelHealth, SiteValidationResult, Expected, Survey, is_ok, ip_in_net, parsed_net,
}
use pytvt.Workflows.Validate.Site.{
  health, survey, offline_issues, subnet_issues, count_issues, host_issues, stopped, checked,
  emit_issues, announced, queried, checking, with_nets, validate_site,
}

module _ (strip : String → String) (ip : IpAddress) where
  survey-channels :
      (net : Option Network) (chs : List Channel) (v : Survey)
      → (survey strip ip net chs v).channels ≡ v.channels ++ map (health strip ip net) chs
  unfolding survey
  survey-channels net [] v = sym (append-nil v.channels)
  survey-channels net (ch ∷ chs) v =
      survey-channels net chs _
      ∙ append_assoc v.channels (health strip ip net ch ∷ []) (map (health strip ip net) chs)

  survey-counts :
      (net : Option Network) (chs : List Channel) (v : Survey)
      → ((survey strip ip net chs v).online_count ≡ v.online_count + count_if (λ ch. ch.online) chs)
        × ((survey strip ip net chs v).in_subnet_count
            ≡ v.in_subnet_count + count_if (λ ch. ip_in_net ip (strip ch.ip) net) chs)
  unfolding survey count_if
  survey-counts net [] v = (omega arith, omega arith)
  survey-counts net (ch ∷ chs) v =
      let (a, b) = survey-counts net chs _ in (a ∙ ground arith, b ∙ ground arith)

  -- The expectations, as a test on the channels that the recorder lists.
  abbrev pub is_healthy : Expected → String → Option Network → Option Network → List Channel → Bool
  is_healthy x host cam_net nvr_net chs =
      every (λ (ch : Channel). ch.online) chs
      && (every (λ (ch : Channel). ip_in_net ip (strip ch.ip) cam_net) chs
          && (elim x.expected_channel_count [ none ↦ true | some n ↦ length chs == n ]
              && ip_in_net ip host nvr_net))

  every-in_net :
      (chs : List Channel) → every (λ (ch : Channel). ip_in_net ip (strip ch.ip) none) chs ≡ true
  every-in_net [] = refl
  every-in_net (ch ∷ chs) = every-in_net chs

  every-online :
      (net : Option Network) (chs : List Channel)
      → every (λ (h : ChannelHealth). h.online) (map (health strip ip net) chs)
        ≡ every (λ (ch : Channel). ch.online) chs
  every-online net [] = refl
  every-online net (ch ∷ chs) = ap (λ b. ch.online && b) (every-online net chs)

  every-in_subnet :
      (net : Option Network) (chs : List Channel)
      → every (λ (h : ChannelHealth). h.in_expected_subnet) (map (health strip ip net) chs)
        ≡ every (λ (ch : Channel). ip_in_net ip (strip ch.ip) net) chs
  every-in_subnet net [] = refl
  every-in_subnet net (ch ∷ chs) =
      ap (λ b. ip_in_net ip (strip ch.ip) net && b) (every-in_subnet net chs)

  offline_issues-empty :
      (hs : List ChannelHealth)
      → is_empty (offline_issues strip ip hs) ≡ every (λ (h : ChannelHealth). h.online) hs
  unfolding offline_issues
  offline_issues-empty hs =
      elim (Bool-cases (is_empty (filter (λ (h : ChannelHealth). not h.online) hs))) [
        | inl e ↦ rw e (sym e ∙ is_empty-filter (λ (h : ChannelHealth). h.online) hs)
        | inr e ↦ rw e (sym e ∙ is_empty-filter (λ (h : ChannelHealth). h.online) hs)
      ]

  subnet_issues-empty :
      (net : Option Network) (chs : List Channel)
      → is_empty (subnet_issues strip ip net (map (health strip ip net) chs))
        ≡ every (λ (ch : Channel). ip_in_net ip (strip ch.ip) net) chs
  unfolding subnet_issues
  subnet_issues-empty none chs = sym (every-in_net chs)
  subnet_issues-empty (some net) chs =
      let hs = map (health strip ip (some net)) chs in
      let filtered = is_empty-filter (λ (h : ChannelHealth). h.in_expected_subnet) hs in
      elim (Bool-cases (is_empty (filter (λ (h : ChannelHealth). not h.in_expected_subnet) hs))) [
        | inl e ↦ rw e (sym e ∙ filtered ∙ every-in_subnet (some net) chs)
        | inr e ↦ rw e (sym e ∙ filtered ∙ every-in_subnet (some net) chs)
      ]

  count_issues-empty :
      (m : Option ℕ) (n : ℕ)
      → is_empty (count_issues strip ip m n) ≡ elim m [ none ↦ true | some k ↦ n == k ]
  unfolding count_issues
  count_issues-empty none n = refl
  count_issues-empty (some k) n = elim (Bool-cases (n == k)) [
    | inl e ↦ rw e refl
    | inr e ↦ rw e refl
  ]

  host_issues-empty :
      (host : String) (net : Option Network)
      → is_empty (host_issues strip ip host net) ≡ ip_in_net ip host net
  unfolding host_issues
  host_issues-empty host none = refl
  host_issues-empty host (some net) = elim (Bool-cases (ip_in_net ip host (some net))) [
    | inl e ↦ rw e refl
    | inr e ↦ rw e refl
  ]

module _ (strip : String → String) (c : NvrClient) (ip : IpAddress) (x : Expected) where
  announced-same : (r : SiteValidationResult) (s : RunState c) → (announced strip c ip x r s).0 ≡ r
  unfolding announced
  announced-same r s = elim (Bool-cases (is_ok r)) [ inl e ↦ simp e refl | inr e ↦ simp e refl ]

  checked-channels :
      (cam_net nvr_net : Option Network) (chs : List Channel)
      → (checked strip c ip x cam_net nvr_net chs).channels ≡ map (health strip ip cam_net) chs
  unfolding checked
  checked-channels cam_net nvr_net chs = survey-channels strip ip cam_net chs _

  checked-IsOk :
      (cam_net nvr_net : Option Network) (chs : List Channel)
      → is_ok (checked strip c ip x cam_net nvr_net chs)
        ≡ is_healthy strip ip x (NvrClient.host c) cam_net nvr_net chs
  unfolding checked stopped
  checked-IsOk cam_net nvr_net chs =
      simp
        (
          survey-channels, is_empty-append, offline_issues-empty, subnet_issues-empty,
          count_issues-empty, host_issues-empty, every-online, length-map,
        )
        refl

  queried-IsOk :
      (cam_net nvr_net : Option Network) (r : Reply (List Channel)) (chs : List Channel)
      (s : RunState c)
      → r ≡ ok chs
      → is_ok (queried strip c ip x cam_net nvr_net r s).0
        ≡ is_healthy strip ip x (NvrClient.host c) cam_net nvr_net chs
  unfolding queried
  queried-IsOk cam_net nvr_net r chs s e = rw e (
      ap is_ok (announced-same (checked strip c ip x cam_net nvr_net chs) s)
      ∙ checked-IsOk cam_net nvr_net chs)

  quiet_issues :
      (ts : List Text) (s : RunState c) → (emit_issues strip c ip x ts s).1.calls ≡ s.calls
  unfolding emit_issues
  quiet_issues [] s = refl
  quiet_issues (t ∷ ts) s = quiet_issues ts _

  announced-calls :
      (r : SiteValidationResult) (s : RunState c) → (announced strip c ip x r s).1.calls ≡ s.calls
  unfolding announced
  announced-calls r s = elim (Bool-cases (is_ok r)) [
    | inl e ↦ simp e refl
    | inr e ↦ simp e (quiet_issues r.issues s)
  ]

  queried-calls :
      (m n : Option Network) (r : Reply (List Channel)) (s : RunState c)
      → (queried strip c ip x m n r s).1.calls ≡ s.calls
  unfolding queried
  queried-calls m n (exc e) s = refl
  queried-calls m n (ok chs) s = announced-calls _ s

  with_nets-calls :
      (m n : Option (Option Network)) (s : RunState c)
      → (with_nets strip c ip x m n s).1.calls ≡ s.calls
  unfolding with_nets checking
  with_nets-calls none n s = refl
  with_nets-calls (some m) none s = refl
  with_nets-calls (some m) (some n) s = queried-calls m n _ _

-- A validation whose subnets can be read and whose query succeeds reports `ok` exactly if every
-- channel is online, every channel's address is in the expected subnet, their number is the expected
-- one and the recorder is in its own expected subnet; what is not declared is not asked.
pub validate_site-IsOk :
    (strip : String → String) (c : NvrClient) (ip : IpAddress) (x : Expected) (s : RunState c)
    (cam_net nvr_net : Option Network) (chs : List Channel)
    → parsed_net ip x.expected_subnet ≡ some cam_net
    → parsed_net ip x.expected_nvr_subnet ≡ some nvr_net
    → (NvrClient.query_channels c s.world).0 ≡ ok chs
    → is_ok (validate_site strip c ip x s).0
      ≡ is_healthy strip ip x (NvrClient.host c) cam_net nvr_net chs
unfolding validate_site checking
validate_site-IsOk strip c ip x s cam_net nvr_net chs e f q =
    rw (e, f, with_nets) (queried-IsOk strip c ip x cam_net nvr_net _ chs _ q)

-- A validation makes no writing call, however it ends.
pub validate_site_quiet :
    (strip : String → String) (c : NvrClient) (ip : IpAddress) (x : Expected) (s : RunState c)
    → (validate_site strip c ip x s).1.calls ≡ s.calls
unfolding validate_site
validate_site_quiet strip c ip x s = with_nets-calls strip c ip x _ _ s
