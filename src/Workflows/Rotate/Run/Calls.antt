-- ===== src/Workflows/Rotate/Run/Calls.antt =====
-- What a password rotation writes: only to the channels that it works on, and nothing at all
-- without `apply`.
use mathlib.Core.Path.{subst}
use mathlib.Core.List.{Mem}
use pytvt.Prelude.{
  String, ◌≡◌, refl, ◌∙◌, ◌&&◌, true, false, some, List, [], ◌∷◌, ◌++◌, map, ◌⊎◌, inl, inr, str_eq,
  Bool-cases, All, All-append_inv, All-mem-map, Option-cases, sym, is_empty, if◌then◌else◌,
}
use pytvt.Workflows.Base.{Reply, ok, exc}
use pytvt.Workflows.Client.{Channel, IpAddress, NvrClient, RunState}
use pytvt.Workflows.Rotate.{ChannelRotationResult, RotateArgs}
use pytvt.Workflows.Rotate.Allowed.{Behaves, IsAllowed}
use pytvt.Workflows.Rotate.Force.{ForceTally}
use pytvt.Workflows.Rotate.Force.Calls.{force_rotate_online-Behaves}
use pytvt.Workflows.Rotate.PassA.{PushState, SortState}
use pytvt.Workflows.Rotate.PassA.Calls.{push_all-Behaves, sort_all-Behaves}
use pytvt.Workflows.Rotate.PassB.Calls.{rotate_all-Behaves}
use pytvt.Workflows.Rotate.Select.{offline, force_online, candidates}
use pytvt.Workflows.Rotate.Run.{
  noop, plan, dry_run_report, forced_report, done_report, pass_b, requeried, pass_a, force_pass,
  apply_passes, rotate_candidates, discovered, rotate_nvr_channel_passwords,
}

module _ (c : NvrClient) (a : RotateArgs) (cands : List Channel) (ds : List String) where
  abbrev IsIn : Channel → Type 0
  IsIn ch = Mem ch.dev_id ds

  pass_b-Behaves :
      (forced : ForceTally) (st : SortState) (s : RunState c)
      → All IsIn st.still_offline
      → Behaves a ds s
      → Behaves a ds (pass_b c a cands forced st s).1
  unfolding pass_b done_report
  pass_b-Behaves forced st s m h = elim (Bool-cases (is_empty st.still_offline)) [
    | inl e ↦ rw e h
    | inr e ↦ rw e (record {
      calls_allowed =
          (rotate_all-Behaves c a ds st.still_offline
            (record { rotated = []; results = st.results }) _ m
            (record { calls_allowed = h.calls_allowed })).calls_allowed;
    })
  ]

  requeried-Behaves :
      (forced : ForceTally) (st : PushState) (r : Reply (List Channel)) (s : RunState c)
      → All IsIn st.attempted
      → Behaves a ds s
      → Behaves a ds (requeried c a cands forced st r s).1
  unfolding requeried
  requeried-Behaves forced st (exc e) s m h = h
  requeried-Behaves forced st (ok chs) s m h =
      let (m', h') = sort_all-Behaves c a ds _ st.attempted _ s m tt h in
      pass_b-Behaves forced _ _ m' h'

  pass_a-Behaves :
      (forced : ForceTally) (results : List ChannelRotationResult) (s : RunState c)
      → All IsIn (offline cands)
      → Behaves a ds s
      → Behaves a ds (pass_a c a cands forced results s).1
  unfolding pass_a
  pass_a-Behaves forced results s m h =
      let (m', h') =
        push_all-Behaves c a ds (offline cands) (record { attempted = []; results = results }) _ m
          tt (record { calls_allowed = h.calls_allowed }) in
      requeried-Behaves forced _ _ _ m' (record { calls_allowed = h'.calls_allowed })

  force_pass-Behaves :
      (s : RunState c)
      → All IsIn (force_online a cands)
      → Behaves a ds s
      → Behaves a ds (force_pass c a cands s).1
  unfolding force_pass
  force_pass-Behaves s m h = elim (Bool-cases (is_empty (force_online a cands))) [
    | inl e ↦ rw e h
    | inr e ↦ rw e (
        force_rotate_online-Behaves c a ds (force_online a cands) _ m
          (record { calls_allowed = h.calls_allowed }))
  ]

  apply_passes-Behaves :
      (s : RunState c)
      → All IsIn (force_online a cands)
      → All IsIn (offline cands)
      → Behaves a ds s
      → Behaves a ds (apply_passes c a cands s).1
  unfolding apply_passes forced_report
  apply_passes-Behaves s f m h =
      let h' = force_pass-Behaves s f h in
      elim (Bool-cases (is_empty (offline cands))) [
        | inl e ↦ rw e (record { calls_allowed = h'.calls_allowed })
        | inr e ↦ rw e (pass_a-Behaves _ _ _ m h')
      ]

module _ (c : NvrClient) (a : RotateArgs) (cands : List Channel) where
  plan_quiet :
      (ending reason : String) (chs : List Channel) (s : RunState c)
      → ((plan c a cands ending reason chs s).1.calls ≡ s.calls)
        × ((plan c a cands ending reason chs s).1.world ≡ s.world)
  unfolding plan
  plan_quiet ending reason [] s = (refl, refl)
  plan_quiet ending reason (ch ∷ chs) s = plan_quiet ending reason chs _

  dry_run_quiet :
      (s : RunState c)
      → ((dry_run_report c a cands s).1.calls ≡ s.calls)
        × ((dry_run_report c a cands s).1.world ≡ s.world)
  unfolding dry_run_report
  dry_run_quiet s =
      let p =
        plan_quiet " — force-rotate (online)" "dry-run (force-online)" (force_online a cands) s in
      let q = plan_quiet " — needs rotation" "dry-run" (offline cands) _ in (q.0 ∙ p.0, q.1 ∙ p.1)

  rotate_candidates_quiet :
      (s : RunState c)
      → a.apply ≡ false
      → ((rotate_candidates c a cands s).1.calls ≡ s.calls)
        × ((rotate_candidates c a cands s).1.world ≡ s.world)
  unfolding rotate_candidates noop
  rotate_candidates_quiet s e =
      elim (Bool-cases (is_empty (offline cands) && is_empty (force_online a cands))) [
        | inl f ↦ simp (e, f) (refl, refl)
        | inr f ↦ simp (e, f) (dry_run_quiet _)
      ]

  working-Behaves :
      (ds : List String) (s : RunState c)
      → All (λ ch. Mem ch.dev_id ds) (force_online a cands)
      → All (λ ch. Mem ch.dev_id ds) (offline cands)
      → Behaves a ds s
      → Behaves a ds ((if a.apply then apply_passes c a cands else dry_run_report c a cands) s).1
  working-Behaves ds s f m h = elim (Bool-cases a.apply) [
    | inl e ↦ simp e (apply_passes-Behaves c a cands ds s f m h)
    | inr e ↦ simp e (record { calls_allowed = rw (dry_run_quiet s).0 h.calls_allowed })
  ]

  rotate_candidates-Behaves :
      (ds : List String) (s : RunState c)
      → All (λ ch. Mem ch.dev_id ds) (force_online a cands)
      → All (λ ch. Mem ch.dev_id ds) (offline cands)
      → Behaves a ds s
      → Behaves a ds (rotate_candidates c a cands s).1
  unfolding rotate_candidates noop
  rotate_candidates-Behaves ds s f m h =
      elim (Bool-cases (is_empty (offline cands) && is_empty (force_online a cands))) [
        | inl e ↦ rw e (record { calls_allowed = h.calls_allowed })
        | inr e ↦ rw e (working-Behaves ds _ f m (record { calls_allowed = h.calls_allowed }))
      ]

  -- The devices that a run works on: the offline channels, and the online ones under
  -- `include_online`.
  abbrev pub devices : List String
  devices = map (λ ch. ch.dev_id) (force_online a cands ++ offline cands)

  devices-All :
      All (λ ch. Mem ch.dev_id devices) (force_online a cands)
      × All (λ ch. Mem ch.dev_id devices) (offline cands)
  devices-All =
      All-append_inv (λ ch. Mem ch.dev_id devices) (force_online a cands) (offline cands)
        (All-mem-map (λ ch. ch.dev_id) (force_online a cands ++ offline cands))

-- Whatever the recorder answers, each writing call of a run is about a channel in scope that was
-- offline, or online under `include_online`; it stores the caller's user name with the new or the
-- old password, or changes a camera's password to the new one. No address is written.
pub rotate_writes_in_scope :
    (c : NvrClient) (ip : IpAddress) (a : RotateArgs) (s : RunState c) (chs cands : List Channel)
    → s.calls ≡ []
    → (NvrClient.query_channels c s.world).0 ≡ ok chs
    → candidates ip a chs ≡ some cands
    → All (IsAllowed a (devices c a cands)) (rotate_nvr_channel_passwords c ip a s).1.calls
unfolding rotate_nvr_channel_passwords
rotate_writes_in_scope c ip a s chs cands e q k =
    go (Bool-cases (str_eq a.new_password "")) (Bool-cases (str_eq a.new_password a.old_password))
  where
    none_yet : All (IsAllowed a (devices c a cands)) s.calls
    none_yet = subst (All (IsAllowed a (devices c a cands))) (sym e) tt

    go :
        (str_eq a.new_password "" ≡ true) ⊎ (str_eq a.new_password "" ≡ false)
        → (str_eq a.new_password a.old_password ≡ true)
          ⊎ (str_eq a.new_password a.old_password ≡ false)
        → All (IsAllowed a (devices c a cands)) (rotate_nvr_channel_passwords c ip a s).1.calls
    go (inl f) g = rw f none_yet
    go (inr f) (inl g) = rw (f, g) none_yet
    go (inr f) (inr g) =
        rw (f, g, q, k, discovered)
          (rotate_candidates-Behaves c a cands (devices c a cands) _ (devices-All c a cands).0
            (devices-All c a cands).1 (record { calls_allowed = none_yet })).calls_allowed

discovered_quiet :
    (c : NvrClient) (ip : IpAddress) (a : RotateArgs) (r : Reply (List Channel)) (s : RunState c)
    → a.apply ≡ false
    → ((discovered c ip a r s).1.calls ≡ s.calls) × ((discovered c ip a r s).1.world ≡ s.world)
unfolding discovered
discovered_quiet c ip a (exc e) s h = (refl, refl)
discovered_quiet c ip a (ok chs) s h = elim (Option-cases (candidates ip a chs)) [
  | inl e ↦ rw (e, discovered) (refl, refl)
  | inr (cands, e) ↦ rw (e, discovered) (rotate_candidates_quiet c a cands s h)
]

-- Without `apply` a run makes no writing call, and leaves the world as the query of the channels
-- left it, or as it was if a precheck failed.
pub rotate_dry_run_quiet :
    (c : NvrClient) (ip : IpAddress) (a : RotateArgs) (s : RunState c)
    → a.apply ≡ false
    → ((rotate_nvr_channel_passwords c ip a s).1.calls ≡ s.calls)
      × (((rotate_nvr_channel_passwords c ip a s).1.world ≡ s.world)
          ⊎ ((rotate_nvr_channel_passwords c ip a s).1.world
              ≡ (NvrClient.query_channels c s.world).1))
unfolding rotate_nvr_channel_passwords
rotate_dry_run_quiet c ip a s h =
    go (Bool-cases (str_eq a.new_password "")) (Bool-cases (str_eq a.new_password a.old_password))
  where
    go :
        (str_eq a.new_password "" ≡ true) ⊎ (str_eq a.new_password "" ≡ false)
        → (str_eq a.new_password a.old_password ≡ true)
          ⊎ (str_eq a.new_password a.old_password ≡ false)
        → ((rotate_nvr_channel_passwords c ip a s).1.calls ≡ s.calls)
          × (((rotate_nvr_channel_passwords c ip a s).1.world ≡ s.world)
              ⊎ ((rotate_nvr_channel_passwords c ip a s).1.world
                  ≡ (NvrClient.query_channels c s.world).1))
    go (inl f) g = rw f (refl, inl refl)
    go (inr f) (inl g) = rw (f, g) (refl, inl refl)
    go (inr f) (inr g) = rw (f, g) (let q = discovered_quiet c ip a _ _ h in (q.0, inr q.1))
