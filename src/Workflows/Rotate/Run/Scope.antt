-- ===== src/Workflows/Rotate/Run/Scope.antt =====
-- The channels in scope are split, and every way through the workflow accounts for them.
use mathlib.Core.List.{Perm, append-nil, append_assoc}
use mathlib.Core.List.Perm
use native.Mathlib.Nat.{add-zero, zero-add}
use pytvt.Prelude.{
  ℕ, ◌+◌, String, ◌≡◌, refl, ap, ◌⊎◌, true, false, some, List, [], ◌∷◌, ◌++◌, map, arith, str_eq,
  if◌then◌else◌, Bool-cases, inl, inr, length, length-map, length-append, length_of_perm, count_if,
  is_empty, is_empty-eq, filter_split-perm,
}
use pytvt.Workflows.Base.{str, ok}
use pytvt.Workflows.Client.{Channel, NvrClient, RunState, IpAddress}
use pytvt.Workflows.Rotate.{ChannelRotationResult, RotateArgs, skipped, is_failed, result}
use pytvt.Workflows.Rotate.Tally.{
  Ledger, Ledger-in_sync, Ledger-skipped, Subject, subject, subject_of, kinds_partition, is_skipped,
}
use pytvt.Workflows.Rotate.Force.Laws.{ForceLedger}
use pytvt.Workflows.Rotate.Select.{
  PasswordRotateResult, online, offline, force_online, already_ok, in_sync_results, candidates,
}
use pytvt.Workflows.Rotate.Run.{
  noop, plan, dry_run_report, force_pass, apply_passes, rotate_candidates,
  rotate_nvr_channel_passwords, discovered,
}
use pytvt.Workflows.Rotate.Run.Accounting.{Accounts, IsAccounted, returned}
use pytvt.Workflows.Rotate.Run.Passes.{force_pass-Ledger, forced_report-Accounts, pass_a-Accounts}

module _ (c : NvrClient) (a : RotateArgs) (cands : List Channel) where
  abbrev all : List Subject
  all = map subject_of cands

  -- Online channels are in sync or to be forced, and the others are offline.
  split-perm : Perm (already_ok a cands ++ (force_online a cands ++ offline cands)) cands
  unfolding already_ok force_online online offline
  split-perm = elim (Bool-cases a.include_online) [
    | inl e ↦ rw e (filter_split-perm (λ ch. ch.online) cands)
    | inr e ↦ rw e (filter_split-perm (λ ch. ch.online) cands)
  ]

  in_sync-Ledger :
      Ledger all
        (in_sync_results (already_ok a cands))
        (force_online a cands ++ offline cands)
        0
        0
        (length (already_ok a cands))
        0
  unfolding in_sync_results count_if
  in_sync-Ledger = rw zero-add at (
      Ledger-in_sync all (already_ok a cands) (force_online a cands ++ offline cands) [] 0 (record {
        account = Perm.map subject_of split-perm;
        told = tt;
        rotated_count = refl;
        synced_count = refl;
        already_count = refl;
        skipped_count = refl;
      }))

  apply_passes-Accounts : (s : RunState c) → IsAccounted cands (apply_passes c a cands s).0
  unfolding apply_passes
  apply_passes-Accounts s = go (Bool-cases (is_empty (offline cands))) (
      force_pass-Ledger c a cands (in_sync_results (already_ok a cands))
        (length (already_ok a cands)) (offline cands) s (rw (append-nil, add-zero) in_sync-Ledger))
    where
      results : List ChannelRotationResult
      results = in_sync_results (already_ok a cands) ++ (force_pass c a cands s).0.out

      go :
          (is_empty (offline cands) ≡ true) ⊎ (is_empty (offline cands) ≡ false)
          → ForceLedger c a all
              (in_sync_results (already_ok a cands))
              (length (already_ok a cands))
              (force_pass c a cands s).0
              (offline cands)
          → IsAccounted cands (apply_passes c a cands s).0
      go (inl e) h =
          rw e
            (forced_report-Accounts c a cands _ results _ (rw (is_empty-eq (offline cands) e) at h))
      go (inr e) h = rw e (pass_a-Accounts c a cands _ results _ h)

  plan_lem :
      (ending reason : String) (chs : List Channel) (s : RunState c)
      → (plan c a cands ending reason chs s).0 ≡ map (λ ch. result ch skipped (str reason ∷ [])) chs
  unfolding plan
  plan_lem ending reason [] s = refl
  plan_lem ending reason (ch ∷ chs) s =
      ap (λ rs. result ch skipped (str reason ∷ []) ∷ rs) (plan_lem ending reason chs _)

  dry_run_report-Ledger :
      Ledger all
        (in_sync_results (already_ok a cands)
          ++ map
              (λ ch. result ch skipped (str "dry-run (force-online)" ∷ []))
              (force_online a cands)
          ++ map (λ ch. result ch skipped (str "dry-run" ∷ [])) (offline cands))
        []
        0
        0
        (length (already_ok a cands))
        (0 + length (force_online a cands) + length (offline cands))
  dry_run_report-Ledger = Ledger-skipped all (str "dry-run" ∷ []) (offline cands) [] _ _ _ refl (
      rw append-nil (
        Ledger-skipped all (str "dry-run (force-online)" ∷ []) (force_online a cands)
          (offline cands) _ _ _ refl in_sync-Ledger))

  no_failures :
      {rs : List ChannelRotationResult} {al sk : ℕ}
      → Ledger all rs [] 0 0 al sk
      → al + sk ≡ length cands
      → count_if is_failed rs ≡ 0
  no_failures {rs} h e = omega (
    arith,
    kinds_partition rs,
    h,
    length-map rs subject,
    length-map cands subject_of,
    length_of_perm (rw append-nil at h.account),
  )

  length-scope :
      length (already_ok a cands) + length (force_online a cands) + length (offline cands)
      ≡ length cands
  length-scope = omega (
    arith,
    length_of_perm split-perm,
    length-append (already_ok a cands) (force_online a cands ++ offline cands),
    length-append (force_online a cands) (offline cands),
  )

  dry_run_report-Accounts : (s : RunState c) → IsAccounted cands (dry_run_report c a cands s).0
  unfolding dry_run_report
  dry_run_report-Accounts s = simp plan_lem (
      rw (← append_assoc) (
        let h = dry_run_report-Ledger in
        returned (record {
          account = rw append-nil at h.account;
          told = h.told;
          total = refl;
          rotated = h.rotated_count;
          synced = h.synced_count;
          already = h.already_count;
          failed = no_failures h (omega (arith, length-scope));
          no_error = refl;
        })))

  noop-Accounts :
      (s : RunState c)
      → force_online a cands ≡ []
      → offline cands ≡ []
      → IsAccounted cands (noop c a cands s).0
  unfolding noop
  noop-Accounts s f o =
      let h = rw (f, o) at in_sync-Ledger in
      returned (record {
        account = rw append-nil at h.account;
        told = h.told;
        total = refl;
        rotated = h.rotated_count;
        synced = h.synced_count;
        already = h.already_count;
        failed = no_failures h (omega (arith, rw (f, o) at length-scope));
        no_error = refl;
      })

  pub rotate_candidates-Accounts :
      (s : RunState c) → IsAccounted cands (rotate_candidates c a cands s).0
  unfolding rotate_candidates
  rotate_candidates-Accounts s =
      go (Bool-cases (is_empty (offline cands))) (Bool-cases (is_empty (force_online a cands)))
    where
      working :
          (s : RunState c)
          → IsAccounted cands
              ((if a.apply then apply_passes c a cands else dry_run_report c a cands) s).0
      working s = elim (Bool-cases a.apply) [
        | inl e ↦ simp e (apply_passes-Accounts s)
        | inr e ↦ simp e (dry_run_report-Accounts s)
      ]

      go :
          (is_empty (offline cands) ≡ true) ⊎ (is_empty (offline cands) ≡ false)
          → (is_empty (force_online a cands) ≡ true) ⊎ (is_empty (force_online a cands) ≡ false)
          → IsAccounted cands (rotate_candidates c a cands s).0
      go (inl e) (inl f) = rw (e, f) (noop-Accounts _ (is_empty-eq _ f) (is_empty-eq _ e))
      go (inl e) (inr f) = rw (e, f) (working _)
      go (inr e) f = rw e (working _)

-- With a new password that is neither empty nor the old one, a recorder that lists its channels, and
-- a subnet, if one is given, that can be read, the run returns a report that accounts for every
-- channel in scope, or raises `WorkflowError` for the second query: each channel has exactly one
-- result, with an error exactly where it failed or was skipped, and the numbers of the report count
-- the results of each kind.
pub rotate-Accounts :
    (c : NvrClient) (ip : IpAddress) (a : RotateArgs) (s : RunState c) (chs cands : List Channel)
    → str_eq a.new_password "" ≡ false
    → str_eq a.new_password a.old_password ≡ false
    → (NvrClient.query_channels c s.world).0 ≡ ok chs
    → candidates ip a chs ≡ some cands
    → IsAccounted cands (rotate_nvr_channel_passwords c ip a s).0
unfolding rotate_nvr_channel_passwords
rotate-Accounts c ip a s chs cands e f q k =
    rw (e, f, q, k, discovered) (rotate_candidates-Accounts c a cands _)

-- The report's numbers add up: every channel in scope was rotated, synced, already in order,
-- failed, or skipped by a dry run.
pub Accounts-total :
    (cands : List Channel) (r : PasswordRotateResult)
    → Accounts cands r
    → r.channels_rotated
        + r.channels_synced
        + r.channels_already_ok
        + r.channels_failed
        + count_if is_skipped r.results
      ≡ r.channels_total
Accounts-total cands r h = omega (
  arith,
  kinds_partition r.results,
  h,
  length-map r.results subject,
  length-map cands subject_of,
  length_of_perm h.account,
)
