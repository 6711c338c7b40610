-- ===== src/Workflows/Rotate/Run/Passes.antt =====
-- The reports of the force pass, pass A and pass B account for every channel.
use mathlib.Core.List.{append-nil}
use native.Mathlib.Nat.{add-zero}
use pytvt.Prelude.{
  ℕ, ◌+◌, refl, List, [], ◌++◌, map, arith, Bool-cases, inl, inr, length, is_empty, is_empty-eq,
}
use pytvt.Workflows.Base.{Reply, ok, exc}
use pytvt.Workflows.Client.{Channel, NvrClient, RunState}
use pytvt.Workflows.Rotate.{ChannelRotationResult, RotateArgs}
use pytvt.Workflows.Rotate.Tally.{Ledger, Subject, subject_of}
use pytvt.Workflows.Rotate.Force.{ForceTally}
use pytvt.Workflows.Rotate.Force.Laws.{ForceLedger, force_rotate_online-Ledger}
use pytvt.Workflows.Rotate.PassA.{PushState, SortState}
use pytvt.Workflows.Rotate.PassA.Laws.{PushLedger, push_all-Ledger, sort_all-Ledger}
use pytvt.Workflows.Rotate.PassB.{RotateState}
use pytvt.Workflows.Rotate.PassB.Laws.{rotate_all-Ledger}
use pytvt.Workflows.Rotate.Select.{offline, force_online, already_ok, failures}
use pytvt.Workflows.Rotate.Run.{forced_report, done_report, pass_b, requeried, pass_a, force_pass}
use pytvt.Workflows.Rotate.Run.Accounting.{IsAccounted, returned, requery_failed}

module _ (c : NvrClient) (a : RotateArgs) (cands : List Channel) where
  abbrev pub all : List Subject
  all = map subject_of cands

  done_report-Accounts :
      (forced : ForceTally) (n : ℕ) (st : RotateState) (s : RunState c)
      → Ledger all st.results []
          (forced.rotated + length st.rotated)
          n
          (length (already_ok a cands) + forced.already)
          0
      → IsAccounted cands (done_report c a cands forced n st s).0
  unfolding done_report failures
  done_report-Accounts forced n st s h = returned (record {
    account = rw append-nil at h.account;
    told = h.told;
    total = refl;
    rotated = omega arith;
    synced = h.synced_count;
    already = h.already_count;
    failed = refl;
    no_error = refl;
  })

  pass_b-Accounts :
      (forced : ForceTally) (st : SortState) (s : RunState c)
      → Ledger all st.results
          (st.still_offline ++ [])
          forced.rotated
          (length st.synced)
          (length (already_ok a cands) + forced.already)
          0
      → IsAccounted cands (pass_b c a cands forced st s).0
  unfolding pass_b failures
  pass_b-Accounts forced st s h = elim (Bool-cases (is_empty st.still_offline)) [
    | inl e ↦ rw e (
        let h' = rw (is_empty-eq st.still_offline e) at h in
        returned (record {
          account = rw append-nil at h'.account;
          told = h.told;
          total = refl;
          rotated = h.rotated_count;
          synced = h.synced_count;
          already = h.already_count;
          failed = refl;
          no_error = refl;
        }))
    | inr e ↦ rw e (
        done_report-Accounts forced _ _ _ (
          rotate_all-Ledger c a all forced.rotated (length st.synced)
            (length (already_ok a cands) + forced.already) st.still_offline [] _ _ (rw add-zero h)))
  ]

  requeried-Accounts :
      (forced : ForceTally) (st : PushState) (r : Reply (List Channel)) (s : RunState c)
      → PushLedger c a all forced.rotated (length (already_ok a cands) + forced.already) st []
      → IsAccounted cands (requeried c a cands forced st r s).0
  unfolding requeried
  requeried-Accounts forced st (exc e) s h = requery_failed _
  requeried-Accounts forced st (ok chs) s h =
      pass_b-Accounts forced _ _
        (sort_all-Ledger c _ all forced.rotated _ st.attempted _ _ (rw append-nil at h))

  pub pass_a-Accounts :
      (forced : ForceTally) (results : List ChannelRotationResult) (s : RunState c)
      → Ledger all results
          (offline cands)
          forced.rotated
          0
          (length (already_ok a cands) + forced.already)
          0
      → IsAccounted cands (pass_a c a cands forced results s).0
  unfolding pass_a
  pass_a-Accounts forced results s h =
      requeried-Accounts forced _ _ _
        (push_all-Ledger c a all forced.rotated _ (offline cands) _ _ h)

  pub force_pass-Ledger :
      (pre : List ChannelRotationResult) (n : ℕ) (post : List Channel) (s : RunState c)
      → Ledger all (pre ++ []) (force_online a cands ++ post) 0 0 (n + 0) 0
      → ForceLedger c a all pre n (force_pass c a cands s).0 post
  unfolding force_pass
  force_pass-Ledger pre n post s h = elim (Bool-cases (is_empty (force_online a cands))) [
    | inl e ↦ rw e (rw (is_empty-eq (force_online a cands) e) at h)
    | inr e ↦ rw e (force_rotate_online-Ledger c a all pre n (force_online a cands) post _ h)
  ]

  pub forced_report-Accounts :
      (forced : ForceTally) (results : List ChannelRotationResult) (s : RunState c)
      → Ledger all results [] forced.rotated 0 (length (already_ok a cands) + forced.already) 0
      → IsAccounted cands (forced_report c a cands forced results s).0
  unfolding forced_report failures
  forced_report-Accounts forced results s h = returned (record {
    account = rw append-nil at h.account;
    told = h.told;
    total = refl;
    rotated = h.rotated_count;
    synced = h.synced_count;
    already = h.already_count;
    failed = refl;
    no_error = refl;
  })
