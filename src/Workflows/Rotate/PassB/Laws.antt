-- ===== src/Workflows/Rotate/PassB/Laws.antt =====
-- Pass B gives every channel one result and counts those that it rotated.
use pytvt.Prelude.{ℕ, ◌+◌, refl, List, [], ◌∷◌, ◌++◌, arith, length, length-append}
use pytvt.Workflows.Base.{Reply, ok, exc, nvr_api_error, other_error}
use pytvt.Workflows.Client.{Channel, NvrClient, RunState}
use pytvt.Workflows.Rotate.{RotateArgs}
use pytvt.Workflows.Rotate.Tally.{Ledger, Ledger-add, Subject}
use pytvt.Workflows.Rotate.PassB.{
  RotateState, restored, changed, installed, rotate_step, rotate_all,
}

module _ (c : NvrClient) (a : RotateArgs) (all : List Subject) (ro sy al : ℕ) where
  abbrev pub RotateLedger : RotateState → List Channel → Type 0
  RotateLedger st post = Ledger all st.results post (ro + length st.rotated) sy al 0

  module _ (ch : Channel) (st : RotateState) (post : List Channel)
      (h : RotateLedger st (ch ∷ post)) where
    restored-Ledger :
        (r : Reply Unit) (s : RunState c) → RotateLedger (restored c a ch st r s).0 post
    unfolding restored
    restored-Ledger (exc e) s = Ledger-add all st.results [] post ch _ refl refl (omega arith) h
    restored-Ledger (ok _) s =
        Ledger-add all st.results [] post ch _ refl refl
          (omega (arith, length-append st.rotated (ch ∷ []))) h

    changed-Ledger : (r : Reply Unit) (s : RunState c) → RotateLedger (changed c a ch st r s).0 post
    unfolding changed
    changed-Ledger (exc (nvr_api_error e)) s =
        Ledger-add all st.results [] post ch _ refl refl (omega arith) h
    changed-Ledger (exc (other_error e)) s =
        Ledger-add all st.results [] post ch _ refl refl (omega arith) h
    changed-Ledger (ok _) s = restored-Ledger _ _

    installed-Ledger :
        (r : Reply Unit) (s : RunState c) → RotateLedger (installed c a ch st r s).0 post
    unfolding installed
    installed-Ledger (exc e) s = Ledger-add all st.results [] post ch _ refl refl (omega arith) h
    installed-Ledger (ok _) s = changed-Ledger _ _

  pub rotate_all-Ledger :
      (chs post : List Channel) (st : RotateState) (s : RunState c)
      → RotateLedger st (chs ++ post)
      → RotateLedger (rotate_all c a chs st s).0 post
  unfolding rotate_all rotate_step
  rotate_all-Ledger [] post st s h = h
  rotate_all-Ledger (ch ∷ chs) post st s h =
      rotate_all-Ledger chs post _ _ (installed-Ledger ch st (chs ++ post) h _ _)
