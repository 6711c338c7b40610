-- ===== src/Workflows/Rotate/Force/Laws.antt =====
-- The force pass gives every channel one result and counts it.
use mathlib.Core.List.{append_assoc}
use pytvt.Prelude.{ℕ, ◌+◌, String, refl, List, [], ◌∷◌, ◌++◌, arith, str_eq, Bool-cases, inl, inr}
use pytvt.Workflows.Base.{Reply, ok, exc}
use pytvt.Workflows.Client.{Channel, NvrClient, RunState}
use pytvt.Workflows.Rotate.{ChannelRotationResult, RotateArgs}
use pytvt.Workflows.Rotate.Tally.{Ledger, Ledger-add, Subject}
use pytvt.Workflows.Rotate.Force.{
  ForceTally, force_stored, force_edited, force_step, force_loop, force_rotate_online,
}

module _ (c : NvrClient) (a : RotateArgs) (all : List Subject) (pre : List ChannelRotationResult)
    (n : ℕ) where
  -- The pass starts with the results `pre`, of which `n` are in sync.
  abbrev pub ForceLedger : ForceTally → List Channel → Type 0
  ForceLedger acc pending = Ledger all (pre ++ acc.out) pending acc.rotated 0 (n + acc.already) 0

  module _ (ch : Channel) (acc : ForceTally) (post : List Channel)
      (h : ForceLedger acc (ch ∷ post)) where
    force_stored-Ledger :
        (status : String) (r : Reply Unit) (s : RunState c)
        → ForceLedger (force_stored c a ch status acc r s).0 post
    unfolding force_stored
    force_stored-Ledger status (exc e) s =
        rw (← append_assoc) (Ledger-add all (pre ++ acc.out) [] post ch _ refl refl (omega arith) h)
    force_stored-Ledger status (ok _) s = elim (Bool-cases (str_eq status "changed")) [
      | inl e ↦
          rw (e, ← append_assoc)
            (Ledger-add all (pre ++ acc.out) [] post ch _ refl refl (omega arith) h)
      | inr e ↦
          rw (e, ← append_assoc)
            (Ledger-add all (pre ++ acc.out) [] post ch _ refl refl (omega arith) h)
    ]

    force_edited-Ledger :
        (r : Reply String) (s : RunState c) → ForceLedger (force_edited c a ch acc r s).0 post
    unfolding force_edited
    force_edited-Ledger (exc e) s =
        rw (← append_assoc) (Ledger-add all (pre ++ acc.out) [] post ch _ refl refl (omega arith) h)
    force_edited-Ledger (ok status) s = force_stored-Ledger status _ _

    force_step-Ledger : (s : RunState c) → ForceLedger (force_step c a ch acc s).0 post
    unfolding force_step
    force_step-Ledger s = force_edited-Ledger _ _

  force_loop-Ledger :
      (chs post : List Channel) (acc : ForceTally) (s : RunState c)
      → ForceLedger acc (chs ++ post)
      → ForceLedger (force_loop c a chs acc s).0 post
  unfolding force_loop
  force_loop-Ledger [] post acc s h = h
  force_loop-Ledger (ch ∷ chs) post acc s h =
      force_loop-Ledger chs post _ _ (force_step-Ledger ch acc (chs ++ post) h s)

  pub force_rotate_online-Ledger :
      (chs post : List Channel) (s : RunState c)
      → Ledger all (pre ++ []) (chs ++ post) 0 0 (n + 0) 0
      → ForceLedger (force_rotate_online c a chs s).0 post
  unfolding force_rotate_online
  force_rotate_online-Ledger chs post s h = force_loop-Ledger chs post _ s h
