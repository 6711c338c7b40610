-- ===== src/Workflows/Rotate/Force/Calls.antt =====
-- The calls of the force pass are allowed.
use mathlib.Core.List.{Mem}
use pytvt.Prelude.{String, refl, List, [], ◌∷◌, inl, inr, str_eq, Bool-cases, All}
use pytvt.Workflows.Base.{Reply, ok, exc}
use pytvt.Workflows.Client.{Channel, NvrClient, RunState}
use pytvt.Workflows.Rotate.{RotateArgs}
use pytvt.Workflows.Rotate.Allowed.{Behaves, allow}
use pytvt.Workflows.Rotate.Force.{
  ForceTally, force_stored, force_edited, force_step, force_loop, force_rotate_online,
}

module _ (c : NvrClient) (a : RotateArgs) (ds : List String) where
  force_stored-Behaves :
      (ch : Channel) (status : String) (acc : ForceTally) (r : Reply Unit) (s : RunState c)
      → Behaves a ds s
      → Behaves a ds (force_stored c a ch status acc r s).1
  unfolding force_stored
  force_stored-Behaves ch status acc (exc e) s h = record { calls_allowed = h.calls_allowed }
  force_stored-Behaves ch status acc (ok _) s h = elim (Bool-cases (str_eq status "changed")) [
    | inl e ↦ rw e (record { calls_allowed = h.calls_allowed })
    | inr e ↦ rw e (record { calls_allowed = h.calls_allowed })
  ]

  force_edited-Behaves :
      (ch : Channel) (acc : ForceTally) (r : Reply String) (s : RunState c)
      → Mem ch.dev_id ds
      → Behaves a ds s
      → Behaves a ds (force_edited c a ch acc r s).1
  unfolding force_edited
  force_edited-Behaves ch acc (exc e) s m h = record { calls_allowed = h.calls_allowed }
  force_edited-Behaves ch acc (ok status) s m h =
      force_stored-Behaves ch status acc _ _ (allow a ds _ _ _ (m, refl, inl refl) h)

  force_loop-Behaves :
      (chs : List Channel) (acc : ForceTally) (s : RunState c)
      → All (λ ch. Mem ch.dev_id ds) chs
      → Behaves a ds s
      → Behaves a ds (force_loop c a chs acc s).1
  unfolding force_loop force_step
  force_loop-Behaves [] acc s m h = h
  force_loop-Behaves (ch ∷ chs) acc s m h =
      force_loop-Behaves chs _ _ m.1
        (force_edited-Behaves ch acc _ _ m.0 (allow a ds _ _ _ (m.0, refl) h))

  pub force_rotate_online-Behaves :
      (chs : List Channel) (s : RunState c)
      → All (λ ch. Mem ch.dev_id ds) chs
      → Behaves a ds s
      → Behaves a ds (force_rotate_online c a chs s).1
  unfolding force_rotate_online
  force_rotate_online-Behaves chs s m h = force_loop-Behaves chs _ s m h
