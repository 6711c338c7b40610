-- ===== src/Workflows/Rotate/PassB/Calls.antt =====
-- The calls of pass B are allowed, and come in their order.
use mathlib.Core.List.{Mem}
use pytvt.Prelude.{String, refl, List, [], ◌∷◌, inl, inr, All}
use pytvt.Workflows.Base.{Reply, ok, exc, nvr_api_error, other_error}
use pytvt.Workflows.Client.{Channel, NvrClient, RunState}
use pytvt.Workflows.Rotate.{RotateArgs}
use pytvt.Workflows.Rotate.Allowed.{Behaves, allow}
use pytvt.Workflows.Rotate.PassB.{
  RotateState, restored, changed, installed, rotate_step, rotate_all,
}

module _ (c : NvrClient) (a : RotateArgs) (ds : List String) where
  module _ (ch : Channel) (st : RotateState) where
    restored-Behaves :
        (r : Reply Unit) (s : RunState c) → Behaves a ds s → Behaves a ds (restored c a ch st r s).1
    unfolding restored
    restored-Behaves (exc e) s h = record { calls_allowed = h.calls_allowed }
    restored-Behaves (ok _) s h = record { calls_allowed = h.calls_allowed }

    changed-Behaves :
        (r : Reply Unit) (s : RunState c)
        → Mem ch.dev_id ds
        → Behaves a ds s
        → Behaves a ds (changed c a ch st r s).1
    unfolding changed
    changed-Behaves (exc (nvr_api_error e)) s m h = record { calls_allowed = h.calls_allowed }
    changed-Behaves (exc (other_error e)) s m h = record { calls_allowed = h.calls_allowed }
    changed-Behaves (ok _) s m h = restored-Behaves _ _ (allow a ds _ _ _ (m, refl, inl refl) h)

    installed-Behaves :
        (r : Reply Unit) (s : RunState c)
        → Mem ch.dev_id ds
        → Behaves a ds s
        → Behaves a ds (installed c a ch st r s).1
    unfolding installed
    installed-Behaves (exc e) s m h = record { calls_allowed = h.calls_allowed }
    installed-Behaves (ok _) s m h = changed-Behaves _ _ m (allow a ds _ _ _ (m, refl) h)

  pub rotate_all-Behaves :
      (chs : List Channel) (st : RotateState) (s : RunState c)
      → All (λ ch. Mem ch.dev_id ds) chs
      → Behaves a ds s
      → Behaves a ds (rotate_all c a chs st s).1
  unfolding rotate_all rotate_step
  rotate_all-Behaves [] st s m h = h
  rotate_all-Behaves (ch ∷ chs) st s m h =
      rotate_all-Behaves chs _ _ m.1
        (installed-Behaves ch st _ _ m.0 (allow a ds _ _ _ (m.0, refl, inr refl) h))
