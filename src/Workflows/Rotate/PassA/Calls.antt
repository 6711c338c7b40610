-- ===== src/Workflows/Rotate/PassA/Calls.antt =====
-- The calls of pass A are allowed, and what it hands on are channels that it was given.
use mathlib.Core.List.{Mem}
use pytvt.Prelude.{String, refl, Option, List, [], ◌∷◌, inl, inr, Bool-cases, All, All-append}
use pytvt.Workflows.Base.{Reply, ok, exc}
use pytvt.Workflows.Client.{Channel, NvrClient, RunState}
use pytvt.Workflows.Rotate.{RotateArgs}
use pytvt.Workflows.Rotate.Allowed.{Behaves, allow}
use pytvt.Workflows.Rotate.PassA.{
  PushState, SortState, pushed, push_step, push_all, came_online, sort_step, sort_all,
}

abbrev IsIn : List String → Channel → Type 0
IsIn ds ch = Mem ch.dev_id ds

module _ (c : NvrClient) (a : RotateArgs) (ds : List String) where
  pushed-IsIn :
      (ch : Channel) (st : PushState) (r : Reply Unit) (s : RunState c)
      → IsIn ds ch
      → All (IsIn ds) st.attempted
      → All (IsIn ds) (pushed c a ch st r s).0.attempted
  unfolding pushed
  pushed-IsIn ch st (ok _) s m h = All-append (IsIn ds) st.attempted (ch ∷ []) h (m, tt)
  pushed-IsIn ch st (exc e) s m h = h

  pushed-Behaves :
      (ch : Channel) (st : PushState) (r : Reply Unit) (s : RunState c)
      → Behaves a ds s
      → Behaves a ds (pushed c a ch st r s).1
  unfolding pushed
  pushed-Behaves ch st (ok _) s h = record { calls_allowed = h.calls_allowed }
  pushed-Behaves ch st (exc e) s h = record { calls_allowed = h.calls_allowed }

  pub push_all-Behaves :
      (chs : List Channel) (st : PushState) (s : RunState c)
      → All (IsIn ds) chs
      → All (IsIn ds) st.attempted
      → Behaves a ds s
      → All (IsIn ds) (push_all c a chs st s).0.attempted × Behaves a ds (push_all c a chs st s).1
  unfolding push_all push_step
  push_all-Behaves [] st s m t h = (t, h)
  push_all-Behaves (ch ∷ chs) st s m t h =
      push_all-Behaves chs _ _ m.1 (pushed-IsIn ch st _ _ m.0 t)
        (pushed-Behaves ch st _ _ (allow a ds _ _ _ (m.0, refl, inl refl) h))

module _ (c : NvrClient) (a : RotateArgs) (ds : List String)
    (latest : String → Option Channel) where
  sort_step-Behaves :
      (ch : Channel) (st : SortState) (s : RunState c)
      → IsIn ds ch
      → All (IsIn ds) st.still_offline
      → Behaves a ds s
      → All (IsIn ds) (sort_step c latest ch st s).0.still_offline
        × Behaves a ds (sort_step c latest ch st s).1
  unfolding sort_step
  sort_step-Behaves ch st s m t h = elim (Bool-cases (came_online (latest ch.dev_id))) [
    | inl e ↦ rw e (t, record { calls_allowed = h.calls_allowed })
    | inr e ↦ rw e (All-append (IsIn ds) st.still_offline (ch ∷ []) t (m, tt), h)
  ]

  pub sort_all-Behaves :
      (chs : List Channel) (st : SortState) (s : RunState c)
      → All (IsIn ds) chs
      → All (IsIn ds) st.still_offline
      → Behaves a ds s
      → All (IsIn ds) (sort_all c latest chs st s).0.still_offline
        × Behaves a ds (sort_all c latest chs st s).1
  unfolding sort_all
  sort_all-Behaves [] st s m t h = (t, h)
  sort_all-Behaves (ch ∷ chs) st s m t h =
      let (t', h') = sort_step-Behaves ch st s m.0 t h in sort_all-Behaves chs _ _ m.1 t' h'
