-- ===== src/Workflows/Rotate/Allowed.antt =====
-- The writing calls that a password rotation may make.
use mathlib.Core.List.{Mem}
use pytvt.Prelude.{String, ◌≡◌, ◌⊎◌, List, ◌∷◌, All}
use pytvt.Workflows.Client.{
  NvrClient, RunState, Call, store_credentials, change_password, change_network, store_ip,
}
use pytvt.Workflows.Rotate.{RotateArgs}

-- A call about a device of `devices`, with the user and the passwords that the caller gave. No
-- address is changed.
abbrev pub IsAllowed : RotateArgs → List String → Call → Type 0
IsAllowed a devices (store_credentials d u p) =
    Mem d devices × (u ≡ a.username) × ((p ≡ a.new_password) ⊎ (p ≡ a.old_password))
IsAllowed a devices (change_password d p) = Mem d devices × (p ≡ a.new_password)
IsAllowed a devices (change_network d n) = ⊥
IsAllowed a devices (store_ip d n) = ⊥

-- Every writing call so far is allowed.
pub record Behaves {c : NvrClient} (a : RotateArgs) (devices : List String) (s : RunState c)
    : Type 0 where
  pub calls_allowed : All (IsAllowed a devices) s.calls

module _ {c : NvrClient} (a : RotateArgs) (devices : List String) (s : RunState c) where
  pub allow :
      (k : Call) (w : NvrClient.World c)
      → IsAllowed a devices k
      → Behaves a devices s
      → Behaves a devices (record s { world = w; calls = k ∷ s.calls })
  allow k w ok h = record { calls_allowed = (ok, h.calls_allowed) }
