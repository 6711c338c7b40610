-- ===== src/Prelude/Json.antt =====
-- What `json.loads` gives, and the operations of dicts and lists on it.
use Prim.Native.String.{String}
use mathlib.Core.Bool.{Bool, true, false, not}
use mathlib.Core.Option.{Option, none, some}
use mathlib.Core.List.{List, [], ◌∷◌}
use package.text.Mathlib.Text.{◌==◌ as str_eq}
use pytvt.Prelude.Tests.{if◌then◌else◌}
use pytvt.Prelude.Int.{ℤ, is_zero}

-- What `json.loads` gives. A float is whether it is true, and its text.
mutual
  pub data Json : Type 0 where
    text : String → Json
    num : ℤ → Json
    real : Bool → String → Json
    flag : Bool → Json
    null : Json
    array : Items → Json
    object : Members → Json

  pub data Items : Type 0 where
    no_items : Items
    item : Json → Items → Items

  pub data Members : Type 0 where
    no_members : Members
    member : String → Json → Members → Members

-- `bool(v)`
abbrev pub is_true : Json → Bool
is_true (text s) = not (str_eq s "")
is_true (num n) = not (is_zero n)
is_true (real b s) = b
is_true (flag b) = b
is_true null = false
is_true (array no_items) = false
is_true (array (item v more)) = true
is_true (object no_members) = false
is_true (object (member k v more)) = true

-- `d.get(k)`, with `None` for a key that is not there.
abbrev pub get_member : String → Members → Json
get_member k no_members = null
get_member k (member j v more) = let rest = get_member k more in if str_eq j k then v else rest

-- `d[k]`: `none` is its `KeyError`.
abbrev pub require : String → Members → Option Json
require k no_members = none
require k (member j v more) = let rest = require k more in if str_eq j k then some v else rest

-- The values of a list.
abbrev pub list_of : Items → List Json
list_of no_items = []
list_of (item v more) = v ∷ list_of more
