-- ===== src/Alarm/Tree.antt =====
-- The elements of an XML document, and the small texts and bytes that alarm_protocol.py looks at.
use Prim.Native.Char.{code}
use pytvt.Prelude.{
  String, Bool, true, false, ◌||◌, Option, none, some, List, [], ◌∷◌, ◌==◌, str_eq, if◌then◌else◌,
  is_empty,
}
use pytvt.Prelude.Bytes.{Bytes, starts_with}
use pytvt.Prelude.Dict.{Dict, put}
use pytvt.Alarm.{Element, node, Elements, no_more, more}

abbrev has_brace : String → Bool
has_brace String.[] = false
has_brace (String.◌∷◌ c s) = let rest = has_brace s in if code c == 125 then true else rest

-- `tag.rsplit("}", 1)[-1]`
unfoldable pub local : String → String
local String.[] = String.[]
local (String.◌∷◌ c s) =
    let rest = local s in if has_brace s then rest else if code c == 125 then s else String.◌∷◌ c s

abbrev before_brace : String → String
before_brace String.[] = String.[]
before_brace (String.◌∷◌ c s) =
    let rest = before_brace s in if code c == 125 then String.[] else String.◌∷◌ c rest

-- `tag[1:].split("}", 1)[0] if tag.startswith("{") else ""`
pub namespace_of : String → String
namespace_of String.[] = ""
namespace_of (String.◌∷◌ c s) = if code c == 123 then before_brace s else ""

abbrev pub tag_of : Element → String
tag_of (node tag text attributes children) = local tag

-- `element.text or ""`
abbrev pub raw_text : Element → String
raw_text (node tag text attributes children) = text

abbrev pub attributes_of : Element → Dict String
attributes_of (node tag text attributes children) = attributes

abbrev pub children_of : Element → List Element
children_of (node tag text attributes children) = to_list children
  where
    to_list : Elements → List Element
    to_list no_more = []
    to_list (more e es) = e ∷ to_list es

-- `{_local(child.tag): child for child in root}`
unfoldable pub children_by_name : List Element → Dict Element → Dict Element
children_by_name [] d = d
children_by_name (e ∷ es) d = children_by_name es (put (tag_of e) e d)

abbrev pub or_text : Option String → String → String
or_text none other = other
or_text (some s) other = s

-- `"".get(k) or other`: an empty text counts as missing.
abbrev pub or_filled : Option String → String → String
or_filled none other = other
or_filled (some s) other = if str_eq s "" then other else s

-- `sub in raw`
unfoldable pub has_bytes : Bytes → Bytes → Bool
has_bytes sub [] = is_empty sub
has_bytes sub (b ∷ bs) = let rest = has_bytes sub bs in starts_with sub (b ∷ bs) || rest
