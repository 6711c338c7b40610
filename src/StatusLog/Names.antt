-- ===== src/StatusLog/Names.antt =====
-- Node names: what is written with an underscore is taken apart again.
use Prim.Native.Char.{code}
use pytvt.Prelude.{
  ◌≡◌, refl, ap, String, Bool, true, false, ◌||◌, inl, inr, none, some, str_eq, eq_iff, Bool-cases,
}
use pytvt.StatusLog.{
  channel, Python, deleted_node_sentinel, is_underscore, rpartition, extract_endpoint,
  channel_identity, parse_node_name,
}

abbrev pub has_underscore : String → Bool
has_underscore String.[] = false
has_underscore (String.◌∷◌ c s) = is_underscore (code c) || has_underscore s

abbrev pub glue : String → String → String
glue String.[] t = t
glue (String.◌∷◌ c s) t = String.◌∷◌ c (glue s t)

-- `f"{parent}_{label}"`
abbrev pub joined : String → String → String
joined parent label = glue parent (glue "_" label)

rpartition-none : (s : String) → has_underscore s ≡ false → rpartition s ≡ none
unfolding rpartition
rpartition-none String.[] h = refl
rpartition-none (String.◌∷◌ c s) h = elim (Bool-cases (is_underscore (code c))) [
  | inl e ↦ absurd (cc (simp e at h))
  | inr e ↦ simp (rpartition-none s (simp e at h), e) refl
]

rpartition-joined :
    (parent label : String)
    → has_underscore label ≡ false
    → rpartition (joined parent label) ≡ some (parent, label)
unfolding rpartition
rpartition-joined String.[] label h = simp (rpartition-none label h) refl
rpartition-joined (String.◌∷◌ c parent) label h = simp (rpartition-joined parent label h) refl

has_underscore-joined : (parent label : String) → has_underscore (joined parent label) ≡ true
has_underscore-joined String.[] label = refl
has_underscore-joined (String.◌∷◌ c parent) label = elim (Bool-cases (is_underscore (code c))) [
  | inl e ↦ simp e refl
  | inr e ↦ simp e (has_underscore-joined parent label)
]

joined-ne_sentinel :
    (parent label : String) → str_eq (joined parent label) deleted_node_sentinel ≡ false
joined-ne_sentinel parent label =
    elim (Bool-cases (str_eq (joined parent label) deleted_node_sentinel)) [
      | inl e ↦
          let p = (eq_iff (joined parent label) deleted_node_sentinel).0 e in
          let q : has_underscore deleted_node_sentinel ≡ false = refl in
          absurd (cc (ap has_underscore p, q, has_underscore-joined parent label))
      | inr e ↦ e
    ]

-- The name of a channel that is a recorder's name, an underscore and a label without an underscore,
-- and that has no white space to strip, is taken apart into that recorder and that label, however
-- many underscores the recorder's name has, with the endpoint that the recorder's name is.
pub parse_node_name-joined :
    (python : Python) (parent label : String)
    → has_underscore label ≡ false
    → python.strip (joined parent label) ≡ joined parent label
    → parse_node_name python (joined parent label) (some channel) ≡ record {
      raw = joined parent label;
      parent = some parent;
      channel_label = some label;
      endpoint = extract_endpoint python parent;
      is_deleted_sentinel = false;
    }
unfolding parse_node_name channel_identity
parse_node_name-joined python parent label h s =
    simp (s, joined-ne_sentinel parent label, rpartition-joined parent label h) refl
