-- ===== src/StatusLog/Rows.antt =====
-- The rows of the Status Log export (`_iter_lines` and `parse_status_log` of status_log.py).
use Prim.Native.Char.{Char, code}
use pytvt.Prelude.{
  ℕ, ◌≡◌, refl, ◌∙◌, ap, String, Bool, true, false, Option, none, some, List, [], ◌∷◌, ◌++◌, ◌==◌,
  str_eq, if◌then◌else◌,
}
use pytvt.Prelude.Int.{ℤ}
use pytvt.StatusLog.{
  EntityLayer, Transition, NodeIdentity, Python, classify_event_type, parse_node_name,
}

pub record StatusLogEvent : Type 0 where
  pub seq : Option ℤ
  pub event_type : String
  pub entity_layer : Option EntityLayer
  pub transition : Option Transition
  pub record_time : Option ℕ
  pub raw_time : String
  pub node : NodeIdentity
  pub details : String

-- The property `is_recognized`.
pub is_recognized : StatusLogEvent → Bool
is_recognized e = elim e.entity_layer [ none ↦ false | some _ ↦ true ]

unfoldable pub after_prefix : String → String → Option String
after_prefix String.[] s = some s
after_prefix (String.◌∷◌ c p) String.[] = none
after_prefix (String.◌∷◌ c p) (String.◌∷◌ d s) =
    let rest = after_prefix p s in if code c == code d then rest else none

abbrev pub or_whole : Option String → String → String
or_whole none s = s
or_whole (some rest) s = rest

-- The text that the code strips: a backslash and `ufeff`.
abbrev pub bom_text : String
bom_text = "\\ufeff"

-- `_iter_lines`, on the lines without their ends.
unfoldable pub iter_lines : List String → List String
iter_lines [] = []
iter_lines (first ∷ rest) = or_whole (after_prefix bom_text first) first ∷ rest

-- `line.split("\t")`
abbrev pub cell_before : Char → List String → List String
cell_before c [] = []
cell_before c (cell ∷ cells) =
    if code c == 9 then String.[] ∷ cell ∷ cells else String.◌∷◌ c cell ∷ cells

unfoldable pub split_tabs : String → List String
split_tabs String.[] = String.[] ∷ []
split_tabs (String.◌∷◌ c s) = cell_before c (split_tabs s)

abbrev pub layer_of : Option (EntityLayer × Transition) → Option EntityLayer
layer_of none = none
layer_of (some k) = some k.0

abbrev pub transition_of : Option (EntityLayer × Transition) → Option Transition
transition_of none = none
transition_of (some k) = some k.1

-- `cells[4] if len(cells) > 4 else ""`
abbrev pub details_of : List String → String
details_of [] = ""
details_of (cell ∷ _) = cell

module _ (python : Python) where
  abbrev pub event_of_cells : String → String → String → String → List String → StatusLogEvent
  event_of_cells raw_seq event_type raw_time node_name more = record {
    seq = python.parse_int (python.strip raw_seq);
    event_type = python.strip event_type;
    entity_layer = layer_of (classify_event_type python (python.strip event_type));
    transition = transition_of (classify_event_type python (python.strip event_type));
    record_time = python.parse_time (python.strip (python.strip raw_time));
    raw_time = python.strip raw_time;
    node =
        parse_node_name python (python.strip node_name)
          (layer_of (classify_event_type python (python.strip event_type)));
    details = details_of more;
  }

  abbrev pub is_header : String → Bool
  is_header cell = str_eq (python.lower (python.strip cell)) "no."

  -- A row by its cells: the header and rows of fewer than four cells give nothing.
  unfoldable pub row_of_cells : List String → List StatusLogEvent
  row_of_cells (raw_seq ∷ event_type ∷ raw_time ∷ node_name ∷ more) =
      if is_header raw_seq
      then []
      else event_of_cells raw_seq event_type raw_time node_name more ∷ []
  row_of_cells _ = []

  unfoldable pub parse_row : String → List StatusLogEvent
  parse_row line = if str_eq (python.strip line) "" then [] else row_of_cells (split_tabs line)

  unfoldable pub parse_rows : List String → List StatusLogEvent
  parse_rows [] = []
  parse_rows (line ∷ lines) = parse_row line ++ parse_rows lines

  unfoldable pub parse_status_log : List String → List StatusLogEvent
  parse_status_log lines = parse_rows (iter_lines lines)

iter_lines-bom :
    (c : Char) (line : String) (rest : List String)
    → code c ≡ 65279
    → iter_lines (String.◌∷◌ c line ∷ rest) ≡ String.◌∷◌ c line ∷ rest
unfolding iter_lines after_prefix
iter_lines-bom c line rest h = simp h refl

-- A first line that begins with a byte order mark keeps it: if the line is not blank and has at least
-- four cells, and its first cell, with the mark, does not read `no.`, the line becomes an event,
-- before those of the other lines, even if it is the header.
pub bom_line_becomes_event :
    (python : Python) (c : Char) (line : String) (rest : List String)
    (raw_seq event_type raw_time node_name : String) (more : List String)
    → code c ≡ 65279
    → str_eq (python.strip (String.◌∷◌ c line)) "" ≡ false
    → split_tabs (String.◌∷◌ c line) ≡ raw_seq ∷ event_type ∷ raw_time ∷ node_name ∷ more
    → is_header python raw_seq ≡ false
    → parse_status_log python (String.◌∷◌ c line ∷ rest)
      ≡ event_of_cells python raw_seq event_type raw_time node_name more ∷ parse_rows python rest
unfolding parse_status_log parse_rows parse_row row_of_cells
bom_line_becomes_event python c line rest a b d e more h n s k =
    ap (parse_rows python) (iter_lines-bom c line rest h) ∙ simp (n, s, k) refl
