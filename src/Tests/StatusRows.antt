-- ===== src/Tests/StatusRows.antt =====
-- Status Log rows at concrete inputs, with texts that need no stripping.
use Prim.Native.Char.{Char, char}
use pytvt.Prelude.{◌≡◌, refl, String, false, none, some, [], ◌∷◌, length}
use pytvt.StatusLog.{channel, Python, extract_endpoint, parse_node_name}
use pytvt.StatusLog.Names.{joined, parse_node_name-joined}
use pytvt.StatusLog.Rows.{
  split_tabs, event_of_cells, row_of_cells, parse_row, parse_rows, iter_lines, after_prefix,
  parse_status_log, bom_line_becomes_event,
}

abbrev plain : Python
plain = record {
  strip = λ s. s;
  lower = λ s. s;
  ip_port = λ s. none;
  digits = λ s. 0;
  parse_int = λ s. none;
  parse_time = λ s. some 1;
}

parse_node_name-joined_example :
    parse_node_name plain (joined "site_nvr" "Gate 1") (some channel) ≡ record {
      raw = joined "site_nvr" "Gate 1";
      parent = some "site_nvr";
      channel_label = some "Gate 1";
      endpoint = extract_endpoint plain "site_nvr";
      is_deleted_sentinel = false;
    }
parse_node_name-joined_example = parse_node_name-joined plain "site_nvr" "Gate 1" refl refl

abbrev row : String
row = "1\tMonitor online\t2020-01-01 00:00:00\tnvr_gate\t"

test_row : length (parse_status_log plain (row ∷ "" ∷ "No.\tType" ∷ [])) ≡ 1
unfolding parse_status_log parse_rows parse_row row_of_cells split_tabs iter_lines after_prefix
test_row = refl

abbrev bom : Char
bom = char 65279 tt

bom_line_becomes_event_example :
    parse_status_log plain (String.◌∷◌ bom "no.\ttype\ttime\tnode" ∷ row ∷ [])
    ≡ event_of_cells plain (String.◌∷◌ bom "no.") "type" "time" "node" []
      ∷ parse_rows plain (row ∷ [])
unfolding split_tabs
bom_line_becomes_event_example =
    bom_line_becomes_event plain bom "no.\ttype\ttime\tnode" (row ∷ []) (String.◌∷◌ bom "no.")
      "type" "time" "node" [] refl refl refl refl
