-- ===== src/Adapters/Loki/Tests.antt =====
-- A search for a quoted word in one stream of four records, and the theorems on it.
use homelab_evidence_mcp.Prelude.{
  ◌≡◌, ◌≤◌, refl, inr, false, [], ◌∷◌, ◌++◌, none, some, Text, ascii, text_beq, text_less, List,
  if◌then◌else◌, All, length, ℕ, ◌*◌, ◌+◌,
}
use homelab_evidence_mcp.Prelude.Int.{pos, negsuc, pos_part}
use homelab_evidence_mcp.Prelude.Table.{lookup}
use homelab_evidence_mcp.Prelude.Sort.{insert, sort_stable}
use homelab_evidence_mcp.Redaction.Utf8.{decode_rune, chunks_from, chunks, value}
use homelab_evidence_mcp.Redaction.Search.{has_prefix, index, contains}
use homelab_evidence_mcp.Redaction.Clean.{is_control}
use homelab_evidence_mcp.Config.Names.{has_control}
use homelab_evidence_mcp.Evidence.{Item}
use homelab_evidence_mcp.Evidence.Order.{sort_items, keep_newest}
use homelab_evidence_mcp.Config.Example.{library}
use homelab_evidence_mcp.Adapters.Ntfy.Received.{nanoseconds}
use homelab_evidence_mcp.Adapters.Loki.Query.{
  replace_byte, escape_logql, text_part, regex_part, repetitions, build_query,
}
use homelab_evidence_mcp.Adapters.Loki.Query.Filters.{IsFilter, build_query_lem}
use homelab_evidence_mcp.Adapters.Loki.Line.{
  Stream, QueryOptions, QueryStats, Outside, epoch, time_of_nano, severity_from_text, join_parts,
  stream_source_id, filter_labels, parse_nano, line_item,
}
use homelab_evidence_mcp.Adapters.Loki.{
  value_loop, stream_loop, lines_of, with_defaults, search_lines,
}
use homelab_evidence_mcp.Adapters.Loki.Window.{
  IsLine, IsAccounted, all_records, all_outside, stream_loop_lem, search_lines-IsLine,
}

program : Unit {0}
unfolding text_beq text_less lookup insert sort_stable decode_rune chunks_from chunks value
    has_prefix index contains is_control has_control sort_items keep_newest replace_byte
    escape_logql text_part regex_part build_query time_of_nano severity_from_text join_parts
    stream_source_id filter_labels parse_nano line_item value_loop stream_loop lines_of search_lines
program = tt

abbrev none_counted : QueryStats
none_counted = record { invalid_timestamps = 0; incomplete_records = 0 }

-- One record has no line, one no time, and one lies before the window.
abbrev stream : Stream
stream = record {
  labels = (ascii "token", ascii "abc") ∷ (ascii "app", ascii "web") ∷ [];
  values =
      (ascii "1" ∷ [])
      ∷ (ascii "x" ∷ ascii "lost" ∷ [])
      ∷ (ascii "0" ∷ ascii "early" ∷ [])
      ∷ (ascii "1" ∷ ascii "disk \"sda\" fails" ∷ [])
      ∷ [];
}

abbrev outside : Outside Text
outside = record {
  lib = library;
  compile = λ s. some s;
  find_all = λ re s. [];
  engine = none;
  max_line_bytes = pos 0;
  get = λ p. inr (record { status = 200; headers = [] }, ascii "{}");
  query_escape = λ s. s;
  show = λ n. ascii "9";
  parse_int = λ s.
      if text_beq s (ascii "1")
      then some (pos (10 * nanoseconds))
      else if text_beq s (ascii "0")
      then some (negsuc 0)
      else none;
  unmarshal = λ s.
      some (record { status = ascii "success"; result_type = []; result = some (stream ∷ []) });
  new_id = λ i. ascii "ev_1";
}

abbrev options : QueryOptions
options = record {
  service_id = ascii "nas";
  selector = ascii "{app=\"web\"}";
  start = epoch;
  end = 0;
  limit = pos 5;
  text = ascii "\"sda\"";
  regex = [];
}

abbrev now : ℕ
now = epoch + 20 * nanoseconds

abbrev query : Text
query = ascii "{app=\"web\"} |= \"\\\"sda\\\"\""

query_run :
    build_query (λ s. s) (λ s. some s) (ascii "{app=\"web\"}") (ascii "\"sda\"") [] ≡ inr query
unfolding program
query_run = refl

build_query_lem_example :
    (a : Text) × ((b : Text) × ((query ≡ ascii "{app=\"web\"}" ++ (a ++ b))
        × (IsFilter (ascii "|=") (ascii "\"sda\"") a
            × (IsFilter (ascii "|~") [] b × (repetitions [] ≤ 8)))))
build_query_lem_example =
    build_query_lem (λ s. s) (λ s. some s) (ascii "{app=\"web\"}") (ascii "\"sda\"") [] query
      query_run

abbrev in_force : QueryOptions
in_force = with_defaults options now

abbrev items : List Item
items = (stream_loop outside in_force now 0 none_counted (stream ∷ [])).0

abbrev counted : QueryStats
counted = record { invalid_timestamps = 1; incomplete_records = 1 }

search_run : search_lines outside options none_counted now ≡ inr (items, false, counted)
unfolding program
search_run = refl

one_line : length items ≡ 1
unfolding program
one_line = refl

search_lines-IsLine_example :
    All (IsLine outside in_force now) items
    × ((length items ≤ pos_part in_force.limit) × (pos_part in_force.limit ≤ 1000))
search_lines-IsLine_example =
    search_lines-IsLine outside options none_counted counted now items false search_run

stream_loop_lem_example :
    IsAccounted outside in_force now
      (all_records outside (stream ∷ []))
      (all_outside outside in_force (stream ∷ []))
      none_counted
      (stream_loop outside in_force now 0 none_counted (stream ∷ []))
stream_loop_lem_example = stream_loop_lem outside in_force now 0 none_counted (stream ∷ [])
