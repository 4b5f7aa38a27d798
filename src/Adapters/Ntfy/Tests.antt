-- ===== src/Adapters/Ntfy/Tests.antt =====
-- A history with one message, whose priority ntfy does not have, and the theorems on it.
use homelab_evidence_mcp.Prelude.{
  ◌≡◌, ◌≤◌, refl, List, map, length, inr, [], ◌∷◌, none, some, Text, ascii, text_beq, text_less, ℕ,
  ◌*◌, ◌+◌,
}
use homelab_evidence_mcp.Prelude.Int.{pos, pos_part}
use homelab_evidence_mcp.Prelude.Table.{lookup}
use homelab_evidence_mcp.Prelude.Sort.{insert, sort_stable}
use homelab_evidence_mcp.Redaction.Utf8.{
  decode_rune, chunks_from, chunks, value, encode_rune, encode_all,
}
use homelab_evidence_mcp.Redaction.Search.{has_prefix, index, contains}
use homelab_evidence_mcp.Redaction.Clean.{
  is_control, sanitize_control, truncate, truncate_bytes, neutralize_instruction_like,
}
use homelab_evidence_mcp.Redaction.Engine.{apply, apply_and_truncate}
use homelab_evidence_mcp.Redaction.Clean.Lengths.{rune_count}
use homelab_evidence_mcp.Http.Client.{header_flag, upstream_truncated, collection_time}
use homelab_evidence_mcp.Evidence.{Item, Time}
use homelab_evidence_mcp.Evidence.Age.{compute_freshness}
use homelab_evidence_mcp.Evidence.Order.{sort_items, keep_newest}
use homelab_evidence_mcp.Config.Example.{library}
use homelab_evidence_mcp.Adapters.Ntfy.Received.{
  Message, unix_epoch, nanoseconds, severity_for_priority, effective_priority, all_present,
}
use homelab_evidence_mcp.Adapters.Ntfy.{
  Outside, decode_lines, decode_messages, redact, clean_tags, clean_text, source_id_of, item_from,
  time_in, items_in, history_of, history_detail, line_limit,
}
use homelab_evidence_mcp.Adapters.Ntfy.Window.{item_from-bounds, IsShort, is_unknown, is_outside}

program : Unit {0}
unfolding text_beq text_less lookup insert sort_stable decode_rune chunks_from chunks value
    encode_rune encode_all has_prefix index contains is_control sanitize_control truncate
    truncate_bytes neutralize_instruction_like apply apply_and_truncate header_flag
    upstream_truncated collection_time compute_freshness sort_items keep_newest
    severity_for_priority effective_priority all_present decode_lines decode_messages redact
    clean_tags clean_text source_id_of item_from time_in items_in history_of history_detail
program = tt

abbrev message : Message
message = record {
  id = ascii "m1";
  time = pos 1000;
  event = ascii "message";
  title = ascii "nas";
  message = ascii "disk full";
  priority = some (pos 9);
  tags = ascii "disk" ∷ [];
}

abbrev outside : Outside Text
outside = record {
  lib = library;
  compile = λ s. some s;
  find_all = λ re s. [];
  engine = none;
  max_line_bytes = pos 0;
  get = λ p. inr (record { status = 200; headers = [] }, ascii "[1]");
  path_escape = λ s. s;
  show = λ n. ascii "900";
  unmarshal_array = λ s. some (some message ∷ []);
  unmarshal_line = λ s. none;
  scan = λ s. (s ∷ [], none);
  new_id = λ i. ascii "ev_1";
}

abbrev second : ℕ → ℕ
second s = (unix_epoch + s) * nanoseconds

-- The item of the message, in the window.
abbrev items : List Item
items =
    items_in outside (ascii "nas") (ascii "alerts") (second 900) (second 1100) (second 1200)
      (second 1200) 0 (message ∷ [])

item_run :
    map {B = Text × Time} (λ (a : Item). (a.summary, a.observed_at)) items
    ≡ (ascii "nas: disk full", second 1000) ∷ []
unfolding program
item_run = refl

abbrev shown : Item
shown = item_from outside (ascii "nas") (ascii "alerts") message (second 1000) (second 1200) 0

item_from-bounds_example :
    IsShort outside length (ascii "message") shown (pos_part (line_limit outside))
    × IsShort outside rune_count (ascii "topic") shown 64
    × (rune_count shown.summary ≤ 200)
    × (is_unknown shown.severity ≡ is_outside message.priority)
item_from-bounds_example =
    item_from-bounds outside (ascii "nas") (ascii "alerts") message (second 1000) (second 1200) 0
