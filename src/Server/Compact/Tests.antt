-- ===== src/Server/Compact/Tests.antt =====
-- Runs of the compact packing and its theorems at concrete inputs: an item takes ten bytes.
use homelab_evidence_mcp.Prelude.{
  ℕ, ◌+◌, ◌*◌, ◌≤◌, ◌≡◌, refl, ◌⊎◌, true, false, [], ◌∷◌, ascii, text_beq, text_less, length, arith,
}
use homelab_evidence_mcp.Prelude.Sort.{insert, sort_stable}
use homelab_evidence_mcp.Prelude.Table
use homelab_evidence_mcp.Prelude.Table.{lookup}
use homelab_evidence_mcp.Evidence.{Item, SourceKind, Bundle, source_name, source_beq, source_less}
use homelab_evidence_mcp.Evidence.Order.{sort_items, item_less}
use homelab_evidence_mcp.Evidence.Samples.{first, second, third}
use homelab_evidence_mcp.Server.Compact.{
  reserve, fill, selected_items, newest_selected, select_items, drop_crowded, drop_one,
  source_had_items, omitted_names, trim_loop, trim_to_budget, compact_incident,
}
use homelab_evidence_mcp.Server.Compact.Budgeted.{trim_loop_lem, length-compact_incident-le}

program : Unit {0}
unfolding text_beq text_less insert sort_stable lookup Table.put source_name source_beq source_less
    sort_items item_less reserve fill selected_items newest_selected select_items drop_crowded
    drop_one source_had_items omitted_names trim_loop trim_to_budget compact_incident
program = tt

abbrev other : Item
other = record third { source = SourceKind.ntfy; id = ascii "n" }

abbrev bundle : Bundle
bundle = record {
  service_id = ascii "nas";
  requested_start = 1;
  requested_end = 9;
  effective_start = 1;
  effective_end = 9;
  items = first ∷ record second { source = first.source } ∷ other ∷ [];
  sources = [];
  complete = true;
  truncated = false;
  compact = false;
  byte_budget = 0;
  byte_size = 0;
  selection_truncated = false;
  byte_budget_truncated = false;
  omitted_items = 0;
  omitted_sources = [];
  warnings = [];
  factual_summary = [];
  retrieved_at = 9;
}

abbrev ten_each : Bundle → ℕ
ten_each b = 10 * length b.items

both_sources_stay :
    (compact_incident ten_each bundle 5 20).items
    ≡ record second { source = first.source } ∷ other ∷ []
unfolding program
both_sources_stay = refl

limited : length (compact_incident ten_each bundle 2 90).items ≡ 2
unfolding program
limited = refl

trim_loop_lem_example :
    ((trim_loop ten_each 3 20 bundle).0.omitted_items
        + length (trim_loop ten_each 3 20 bundle).0.items
      ≡ 3)
    × (((trim_loop ten_each 3 20 bundle).0.items ≡ [])
        ⊎ (ten_each (trim_loop ten_each 3 20 bundle).0 ≤ 20))
trim_loop_lem_example = trim_loop_lem ten_each 3 20 bundle (omega arith)

length-compact_incident-le_example : length (compact_incident ten_each bundle 2 20).items ≤ 2
length-compact_incident-le_example = length-compact_incident-le ten_each bundle 2 20
