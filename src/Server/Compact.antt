-- ===== src/Server/Compact.antt =====
-- `compactIncident` of internal/mcpserver/compact.go. The size of an answer on the wire is an
-- argument, and the limit of items is a natural number, since the configuration admits no other.
pub mod Budgeted
mod Tests
use homelab_evidence_mcp.Prelude.{
  ℕ, zero, suc, ◌+◌, ◌-◌, ◌≤◌, ◌≡◌, refl, Bool, true, false, not, ◌||◌, ◌&&◌, List, [], ◌∷◌, ◌++◌,
  Option, none, some, Text, text_beq, text_less, ltb, leb, if◌then◌else◌, length, drop, count, any,
  keep, map,
}
use homelab_evidence_mcp.Prelude.Table
use homelab_evidence_mcp.Prelude.Table.{Table, lookup}
use homelab_evidence_mcp.Prelude.Sort.{sort_stable}
use homelab_evidence_mcp.Evidence.{Item, SourceKind, SourceOutcome, Bundle, source_beq, source_name}
use homelab_evidence_mcp.Evidence.Order.{sort_items}

abbrev pub of_source : SourceKind → Item → Bool
of_source kind item = source_beq item.source kind

-- The last item of a list.
abbrev pub last_item : List Item → Option Item
last_item [] = none
last_item (x ∷ []) = some x
last_item (x ∷ y ∷ rest) = last_item (y ∷ rest)

-- The kinds of sources in the order of their names.
abbrev pub kinds_in_order : List SourceKind
kinds_in_order =
    SourceKind.beszel ∷ SourceKind.docker ∷ SourceKind.gatus ∷ SourceKind.healthchecks
    ∷ SourceKind.loki ∷ SourceKind.ntfy ∷ []

-- One newest item for each contributing source.
unfoldable pub reserve : List SourceKind → List Item → Table Item → Table Item
reserve [] items selected = selected
reserve (kind ∷ kinds) items selected =
    reserve kinds items (elim (last_item (keep (of_source kind) items)) [
      | none ↦ selected
      | some item ↦ Table.put item.id item selected
    ])

-- The loop that fills the limit, over the items from the newest on.
unfoldable pub fill : ℕ → List Item → Table Item → Table Item
fill max_items [] selected = selected
fill max_items (item ∷ older) selected =
    let next : Table Item = elim (lookup item.id selected) [
      | none ↦ Table.put item.id item selected
      | some _ ↦ selected
    ] in
    fill max_items older (if ltb (length selected) max_items then next else selected)

abbrev pub reverse_onto : List Item → List Item → List Item
reverse_onto [] done = done
reverse_onto (x ∷ xs) done = reverse_onto xs (x ∷ done)

abbrev pub values : Table Item → List Item
values = map (λ e. e.1)

unfoldable pub selected_items : Table Item → List Item
selected_items selected = sort_items (values selected)

-- The items of `trimToNewest`, when the selection is over the limit.
unfoldable pub newest_selected : ℕ → Table Item → List Item
newest_selected max_items selected =
    let items = selected_items selected in
    if ltb max_items (length items) then drop (length items - max_items) items else items

-- The selection as the list that `selectedItems` gives of it in the end.
unfoldable pub select_items : ℕ → List Item → List Item
select_items max_items items =
    let selected = fill max_items (reverse_onto items []) (reserve kinds_in_order items []) in
    if ltb max_items (length selected)
    then sort_items (newest_selected max_items selected)
    else selected_items selected

-- The first item whose source has another one, and else the first item, is left out.
unfoldable pub drop_crowded : List Item → List Item → Option (List Item)
drop_crowded all [] = none
drop_crowded all (item ∷ rest) =
    let later = drop_crowded all rest in
    if ltb 1 (count (of_source item.source) all)
    then some rest
    else (elim later [ none ↦ none | some kept ↦ some (item ∷ kept) ])

unfoldable pub drop_one : List Item → List Item
unfolding drop_crowded
drop_one items = elim (drop_crowded items items) [ none ↦ drop 1 items | some kept ↦ kept ]

unfoldable pub source_had_items : Bundle → SourceKind → Bool
source_had_items bundle kind =
    any (λ s. source_beq s.kind kind && ltb 0 s.item_count) bundle.sources

-- The names of the sources that had items and have none left, each once.
unfoldable pub omitted_names : Bundle → List SourceOutcome → List Text → List Text
omitted_names bundle [] seen = []
omitted_names bundle (s ∷ rest) seen =
    let name = source_name s.kind in
    let skip = omitted_names bundle rest seen in
    let found = name ∷ omitted_names bundle rest (name ∷ seen) in
    if source_had_items bundle s.kind
      && (not (any (of_source s.kind) bundle.items) && not (any (λ t. text_beq t name) seen))
    then found
    else skip

module _ (wire_size : Bundle → ℕ) where
  -- The loop of `trimToBudget`, on fuel. Each round takes out one item.
  unfoldable pub trim_loop : ℕ → ℕ → Bundle → Bundle × Bool
  trim_loop zero budget bundle = (bundle, false)
  trim_loop (suc fuel) budget bundle = elim bundle.items [
    | [] ↦ (bundle, false)
    | _ ∷ _ ↦
        let rest = trim_loop fuel budget (record bundle {
          items = drop_one bundle.items;
          omitted_items = bundle.omitted_items + 1;
        }) in
        if ltb budget (wire_size bundle) then (rest.0, true) else (bundle, false)
  ]

  unfoldable pub trim_to_budget : ℕ → Bundle → Bundle × Bool
  trim_to_budget budget bundle =
      let (b, trimmed) = trim_loop (length bundle.items) budget bundle in
      (record b { omitted_sources = sort_stable text_less (omitted_names b b.sources []) }, trimmed)

  unfoldable pub compact_incident : Bundle → ℕ → ℕ → Bundle
  compact_incident bundle max_items byte_budget =
      let items = sort_items bundle.items in
      let chosen = select_items max_items items in
      let left_out = length items - length chosen in
      let started = record bundle {
        compact = true;
        byte_budget = byte_budget;
        items = chosen;
        selection_truncated = ltb 0 left_out;
        omitted_items = left_out;
      } in
      let (b, trimmed) = trim_to_budget byte_budget started in
      let done = record b {
        truncated = b.truncated || (b.selection_truncated || trimmed);
        byte_budget_truncated = b.byte_budget_truncated || trimmed;
      } in
      record done { byte_size = wire_size done }
