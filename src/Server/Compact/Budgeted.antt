-- ===== src/Server/Compact/Budgeted.antt =====
-- The items of a compact answer of internal/mcpserver/compact.go.
use homelab_evidence_mcp.Prelude.{
  ℕ, zero, suc, ◌+◌, ◌-◌, ◌≤◌, ◌<◌, ◌≡◌, refl, ◌∙◌, ap, ◌⊎◌, inl, inr, Bool, true, false, List, [],
  ◌∷◌, ◌++◌, some, ltb, if◌then◌else◌, length, length-drop, count, arith, Bool-cases, Option-cases,
  length-map,
}
use homelab_evidence_mcp.Prelude.Sort.{length-sort_stable}
use homelab_evidence_mcp.Prelude.Table.{Table}
use homelab_evidence_mcp.Evidence.{Item, Bundle, SourceKind, source_beq, source_beq_iff}
use homelab_evidence_mcp.Evidence.Order.{sort_items, item_less}
use homelab_evidence_mcp.Server.Compact.{
  of_source, values, selected_items, newest_selected, select_items, drop_crowded, drop_one,
  trim_loop, trim_to_budget, compact_incident, reserve, fill, reverse_onto, kinds_in_order,
}

length-sort_items : (items : List Item) → length (sort_items items) ≡ length items
unfolding sort_items
length-sort_items items = length-sort_stable item_less items

length-selected_items : (selected : Table Item) → length (selected_items selected) ≡ length selected
unfolding selected_items
length-selected_items selected =
    length-sort_items (values selected) ∙ length-map (λ e. e.1) selected

length-newest_selected-le :
    (max_items : ℕ) (selected : Table Item)
    → length (newest_selected max_items selected) ≤ max_items
unfolding newest_selected
length-newest_selected-le max_items selected =
    let items = selected_items selected in
    elim (Bool-cases (ltb max_items (length items))) [
      | inl e ↦ rw e (ground (arith, length-drop (length items - max_items) items))
      | inr e ↦ rw e (ground arith)
    ]

length-select_items-le :
    (max_items : ℕ) (items : List Item) → length (select_items max_items items) ≤ max_items
unfolding select_items
length-select_items-le max_items items =
    let selected = fill max_items (reverse_onto items []) (reserve kinds_in_order items []) in
    elim (Bool-cases (ltb max_items (length selected))) [
      | inl e ↦ rw e (
          omega (
            arith,
            length-sort_items (newest_selected max_items selected),
            length-newest_selected-le max_items selected,
          ))
      | inr e ↦ rw e (ground (arith, length-selected_items selected))
    ]

-- One item was taken out.
record TakenOut (all items kept : List Item) : Type 0 where
  before : List Item
  gone : Item
  after : List Item
  whole : items ≡ before ++ gone ∷ after
  rest : kept ≡ before ++ after
  crowded : ltb 1 (count (of_source gone.source) all) ≡ true

drop_crowded-TakenOut :
    (all items kept : List Item) → drop_crowded all items ≡ some kept → TakenOut all items kept
unfolding drop_crowded
drop_crowded-TakenOut all [] kept h = absurd (ground arith)
drop_crowded-TakenOut all (x ∷ items) kept h =
    elim (Bool-cases (ltb 1 (count (of_source x.source) all))) [
      | inl e ↦ record {
        before = [];
        gone = x;
        after = items;
        whole = refl;
        rest = ground arith;
        crowded = e;
      }
      | inr e ↦ elim (Option-cases (drop_crowded all items)) [
        | inl f ↦ absurd (ground arith)
        | inr (k, f) ↦
            let t = drop_crowded-TakenOut all items k f in
            record {
              before = x ∷ t.before;
              gone = t.gone;
              after = t.after;
              whole = ap (◌∷◌ x) t.whole;
              rest = ground (arith, t.rest);
              crowded = t.crowded;
            }
      ]
    ]

length-append-cons : (a b : List Item) (x : Item) → length (a ++ x ∷ b) ≡ suc (length (a ++ b))
length-append-cons [] b x = refl
length-append-cons (y ∷ a) b x = ap suc (length-append-cons a b x)

count-append-cons :
    (p : Item → Bool) (a b : List Item) (x : Item)
    → count p (a ++ x ∷ b) ≡ (if p x then suc (count p (a ++ b)) else count p (a ++ b))
count-append-cons p [] b x = ground arith
count-append-cons p (y ∷ a) b x = ground (arith, count-append-cons p a b x)

length-drop_one :
    (x : Item) (items : List Item) → suc (length (drop_one (x ∷ items))) ≡ suc (length items)
unfolding drop_one
length-drop_one x items = elim (Option-cases (drop_crowded (x ∷ items) (x ∷ items))) [
  | inl e ↦ rw (e, drop_one) refl
  | inr (kept, e) ↦
      let t = drop_crowded-TakenOut (x ∷ items) (x ∷ items) kept e in
      rw (e, drop_one)
        (ground
          (arith, length-append-cons t.before t.after t.gone, ap length t.whole, ap length t.rest))
]

-- While some source has more than one item, the item that goes is not the last one of its
-- source: every source that had an item still has one.
count-drop_one :
    (items kept : List Item) (kind : SourceKind)
    → drop_crowded items items ≡ some kept
    → 0 < count (of_source kind) items
    → 0 < count (of_source kind) (drop_one items)
unfolding drop_one
count-drop_one items kept kind e has =
    let t = drop_crowded-TakenOut items items kept e in
    let counted =
      ap (count (of_source kind)) t.whole
      ∙ count-append-cons (of_source kind) t.before t.after t.gone in
    let left = ap (count (of_source kind)) t.rest in
    rw (e, drop_one)
      (elim (Bool-cases (source_beq t.gone.source kind)) [
        | inl same ↦
            let is = (source_beq_iff t.gone.source kind).0 same in
            let more = ap (λ k. ltb 1 (count (of_source k) items)) is in
            ground (arith, counted, left, t.crowded, more)
        | inr other ↦ ground (arith, counted, left)
      ])

List-cases : (l : List Item) → (l ≡ []) ⊎ ((x : Item) × (r : List Item) × (l ≡ x ∷ r))
List-cases [] = inl refl
List-cases (x ∷ r) = inr (x, r, refl)

-- The bundle after a round.
abbrev trimmed_once : Bundle → Bundle
trimmed_once b = record b { items = drop_one b.items; omitted_items = b.omitted_items + 1 }

module _ (wire_size : Bundle → ℕ) where
  trim_loop-nil :
      (fuel budget : ℕ) (b : Bundle) → b.items ≡ [] → trim_loop wire_size fuel budget b ≡ (b, false)
  unfolding trim_loop
  trim_loop-nil zero budget b h = refl
  trim_loop-nil (suc fuel) budget b h = ground arith

  trim_loop-cons :
      (fuel budget : ℕ) (b : Bundle) (x : Item) (r : List Item)
      → b.items ≡ x ∷ r
      → trim_loop wire_size (suc fuel) budget b ≡ (
          if ltb budget (wire_size b)
          then ((trim_loop wire_size fuel budget (trimmed_once b)).0, true)
          else (b, false))
  unfolding trim_loop
  trim_loop-cons fuel budget b x r h = ground arith

  -- With a round for each item at least, the loop of `trimToBudget` ends by itself: when it
  -- ends no item is left or the answer fits the budget. It counts each item that it takes out
  -- as omitted.
  pub trim_loop_lem :
      (fuel budget : ℕ) (b : Bundle)
      → length b.items ≤ fuel
      → ((trim_loop wire_size fuel budget b).0.omitted_items
            + length (trim_loop wire_size fuel budget b).0.items
          ≡ b.omitted_items + length b.items)
        × (((trim_loop wire_size fuel budget b).0.items ≡ [])
            ⊎ (wire_size (trim_loop wire_size fuel budget b).0 ≤ budget))
  trim_loop_lem zero budget b enough = elim (List-cases b.items) [
    | inl e ↦ rw (trim_loop-nil zero budget b e) (refl, inl e)
    | inr (x, r, e) ↦ absurd (omega (arith, ap length e))
  ]
  trim_loop_lem (suc fuel) budget b enough = elim (List-cases b.items) [
    | inl e ↦ rw (trim_loop-nil (suc fuel) budget b e) (refl, inl e)
    | inr (x, r, e) ↦
        let one = ap (λ l. length (drop_one l)) e in
        let size = length-drop_one x r in
        let ih =
          trim_loop_lem fuel budget (trimmed_once b) (omega (arith, one, size, ap length e)) in
        elim (Bool-cases (ltb budget (wire_size b))) [
          | inl over ↦
              rw (trim_loop-cons fuel budget b x r e)
                (rw over (omega (arith, ih.0, one, size, ap length e), ih.1))
          | inr fits ↦ rw (trim_loop-cons fuel budget b x r e) (rw fits (refl, inr (ground arith)))
        ]
  ]

  trim_loop-le :
      (fuel budget : ℕ) (b : Bundle)
      → length (trim_loop wire_size fuel budget b).0.items ≤ length b.items
  trim_loop-le zero budget b = unfold trim_loop in omega arith
  trim_loop-le (suc fuel) budget b = elim (List-cases b.items) [
    | inl e ↦ rw (trim_loop-nil (suc fuel) budget b e) (omega arith)
    | inr (x, r, e) ↦
        let one = ap (λ l. length (drop_one l)) e in
        let ih = trim_loop-le fuel budget (trimmed_once b) in
        elim (Bool-cases (ltb budget (wire_size b))) [
          | inl over ↦
              rw (trim_loop-cons fuel budget b x r e)
                (rw over (omega (arith, ih, one, length-drop_one x r, ap length e)))
          | inr fits ↦ rw (trim_loop-cons fuel budget b x r e) (rw fits (omega arith))
        ]
  ]

  -- A compact answer has no more items than the limit asked for, whatever the byte budget
  -- then takes out.
  pub length-compact_incident-le :
      (bundle : Bundle) (max_items byte_budget : ℕ)
      → length (compact_incident wire_size bundle max_items byte_budget).items ≤ max_items
  unfolding compact_incident trim_to_budget
  length-compact_incident-le bundle max_items byte_budget =
      let items = sort_items bundle.items in
      let chosen = select_items max_items items in
      let left_out = length items - length chosen in
      let started : Bundle = record bundle {
        compact = true;
        byte_budget = byte_budget;
        items = chosen;
        selection_truncated = ltb 0 left_out;
        omitted_items = left_out;
      } in
      omega (
        arith,
        trim_loop-le (length chosen) byte_budget started,
        length-select_items-le max_items items,
      )
