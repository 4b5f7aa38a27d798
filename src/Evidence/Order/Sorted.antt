-- ===== src/Evidence/Order/Sorted.antt =====
-- The sorts of internal/evidence/evidence.go.
use mathlib.Core.List.{Perm}
use homelab_evidence_mcp.Prelude.{
  ◌≡◌, false, List, nat_eq, nat_ord, text_eq, text_ord, text_less, keep,
}
use homelab_evidence_mcp.Prelude.Order.{
  IsWeakOrder, chain, chain-IsWeakOrder, chain_tie, less-IsWeakOrder,
}
use homelab_evidence_mcp.Prelude.Sort.{
  sort_stable-perm, sort_stable-IsSorted, sort_stable-eq_of_perm, keep-sort_stable, IsSorted, ties,
}
use homelab_evidence_mcp.Prelude.{Text}
use homelab_evidence_mcp.Prelude.Unique.{DistinctBy, eq_of_key}
use homelab_evidence_mcp.Evidence.{SourceKind, Item, SourceOutcome, source_eq, source_ord}
use homelab_evidence_mcp.Evidence.Order.{item_less, sort_items, outcome_less, sort_outcomes}

by_id : IsWeakOrder (λ (a b : Item). text_less a.id b.id)
by_id = record {
  asym = λ a b. text_ord.asym a.id b.id;
  trans = λ a b c. (less-IsWeakOrder text_ord).trans a.id b.id c.id;
}

by_order : IsWeakOrder (chain nat_ord (λ (a : Item). a.order) (λ a b. text_less a.id b.id))
by_order = chain-IsWeakOrder nat_ord (λ a. a.order) by_id

by_source_id : IsWeakOrder (
    chain text_ord
      (λ (a : Item). a.source_id)
      (chain nat_ord (λ a. a.order) (λ a b. text_less a.id b.id)))
by_source_id = chain-IsWeakOrder text_ord (λ a. a.source_id) by_order

by_source : IsWeakOrder (
    chain source_ord
      (λ (a : Item). a.source)
      (chain text_ord
        (λ a. a.source_id)
        (chain nat_ord (λ a. a.order) (λ a b. text_less a.id b.id))))
by_source = chain-IsWeakOrder source_ord (λ a. a.source) by_source_id

pub item_less-IsWeakOrder : IsWeakOrder item_less
unfolding item_less
item_less-IsWeakOrder = chain-IsWeakOrder nat_ord (λ a. a.observed_at) by_source

Item-set : IsSet Item
Item-set = hlevel

SourceOutcome-set : IsSet SourceOutcome
SourceOutcome-set = hlevel

-- Items that the order does not separate have the same id.
item_less_tie : (a b : Item) → item_less a b ≡ false → item_less b a ≡ false → a.id ≡ b.id
unfolding item_less
item_less_tie a b h k =
    let (_, h1, k1) = chain_tie nat_ord (λ (a : Item). a.observed_at) by_source a b h k in
    let (_, h2, k2) = chain_tie source_ord (λ (a : Item). a.source) by_source_id a b h1 k1 in
    let (_, h3, k3) = chain_tie text_ord (λ (a : Item). a.source_id) by_order a b h2 k2 in
    let (_, h4, k4) = chain_tie nat_ord (λ (a : Item). a.order) by_id a b h3 k3 in
    text_ord.connected a.id b.id h4 k4

-- `SortItems` returns the items it was given, no item after one that should follow it, and items
-- that the order does not separate in their old order.
pub sort_items_lem :
    (items : List Item)
    → Perm (sort_items items) items
      × IsSorted item_less (sort_items items)
      × ((a : Item) → keep (ties item_less a) (sort_items items) ≡ keep (ties item_less a) items)
unfolding sort_items
sort_items_lem items = (
  sort_stable-perm item_less items,
  sort_stable-IsSorted item_less-IsWeakOrder items,
  λ a. keep-sort_stable item_less-IsWeakOrder a items,
)

-- Where no two items share an id, `SortItems` returns one list for every arrival order.
pub sort_items-eq_of_perm :
    (items others : List Item)
    → DistinctBy (λ a. a.id) items
    → Perm items others
    → sort_items items ≡ sort_items others
unfolding sort_items
sort_items-eq_of_perm items others distinct p =
    sort_stable-eq_of_perm item_less-IsWeakOrder items others
      (λ a b m n h k.
        eq_of_key (λ (x : Item). x.id) Item-set items a b distinct m n (item_less_tie a b h k))
      p

outcome_by_name : IsWeakOrder (λ (a b : SourceOutcome). text_less a.source_name b.source_name)
outcome_by_name = record {
  asym = λ a b. text_ord.asym a.source_name b.source_name;
  trans = λ a b c. (less-IsWeakOrder text_ord).trans a.source_name b.source_name c.source_name;
}

outcome_less-IsWeakOrder : IsWeakOrder outcome_less
unfolding outcome_less
outcome_less-IsWeakOrder = chain-IsWeakOrder source_ord (λ a. a.kind) outcome_by_name

-- What tells the outcomes of an answer apart.
abbrev pub outcome_key : SourceOutcome → SourceKind × Text
outcome_key a = (a.kind, a.source_name)

outcome_less_tie :
    (a b : SourceOutcome)
    → outcome_less a b ≡ false
    → outcome_less b a ≡ false
    → outcome_key a ≡ outcome_key b
unfolding outcome_less
outcome_less_tie a b h k =
    let (e, h1, k1) =
      chain_tie source_ord (λ (a : SourceOutcome). a.kind) outcome_by_name a b h k in
    cc (e, text_ord.connected a.source_name b.source_name h1 k1)

-- Where one source reports once, `SortOutcomes` returns one list for every arrival order.
pub sort_outcomes-eq_of_perm :
    (outcomes others : List SourceOutcome)
    → DistinctBy (λ a. outcome_key a) outcomes
    → Perm outcomes others
    → sort_outcomes outcomes ≡ sort_outcomes others
unfolding sort_outcomes
sort_outcomes-eq_of_perm outcomes others distinct p =
    sort_stable-eq_of_perm outcome_less-IsWeakOrder outcomes others
      (λ a b m n h k.
        eq_of_key outcome_key SourceOutcome-set outcomes a b distinct m n
          (outcome_less_tie a b h k))
      p
