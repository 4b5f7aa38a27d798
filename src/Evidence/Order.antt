-- ===== src/Evidence/Order.antt =====
-- The deterministic order of internal/evidence/evidence.go: `SortItems`, `SortOutcomes` and
-- `KeepNewest`.
pub mod Sorted
pub mod Newest
use mathlib.Core.Path.{ap}
use mathlib.Core.List.{Mem, Perm, Pairwise-append, Nodup}
use mathlib.Core.List.Perm
use homelab_evidence_mcp.Prelude.{
  ℕ, ◌+◌, ◌-◌, ◌≤◌, ◌<◌, ◌≡◌, ◌≢◌, ◌↔◌, refl, sym, subst, Bool, true, false, ◌||◌, List, [], ◌++◌,
  map, arith, ◌==◌, nat_eq, nat_ord, text_eq, text_ord, text_less, if◌then◌else◌, ltb, leb, length,
  drop, take, take-append-drop, length-drop, length-append, Bool-cases, inl, inr, keep,
}
use homelab_evidence_mcp.Prelude.Int.{ℤ, pos, leb_ℤ, pos_part, ◌≤ℤ◌}
use homelab_evidence_mcp.Prelude.Order.{
  IsWeakOrder, chain, chain-IsWeakOrder, chain_tie, less-IsWeakOrder,
}
use homelab_evidence_mcp.Prelude.Sort.{
  sort_stable, sort_stable-perm, sort_stable-IsSorted, sort_stable-eq_of_perm, keep-sort_stable,
  length-sort_stable, IsSorted, NotAfter, ties,
}
use homelab_evidence_mcp.Evidence.{Item, SourceOutcome, source_eq, source_less, source_ord, Time}

-- The `less` of `SortItems`.
unfoldable pub item_less : Item → Item → Bool
item_less a b =
    if a.observed_at == b.observed_at
    then (if a.source == b.source
        then (if a.source_id == b.source_id
            then (if a.order == b.order then text_less a.id b.id else ltb a.order b.order)
            else text_less a.source_id b.source_id)
        else source_less a.source b.source)
    else ltb a.observed_at b.observed_at

unfoldable pub sort_items : List Item → List Item
sort_items = sort_stable item_less

-- The `less` of `SortOutcomes`.
unfoldable pub outcome_less : SourceOutcome → SourceOutcome → Bool
outcome_less a b =
    if a.kind == b.kind then text_less a.source_name b.source_name else source_less a.kind b.kind

unfoldable pub sort_outcomes : List SourceOutcome → List SourceOutcome
sort_outcomes = sort_stable outcome_less

-- The kept items, and whether any were left out.
unfoldable pub keep_newest : List Item → ℤ → List Item × Bool
keep_newest items max =
    let sorted = sort_items items in
    if leb_ℤ max (pos 0) || leb_ℤ (pos (length items)) max
    then (sorted, false)
    else (drop (length items - pos_part max) sorted, true)
