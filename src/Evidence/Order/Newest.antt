-- ===== src/Evidence/Order/Newest.antt =====
-- `KeepNewest` of internal/evidence/evidence.go.
use mathlib.Core.List.{Mem, Perm, Pairwise-append}
use mathlib.Core.Bool.{Bool-set}
use homelab_evidence_mcp.Prelude.{
  ℕ, Bool, ◌||◌, leb, length-take, ap, ◌∙◌, ◌-◌, ◌≤◌, ◌≡◌, sym, subst, true, false, List, ◌++◌,
  arith, nat_eq, text_eq, if◌then◌else◌, ltb, All, All-drop, length, drop, take, take-append-drop,
  length-drop,
}
use homelab_evidence_mcp.Prelude.Int.{ℤ, pos, leb_ℤ, pos_part, ltb_ℤ}
use homelab_evidence_mcp.Prelude.Sort.{length-sort_stable, All-sort_stable, IsSorted, NotAfter}
use homelab_evidence_mcp.Evidence.{Item, source_eq}
use homelab_evidence_mcp.Evidence.Order.{item_less, sort_items, keep_newest}
use homelab_evidence_mcp.Evidence.Order.Sorted.{sort_items_lem}

length-sort_items : (items : List Item) → length (sort_items items) ≡ length items
unfolding sort_items
length-sort_items items = length-sort_stable item_less items

-- The number of items that `KeepNewest` leaves out.
abbrev pub excess : List Item → ℤ → ℕ
excess items max = if leb_ℤ max (pos 0) then 0 else length items - pos_part max

keep_newest-drop :
    (items : List Item) (max : ℤ)
    → (keep_newest items max).0 ≡ drop (excess items max) (sort_items items)
      × ((keep_newest items max).1 ≡ ltb 0 (excess items max))
unfolding keep_newest
keep_newest-drop items max = ground arith

-- No more items than a positive limit.
pub length-keep_newest-le :
    (items : List Item) (max : ℤ)
    → ltb_ℤ (pos 0) max ≡ true
    → length (keep_newest items max).0 ≤ pos_part max
unfolding keep_newest
length-keep_newest-le items max h =
    ground
      (arith, length-sort_items items, length-drop (length items - pos_part max) (sort_items items))

IsSorted-parts :
    (items : List Item) (cut : ℕ)
    → IsSorted item_less (drop cut (sort_items items))
      × ((old new : Item)
          → Mem old (take cut (sort_items items))
          → Mem new (drop cut (sort_items items))
          → NotAfter item_less old new)
IsSorted-parts items cut =
    let sorted = sort_items items in
    let whole : IsSorted item_less (take cut sorted ++ drop cut sorted) =
      subst (IsSorted item_less) (sym (take-append-drop cut sorted)) (sort_items_lem items).1 in
    let parts = (Pairwise-append (λ a b. Bool-set (item_less b a) false)).0 whole in
    (parts.1, λ old new m n. parts.2 old m new n)

-- Every item that `KeepNewest` leaves out may stand before every item that it keeps.
keep_newest-NotAfter :
    (items : List Item) (max : ℤ) (old new : Item)
    → Mem old (take (excess items max) (sort_items items))
    → Mem new (keep_newest items max).0
    → NotAfter item_less old new
keep_newest-NotAfter items max old new m n =
    (IsSorted-parts items (excess items max)).1 old new m
      (subst (λ l. Mem new l) (keep_newest-drop items max).0 n)

-- What holds of all items holds of those that are kept.
pub All-keep_newest :
    (P : Item → Type 0) (items : List Item) (max : ℤ)
    → All P items
    → All P (keep_newest items max).0
unfolding sort_items
All-keep_newest P items max h =
    subst (All P) (sym (keep_newest-drop items max).0)
      (All-drop P (excess items max) (sort_items items) (All-sort_stable item_less P items h))

-- An item that does not have to stand after another is not newer.
NotAfter-le : (old new : Item) → NotAfter item_less old new → old.observed_at ≤ new.observed_at
unfolding item_less
NotAfter-le old new h = ground arith

-- The number of items that a limit lets through: all of them where it is not positive.
abbrev pub allowed : List Item → ℤ → ℕ
allowed items max =
    if leb_ℤ max (pos 0) || leb (length items) (pos_part max) then length items else pos_part max

-- What is kept of the items and what is left out: together they are the items; the kept ones
-- are in order, as many as the limit lets through, and none of them is older than one that is
-- left out.
pub record IsNewest (items : List Item) (max : ℤ) (kept : List Item) (cut : Bool) : Type 0 where
  pub left_out : List Item
  pub all : Perm (left_out ++ kept) items
  pub in_order : IsSorted item_less kept
  pub count : length kept ≡ allowed items max
  pub not_older :
      (old new : Item) → Mem old left_out → Mem new kept → old.observed_at ≤ new.observed_at
  pub reported : cut ≡ ltb 0 (length left_out)

-- `KeepNewest` splits the items into those that it leaves out and those that it keeps, which
-- are in the order of `SortItems`: none that it keeps is older than one that it leaves out, it
-- keeps as many as a positive limit lets through and every item otherwise, and it reports
-- whether it left any out.
pub keep_newest_lem :
    (items : List Item) (max : ℤ)
    → IsNewest items max (keep_newest items max).0 (keep_newest items max).1
keep_newest_lem items max =
    let sorted = sort_items items in
    let cut = excess items max in
    let kept = keep_newest-drop items max in
    record {
      left_out = take cut sorted;
      all =
          subst (λ l. Perm (take cut sorted ++ l) items) (sym kept.0)
            (subst (λ l. Perm l items) (sym (take-append-drop cut sorted))
              (sort_items_lem items).0);
      in_order = subst (IsSorted item_less) (sym kept.0) (IsSorted-parts items cut).0;
      count = ap length kept.0 ∙ ground (arith, length-drop cut sorted, length-sort_items items);
      not_older = λ old new m n. NotAfter-le old new (keep_newest-NotAfter items max old new m n);
      reported = kept.1 ∙ ground (arith, length-take cut sorted, length-sort_items items);
    }
