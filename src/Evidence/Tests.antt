-- ===== src/Evidence/Tests.antt =====
-- Runs of the order and of the freshness, and their theorems at concrete inputs.
use mathlib.Core.List.Perm
use homelab_evidence_mcp.Prelude.Unique.{DistinctBy}
use homelab_evidence_mcp.Prelude.{
  ℕ, ◌+◌, ◌-◌, ◌^◌, ◌≡◌, refl, true, false, List, [], ◌∷◌, leb, if◌then◌else◌, arith, text_less,
  text_beq,
}
use homelab_evidence_mcp.Prelude.Int.{pos, negsuc}
use homelab_evidence_mcp.Prelude.Sort.{sort_stable}
use homelab_evidence_mcp.Evidence.{
  Item, SourceOutcome, SourceKind, Status, Reason, Freshness, source_beq, source_less,
}
use homelab_evidence_mcp.Evidence.Age.{
  compute_freshness, past_category, future_category, compute_freshness_lem,
}
use homelab_evidence_mcp.Evidence.Order.{item_less, sort_items, sort_outcomes, keep_newest}
use homelab_evidence_mcp.Evidence.Order.Sorted.{sort_items-eq_of_perm, outcome_key}
use homelab_evidence_mcp.Evidence.Order.Newest.{IsNewest, keep_newest_lem}
use homelab_evidence_mcp.Evidence.Samples.{first, second, third, outcome_of}

program : Unit {0}
unfolding item_less sort_items sort_outcomes keep_newest compute_freshness source_beq source_less
    text_less text_beq sort_stable
program = tt

abbrev arrived : List Item
arrived = third ∷ first ∷ second ∷ []

sorted : sort_items arrived ≡ first ∷ second ∷ third ∷ []
unfolding program
sorted = refl

newest : keep_newest arrived (pos 2) ≡ (second ∷ third ∷ [], true)
unfolding program
newest = refl

negative_limit : keep_newest arrived (negsuc 3) ≡ (first ∷ second ∷ third ∷ [], false)
unfolding program
negative_limit = refl

abbrev far : ℕ
far = 2 ^ 63 + 10

-- A timestamp 300 years ahead counts as live.
far_is_live : compute_freshness far 5 ≡ Freshness.live
unfolding program
far_is_live = refl

compute_freshness_lem_example :
    compute_freshness far 5
    ≡ (if leb far 5 then past_category (5 - far) else future_category (far - 5))
compute_freshness_lem_example = compute_freshness_lem far 5 (omega arith)

arrived-Distinct : DistinctBy (λ (a : Item). a.id) arrived
arrived-Distinct = ((ground arith, (ground arith, tt)), ((ground arith, tt), (tt, tt)))

sort_items-eq_of_perm_example : sort_items arrived ≡ sort_items (first ∷ third ∷ second ∷ [])
sort_items-eq_of_perm_example =
    sort_items-eq_of_perm arrived (first ∷ third ∷ second ∷ []) arrived-Distinct
      (Perm.swap first third (second ∷ []))

abbrev outcomes : List SourceOutcome
outcomes =
    outcome_of SourceKind.loki Status.ok Reason.none
    ∷ outcome_of SourceKind.docker Status.error Reason.timeout
    ∷ []

outcomes-Distinct : DistinctBy outcome_key outcomes
outcomes-Distinct = ((ground arith, tt), (tt, tt))

keep_newest_lem_example :
    IsNewest arrived (pos 2) (keep_newest arrived (pos 2)).0 (keep_newest arrived (pos 2)).1
keep_newest_lem_example = keep_newest_lem arrived (pos 2)
