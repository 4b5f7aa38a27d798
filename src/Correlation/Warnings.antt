-- ===== src/Correlation/Warnings.antt =====
-- The warnings and the counters of internal/correlation/correlate.go.
use homelab_evidence_mcp.Prelude.{
  ℕ, ◌+◌, ◌≡◌, refl, ◌∙◌, ap, Bool, true, false, not, ◌||◌, ◌&&◌, List, [], ◌∷◌, ◌++◌, Text, ascii,
  text_beq, text_beq_iff, if◌then◌else◌, any, count, arith, Bool-cases, inl, inr,
}
use homelab_evidence_mcp.Prelude.Int.{ℤ}
use homelab_evidence_mcp.Evidence.{Item, SourceKind, SourceOutcome, Time, source_name, source_beq}
use homelab_evidence_mcp.Evidence.Order.{keep_newest}
use homelab_evidence_mcp.Correlation.{
  source_warnings, sources_warnings, stale_warnings, unique_from, unique, build_timeline, when,
}
use homelab_evidence_mcp.Correlation.Names.{Format, concat}
use homelab_evidence_mcp.Correlation.Summary.{is_bad, bad_from, all_bad}

-- The text stands in the list.
abbrev pub has : Text → List Text → Bool
has w l = any (λ t. text_beq t w) l

-- How often it stands there.
abbrev pub times : Text → List Text → ℕ
times w l = count (λ t. text_beq t w) l

times-unique_from :
    (w : Text) (l seen : List Text)
    → times w (unique_from seen l)
      ≡ (if has w l && (not (text_beq w []) && not (has w seen)) then 1 else 0)
unfolding unique_from
times-unique_from w [] seen = ground arith
times-unique_from w (s ∷ l) seen = elim (Bool-cases (text_beq s w)) [
  | inl e ↦
      let same = (text_beq_iff s w).0 e in
      elim (Bool-cases (text_beq s [] || has s seen)) [
        | inl skip ↦ ground (
          arith,
          times-unique_from w l seen,
          same,
          ap (λ t. has t seen) same,
          ap (λ t. text_beq t []) same,
        )
        | inr new ↦ ground (
          arith,
          times-unique_from w l (s ∷ seen),
          same,
          ap (λ t. has t seen) same,
          ap (λ t. text_beq t []) same,
        )
      ]
  | inr e ↦ elim (Bool-cases (text_beq s [] || has s seen)) [
    | inl skip ↦ ground (arith, times-unique_from w l seen)
    | inr new ↦ ground (arith, times-unique_from w l (s ∷ seen))
  ]
]

-- `unique` keeps each text that is not empty just once, and no other.
pub times-unique :
    (w : Text) (l : List Text)
    → times w (unique l) ≡ (if has w l && not (text_beq w []) then 1 else 0)
unfolding unique
times-unique w l = times-unique_from w l [] ∙ ground arith

has-append : (w : Text) (l m : List Text) → has w (l ++ m) ≡ (has w l || has w m)
has-append w [] m = refl
has-append w (x ∷ l) m = ground (arith, has-append w l m)

has-sources_warnings :
    (f : Format) (w : Text) (before after : List SourceOutcome) (s : SourceOutcome)
    → has w (source_warnings f s) ≡ true
    → has w (sources_warnings f (before ++ s ∷ after)) ≡ true
unfolding sources_warnings
has-sources_warnings f w [] after s h =
    ground (arith, has-append w (source_warnings f s) (sources_warnings f after))
has-sources_warnings f w (x ∷ before) after s h = ground (
  arith,
  has-append w (source_warnings f x) (sources_warnings f (before ++ s ∷ after)),
  has-sources_warnings f w before after s h,
)

-- Every warning that a source gives rise to, wherever the source stands among the others, is
-- exactly once among the warnings of the timeline.
pub times-build_timeline :
    (f : Format) (now : Time) (service_id : Text) (start end : Time) (items : List Item)
    (before after : List SourceOutcome) (s : SourceOutcome) (max_items : ℤ) (w : Text)
    → has w (source_warnings f s) ≡ true
    → text_beq w [] ≡ false
    → times w
        (build_timeline f now service_id start end items (before ++ s ∷ after) max_items).warnings
      ≡ 1
unfolding build_timeline
times-build_timeline f now service_id start end items before after s max_items w h filled =
    let there = has-sources_warnings f w before after s h in
    let cut_text =
      concat (ascii "timeline truncated to " ∷ f.decimal max_items ∷ ascii " items" ∷ []) in
    let kept = keep_newest items max_items in
    let rest = when kept.1 cut_text ++ stale_warnings f kept.0 in
    let all = sources_warnings f (before ++ s ∷ after) ++ rest in
    times-unique w all
    ∙ ground (arith, has-append w (sources_warnings f (before ++ s ∷ after)) rest)

-- One for the item when it counts for the source.
abbrev one_for : SourceKind → SourceKind → Bool → ℕ
one_for kind s bad = if source_beq s kind && bad then 1 else 0

-- An item counts for one of the six sources.
one_of_six :
    (s : SourceKind) (bad : Bool)
    → one_for SourceKind.gatus s bad
        + (one_for SourceKind.docker s bad
            + (one_for SourceKind.loki s bad
                + (one_for SourceKind.healthchecks s bad
                    + (one_for SourceKind.beszel s bad + one_for SourceKind.ntfy s bad))))
      ≡ (if bad then 1 else 0)
unfolding source_beq source_name text_beq
one_of_six SourceKind.gatus bad = omega arith
one_of_six SourceKind.docker bad = omega arith
one_of_six SourceKind.loki bad = omega arith
one_of_six SourceKind.healthchecks bad = omega arith
one_of_six SourceKind.beszel bad = omega arith
one_of_six SourceKind.ntfy bad = omega arith

bad_from-cons :
    (kind : SourceKind) (it : Item) (items : List Item)
    → bad_from kind (it ∷ items) ≡ one_for kind it.source (is_bad it) + bad_from kind items
unfolding bad_from
bad_from-cons kind it items = elim (Bool-cases (source_beq it.source kind && is_bad it)) [
  | inl e ↦ rw e (omega arith)
  | inr e ↦ rw e (omega arith)
]

count-cons :
    (it : Item) (items : List Item)
    → count is_bad (it ∷ items) ≡ (if is_bad it then 1 else 0) + count is_bad items
count-cons it items = elim (Bool-cases (is_bad it)) [
  | inl e ↦ rw e (omega arith)
  | inr e ↦ rw e (omega arith)
]

-- The six counters of the summary count every item of the timeline with a bad severity for its
-- source once: together they give the number of such items.
pub all_bad_lem : (items : List Item) → all_bad items ≡ count is_bad items
all_bad_lem [] = unfold bad_from in refl
all_bad_lem (it ∷ items) = omega (
  arith,
  all_bad_lem items,
  one_of_six it.source (is_bad it),
  count-cons it items,
  bad_from-cons SourceKind.gatus it items,
  bad_from-cons SourceKind.docker it items,
  bad_from-cons SourceKind.loki it items,
  bad_from-cons SourceKind.healthchecks it items,
  bad_from-cons SourceKind.beszel it items,
  bad_from-cons SourceKind.ntfy it items,
)
