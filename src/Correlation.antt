-- ===== src/Correlation.antt =====
-- internal/correlation/correlate.go: the timeline of the evidence and the summary that states facts
-- only. The printed forms of numbers and times are arguments.
pub mod Names
pub mod Summary
pub mod Warnings
mod Tests
use homelab_evidence_mcp.Prelude.{
  ℕ, ◌+◌, ◌≡◌, refl, Bool, true, false, not, ◌||◌, ◌&&◌, List, [], ◌∷◌, ◌++◌, Option, none, some,
  Text, ascii, text_beq, nat_eq, ◌==◌, ltb, if◌then◌else◌, length, any, count,
}
use homelab_evidence_mcp.Prelude.Int.{ℤ, pos, leb_ℤ}
use homelab_evidence_mcp.Evidence.{
  Item, SourceKind, SourceOutcome, Status, Reason, Severity, Freshness, Bundle, Time, source_name,
  source_beq,
}
use homelab_evidence_mcp.Correlation.Names.{
  Format, status_name, reason_name, severity_name, bool_name, concat,
}
use homelab_evidence_mcp.Correlation.Summary.{
  is_severe, is_bad_for, is_bad, bad_from, counted_source, all_bad, factual_summary,
}
use homelab_evidence_mcp.Evidence.Order.{keep_newest}

abbrev pub has_failed : Status → Bool
has_failed s =
    text_beq (status_name s) (ascii "error")
    || (text_beq (status_name s) (ascii "timeout") || text_beq (status_name s) (ascii "canceled"))

abbrev pub has_answered : Status → Bool
has_answered s = text_beq (status_name s) (ascii "ok")

-- The head of a warning about a source.
abbrev pub about : SourceOutcome → Text
about s =
    concat (ascii "source " ∷ s.source_name ∷ ascii " (" ∷ source_name s.kind ∷ ascii "): " ∷ [])

abbrev pub when : Bool → Text → List Text
when true w = w ∷ []
when false w = []

-- An incomplete answer whose reason no other warning gives.
abbrev pub needs_reason : SourceOutcome → Bool
needs_reason s =
    let reason = reason_name s.reason in
    has_answered s.status
    && (not s.complete
        && (not (text_beq reason [])
            && (not (text_beq reason (ascii "truncated"))
                && not (text_beq reason (ascii "partial_invalid_records")))))

-- The warnings of one round of the loop over the sources.
unfoldable pub source_warnings : Format → SourceOutcome → List Text
source_warnings f s =
    when s.truncated (
      concat (
        about s
        ∷ ascii "truncated upstream="
        ∷ bool_name s.upstream_truncated
        ∷ ascii " local="
        ∷ bool_name s.local_truncated
        ∷ []))
    ++ (when (not (leb_ℤ s.discarded (pos 0)))
          (concat (about s ∷ f.decimal s.discarded ∷ ascii " unusable source record(s)" ∷ []))
        ++ (when (has_failed s.status) (
              concat (
                about s
                ∷ status_name s.status
                ∷ ascii " ("
                ∷ reason_name s.reason
                ∷ ascii ")"
                ∷ []))
            ++ when (needs_reason s)
                (concat (about s ∷ ascii "incomplete (" ∷ reason_name s.reason ∷ ascii ")" ∷ []))))

unfoldable pub sources_warnings : Format → List SourceOutcome → List Text
sources_warnings f [] = []
sources_warnings f (s ∷ rest) = source_warnings f s ++ sources_warnings f rest

abbrev pub is_stale : Freshness → Bool
is_stale Freshness.stale = true
is_stale Freshness.live = false
is_stale Freshness.recent = false
is_stale Freshness.unknown = false
is_stale Freshness.cached = false
is_stale Freshness.missing = false

unfoldable pub stale_warnings : Format → List Item → List Text
stale_warnings f [] = []
stale_warnings f (it ∷ rest) =
    when (is_stale it.freshness && is_severe it.severity) (
      concat (
        ascii "stale "
        ∷ severity_name it.severity
        ∷ ascii " evidence from "
        ∷ source_name it.source
        ∷ ascii " (observed "
        ∷ f.rfc3339 it.observed_at
        ∷ ascii ")"
        ∷ []))
    ++ stale_warnings f rest

-- The loop of `unique`, with the texts that were seen.
unfoldable pub unique_from : List Text → List Text → List Text
unique_from seen [] = []
unique_from seen (s ∷ rest) =
    let skip = unique_from seen rest in
    let keep_it = s ∷ unique_from (s ∷ seen) rest in
    if text_beq s [] || any (λ t. text_beq t s) seen then skip else keep_it

unfoldable pub unique : List Text → List Text
unique l = unique_from [] l

-- `BuildTimeline`; `now` is the reading of the clock.
unfoldable pub build_timeline :
    Format → Time → Text → Time → Time → List Item → List SourceOutcome → ℤ → Bundle
build_timeline f now service_id start end items sources max_items =
    let (cp, cut) = keep_newest items max_items in
    let ok = count (λ s. has_answered s.status) sources in
    let failed = count (λ s. has_failed s.status) sources in
    let incomplete = count (λ s. has_answered s.status && not s.complete) sources in
    let warnings =
      sources_warnings f sources
      ++ (when cut
            (concat (ascii "timeline truncated to " ∷ f.decimal max_items ∷ ascii " items" ∷ []))
          ++ stale_warnings f cp) in
    record {
      service_id = service_id;
      requested_start = start;
      requested_end = end;
      effective_start = start;
      effective_end = end;
      items = cp;
      sources = sources;
      complete = false;
      truncated = cut || any (λ s. s.truncated) sources;
      compact = false;
      byte_budget = 0;
      byte_size = 0;
      selection_truncated = false;
      byte_budget_truncated = false;
      omitted_items = 0;
      omitted_sources = [];
      warnings = unique warnings;
      factual_summary = factual_summary f service_id start end cp ok failed incomplete;
      retrieved_at = now;
    }
