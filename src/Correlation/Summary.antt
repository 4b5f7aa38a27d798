-- ===== src/Correlation/Summary.antt =====
-- `factualSummary` of internal/correlation/correlate.go.
use homelab_evidence_mcp.Prelude.{
  ℕ, ◌+◌, Bool, true, false, ◌&&◌, List, [], ◌∷◌, Text, ascii, nat_eq, ◌==◌, ltb, if◌then◌else◌,
  length, count,
}
use homelab_evidence_mcp.Prelude.Int.{pos}
use homelab_evidence_mcp.Evidence.{Item, SourceKind, Severity, Time, source_name, source_beq}
use homelab_evidence_mcp.Correlation.Names.{Format, concat}

abbrev pub is_severe : Severity → Bool
is_severe Severity.error = true
is_severe Severity.critical = true
is_severe Severity.info = false
is_severe Severity.warning = false
is_severe Severity.unknown = false

-- The severities that count as bad for a source.
abbrev pub is_bad_for : SourceKind → Severity → Bool
is_bad_for SourceKind.gatus s = is_severe s
is_bad_for SourceKind.loki s = is_severe s
is_bad_for SourceKind.docker Severity.error = true
is_bad_for SourceKind.docker Severity.warning = true
is_bad_for SourceKind.docker Severity.info = false
is_bad_for SourceKind.docker Severity.critical = false
is_bad_for SourceKind.docker Severity.unknown = false
is_bad_for SourceKind.healthchecks Severity.error = true
is_bad_for SourceKind.healthchecks Severity.warning = true
is_bad_for SourceKind.healthchecks Severity.info = false
is_bad_for SourceKind.healthchecks Severity.critical = false
is_bad_for SourceKind.healthchecks Severity.unknown = false
is_bad_for SourceKind.beszel Severity.error = true
is_bad_for SourceKind.beszel Severity.warning = true
is_bad_for SourceKind.beszel Severity.info = false
is_bad_for SourceKind.beszel Severity.critical = false
is_bad_for SourceKind.beszel Severity.unknown = false
is_bad_for SourceKind.ntfy Severity.error = true
is_bad_for SourceKind.ntfy Severity.critical = true
is_bad_for SourceKind.ntfy Severity.warning = true
is_bad_for SourceKind.ntfy Severity.info = false
is_bad_for SourceKind.ntfy Severity.unknown = false

abbrev pub is_bad : Item → Bool
is_bad it = is_bad_for it.source it.severity

-- One of the six counters.
unfoldable pub bad_from : SourceKind → List Item → ℕ
bad_from kind items = count (λ it. source_beq it.source kind && is_bad it) items

abbrev pub counted_source : Format → SourceKind → List Item → Text
counted_source f kind items =
    if ltb 0 (bad_from kind items)
    then concat
        (ascii " " ∷ source_name kind ∷ ascii "=" ∷ f.decimal (pos (bad_from kind items)) ∷ [])
    else []

abbrev pub all_bad : List Item → ℕ
all_bad items =
    bad_from SourceKind.gatus items
    + (bad_from SourceKind.docker items
        + (bad_from SourceKind.loki items
            + (bad_from SourceKind.healthchecks items
                + (bad_from SourceKind.beszel items + bad_from SourceKind.ntfy items))))

unfoldable pub factual_summary : Format → Text → Time → Time → List Item → ℕ → ℕ → ℕ → Text
factual_summary f service_id start end items sources_ok sources_failed sources_incomplete =
    let head = concat (
      ascii "Service "
      ∷ service_id
      ∷ ascii ": "
      ∷ f.decimal (pos (length items))
      ∷ ascii " evidence item(s) between "
      ∷ f.rfc3339 start
      ∷ ascii " and "
      ∷ f.rfc3339 end
      ∷ ascii " UTC."
      ∷ ascii " Sources with status ok="
      ∷ f.decimal (pos sources_ok)
      ∷ ascii ". Sources with status error, timeout, or canceled="
      ∷ f.decimal (pos sources_failed)
      ∷ ascii "."
      ∷ ascii " Sources with incomplete coverage="
      ∷ f.decimal (pos sources_incomplete)
      ∷ ascii "."
      ∷ []) in
    let tail =
      ascii " The timeline uses observed_at order. Correlation does not identify a root cause." in
    if all_bad items == 0
    then concat (
        head
        ∷ ascii " The collected set has no error-severity items."
        ∷ ascii " If there is no evidence, this does not prove that no event occurred."
        ∷ tail
        ∷ [])
    else concat (
        head
        ∷ ascii " These are the counts by source with warning/error severity:"
        ∷ counted_source f SourceKind.gatus items
        ∷ counted_source f SourceKind.docker items
        ∷ counted_source f SourceKind.loki items
        ∷ counted_source f SourceKind.healthchecks items
        ∷ counted_source f SourceKind.beszel items
        ∷ counted_source f SourceKind.ntfy items
        ∷ ascii "."
        ∷ tail
        ∷ [])
