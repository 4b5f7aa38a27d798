-- ===== src/Correlation/Tests.antt =====
-- Runs of the timeline and its theorems at concrete inputs.
use homelab_evidence_mcp.Prelude.{◌≡◌, refl, List, [], ◌∷◌, Text, ascii, text_beq, text_less}
use homelab_evidence_mcp.Prelude.Int.{pos}
use homelab_evidence_mcp.Prelude.Sort.{insert, sort_stable}
use homelab_evidence_mcp.Evidence.{
  Item, SourceKind, SourceOutcome, Status, Reason, Severity, source_name, source_beq, source_less,
}
use homelab_evidence_mcp.Evidence.Order.{keep_newest, sort_items, item_less}
use homelab_evidence_mcp.Evidence.Samples.{first, second, third, outcome_of}
use homelab_evidence_mcp.Correlation.{
  source_warnings, sources_warnings, stale_warnings, unique_from, unique, build_timeline,
}
use homelab_evidence_mcp.Correlation.Names.{Format}
use homelab_evidence_mcp.Correlation.Summary.{bad_from, factual_summary}
use homelab_evidence_mcp.Correlation.Warnings.{times, times-build_timeline}

program : Unit {0}
unfolding text_beq text_less insert sort_stable source_name source_beq source_less keep_newest
    sort_items item_less source_warnings sources_warnings stale_warnings unique_from unique bad_from
    factual_summary build_timeline
program = tt

abbrev format : Format
format = record { decimal = λ z. ascii "2"; rfc3339 = λ t. ascii "T" }

abbrev late : SourceOutcome
late = outcome_of SourceKind.docker Status.timeout Reason.timeout

abbrev worse : List Item
worse = record first { severity = Severity.error } ∷ second ∷ third ∷ []

deduplicated : unique (ascii "a" ∷ [] ∷ ascii "b" ∷ ascii "a" ∷ []) ≡ ascii "a" ∷ ascii "b" ∷ []
unfolding program
deduplicated = refl

abbrev warned : Text
warned = ascii "source main (docker): timeout (timeout)"

times-build_timeline_example :
    times warned
      (build_timeline format 9 (ascii "nas") 1 5 worse (late ∷ late ∷ []) (pos 2)).warnings
    ≡ 1
unfolding program
times-build_timeline_example =
    times-build_timeline format 9 (ascii "nas") 1 5 worse (late ∷ []) [] late (pos 2) warned refl
      refl
