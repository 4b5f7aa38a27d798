-- ===== src/Server/Tests.antt =====
-- Runs of the outcomes and of the collectors, and their theorems at concrete inputs.
use homelab_evidence_mcp.Prelude.{
  length, ℕ, ◌≡◌, refl, inl, inr, true, false, not, [], ◌∷◌, none, some, Text, ascii, text_beq, any,
  if◌then◌else◌,
}
use homelab_evidence_mcp.Prelude.Int.{pos}
use homelab_evidence_mcp.Prelude.Table.{lookup}
use homelab_evidence_mcp.Evidence.{SourceOutcome, Status, Reason}
use homelab_evidence_mcp.Evidence.Samples.{first, second}
use homelab_evidence_mcp.Redaction.Search.{has_prefix, index, contains}
use homelab_evidence_mcp.Server.Outcomes.{
  Conditions, SourceError, alive, is_ok, is_outside, has_no_reason, is_missing_item, mark_empty,
  mark_truncated, mark_discarded, mark_snapshot_history, normalize_outcome, coverage_loop,
  outcome_coverage, audit_status, audit_ok, audit_partial, audit_error, reason_for_error,
  source_error_outcome, with_source_timeout,
}
use homelab_evidence_mcp.Server.Outcomes.Coverage.{
  is_gap, is_answered, audited, audit_status-outcome_coverage,
}
use homelab_evidence_mcp.Server.Collect.{
  Answered, TransitionResult, unmatched, filter_current_snapshots, finish_status, finish_gatus,
  finish_snapshot, finish_transitions, collect_gatus_window, collect_docker_window,
  collect_beszel_window, collect_hc_window, collect_loki, collect_ntfy,
}
use homelab_evidence_mcp.Server.Collect.Reported.{
  Searched, is_whole, was_cut, given, collect_loki_lem,
}

program : Unit {0}
unfolding has_prefix index contains lookup text_beq is_ok is_outside has_no_reason is_missing_item
    mark_empty mark_truncated mark_discarded mark_snapshot_history normalize_outcome coverage_loop
    outcome_coverage audit_status reason_for_error source_error_outcome with_source_timeout
    unmatched filter_current_snapshots finish_status finish_gatus finish_snapshot finish_transitions
    collect_gatus_window collect_docker_window collect_beszel_window collect_hc_window collect_loki
    collect_ntfy
program = tt

abbrev as_is : Text → Text
as_is s = s

abbrev shown : SourceError → Text
shown e = e.message

abbrev counted_text : ℕ → Text
counted_text n = ascii "failed"

abbrev calm : Conditions
calm = record {
  before = alive;
  slot = true;
  waiting = alive;
  after = alive;
  source_after = alive;
  cache_state = [];
  cache_age = 0;
  duration_ms = 4;
}

abbrev answer : Answered
answer = inr (first ∷ second ∷ [])

abbrev logs : SourceOutcome
logs = (collect_loki as_is shown counted_text calm (ascii "logs") (some (answer, true, pos 0))).0

abbrev alerts : SourceOutcome
alerts =
    (collect_ntfy as_is shown counted_text calm (ascii "alerts")
      (some (inl (record { no_match = false; message = ascii "status 401" }), false, false))).0

cut_logs : logs.reason ≡ Reason.truncated
unfolding program
cut_logs = refl

refused_alerts : alerts.reason ≡ Reason.authentication_failed
unfolding program
refused_alerts = refl

partial_answer : audited (outcome_coverage (logs ∷ alerts ∷ [])) ≡ audit_partial
unfolding program
partial_answer = refl

failed_answer : audited (outcome_coverage (alerts ∷ [])) ≡ audit_error
unfolding program
failed_answer = refl

audit_status-outcome_coverage_example : audited (outcome_coverage (logs ∷ alerts ∷ [])) ≡ (
    if not (any is_gap (logs ∷ alerts ∷ []))
    then audit_ok
    else if any is_answered (logs ∷ alerts ∷ [])
    then audit_partial
    else audit_error)
audit_status-outcome_coverage_example = audit_status-outcome_coverage (logs ∷ alerts ∷ [])

abbrev unbound : SourceOutcome
unbound = record logs { status = Status.absent; reason = Reason.none; complete = false }

abbrev searched : Searched
searched = some (answer, true, pos 0)

collect_loki_lem_example :
    (logs.complete ≡ is_whole calm searched)
    × (logs.truncated ≡ was_cut calm searched)
    × ((collect_loki as_is shown counted_text calm (ascii "logs") searched).1 ≡ given calm searched)
    × (logs.item_count ≡ length (given calm searched))
collect_loki_lem_example = collect_loki_lem as_is shown counted_text calm (ascii "logs") searched

abbrev history : TransitionResult
history = record {
  items = first ∷ [];
  omitted = 2;
  discarded = 0;
  truncated = false;
  failures = 0;
  missing_identity = 0;
}

omitted_history :
    (collect_hc_window as_is shown counted_text calm
      (ascii "cron")
      true
      (some (inr history))
      none
      90
      100).0.reason
    ≡ Reason.omitted_checks
unfolding program
omitted_history = refl
