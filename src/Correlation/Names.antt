-- ===== src/Correlation/Names.antt =====
-- The printed forms of the values in the texts of internal/correlation/correlate.go.
use homelab_evidence_mcp.Prelude.{Bool, true, false, List, [], ◌∷◌, ◌++◌, Text, ascii, nat_eq}
use homelab_evidence_mcp.Prelude.Int.{ℤ}
use homelab_evidence_mcp.Evidence.{Status, Reason, Severity, Time}

-- The verbs of fmt.Sprintf that the texts need.
pub record Format : Type 0 where
  pub decimal : ℤ → Text
  pub rfc3339 : Time → Text

abbrev pub status_name : Status → Text
status_name Status.ok = ascii "ok"
status_name Status.error = ascii "error"
status_name Status.skipped = ascii "skipped"
status_name Status.timeout = ascii "timeout"
status_name Status.absent = ascii "absent"
status_name Status.canceled = ascii "canceled"

abbrev pub reason_name : Reason → Text
reason_name Reason.none = []
reason_name Reason.empty_result = ascii "empty_result"
reason_name Reason.no_binding = ascii "no_binding"
reason_name Reason.unmatched_binding = ascii "unmatched_binding"
reason_name Reason.unsupported_history = ascii "unsupported_history"
reason_name Reason.partial_invalid_records = ascii "partial_invalid_records"
reason_name Reason.truncated = ascii "truncated"
reason_name Reason.timeout = ascii "timeout"
reason_name Reason.canceled = ascii "canceled"
reason_name Reason.authentication_failed = ascii "authentication_failed"
reason_name Reason.upstream_error = ascii "upstream_error"
reason_name Reason.not_queried_by_tool = ascii "not_queried_by_tool"
reason_name Reason.unknown_history_coverage = ascii "unknown_history_coverage"
reason_name Reason.partial_fetch = ascii "partial_fetch"
reason_name Reason.missing_identity = ascii "missing_identity"
reason_name Reason.omitted_checks = ascii "omitted_checks"

abbrev pub severity_name : Severity → Text
severity_name Severity.info = ascii "info"
severity_name Severity.warning = ascii "warning"
severity_name Severity.error = ascii "error"
severity_name Severity.critical = ascii "critical"
severity_name Severity.unknown = ascii "unknown"

abbrev pub bool_name : Bool → Text
bool_name true = ascii "true"
bool_name false = ascii "false"

-- The texts of a list, put together.
abbrev pub concat : List Text → Text
concat [] = []
concat (x ∷ rest) = x ++ concat rest
