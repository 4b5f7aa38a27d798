-- ===== src/Evidence/Samples.antt =====
-- Evidence for the tests.
use homelab_evidence_mcp.Prelude.{false, [], none, Text, ascii}
use homelab_evidence_mcp.Evidence.{
  Item, SourceKind, Severity, Kind, Freshness, SourceOutcome, Status, Reason, Time,
}
use homelab_evidence_mcp.Prelude.Int.{pos}

abbrev pub item_at : Text → SourceKind → Severity → Time → Item
item_at id source severity time = record {
  id = id;
  service_id = ascii "web";
  source = source;
  source_id = ascii "s";
  kind = Kind.log_line;
  observed_at = time;
  retrieved_at = time;
  window_start = none;
  window_end = none;
  summary = ascii "line";
  severity = severity;
  attributes = [];
  truncated = false;
  redactions_applied = 0;
  freshness = Freshness.live;
  order = 0;
}

abbrev pub first : Item
first = item_at (ascii "ev_1") SourceKind.loki Severity.info 10

abbrev pub second : Item
second = item_at (ascii "ev_2") SourceKind.gatus Severity.error 20

abbrev pub third : Item
third = item_at (ascii "ev_3") SourceKind.loki Severity.warning 30

abbrev pub outcome_of : SourceKind → Status → Reason → SourceOutcome
outcome_of kind status reason = record {
  source_name = ascii "main";
  kind = kind;
  status = status;
  reason = reason;
  error = [];
  item_count = 1;
  complete = false;
  truncated = false;
  upstream_truncated = false;
  local_truncated = false;
  discarded = pos 0;
  omitted = pos 0;
  cache_state = [];
  cache_age_s = 0;
  duration_ms = 0;
}
