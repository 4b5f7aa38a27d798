-- ===== src/Audit/Tests.antt =====
-- Runs of the logger and its theorem at concrete inputs.
use homelab_evidence_mcp.Prelude.{◌≡◌, refl, true, false, List, [], ◌∷◌, none, some, ascii, length}
use homelab_evidence_mcp.Prelude.Int.{pos}
use homelab_evidence_mcp.Audit.{
  Event, Written, Entry, new_logger, after_write, log, log_all, lines, outages, log_all_lem,
}

program : Unit {0}
unfolding new_logger after_write log log_all
program = tt

abbrev event : Event
event = record {
  time = none;
  action = ascii "call";
  tool = [];
  service_id = [];
  status = ascii "ok";
  duration_ms = pos 3;
  detail = [];
}

abbrev entry : Written → Entry
entry w = record { event = event; now = 7; written = w }

abbrev whole : Written
whole = record { bytes = 5; failed = false }

abbrev short : Written
short = record { bytes = 2; failed = false }

abbrev entries : List Entry
entries = entry short ∷ entry short ∷ entry whole ∷ entry (record { bytes = 0; failed = true }) ∷ []

two_outages : length (log_all (λ e. some e.action) entries new_logger).diagnostic ≡ 2
unfolding program
two_outages = refl

log_all_lem_example :
    ((log_all (λ e. some e.action) entries new_logger).out ≡ lines (λ e. some e.action) entries)
    × (length (log_all (λ e. some e.action) entries new_logger).diagnostic
        ≡ outages (λ e. some e.action) false entries)
log_all_lem_example = log_all_lem (λ e. some e.action) entries
