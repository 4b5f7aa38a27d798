-- ===== src/Config/Limits/Within.antt =====
-- Limits that `parseLimits` accepts.
use homelab_evidence_mcp.Prelude.{
  ◌≡◌, refl, Bool, ◌&&◌, true, [], Option, none, some, Text, ascii, arith,
}
use homelab_evidence_mcp.Prelude.Int.{ℤ, pos, ◌≤ℤ◌, leb_ℤ, ltb_ℤ}
use homelab_evidence_mcp.Config.Types.{Limits, FileLimits}
use homelab_evidence_mcp.Config.Errors.{error_if, all_errors, all_errors-none}
use homelab_evidence_mcp.Config.Limits.{
  set_dur, positive_limit, optional_limit, limit_checks, parse_limits, hours, minutes, seconds,
}

abbrev Between : ℤ → ℤ → ℤ → Type 0
Between least most v = (least ≤ℤ v) × (v ≤ℤ most)

abbrev is_between_ℤ : ℤ → ℤ → ℤ → Bool
is_between_ℤ least most v = leb_ℤ least v && leb_ℤ v most

-- What the rest of the program relies on.
pub record IsWithin (l : Limits) : Type 0 where
  pub default_window : Between (minutes 1) (hours 168) l.default_window
  pub max_incident_window : Between (minutes 1) (hours 168) l.max_incident_window
  pub max_cron_window : Between (hours 1) (hours 720) l.max_cron_window
  pub per_source_timeout : Between (pos 200000000) (seconds 30) l.per_source_timeout
  pub total_timeout : Between (seconds 1) (seconds 60) l.total_timeout
  pub evidence_cache_ttl : Between (seconds 30) (hours 1) l.evidence_cache_ttl
  pub source_cache_ttl : Between (pos 0) (minutes 5) l.source_cache_ttl
  pub max_log_lines : Between (pos 1) (pos 500) l.max_log_lines
  pub max_evidence_items : Between (pos 1) (pos 1000) l.max_evidence_items
  pub max_incident_bytes : Between (pos 8192) (pos 4194304) l.max_incident_bytes
  pub max_log_line_bytes : Between (pos 1) (pos 16384) l.max_log_line_bytes
  pub max_body_bytes : Between (pos 1) (pos 8388608) l.max_body_bytes
  pub evidence_cache_max : Between (pos 0) (pos 1000) l.evidence_cache_max
  pub evidence_cache_max_bytes : Between (pos 4096) (pos 67108864) l.evidence_cache_max_bytes
  pub max_tool_calls_per_minute : Between (pos 1) (pos 1000) l.max_tool_calls_per_minute
  pub max_concurrent_tools : Between (pos 1) (pos 64) l.max_concurrent_tools
  pub timeouts : l.per_source_timeout ≤ℤ l.total_timeout
  pub windows : l.default_window ≤ℤ l.max_incident_window

module _ (path : Text) (default least most : ℤ) (ok : is_between_ℤ least most default ≡ true) where
  optional_limit-Between :
      (below above : Text) (raw : Option ℤ)
      → (optional_limit path default least below most above raw).1 ≡ []
      → Between least most (optional_limit path default least below most above raw).0
  unfolding optional_limit
  optional_limit-Between below above none h = ground arith
  optional_limit-Between below above (some raw) h = ground arith

  set_dur-Between :
      (parse_duration : Text → Option ℤ) (show_duration : ℤ → Text) (raw : Text)
      → (set_dur parse_duration show_duration path raw default least most).1 ≡ []
      → Between least most (set_dur parse_duration show_duration path raw default least most).0
  unfolding set_dur
  set_dur-Between parse_duration show_duration raw h = ground arith

error_if-le : (a b : ℤ) (path message : Text) → error_if (ltb_ℤ b a) path message ≡ [] → a ≤ℤ b
error_if-le a b path message h = ground arith

positive_limit-Between :
    (path : Text) (default most : ℤ) (above : Text) (raw : ℤ)
    → is_between_ℤ (pos 1) most default ≡ true
    → (positive_limit path default most above raw).1 ≡ []
    → Between (pos 1) most (positive_limit path default most above raw).0
unfolding positive_limit all_errors
positive_limit-Between path default most above raw ok h = ground arith

module _ (parse_duration : Text → Option ℤ) (show_duration : ℤ → Text) where
  -- Limits that are accepted are all within their bounds, whatever the file gives or leaves out,
  -- and the two pairs that depend on each other are in order.
  pub parse_limits-IsWithin :
      (f : FileLimits)
      → (parse_limits parse_duration show_duration f).1 ≡ []
      → IsWithin (parse_limits parse_duration show_duration f).0
  unfolding parse_limits limit_checks
  parse_limits-IsWithin f h =
      let l : Limits = (limit_checks parse_duration show_duration f).0 in
      let none_of = all_errors-none (limit_checks parse_duration show_duration f).1 h in
      record {
        default_window =
            set_dur-Between (ascii "default_window") (hours 1) (minutes 1) (hours 168) refl
              parse_duration show_duration f.default_window none_of.0;
        max_incident_window =
            set_dur-Between (ascii "max_incident_window") (hours 24) (minutes 1) (hours 168) refl
              parse_duration show_duration f.max_incident_window none_of.1.0;
        max_cron_window =
            set_dur-Between (ascii "max_cron_window") (hours 168) (hours 1) (hours 720) refl
              parse_duration show_duration f.max_cron_window none_of.1.1.0;
        per_source_timeout =
            set_dur-Between (ascii "per_source_timeout") (seconds 3) (pos 200000000) (seconds 30)
              refl parse_duration show_duration f.per_source_timeout none_of.1.1.1.0;
        total_timeout =
            set_dur-Between (ascii "total_timeout") (seconds 10) (seconds 1) (seconds 60) refl
              parse_duration show_duration f.total_timeout none_of.1.1.1.1.0;
        evidence_cache_ttl =
            set_dur-Between (ascii "evidence_cache_ttl") (minutes 5) (seconds 30) (hours 1) refl
              parse_duration show_duration f.evidence_cache_ttl none_of.1.1.1.1.1.0;
        source_cache_ttl =
            set_dur-Between (ascii "source_cache_ttl") (seconds 15) (pos 0) (minutes 5) refl
              parse_duration show_duration f.source_cache_ttl none_of.1.1.1.1.1.1.0;
        max_log_lines =
            positive_limit-Between (ascii "limits.max_log_lines") (pos 100) (pos 500)
              (ascii "must be <= 500") f.max_log_lines refl none_of.1.1.1.1.1.1.1.0;
        max_evidence_items =
            positive_limit-Between (ascii "limits.max_evidence_items") (pos 200) (pos 1000)
              (ascii "must be <= 1000") f.max_evidence_items refl none_of.1.1.1.1.1.1.1.1.0;
        max_incident_bytes =
            optional_limit-Between (ascii "limits.max_incident_response_bytes") (pos 262144)
              (pos 8192) (pos 4194304) refl (ascii "must be >= 8192") (ascii "must be <= 4194304")
              f.max_incident_bytes none_of.1.1.1.1.1.1.1.1.1.0;
        max_log_line_bytes =
            positive_limit-Between (ascii "limits.max_log_line_bytes") (pos 2048) (pos 16384)
              (ascii "must be <= 16KiB") f.max_log_line_bytes refl none_of.1.1.1.1.1.1.1.1.1.1.0;
        max_body_bytes =
            positive_limit-Between (ascii "limits.max_body_bytes") (pos 2097152) (pos 8388608)
              (ascii "must be <= 8MiB") f.max_body_bytes refl none_of.1.1.1.1.1.1.1.1.1.1.1.0;
        evidence_cache_max =
            optional_limit-Between (ascii "limits.evidence_cache_max") (pos 256) (pos 0) (pos 1000)
              refl (ascii "must be >= 0") (ascii "must be <= 1000") f.evidence_cache_max
              none_of.1.1.1.1.1.1.1.1.1.1.1.1.0;
        evidence_cache_max_bytes =
            optional_limit-Between (ascii "limits.evidence_cache_max_bytes") (pos 8388608)
              (pos 4096) (pos 67108864) refl (ascii "must be >= 4096") (ascii "must be <= 67108864")
              f.evidence_cache_max_bytes none_of.1.1.1.1.1.1.1.1.1.1.1.1.1.0;
        max_tool_calls_per_minute =
            positive_limit-Between (ascii "limits.max_tool_calls_per_minute") (pos 120) (pos 1000)
              (ascii "must be <= 1000") f.max_tool_calls_per_minute refl
              none_of.1.1.1.1.1.1.1.1.1.1.1.1.1.1.0;
        max_concurrent_tools =
            positive_limit-Between (ascii "limits.max_concurrent_tools") (pos 8) (pos 64)
              (ascii "must be <= 64") f.max_concurrent_tools refl
              none_of.1.1.1.1.1.1.1.1.1.1.1.1.1.1.1.0;
        timeouts =
            error_if-le l.per_source_timeout l.total_timeout (ascii "limits.total_timeout")
              (ascii "must be >= per_source_timeout") none_of.1.1.1.1.1.1.1.1.1.1.1.1.1.1.1.1.0;
        windows =
            error_if-le l.default_window l.max_incident_window (ascii "limits.default_window")
              (ascii "must be <= max_incident_window") none_of.1.1.1.1.1.1.1.1.1.1.1.1.1.1.1.1.1.0;
      }
