-- ===== src/Config/Limits.antt =====
-- `parseLimits`, `parseTLS` and `parseAudit` of internal/config/config.go. Durations are numbers of
-- nanoseconds; how they are read and printed, and `strings.TrimSpace`, are arguments.
pub mod Within
use homelab_evidence_mcp.Prelude.{
  ℕ, ◌*◌, ◌++◌, Bool, true, ◌||◌, List, [], ◌∷◌, Option, none, some, Text, ascii, text_beq, ltb,
  if◌then◌else◌,
}
use homelab_evidence_mcp.Prelude.Int.{ℤ, pos, leb_ℤ, ltb_ℤ}
use homelab_evidence_mcp.Config.Types.{Limits, FileLimits, AuditConfig}
use homelab_evidence_mcp.Config.Names.{rune_length, has_control}
use homelab_evidence_mcp.Config.Errors.{Errors, one, error_if, all_errors}

-- Numbers of nanoseconds.
abbrev pub millisecond : ℕ
millisecond = 1000000

abbrev pub second : ℕ
second = 1000000000

abbrev pub minute : ℕ
minute = 60000000000

abbrev pub hour : ℕ
hour = 3600000000000

abbrev pub seconds : ℕ → ℤ
seconds n = pos (n * second)

abbrev pub minutes : ℕ → ℤ
minutes n = pos (n * minute)

abbrev pub hours : ℕ → ℤ
hours n = pos (n * hour)

-- A number for which zero asks for the default.
unfoldable pub positive_limit : Text → ℤ → ℤ → Text → ℤ → ℤ × Errors
unfolding all_errors
positive_limit path default most above raw =
    let value = if leb_ℤ raw (pos 0) then default else raw in
    (
      value,
      all_errors (
          error_if (ltb_ℤ raw (pos 0)) path (ascii "must be positive")
          ∷ error_if (ltb_ℤ most value) path above
          ∷ []),
    )

-- A number that may be missing. It stays zero on an error.
unfoldable pub optional_limit : Text → ℤ → ℤ → Text → ℤ → Text → Option ℤ → ℤ × Errors
optional_limit path default least below most above none = (default, [])
optional_limit path default least below most above (some raw) =
    if ltb_ℤ raw least
    then (pos 0, one path below)
    else if ltb_ℤ most raw
    then (pos 0, one path above)
    else (raw, [])

module _ (parse_duration : Text → Option ℤ) (show_duration : ℤ → Text) where
  -- `setDur`. The duration stays zero on an error.
  unfoldable pub set_dur : Text → Text → ℤ → ℤ → ℤ → ℤ × Errors
  set_dur field raw default least most =
      if text_beq raw [] then (default, []) else elim (parse_duration raw) [
        | none ↦ (pos 0, one (ascii "limits." ++ field) (ascii "invalid duration"))
        | some d ↦
            if ltb_ℤ d least || ltb_ℤ most d
            then (
              pos 0,
              one (ascii "limits." ++ field) (
                  ascii "must be between "
                  ++ (show_duration least ++ (ascii " and " ++ show_duration most))),
            )
            else (d, [])
      ]

  -- The limits, and the errors of each check in their order.
  unfoldable pub limit_checks : FileLimits → Limits × List Errors
  unfolding set_dur positive_limit optional_limit
  limit_checks f =
      let default_window =
        set_dur (ascii "default_window") f.default_window (hours 1) (minutes 1) (hours 168) in
      let max_incident_window =
        set_dur (ascii "max_incident_window") f.max_incident_window (hours 24) (minutes 1)
          (hours 168) in
      let max_cron_window =
        set_dur (ascii "max_cron_window") f.max_cron_window (hours 168) (hours 1) (hours 720) in
      let per_source_timeout =
        set_dur (ascii "per_source_timeout") f.per_source_timeout (seconds 3)
          (pos (200 * millisecond)) (seconds 30) in
      let total_timeout =
        set_dur (ascii "total_timeout") f.total_timeout (seconds 10) (seconds 1) (seconds 60) in
      let evidence_cache_ttl =
        set_dur (ascii "evidence_cache_ttl") f.evidence_cache_ttl (minutes 5) (seconds 30)
          (hours 1) in
      let source_cache_ttl =
        set_dur (ascii "source_cache_ttl") f.source_cache_ttl (seconds 15) (pos 0) (minutes 5) in
      let max_log_lines =
        positive_limit (ascii "limits.max_log_lines") (pos 100) (pos 500) (ascii "must be <= 500")
          f.max_log_lines in
      let max_evidence_items =
        positive_limit (ascii "limits.max_evidence_items") (pos 200) (pos 1000)
          (ascii "must be <= 1000") f.max_evidence_items in
      let max_incident_bytes =
        optional_limit (ascii "limits.max_incident_response_bytes") (pos 262144) (pos 8192)
          (ascii "must be >= 8192") (pos 4194304) (ascii "must be <= 4194304")
          f.max_incident_bytes in
      let max_log_line_bytes =
        positive_limit (ascii "limits.max_log_line_bytes") (pos 2048) (pos 16384)
          (ascii "must be <= 16KiB") f.max_log_line_bytes in
      let max_body_bytes =
        positive_limit (ascii "limits.max_body_bytes") (pos 2097152) (pos 8388608)
          (ascii "must be <= 8MiB") f.max_body_bytes in
      let evidence_cache_max =
        optional_limit (ascii "limits.evidence_cache_max") (pos 256) (pos 0) (ascii "must be >= 0")
          (pos 1000) (ascii "must be <= 1000") f.evidence_cache_max in
      let evidence_cache_max_bytes =
        optional_limit (ascii "limits.evidence_cache_max_bytes") (pos 8388608) (pos 4096)
          (ascii "must be >= 4096") (pos 67108864) (ascii "must be <= 67108864")
          f.evidence_cache_max_bytes in
      let max_tool_calls_per_minute =
        positive_limit (ascii "limits.max_tool_calls_per_minute") (pos 120) (pos 1000)
          (ascii "must be <= 1000") f.max_tool_calls_per_minute in
      let max_concurrent_tools =
        positive_limit (ascii "limits.max_concurrent_tools") (pos 8) (pos 64)
          (ascii "must be <= 64") f.max_concurrent_tools in
      (
        record {
          default_window = default_window.0;
          max_incident_window = max_incident_window.0;
          max_cron_window = max_cron_window.0;
          max_log_lines = max_log_lines.0;
          max_evidence_items = max_evidence_items.0;
          max_incident_bytes = max_incident_bytes.0;
          per_source_timeout = per_source_timeout.0;
          total_timeout = total_timeout.0;
          max_log_line_bytes = max_log_line_bytes.0;
          max_body_bytes = max_body_bytes.0;
          evidence_cache_ttl = evidence_cache_ttl.0;
          evidence_cache_max = evidence_cache_max.0;
          evidence_cache_max_bytes = evidence_cache_max_bytes.0;
          source_cache_ttl = source_cache_ttl.0;
          max_tool_calls_per_minute = max_tool_calls_per_minute.0;
          max_concurrent_tools = max_concurrent_tools.0;
          warn_empty_bindings = elim f.warn_empty_bindings [ none ↦ true | some b ↦ b ];
        },
        default_window.1
            ∷ max_incident_window.1
            ∷ max_cron_window.1
            ∷ per_source_timeout.1
            ∷ total_timeout.1
            ∷ evidence_cache_ttl.1
            ∷ source_cache_ttl.1
            ∷ max_log_lines.1
            ∷ max_evidence_items.1
            ∷ max_incident_bytes.1
            ∷ max_log_line_bytes.1
            ∷ max_body_bytes.1
            ∷ evidence_cache_max.1
            ∷ evidence_cache_max_bytes.1
            ∷ max_tool_calls_per_minute.1
            ∷ max_concurrent_tools.1
            ∷ error_if (ltb_ℤ total_timeout.0 per_source_timeout.0) (ascii "limits.total_timeout")
                (ascii "must be >= per_source_timeout")
            ∷ error_if (ltb_ℤ max_incident_window.0 default_window.0)
                (ascii "limits.default_window") (ascii "must be <= max_incident_window")
            ∷ [],
      )

  unfoldable pub parse_limits : FileLimits → Limits × Errors
  unfolding limit_checks all_errors
  parse_limits f = let checked = limit_checks f in (checked.0, all_errors checked.1)

module _ (trim_space : Text → Text) where
  abbrev invalid_file : Text → Bool
  invalid_file path = ltb 4096 (rune_length path) || has_control path

  -- `parseTLS`, for the path of the certificate file.
  unfoldable pub parse_tls : Text → Text × Errors
  parse_tls ca_file =
      let path = trim_space ca_file in
      if text_beq path [] then ([], []) else (
        path,
        error_if (invalid_file path) (ascii "tls.ca_file")
            (ascii "must be a valid path of at most 4096 characters"),
      )

  unfoldable pub parse_audit : AuditConfig → AuditConfig × Errors
  unfolding positive_limit all_errors
  parse_audit f =
      let file = trim_space f.file in
      if text_beq file []
      then (record f { file = [] }, [])
      else let max_bytes =
          positive_limit (ascii "audit.max_bytes") (pos 10485760) (pos 104857600)
            (ascii "must be <= 100MiB") f.max_bytes in
        let max_files =
          positive_limit (ascii "audit.max_files") (pos 3) (pos 20) (ascii "must be <= 20")
            f.max_files in
        (
          record { file = file; max_bytes = max_bytes.0; max_files = max_files.0 },
          all_errors (
              error_if (invalid_file file) (ascii "audit.file")
                (ascii "must be a valid path of at most 4096 characters")
              ∷ max_bytes.1
              ∷ max_files.1
              ∷ []),
        )
