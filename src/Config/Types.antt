-- ===== src/Config/Types.antt =====
-- The types of internal/config/config.go: the data of the file and the configuration made of it.
use homelab_evidence_mcp.Prelude.{Bool, List, Option, Text}
use homelab_evidence_mcp.Prelude.Int.{ℤ}
use homelab_evidence_mcp.Prelude.Table.{Table}

pub record ValidationError : Type 0 where
  pub path : Text
  pub message : Text

-- A duration is a number of nanoseconds.
pub record Limits : Type 0 where
  pub default_window : ℤ
  pub max_incident_window : ℤ
  pub max_cron_window : ℤ
  pub max_log_lines : ℤ
  pub max_evidence_items : ℤ
  pub max_incident_bytes : ℤ
  pub per_source_timeout : ℤ
  pub total_timeout : ℤ
  pub max_log_line_bytes : ℤ
  pub max_body_bytes : ℤ
  pub evidence_cache_ttl : ℤ
  pub evidence_cache_max : ℤ
  pub evidence_cache_max_bytes : ℤ
  pub source_cache_ttl : ℤ
  pub max_tool_calls_per_minute : ℤ
  pub max_concurrent_tools : ℤ
  pub warn_empty_bindings : Bool

pub record AuditConfig : Type 0 where
  pub file : Text
  pub max_bytes : ℤ
  pub max_files : ℤ

pub record Source : Type 0 where
  pub kind : Text
  pub base_url : Text
  pub token_env : Text
  pub token_file : Text
  pub token_header : Text
  pub headers : Table Text

pub record GatusRef : Type 0 where
  pub source : Text
  pub endpoint_key : Text

pub record DockerRef : Type 0 where
  pub source : Text
  pub container_name : Text

pub record LokiRef : Type 0 where
  pub source : Text
  pub selector : Text

pub record HealthchecksRef : Type 0 where
  pub source : Text
  pub check_name : Text
  pub check_tags : List Text
  pub check_uuid : Text
  pub check_unique_key : Text
  pub status_filter : Text
  pub history_mode : Text

pub record BeszelRef : Type 0 where
  pub source : Text
  pub system_name : Text

pub record NtfyRef : Type 0 where
  pub source : Text
  pub topic : Text

pub record ServiceSources : Type 0 where
  pub gatus : Option GatusRef
  pub docker : Option DockerRef
  pub loki : Option LokiRef
  pub healthchecks : Option HealthchecksRef
  pub beszel : Option BeszelRef
  pub ntfy : Option NtfyRef

pub record Service : Type 0 where
  pub id : Text
  pub display_name : Text
  pub sources : ServiceSources

pub record RedactRule : Type 0 where
  pub exact : Text
  pub regex : Text

pub record Config : Type 0 where
  pub version : ℤ
  pub limits : Limits
  pub audit : AuditConfig
  pub ca_file : Text
  pub sources : Table Source
  pub services : List Service
  pub redact : List RedactRule

-- The limits of the file; a missing pointer is `none`.
pub record FileLimits : Type 0 where
  pub default_window : Text
  pub max_incident_window : Text
  pub max_cron_window : Text
  pub max_log_lines : ℤ
  pub max_evidence_items : ℤ
  pub max_incident_bytes : Option ℤ
  pub per_source_timeout : Text
  pub total_timeout : Text
  pub max_log_line_bytes : ℤ
  pub max_body_bytes : ℤ
  pub evidence_cache_ttl : Text
  pub evidence_cache_max : Option ℤ
  pub evidence_cache_max_bytes : Option ℤ
  pub source_cache_ttl : Text
  pub max_tool_calls_per_minute : ℤ
  pub max_concurrent_tools : ℤ
  pub warn_empty_bindings : Option Bool

-- The other sections of the file have the fields of the configuration, before validation.
pub record FileConfig : Type 0 where
  pub version : ℤ
  pub limits : FileLimits
  pub audit : AuditConfig
  pub ca_file : Text
  pub sources : Table Source
  pub services : List Service
  pub redact : List RedactRule
