-- ===== src/Config/Example.antt =====
-- A configuration at concrete inputs: one Healthchecks source with a static header, and one service
-- that is bound to it.
use homelab_evidence_mcp.Prelude.{
  ◌≡◌, refl, inr, true, false, [], ◌∷◌, none, some, Text, ascii, text_beq, text_less,
}
use homelab_evidence_mcp.Prelude.Int.{pos}
use homelab_evidence_mcp.Prelude.Table
use homelab_evidence_mcp.Prelude.Table.{Table, lookup}
use homelab_evidence_mcp.Prelude.Sort.{insert, sort_stable}
use homelab_evidence_mcp.Redaction.Utf8.{decode_rune, chunks_from, chunks, value}
use homelab_evidence_mcp.Redaction.Search.{has_prefix, index, contains}
use homelab_evidence_mcp.Redaction.Clean.{is_control}
use homelab_evidence_mcp.Http.Paths.{split, trim_right}
use homelab_evidence_mcp.Http.Client.{Url, Library}
use homelab_evidence_mcp.Config.Types.{
  Config, FileConfig, FileLimits, Source, Service, HealthchecksRef,
}
use homelab_evidence_mcp.Config.Names.{
  is_source_name, is_topic, is_healthcheck_key, is_env_name, is_header_name, has_control,
  invalid_locked_path, looks_like_secret, is_sensitive_header_name, is_reserved_header_name,
}
use homelab_evidence_mcp.Config.Errors.{all_errors, checked}
use homelab_evidence_mcp.Config.Limits.{
  positive_limit, optional_limit, set_dur, limit_checks, parse_limits, parse_tls, parse_audit,
}
use homelab_evidence_mcp.Config.Source.{
  url_errors, base_url_errors, header_errors, header_loop, headers_errors, token_errors,
  token_header_errors, collision, collision_errors, source_checks, parse_source, static_headers,
  auth_headers,
}
use homelab_evidence_mcp.Config.Bindings.{
  check_source_ref, binding_errors, required_errors, parse_gatus, parse_docker, parse_loki,
  parse_beszel, parse_ntfy, parse_tags, healthchecks_checks, parse_healthchecks,
}
use homelab_evidence_mcp.Config.Service.{if_present, parse_bindings, service_checks, parse_service}
use homelab_evidence_mcp.Config.Parse.{
  Outside, document, end_of_file, first_disallowed, refusal, at_most, sanitize_yaml_err,
  source_step, source_loop, service_step, service_loop, rule_errors, redact_loop, config_checks,
  parse_document, of_decoded, parse,
}
use homelab_evidence_mcp.Config.Files.{
  insecure_unix_permissions, open_regular_unlinked_file, load_file, secret_path, read_secret_file,
  resolve_token,
}

unfoldable pub parsing : Unit {0}
unfolding text_beq text_less lookup Table.put insert sort_stable decode_rune chunks_from chunks
    value has_prefix index contains is_control split trim_right is_source_name is_topic
    is_healthcheck_key is_env_name is_header_name has_control invalid_locked_path looks_like_secret
    is_sensitive_header_name is_reserved_header_name all_errors checked positive_limit
    optional_limit set_dur limit_checks parse_limits parse_tls parse_audit url_errors
    base_url_errors header_errors header_loop headers_errors token_errors token_header_errors
    collision collision_errors source_checks parse_source static_headers auth_headers
    check_source_ref binding_errors required_errors parse_gatus parse_docker parse_loki parse_beszel
    parse_ntfy parse_tags healthchecks_checks parse_healthchecks if_present parse_bindings
    service_checks parse_service first_disallowed refusal at_most sanitize_yaml_err source_step
    source_loop service_step service_loop rule_errors redact_loop config_checks parse_document
    of_decoded parse insecure_unix_permissions open_regular_unlinked_file load_file secret_path
    read_secret_file resolve_token
parsing = tt

abbrev pub url : Url
url = record {
  scheme = ascii "http";
  host = ascii "hc:8000";
  path = ascii "/api/";
  raw_query = [];
  fragment = [];
  has_user = false;
}

-- Texts without spaces and upper case, so that trimming and lower case change nothing.
abbrev pub library : Library
library = record {
  parse = λ s. some url;
  is_abs = λ u. true;
  keyed_fingerprint = λ k v. v;
  canonical_header_key = λ s. s;
  trim_space = λ s. s;
  to_lower = λ s. s;
  equal_fold = text_beq;
  buildable = λ r. true;
  format_time = λ t. [];
  parse_time = λ s. none;
}

abbrev pub source : Source
source = record {
  kind = ascii "healthchecks";
  base_url = ascii "http://hc:8000/api/";
  token_env = ascii "HC_TOKEN";
  token_file = [];
  token_header = [];
  headers = (ascii "X-Site", ascii "home") ∷ [];
}

abbrev pub parsed : Source
parsed = record source { base_url = ascii "http://hc:8000/api" }

pub source_run : parse_source library (ascii "cron") source ≡ inr parsed
unfolding parsing
source_run = refl

abbrev pub check : HealthchecksRef
check = record {
  source = ascii "cron";
  check_name = ascii "backup";
  check_tags = ascii "nas" ∷ [];
  check_uuid = [];
  check_unique_key = [];
  status_filter = [];
  history_mode = [];
}

abbrev pub file_limits : FileLimits
file_limits = record {
  default_window = [];
  max_incident_window = ascii "12h";
  max_cron_window = [];
  max_log_lines = pos 0;
  max_evidence_items = pos 0;
  max_incident_bytes = none;
  per_source_timeout = [];
  total_timeout = [];
  max_log_line_bytes = pos 0;
  max_body_bytes = pos 0;
  evidence_cache_ttl = [];
  evidence_cache_max = none;
  evidence_cache_max_bytes = some (pos 8192);
  source_cache_ttl = [];
  max_tool_calls_per_minute = pos 0;
  max_concurrent_tools = pos 4;
  warn_empty_bindings = none;
}

abbrev pub service : Service
service = record {
  id = ascii "nas";
  display_name = [];
  sources = record {
    gatus = none;
    docker = none;
    loki = none;
    healthchecks = some check;
    beszel = none;
    ntfy = none;
  };
}

abbrev pub file : FileConfig
file = record {
  version = pos 1;
  limits = file_limits;
  audit = record { file = []; max_bytes = pos 0; max_files = pos 0 };
  ca_file = [];
  sources = (ascii "cron", source) ∷ [];
  services = service ∷ [];
  redact = record { exact = []; regex = ascii "pin=[0-9]+" } ∷ [];
}

abbrev pub outside : Outside Text
outside = record {
  lib = library;
  show = λ n. [];
  is_loki_selector = λ s. true;
  parse_duration = λ s. some (pos 43200000000000);
  show_duration = λ d. [];
  decode = λ s. document file end_of_file;
  redact_scalars = λ s. s;
  compile = λ s. some s;
  find_all = λ re s. [];
}

abbrev pub config : Config
config = (config_checks outside file).0

abbrev pub raw : Text
raw = ascii "version: 1"

pub parse_run : parse outside raw ≡ inr config
unfolding parsing
parse_run = refl
