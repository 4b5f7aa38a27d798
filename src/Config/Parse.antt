-- ===== src/Config/Parse.antt =====
-- `Parse` of internal/config/config.go. The YAML decoder, the regular expressions, the URLs, the
-- durations and the Unicode tables are arguments.
pub mod Loops
pub mod Rules
pub mod Accepted
use homelab_evidence_mcp.Prelude.{
  ℕ, suc, ◌⊎◌, inl, inr, Bool, false, true, not, ◌&&◌, ◌||◌, List, [], ◌∷◌, ◌++◌, Option, none,
  some, Text, ascii, text_beq, text_less, ltb, leb, if◌then◌else◌, length, take,
}
use homelab_evidence_mcp.Prelude.Int.{ℤ, pos, equal_ℤ}
use homelab_evidence_mcp.Prelude.Table
use homelab_evidence_mcp.Prelude.Table.{Table, lookup, keys}
use homelab_evidence_mcp.Prelude.Sort.{sort_stable}
use homelab_evidence_mcp.Redaction.Search.{contains}
use homelab_evidence_mcp.Redaction.Clean.{sanitize_control, truncate}
use homelab_evidence_mcp.Redaction.Engine.{new_engine, apply}
use homelab_evidence_mcp.Http.Client.{Library}
use homelab_evidence_mcp.Config.Types.{Config, FileConfig, Source, Service, RedactRule}
use homelab_evidence_mcp.Config.Names.{is_listed, is_source_name, rune_length}
use homelab_evidence_mcp.Config.Errors.{Errors, one, error_if, all_errors, checked, no_errors}
use homelab_evidence_mcp.Config.Limits.{parse_limits, parse_audit, parse_tls}
use homelab_evidence_mcp.Config.Source.{is_empty, parse_source}
use homelab_evidence_mcp.Config.Bindings.{Parser}
use homelab_evidence_mcp.Config.Service.{parse_service}

-- What the decoder makes of the rest of the text after the first document.
pub data Trailing : Type 0 where
  end_of_file another : Trailing
  broken : Text → Trailing

pub data Decoded : Type 0 where
  malformed : Text → Decoded
  document : FileConfig → Trailing → Decoded

pub record Outside (Regexp : Type 0) : Type 0 where
  pub lib : Library
  pub show : ℕ → Text
  pub is_loki_selector : Text → Bool
  pub parse_duration : Text → Option ℤ
  pub show_duration : ℤ → Text
  pub decode : Text → Decoded
  pub redact_scalars : Text → Text
  pub compile : Text → Option Regexp
  pub find_all : Regexp → Text → List (ℕ × ℕ)

abbrev pub disallowed : List Text
disallowed =
    ascii "{{"
    ∷ ascii "}}"
    ∷ ascii "!!python"
    ∷ ascii "!!js"
    ∷ ascii "${"
    ∷ ascii "`$("
    ∷ ascii "include:"
    ∷ ascii "!include"
    ∷ []

-- The first of the disallowed texts that stands in the configuration.
unfoldable pub first_disallowed : List Text → Text → Option Text
first_disallowed [] s = none
first_disallowed (bad ∷ rest) s = if contains s bad then some bad else first_disallowed rest s

-- The checks before the decoder.
unfoldable pub refusal : Text → Option Errors
unfolding first_disallowed
refusal raw =
    if is_empty raw
    then some (one (ascii "version") (ascii "empty configuration"))
    else if ltb 1048576 (length raw)
    then some (one (ascii ".") (ascii "configuration exceeds 1048576 bytes"))
    else elim (first_disallowed disallowed raw) [
      | some bad ↦ some (one (ascii ".") (ascii "disallowed template or include syntax: " ++ bad))
      | none ↦ none
    ]

-- The zero value that a missing key gives.
abbrev no_source : Source
no_source = record {
  kind = [];
  base_url = [];
  token_env = [];
  token_file = [];
  token_header = [];
  headers = [];
}

abbrev pub source_at : Text → Table Source → Source
source_at name files = elim (lookup name files) [ none ↦ no_source | some s ↦ s ]

-- The first elements of a list that may be too long, and the error.
unfoldable pub at_most {ℓ} : {A : Type ℓ} → ℕ → Text → Text → List A → List A × Errors
at_most n path message l = if ltb n (length l) then (take n l, one path message) else (l, [])

module _ {Regexp : Type 0} (o : Outside Regexp) where
  abbrev pub parser : Parser
  parser = record {
    trim_space = o.lib.trim_space;
    to_lower = o.lib.to_lower;
    show = o.show;
    is_loki_selector = o.is_loki_selector;
  }

  unfoldable pub sanitize_yaml_err : Text → Text
  sanitize_yaml_err message =
      let shown = o.redact_scalars message in
      let masked : Text = elim (new_engine o.compile o.find_all []) [
        | none ↦ shown
        | some e ↦ (apply o.compile o.find_all (some e) shown).0
      ] in
      (truncate (sanitize_control masked) (pos 200)).0

  -- One name of a source: the sources made so far with it, and its errors.
  unfoldable pub source_step : Table Source → Text → Table Source → Table Source × Errors
  source_step files name made =
      if not (is_source_name name)
      then (made, one (ascii "sources." ++ name) (ascii "invalid source name"))
      else elim (parse_source o.lib name (source_at name files)) [
        | inl es ↦ (made, es)
        | inr s ↦ (Table.put name s made, [])
      ]

  unfoldable pub source_loop : Table Source → List Text → Table Source → Table Source × Errors
  unfolding source_step
  source_loop files [] made = (made, [])
  source_loop files (name ∷ rest) made =
      let (next, es) = source_step files name made in
      let (all, errs) = source_loop files rest next in (all, es ++ errs)

  abbrev pub path_at : Text → ℕ → Text
  path_at name i = name ++ (ascii "[" ++ (o.show i ++ ascii "]"))

  -- One service: the service if it is kept, the identifiers seen, and its errors.
  unfoldable pub service_step :
      Table Source → ℕ → List Text → Service → List Service × List Text × Errors
  service_step sources i seen f =
      let path = path_at (ascii "services") i in
      elim (parse_service parser path sources f) [
        | inl es ↦ ([], seen, es)
        | inr s ↦
            if is_listed seen s.id
            then ([], seen, one (path ++ ascii ".id") (ascii "duplicate service id"))
            else (s ∷ [], s.id ∷ seen, [])
      ]

  -- The loop over the services, from an index.
  unfoldable pub service_loop : Table Source → ℕ → List Text → List Service → List Service × Errors
  unfolding service_step
  service_loop sources i seen [] = ([], [])
  service_loop sources i seen (f ∷ rest) =
      let (kept, seen', es) = service_step sources i seen f in
      let (later, errs) = service_loop sources (suc i) seen' rest in (kept ++ later, es ++ errs)

  -- The errors of one redaction rule: the first check that fails.
  unfoldable pub rule_errors : Text → RedactRule → Errors
  rule_errors path r =
      if is_empty r.exact && is_empty r.regex
      then one path (ascii "exact or regex required")
      else if ltb 4096 (rune_length r.exact)
      then one (path ++ ascii ".exact") (ascii "must be <= 4096 characters")
      else if ltb 4096 (rune_length r.regex)
      then one (path ++ ascii ".regex") (ascii "must be <= 4096 characters")
      else if is_empty r.regex
      then []
      else elim (o.compile r.regex) [
        | none ↦ one (path ++ ascii ".regex") (ascii "invalid regex")
        | some _ ↦ []
      ]

  unfoldable pub redact_loop : ℕ → List RedactRule → List RedactRule × Errors
  unfolding rule_errors
  redact_loop i [] = ([], [])
  redact_loop i (r ∷ rest) =
      let (rules, errs) = redact_loop (suc i) rest in
      let es = rule_errors (path_at (ascii "redact") i) r in
      (if no_errors es then r ∷ rules else rules, es ++ errs)

  -- The configuration of a document, and the errors of each part in their order.
  unfoldable pub config_checks : FileConfig → Config × List Errors
  unfolding parse_limits parse_audit parse_tls at_most source_loop service_loop redact_loop
  config_checks fc =
      let limits = parse_limits o.parse_duration o.show_duration fc.limits in
      let audit = parse_audit o.lib.trim_space fc.audit in
      let tls = parse_tls o.lib.trim_space fc.ca_file in
      let names =
        at_most 64 (ascii "sources") (ascii "must contain at most 64 sources")
          (sort_stable text_less (keys fc.sources)) in
      let sources = source_loop fc.sources names.0 [] in
      let service_files =
        at_most 1000 (ascii "services") (ascii "must contain at most 1000 services") fc.services in
      let services = service_loop sources.0 0 [] service_files.0 in
      let redact_files =
        at_most 128 (ascii "redact") (ascii "must contain at most 128 rules") fc.redact in
      let redact = redact_loop 0 redact_files.0 in
      (
        record {
          version = fc.version;
          limits = limits.0;
          audit = audit.0;
          ca_file = tls.0;
          sources = sources.0;
          services = services.0;
          redact = redact.0;
        },
        error_if (not (equal_ℤ fc.version (pos 1))) (ascii "version") (ascii "must be 1")
            ∷ limits.1
            ∷ audit.1
            ∷ tls.1
            ∷ error_if (leb (length fc.sources) 0) (ascii "sources")
                (ascii "at least one source is required")
            ∷ names.1
            ∷ sources.1
            ∷ service_files.1
            ∷ services.1
            ∷ redact_files.1
            ∷ redact.1
            ∷ [],
      )

  unfoldable pub parse_document : FileConfig → Errors ⊎ Config
  unfolding config_checks all_errors checked
  parse_document fc = let made = config_checks fc in checked (all_errors made.1) made.0

  abbrev yaml_error : Text → Errors
  yaml_error message = one (ascii ".") (ascii "yaml parse error: " ++ sanitize_yaml_err message)

  unfoldable pub of_decoded : Decoded → Errors ⊎ Config
  unfolding parse_document
  of_decoded (malformed message) = inl (yaml_error message)
  of_decoded (document fc (broken message)) = inl (yaml_error message)
  of_decoded (document fc another) =
      inl (one (ascii ".") (ascii "multiple YAML documents are not allowed"))
  of_decoded (document fc end_of_file) = parse_document fc

  unfoldable pub parse : Text → Errors ⊎ Config
  unfolding refusal of_decoded
  parse raw = elim (refusal raw) [ some es ↦ inl es | none ↦ of_decoded (o.decode raw) ]
