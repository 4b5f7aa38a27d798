-- ===== src/Config/Bindings.antt =====
-- The bindings of a service to its sources in `parseService` of internal/config/config.go. The
-- Unicode tables, the printed form of a number and the pattern of Loki selectors (lokiSelectorRe)
-- are arguments.
use homelab_evidence_mcp.Prelude.{
  ℕ, suc, Bool, false, not, ◌&&◌, ◌||◌, List, [], ◌∷◌, ◌++◌, none, some, Text, ascii, text_beq, ltb,
  leb, if◌then◌else◌, length,
}
use homelab_evidence_mcp.Prelude.Table.{Table, lookup}
use homelab_evidence_mcp.Redaction.Search.{contains}
use homelab_evidence_mcp.Config.Types.{
  Source, GatusRef, DockerRef, LokiRef, HealthchecksRef, BeszelRef, NtfyRef,
}
use homelab_evidence_mcp.Config.Names.{
  is_listed, is_source_name, is_topic, is_healthcheck_key, rune_length, has_control,
}
use homelab_evidence_mcp.Config.Errors.{Errors, one, error_if, all_errors}
use homelab_evidence_mcp.Config.Source.{is_empty}

-- What the checks of a service take from outside.
pub record Parser : Type 0 where
  pub trim_space : Text → Text
  pub to_lower : Text → Text
  pub show : ℕ → Text
  pub is_loki_selector : Text → Bool

unfoldable pub check_source_ref : Text → Text → Text → Table Source → Errors
check_source_ref path name want_kind sources =
    if not (is_source_name name)
    then one (path ++ ascii ".source") (ascii "invalid source reference")
    else elim (lookup name sources) [
      | none ↦ one (path ++ ascii ".source") (ascii "unknown source " ++ name)
      | some src ↦ error_if (not (text_beq src.kind want_kind)) (path ++ ascii ".source") (
          ascii "source "
          ++ (name ++ (ascii " is kind " ++ (src.kind ++ (ascii ", want " ++ want_kind)))))
    ]

unfoldable pub valid_loki_selector : Parser → Text → Bool
valid_loki_selector p sel =
    if ltb 512 (length sel)
    then false
    else if has_control sel || (contains sel (ascii "`") || contains sel (ascii "{{"))
    then false
    else p.is_loki_selector sel

-- The checks of a name that a source is asked for.
unfoldable pub binding_errors : Text → Text → Errors
binding_errors path value =
    if ltb 256 (rune_length value)
    then one path (ascii "must be <= 256 characters")
    else error_if (has_control value) path (ascii "must not contain control characters")

unfoldable pub required_errors : Text → Text → Errors
unfolding binding_errors
required_errors path value =
    if is_empty value then one path (ascii "required") else binding_errors path value

-- The checks of each kind of reference, and the reference that they make.
module _ (p : Parser) (path : Text) (sources : Table Source) where
  unfoldable pub parse_gatus : GatusRef → GatusRef × Errors
  unfolding check_source_ref required_errors all_errors
  parse_gatus ref =
      let at = path ++ ascii ".sources.gatus" in
      let endpoint_key = p.trim_space ref.endpoint_key in
      (
        record { source = ref.source; endpoint_key = endpoint_key },
        all_errors (
            check_source_ref at ref.source (ascii "gatus") sources
            ∷ required_errors (at ++ ascii ".endpoint_key") endpoint_key
            ∷ []),
      )

  unfoldable pub parse_docker : DockerRef → DockerRef × Errors
  unfolding check_source_ref required_errors all_errors
  parse_docker ref =
      let at = path ++ ascii ".sources.docker" in
      let container_name = p.trim_space ref.container_name in
      (
        record { source = ref.source; container_name = container_name },
        all_errors (
            check_source_ref at ref.source (ascii "docker") sources
            ∷ required_errors (at ++ ascii ".container_name") container_name
            ∷ []),
      )

  unfoldable pub parse_loki : LokiRef → LokiRef × Errors
  unfolding check_source_ref valid_loki_selector all_errors
  parse_loki ref =
      let at = path ++ ascii ".sources.loki" in
      let sel = p.trim_space ref.selector in
      (
        record { source = ref.source; selector = sel },
        all_errors (
            check_source_ref at ref.source (ascii "loki") sources
            ∷ (if is_empty sel
                then one (at ++ ascii ".selector") (ascii "required")
                else error_if (not (valid_loki_selector p sel)) (at ++ ascii ".selector")
                    (ascii "must be a simple label selector {k=\"v\"} with optional |= filters"))
            ∷ []),
      )

  unfoldable pub parse_beszel : BeszelRef → BeszelRef × Errors
  unfolding check_source_ref required_errors all_errors
  parse_beszel ref =
      let at = path ++ ascii ".sources.beszel" in
      let system_name = p.trim_space ref.system_name in
      (
        record { source = ref.source; system_name = system_name },
        all_errors (
            check_source_ref at ref.source (ascii "beszel") sources
            ∷ required_errors (at ++ ascii ".system_name") system_name
            ∷ []),
      )

  unfoldable pub parse_ntfy : NtfyRef → NtfyRef × Errors
  unfolding check_source_ref all_errors
  parse_ntfy ref =
      let at = path ++ ascii ".sources.ntfy" in
      let topic = p.trim_space ref.topic in
      (
        record { source = ref.source; topic = topic },
        all_errors (
            check_source_ref at ref.source (ascii "ntfy") sources
            ∷ error_if (not (is_topic topic)) (at ++ ascii ".topic")
                (ascii "must match ^[A-Za-z0-9_-]{1,64}$")
            ∷ []),
      )

  -- The loop over the tags, from an index: the tags that are kept, and the errors.
  unfoldable pub parse_tags : ℕ → List Text → List Text × Errors
  parse_tags i [] = ([], [])
  parse_tags i (raw ∷ rest) =
      let tag = p.trim_space raw in
      let at = path ++ (ascii ".sources.healthchecks.check_tags[" ++ (p.show i ++ ascii "]")) in
      let (tags, errs) = parse_tags (suc i) rest in
      if is_empty tag
      then (tags, one at (ascii "must not be empty") ++ errs)
      else if ltb 128 (rune_length tag)
      then (tags, one at (ascii "must be <= 128 characters") ++ errs)
      else if has_control tag
      then (tags, one at (ascii "must not contain control characters") ++ errs)
      else (tag ∷ tags, errs)

  -- The checks after the source reference, for a binding with trimmed fields and kept tags.
  unfoldable pub healthchecks_checks : ℕ → Errors → HealthchecksRef → List Errors
  unfolding binding_errors
  healthchecks_checks tag_count tag_errs ref =
      let at = path ++ ascii ".sources.healthchecks" in
      error_if (ltb 32 tag_count) (at ++ ascii ".check_tags") (ascii "must contain at most 32 tags")
      ∷ tag_errs
      ∷ error_if
          (is_empty ref.check_name
            && (is_empty ref.check_uuid
                && (is_empty ref.check_unique_key && leb (length ref.check_tags) 0)))
          at (ascii "check_name, check_uuid, check_unique_key, or check_tags required")
      ∷ error_if (not (is_empty ref.check_uuid) && not (is_empty ref.check_unique_key)) at
          (ascii "set only one of check_uuid or check_unique_key")
      ∷ binding_errors (at ++ ascii ".check_name") ref.check_name
      ∷ binding_errors (at ++ ascii ".check_uuid") ref.check_uuid
      ∷ error_if
          (not (is_empty ref.check_unique_key) && not (is_healthcheck_key ref.check_unique_key))
          (at ++ ascii ".check_unique_key") (ascii "must match ^[A-Za-z0-9_-]{1,256}$")
      ∷ error_if
          (not (is_empty ref.status_filter)
            && not (
                is_listed
                  (ascii "up" ∷ ascii "down" ∷ ascii "grace" ∷ ascii "paused" ∷ ascii "new" ∷ [])
                  ref.status_filter))
          (at ++ ascii ".status_filter") (ascii "must be up, down, grace, paused, or new")
      ∷ error_if (not (is_listed (ascii "snapshot" ∷ ascii "transitions" ∷ []) ref.history_mode))
          (at ++ ascii ".history_mode") (ascii "must be snapshot or transitions")
      ∷ []

  abbrev history_mode : Text → Text
  history_mode hm = if is_empty hm then ascii "snapshot" else hm

  unfoldable pub parse_healthchecks : HealthchecksRef → HealthchecksRef × Errors
  unfolding check_source_ref parse_tags healthchecks_checks all_errors
  parse_healthchecks raw =
      let (tags, tag_errs) = parse_tags 0 raw.check_tags in
      let ref : HealthchecksRef = record {
        source = raw.source;
        check_name = p.trim_space raw.check_name;
        check_tags = tags;
        check_uuid = p.trim_space raw.check_uuid;
        check_unique_key = p.trim_space raw.check_unique_key;
        status_filter = p.to_lower (p.trim_space raw.status_filter);
        history_mode = history_mode (p.to_lower (p.trim_space raw.history_mode));
      } in
      (
        ref,
        check_source_ref (path ++ ascii ".sources.healthchecks") raw.source (ascii "healthchecks")
              sources
            ++ all_errors (healthchecks_checks (length raw.check_tags) tag_errs ref),
      )
