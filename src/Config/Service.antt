-- ===== src/Config/Service.antt =====
-- `parseService` and `HasAnyBinding` of internal/config/config.go.
pub mod Bound
pub mod Refs
pub mod Checks
use homelab_evidence_mcp.Prelude.{
  ℕ, suc, ◌⊎◌, inl, inr, Bool, false, true, not, ◌&&◌, ◌||◌, List, [], ◌∷◌, ◌++◌, Option, none,
  some, Text, ascii, text_beq, ltb, leb, if◌then◌else◌, length,
}
use homelab_evidence_mcp.Prelude.Table.{Table, lookup}
use homelab_evidence_mcp.Redaction.Search.{contains}
use homelab_evidence_mcp.Config.Types.{
  Source, Service, ServiceSources, GatusRef, DockerRef, LokiRef, HealthchecksRef, BeszelRef,
  NtfyRef,
}
use homelab_evidence_mcp.Config.Names.{
  is_listed, is_source_name, is_service_id, is_topic, is_healthcheck_key, rune_length, has_control,
}
use homelab_evidence_mcp.Config.Errors.{Errors, one, error_if, all_errors, checked}
use homelab_evidence_mcp.Config.Source.{is_empty}
use homelab_evidence_mcp.Config.Bindings.{
  Parser, binding_errors, parse_gatus, parse_docker, parse_loki, parse_healthchecks, parse_beszel,
  parse_ntfy,
}

-- A binding that is absent has no errors.
unfoldable pub if_present : {A : Type 0} → (A → A × Errors) → Option A → Option A × Errors
if_present parse none = (none, [])
if_present parse (some ref) = let (made, errs) = parse ref in (some made, errs)

module _ (p : Parser) (path : Text) (sources : Table Source) where
  abbrev display_name : Text → Text → Text
  display_name id dn = if is_empty dn then id else dn

  -- The bindings of a service, and the errors of each kind in their order.
  unfoldable pub parse_bindings : ServiceSources → ServiceSources × List Errors
  unfolding if_present parse_gatus parse_docker parse_loki parse_healthchecks parse_beszel
      parse_ntfy
  parse_bindings f =
      let gatus = if_present (parse_gatus p path sources) f.gatus in
      let docker = if_present (parse_docker p path sources) f.docker in
      let loki = if_present (parse_loki p path sources) f.loki in
      let healthchecks = if_present (parse_healthchecks p path sources) f.healthchecks in
      let beszel = if_present (parse_beszel p path sources) f.beszel in
      let ntfy = if_present (parse_ntfy p path sources) f.ntfy in
      (
        record {
          gatus = gatus.0;
          docker = docker.0;
          loki = loki.0;
          healthchecks = healthchecks.0;
          beszel = beszel.0;
          ntfy = ntfy.0;
        },
        gatus.1 ∷ docker.1 ∷ loki.1 ∷ healthchecks.1 ∷ beszel.1 ∷ ntfy.1 ∷ [],
      )

  unfoldable pub service_checks : Service → List Errors
  unfolding binding_errors parse_bindings
  service_checks f =
      let id = p.trim_space f.id in
      error_if (not (is_service_id id)) (path ++ ascii ".id")
        (ascii "must match ^[a-z][a-z0-9_-]{0,63}$")
      ∷ binding_errors (path ++ ascii ".display_name")
          (display_name id (p.trim_space f.display_name))
      ∷ (parse_bindings f.sources).1

  unfoldable pub parse_service : Service → Errors ⊎ Service
  unfolding service_checks parse_bindings all_errors checked
  parse_service f =
      let id = p.trim_space f.id in
      checked (all_errors (service_checks f)) (record {
        id = id;
        display_name = display_name id (p.trim_space f.display_name);
        sources = (parse_bindings f.sources).0;
      })

abbrev pub is_set {ℓ} : {A : Type ℓ} → Option A → Bool
is_set none = false
is_set (some _) = true

-- `HasAnyBinding`
unfoldable pub has_any_binding : Service → Bool
has_any_binding s =
    is_set s.sources.gatus
    || (is_set s.sources.docker
        || (is_set s.sources.loki
            || (is_set s.sources.healthchecks
                || (is_set s.sources.beszel || is_set s.sources.ntfy))))
