-- ===== src/Config/Service/Bound.antt =====
-- The services that `parseService` accepts.
use homelab_evidence_mcp.Prelude.{
  ◌≡◌, inr, Bool, false, true, not, [], Option, none, some, Text, ascii, subst, arith,
}
use homelab_evidence_mcp.Prelude.Table.{Table}
use homelab_evidence_mcp.Config.Types.{Source, Service}
use homelab_evidence_mcp.Config.Names.{is_service_id, is_topic}
use homelab_evidence_mcp.Config.Errors.{Errors, error_if-none, all_errors-none, checked-inr}
use homelab_evidence_mcp.Config.Bindings.{
  Parser, valid_loki_selector, parse_gatus, parse_docker, parse_loki, parse_healthchecks,
  parse_beszel, parse_ntfy,
}
use homelab_evidence_mcp.Config.Service.{if_present, parse_bindings, service_checks, parse_service}
use homelab_evidence_mcp.Config.Service.Refs.{
  Names, IsShort, IsRef, binding_errors-none, parse_gatus-none, parse_docker-none, parse_loki-none,
  parse_beszel-none, parse_ntfy-none,
}
use homelab_evidence_mcp.Config.Service.Checks.{IsCheckRef, parse_healthchecks-none}

abbrev Given : {A : Type 0} → (A → Type 0) → Option A → Type 0
Given P none = Unit
Given P (some ref) = P ref

if_present-none :
    {A : Type 0} (P : A → Type 0) (parse : A → A × Errors)
    → ((ref : A) → (parse ref).1 ≡ [] → P (parse ref).0)
    → (o : Option A) → (if_present parse o).1 ≡ []
    → Given P (if_present parse o).0
unfolding if_present
if_present-none P parse h none k = tt
if_present-none P parse h (some ref) k = h ref k

-- A service with an identifier and a name that may be shown, each of whose bindings names a
-- registered source of its kind and says what to ask it for.
pub record IsBound (p : Parser) (sources : Table Source) (s : Service) : Type 0 where
  pub id : is_service_id s.id ≡ true
  pub display : IsShort s.display_name
  pub gatus : Given (λ r. IsRef sources (ascii "gatus") r.source r.endpoint_key) s.sources.gatus
  pub docker :
      Given (λ r. IsRef sources (ascii "docker") r.source r.container_name) s.sources.docker
  pub loki :
      Given
        (λ r. Names sources (ascii "loki") r.source × (valid_loki_selector p r.selector ≡ true))
        s.sources.loki
  pub healthchecks : Given (IsCheckRef sources) s.sources.healthchecks
  pub beszel : Given (λ r. IsRef sources (ascii "beszel") r.source r.system_name) s.sources.beszel
  pub ntfy :
      Given (λ r. Names sources (ascii "ntfy") r.source × (is_topic r.topic ≡ true)) s.sources.ntfy

true_of_not : (b : Bool) → not b ≡ false → b ≡ true
true_of_not b h = ground arith

module _ (p : Parser) (path : Text) (sources : Table Source) where
  -- A service that `parseService` accepts is bound.
  pub parse_service-IsBound :
      (f s : Service) → parse_service p path sources f ≡ inr s → IsBound p sources s
  unfolding parse_service service_checks parse_bindings parse_gatus parse_docker parse_loki
      parse_beszel parse_ntfy
  parse_service-IsBound f s h =
      let result = checked-inr _ _ s h in
      let none_of = all_errors-none (service_checks p path sources f) result.0 in
      subst (IsBound p sources) result.1 (record {
        id = true_of_not _ (error_if-none _ _ _ none_of.0);
        display = binding_errors-none _ _ none_of.1.0;
        gatus =
            if_present-none _ (parse_gatus p path sources) (parse_gatus-none p path sources)
              f.sources.gatus none_of.1.1.0;
        docker =
            if_present-none _ (parse_docker p path sources) (parse_docker-none p path sources)
              f.sources.docker none_of.1.1.1.0;
        loki =
            if_present-none _ (parse_loki p path sources) (parse_loki-none p path sources)
              f.sources.loki none_of.1.1.1.1.0;
        healthchecks =
            if_present-none _ (parse_healthchecks p path sources)
              (parse_healthchecks-none p path sources) f.sources.healthchecks none_of.1.1.1.1.1.0;
        beszel =
            if_present-none _ (parse_beszel p path sources) (parse_beszel-none p path sources)
              f.sources.beszel none_of.1.1.1.1.1.1.0;
        ntfy =
            if_present-none _ (parse_ntfy p path sources) (parse_ntfy-none p path sources)
              f.sources.ntfy none_of.1.1.1.1.1.1.1.0;
      })
