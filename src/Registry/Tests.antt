-- ===== src/Registry/Tests.antt =====
-- Runs of the registry and its theorem at concrete inputs.
use homelab_evidence_mcp.Prelude.{
  ◌≡◌, refl, [], ◌∷◌, some, Text, All, ascii, text_beq, text_less, take, map,
}
use homelab_evidence_mcp.Prelude.Int.{pos}
use homelab_evidence_mcp.Prelude.Table
use homelab_evidence_mcp.Prelude.Table.{lookup}
use homelab_evidence_mcp.Prelude.Sort.{insert, sort_stable}
use homelab_evidence_mcp.Redaction.Search.{has_prefix}
use homelab_evidence_mcp.Config.Types.{Service}
use homelab_evidence_mcp.Registry.{
  Registry, collect_services, new_registry, no_service, view, require, matched, list,
}
use mathlib.Core.List.{Perm}
use homelab_evidence_mcp.Config.Example.{outside, raw, config, parse_run}
use homelab_evidence_mcp.Registry.Lookup.{require-parse}
use homelab_evidence_mcp.Registry.Pages.{walk, walk_lem}

program : Unit {0}
unfolding text_beq text_less lookup Table.put insert sort_stable has_prefix collect_services
    new_registry view require matched list
program = tt

abbrev service : Text → Service
service id = record no_service {
  id = id;
  display_name = id;
  sources = record no_service.sources { gatus = some (record { source = id; endpoint_key = id }) };
}

abbrev registry : Registry
registry =
    new_registry (service (ascii "web") ∷ service (ascii "nas") ∷ service (ascii "nginx") ∷ [])

matches : matched (λ s. s) (λ s. s) registry (ascii "n") ≡ ascii "nas" ∷ ascii "nginx" ∷ []
unfolding program
matches = refl

second_page :
    (list (λ s. s) (λ s. s) registry [] (pos 2) (pos 2)).0 ≡ view registry (ascii "web") ∷ []
unfolding program
second_page = refl

walk_lem_example :
    walk (λ s. s) (λ s. s) registry [] (pos 2) 2
    ≡ map (view registry) (take 4 (matched (λ s. s) (λ s. s) registry []))
walk_lem_example = walk_lem (λ s. s) (λ s. s) registry [] (pos 2) 2

require-parse_example :
    All (λ s. require (new_registry config.services) s.id ≡ some s) config.services
    × Perm (new_registry config.services).order (map (λ (s : Service). s.id) config.services)
require-parse_example = require-parse outside raw config parse_run
