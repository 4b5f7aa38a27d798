-- ===== src/Registry/Lookup.antt =====
-- What `Require` finds in the registry of an accepted configuration.
use homelab_evidence_mcp.Prelude.{
  ◌≡◌, ◌≢◌, refl, sym, ◌∙◌, inr, subst, List, [], ◌∷◌, ◌++◌, map, some, Text, text_beq_iff,
  text_beq_refl, text_less, All, arith,
}
use mathlib.Core.List.{Perm, append-nil, append_assoc}
use homelab_evidence_mcp.Prelude.Unique.{DistinctBy}
use homelab_evidence_mcp.Prelude.Sort.{sort_stable, sort_stable-perm}
use homelab_evidence_mcp.Prelude.Table
use homelab_evidence_mcp.Prelude.Table.{lookup, lookup-put}
use homelab_evidence_mcp.Config.Types.{Service, Config}
use homelab_evidence_mcp.Config.Parse.{Outside, parse}
use homelab_evidence_mcp.Config.Parse.Accepted.{parse-IsAccepted}
use homelab_evidence_mcp.Registry.{Registry, collect_services, new_registry, require}

collect_services-kept :
    (services : List Service) (r : Registry) (s : Service)
    → All (λ t. s.id ≢ t.id) services
    → lookup s.id r.by_id ≡ some s
    → lookup s.id (collect_services services r).by_id ≡ some s
unfolding collect_services
collect_services-kept [] r s h k = k
collect_services-kept (t ∷ services) r s h k =
    collect_services-kept services
      (record { by_id = Table.put t.id t r.by_id; order = r.order ++ t.id ∷ [] }) s h.1
      (lookup-put s.id t.id t r.by_id ∙ ground (arith, text_beq_iff t.id s.id, h.0))

collect_services-lookup :
    (services : List Service) (r : Registry)
    → DistinctBy (λ (s : Service). s.id) services
    → All (λ s. lookup s.id (collect_services services r).by_id ≡ some s) services
unfolding collect_services
collect_services-lookup [] r d = tt
collect_services-lookup (s ∷ services) r d =
    let next : Registry = record {
      by_id = Table.put s.id s r.by_id;
      order = r.order ++ s.id ∷ [];
    } in
    (
      collect_services-kept services next s d.0
          (lookup-put s.id s.id s r.by_id ∙ rw (text_beq_refl s.id) refl),
      collect_services-lookup services next d.1,
    )

order-collect_services :
    (services : List Service) (r : Registry)
    → (collect_services services r).order ≡ r.order ++ map (λ (s : Service). s.id) services
unfolding collect_services
order-collect_services [] r = sym (append-nil r.order)
order-collect_services (s ∷ services) r =
    order-collect_services services
      (record { by_id = Table.put s.id s r.by_id; order = r.order ++ s.id ∷ [] })
    ∙ append_assoc r.order (s.id ∷ []) (map (λ (s : Service). s.id) services)

module _ {Regexp : Type 0} (o : Outside Regexp) where
  -- The registry made from a configuration that `Parse` accepted finds every service of it under
  -- its identifier, and lists each identifier once, as often as the configuration has it.
  pub require-parse :
      (raw : Text) (c : Config)
      → parse o raw ≡ inr c
      → All (λ s. require (new_registry c.services) s.id ≡ some s) c.services
        × Perm (new_registry c.services).order (map (λ (s : Service). s.id) c.services)
  unfolding require new_registry
  require-parse raw c h =
      let empty : Registry = record { by_id = []; order = [] } in
      (
        collect_services-lookup c.services empty (parse-IsAccepted o raw c h).distinct,
        subst (λ l. Perm (sort_stable text_less (collect_services c.services empty).order) l)
            (order-collect_services c.services empty)
            (sort_stable-perm text_less (collect_services c.services empty).order),
      )
