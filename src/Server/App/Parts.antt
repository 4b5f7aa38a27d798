-- ===== src/Server/App/Parts.antt =====
-- The parts of the program that `NewApp` makes: what holds of each when it starts.
use homelab_evidence_mcp.Prelude.{
  ◌≡◌, refl, inl, inr, List, [], ◌∷◌, ◌++◌, some, Text, Sum-cases, Option-cases, inr_inj, subst,
  arith, map,
}
use homelab_evidence_mcp.Prelude.Table.{Table}
use homelab_evidence_mcp.Redaction.Engine.{Rule, Engine, new_engine}
use homelab_evidence_mcp.Http.Client.{LockedClient, new_locked_client, register_destination}
use homelab_evidence_mcp.Http.Get.Locked.{IsLocked, register_destination-IsLocked}
use homelab_evidence_mcp.Evidence.Cache.Laws
use homelab_evidence_mcp.Config.Types.{Config, Source}
use homelab_evidence_mcp.Config.Files.{load_extra_cert_pool}
use homelab_evidence_mcp.Config.Parse.Rules.{rule_of}
use homelab_evidence_mcp.Registry.{new_registry}
use homelab_evidence_mcp.Prelude.Int.{ℤ}
use homelab_evidence_mcp.Server.App.{
  App, World, Clients, resolve_loop, register_loop, first_http, no_clients, assemble, build_app,
  new_app,
}

module _ {Regexp : Type 0} (w : World Regexp) where
  -- An application that was built came out of the loop over the destinations.
  pub build_app-inr :
      (cfg : Config) (tokens : Table Text) (engine : Engine Regexp) (app : App Regexp)
      → build_app w cfg tokens engine ≡ inr app
      → (http : LockedClient) × (clients : Clients) × (register_loop w cfg.limits.max_log_line_bytes
            tokens cfg.sources
            (first_http w cfg)
            (no_clients w)
          ≡ inr (http, clients))
        × (assemble w cfg engine http clients ≡ app)
  unfolding build_app
  build_app-inr cfg tokens engine app h =
      elim (Sum-cases (load_extra_cert_pool w.has_certificates w.files cfg.ca_file)) [
        | inl (e, q) ↦ ground arith
        | inr (roots, q) ↦
            elim (Sum-cases (
              register_loop w cfg.limits.max_log_line_bytes tokens cfg.sources (first_http w cfg)
                (no_clients w))) [
                  | inl (e, r) ↦ ground arith
                  | inr ((http, clients), r) ↦
                      (http, clients, r, inr_inj _ _ _ (rw (build_app, q, r) refl) h)
                ]
      ]

  -- The steps of a start that succeeds.
  pub new_app-inr :
      (cfg : Config) (app : App Regexp)
      → new_app w cfg ≡ inr app
      → (tokens : Table Text) × (rules : List Rule) × (engine : Engine Regexp) × (resolve_loop w
            cfg.sources [] []
          ≡ inr (tokens, rules))
        × (new_engine w.outside.compile w.outside.find_all (rules ++ map rule_of cfg.redact)
            ≡ some engine)
        × (build_app w cfg tokens engine ≡ inr app)
  unfolding new_app
  new_app-inr cfg app h = elim (Sum-cases (resolve_loop w cfg.sources [] [])) [
    | inl (e, r) ↦ ground arith
    | inr ((tokens, rules), r) ↦
        elim (Option-cases
          (new_engine w.outside.compile w.outside.find_all (rules ++ map rule_of cfg.redact))) [
            | inl n ↦ ground arith
            | inr (engine, n) ↦ (tokens, rules, engine, r, n, rw (new_app, r, n) at h)
          ]
  ]

  register_loop-IsLocked :
      (line_bytes : ℤ) (tokens : Table Text) (sources : Table Source) (http made : LockedClient)
      (clients all : Clients)
      → IsLocked http
      → register_loop w line_bytes tokens sources http clients ≡ inr (made, all)
      → IsLocked made
  unfolding register_loop
  register_loop-IsLocked line_bytes tokens [] http made clients all v h =
      let same : http ≡ made = ground arith in subst IsLocked same v
  register_loop-IsLocked line_bytes tokens ((name, src) ∷ rest) http made clients all v h =
      elim (Sum-cases (register_destination w.outside.lib name src.base_url http)) [
        | inl (e, q) ↦ ground arith
        | inr (next, q) ↦
            register_loop-IsLocked line_bytes tokens rest next made _ all
              (register_destination-IsLocked w.outside.lib name src.base_url http next v q)
              (rw (register_loop, q) at h)
      ]

  first_http-IsLocked : (cfg : Config) → IsLocked (first_http w cfg)
  unfolding new_locked_client
  first_http-IsLocked cfg = tt

  -- The program that `NewApp` makes from any configuration starts in a good state: every
  -- destination of its HTTP client is a web URL with a host and no dot segments, its evidence
  -- cache is valid, and its registry is the one of the configuration.
  pub new_app-IsReady :
      (cfg : Config) (app : App Regexp)
      → new_app w cfg ≡ inr app
      → IsLocked app.http × Laws.IsValid app.cache × (app.registry ≡ new_registry cfg.services)
  new_app-IsReady cfg app h =
      let (tokens, rules, engine, r, n, b) = new_app-inr cfg app h in
      let (http, clients, registered, same) = build_app-inr cfg tokens engine app b in
      subst
        (λ (a : App Regexp).
          IsLocked a.http × Laws.IsValid a.cache × (a.registry ≡ new_registry cfg.services))
        same
        (
          register_loop-IsLocked cfg.limits.max_log_line_bytes tokens cfg.sources (first_http w cfg)
              http (no_clients w) clients (first_http-IsLocked cfg) registered,
          Laws.new_cache-IsValid cfg.limits.evidence_cache_ttl cfg.limits.evidence_cache_max
              cfg.limits.evidence_cache_max_bytes,
          refl,
        )
