-- ===== src/Server/App.antt =====
-- `NewApp` of internal/mcpserver/app.go: the parts of the program put together from a
-- configuration.
-- The loops over the map of sources take it in the order of its table; Go leaves that order open.
pub mod Secrets
pub mod Parts
mod Tests
use homelab_evidence_mcp.Prelude.{
  ℕ, ◌⊎◌, inl, inr, Bool, false, true, not, ◌&&◌, ◌||◌, List, [], ◌∷◌, ◌++◌, Option, none, some,
  Text, ascii, text_beq, nat_eq, ◌==◌, if◌then◌else◌, map, keep, leb, length,
}
use homelab_evidence_mcp.Prelude.Int.{ℤ}
use homelab_evidence_mcp.Prelude.Table
use homelab_evidence_mcp.Prelude.Table.{Table, lookup}
use homelab_evidence_mcp.Redaction.Engine.{Rule, Engine, new_engine}
use homelab_evidence_mcp.Http.Client.{
  LockedClient, RegisterError, new_locked_client, register_destination,
}
use homelab_evidence_mcp.Evidence.{Time}
use homelab_evidence_mcp.Evidence.Cache.{Cache, new_cache}
use homelab_evidence_mcp.Config.Types.{Config, Source, Service, RedactRule}
use homelab_evidence_mcp.Config.Source.{is_empty, auth_headers}
use homelab_evidence_mcp.Config.Service.{has_any_binding}
use homelab_evidence_mcp.Config.Parse.{Outside}
use homelab_evidence_mcp.Config.Parse.Rules.{rule_of}
use homelab_evidence_mcp.Config.Files.{FileSystem, UrlExtras, resolve_token, load_extra_cert_pool}
use homelab_evidence_mcp.Registry.{Registry, new_registry}
use homelab_evidence_mcp.Server.Budget.{ToolBudget, new_tool_budget}

-- The client of one source; the HTTP client and the engine are those of the program. The clients
-- for logs and messages have a limit on the bytes of a line.
pub record Client : Type 0 where
  pub dest_name : Text
  pub headers : Table Text

pub record LineClient : Type 0 where
  pub dest_name : Text
  pub headers : Table Text
  pub max_line_bytes : ℤ

pub record Clients : Type 0 where
  pub gatus : Table Client
  pub docker : Table Client
  pub loki : Table LineClient
  pub healthchecks : Table Client
  pub beszel : Table Client
  pub ntfy : Table LineClient

-- The parts of `App` that are made here; the loggers are left out.
pub record App (Regexp : Type 0) : Type 0 where
  pub cfg : Config
  pub registry : Registry
  pub http : LockedClient
  pub redact : Engine Regexp
  pub cache : Cache
  pub clients : Clients
  pub budget : ToolBudget

pub data AppError : Type 0 where
  token_failed : Text → Text → AppError
  healthchecks_token_required : Text → AppError
  bad_rules : AppError
  bad_certificates : Text → AppError
  bad_destination : Text → RegisterError → AppError

-- What the start of the program takes from outside.
pub record World (Regexp : Type 0) : Type 0 where
  pub outside : Outside Regexp
  pub urls : UrlExtras
  pub files : FileSystem
  pub getenv : Text → Text
  pub has_certificates : Text → Bool
  pub key_ok : Bool
  pub user_agent : Text
  pub now : Time

-- strings.Cut(token, " ")
unfoldable pub cut_space : Text → Option (Text × Text)
cut_space [] = none
cut_space (c ∷ s) =
    if c == 32
    then some ([], s)
    else elim (cut_space s) [ none ↦ none | some (before, after) ↦ some (c ∷ before, after) ]

abbrev pub hide_rule : Text → Rule
hide_rule s = record { exact = s; regex = [] }

module _ {Regexp : Type 0} (w : World Regexp) where
  -- The rules that hide a token: itself, and its value after a scheme.
  unfoldable pub token_rules : Text → List Rule
  unfolding cut_space
  token_rules token =
      if is_empty token
      then []
      else hide_rule token ∷ (elim (cut_space token) [
        | none ↦ []
        | some (scheme, value) ↦
            if w.outside.lib.equal_fold scheme (ascii "bearer")
              || w.outside.lib.equal_fold scheme (ascii "basic")
            then hide_rule (w.outside.lib.trim_space value) ∷ []
            else []
      ])

  abbrev pub token_of : Source → Text ⊎ Text
  token_of src = resolve_token w.outside.lib w.urls w.files w.getenv src

  -- The first loop over the sources: their tokens and the rules.
  unfoldable pub resolve_loop :
      Table Source → Table Text → List Rule → AppError ⊎ (Table Text × List Rule)
  unfolding token_rules
  resolve_loop [] tokens rules = inr (tokens, rules)
  resolve_loop ((name, src) ∷ rest) tokens rules = elim (token_of src) [
    | inl e ↦ inl (token_failed name e)
    | inr token ↦
        if text_beq src.kind (ascii "healthchecks") && is_empty token
        then inl (healthchecks_token_required name)
        else resolve_loop rest (Table.put name token tokens) (rules ++ token_rules token)
  ]

  -- The client of a source, in the table of its kind.
  unfoldable pub add_client : ℤ → Text → Text → Table Text → Clients → Clients
  add_client line_bytes kind name headers c =
      let plain : Client = record { dest_name = name; headers = headers } in
      let lines : LineClient = record {
        dest_name = name;
        headers = headers;
        max_line_bytes = line_bytes;
      } in
      if text_beq kind (ascii "gatus")
      then record c { gatus = Table.put name plain c.gatus }
      else if text_beq kind (ascii "docker")
      then record c { docker = Table.put name plain c.docker }
      else if text_beq kind (ascii "loki")
      then record c { loki = Table.put name lines c.loki }
      else if text_beq kind (ascii "healthchecks")
      then record c { healthchecks = Table.put name plain c.healthchecks }
      else if text_beq kind (ascii "beszel")
      then record c { beszel = Table.put name plain c.beszel }
      else if text_beq kind (ascii "ntfy")
      then record c { ntfy = Table.put name lines c.ntfy }
      else c

  abbrev token_at : Text → Table Text → Text
  token_at name tokens = elim (lookup name tokens) [ none ↦ [] | some t ↦ t ]

  -- The second loop over the sources: the destinations and the clients.
  unfoldable pub register_loop :
      ℤ → Table Text → Table Source → LockedClient → Clients → AppError ⊎ (LockedClient × Clients)
  unfolding add_client
  register_loop line_bytes tokens [] http clients = inr (http, clients)
  register_loop line_bytes tokens ((name, src) ∷ rest) http clients =
      elim (register_destination w.outside.lib name src.base_url http) [
        | inl e ↦ inl (bad_destination name e)
        | inr next ↦ register_loop line_bytes tokens rest next (
            add_client line_bytes src.kind name
              (auth_headers w.outside.lib src (token_at name tokens)) clients)
      ]

  abbrev pub no_clients : Clients
  no_clients = record {
    gatus = [];
    docker = [];
    loki = [];
    healthchecks = [];
    beszel = [];
    ntfy = [];
  }

  -- The HTTP client before any destination.
  abbrev pub first_http : Config → LockedClient
  first_http cfg = new_locked_client w.key_ok (record {
    max_body = cfg.limits.max_body_bytes;
    user_agent = w.user_agent;
    cache_ttl = cfg.limits.source_cache_ttl;
  })

  abbrev pub assemble : Config → Engine Regexp → LockedClient → Clients → App Regexp
  assemble cfg engine http clients = record {
    cfg = cfg;
    registry = new_registry cfg.services;
    http = http;
    redact = engine;
    cache =
        new_cache cfg.limits.evidence_cache_ttl cfg.limits.evidence_cache_max
          cfg.limits.evidence_cache_max_bytes;
    clients = clients;
    budget =
        new_tool_budget cfg.limits.max_tool_calls_per_minute cfg.limits.max_concurrent_tools w.now;
  }

  -- The steps after the tokens: the engine, the certificates, the client and the rest.
  unfoldable pub build_app : Config → Table Text → Engine Regexp → AppError ⊎ App Regexp
  unfolding register_loop
  build_app cfg tokens engine = elim (load_extra_cert_pool w.has_certificates w.files cfg.ca_file) [
    | inl e ↦ inl (bad_certificates e)
    | inr roots ↦
        elim (register_loop cfg.limits.max_log_line_bytes tokens cfg.sources (first_http cfg)
          no_clients) [
            | inl e ↦ inl e
            | inr (registered, clients) ↦ inr (assemble cfg engine registered clients)
          ]
  ]

  unfoldable pub new_app : Config → AppError ⊎ App Regexp
  unfolding resolve_loop build_app
  new_app cfg = elim (resolve_loop cfg.sources [] []) [
    | inl e ↦ inl e
    | inr (tokens, rules) ↦
        elim (new_engine w.outside.compile w.outside.find_all (rules ++ map rule_of cfg.redact)) [
          | none ↦ inl bad_rules
          | some engine ↦ build_app cfg tokens engine
        ]
  ]

pub data Warning : Type 0 where
  no_bindings : Text → Warning
  no_services : Warning

-- What `NewApp` warns of in the log.
unfoldable pub warnings : Config → List Warning
warnings cfg =
    if not cfg.limits.warn_empty_bindings
    then []
    else map (λ (s : Service). no_bindings s.id) (keep (λ s. not (has_any_binding s)) cfg.services)
      ++ (if leb (length cfg.services) 0 then no_services ∷ [] else [])
