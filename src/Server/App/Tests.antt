-- ===== src/Server/App/Tests.antt =====
-- A start of the program from a configuration with one source, and the theorems on it.
use homelab_evidence_mcp.Prelude.{
  ◌≡◌, refl, inl, inr, true, false, [], ◌∷◌, ◌++◌, Text, ascii, text_beq, text_less, length, arith,
}
use homelab_evidence_mcp.Prelude.Table
use homelab_evidence_mcp.Prelude.Table.{lookup}
use homelab_evidence_mcp.Prelude.Sort.{insert, sort_stable}
use homelab_evidence_mcp.Redaction.Search.{has_prefix, index}
use homelab_evidence_mcp.Redaction.Utf8.{decode_rune, chunks_from, chunks, value}
use homelab_evidence_mcp.Redaction.Clean.{is_control}
use homelab_evidence_mcp.Redaction.Engine.{marks_of, add_rules, add_builtins, new_engine}
use homelab_evidence_mcp.Redaction.Engine.Secrets.{Touched, StandsAt}
use homelab_evidence_mcp.Http.Paths.{split, trim_right, invalid_path}
use homelab_evidence_mcp.Http.Client.{new_locked_client, check_base, register_destination}
use homelab_evidence_mcp.Http.Get.Locked.{IsLocked}
use homelab_evidence_mcp.Evidence.Cache.{new_cache}
use homelab_evidence_mcp.Evidence.Cache.Laws
use homelab_evidence_mcp.Config.Source.{static_headers, auth_headers}
use homelab_evidence_mcp.Config.Service.{has_any_binding}
use homelab_evidence_mcp.Config.Files.{resolve_token, load_extra_cert_pool}
use homelab_evidence_mcp.Config.Example.{parsing, outside, config, parsed}
use homelab_evidence_mcp.Registry.{collect_services, new_registry}
use homelab_evidence_mcp.Server.Budget.{new_tool_budget}
use homelab_evidence_mcp.Server.App.{
  App, World, cut_space, token_rules, resolve_loop, add_client, register_loop, build_app, new_app,
  warnings, token_of,
}
use homelab_evidence_mcp.Server.App.Parts.{new_app-IsReady}
use homelab_evidence_mcp.Server.App.Secrets.{new_app-Touched}

program : Unit {0}
unfolding text_beq text_less lookup Table.put insert sort_stable has_prefix index decode_rune
    chunks_from chunks value is_control add_rules add_builtins new_engine split trim_right
    invalid_path new_locked_client check_base register_destination new_cache static_headers
    auth_headers resolve_token load_extra_cert_pool collect_services new_registry new_tool_budget
    cut_space token_rules resolve_loop add_client register_loop build_app new_app
program = tt

abbrev world : World Text
world = record {
  outside = outside;
  urls = record { parse_error = λ s. s; opaque = λ u. [] };
  files = record {
    windows = false;
    lstat = λ s. inl (ascii "missing");
    open_file = λ s. inl (ascii "missing");
  };
  getenv = λ s. ascii "Bearer abc";
  has_certificates = λ s. false;
  key_ok = true;
  user_agent = ascii "homelab-evidence-mcp/0.1";
  now = 0;
}

rules :
    token_rules world (ascii "basic abc")
    ≡ record { exact = ascii "basic abc"; regex = [] }
      ∷ record { exact = ascii "abc"; regex = [] }
      ∷ []
unfolding program
rules = refl

quiet : warnings config ≡ []
unfolding warnings has_any_binding parsing
quiet = refl

started : (app : App Text) × (new_app world config ≡ inr app)
unfolding program parsing
started = (_, refl)

-- The table of sources has the one source; its token is the value of the environment.
token_run : token_of world parsed ≡ inr (ascii "Bearer abc")
unfolding program
token_run = refl

one_source : config.sources ≡ [] ++ (ascii "cron", parsed) ∷ []
unfolding program parsing
one_source = refl

abbrev message : Text
message = ascii "sent Bearer abc"

given : text_beq (ascii "Bearer abc") [] ≡ false
unfolding program
given = refl

at_five : StandsAt message (ascii "Bearer abc") 5
unfolding program
at_five = (refl, omega arith)

new_app-Touched_example :
    Touched 5
      (length (ascii "Bearer abc"))
      (marks_of world.outside.compile world.outside.find_all started.0.redact message)
new_app-Touched_example =
    new_app-Touched world config started.0 [] [] (ascii "cron") parsed (ascii "Bearer abc") message
      5 started.1 one_source token_run given at_five

new_app-IsReady_example :
    IsLocked started.0.http
    × Laws.IsValid started.0.cache
    × (started.0.registry ≡ new_registry config.services)
new_app-IsReady_example = new_app-IsReady world config started.0 started.1
