-- ===== src/Config/Tests.antt =====
-- Runs of the configuration and its theorems at concrete inputs.
use homelab_evidence_mcp.Prelude.{
  ◌≡◌, refl, inl, inr, true, false, List, [], ◌∷◌, some, Text, ascii, text_beq, text_beq_iff, All,
  ◌&&◌,
}
use homelab_evidence_mcp.Prelude.Table
use homelab_evidence_mcp.Prelude.Table.{Table, lookup}
use homelab_evidence_mcp.Config.Types.{Source, ValidationError}
use homelab_evidence_mcp.Config.Source.{auth_headers, auth_value, has_token}
use homelab_evidence_mcp.Config.Source.Safe.{IsSafe, parse_source-IsSafe}
use homelab_evidence_mcp.Config.Source.Auth.{ChangesCase, auth_headers-parse_source}
use homelab_evidence_mcp.Config.Service.{has_any_binding}
use homelab_evidence_mcp.Config.Parse.{service_loop, parse}
use homelab_evidence_mcp.Config.Parse.Accepted.{
  IsAccepted, parse-IsAccepted, is_refused, parse-refused,
}
use homelab_evidence_mcp.Config.Parse.Rules.{Compiles}
use homelab_evidence_mcp.Config.Files.{
  Info, Handle, FileSystem, UrlExtras, read_limited, load_file, resolve_token,
}
use homelab_evidence_mcp.Config.Files.Checked.{IsPrivate, load_file-IsPrivate}
use homelab_evidence_mcp.Config.Example.{
  parsing, library, source, parsed, service, config, outside, raw, parse_run, source_run,
}

-- Two services with one identifier are refused.
duplicate :
    (service_loop outside config.sources 0 [] (service ∷ service ∷ [])).1
    ≡ record { path = ascii "services[].id"; message = ascii "duplicate service id" } ∷ []
unfolding parsing
duplicate = refl

bound : has_any_binding service ≡ true
unfolding has_any_binding
bound = refl

parse-IsAccepted_example : IsAccepted outside config
parse-IsAccepted_example = parse-IsAccepted outside raw config parse_run

parse_source-IsSafe_example : IsSafe library source parsed
parse_source-IsSafe_example = parse_source-IsSafe library (ascii "cron") source parsed source_run

changes_case : ChangesCase library
changes_case = record {
  lower = λ m n e. e;
  fold = λ m auth e. (text_beq_iff m auth).1 e;
  trim = λ m. refl;
}

distinct : Table.Distinct parsed.headers
unfolding parsing
distinct = (refl, tt)

placed : has_token library source ≡ true
unfolding parsing
placed = refl

given : text_beq (ascii "key") [] ≡ false
unfolding parsing
given = refl

auth_headers-parse_source_example :
    (lookup (ascii "X-Api-Key") (auth_headers library parsed (ascii "key"))
      ≡ some (auth_value library (ascii "X-Api-Key") (ascii "key")))
    × ((n v : Text)
        → lookup n parsed.headers ≡ some v
        → lookup n (auth_headers library parsed (ascii "key")) ≡ some v)
unfolding text_beq
auth_headers-parse_source_example =
    auth_headers-parse_source library changes_case (ascii "cron") source parsed (ascii "key")
      source_run distinct placed given

refused : is_refused (ascii "id: {{ name }}") ≡ true
unfolding parsing
refused = refl

parse-refused_example :
    (e : ValidationError) × (parse outside (ascii "id: {{ name }}") ≡ inl (e ∷ []))
parse-refused_example = parse-refused outside (ascii "id: {{ name }}") refused

all_compile : (patterns : List Text) → All (Compiles outside) patterns
all_compile [] = tt
all_compile (p ∷ patterns) = ((p, refl), all_compile patterns)

abbrev info : Info
info = record { symlink = false; regular = true; identity = 7; size = 10; perm = 384 }

abbrev handle : Handle
handle = record { stat = inr info; content = inr (ascii "version: 1") }

abbrev files : FileSystem
files = record { windows = false; lstat = λ s. inr info; open_file = λ s. inr handle }

load_run : load_file outside files (ascii "config.yaml") ≡ inr config
unfolding parsing
load_run = refl

load_file-IsPrivate_example :
    (f : Handle) × ((st : Info) × ((text : Text) × (IsPrivate files 1048576
            (ascii "config.yaml")
            f
            st
          × ((read_limited 1048577 f ≡ inr text)
              × ((parse outside text ≡ inr config) × IsAccepted outside config)))))
load_file-IsPrivate_example =
    load_file-IsPrivate outside files (ascii "config.yaml") config load_run

abbrev urls : UrlExtras
urls = record { parse_error = λ s. s; opaque = λ u. [] }

abbrev with_file : Source
with_file = record parsed { token_env = []; token_file = ascii "/run/token" }

token_run : resolve_token library urls files (λ s. []) with_file ≡ inr (ascii "version: 1")
unfolding parsing
token_run = refl

flag : (text_beq with_file.token_env [] && text_beq with_file.token_file []) ≡ false
unfolding parsing
flag = refl
