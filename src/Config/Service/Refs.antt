-- ===== src/Config/Service/Refs.antt =====
-- The references to sources that `parseService` accepts.
use homelab_evidence_mcp.Prelude.{
  ◌≡◌, inl, inr, false, true, not, [], ◌∷◌, some, Text, ascii, text_beq_iff, ltb, if◌then◌else◌,
  Bool-cases, Option-cases, arith,
}
use homelab_evidence_mcp.Prelude.Table.{Table, lookup}
use homelab_evidence_mcp.Config.Types.{Source, GatusRef, DockerRef, LokiRef, BeszelRef, NtfyRef}
use homelab_evidence_mcp.Config.Names.{is_topic, rune_length, has_control}
use homelab_evidence_mcp.Config.Errors.{Errors, one, error_if, all_errors, all_errors-none}
use homelab_evidence_mcp.Config.Source.{is_empty}
use homelab_evidence_mcp.Config.Bindings.{
  Parser, check_source_ref, valid_loki_selector, binding_errors, required_errors, parse_gatus,
  parse_docker, parse_loki, parse_beszel, parse_ntfy,
}

-- A name of a source of one kind.
abbrev pub Names : Table Source → Text → Text → Type 0
Names sources kind name = (src : Source) × ((lookup name sources ≡ some src) × (src.kind ≡ kind))

-- A short text of one line that may be shown.
pub record IsShort (s : Text) : Type 0 where
  pub short : ltb 256 (rune_length s) ≡ false
  pub no_control : has_control s ≡ false

pub check_source_ref-none :
    (path name kind : Text) (sources : Table Source)
    → check_source_ref path name kind sources ≡ []
    → Names sources kind name
unfolding check_source_ref
check_source_ref-none path name kind sources h = elim (Option-cases (lookup name sources)) [
  | inl e ↦ ground arith
  | inr (src, e) ↦ (src, (e, ground (arith, text_beq_iff src.kind kind)))
]

pub binding_errors-none : (path s : Text) → binding_errors path s ≡ [] → IsShort s
unfolding binding_errors
binding_errors-none path s h = record { short = ground arith; no_control = ground arith }

required_errors-none :
    (path s : Text) → required_errors path s ≡ [] → (is_empty s ≡ false) × IsShort s
unfolding required_errors
required_errors-none path s h = elim (Bool-cases (is_empty s)) [
  | inl e ↦ ground arith
  | inr e ↦ (e, binding_errors-none path s (rw e at h))
]

-- A reference that names a source of its kind, with a text for it.
abbrev pub IsRef : Table Source → Text → Text → Text → Type 0
IsRef sources kind name text = Names sources kind name × (is_empty text ≡ false × IsShort text)

two-none : (d e : Errors) → all_errors (d ∷ e ∷ []) ≡ [] → (d ≡ []) × (e ≡ [])
two-none d e h = let parts = all_errors-none (d ∷ e ∷ []) h in (parts.0, parts.1.0)

selector_errors-none :
    (p : Parser) (path sel : Text)
    → (if is_empty sel
        then one path (ascii "required")
        else error_if
            (not (valid_loki_selector p sel))
            path
            (ascii "must be a simple label selector {k=\"v\"} with optional |= filters"))
      ≡ []
    → valid_loki_selector p sel ≡ true
selector_errors-none p path sel h = ground arith

module _ (p : Parser) (path : Text) (sources : Table Source) where
  pub parse_gatus-none :
      (raw : GatusRef)
      → (parse_gatus p path sources raw).1 ≡ []
      → IsRef sources (ascii "gatus") raw.source (p.trim_space raw.endpoint_key)
  unfolding parse_gatus
  parse_gatus-none raw h =
      let parts = two-none _ _ h in
      (check_source_ref-none _ _ _ sources parts.0, required_errors-none _ _ parts.1)

  pub parse_docker-none :
      (raw : DockerRef)
      → (parse_docker p path sources raw).1 ≡ []
      → IsRef sources (ascii "docker") raw.source (p.trim_space raw.container_name)
  unfolding parse_docker
  parse_docker-none raw h =
      let parts = two-none _ _ h in
      (check_source_ref-none _ _ _ sources parts.0, required_errors-none _ _ parts.1)

  pub parse_beszel-none :
      (raw : BeszelRef)
      → (parse_beszel p path sources raw).1 ≡ []
      → IsRef sources (ascii "beszel") raw.source (p.trim_space raw.system_name)
  unfolding parse_beszel
  parse_beszel-none raw h =
      let parts = two-none _ _ h in
      (check_source_ref-none _ _ _ sources parts.0, required_errors-none _ _ parts.1)

  pub parse_loki-none :
      (raw : LokiRef)
      → (parse_loki p path sources raw).1 ≡ []
      → Names sources (ascii "loki") raw.source
        × (valid_loki_selector p (p.trim_space raw.selector) ≡ true)
  unfolding parse_loki
  parse_loki-none raw h =
      let parts = two-none _ _ h in
      (check_source_ref-none _ _ _ sources parts.0, selector_errors-none p _ _ parts.1)

  pub parse_ntfy-none :
      (raw : NtfyRef)
      → (parse_ntfy p path sources raw).1 ≡ []
      → Names sources (ascii "ntfy") raw.source × (is_topic (p.trim_space raw.topic) ≡ true)
  unfolding parse_ntfy
  parse_ntfy-none raw h =
      let parts = two-none _ _ h in (check_source_ref-none _ _ _ sources parts.0, ground arith)
