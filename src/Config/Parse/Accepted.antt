-- ===== src/Config/Parse/Accepted.antt =====
-- The configurations that `Parse` accepts, and the texts that it refuses.
use homelab_evidence_mcp.Prelude.{
  ◌≡◌, refl, inl, inr, Bool, false, true, not, ◌||◌, List, [], ◌∷◌, some, Text, ascii, subst, ltb,
  length, All, Bool-cases, Option-cases, ◌≤◌, arith, any, text_less,
}
use homelab_evidence_mcp.Prelude.Int.{pos, equal_ℤ}
use homelab_evidence_mcp.Prelude.Unique.{DistinctBy}
use homelab_evidence_mcp.Prelude.Table.{lookup, keys}
use homelab_evidence_mcp.Prelude.Sort.{sort_stable}
use homelab_evidence_mcp.Redaction.Search.{contains}
use homelab_evidence_mcp.Config.Types.{ValidationError, Config, FileConfig, Service}
use homelab_evidence_mcp.Config.Errors.{error_if-none, all_errors, all_errors-none, checked-inr}
use homelab_evidence_mcp.Config.Limits.Within.{IsWithin, parse_limits-IsWithin}
use homelab_evidence_mcp.Config.Source.{is_empty}
use homelab_evidence_mcp.Config.Service.Bound.{IsBound}
use homelab_evidence_mcp.Config.Parse.{
  Outside, Decoded, malformed, document, end_of_file, another, broken, parser, at_most, disallowed,
  first_disallowed, refusal, of_decoded, config_checks, parse_document, parse, source_loop,
}
use homelab_evidence_mcp.Config.Parse.Loops.{
  AllParsed, source_loop-AllParsed, service_loop-AreNew, length-service_loop, IsRule,
  redact_loop-IsRule, length-redact_loop, length-at_most,
}

-- A text that is refused before it is decoded.
abbrev pub is_refused : Text → Bool
is_refused raw = is_empty raw || (ltb 1048576 (length raw) || any (contains raw) disallowed)

module _ {Regexp : Type 0} (o : Outside Regexp) where
  -- A configuration that the rest of the program may rely on.
  pub record IsAccepted (c : Config) : Type 0 where
    pub version : equal_ℤ c.version (pos 1) ≡ true
    pub limits : IsWithin c.limits
    pub sources : AllParsed o c.sources
    pub services : All (IsBound (parser o) c.sources) c.services
    pub distinct : DistinctBy (λ (s : Service). s.id) c.services
    pub few_services : length c.services ≤ 1000
    pub rules : All (IsRule o) c.redact
    pub few_rules : length c.redact ≤ 128

  true_of_not : (b : Bool) → not b ≡ false → b ≡ true
  true_of_not b h = ground arith

  no_sources : AllParsed o []
  unfolding lookup
  no_sources name s h = ground arith

  parse_document-IsAccepted :
      (fc : FileConfig) (c : Config) → parse_document o fc ≡ inr c → IsAccepted c
  unfolding parse_document config_checks
  parse_document-IsAccepted fc c h =
      let result = checked-inr (all_errors (config_checks o fc).1) (config_checks o fc).0 c h in
      let none_of = all_errors-none (config_checks o fc).1 result.0 in
      let names =
        (at_most 64 (ascii "sources") (ascii "must contain at most 64 sources")
          (sort_stable text_less (keys fc.sources))).0 in
      let sources = (source_loop o fc.sources names []).0 in
      let files =
        at_most 1000 (ascii "services") (ascii "must contain at most 1000 services") fc.services in
      let rules = at_most 128 (ascii "redact") (ascii "must contain at most 128 rules") fc.redact in
      let services = service_loop-AreNew o sources 0 [] files.0 in
      subst IsAccepted result.1 (record {
        version = true_of_not _ (error_if-none _ _ _ none_of.0);
        limits = parse_limits-IsWithin o.parse_duration o.show_duration fc.limits none_of.1.0;
        sources = source_loop-AllParsed o fc.sources names [] no_sources;
        services = services.0;
        distinct = services.1.1;
        few_services = omega (
          arith,
          length-service_loop o sources 0 [] files.0,
          length-at_most 1000 (ascii "services") (ascii "must contain at most 1000 services")
              fc.services,
        );
        rules = redact_loop-IsRule o 0 rules.0;
        few_rules = omega (
          arith,
          length-redact_loop o 0 rules.0,
          length-at_most 128 (ascii "redact") (ascii "must contain at most 128 rules") fc.redact,
        );
      })

  of_decoded-inr :
      (d : Decoded) (c : Config)
      → of_decoded o d ≡ inr c
      → (fc : FileConfig) × ((d ≡ document fc end_of_file) × (parse_document o fc ≡ inr c))
  unfolding of_decoded
  of_decoded-inr (malformed message) c h = ground arith
  of_decoded-inr (document fc (broken message)) c h = ground arith
  of_decoded-inr (document fc another) c h = ground arith
  of_decoded-inr (document fc end_of_file) c h = (fc, (refl, h))

  -- A configuration that `Parse` returns is accepted in every part: version 1, limits within their
  -- bounds, safe sources under good names, at most 1,000 services with distinct identifiers, each
  -- bound to sources of the configuration, and at most 128 redaction rules whose patterns compile.
  pub parse-IsAccepted : (raw : Text) (c : Config) → parse o raw ≡ inr c → IsAccepted c
  unfolding parse
  parse-IsAccepted raw c h = elim (Option-cases (refusal raw)) [
    | inr (es, e) ↦ ground arith
    | inl e ↦
        let found = of_decoded-inr (o.decode raw) c (rw (parse, e) at h) in
        parse_document-IsAccepted found.0 c found.1.1
  ]

  first_disallowed-some :
      (bads : List Text) (raw : Text)
      → any (contains raw) bads ≡ true
      → (bad : Text) × (first_disallowed bads raw ≡ some bad)
  unfolding first_disallowed
  first_disallowed-some [] raw h = ground arith
  first_disallowed-some (bad ∷ rest) raw h = elim (Bool-cases (contains raw bad)) [
    | inl e ↦ rw e (bad, refl)
    | inr e ↦ rw e (first_disallowed-some rest raw (rw e at h))
  ]

  refusal-some :
      (raw : Text) → is_refused raw ≡ true → (e : ValidationError) × (refusal raw ≡ some (e ∷ []))
  unfolding refusal
  refusal-some raw h = elim (Bool-cases (is_empty raw)) [
    | inl e ↦ rw e (_, refl)
    | inr e ↦ elim (Bool-cases (ltb 1048576 (length raw))) [
      | inl long ↦ rw (e, long) (_, refl)
      | inr short ↦
          let found = first_disallowed-some disallowed raw (ground arith) in
          rw (e, short, found.1) (_, refl)
    ]
  ]

  -- A text that is empty, longer than 1 MiB or contains one of the disallowed pieces of template or
  -- include syntax is refused with one error, whatever the decoder would make of it.
  pub parse-refused :
      (raw : Text) → is_refused raw ≡ true → (e : ValidationError) × (parse o raw ≡ inl (e ∷ []))
  unfolding parse
  parse-refused raw h = let found = refusal-some raw h in (found.0, rw (parse, found.1) refl)
