-- ===== src/Config/Parse/Loops.antt =====
-- What the loops of `Parse` keep: safe sources, bound services with distinct identifiers, and rules
-- whose patterns compile.
use homelab_evidence_mcp.Prelude.{
  ◌≡◌, ◌≢◌, refl, ◌⊎◌, inl, inr, false, true, ◌&&◌, List, [], ◌∷◌, some, Text, ascii, text_beq,
  text_beq_iff, subst, ltb, length, length-append, length-take, All, Bool-cases, Option-cases,
  Sum-cases, ℕ, suc, ◌≤◌, arith,
}
use homelab_evidence_mcp.Prelude.Unique.{DistinctBy}
use homelab_evidence_mcp.Prelude.Table
use homelab_evidence_mcp.Prelude.Table.{Table, lookup, lookup-put}
use homelab_evidence_mcp.Config.Types.{Source, Service, RedactRule}
use homelab_evidence_mcp.Config.Names.{is_listed, is_source_name}
use homelab_evidence_mcp.Config.Errors.{no_errors, no_errors-none}
use homelab_evidence_mcp.Config.Source.{is_empty, parse_source}
use homelab_evidence_mcp.Config.Service.{parse_service}
use homelab_evidence_mcp.Config.Service.Bound.{IsBound, parse_service-IsBound}
use homelab_evidence_mcp.Config.Parse.{
  Outside, parser, path_at, source_at, source_step, source_loop, service_step, service_loop,
  rule_errors, redact_loop, at_most,
}

module _ {Regexp : Type 0} (o : Outside Regexp) where
  -- A source under a good name that `parseSource` accepted.
  abbrev pub IsParsed : Text → Source → Type 0
  IsParsed name s =
      (is_source_name name ≡ true) × ((fs : Source) × (parse_source o.lib name fs ≡ inr s))

  abbrev pub AllParsed : Table Source → Type 0
  AllParsed made = (name : Text) (s : Source) → lookup name made ≡ some s → IsParsed name s

  AllParsed-put :
      (made : Table Source) (name : Text) (s : Source)
      → IsParsed name s
      → AllParsed made
      → AllParsed (Table.put name s made)
  AllParsed-put made name s h all n t k = elim (Bool-cases (text_beq name n)) [
    | inl e ↦
        let same : name ≡ n = (text_beq_iff name n).0 e in
        let found : some s ≡ some t = ground (arith, lookup-put n name s made) in
        let eq : s ≡ t = ground arith in subst (λ x. IsParsed x t) same (subst (IsParsed name) eq h)
    | inr e ↦ all n t (ground (arith, lookup-put n name s made))
  ]

  source_step-AllParsed :
      (files : Table Source) (name : Text) (made : Table Source)
      → AllParsed made
      → AllParsed (source_step o files name made).0
  unfolding source_step
  source_step-AllParsed files name made all = elim (Bool-cases (is_source_name name)) [
    | inr e ↦ rw e all
    | inl e ↦ elim (Sum-cases (parse_source o.lib name (source_at name files))) [
      | inl (es, q) ↦ rw (e, q) all
      | inr (s, q) ↦ rw (e, q) (AllParsed-put made name s (e, (source_at name files, q)) all)
    ]
  ]

  pub source_loop-AllParsed :
      (files : Table Source) (names : List Text) (made : Table Source)
      → AllParsed made
      → AllParsed (source_loop o files names made).0
  unfolding source_loop
  source_loop-AllParsed files [] made all = all
  source_loop-AllParsed files (name ∷ rest) made all =
      source_loop-AllParsed files rest (source_step o files name made).0
        (source_step-AllParsed files name made all)

  -- The services after some identifiers: bound, with new identifiers, each once.
  abbrev AreNew : Table Source → List Text → List Service → Type 0
  AreNew sources seen services =
      All (IsBound (parser o) sources) services
      × (All (λ s. is_listed seen s.id ≡ false) services
          × DistinctBy (λ (s : Service). s.id) services)

  unlisted-tail :
      (c : Text) (seen : List Text) (services : List Service)
      → All (λ s. is_listed (c ∷ seen) s.id ≡ false) services
      → All (λ s. is_listed seen s.id ≡ false) services × All (λ s. c ≢ s.id) services
  unlisted-tail c seen [] h = (tt, tt)
  unlisted-tail c seen (n ∷ services) h =
      let rest : _ × _ = unlisted-tail c seen services h.1 in
      let k : _ ≡ false = h.0 in
      ((ground arith, rest.0), ((λ e. ground (arith, text_beq_iff c n.id)), rest.1))

  -- A step keeps no service, or a bound one with a new identifier.
  service_step-cases :
      (sources : Table Source) (i : ℕ) (seen : List Text) (f : Service)
      → (((service_step o sources i seen f).0 ≡ []) × ((service_step o sources i seen f).1 ≡ seen))
        ⊎ ((s : Service) × (((service_step o sources i seen f).0 ≡ s ∷ [])
              × (((service_step o sources i seen f).1 ≡ s.id ∷ seen)
                  × (IsBound (parser o) sources s × (is_listed seen s.id ≡ false)))))
  unfolding service_step
  service_step-cases sources i seen f =
      elim (Sum-cases (parse_service (parser o) (path_at o (ascii "services") i) sources f)) [
        | inl (es, q) ↦ rw (service_step, q) (inl (refl, refl))
        | inr (s, q) ↦ elim (Bool-cases (is_listed seen s.id)) [
          | inl e ↦ rw (service_step, q, e) (inl (refl, refl))
          | inr e ↦
              rw (service_step, q, e)
                (inr (s, (refl, (refl, (parse_service-IsBound (parser o) _ sources f s q, e)))))
        ]
      ]

  pub service_loop-AreNew :
      (sources : Table Source) (i : ℕ) (seen : List Text) (files : List Service)
      → AreNew sources seen (service_loop o sources i seen files).0
  unfolding service_loop
  service_loop-AreNew sources i seen [] = (tt, (tt, tt))
  service_loop-AreNew sources i seen (f ∷ rest) = elim (service_step-cases sources i seen f) [
    | inl (e, q) ↦ rw (e, q) (service_loop-AreNew sources (suc i) seen rest)
    | inr (s, (e, (q, (bound, new)))) ↦
        let later = service_loop-AreNew sources (suc i) (s.id ∷ seen) rest in
        let tail =
          unlisted-tail s.id seen (service_loop o sources (suc i) (s.id ∷ seen) rest).0 later.1.0 in
        rw (e, q) ((bound, later.0), ((new, tail.0), (tail.1, later.1.1)))
  ]

  length-service_step :
      (sources : Table Source) (i : ℕ) (seen : List Text) (f : Service)
      → length (service_step o sources i seen f).0 ≤ 1
  length-service_step sources i seen f = elim (service_step-cases sources i seen f) [
    | inl (e, q) ↦ rw e (omega arith)
    | inr (s, (e, rest)) ↦ rw e (omega arith)
  ]

  pub length-service_loop :
      (sources : Table Source) (i : ℕ) (seen : List Text) (files : List Service)
      → length (service_loop o sources i seen files).0 ≤ length files
  unfolding service_loop
  length-service_loop sources i seen [] = omega arith
  length-service_loop sources i seen (f ∷ rest) =
      let step = service_step o sources i seen f in
      omega (
        arith,
        length-append step.0 (service_loop o sources (suc i) step.1 rest).0,
        length-service_step sources i seen f,
        length-service_loop sources (suc i) step.1 rest,
      )

  -- A rule that says something and whose pattern compiles.
  pub record IsRule (r : RedactRule) : Type 0 where
    pub given : (is_empty r.exact && is_empty r.regex) ≡ false
    pub compiles : (is_empty r.regex ≡ true) ⊎ ((re : Regexp) × (o.compile r.regex ≡ some re))

  rule_errors-none : (path : Text) (r : RedactRule) → rule_errors o path r ≡ [] → IsRule r
  unfolding rule_errors
  rule_errors-none path r h = record {
    given = ground arith;
    compiles = elim (Bool-cases (is_empty r.regex)) [
      | inl e ↦ inl e
      | inr e ↦ elim (Option-cases (o.compile r.regex)) [
        | inl q ↦ ground arith
        | inr found ↦ inr found
      ]
    ];
  }

  pub redact_loop-IsRule : (i : ℕ) (rules : List RedactRule) → All IsRule (redact_loop o i rules).0
  unfolding redact_loop
  redact_loop-IsRule i [] = tt
  redact_loop-IsRule i (r ∷ rest) =
      elim (Bool-cases (no_errors (rule_errors o (path_at o (ascii "redact") i) r))) [
        | inl e ↦ rw e (rule_errors-none _ r (no_errors-none _ e), redact_loop-IsRule (suc i) rest)
        | inr e ↦ rw e (redact_loop-IsRule (suc i) rest)
      ]

  pub length-redact_loop :
      (i : ℕ) (rules : List RedactRule) → length (redact_loop o i rules).0 ≤ length rules
  unfolding redact_loop
  length-redact_loop i [] = omega arith
  length-redact_loop i (r ∷ rest) =
      elim (Bool-cases (no_errors (rule_errors o (path_at o (ascii "redact") i) r))) [
        | inl e ↦ rw e (omega (arith, length-redact_loop (suc i) rest))
        | inr e ↦ rw e (omega (arith, length-redact_loop (suc i) rest))
      ]

pub length-at_most {ℓ} :
    {A : Type ℓ} (n : ℕ) (path message : Text) (l : List A)
    → length (at_most n path message l).0 ≤ n
unfolding at_most
length-at_most n path message l = elim (Bool-cases (ltb n (length l))) [
  | inl e ↦ rw e (omega (arith, length-take n l))
  | inr e ↦ rw e (ground arith)
]
