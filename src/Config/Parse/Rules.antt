-- ===== src/Config/Parse/Rules.antt =====
-- The redaction engine of an accepted configuration.
use homelab_evidence_mcp.Prelude.{
  ◌≡◌, refl, inl, inr, List, [], ◌∷◌, ◌++◌, some, Text, text_beq, if◌then◌else◌, All, Bool-cases,
  map,
}
use homelab_evidence_mcp.Redaction.Engine.{
  Rule, Engine, builtins, add_rules, add_builtins, new_engine,
}
use homelab_evidence_mcp.Config.Types.{RedactRule, Config}
use homelab_evidence_mcp.Config.Source.{is_empty}
use homelab_evidence_mcp.Config.Parse.{Outside, parse}
use homelab_evidence_mcp.Config.Parse.Loops.{IsRule}
use homelab_evidence_mcp.Config.Parse.Accepted.{parse-IsAccepted}

abbrev pub rule_of : RedactRule → Rule
rule_of r = record { exact = r.exact; regex = r.regex }

module _ {Regexp : Type 0} (o : Outside Regexp) where
  add_rules-some :
      (rules : List RedactRule) (e : Engine Regexp)
      → All (IsRule o) rules
      → (made : Engine Regexp) × (add_rules o.compile o.find_all (map rule_of rules) e ≡ some made)
  unfolding add_rules
  add_rules-some [] e h = (e, refl)
  add_rules-some (r ∷ rest) e (rule, h) =
      let e' : Engine Regexp =
        if text_beq r.exact [] then e else record e { exact = e.exact ++ r.exact ∷ [] } in
      elim rule.compiles [
        | inl q ↦ rw q (add_rules-some rest e' h)
        | inr (re, q) ↦ elim (Bool-cases (is_empty r.regex)) [
          | inl k ↦ rw k (add_rules-some rest e' h)
          | inr k ↦
              rw (k, q) (add_rules-some rest (record e' { regexps = e'.regexps ++ re ∷ [] }) h)
        ]
      ]

  -- A pattern that compiles.
  abbrev pub Compiles : Text → Type 0
  Compiles p = (re : Regexp) × (o.compile p ≡ some re)

  add_builtins-some :
      (patterns : List Text) (e : Engine Regexp)
      → All Compiles patterns
      → (made : Engine Regexp) × (add_builtins o.compile o.find_all patterns e ≡ some made)
  unfolding add_builtins
  add_builtins-some [] e h = (e, refl)
  add_builtins-some (p ∷ rest) e (c, h) =
      rw (add_builtins, c.1)
        (add_builtins-some rest (record e { regexps = e.regexps ++ c.0 ∷ [] }) h)

  -- Where the built-in patterns compile, the redaction rules of a configuration that `Parse`
  -- accepted always make an engine.
  pub new_engine-parse :
      All Compiles builtins
      → (raw : Text) (c : Config) → parse o raw ≡ inr c
      → (e : Engine Regexp) × (new_engine o.compile o.find_all (map rule_of c.redact) ≡ some e)
  unfolding new_engine
  new_engine-parse compiled raw c h =
      let rules =
        add_rules-some c.redact (record { exact = []; regexps = [] })
          (parse-IsAccepted o raw c h).rules in
      let made = add_builtins-some builtins rules.0 compiled in
      (made.0, rw (new_engine, rules.1) made.1)
