-- ===== src/Server/App/Secrets.antt =====
-- The tokens of the sources in the engine that `NewApp` makes.
use homelab_evidence_mcp.Prelude.{
  ℕ, ◌≡◌, refl, sym, ap, ◌∙◌, inl, inr, false, List, [], ◌∷◌, ◌++◌, Option, some, Text, text_beq,
  if◌then◌else◌, Bool-cases, Option-cases, Sum-cases, subst, arith, map, length,
}
use mathlib.Core.List.{append_assoc, append-nil}
use homelab_evidence_mcp.Prelude.Table
use homelab_evidence_mcp.Prelude.Table.{Table}
use homelab_evidence_mcp.Redaction.Engine.{
  Rule, Engine, builtins, add_rules, add_builtins, new_engine, marks_of,
}
use homelab_evidence_mcp.Redaction.Engine.Secrets.{Touched, StandsAt}
use homelab_evidence_mcp.Redaction.Engine.Patterns.{marks_of-Touched}
use homelab_evidence_mcp.Config.Types.{Config, Source}
use homelab_evidence_mcp.Config.Source.{is_empty}
use homelab_evidence_mcp.Config.Parse.Rules.{rule_of}
use homelab_evidence_mcp.Server.App.Parts.{new_app-inr, build_app-inr}
use homelab_evidence_mcp.Server.App.{
  App, World, hide_rule, token_rules, token_of, resolve_loop, new_app,
}

-- The texts of the exact rules, in their order.
abbrev exacts : List Rule → List Text
exacts [] = []
exacts (r ∷ rest) = if is_empty r.exact then exacts rest else r.exact ∷ exacts rest

exacts-append : (a b : List Rule) → exacts (a ++ b) ≡ exacts a ++ exacts b
exacts-append [] b = refl
exacts-append (r ∷ a) b = ground (arith, exacts-append a b)

module _ {Regexp : Type 0} (compile : Text → Option Regexp)
    (find_all : Regexp → Text → List (ℕ × ℕ)) where
  add_rules-exact :
      (rules : List Rule) (e made : Engine Regexp)
      → add_rules compile find_all rules e ≡ some made
      → made.exact ≡ e.exact ++ exacts rules
  unfolding add_rules
  add_rules-exact [] e made h = ground (arith, append-nil e.exact)
  add_rules-exact (r ∷ rest) e made h =
      let e' : Engine Regexp =
        if text_beq r.exact [] then e else record e { exact = e.exact ++ r.exact ∷ [] } in
      let grown : e'.exact ++ exacts rest ≡ e.exact ++ exacts (r ∷ rest) =
        elim (Bool-cases (text_beq r.exact [])) [
          | inl q ↦ rw q refl
          | inr q ↦ rw q (append_assoc e.exact (r.exact ∷ []) (exacts rest))
        ] in
      elim (Bool-cases (text_beq r.regex [])) [
        | inl q ↦ add_rules-exact rest e' made (rw (add_rules, q) at h) ∙ grown
        | inr q ↦ elim (Option-cases (compile r.regex)) [
          | inl k ↦ ground arith
          | inr (re, k) ↦
              add_rules-exact rest (record e' { regexps = e'.regexps ++ re ∷ [] }) made
                (rw (add_rules, q, k) at h)
              ∙ grown
        ]
      ]

  add_builtins-exact :
      (patterns : List Text) (e made : Engine Regexp)
      → add_builtins compile find_all patterns e ≡ some made
      → made.exact ≡ e.exact
  unfolding add_builtins
  add_builtins-exact [] e made h = ground arith
  add_builtins-exact (p ∷ rest) e made h = elim (Option-cases (compile p)) [
    | inl k ↦ ground arith
    | inr (re, k) ↦
        add_builtins-exact rest (record e { regexps = e.regexps ++ re ∷ [] }) made
          (rw (add_builtins, k) at h)
  ]

  new_engine-exact :
      (rules : List Rule) (made : Engine Regexp)
      → new_engine compile find_all rules ≡ some made
      → made.exact ≡ exacts rules
  unfolding new_engine
  new_engine-exact rules made h =
      elim (Option-cases (add_rules compile find_all rules (record { exact = []; regexps = [] }))) [
        | inl k ↦ ground arith
        | inr (e, k) ↦
            add_builtins-exact builtins e made (rw (new_engine, k) at h)
            ∙ add_rules-exact rules (record { exact = []; regexps = [] }) e k
      ]

module _ {Regexp : Type 0} (w : World Regexp) where
  -- The rules of the sources that come later stand after those of the earlier ones.
  resolve_loop-grows :
      (sources : Table Source) (tokens made : Table Text) (rules all : List Rule)
      → resolve_loop w sources tokens rules ≡ inr (made, all)
      → (more : List Rule) × (all ≡ rules ++ more)
  unfolding resolve_loop
  resolve_loop-grows [] tokens made rules all h = ([], ground (arith, append-nil rules))
  resolve_loop-grows ((name, src) ∷ rest) tokens made rules all h =
      elim (Sum-cases (token_of w src)) [
        | inl (e, q) ↦ ground arith
        | inr (t, q) ↦
            let next : resolve_loop w rest (Table.put name t tokens) (rules ++ token_rules w t)
                ≡ inr (made, all) =
              ground arith in
            let found =
              resolve_loop-grows rest (Table.put name t tokens) made (rules ++ token_rules w t) all
                next in
            (token_rules w t ++ found.0, found.1 ∙ append_assoc rules (token_rules w t) found.0)
      ]

  token_rules-first :
      (t : Text) → is_empty t ≡ false → (more : List Rule) × (token_rules w t ≡ hide_rule t ∷ more)
  unfolding token_rules
  token_rules-first t k = rw (token_rules, k) (_, refl)

  resolve_loop-hides :
      (before after : Table Source) (name : Text) (src : Source) (tokens made : Table Text)
      (rules all : List Rule) (t : Text)
      → resolve_loop w (before ++ (name, src) ∷ after) tokens rules ≡ inr (made, all)
      → token_of w src ≡ inr t
      → is_empty t ≡ false
      → (a b : List Text) × (exacts all ≡ a ++ t ∷ b)
  unfolding resolve_loop
  resolve_loop-hides [] after name src tokens made rules all t h q k =
      let first = token_rules-first t k in
      let next : resolve_loop w after (Table.put name t tokens) (rules ++ token_rules w t)
          ≡ inr (made, all) =
        ground arith in
      let found =
        resolve_loop-grows after (Table.put name t tokens) made (rules ++ token_rules w t) all
          next in
      let rest : List Rule = first.0 ++ found.0 in
      let whole : all ≡ rules ++ hide_rule t ∷ rest =
        found.1
        ∙ ap (λ r. (rules ++ r) ++ found.0) first.1
        ∙ append_assoc rules (hide_rule t ∷ first.0) found.0 in
      let shown : exacts (hide_rule t ∷ rest) ≡ t ∷ exacts rest = rw k refl in
      (
        exacts rules,
        exacts rest,
        ap exacts whole
            ∙ exacts-append rules (hide_rule t ∷ rest)
            ∙ ap (λ r. exacts rules ++ r) shown,
      )
  resolve_loop-hides ((m, other) ∷ before) after name src tokens made rules all t h q k =
      elim (Sum-cases (token_of w other)) [
        | inl (e, r) ↦ ground arith
        | inr (s, r) ↦
            resolve_loop-hides before after name src (Table.put m s tokens) made
              (rules ++ token_rules w s) all t (ground arith) q k
      ]

  -- In the program that `NewApp` makes, wherever the token of a source, if it is not empty, stands
  -- in a text, the rules of the engine mark at least one byte of it for redaction.
  pub new_app-Touched :
      (cfg : Config) (app : App Regexp) (before after : Table Source) (name : Text) (src : Source)
      (t s : Text) (p : ℕ)
      → new_app w cfg ≡ inr app
      → cfg.sources ≡ before ++ (name, src) ∷ after
      → token_of w src ≡ inr t
      → is_empty t ≡ false
      → StandsAt s t p
      → Touched p (length t) (marks_of w.outside.compile w.outside.find_all app.redact s)
  new_app-Touched cfg app before after name src t s p h split q k at =
      let (tokens, rules, engine, r, n, b) = new_app-inr w cfg app h in
      let (http, clients, registered, same) = build_app-inr w cfg tokens engine app b in
      let split_run = subst (λ x. resolve_loop w x [] [] ≡ inr (tokens, rules)) split r in
      let (a, c, hidden) =
        resolve_loop-hides before after name src [] tokens [] rules t split_run q k in
      let custom = map rule_of cfg.redact in
      let exact : app.redact.exact ≡ a ++ t ∷ (c ++ exacts custom) =
        ap (λ (x : App Regexp). x.redact.exact) (sym same)
        ∙ new_engine-exact w.outside.compile w.outside.find_all (rules ++ custom) engine n
        ∙ exacts-append rules custom
        ∙ ap (λ l. l ++ exacts custom) hidden
        ∙ append_assoc a (t ∷ c) (exacts custom) in
      marks_of-Touched w.outside.compile w.outside.find_all app.redact s t a (c ++ exacts custom) p
        exact k at
