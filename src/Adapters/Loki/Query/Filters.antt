-- ===== src/Adapters/Loki/Query/Filters.antt =====
-- How Loki reads the filters of a query: a filter is a double-quoted string, in which a backslash
-- takes the next byte as it is.
use homelab_evidence_mcp.Prelude.{
  ℕ, ◌≤◌, ◌≡◌, refl, ◌⊎◌, inl, inr, Bool, false, true, [], ◌∷◌, ◌++◌, Option, none, some, Text,
  ascii, text_beq, text_beq_iff, nat_eq, ◌==◌, if◌then◌else◌, Bool-cases, Sum-cases, Option-cases,
  arith,
}
use homelab_evidence_mcp.Adapters.Loki.Query.{
  replace_byte, escape_logql, has_special, filter_part, text_part, repetitions, regex_part,
  build_query,
}

-- A byte in front of the text that is read.
abbrev pub push : ℕ → Option (Text × Text) → Option (Text × Text)
push c none = none
push c (some (t, rest)) = some (c ∷ t, rest)

-- Reads a string up to its closing quote: its text and what comes after. The flag says that a
-- backslash stands in front.
unfoldable pub read_from : Bool → Text → Option (Text × Text)
read_from escaped [] = none
read_from true (c ∷ rest) = push c (read_from false rest)
read_from false (c ∷ rest) =
    let escaped = read_from true rest in
    let plain = push c (read_from false rest) in
    if c == 34 then some ([], rest) else if c == 92 then escaped else plain

-- A string literal with this text: whatever follows the closing quote is not part of it.
abbrev pub IsLiteral : Text → Text → Type 0
IsLiteral body wanted = (rest : Text) → read_from false (body ++ (34 ∷ rest)) ≡ some (wanted, rest)

-- The part of a query that filters for a text: nothing for the empty text.
abbrev pub IsFilter : Text → Text → Text → Type 0
IsFilter op wanted part =
    ((wanted ≡ []) × (part ≡ []))
    ⊎ ((body : Text) × ((part ≡ filter_part op body) × IsLiteral body wanted))

plain-IsLiteral : (s : Text) → has_special s ≡ false → IsLiteral s s
unfolding read_from
plain-IsLiteral [] h rest = refl
plain-IsLiteral (c ∷ s) h rest = ground (arith, plain-IsLiteral s (ground arith) rest)

escape_logql-IsLiteral : (s : Text) → IsLiteral (escape_logql s) s
unfolding read_from escape_logql replace_byte
escape_logql-IsLiteral [] rest = refl
escape_logql-IsLiteral (c ∷ s) rest = elim (Bool-cases (c == 92)) [
  | inl h ↦ ground (arith, escape_logql-IsLiteral s rest)
  | inr h ↦ elim (Bool-cases (c == 34)) [
    | inl k ↦ ground (arith, escape_logql-IsLiteral s rest)
    | inr k ↦ ground (arith, escape_logql-IsLiteral s rest)
  ]
]

body-IsLiteral : (s : Text) → IsLiteral (if has_special s then escape_logql s else s) s
body-IsLiteral s = elim (Bool-cases (has_special s)) [
  | inl h ↦ rw (h) (escape_logql-IsLiteral s)
  | inr h ↦ rw (h) (plain-IsLiteral s h)
]

text_part-IsFilter :
    (wanted part : Text) → text_part wanted ≡ inr part → IsFilter (ascii "|=") wanted part
unfolding text_part
text_part-IsFilter wanted part h = elim (Bool-cases (text_beq wanted [])) [
  | inl e ↦ inl ((text_beq_iff wanted []).0 e, ground arith)
  | inr e ↦ inr (_, (ground arith, body-IsLiteral wanted))
]

module _ {Regexp : Type 0} (trim_space : Text → Text) (compile : Text → Option Regexp) where
  regex_part-IsFilter :
      (wanted part : Text)
      → regex_part trim_space compile wanted ≡ inr part
      → IsFilter (ascii "|~") wanted part × (repetitions wanted ≤ 8)
  unfolding regex_part
  regex_part-IsFilter wanted part h = elim (Bool-cases (text_beq wanted [])) [
    | inl e ↦
        let empty : wanted ≡ [] = (text_beq_iff wanted []).0 e in
        (inl (empty, ground arith), rw (empty) (omega arith))
    | inr e ↦ elim (Option-cases (compile wanted)) [
      | inl k ↦ ground arith
      | inr (re, k) ↦
          (inr (escape_logql wanted, (ground arith, escape_logql-IsLiteral wanted)), ground arith)
    ]
  ]

  -- A query that `buildQuery` makes is the trimmed selector and one filter for each text that
  -- is given; the filter is one string literal that reads back as just that text, so no
  -- search text or expression ends its literal early; and an expression has at most eight
  -- signs of repetition.
  pub build_query_lem :
      (selector text rx q : Text)
      → build_query trim_space compile selector text rx ≡ inr q
      → (a : Text) × ((b : Text) × ((q ≡ trim_space selector ++ (a ++ b))
            × (IsFilter (ascii "|=") text a × (IsFilter (ascii "|~") rx b × (repetitions rx ≤ 8)))))
  unfolding build_query
  build_query_lem selector text rx q h = elim (Sum-cases (text_part text)) [
    | inl (e, k) ↦ ground arith
    | inr (a, k) ↦ elim (Sum-cases (regex_part trim_space compile rx)) [
      | inl (e, l) ↦ ground arith
      | inr (b, l) ↦
          (a, (b, (ground arith, (text_part-IsFilter text a k, regex_part-IsFilter rx b l))))
    ]
  ]
