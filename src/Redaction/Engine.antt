-- ===== src/Redaction/Engine.antt =====
-- The engine of internal/redaction/redact.go. `regexp` is an argument: a type of compiled patterns,
-- `compile` for `regexp.Compile` and `find_all` for the ranges of `FindAllStringIndex`.
pub mod Cover
pub mod Secrets
pub mod Render
pub mod Patterns
use homelab_evidence_mcp.Prelude.{
  ℕ, zero, suc, ◌+◌, ◌-◌, Bool, true, false, not, ◌&&◌, ◌||◌, List, [], ◌∷◌, ◌++◌, Option, none,
  some, Text, ascii, nat_eq, text_beq, ◌==◌, leb, ltb, if◌then◌else◌, length, take, drop,
}
use homelab_evidence_mcp.Prelude.Int.{ℤ}
use homelab_evidence_mcp.Redaction.Search.{index}
use homelab_evidence_mcp.Redaction.Clean.{sanitize_control, truncate}

abbrev pub replacement : Text
replacement = ascii "[REDACTED]"

abbrev pub builtins : List Text
builtins =
    ascii
      "(?i)\"(password|passwd|pwd|secret|token|api[_-]?key|authorization|cookie|set-cookie)\"\\s*:\\s*\"(?:\\\\.|[^\"\\\\])*\""
    ∷ ascii "(?i)(((proxy-)?authorization)\\s*[:=]\\s*)?(bearer|basic)\\s+[a-z0-9\\-._~+/]+=*"
    ∷ ascii
        "(?i)(password|passwd|pwd|secret|token|api[_-]?key|authorization|bearer)\\s*[=:]\\s*(\"(?:\\\\.|[^\"\\\\])*\"|'(?:\\\\.|[^'\\\\])*'|\\S+)"
    ∷ ascii "(?i)(ghp|gho|ghu|ghs|ghr)_[A-Za-z0-9]{20,}"
    ∷ ascii "(?i)sk-[A-Za-z0-9]{20,}"
    ∷ ascii "(?i)AKIA[0-9A-Z]{16}"
    ∷ ascii
        "(?is)-----BEGIN (?:RSA |EC |OPENSSH )?PRIVATE KEY-----.*?-----END (?:RSA |EC |OPENSSH )?PRIVATE KEY-----"
    ∷ ascii "[a-zA-Z0-9._%+\\-]+@[a-zA-Z0-9.\\-]+\\.[a-zA-Z]{2,}"
    ∷ ascii "(?i)\\b(set-cookie|cookie)\\s*[:=][ \\t]*[^=\\s;\\r\\n]+=[^\\r\\n]*"
    ∷ []

pub record Rule : Type 0 where
  pub exact : Text
  pub regex : Text

pub record Engine (Regexp : Type 0) : Type 0 where
  pub exact : List Text
  pub regexps : List Regexp

-- The marks, one for each byte, and the number of bytes that are marked.
pub record Marks : Type 0 where
  pub redacted : List Bool
  pub covered : ℕ

-- The loop of `mark` from position `i` on.
unfoldable pub mark_from : ℕ → ℕ → ℕ → List Bool → List Bool × ℕ
mark_from i start end [] = ([], 0)
mark_from i start end (b ∷ bs) =
    let (rest, n) = mark_from (suc i) start end bs in
    if leb start i && (ltb i end && not b) then (true ∷ rest, suc n) else (b ∷ rest, n)

unfoldable pub mark : ℕ → ℕ → Marks → Marks
unfolding mark_from
mark start end m =
    if ltb (length m.redacted) end || leb end start
    then m
    else (let (bs, n) = mark_from 0 start end m.redacted in
        record { redacted = bs; covered = m.covered + n })

-- The loop over the occurrences of one exact rule, on fuel.
unfoldable pub exact_loop : ℕ → Text → Text → ℕ → Marks → Marks
exact_loop zero s part offset m = m
exact_loop (suc fuel) s part offset m = elim (index (drop offset s) part) [
  | none ↦ m
  | some i ↦
      let start = offset + i in
      let end = start + length part in
      let rest = exact_loop fuel s part end (mark start end m) in
      if leb (offset + length part) (length s) then rest else m
]

-- An occurrence takes a byte at least, so a round for each byte and one more are enough.
unfoldable pub exact_rule : Text → Text → Marks → Marks
exact_rule s part m = if text_beq part [] then m else exact_loop (suc (length s)) s part 0 m

unfoldable pub exact_rules : Text → List Text → Marks → Marks
exact_rules s [] m = m
exact_rules s (part ∷ rest) m =
    let m' = exact_rule s part m in
    let later = exact_rules s rest m' in
    if text_beq part [] then later else if m'.covered == length s then m' else later

-- The bytes of `s[a:b]`.
abbrev pub slice : Text → ℕ → ℕ → Text
slice s a b = take (b - a) (drop a s)

-- The loop that writes the output, at position `i`; `start` is where the run of marked bytes
-- began, if the position is in one. It returns what is written, the end of the last run and the
-- number of runs.
unfoldable pub write_from : Text → List Bool → ℕ → Option ℕ → ℕ → Text → ℕ → Text × ℕ × ℕ
write_from s [] i none last out regions = (out, last, regions)
write_from s [] i (some start) last out regions =
    (out ++ (slice s last start ++ replacement), i, suc regions)
write_from s (true ∷ bs) i none last out regions = write_from s bs (suc i) (some i) last out regions
write_from s (true ∷ bs) i (some start) last out regions =
    write_from s bs (suc i) (some start) last out regions
write_from s (false ∷ bs) i none last out regions = write_from s bs (suc i) none last out regions
write_from s (false ∷ bs) i (some start) last out regions =
    write_from s bs (suc i) none i (out ++ (slice s last start ++ replacement)) (suc regions)

unfoldable pub unmarked : Text → List Bool
unmarked [] = []
unmarked (c ∷ s) = false ∷ unmarked s

-- The text with its marked runs replaced, before the last cleaning, and the number of runs.
unfoldable pub render : Text → List Bool → Text × ℕ
unfolding write_from
render s redacted =
    let (out, last, regions) = write_from s redacted 0 none 0 [] 0 in
    if regions == 0 then (s, 0) else (out ++ drop last s, regions)

module _ {Regexp : Type 0} (compile : Text → Option Regexp)
    (find_all : Regexp → Text → List (ℕ × ℕ)) where
  unfoldable pub mark_ranges : List (ℕ × ℕ) → Marks → Marks
  mark_ranges [] m = m
  mark_ranges ((start, end) ∷ rest) m =
      mark_ranges rest (if ltb start end then mark start end m else m)

  unfoldable pub regex_rules : Text → List Regexp → Marks → Marks
  regex_rules s [] m = m
  regex_rules s (re ∷ rest) m =
      let later = regex_rules s rest (mark_ranges (find_all re s) m) in
      if m.covered == length s then m else later

  -- The marks that the rules leave on a text.
  unfoldable pub marks_of : Engine Regexp → Text → Marks
  marks_of e s =
      regex_rules s e.regexps
        (exact_rules s e.exact (record { redacted = unmarked s; covered = 0 }))

  -- `Apply`; the engine may be nil.
  unfoldable pub apply : Option (Engine Regexp) → Text → Text × ℕ
  apply none s = (s, 0)
  apply (some e) s =
      if text_beq s []
      then (s, 0)
      else (let (out, regions) = render s (marks_of e s).redacted in
          (sanitize_control out, regions))

  unfoldable pub apply_and_truncate : Option (Engine Regexp) → Text → ℤ → Text × ℕ × Bool
  apply_and_truncate e s max =
      let (redacted, n) = apply e (sanitize_control s) in
      let (short, cut) = truncate redacted max in (short, n, cut)

  -- The rules that the configuration adds; `none` is the error of `regexp.Compile`.
  unfoldable pub add_rules : List Rule → Engine Regexp → Option (Engine Regexp)
  add_rules [] e = some e
  add_rules (r ∷ rest) e =
      let e' = if text_beq r.exact [] then e else record e { exact = e.exact ++ r.exact ∷ [] } in
      let later = λ (re : Regexp). add_rules rest (record e' { regexps = e'.regexps ++ re ∷ [] }) in
      let skip = add_rules rest e' in
      if text_beq r.regex []
      then skip
      else (elim (compile r.regex) [ none ↦ none | some re ↦ later re ])

  unfoldable pub add_builtins : List Text → Engine Regexp → Option (Engine Regexp)
  add_builtins [] e = some e
  add_builtins (p ∷ rest) e = elim (compile p) [
    | none ↦ none
    | some re ↦ add_builtins rest (record e { regexps = e.regexps ++ re ∷ [] })
  ]

  -- `New`.
  unfoldable pub new_engine : List Rule → Option (Engine Regexp)
  unfolding add_rules add_builtins
  new_engine rules = elim (add_rules rules (record { exact = []; regexps = [] })) [
    | none ↦ none
    | some e ↦ add_builtins builtins e
  ]
