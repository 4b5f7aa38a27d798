-- ===== src/Redaction/Clean.antt =====
-- `SanitizeControl`, `Truncate`, `TruncateBytes` and `NeutralizeInstructionLike` of
-- internal/redaction/redact.go.
pub mod Controls
pub mod Lengths
pub mod Instructions
use homelab_evidence_mcp.Prelude.{
  ℕ, zero, suc, ◌+◌, ◌-◌, ◌≡◌, Bool, true, false, not, ◌&&◌, ◌||◌, List, [], ◌∷◌, ◌++◌, map, Text,
  ascii, nat_eq, text_beq, ◌==◌, leb, ltb, if◌then◌else◌, length, take, any,
}
use homelab_evidence_mcp.Prelude.Int.{ℤ, pos, leb_ℤ, ltb_ℤ, pos_part, neg_part}
use homelab_evidence_mcp.Redaction.Utf8.{
  Chunk, rune, bad, chunks, value, encode_rune, encode_all, between,
}
use homelab_evidence_mcp.Redaction.Search.{has_prefix, contains}

-- `strings.ToValidUTF8`: each run of bad bytes becomes one replacement.
unfoldable pub valid_loop : Text → Bool → List (Chunk × ℕ) → Text
valid_loop replacement in_bad [] = []
valid_loop replacement in_bad ((rune r, _) ∷ rest) =
    encode_rune r ++ valid_loop replacement false rest
valid_loop replacement in_bad ((bad b, _) ∷ rest) =
    (if in_bad then [] else replacement) ++ valid_loop replacement true rest

unfoldable pub to_valid_utf8 : Text → Text → Text
unfolding valid_loop
to_valid_utf8 s replacement = valid_loop replacement false (chunks s)

-- `unicode.IsControl`.
unfoldable pub is_control : ℕ → Bool
is_control r = ltb r 32 || between 0x7F 0x9F r

-- The `switch` of `SanitizeControl`.
unfoldable pub sanitize_rune : ℕ → ℕ
unfolding is_control
sanitize_rune r = if r == 9 || (r == 10 || r == 13) then r else if is_control r then 32 else r

unfoldable pub sanitize_control : Text → Text
unfolding to_valid_utf8 sanitize_rune value
sanitize_control s =
    if text_beq s []
    then s
    else encode_all (map (λ c. sanitize_rune (value c.0)) (chunks (to_valid_utf8 s (ascii " "))))

unfoldable pub truncate : Text → ℤ → Text × Bool
truncate s max =
    if leb_ℤ max (pos 0)
    then ([], true)
    else if leb (length (chunks s)) (pos_part max)
    then (s, false)
    else (let runes = map (λ c. value c.0) (chunks s) in
        if ltb (pos_part max) 3
        then (encode_all (take (pos_part max) runes), true)
        else (encode_all (take (pos_part max - 3) runes) ++ ascii "...", true))

-- The loop over the starts of the runes: the last one that is not past the target.
unfoldable pub last_start : ℕ → ℕ → ℕ → List (Chunk × ℕ) → ℕ
last_start index target end [] = end
last_start index target end ((_, w) ∷ rest) =
    let next = last_start (index + w) target index rest in if ltb target index then end else next

unfoldable pub truncate_bytes : Text → ℤ → Text × Bool
unfolding last_start
truncate_bytes s max =
    if leb_ℤ max (pos 0)
    then ([], true)
    else if leb (length s) (pos_part max)
    then (s, false)
    else (let short = ltb (pos_part max) 3 in
        let target = if short then pos_part max else pos_part max - 3 in
        let suffix = if short then [] else ascii "..." in
        let end = last_start 0 target 0 (chunks s) in
        let end' = if end == 0 && leb (length s) target then length s else end in
        (take end' s ++ suffix, true))

abbrev pub untrusted_data_marker : Text
untrusted_data_marker = ascii "[UNTRUSTED_LOG_DATA]"

abbrev pub markers : List Text
markers =
    ascii "ignore previous instructions"
    ∷ ascii "ignore all instructions"
    ∷ ascii "you are now"
    ∷ ascii "execute the following"
    ∷ ascii "run this command"
    ∷ []

-- `strings.ToLower` depends on the tables of Unicode, and is an argument.
unfoldable pub neutralize_instruction_like : (Text → Text) → Text → Text
neutralize_instruction_like to_lower s =
    if text_beq s [] || has_prefix s untrusted_data_marker
    then s
    else if any (contains (to_lower s)) markers
    then untrusted_data_marker ++ (ascii " " ++ s)
    else s
