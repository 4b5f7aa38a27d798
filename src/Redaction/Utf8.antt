-- ===== src/Redaction/Utf8.antt =====
-- UTF-8 as Go reads and writes it: a `range` loop over a string, `[]rune(s)`, `string(runes)`.
pub mod Decode
use homelab_evidence_mcp.Prelude.{
  ℕ, zero, suc, ◌+◌, ◌-◌, ◌*◌, ◌/◌, ◌%◌, ◌≡◌, Bool, true, false, ◌&&◌, ◌||◌, List, [], ◌∷◌, ◌++◌,
  Option, none, some, Text, nat_eq, ◌==◌, leb, ltb, if◌then◌else◌, length, drop,
}

abbrev pub between : ℕ → ℕ → ℕ → Bool
between lo hi c = leb lo c && leb c hi

abbrev pub is_continuation : ℕ → Bool
is_continuation c = between 0x80 0xBF c

two_bytes : ℕ → Text → Option (ℕ × ℕ)
two_bytes b (c ∷ _) = if is_continuation c then some (b % 32 * 64 + c % 64, 2) else none
two_bytes b _ = none

three_bytes : ℕ → Text → Option (ℕ × ℕ)
three_bytes b (c ∷ d ∷ _) =
    if between (if b == 0xE0 then 0xA0 else 0x80) (if b == 0xED then 0x9F else 0xBF) c
      && is_continuation d
    then some (b % 16 * 4096 + c % 64 * 64 + d % 64, 3)
    else none
three_bytes b _ = none

four_bytes : ℕ → Text → Option (ℕ × ℕ)
four_bytes b (c ∷ d ∷ e ∷ _) =
    if between (if b == 0xF0 then 0x90 else 0x80) (if b == 0xF4 then 0x8F else 0xBF) c
      && (is_continuation d && is_continuation e)
    then some (b % 8 * 262144 + c % 64 * 4096 + d % 64 * 64 + e % 64, 4)
    else none
four_bytes b _ = none

-- The rune at the head of a text and its width, or `none` where Go reads U+FFFD of width 1.
unfoldable pub decode_rune : ℕ → Text → Option (ℕ × ℕ)
unfolding two_bytes three_bytes four_bytes
decode_rune b rest =
    if ltb b 0x80
    then some (b, 1)
    else if between 0xC2 0xDF b
    then two_bytes b rest
    else if between 0xE0 0xEF b
    then three_bytes b rest
    else if between 0xF0 0xF4 b
    then four_bytes b rest
    else none

-- The text of a rune, as `WriteRune` writes it.
unfoldable pub encode_rune : ℕ → Text
encode_rune r =
    if leb r 0x7F
    then r ∷ []
    else if leb r 0x7FF
    then (0xC0 + r / 64) ∷ (0x80 + r % 64) ∷ []
    else if between 0xD800 0xDFFF r || ltb 0x10FFFF r
    then 0xEF ∷ 0xBF ∷ 0xBD ∷ []
    else if leb r 0xFFFF
    then (0xE0 + r / 4096) ∷ (0x80 + r / 64 % 64) ∷ (0x80 + r % 64) ∷ []
    else (0xF0 + r / 262144) ∷ (0x80 + r / 4096 % 64) ∷ (0x80 + r / 64 % 64) ∷ (0x80 + r % 64) ∷ []

-- What a `range` loop meets: a rune, or a byte that begins none.
pub data Chunk : Type 0 where
  rune : ℕ → Chunk
  bad : ℕ → Chunk

-- The chunks of a text with the width of each, on fuel.
unfoldable pub chunks_from : ℕ → Text → List (Chunk × ℕ)
chunks_from zero s = []
chunks_from (suc f) [] = []
chunks_from (suc f) (b ∷ rest) = elim (decode_rune b rest) [
  | none ↦ (bad b, 1) ∷ chunks_from f rest
  | some (r, w) ↦ (rune r, w) ∷ chunks_from f (drop (w - 1) rest)
]

-- Every chunk takes a byte at least, so the length is enough fuel.
unfoldable pub chunks : Text → List (Chunk × ℕ)
unfolding chunks_from decode_rune
chunks s = chunks_from (length s) s

-- The value that the loop variable takes.
unfoldable pub value : Chunk → ℕ
value (rune r) = r
value (bad b) = 0xFFFD

unfoldable pub encode_all : List ℕ → Text
unfolding encode_rune
encode_all [] = []
encode_all (r ∷ rs) = encode_rune r ++ encode_all rs
