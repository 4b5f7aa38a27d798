-- ===== src/Redaction/Utf8/Decode.antt =====
-- Writing UTF-8 and reading it back.
use homelab_evidence_mcp.Prelude.{
  ℕ, zero, suc, ◌-◌, ◌≤◌, ◌<◌, ◌≡◌, refl, ap, ◌∙◌, Bool, true, List, [], ◌∷◌, ◌++◌, map, some, Text,
  arith, length, drop, ltb, ◌||◌, length-append, All,
}
use homelab_evidence_mcp.Redaction.Utf8.{
  decode_rune, encode_rune, rune, chunks_from, chunks, encode_all, between,
}

-- A rune that UTF-8 can hold.
abbrev pub is_scalar : ℕ → Bool
is_scalar r = ltb r 0xD800 || between 0xE000 0x10FFFF r

head : Text → ℕ
head [] = 0
head (b ∷ _) = b

tail : Text → Text
tail [] = []
tail (_ ∷ rest) = rest

decode_rune-encode_rune :
    (r : ℕ) (rest : Text)
    → is_scalar r ≡ true
    → decode_rune (head (encode_rune r ++ rest)) (tail (encode_rune r ++ rest))
      ≡ some (r, length (encode_rune r))
unfolding decode_rune encode_rune head tail
decode_rune-encode_rune r rest h = ground arith

head-tail :
    (r : ℕ) (rest : Text)
    → encode_rune r ++ rest ≡ head (encode_rune r ++ rest) ∷ tail (encode_rune r ++ rest)
unfolding encode_rune head tail
head-tail r rest = ground arith

drop-tail :
    (r : ℕ) (rest : Text) → drop (length (encode_rune r) - 1) (tail (encode_rune r ++ rest)) ≡ rest
unfolding encode_rune tail
drop-tail r rest = ground arith

pub length-encode_rune : (r : ℕ) → (0 < length (encode_rune r)) × (length (encode_rune r) ≤ 4)
unfolding encode_rune
length-encode_rune r = ground arith

chunks_from-encode_rune :
    (f r : ℕ) (rest : Text)
    → is_scalar r ≡ true
    → chunks_from (suc f) (encode_rune r ++ rest)
      ≡ (rune r, length (encode_rune r)) ∷ chunks_from f rest
unfolding chunks_from
chunks_from-encode_rune f r rest h =
    ap (chunks_from (suc f)) (head-tail r rest)
    ∙ ground (arith, decode_rune-encode_rune r rest h, drop-tail r rest)

abbrev pub AreScalar : List ℕ → Type 0
AreScalar = All (λ r. is_scalar r ≡ true)

chunks_from-encode_all :
    (f : ℕ) (rs : List ℕ)
    → AreScalar rs
    → length (encode_all rs) ≤ f
    → chunks_from f (encode_all rs) ≡ map (λ r. (rune r, length (encode_rune r))) rs
unfolding encode_all chunks_from
chunks_from-encode_all zero [] s h = refl
chunks_from-encode_all (suc f) [] s h = refl
chunks_from-encode_all zero (r ∷ rs) s h =
    absurd (omega (arith, length-append (encode_rune r) (encode_all rs), length-encode_rune r))
chunks_from-encode_all (suc f) (r ∷ rs) s h =
    chunks_from-encode_rune f r (encode_all rs) s.0
    ∙ ap (◌∷◌ (rune r, length (encode_rune r))) (
        chunks_from-encode_all f rs s.1
          (omega (arith, length-append (encode_rune r) (encode_all rs), length-encode_rune r)))

-- Reading back what was written gives the runes that were written.
pub chunks-encode_all :
    (rs : List ℕ)
    → AreScalar rs
    → chunks (encode_all rs) ≡ map (λ r. (rune r, length (encode_rune r))) rs
unfolding chunks
chunks-encode_all rs s = chunks_from-encode_all (length (encode_all rs)) rs s (omega arith)

-- Every rune that is read is one that UTF-8 can hold, and takes a byte at least.
pub decode_rune-scalar :
    (b r w : ℕ) (rest : Text)
    → decode_rune b rest ≡ some (r, w)
    → (is_scalar r ≡ true) × (0 < w) × (w ≤ suc (length rest))
unfolding decode_rune
decode_rune-scalar b r w rest h = ground arith
