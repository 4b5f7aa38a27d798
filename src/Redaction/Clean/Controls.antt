-- ===== src/Redaction/Clean/Controls.antt =====
-- The characters of what `SanitizeControl` of internal/redaction/redact.go returns.
use homelab_evidence_mcp.Prelude.{
  ℕ, zero, suc, ◌-◌, ◌≡◌, refl, Bool, true, false, not, List, [], ◌∷◌, map, Text, arith, length,
  drop, ◌||◌, ◌&&◌, text_beq, ascii, inl, inr, All, Option-cases, ◌==◌, nat_eq,
}
use homelab_evidence_mcp.Redaction.Utf8.{
  decode_rune, encode_rune, Chunk, rune, bad, value, chunks_from, chunks,
}
use homelab_evidence_mcp.Redaction.Utf8.Decode.{
  is_scalar, AreScalar, decode_rune-scalar, chunks-encode_all,
}
use homelab_evidence_mcp.Redaction.Clean.{
  is_control, sanitize_rune, sanitize_control, to_valid_utf8,
}

-- A rune of valid text that is no control character, or is a tab, a line feed or a carriage return.
abbrev pub is_clean : Chunk → Bool
is_clean (rune r) = is_scalar r && (r == 9 || (r == 10 || (r == 13 || not (is_control r))))
is_clean (bad b) = false

pub chunks_from-scalar :
    (f : ℕ) (s : Text) → All (λ (c : Chunk × ℕ). is_scalar (value c.0) ≡ true) (chunks_from f s)
unfolding chunks_from value
chunks_from-scalar zero s = tt
chunks_from-scalar (suc f) [] = tt
chunks_from-scalar (suc f) (b ∷ rest) = elim (Option-cases (decode_rune b rest)) [
  | inl e ↦ rw (e, chunks_from) (refl, chunks_from-scalar f rest)
  | inr ((r, w), e) ↦
      rw (e, chunks_from)
        ((decode_rune-scalar b r w rest e).0, chunks_from-scalar f (drop (w - 1) rest))
]

pub chunks-scalar : (s : Text) → All (λ (c : Chunk × ℕ). is_scalar (value c.0) ≡ true) (chunks s)
unfolding chunks
chunks-scalar s = chunks_from-scalar (length s) s

sanitize_rune-clean : (r : ℕ) → is_scalar r ≡ true → is_clean (rune (sanitize_rune r)) ≡ true
unfolding sanitize_rune is_control
sanitize_rune-clean r h = ground arith

sanitized-clean :
    (cs : List (Chunk × ℕ))
    → All (λ (c : Chunk × ℕ). is_scalar (value c.0) ≡ true) cs
    → All (λ r. is_clean (rune r) ≡ true) (map (λ c. sanitize_rune (value c.0)) cs)
sanitized-clean [] h = tt
sanitized-clean (c ∷ cs) h = (sanitize_rune-clean (value c.0) h.0, sanitized-clean cs h.1)

clean-scalar : (rs : List ℕ) → All (λ r. is_clean (rune r) ≡ true) rs → AreScalar rs
clean-scalar [] h = tt
clean-scalar (r ∷ rs) h = (ground arith, clean-scalar rs h.1)

clean-map :
    (rs : List ℕ)
    → All (λ r. is_clean (rune r) ≡ true) rs
    → All (λ (c : Chunk × ℕ). is_clean c.0 ≡ true) (map (λ r. (rune r, length (encode_rune r))) rs)
clean-map [] h = tt
clean-map (r ∷ rs) h = (h.0, clean-map rs h.1)

-- Whatever bytes come in, the text that `SanitizeControl` returns is valid UTF-8, and each of its
-- characters is no control character but tab, line feed and carriage return.
pub sanitize_control-clean :
    (s : Text) → All (λ (c : Chunk × ℕ). is_clean c.0 ≡ true) (chunks (sanitize_control s))
unfolding sanitize_control text_beq
sanitize_control-clean [] = unfold chunks in tt
sanitize_control-clean (b ∷ rest) =
    let text = to_valid_utf8 (b ∷ rest) (ascii " ") in
    let rs = map (λ (c : Chunk × ℕ). sanitize_rune (value c.0)) (chunks text) in
    let clean = sanitized-clean (chunks text) (chunks-scalar text) in
    rw (chunks-encode_all rs (clean-scalar rs clean)) (clean-map rs clean)

pub sanitize_control-nil : sanitize_control [] ≡ []
unfolding sanitize_control text_beq
sanitize_control-nil = refl
