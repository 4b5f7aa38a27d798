-- ===== src/Redaction/Clean/Lengths.antt =====
-- The limits of `Truncate` and `TruncateBytes`.
use mathlib.Core.List.{append_assoc}
use homelab_evidence_mcp.Prelude.{
  ℕ, zero, suc, ◌+◌, ◌-◌, ◌≤◌, ◌≡◌, refl, ap, ◌∙◌, true, false, List, [], ◌∷◌, ◌++◌, map, Text,
  arith, length, take, total, ltb, ascii, ◌||◌, Bool-cases, inl, inr, length-take, length-append,
  length-map, All, nat_eq, if◌then◌else◌, ◌⊎◌,
}
use homelab_evidence_mcp.Prelude.Int.{ℤ, pos, leb_ℤ, pos_part}
use homelab_evidence_mcp.Redaction.Utf8.{encode_rune, Chunk, value, chunks_from, chunks, encode_all}
use homelab_evidence_mcp.Redaction.Utf8.Decode.{is_scalar, AreScalar, chunks-encode_all}
use homelab_evidence_mcp.Redaction.Clean.Controls.{chunks-scalar}
use homelab_evidence_mcp.Redaction.Clean.{truncate, truncate_bytes, last_start}

-- The number of runes, as `utf8.RuneCountInString` counts them.
abbrev pub rune_count : Text → ℕ
rune_count s = length (chunks s)

take-scalar :
    (n : ℕ) (cs : List (Chunk × ℕ))
    → All (λ (c : Chunk × ℕ). is_scalar (value c.0) ≡ true) cs
    → AreScalar (take n (map (λ c. value c.0) cs))
take-scalar zero cs h = tt
take-scalar (suc n) [] h = tt
take-scalar (suc n) (c ∷ cs) h = (h.0, take-scalar n cs h.1)

scalar-append : (rs qs : List ℕ) → AreScalar rs → AreScalar qs → AreScalar (rs ++ qs)
scalar-append [] qs h k = k
scalar-append (r ∷ rs) qs h k = (h.0, scalar-append rs qs h.1 k)

abbrev dots : List ℕ
dots = 46 ∷ 46 ∷ 46 ∷ []

encode_all-dots : (rs : List ℕ) → encode_all rs ++ ascii "..." ≡ encode_all (rs ++ dots)
unfolding encode_all encode_rune
encode_all-dots [] = refl
encode_all-dots (r ∷ rs) =
    append_assoc (encode_rune r) (encode_all rs) dots
    ∙ ap (λ t. encode_rune r ++ t) (encode_all-dots rs)

rune_count-encode_all : (rs : List ℕ) → AreScalar rs → rune_count (encode_all rs) ≡ length rs
rune_count-encode_all rs h = ap length (chunks-encode_all rs h) ∙ length-map _ rs

rune_count-cut :
    (n : ℕ) (s : Text) → rune_count (encode_all (take n (map (λ c. value c.0) (chunks s)))) ≤ n
rune_count-cut n s =
    let rs = take n (map (λ (c : Chunk × ℕ). value c.0) (chunks s)) in
    omega (
      arith,
      rune_count-encode_all rs (take-scalar n (chunks s) (chunks-scalar s)),
      length-take n (map (λ (c : Chunk × ℕ). value c.0) (chunks s)),
    )

rune_count-cut_dots :
    (n : ℕ) (s : Text)
    → rune_count (encode_all (take n (map (λ c. value c.0) (chunks s))) ++ ascii "...") ≤ n + 3
rune_count-cut_dots n s =
    let rs = take n (map (λ (c : Chunk × ℕ). value c.0) (chunks s)) in
    let scalar =
      scalar-append rs dots (take-scalar n (chunks s) (chunks-scalar s))
        (refl, (refl, (refl, tt))) in
    rw (encode_all-dots rs) (
      omega (
        arith,
        rune_count-encode_all (rs ++ dots) scalar,
        length-append rs dots,
        length-take n (map (λ (c : Chunk × ℕ). value c.0) (chunks s)),
      ))

-- `Truncate` returns no more runes than a positive limit and none otherwise, and it reports a cut
-- just when the text has more runes than the limit, or when there is no positive limit.
pub truncate_lem :
    (s : Text) (max : ℤ)
    → (rune_count (truncate s max).0 ≤ pos_part max)
      × ((truncate s max).1 ≡ (leb_ℤ max (pos 0) || ltb (pos_part max) (rune_count s)))
unfolding truncate chunks chunks_from
truncate_lem s max =
    ground (arith, rune_count-cut (pos_part max) s, rune_count-cut_dots (pos_part max - 3) s)

width : List (Chunk × ℕ) → ℕ
width = total (λ c. c.1)

-- The loop ends at the start of a rune that is not past the target.
last_start-le :
    (index target end : ℕ) (cs : List (Chunk × ℕ))
    → end ≤ target
    → last_start index target end cs ≤ target
unfolding last_start
last_start-le index target end [] h = h
last_start-le index target end ((c, w) ∷ cs) h = elim (Bool-cases (ltb target index)) [
  | inl past ↦ rw past h
  | inr near ↦ rw near (last_start-le (index + w) target index cs (ground arith))
]

last_start_at :
    (index target end : ℕ) (cs : List (Chunk × ℕ))
    → (last_start index target end cs ≡ end)
      ⊎ ((k : ℕ) × (last_start index target end cs ≡ index + width (take k cs)))
unfolding last_start width
last_start_at index target end [] = inl refl
last_start_at index target end ((c, w) ∷ cs) = elim (Bool-cases (ltb target index)) [
  | inl past ↦ inl (rw past)
  | inr near ↦ elim (last_start_at (index + w) target index cs) [
    | inl here ↦ inr (0, rw near (here ∙ omega arith))
    | inr (k, later) ↦ inr (suc k, rw near (later ∙ omega arith))
  ]
]

last_start-boundary :
    (target : ℕ) (cs : List (Chunk × ℕ))
    → (k : ℕ) × (last_start 0 target 0 cs ≡ total (λ c. c.1) (take k cs))
unfolding width
last_start-boundary target cs = elim (last_start_at 0 target 0 cs) [
  | inl start ↦ (0, start)
  | inr (k, later) ↦ (k, later ∙ omega arith)
]

-- `TruncateBytes` returns no more bytes than a positive limit and none otherwise, and it reports a
-- cut just when the text has more bytes than the limit, or when there is no positive limit.
pub truncate_bytes_lem :
    (s : Text) (max : ℤ)
    → (length (truncate_bytes s max).0 ≤ pos_part max)
      × ((truncate_bytes s max).1 ≡ (leb_ℤ max (pos 0) || ltb (pos_part max) (length s)))
unfolding truncate_bytes
truncate_bytes_lem s max =
    let small = last_start 0 (pos_part max) 0 (chunks s) in
    let large = last_start 0 (pos_part max - 3) 0 (chunks s) in
    ground (
      arith,
      last_start-le 0 (pos_part max) 0 (chunks s) (omega arith),
      last_start-le 0 (pos_part max - 3) 0 (chunks s) (omega arith),
      length-append (take small s) [],
      length-append (take large s) (ascii "..."),
      length-take small s,
      length-take large s,
    )

-- With a positive limit and a longer text, what `TruncateBytes` keeps of the text is a number
-- of whole characters, followed by three dots where the limit has room for them.
pub truncate_bytes-boundary :
    (s : Text) (max : ℤ)
    → leb_ℤ max (pos 0) ≡ false
    → ltb (pos_part max) (length s) ≡ true
    → (k : ℕ) × ((truncate_bytes s max).0
        ≡ take (total (λ c. c.1) (take k (chunks s))) s
          ++ (if ltb (pos_part max) 3 then [] else ascii "..."))
unfolding truncate_bytes
truncate_bytes-boundary s max room long =
    let (k, e) =
      last_start-boundary (if ltb (pos_part max) 3 then pos_part max else pos_part max - 3)
        (chunks s) in
    (k, ground (arith, e))
