-- ===== src/Redaction/Engine/Secrets.antt =====
-- The marks of the exact rules of internal/redaction/redact.go.
use homelab_evidence_mcp.Prelude.{
  ℕ, zero, suc, ◌+◌, ◌-◌, ◌≤◌, ◌<◌, ◌≡◌, ap, true, false, List, [], ◌∷◌, ◌++◌, some, Text, arith,
  nat_eq, text_beq, ◌==◌, leb, ltb, length, drop, Bool-cases, Option-cases, inl, inr, length-drop,
}
use homelab_evidence_mcp.Redaction.Search.{
  index, has_prefix, has_prefix-index, index_first, index_none, drop-forward,
}
use homelab_evidence_mcp.Redaction.Engine.{Marks, mark, exact_loop, exact_rule, exact_rules}
use homelab_evidence_mcp.Redaction.Engine.Cover.{
  is_marked, IsMarking, Extends, Extends-refl, Extends-trans, mark-IsMarking, mark-Extends,
  mark_range, full_marked,
}

exact_loop-Extends :
    (fuel : ℕ) (s part : Text) (offset : ℕ) (m : Marks)
    → Extends m (exact_loop fuel s part offset m)
unfolding exact_loop
exact_loop-Extends zero s part offset m = Extends-refl m
exact_loop-Extends (suc fuel) s part offset m = elim (Option-cases (index (drop offset s) part)) [
  | inl e ↦ rw (e, exact_loop) (Extends-refl m)
  | inr (i, e) ↦
      let start = offset + i in
      let end = start + length part in
      let step =
        Extends-trans (mark-Extends start end m)
          (exact_loop-Extends fuel s part end (mark start end m)) in
      elim (Bool-cases (leb (offset + length part) (length s))) [
        | inl fits ↦ rw (e, exact_loop) (rw fits step)
        | inr ends ↦ rw (e, exact_loop) (rw ends (Extends-refl m))
      ]
]

exact_loop-IsMarking :
    (fuel : ℕ) (s part : Text) (offset : ℕ) (m : Marks)
    → IsMarking s m
    → IsMarking s (exact_loop fuel s part offset m)
unfolding exact_loop
exact_loop-IsMarking zero s part offset m v = v
exact_loop-IsMarking (suc fuel) s part offset m v =
    elim (Option-cases (index (drop offset s) part)) [
      | inl e ↦ rw (e, exact_loop) v
      | inr (i, e) ↦
          let start = offset + i in
          let end = start + length part in
          let step =
            exact_loop-IsMarking fuel s part end (mark start end m)
              (mark-IsMarking s start end m v) in
          elim (Bool-cases (leb (offset + length part) (length s))) [
            | inl fits ↦ rw (e, exact_loop) (rw fits step)
            | inr ends ↦ rw (e, exact_loop) (rw ends v)
          ]
    ]

-- A byte of the range is marked.
abbrev pub Touched : ℕ → ℕ → Marks → Type 0
Touched p n m = (q : ℕ) × (p ≤ q) × (q < p + n) × (is_marked m.redacted q ≡ true)

pub Touched-Extends : {m m' : Marks} (p n : ℕ) → Extends m m' → Touched p n m → Touched p n m'
Touched-Extends p n e (q, lo, hi, h) = (q, lo, hi, e.keeps q h)

-- The part stands at a position of the text.
abbrev pub StandsAt : Text → Text → ℕ → Type 0
StandsAt s part p = (has_prefix (drop p s) part ≡ true) × (p + length part ≤ length s)

-- The next occurrence that the loop finds is not after one that is there.
next-le :
    (s part : Text) (offset p i : ℕ)
    → StandsAt s part p
    → offset ≤ p
    → index (drop offset s) part ≡ some i
    → offset + i ≤ p
next-le s part offset p i at le e = elim (Bool-cases (leb (offset + i) p)) [
  | inl h ↦ ground arith
  | inr h ↦
      let early = index_first (drop offset s) part i (p - offset) e (ground arith) in
      let same = drop-forward offset p s le in
      absurd (ground (arith, early, ap (λ t. has_prefix t part) same))
]

exact_loop-Touched :
    (fuel : ℕ) (s part : Text) (offset p : ℕ) (m : Marks)
    → IsMarking s m
    → 0 < length part
    → StandsAt s part p
    → offset ≤ p
    → length s < fuel + offset
    → Touched p (length part) (exact_loop fuel s part offset m)
unfolding exact_loop
exact_loop-Touched zero s part offset p m v pos at le enough = absurd (omega arith)
exact_loop-Touched (suc fuel) s part offset p m v pos at le enough =
    elim (Option-cases (index (drop offset s) part)) [
      | inl e ↦
          let same = drop-forward offset p s le in
          let absent =
            index_none (drop offset s) part (p - offset) e (omega (arith, length-drop offset s)) in
          absurd (ground (arith, absent, ap (λ t. has_prefix t part) same))
      | inr (i, e) ↦
          let start = offset + i in
          let end = start + length part in
          let first = next-le s part offset p i at le e in
          let found = has_prefix-index (drop offset s) part i e in
          let fits : leb (offset + length part) (length s) ≡ true = ground arith in
          let inside : end ≤ length s = omega (arith, length-drop offset s) in
          elim (Bool-cases (ltb p end)) [
            | inl here ↦
                let touched = mark_range s start end p m v inside first (ground arith) in
                rw (e, exact_loop)
                  (rw fits (
                    Touched-Extends p (length part)
                      (exact_loop-Extends fuel s part end (mark start end m))
                      (p, omega arith, omega arith, touched)))
            | inr later ↦
                rw (e, exact_loop)
                  (rw fits (
                    exact_loop-Touched fuel s part end p (mark start end m)
                      (mark-IsMarking s start end m v) pos at (ground arith) (omega arith)))
          ]
    ]

exact_rule-Extends : (s part : Text) (m : Marks) → Extends m (exact_rule s part m)
unfolding exact_rule
exact_rule-Extends s part m = elim (Bool-cases (text_beq part [])) [
  | inl e ↦ rw e (Extends-refl m)
  | inr e ↦ rw e (exact_loop-Extends (suc (length s)) s part 0 m)
]

exact_rule-IsMarking :
    (s part : Text) (m : Marks) → IsMarking s m → IsMarking s (exact_rule s part m)
unfolding exact_rule
exact_rule-IsMarking s part m v = elim (Bool-cases (text_beq part [])) [
  | inl e ↦ rw e v
  | inr e ↦ rw e (exact_loop-IsMarking (suc (length s)) s part 0 m v)
]

-- A rule marks a byte of each occurrence of its text.
exact_rule-Touched :
    (s part : Text) (p : ℕ) (m : Marks)
    → IsMarking s m
    → text_beq part [] ≡ false
    → StandsAt s part p
    → Touched p (length part) (exact_rule s part m)
unfolding exact_rule text_beq
exact_rule-Touched s [] p m v e at = absurd (ground arith)
exact_rule-Touched s (c ∷ part) p m v e at =
    exact_loop-Touched (suc (length s)) s (c ∷ part) 0 p m v (omega arith) at (omega arith)
      (omega arith)

exact_rules-Extends : (s : Text) (parts : List Text) (m : Marks) → Extends m (exact_rules s parts m)
unfolding exact_rules
exact_rules-Extends s [] m = Extends-refl m
exact_rules-Extends s (part ∷ rest) m =
    let one = exact_rule-Extends s part m in
    let all = Extends-trans one (exact_rules-Extends s rest (exact_rule s part m)) in
    elim (Bool-cases (text_beq part [])) [
      | inl e ↦ rw e all
      | inr e ↦ elim (Bool-cases ((exact_rule s part m).covered == length s)) [
        | inl f ↦ rw e (rw f one)
        | inr f ↦ rw e (rw f all)
      ]
    ]

pub exact_rules-IsMarking :
    (s : Text) (parts : List Text) (m : Marks) → IsMarking s m → IsMarking s (exact_rules s parts m)
unfolding exact_rules
exact_rules-IsMarking s [] m v = v
exact_rules-IsMarking s (part ∷ rest) m v =
    let one = exact_rule-IsMarking s part m v in
    let all = exact_rules-IsMarking s rest (exact_rule s part m) one in
    elim (Bool-cases (text_beq part [])) [
      | inl e ↦ rw e all
      | inr e ↦ elim (Bool-cases ((exact_rule s part m).covered == length s)) [
        | inl f ↦ rw e (rw f one)
        | inr f ↦ rw e (rw f all)
      ]
    ]

-- When the count has reached the length, nothing is left to mark.
full-Touched :
    (s part : Text) (p : ℕ) (m : Marks)
    → IsMarking s m
    → text_beq part [] ≡ false
    → StandsAt s part p
    → (m.covered == length s) ≡ true
    → Touched p (length part) m
unfolding text_beq
full-Touched s [] p m v e at f = absurd (ground arith)
full-Touched s (c ∷ part) p m v e at f = (
  p,
  omega arith,
  omega arith,
  full_marked m.redacted p (ground (arith, v.sized, v.counted)) (ground (arith, v.sized)),
)

pub exact_rules-Touched :
    (s part : Text) (before after : List Text) (p : ℕ) (m : Marks)
    → IsMarking s m
    → text_beq part [] ≡ false
    → StandsAt s part p
    → Touched p (length part) (exact_rules s (before ++ part ∷ after) m)
unfolding exact_rules
exact_rules-Touched s part [] after p m v e at =
    let m' = exact_rule s part m in
    let now = exact_rule-Touched s part p m v e at in
    elim (Bool-cases (m'.covered == length s)) [
      | inl f ↦ rw e (rw f now)
      | inr f ↦ rw e (rw f (Touched-Extends p (length part) (exact_rules-Extends s after m') now))
    ]
exact_rules-Touched s part (x ∷ before) after p m v e at =
    let m' = exact_rule s x m in
    let v' = exact_rule-IsMarking s x m v in
    let later = exact_rules-Touched s part before after p m' v' e at in
    elim (Bool-cases (text_beq x [])) [
      | inl g ↦ rw g later
      | inr g ↦ elim (Bool-cases (m'.covered == length s)) [
        | inl f ↦ rw g (rw f (full-Touched s part p m' v' e at f))
        | inr f ↦ rw g (rw f later)
      ]
    ]
