-- ===== src/Redaction/Search.antt =====
-- `strings.HasPrefix`, `strings.Index` and `strings.Contains`.
use homelab_evidence_mcp.Prelude.{
  ℕ, zero, suc, ◌+◌, ◌≤◌, ◌<◌, ◌≡◌, refl, Bool, true, false, ◌&&◌, [], ◌∷◌, ◌++◌, Option, none,
  some, Text, nat_eq, nat_beq, if◌then◌else◌, arith, length, drop, ap, ◌∙◌, sym, ◌-◌,
}

unfoldable pub has_prefix : Text → Text → Bool
has_prefix s [] = true
has_prefix [] (p ∷ ps) = false
has_prefix (c ∷ s) (p ∷ ps) = nat_beq c p && has_prefix s ps

-- The first position at which `part` stands in the text.
unfoldable pub index : Text → Text → Option ℕ
unfolding has_prefix
index [] part = if has_prefix [] part then some 0 else none
index (c ∷ s) part =
    let rest = index s part in
    if has_prefix (c ∷ s) part then some 0 else (elim rest [ none ↦ none | some i ↦ some (suc i) ])

unfoldable pub contains : Text → Text → Bool
unfolding index
contains s part = elim (index s part) [ none ↦ false | some _ ↦ true ]

pub has_prefix-append : (p s : Text) → has_prefix (p ++ s) p ≡ true
unfolding has_prefix
has_prefix-append [] s = refl
has_prefix-append (c ∷ p) s = ground (arith, has_prefix-append p s)

length-prefix-le : (s part : Text) → has_prefix s part ≡ true → length part ≤ length s
unfolding has_prefix
length-prefix-le s [] h = omega arith
length-prefix-le [] (p ∷ ps) h = absurd (ground arith)
length-prefix-le (c ∷ s) (p ∷ ps) h = ground (arith, length-prefix-le s ps)

index-zero : (c : ℕ) (s part : Text) → index (c ∷ s) part ≡ some 0 → has_prefix (c ∷ s) part ≡ true
unfolding index
index-zero c s part h = ground arith

index-suc :
    (c : ℕ) (s part : Text) (i : ℕ)
    → index (c ∷ s) part ≡ some (suc i)
    → (has_prefix (c ∷ s) part ≡ false) × (index s part ≡ some i)
unfolding index
index-suc c s part i h = ground arith

index-none :
    (c : ℕ) (s part : Text)
    → index (c ∷ s) part ≡ none
    → (has_prefix (c ∷ s) part ≡ false) × (index s part ≡ none)
unfolding index
index-none c s part h = ground arith

index-nil : (part : Text) (i : ℕ) → index [] part ≡ some i → (i ≡ 0) × (has_prefix [] part ≡ true)
unfolding index
index-nil part i h = ground arith

-- The part stands at the index.
pub has_prefix-index :
    (s part : Text) (i : ℕ)
    → index s part ≡ some i
    → (has_prefix (drop i s) part ≡ true) × (i + length part ≤ length s)
has_prefix-index [] part zero h =
    let p = (index-nil part 0 h).1 in (p, omega (arith, length-prefix-le [] part p))
has_prefix-index [] part (suc i) h = absurd (omega (arith, index-nil part (suc i) h))
has_prefix-index (c ∷ s) part zero h =
    let p = index-zero c s part h in (p, omega (arith, length-prefix-le (c ∷ s) part p))
has_prefix-index (c ∷ s) part (suc i) h =
    let ih = has_prefix-index s part i (index-suc c s part i h).1 in (ih.0, omega arith)

-- It stands at no position before the index.
pub index_first :
    (s part : Text) (i j : ℕ) → index s part ≡ some i → j < i → has_prefix (drop j s) part ≡ false
index_first s part zero j h lt = absurd (omega arith)
index_first [] part (suc i) j h lt = absurd (omega (arith, index-nil part (suc i) h))
index_first (c ∷ s) part (suc i) zero h lt = (index-suc c s part i h).0
index_first (c ∷ s) part (suc i) (suc j) h lt =
    index_first s part i j (index-suc c s part i h).1 (omega arith)

-- Without an index the part stands nowhere.
pub index_none :
    (s part : Text) (j : ℕ)
    → index s part ≡ none
    → j ≤ length s
    → has_prefix (drop j s) part ≡ false
index_none [] part zero h le = unfold index in ground arith
index_none [] part (suc j) h le = absurd (omega arith)
index_none (c ∷ s) part zero h le = (index-none c s part h).0
index_none (c ∷ s) part (suc j) h le = index_none s part j (index-none c s part h).1 (omega arith)

drop-nil : (n : ℕ) → drop {A = ℕ} n [] ≡ []
drop-nil zero = refl
drop-nil (suc n) = refl

drop-drop : (a b : ℕ) (s : Text) → drop a (drop b s) ≡ drop (b + a) s
drop-drop a zero s = ap (λ n. drop n s) (omega arith)
drop-drop a (suc b) [] = drop-nil a ∙ sym (drop-nil (suc b + a))
drop-drop a (suc b) (c ∷ s) =
    let step : suc (b + a) ≡ suc b + a = omega arith in
    drop-drop a b s ∙ ap (λ n. drop n (c ∷ s)) step

pub drop-forward :
    (offset p : ℕ) (s : Text) → offset ≤ p → drop (p - offset) (drop offset s) ≡ drop p s
drop-forward offset p s le =
    let sum : offset + (p - offset) ≡ p = omega arith in
    drop-drop (p - offset) offset s ∙ ap (λ n. drop n s) sum
