-- ===== src/Redaction/Engine/Cover.antt =====
-- Which bytes the rules of the redaction engine mark.
use homelab_evidence_mcp.Prelude.{
  ℕ, zero, suc, ◌+◌, ◌≤◌, ◌<◌, ◌≡◌, refl, Bool, true, false, List, [], ◌∷◌, Text, arith, nat_eq,
  length, count,
}
use homelab_evidence_mcp.Redaction.Engine.{Marks, mark_from, mark}

-- The mark at a position; there is none past the end.
abbrev pub is_marked : List Bool → ℕ → Bool
is_marked [] i = false
is_marked (b ∷ bs) zero = b
is_marked (b ∷ bs) (suc i) = is_marked bs i

abbrev pub marked_count : List Bool → ℕ
marked_count = count (λ b. b)

-- One mark for each byte, and the count is right.
pub record IsMarking (s : Text) (m : Marks) : Type 0 where
  pub sized : length m.redacted ≡ length s
  pub counted : m.covered ≡ marked_count m.redacted

length-mark_from :
    (i start end : ℕ) (bs : List Bool) → length (mark_from i start end bs).0 ≡ length bs
unfolding mark_from
length-mark_from i start end [] = refl
length-mark_from i start end (b ∷ bs) = ground (arith, length-mark_from (suc i) start end bs)

count-mark_from :
    (i start end : ℕ) (bs : List Bool)
    → marked_count (mark_from i start end bs).0 ≡ marked_count bs + (mark_from i start end bs).1
unfolding mark_from
count-mark_from i start end [] = omega arith
count-mark_from i start end (b ∷ bs) = ground (arith, count-mark_from (suc i) start end bs)

marked-mark_from :
    (i start end j : ℕ) (bs : List Bool)
    → is_marked bs j ≡ true
    → is_marked (mark_from i start end bs).0 j ≡ true
unfolding mark_from
marked-mark_from i start end j [] h = h
marked-mark_from i start end zero (b ∷ bs) h = ground arith
marked-mark_from i start end (suc j) (b ∷ bs) h =
    ground (arith, marked-mark_from (suc i) start end j bs h)

fresh-mark_from :
    (i start end j : ℕ) (bs : List Bool)
    → j < length bs
    → start ≤ i + j
    → i + j < end
    → is_marked (mark_from i start end bs).0 j ≡ true
unfolding mark_from
fresh-mark_from i start end j [] h lo hi = absurd (omega arith)
fresh-mark_from i start end zero (b ∷ bs) h lo hi = ground arith
fresh-mark_from i start end (suc j) (b ∷ bs) h lo hi =
    ground (arith, fresh-mark_from (suc i) start end j bs (omega arith) (omega arith) (omega arith))

pub mark-IsMarking :
    (s : Text) (start end : ℕ) (m : Marks) → IsMarking s m → IsMarking s (mark start end m)
unfolding mark
mark-IsMarking s start end m v =
    ground (arith, length-mark_from 0 start end m.redacted, count-mark_from 0 start end m.redacted)

-- What is marked stays marked.
pub record Extends (m m' : Marks) : Type 0 where
  pub keeps : (j : ℕ) → is_marked m.redacted j ≡ true → is_marked m'.redacted j ≡ true

pub Extends-refl : (m : Marks) → Extends m m
Extends-refl m = record { keeps = λ j h. h }

pub Extends-trans : {a b c : Marks} → Extends a b → Extends b c → Extends a c
Extends-trans p q = record { keeps = λ j h. q.keeps j (p.keeps j h) }

pub mark-Extends : (start end : ℕ) (m : Marks) → Extends m (mark start end m)
unfolding mark
mark-Extends start end m = record {
  keeps = λ j h. ground (arith, marked-mark_from 0 start end j m.redacted h);
}

-- `mark` marks every byte of a range within the text.
pub mark_range :
    (s : Text) (start end j : ℕ) (m : Marks)
    → IsMarking s m
    → end ≤ length s
    → start ≤ j
    → j < end
    → is_marked (mark start end m).redacted j ≡ true
unfolding mark
mark_range s start end j m v fits lo hi = ground (
  arith,
  v.sized,
  fresh-mark_from 0 start end j m.redacted (omega arith) (omega arith) (omega arith),
)

count-le : (bs : List Bool) → marked_count bs ≤ length bs
count-le [] = omega arith
count-le (b ∷ bs) = ground (arith, count-le bs)

-- When every byte is counted, every byte is marked.
pub full_marked :
    (bs : List Bool) (j : ℕ) → marked_count bs ≡ length bs → j < length bs → is_marked bs j ≡ true
full_marked [] j h lt = absurd (omega arith)
full_marked (false ∷ bs) j h lt = absurd (omega (arith, count-le bs))
full_marked (true ∷ bs) zero h lt = refl
full_marked (true ∷ bs) (suc j) h lt = full_marked bs j (omega arith) (omega arith)
