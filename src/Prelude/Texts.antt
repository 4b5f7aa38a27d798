-- ===== src/Prelude/Texts.antt =====
-- Go strings: sequences of bytes, compared byte by byte.
use Prim.Native.Char.{code}
use Prim.Native.Nat.{ℕ}
use Prim.Native.String.{String}
use mathlib.Core.Path.{◌≡◌, refl, ap₂}
use mathlib.Core.Logic.{◌↔◌}
use mathlib.Core.Bool.{Bool, true, false, ◌&&◌}
use mathlib.Core.List.{List, [], ◌∷◌}
use native.Mathlib.Omega.{arith}
use homelab_evidence_mcp.Prelude.Tests.{ltb, nat_beq, if◌then◌else◌}
use homelab_evidence_mcp.Prelude.Classes.{Eq, Ord}

abbrev pub Text : Type 0
Text = List ℕ

-- The bytes of an ASCII literal.
abbrev pub ascii : String → Text
ascii String.[] = []
ascii (String.◌∷◌ c s) = code c ∷ ascii s

unfoldable pub text_beq : Text → Text → Bool
text_beq [] [] = true
text_beq [] (y ∷ ys) = false
text_beq (x ∷ xs) [] = false
text_beq (x ∷ xs) (y ∷ ys) = nat_beq x y && text_beq xs ys

unfoldable pub text_less : Text → Text → Bool
text_less [] [] = false
text_less [] (y ∷ ys) = true
text_less (x ∷ xs) [] = false
text_less (x ∷ xs) (y ∷ ys) = if nat_beq x y then text_less xs ys else ltb x y

text_beq-eq : (a b : Text) → text_beq a b ≡ true → a ≡ b
unfolding text_beq
text_beq-eq [] [] h = refl
text_beq-eq [] (y ∷ ys) h = ground arith
text_beq-eq (x ∷ xs) [] h = ground arith
text_beq-eq (x ∷ xs) (y ∷ ys) h = ap₂ ◌∷◌ (ground arith) (text_beq-eq xs ys (ground arith))

pub text_beq_refl : (a : Text) → text_beq a a ≡ true
unfolding text_beq
text_beq_refl [] = refl
text_beq_refl (x ∷ xs) = ground (arith, text_beq_refl xs)

text_beq_of_eq : (a b : Text) → a ≡ b → text_beq a b ≡ true
text_beq_of_eq a b e = rw e (text_beq_refl b)

pub text_beq_iff : (a b : Text) → (text_beq a b ≡ true) ↔ (a ≡ b)
text_beq_iff a b = (text_beq-eq a b, text_beq_of_eq a b)

instance abbrev pub text_eq : Eq Text
text_eq = record { same = text_beq; decides = text_beq_iff }

pub text_asym : (a b : Text) → text_less a b ≡ true → text_less b a ≡ false
unfolding text_less
text_asym [] [] h = refl
text_asym [] (y ∷ ys) h = refl
text_asym (x ∷ xs) [] h = ground arith
text_asym (x ∷ xs) (y ∷ ys) h = ground (arith, text_asym xs ys)

pub text_trans : (a b c : Text) → text_less a b ≡ true → text_less b c ≡ true → text_less a c ≡ true
unfolding text_less
text_trans [] [] c h k = ground arith
text_trans [] (y ∷ ys) [] h k = ground arith
text_trans [] (y ∷ ys) (z ∷ zs) h k = refl
text_trans (x ∷ xs) [] c h k = ground arith
text_trans (x ∷ xs) (y ∷ ys) [] h k = ground arith
text_trans (x ∷ xs) (y ∷ ys) (z ∷ zs) h k = ground (arith, text_trans xs ys zs)

pub text_connected : (a b : Text) → text_less a b ≡ false → text_less b a ≡ false → a ≡ b
unfolding text_less
text_connected [] [] h k = refl
text_connected [] (y ∷ ys) h k = ground arith
text_connected (x ∷ xs) [] h k = ground arith
text_connected (x ∷ xs) (y ∷ ys) h k =
    ap₂ ◌∷◌ (ground arith) (text_connected xs ys (ground arith) (ground arith))

abbrev pub text_ord : Ord Text
text_ord = record {
  eq = text_eq;
  less = text_less;
  asym = text_asym;
  trans = text_trans;
  connected = text_connected;
}
