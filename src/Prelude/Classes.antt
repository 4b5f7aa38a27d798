-- ===== src/Prelude/Classes.antt =====
-- The interfaces of `==` and of the strict order `<` on the types that the program compares.
use Prim.Native.Nat.{ℕ}
use mathlib.Core.Path.{◌≡◌}
use mathlib.Core.Logic.{◌↔◌}
use mathlib.Core.Bool.{Bool, true, false}
use native.Mathlib.Omega.{arith}
use homelab_evidence_mcp.Prelude.Tests.{ltb, nat_beq, nat_beq_iff}

-- A type with Go's `==`.
pub record Eq {ℓ} (A : Type ℓ) : Type ℓ where
  pub same : A → A → Bool
  pub decides : (x y : A) → (same x y ≡ true) ↔ (x ≡ y)

-- A strict linear order: two values that differ are ordered one way.
pub record Ord {ℓ} (A : Type ℓ) : Type ℓ where
  pub eq : Eq A
  pub less : A → A → Bool
  pub asym : (a b : A) → less a b ≡ true → less b a ≡ false
  pub trans : (a b c : A) → less a b ≡ true → less b c ≡ true → less a c ≡ true
  pub connected : (a b : A) → less a b ≡ false → less b a ≡ false → a ≡ b

instance abbrev pub nat_eq : Eq ℕ
nat_eq = record { same = nat_beq; decides = nat_beq_iff }

module _ {ℓ} {A : Type ℓ} ⦃eq : Eq A⦄ where
  infix 50 ◌==◌
  abbrev pub ◌==◌ : A → A → Bool
  x == y = eq.same x y

pub nat_asym : (a b : ℕ) → ltb a b ≡ true → ltb b a ≡ false
nat_asym a b h = ground arith

pub nat_trans : (a b c : ℕ) → ltb a b ≡ true → ltb b c ≡ true → ltb a c ≡ true
nat_trans a b c h k = ground arith

pub nat_connected : (a b : ℕ) → ltb a b ≡ false → ltb b a ≡ false → a ≡ b
nat_connected a b h k = ground arith

abbrev pub nat_ord : Ord ℕ
nat_ord = record {
  eq = nat_eq;
  less = ltb;
  asym = nat_asym;
  trans = nat_trans;
  connected = nat_connected;
}
