-- ===== src/Prelude/Order.antt =====
-- Strict weak orders, and the comparison chain `if a.x != b.x { return a.x < b.x }`.
use mathlib.Core.Path.{◌≡◌, subst}
use mathlib.Core.Logic.{inl, inr}
use mathlib.Core.Bool.{Bool, true, false}
use native.Mathlib.Omega.{arith}
use homelab_evidence_mcp.Prelude.Tests.{Bool-cases, if◌then◌else◌}
use homelab_evidence_mcp.Prelude.Classes.{Ord}

-- What `sort.SliceStable` asks of its `less`: `a` is not after `b` when `less b a` is false.
pub record IsWeakOrder {ℓ} {A : Type ℓ} (less : A → A → Bool) : Type ℓ where
  pub asym : (a b : A) → less a b ≡ true → less b a ≡ false
  pub trans : (a b c : A) → less b a ≡ false → less c b ≡ false → less c a ≡ false

-- One test of the chain, then the rest of it.
abbrev pub chain {ℓ κ} :
    {A : Type ℓ} {K : Type κ} (o : Ord K) (key : A → K) (rest : A → A → Bool) → A → A → Bool
chain o key rest a b = if o.eq.same (key a) (key b) then rest a b else o.less (key a) (key b)

module _ {κ} {K : Type κ} (o : Ord K) where
  pub less_irrefl : (a : K) → o.less a a ≡ false
  less_irrefl a = elim (Bool-cases (o.less a a)) [ inl e ↦ o.asym a a e | inr e ↦ e ]

  -- "Not after" is transitive.
  pub not_less_trans : (a b c : K) → o.less b a ≡ false → o.less c b ≡ false → o.less c a ≡ false
  not_less_trans a b c h k = elim (Bool-cases (o.less c a)) [
    | inl ca ↦ elim (Bool-cases (o.less a b)) [
      | inl ab ↦ cc (o.trans c a b ca ab)
      | inr ab ↦ let e = o.connected a b ab h in cc (subst (λ x. o.less c x ≡ true) e ca)
    ]
    | inr ca ↦ ca
  ]

  pub less-IsWeakOrder : IsWeakOrder o.less
  less-IsWeakOrder = record { asym = o.asym; trans = not_less_trans }

module _ {ℓ κ} {A : Type ℓ} {K : Type κ} (o : Ord K) (key : A → K) {rest : A → A → Bool}
    (w : IsWeakOrder rest) where
  chain-asym : (a b : A) → chain o key rest a b ≡ true → chain o key rest b a ≡ false
  chain-asym a b h = ground (
    arith,
    o.eq.decides (key a) (key b),
    o.eq.decides (key b) (key a),
    o.asym (key a) (key b),
    w.asym a b,
  )

  chain_trans :
      (a b c : A)
      → chain o key rest b a ≡ false
      → chain o key rest c b ≡ false
      → chain o key rest c a ≡ false
  chain_trans a b c h k = ground (
    arith,
    o.eq.decides (key b) (key a),
    o.eq.decides (key c) (key b),
    o.eq.decides (key c) (key a),
    less_irrefl o (key a),
    less_irrefl o (key b),
    o.connected (key a) (key b),
    not_less_trans o (key a) (key b) (key c),
    o.asym (key c) (key a),
    o.trans (key a) (key b) (key c),
    o.connected (key b) (key c),
    w.trans a b c,
  )

  -- A test in front of a strict weak order makes one.
  pub chain-IsWeakOrder : IsWeakOrder (chain o key rest)
  chain-IsWeakOrder = record { asym = chain-asym; trans = chain_trans }

  -- Two values that neither test separates have equal keys and tie in the rest.
  pub chain_tie :
      (a b : A)
      → chain o key rest a b ≡ false
      → chain o key rest b a ≡ false
      → (key a ≡ key b) × (rest a b ≡ false) × (rest b a ≡ false)
  chain_tie a b h k = ground (
    arith,
    o.eq.decides (key a) (key b),
    o.eq.decides (key b) (key a),
    o.connected (key a) (key b),
  )
