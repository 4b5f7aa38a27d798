-- ===== src/Prelude/Unique.antt =====
-- Lists in which a key picks out one element.
use mathlib.Core.Path.{◌≡◌, refl, sym, ap, ◌∙◌, subst}
use mathlib.Core.Logic.{◌≢◌}
use mathlib.Core.Logic.Or
use mathlib.Core.HLevel.{¬_prop}
use mathlib.Core.List.{List, [], ◌∷◌, Mem, mem-cons, not-mem-nil}
use homelab_evidence_mcp.Prelude.Lists.{All}

module _ {ℓ κ} {A : Type ℓ} {K : Type κ} (key : A → K) where
  -- No two positions have the same key.
  abbrev pub DistinctBy : List A → Type (ℓ ⊔ κ)
  DistinctBy [] = Unit
  DistinctBy (x ∷ xs) = All (λ y. key x ≢ key y) xs × DistinctBy xs

  ne_of_mem : (x a : A) (xs : List A) → All (λ y. key x ≢ key y) xs → Mem a xs → key x ≢ key a
  ne_of_mem x a [] h m = absurd (not-mem-nil m)
  ne_of_mem x a (y ∷ xs) h m =
      Or.elim ¬_prop (mem-cons.0 m) (λ e q. h.0 (q ∙ ap key e)) (ne_of_mem x a xs h.1)

  -- Members with the same key are one element.
  pub eq_of_key :
      IsSet A
      → (xs : List A) (a b : A) → DistinctBy xs
      → Mem a xs
      → Mem b xs
      → key a ≡ key b
      → a ≡ b
  eq_of_key set [] a b d m n e = absurd (not-mem-nil m)
  eq_of_key set (x ∷ xs) a b d m n e =
      Or.elim (set a b) (mem-cons.0 m)
        (λ p.
          Or.elim (set a b) (mem-cons.0 n) (λ q. p ∙ sym q)
            (λ n'. absurd (ne_of_mem x b xs d.0 n' (sym (ap key p) ∙ e))))
        (λ m'.
          Or.elim (set a b) (mem-cons.0 n)
            (λ q. absurd (ne_of_mem x a xs d.0 m' (sym (ap key q) ∙ sym e)))
            (λ n'. eq_of_key set xs a b d.1 m' n' e))

-- What holds all along a list holds of its members.
pub All-mem {ℓ κ} :
    {A : Type ℓ} (P : A → Type κ)
    → ((a : A) → IsProp (P a))
    → (xs : List A) (a : A) → All P xs
    → Mem a xs
    → P a
All-mem P prop [] a h m = absurd (not-mem-nil m)
All-mem P prop (x ∷ xs) a h m =
    Or.elim (prop a) (mem-cons.0 m) (λ e. subst P (sym e) h.0) (All-mem P prop xs a h.1)

-- What holds of all members holds all along a list.
pub All_of_mem {ℓ κ} :
    {A : Type ℓ} (P : A → Type κ) (xs : List A) → ((a : A) → Mem a xs → P a) → All P xs
All_of_mem P [] f = tt
All_of_mem P (x ∷ xs) f =
    (f x (mem-cons.1 (Or.inl refl)), All_of_mem P xs (λ a m. f a (mem-cons.1 (Or.inr m))))
