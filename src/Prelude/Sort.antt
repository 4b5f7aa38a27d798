-- ===== src/Prelude/Sort.antt =====
-- `sort.SliceStable`: a stable sort by a `less` function. Any stable sort returns this list.
use Prim.Native.Nat.{suc}
use mathlib.Core.Path.{◌≡◌, refl, sym, ap, ap₂, ◌∙◌}
use mathlib.Core.Logic.{inl, inr}
use mathlib.Core.Bool.{Bool, true, false, not, ◌&&◌, Bool-set}
use mathlib.Core.List.{
  List, [], ◌∷◌, Mem, Perm, Pairwise, Pairwise-singleton, mem-cons_self, mem-cons_of_mem,
  forall_mem-cons, rel_of_Pairwise-cons,
}
use mathlib.Core.List.Pairwise
use mathlib.Core.List.Perm
use native.Mathlib.Omega.{arith}
use homelab_evidence_mcp.Prelude.Tests.{Bool-cases, if◌then◌else◌}
use homelab_evidence_mcp.Prelude.Lists.{keep, length, All}
use homelab_evidence_mcp.Prelude.Order.{IsWeakOrder}

-- `a` may stand before `b`.
abbrev pub NotAfter {ℓ} : {A : Type ℓ} (less : A → A → Bool) → A → A → Type 0
NotAfter less a b = less b a ≡ false

abbrev pub IsSorted {ℓ} : {A : Type ℓ} (less : A → A → Bool) → List A → Type ℓ
IsSorted less = Pairwise (NotAfter less)

module _ {ℓ} {A : Type ℓ} (less : A → A → Bool) where
  unfoldable pub insert : A → List A → List A
  insert x [] = x ∷ []
  insert x (y ∷ ys) = if less y x then y ∷ insert x ys else x ∷ y ∷ ys

  unfoldable pub sort_stable : List A → List A
  unfolding insert
  sort_stable [] = []
  sort_stable (x ∷ xs) = insert x (sort_stable xs)

  insert-perm : (x : A) (l : List A) → Perm (insert x l) (x ∷ l)
  unfolding insert
  insert-perm x [] = Perm.rfl
  insert-perm x (y ∷ ys) = elim (Bool-cases (less y x)) [
    | inl e ↦ rw e (Perm.trans (Perm.cons y (insert-perm x ys)) (Perm.swap x y ys))
    | inr e ↦ rw e Perm.rfl
  ]

  pub sort_stable-perm : (l : List A) → Perm (sort_stable l) l
  unfolding sort_stable
  sort_stable-perm [] = Perm.rfl
  sort_stable-perm (x ∷ xs) =
      Perm.trans (insert-perm x (sort_stable xs)) (Perm.cons x (sort_stable-perm xs))

  length-insert : (x : A) (l : List A) → length (insert x l) ≡ suc (length l)
  unfolding insert
  length-insert x [] = refl
  length-insert x (y ∷ ys) = ground (arith, length-insert x ys)

  pub length-sort_stable : (l : List A) → length (sort_stable l) ≡ length l
  unfolding sort_stable
  length-sort_stable [] = refl
  length-sort_stable (x ∷ xs) =
      omega (arith, length-insert x (sort_stable xs), length-sort_stable xs)

  -- Neither of two values comes before the other.
  abbrev pub ties : A → A → Bool
  ties a b = not (less a b) && not (less b a)

module _ {ℓ} {A : Type ℓ} {less : A → A → Bool} (w : IsWeakOrder less) where
  below_head :
      {a b : A} {l : List A}
      → NotAfter less a b
      → ((x : A) → Mem x l → NotAfter less b x)
      → (x : A) → Mem x (b ∷ l)
      → NotAfter less a x
  below_head {a} {b} p h =
      (forall_mem-cons (λ x. Bool-set (less x a) false)).1 (p, λ x m. w.trans a b x p (h x m))

  below_insert :
      {a x : A} {l : List A}
      → NotAfter less a x
      → ((y : A) → Mem y l → NotAfter less a y)
      → (y : A) → Mem y (insert less x l)
      → NotAfter less a y
  below_insert {a} {x} {l} p h y m =
      (forall_mem-cons (λ x. Bool-set (less x a) false)).1 (p, h) y
        ((Perm.mem_iff (insert-perm less x l)).0 m)

  insert-IsSorted : (x : A) {l : List A} → IsSorted less l → IsSorted less (insert less x l)
  unfolding insert
  insert-IsSorted x Pairwise.nil = Pairwise-singleton _ x
  insert-IsSorted x (Pairwise.cons {a = y} {l = ys} below s) = elim (Bool-cases (less y x)) [
    | inl e ↦ rw e (Pairwise.cons (below_insert (w.asym y x e) below) (insert-IsSorted x s))
    | inr e ↦ rw e (Pairwise.cons (below_head e below) (Pairwise.cons below s))
  ]

  pub sort_stable-IsSorted : (l : List A) → IsSorted less (sort_stable less l)
  unfolding sort_stable
  sort_stable-IsSorted [] = Pairwise.nil
  sort_stable-IsSorted (x ∷ xs) = insert-IsSorted x (sort_stable-IsSorted xs)

  -- A value that ties with `x` does not tie with one that comes before `x`.
  ties_pass : (z x y : A) → less y x ≡ true → ties less z y ≡ true → ties less z x ≡ false
  ties_pass z x y h k = ground (arith, w.asym y x, w.trans y z x, w.trans x z y)

  keep-insert :
      (z x : A) (l : List A) → keep (ties less z) (insert less x l) ≡ keep (ties less z) (x ∷ l)
  unfolding insert
  keep-insert z x [] = refl
  keep-insert z x (y ∷ ys) = elim (Bool-cases (less y x)) [
    | inl e ↦ rw e (ground (arith, keep-insert z x ys, ties_pass z x y e))
    | inr e ↦ rw e
  ]

  -- The sort keeps the order of values that tie.
  pub keep-sort_stable :
      (z : A) (l : List A) → keep (ties less z) (sort_stable less l) ≡ keep (ties less z) l
  unfolding sort_stable
  keep-sort_stable z [] = refl
  keep-sort_stable z (x ∷ xs) =
      keep-insert z x (sort_stable less xs)
      ∙ ap (λ l. if ties less z x then x ∷ l else l) (keep-sort_stable z xs)

  heads-NotAfter :
      {a b : A} {l r : List A} → IsSorted less (a ∷ l) → Perm (b ∷ r) (a ∷ l) → NotAfter less a b
  heads-NotAfter {a} {b} {l} s p =
      below_head {l = l} (refl_not_after a) (λ x m. rel_of_Pairwise-cons s m) b
        ((Perm.mem_iff p).0 mem-cons_self)
    where
      refl_not_after : (c : A) → NotAfter less c c
      refl_not_after c = elim (Bool-cases (less c c)) [ inl e ↦ w.asym c c e | inr e ↦ e ]

  -- Values that tie are one value.
  abbrev pub Separates : List A → Type ℓ
  Separates l = (a b : A) → Mem a l → Mem b l → less a b ≡ false → less b a ≡ false → a ≡ b

  -- The first elements of two sorted arrangements tie.
  first_eq :
      {a b : A} {l r : List A}
      → Separates (a ∷ l)
      → IsSorted less (a ∷ l)
      → IsSorted less (b ∷ r)
      → Perm (a ∷ l) (b ∷ r)
      → a ≡ b
  first_eq {a} {b} tie sl sr p =
      tie a b mem-cons_self ((Perm.mem_iff p).1 mem-cons_self) (heads-NotAfter sr p)
        (heads-NotAfter sl (Perm.symm p))

  -- Then a list has only one sorted arrangement.
  sorted_unique :
      (l r : List A) → Separates l → IsSorted less l → IsSorted less r → Perm l r → l ≡ r
  sorted_unique [] r tie sl sr p = Perm.nil-eq p
  sorted_unique (a ∷ l) [] tie sl sr p = Perm.eq-nil p
  sorted_unique (a ∷ l) (b ∷ r) tie sl sr p =
      let e : a ≡ b = first_eq tie sl sr p in
      let back : Perm (b ∷ r) (a ∷ r) = Perm.cons' (sym e) Perm.rfl in
      let inner : Separates l = λ x y m n. tie x y (mem-cons_of_mem a m) (mem-cons_of_mem a n) in
      ap₂ ◌∷◌ e (
        sorted_unique l r inner (Pairwise.of_cons sl) (Pairwise.of_cons sr)
          (Perm.cons_inv (Perm.trans p back)))

  -- So the sorted list does not depend on the order of the input.
  pub sort_stable-eq_of_perm :
      (l r : List A) → Separates l → Perm l r → sort_stable less l ≡ sort_stable less r
  sort_stable-eq_of_perm l r tie p =
      let left = sort_stable-perm less l in
      let mem : (a : A) → Mem a (sort_stable less l) → Mem a l = λ a. (Perm.mem_iff left).0 in
      sorted_unique (sort_stable less l) (sort_stable less r)
        (λ a b m n. tie a b (mem a m) (mem b n)) (sort_stable-IsSorted l) (sort_stable-IsSorted r)
        (Perm.trans left (Perm.trans p (Perm.symm (sort_stable-perm less r))))

module _ {ℓ κ} {A : Type ℓ} (less : A → A → Bool) (P : A → Type κ) where
  All-insert : (x : A) (l : List A) → P x → All P l → All P (insert less x l)
  unfolding insert
  All-insert x [] h k = (h, tt)
  All-insert x (y ∷ ys) h k = elim (Bool-cases (less y x)) [
    | inl e ↦ rw e (k.0, All-insert x ys h k.1)
    | inr e ↦ rw e (h, k)
  ]

  -- Sorting keeps what holds all along a list.
  pub All-sort_stable : (l : List A) → All P l → All P (sort_stable less l)
  unfolding sort_stable
  All-sort_stable [] h = tt
  All-sort_stable (x ∷ xs) h = All-insert x (sort_stable less xs) h.0 (All-sort_stable xs h.1)
