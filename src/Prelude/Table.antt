-- ===== src/Prelude/Table.antt =====
-- Go maps with text keys, as association lists in the order of insertion, and the laws that the
-- two caches share.
use Prim.Native.Nat.{suc, zero, ◌+◌, ℕ}
use mathlib.Core.Path.{◌≡◌, refl, sym, ap}
use mathlib.Core.Logic.{inl, inr}
use mathlib.Core.Bool.{Bool, false, not}
use mathlib.Core.Option.{Option, none, some}
use mathlib.Core.List.{List, [], ◌∷◌, ◌++◌, map, Mem, mem-cons, mem-cons_of_mem, not-mem-nil}
use mathlib.Core.Logic.Or
use mathlib.Core.HLevel.{⊥_prop}
use native.Mathlib.Omega.{arith}
use homelab_evidence_mcp.Prelude.Tests.{Bool-cases, if◌then◌else◌}
use homelab_evidence_mcp.Prelude.Lists.{keep, total, length, drop}
use homelab_evidence_mcp.Prelude.Texts.{Text, text_beq, text_beq_iff, text_beq_refl}

abbrev pub Table {ℓ} : Type ℓ → Type ℓ
Table V = List (Text × V)

module _ {ℓ} {V : Type ℓ} where
  -- m[k]
  unfoldable pub lookup : Text → Table V → Option V
  lookup k [] = none
  lookup k ((j, v) ∷ m) = if text_beq j k then some v else lookup k m

  -- delete(m, k)
  abbrev pub without : Text → Table V → Table V
  without k = keep (λ e. not (text_beq e.0 k))

  -- m[k] = v
  unfoldable pub put : Text → V → Table V → Table V
  put k v [] = (k, v) ∷ []
  put k v ((j, w) ∷ m) = if text_beq j k then (k, v) ∷ m else (j, w) ∷ put k v m

  abbrev pub keys : Table V → List Text
  keys = map (λ e. e.0)

  -- No key stands twice.
  abbrev pub Distinct : Table V → Type ℓ
  Distinct [] = Unit
  Distinct ((k, v) ∷ m) = (lookup k m ≡ none) × Distinct m

  pub lookup-without_self : (k : Text) (m : Table V) → lookup k (without k m) ≡ none
  unfolding lookup
  lookup-without_self k [] = refl
  lookup-without_self k ((j, v) ∷ m) = ground (arith, lookup-without_self k m)

  -- Removing one key leaves the others.
  pub lookup-without_ne :
      (j k : Text) (m : Table V) → text_beq k j ≡ false → lookup j (without k m) ≡ lookup j m
  unfolding lookup
  lookup-without_ne j k [] h = refl
  lookup-without_ne j k ((i, v) ∷ m) h =
      ground
        (arith, lookup-without_ne j k m h, text_beq_iff i k, text_beq_iff i j, text_beq_iff k j)

  pub without_absent : (k : Text) (m : Table V) → lookup k m ≡ none → without k m ≡ m
  unfolding lookup
  without_absent k [] h = refl
  without_absent k ((j, v) ∷ m) h = ground (arith, without_absent k m)

  pub put_absent :
      (k : Text) (v : V) (m : Table V) → lookup k m ≡ none → put k v m ≡ m ++ (k, v) ∷ []
  unfolding lookup put
  put_absent k v [] h = refl
  put_absent k v ((j, w) ∷ m) h = ground (arith, put_absent k v m)

  pub keys-without :
      (k : Text) (m : Table V) → keys (without k m) ≡ keep (λ j. not (text_beq j k)) (keys m)
  keys-without k [] = refl
  keys-without k ((j, v) ∷ m) = ground (arith, keys-without k m)

  pub keys-append : (m n : Table V) → keys (m ++ n) ≡ keys m ++ keys n
  keys-append [] n = refl
  keys-append ((j, v) ∷ m) n = ap (◌∷◌ j) (keys-append m n)

  pub length-keys : (m : Table V) → length (keys m) ≡ length m
  length-keys [] = refl
  length-keys ((j, v) ∷ m) = ap suc (length-keys m)

  pub lookup-append :
      (k : Text) (m n : Table V)
      → lookup k (m ++ n) ≡ (elim (lookup k m) [ none ↦ lookup k n | some v ↦ some v ])
  unfolding lookup
  lookup-append k [] n = refl
  lookup-append k ((j, v) ∷ m) n = ground (arith, lookup-append k m n)

  pub lookup-keep_absent :
      (p : Text × V → Bool) (k : Text) (m : Table V)
      → lookup k m ≡ none
      → lookup k (keep p m) ≡ none
  unfolding lookup
  lookup-keep_absent p k [] h = refl
  lookup-keep_absent p k ((j, v) ∷ m) h = ground (arith, lookup-keep_absent p k m)

  pub lookup-drop_absent :
      (n : ℕ) (k : Text) (m : Table V) → lookup k m ≡ none → lookup k (drop n m) ≡ none
  unfolding lookup
  lookup-drop_absent zero k m h = h
  lookup-drop_absent (suc n) k [] h = h
  lookup-drop_absent (suc n) k ((j, v) ∷ m) h = lookup-drop_absent n k m (ground arith)

  pub Distinct-keep : (p : Text × V → Bool) (m : Table V) → Distinct m → Distinct (keep p m)
  Distinct-keep p [] d = d
  Distinct-keep p ((k, v) ∷ m) d = elim (Bool-cases (p (k, v))) [
    | inl e ↦ rw e (lookup-keep_absent p k m d.0, Distinct-keep p m d.1)
    | inr e ↦ rw e (Distinct-keep p m d.1)
  ]

  pub Distinct-snoc :
      (k : Text) (v : V) (m : Table V)
      → lookup k m ≡ none
      → Distinct m
      → Distinct (m ++ (k, v) ∷ [])
  unfolding lookup
  Distinct-snoc k v [] h d = (refl, tt)
  Distinct-snoc k v ((j, w) ∷ m) h d = (
    ground (arith, lookup-append j m ((k, v) ∷ []), text_beq_iff j k, text_beq_iff k j),
    Distinct-snoc k v m (ground arith) d.1,
  )

  -- Removing a key that stands in the middle takes out its one entry.
  pub without_middle :
      (done : Table V) (k : Text) (v : V) (rest : Table V)
      → Distinct (done ++ (k, v) ∷ rest)
      → without k (done ++ (k, v) ∷ rest) ≡ done ++ rest
  unfolding lookup
  without_middle [] k v rest d = rw (text_beq_refl k) (without_absent k rest d.0)
  without_middle ((j, w) ∷ done) k v rest d = ground (
    arith,
    without_middle done k v rest d.1,
    lookup-append j done ((k, v) ∷ rest),
    text_beq_iff j k,
    text_beq_iff k j,
  )

  -- The size of a stored table drops by the size of the entry that goes.
  pub total-without :
      (size : V → ℕ) (k : Text) (m : Table V) (v : V)
      → Distinct m
      → lookup k m ≡ some v
      → total (λ e. size e.1) (without k m) + size v ≡ total (λ e. size e.1) m
  unfolding lookup
  total-without size k [] v d h = ground arith
  total-without size k ((j, w) ∷ m) v d h =
      ground (arith, total-without size k m v d.1, without_absent k m, text_beq_iff j k)

  pub length-without :
      (k : Text) (m : Table V) (v : V)
      → Distinct m
      → lookup k m ≡ some v
      → suc (length (without k m)) ≡ length m
  unfolding lookup
  length-without k [] v d h = ground arith
  length-without k ((j, w) ∷ m) v d h =
      ground (arith, length-without k m v d.1, without_absent k m, text_beq_iff j k)

  pub lookup-put :
      (j k : Text) (v : V) (m : Table V)
      → lookup j (put k v m) ≡ (if text_beq k j then some v else lookup j m)
  unfolding lookup put
  lookup-put j k v [] = ground arith
  lookup-put j k v ((i, w) ∷ m) =
      ground (arith, lookup-put j k v m, text_beq_iff i k, text_beq_iff i j, text_beq_iff k j)

  pub absent-Mem : (k : Text) (m : Table V) → lookup k m ≡ none → ¬ Mem k (keys m)
  unfolding lookup
  absent-Mem k [] h p = not-mem-nil p
  absent-Mem k ((j, v) ∷ m) h p =
      Or.elim ⊥_prop (mem-cons.0 p) (λ e. ground (arith, text_beq_iff j k))
        (absent-Mem k m (ground arith))

  pub Mem_of_lookup : (k : Text) (m : Table V) (v : V) → lookup k m ≡ some v → Mem k (keys m)
  unfolding lookup
  Mem_of_lookup k [] v h = ground arith
  Mem_of_lookup k ((j, w) ∷ m) v h = elim (Bool-cases (text_beq j k)) [
    | inl e ↦ mem-cons.1 (Or.inl (sym ((text_beq_iff j k).0 e)))
    | inr e ↦ mem-cons_of_mem _ (Mem_of_lookup k m v (ground arith))
  ]
