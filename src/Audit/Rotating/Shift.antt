-- ===== src/Audit/Rotating/Shift.antt =====
-- The loop that moves the numbered files.
use homelab_evidence_mcp.Prelude.{
  ℕ, zero, suc, ◌<◌, ◌≡◌, ◌≢◌, refl, sym, ap, ◌∙◌, inl, inr, true, none, nat_beq, nat_beq_iff,
  Bool-cases, Option-cases, arith,
}
use homelab_evidence_mcp.Audit.Rotating.{Disk, set, rename, Storage, shift}

-- One round of the loop: the file with the lower number takes the place of the other.
abbrev moved : ℕ → Disk → Disk
moved i d = rename i (suc i) (set (suc i) none d)

moved-upper : (i : ℕ) (d : Disk) → moved i d (suc i) ≡ d i
unfolding rename
moved-upper i d = elim (Option-cases (d i)) [ inl e ↦ ground arith | inr (s, e) ↦ ground arith ]

moved-other : (i j : ℕ) (d : Disk) → j ≢ i → j ≢ suc i → moved i d j ≡ d j
unfolding rename
moved-other i j d h k = elim (Option-cases (d i)) [
  | inl e ↦ ground arith
  | inr (s, e) ↦ ground arith
]

module _ (st : Storage) where
  -- Files above the loop stay as they are, whatever fails.
  pub shift-above : (n j : ℕ) (d : Disk) → n < j → (shift st n d).1 j ≡ d j
  unfolding shift
  shift-above zero j d h = refl
  shift-above (suc i) j d h =
      let ih = shift-above i j (moved i d) (omega arith) in
      let kept = moved-other i j d (λ e. omega arith) (λ e. omega arith) in
      elim (Bool-cases (st.remove_ok (suc i))) [
        | inr e ↦ rw e refl
        | inl e ↦ elim (Bool-cases (st.rename_ok (suc i))) [
          | inr k ↦ rw (e, k) (ground arith)
          | inl k ↦ rw (e, k) (ih ∙ kept)
        ]
      ]

  -- Removing and renaming work.
  abbrev pub MovesFiles : Type 0
  MovesFiles = (i : ℕ) → (st.remove_ok i ≡ true) × (st.rename_ok i ≡ true)

  pub shift-through : MovesFiles → (n : ℕ) (d : Disk) → (shift st n d).0 ≡ true
  unfolding shift
  shift-through h zero d = refl
  shift-through h (suc i) d = rw ((h (suc i)).0, (h (suc i)).1) (shift-through h i (moved i d))

  -- A loop that came through has moved every file to the next number.
  pub shift-moves :
      (n i : ℕ) (d : Disk) → (shift st n d).0 ≡ true → i < n → (shift st n d).1 (suc i) ≡ d i
  unfolding shift
  shift-moves zero i d through l = absurd (omega arith)
  shift-moves (suc n) i d through l =
      let removed : st.remove_ok (suc n) ≡ true = ground arith in
      let renamed : st.rename_ok (suc n) ≡ true = ground arith in
      let rest : (shift st n (moved n d)).0 ≡ true = rw (shift, removed, renamed) at through in
      elim (Bool-cases (nat_beq i n)) [
        | inl e ↦
            let same : i ≡ n = (nat_beq_iff i n).0 e in
            rw (removed, renamed)
              (ap (λ x. (shift st n (moved n d)).1 (suc x)) same
                ∙ shift-above n (suc n) (moved n d) (omega arith)
                ∙ moved-upper n d
                ∙ ap d (sym same))
        | inr e ↦
            let below : i < n = ground arith in
            rw (removed, renamed)
              (shift-moves n i (moved n d) rest below
                ∙ moved-other n i d (λ q. omega (arith, q)) (λ q. omega (arith, q)))
      ]
