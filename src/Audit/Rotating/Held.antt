-- ===== src/Audit/Rotating/Held.antt =====
-- The steps of `Write`: opening, rotating and putting bytes down.
use homelab_evidence_mcp.Prelude.{
  ℕ, suc, ◌-◌, ◌<◌, ◌≡◌, refl, ◌∙◌, ◌⊎◌, inl, inr, Bool, false, true, not, ◌&&◌, [], none, some,
  Text, if◌then◌else◌, Bool-cases, arith, length, length-append, take,
}
use homelab_evidence_mcp.Audit.Rotating.{
  Disk, content, Storage, Opening, is_fine, RotatingFile, AuditError, open_regular_audit_file,
  shift, rotate_locked, put_bytes,
}
use homelab_evidence_mcp.Audit.Rotating.Shift.{MovesFiles, shift-above, shift-through, shift-moves}

-- While the file is open, `size` is the length of the primary file.
abbrev pub IsCounted : RotatingFile × Disk → Type 0
IsCounted (r, d) = r.is_open ≡ true → r.size ≡ length (content (d 0))

-- Every step of an opening works.
abbrev pub Works : Opening → Type 0
Works o = (o.opens ≡ true) × (is_fine o ≡ true) × (o.truncate_ok ≡ true)

pub opened-Works :
    (b : Bool) (o : Opening) (d : Disk) → Works o → (open_regular_audit_file b o d).0 ≡ true
unfolding open_regular_audit_file
opened-Works true o d (a, f, t) = simp (a, f) refl
opened-Works false o d (a, f, t) = simp (a, f, t) refl

module _ (st : Storage) where
  pub put_bytes-IsCounted :
      (p : Text) (s : RotatingFile × Disk)
      → s.0.size ≡ length (content (s.1 0))
      → IsCounted (put_bytes st p s).1
  unfolding put_bytes
  put_bytes-IsCounted p (r, d) h k =
      let part = if st.write_ok then p else take st.written p in
      omega (arith, h, length-append (content (d 0)) part)

  -- An opening that worked leaves the file as it was, or empty; the others stay.
  pub opened-content :
      (o : Opening) (d : Disk)
      → (open_regular_audit_file true o d).0 ≡ true
      → (open_regular_audit_file true o d).1 0 ≡ some (content (d 0))
  unfolding open_regular_audit_file
  opened-content o d h = ground arith

  opened-empty :
      (o : Opening) (d : Disk)
      → (open_regular_audit_file false o d).0 ≡ true
      → (open_regular_audit_file false o d).1 0 ≡ some []
  unfolding open_regular_audit_file
  opened-empty o d h = ground arith

  pub opened-other :
      (b : Bool) (o : Opening) (d : Disk) (j : ℕ)
      → 0 < j
      → (open_regular_audit_file b o d).1 j ≡ d j
  unfolding open_regular_audit_file
  opened-other b o d j h = ground arith

  -- A rotation fails and leaves the file closed, or empties the primary file and moves the others.
  abbrev pub Rotates : RotatingFile × Disk → Type 0
  Rotates s =
      ((rotate_locked st s).0 ≡ none)
      × ((rotate_locked st s).1.0 ≡ record s.0 { is_open = true; size = 0 })
      × ((rotate_locked st s).1.1 0 ≡ some [])
      × ((i : ℕ) → i < s.0.max_files - 1 → (rotate_locked st s).1.1 (suc i) ≡ s.1 i)

  abbrev pub Stops : RotatingFile × Disk → Type 0
  Stops s =
      (e : AuditError) × ((rotate_locked st s).0 ≡ some e)
      × ((rotate_locked st s).1.0 ≡ record s.0 { is_open = false })

  pub rotate_locked-cases : (s : RotatingFile × Disk) → Stops s ⊎ Rotates s
  unfolding rotate_locked
  rotate_locked-cases (r, d) =
      let n = r.max_files - 1 in
      elim (Bool-cases (r.is_open && not st.close_ok)) [
        | inl e ↦ rw (rotate_locked, e) (inl (_, refl, refl))
        | inr e ↦ elim (Bool-cases (shift st n d).0) [
          | inr m ↦ rw (rotate_locked, e, m) (inl (_, refl, refl))
          | inl m ↦
              let shifted = (shift st n d).1 in
              elim (Bool-cases (open_regular_audit_file false st.emptying shifted).0) [
                | inr o ↦ rw (rotate_locked, e, m, o) (inl (_, refl, refl))
                | inl o ↦
                    rw (rotate_locked, e, m, o)
                      (inr (
                        refl,
                        refl,
                        opened-empty st.emptying shifted o,
                        λ i l.
                            opened-other false st.emptying shifted (suc i) (omega arith)
                            ∙ shift-moves st n i d m l,
                      ))
              ]
        ]
      ]

  pub rotate_locked-above :
      (s : RotatingFile × Disk) (j : ℕ)
      → 0 < j
      → s.0.max_files - 1 < j
      → (rotate_locked st s).1.1 j ≡ s.1 j
  unfolding rotate_locked
  rotate_locked-above (r, d) j pos above =
      let n = r.max_files - 1 in
      let kept = shift-above st n j d above in
      let shifted = (shift st n d).1 in
      elim (Bool-cases (r.is_open && not st.close_ok)) [
        | inl e ↦ simp (e) refl
        | inr e ↦ elim (Bool-cases (shift st n d).0) [
          | inr m ↦ simp (e, m) kept
          | inl m ↦ elim (Bool-cases (open_regular_audit_file false st.emptying shifted).0) [
            | inr o ↦ simp (e, m, o) (opened-other false st.emptying shifted j pos ∙ kept)
            | inl o ↦ simp (e, m, o) (opened-other false st.emptying shifted j pos ∙ kept)
          ]
        ]
      ]

  pub put_bytes-above :
      (p : Text) (s : RotatingFile × Disk) (j : ℕ) → 0 < j → (put_bytes st p s).1.1 j ≡ s.1 j
  unfolding put_bytes
  put_bytes-above p (r, d) j h = ground arith

  -- A rotation works where every operation works.
  abbrev pub IsHealthy : Type 0
  IsHealthy =
      (st.close_ok ≡ true)
      × MovesFiles st
      × (st.stat_ok ≡ true)
      × (st.write_ok ≡ true)
      × Works st.reopening
      × Works st.emptying

  pub rotate_locked-healthy : (s : RotatingFile × Disk) → IsHealthy → (rotate_locked st s).0 ≡ none
  unfolding rotate_locked
  rotate_locked-healthy (r, d) (c, m, k, w, o, e) =
      let n = r.max_files - 1 in
      let closes : (r.is_open && not st.close_ok) ≡ false = ground arith in
      simp (closes, shift-through st m n d, opened-Works false st.emptying (shift st n d).1 e) refl

  -- A rotation that reports no error leaves an empty, open primary file, and below `max_files`
  -- every older file, the primary one first, stands under the next number; the last one is gone.
  rotate_locked_lem :
      (s : RotatingFile × Disk)
      → (rotate_locked st s).0 ≡ none
      → ((rotate_locked st s).1.0 ≡ record s.0 { is_open = true; size = 0 })
        × ((rotate_locked st s).1.1 0 ≡ some [])
        × ((i : ℕ) → i < s.0.max_files - 1 → (rotate_locked st s).1.1 (suc i) ≡ s.1 i)
  rotate_locked_lem s h = elim (rotate_locked-cases s) [
    | inl (e, q, same) ↦ ground arith
    | inr (q, same, empty, moves) ↦ (same, empty, moves)
  ]
