-- ===== src/Audit/Rotating/Recovers.antt =====
-- The files that `Write` leaves alone, and its recovery once the storage works again.
use homelab_evidence_mcp.Prelude.{
  ℕ, ◌+◌, ◌-◌, ◌≤◌, ◌<◌, ◌≡◌, refl, ◌∙◌, inl, inr, false, true, not, ◌||◌, none, Text, ltb,
  Bool-cases, Option-cases, arith, length,
}
use homelab_evidence_mcp.Audit.Rotating.{
  Disk, Storage, RotatingFile, open_regular_audit_file, rotate_locked, reopen_locked, put_bytes,
  write_open, write,
}
use homelab_evidence_mcp.Audit.Rotating.Held.{
  opened-Works, opened-other, rotate_locked-above, put_bytes-above, IsHealthy,
  rotate_locked-healthy,
}

module _ (st : Storage) where
  reopen_locked-above :
      (s : RotatingFile × Disk) (j : ℕ) → 0 < j → (reopen_locked st s).1.1 j ≡ s.1 j
  unfolding reopen_locked
  reopen_locked-above (r, d) j h =
      elim (Bool-cases (not (open_regular_audit_file true st.reopening d).0 || not st.stat_ok)) [
        | inl e ↦ simp (e) (opened-other st true st.reopening d j h)
        | inr e ↦ simp (e) (opened-other st true st.reopening d j h)
      ]

  reopen_locked-files :
      (s : RotatingFile × Disk) → (reopen_locked st s).1.0.max_files ≡ s.0.max_files
  unfolding reopen_locked
  reopen_locked-files (r, d) =
      elim (Bool-cases (not (open_regular_audit_file true st.reopening d).0 || not st.stat_ok)) [
        | inl e ↦ simp (e) refl
        | inr e ↦ simp (e) refl
      ]

  write_open-above :
      (p : Text) (r : RotatingFile) (d : Disk) (j : ℕ)
      → 0 < j
      → r.max_files - 1 < j
      → (write_open st p (r, d)).1.1 j ≡ d j
  unfolding write_open
  write_open-above p r d j h above =
      let rotated = rotate_locked-above st (r, d) j h above in
      elim (Bool-cases (ltb r.max_bytes (r.size + length p))) [
        | inr e ↦ simp (e) (put_bytes-above st p (r, d) j h)
        | inl e ↦ elim (Option-cases (rotate_locked st (r, d)).0) [
          | inr (x, q) ↦ simp (e, q) rotated
          | inl q ↦ simp (e, q) (put_bytes-above st p (rotate_locked st (r, d)).1 j h ∙ rotated)
        ]
      ]

  -- `Write` never touches a numbered file from `max_files` on, whatever fails: the log is the
  -- primary file and at most `max_files - 1` older ones.
  write-above :
      (p : Text) (r : RotatingFile) (d : Disk) (j : ℕ)
      → 0 < j
      → r.max_files ≤ j
      → (write st p (r, d)).1.1 j ≡ d j
  unfolding write
  write-above p r d j h above =
      let over : r.max_files - 1 < j = omega arith in
      let reopened = reopen_locked-above (r, d) j h in
      elim (Bool-cases r.closed) [
        | inl c ↦ simp (c) refl
        | inr c ↦ elim (Bool-cases (ltb r.max_bytes (length p))) [
          | inl l ↦ simp (c, l) refl
          | inr l ↦ elim (Bool-cases r.is_open) [
            | inl o ↦ simp (c, l, o) (write_open-above p r d j h over)
            | inr o ↦ elim (Option-cases (reopen_locked st (r, d)).0) [
              | inr (x, q) ↦ simp (c, l, o, q) reopened
              | inl q ↦
                  let (r', d') = (reopen_locked st (r, d)).1 in
                  let same = reopen_locked-files (r, d) in
                  simp (c, l, o, q) (write_open-above p r' d' j h (omega (arith, same)) ∙ reopened)
            ]
          ]
        ]
      ]

  write_open-healthy :
      (p : Text) (s : RotatingFile × Disk) → IsHealthy st → (write_open st p s).0 ≡ (length p, none)
  unfolding write_open put_bytes
  write_open-healthy p (r, d) healthy =
      let (c, m, k, w, o, e) = healthy in
      let rotated = rotate_locked-healthy st (r, d) healthy in
      elim (Bool-cases (ltb r.max_bytes (r.size + length p))) [
        | inr l ↦ simp (l, w) refl
        | inl l ↦ simp (l, rotated, w) refl
      ]

  reopen_locked-healthy : (s : RotatingFile × Disk) → IsHealthy st → (reopen_locked st s).0 ≡ none
  unfolding reopen_locked
  reopen_locked-healthy (r, d) (c, m, k, w, o, e) =
      simp (opened-Works true st.reopening d o, k) refl

  -- Once the storage works again, a file that was not closed by its owner takes every record that
  -- fits the limit, whole and without an error, whatever has failed before and left behind.
  pub write-healthy :
      (p : Text) (r : RotatingFile) (d : Disk)
      → IsHealthy st
      → r.closed ≡ false
      → length p ≤ r.max_bytes
      → (write st p (r, d)).0 ≡ (length p, none)
  unfolding write
  write-healthy p r d healthy c fits =
      let l : ltb r.max_bytes (length p) ≡ false = ground arith in
      elim (Bool-cases r.is_open) [
        | inl o ↦ simp (c, l, o) (write_open-healthy p (r, d) healthy)
        | inr o ↦
            simp (c, l, o, reopen_locked-healthy (r, d) healthy)
              (write_open-healthy p (reopen_locked st (r, d)).1 healthy)
      ]
