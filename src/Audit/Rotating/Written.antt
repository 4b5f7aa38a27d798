-- ===== src/Audit/Rotating/Written.antt =====
-- What `Write` keeps and what it promises.
use homelab_evidence_mcp.Prelude.{
  ℕ, ◌+◌, ◌≤◌, ◌≡◌, refl, ap, ◌∙◌, ◌⊎◌, inl, inr, true, [], ◌++◌, none, some, Text, ltb, Bool-cases,
  arith, subst, length, length-append,
}
use homelab_evidence_mcp.Audit.Rotating.{
  Disk, content, Storage, RotatingFile, AuditError, open_regular_audit_file, rotate_locked,
  reopen_locked, put_bytes, write_open, write,
}
use homelab_evidence_mcp.Audit.Rotating.Held.{
  IsCounted, put_bytes-IsCounted, opened-content, rotate_locked-cases,
}

module _ (st : Storage) where
  write_open-IsCounted :
      (p : Text) (s : RotatingFile × Disk)
      → s.0.size ≡ length (content (s.1 0))
      → IsCounted (write_open st p s).1
  unfolding write_open
  write_open-IsCounted p (r, d) h = elim (Bool-cases (ltb r.max_bytes (r.size + length p))) [
    | inr e ↦ rw (write_open, e) (put_bytes-IsCounted st p (r, d) h)
    | inl e ↦ elim (rotate_locked-cases st (r, d)) [
      | inl (x, q, same) ↦ rw (write_open, e, q) (λ k. ground arith)
      | inr (q, same, empty, rest) ↦
          rw (write_open, e, q)
            (put_bytes-IsCounted st p (rotate_locked st (r, d)).1 (ground arith))
    ]
  ]

  -- A reopening fails and leaves the state as it was, or counts the primary file again.
  reopen_locked-cases :
      (s : RotatingFile × Disk)
      → ((e : AuditError) × ((reopen_locked st s).0 ≡ some e) × ((reopen_locked st s).1.0 ≡ s.0))
        ⊎ (((reopen_locked st s).0 ≡ none)
            × ((reopen_locked st s).1.0
                ≡ record s.0 { is_open = true; size = length (content (s.1 0)) })
            × ((reopen_locked st s).1.1 0 ≡ some (content (s.1 0))))
  unfolding reopen_locked
  reopen_locked-cases (r, d) = elim (Bool-cases (open_regular_audit_file true st.reopening d).0) [
    | inr o ↦ rw (reopen_locked, o) (inl (_, refl, refl))
    | inl o ↦ elim (Bool-cases st.stat_ok) [
      | inr k ↦ rw (reopen_locked, o, k) (inl (_, refl, refl))
      | inl k ↦
          let kept = opened-content st st.reopening d o in
          rw (reopen_locked, o, k) (inr (refl, rw kept refl, kept))
    ]
  ]

  -- Whatever fails during it, `Write` keeps the count: while the file is open, `size` is the length
  -- of the primary file.
  pub write-IsCounted :
      (p : Text) (s : RotatingFile × Disk) → IsCounted s → IsCounted (write st p s).1
  unfolding write
  write-IsCounted p (r, d) h = elim (Bool-cases r.closed) [
    | inl c ↦ simp (c) h
    | inr c ↦ elim (Bool-cases (ltb r.max_bytes (length p))) [
      | inl l ↦ simp (c, l) h
      | inr l ↦ elim (Bool-cases r.is_open) [
        | inl o ↦ simp (c, l, o) (write_open-IsCounted p (r, d) (h o))
        | inr o ↦ elim (reopen_locked-cases (r, d)) [
          | inl (x, q, same) ↦ simp (c, l, o, q) (λ k. ground arith)
          | inr (q, same, kept) ↦
              simp (c, l, o, q) (write_open-IsCounted p (reopen_locked st (r, d)).1 (ground arith))
        ]
      ]
    ]
  ]

  -- The record stands whole at the end of the primary file, which keeps its limit.
  abbrev pub EndsWith : Text → ℕ → Text → Disk → Type 0
  EndsWith p most old d =
      (before : Text) × (d 0 ≡ some (before ++ p))
      × ((before ≡ old) ⊎ (before ≡ []))
      × (length (before ++ p) ≤ most)

  put_bytes-EndsWith :
      (p : Text) (n : ℕ) (r : RotatingFile) (d : Disk)
      → (put_bytes st p (r, d)).0 ≡ (n, none)
      → (n ≡ length p) × ((put_bytes st p (r, d)).1.1 0 ≡ some (content (d 0) ++ p))
  unfolding put_bytes
  put_bytes-EndsWith p n r d h = elim (Bool-cases st.write_ok) [
    | inl w ↦ simp (put_bytes, w) (ground arith, refl)
    | inr w ↦ ground arith
  ]

  write_open-EndsWith :
      (p : Text) (n : ℕ) (r : RotatingFile) (d : Disk)
      → r.size ≡ length (content (d 0))
      → length p ≤ r.max_bytes
      → (write_open st p (r, d)).0 ≡ (n, none)
      → (n ≡ length p) × EndsWith p r.max_bytes (content (d 0)) (write_open st p (r, d)).1.1
  unfolding write_open
  write_open-EndsWith p n r d size fits h =
      elim (Bool-cases (ltb r.max_bytes (r.size + length p))) [
        | inr e ↦
            let done = put_bytes-EndsWith p n r d (simp (e) at h) in
            simp (e) (
              done.0,
              (content (d 0), done.1, inl refl, ground (arith, length-append (content (d 0)) p)),
            )
        | inl e ↦ elim (rotate_locked-cases st (r, d)) [
          | inl (x, q, same) ↦ ground arith
          | inr (q, same, empty, rest) ↦
              let (r', d') = (rotate_locked st (r, d)).1 in
              let done = put_bytes-EndsWith p n r' d' (simp (e, q) at h) in
              simp (e, q)
                (done.0, ([], done.1 ∙ ap (λ c. some (content c ++ p)) empty, inr refl, fits))
        ]
      ]

  -- A `Write` that reports no error has put the whole record down, in one file: the primary file is
  -- what it was, or empty after a rotation, followed by the record, and its length is within
  -- `max_bytes`, where the count was right before.
  pub write-EndsWith :
      (p : Text) (n : ℕ) (r : RotatingFile) (d : Disk)
      → IsCounted (r, d)
      → (write st p (r, d)).0 ≡ (n, none)
      → (n ≡ length p) × EndsWith p r.max_bytes (content (d 0)) (write st p (r, d)).1.1
  unfolding write
  write-EndsWith p n r d v h = elim (Bool-cases r.closed) [
    | inl c ↦ ground arith
    | inr c ↦ elim (Bool-cases (ltb r.max_bytes (length p))) [
      | inl l ↦ ground arith
      | inr l ↦
          let fits : length p ≤ r.max_bytes = ground arith in
          elim (Bool-cases r.is_open) [
            | inl o ↦ simp (c, l, o) (write_open-EndsWith p n r d (v o) fits (simp (c, l, o) at h))
            | inr o ↦ elim (reopen_locked-cases (r, d)) [
              | inl (x, q, same) ↦ ground arith
              | inr (q, same, kept) ↦
                  let (r', d') = (reopen_locked st (r, d)).1 in
                  let found =
                    write_open-EndsWith p n r' d' (ground arith) (ground arith)
                      (simp (c, l, o, q) at h) in
                  let most : r'.max_bytes ≡ r.max_bytes =
                    ap (λ (x : RotatingFile). x.max_bytes) same in
                  let after = (write_open st p (r', d')).1.1 in
                  let whole =
                    subst (λ m. EndsWith p m (content (d 0)) after) most
                      (subst (λ old. EndsWith p r'.max_bytes old after) (ap content kept)
                        found.1) in
                  simp (c, l, o, q) (found.0, whole)
            ]
          ]
    ]
  ]
