-- ===== src/Evidence/Cache/Limits.antt =====
-- The limits of the eviction of internal/evidence/cache.go.
use homelab_evidence_mcp.Prelude.{
  ℕ, zero, suc, ◌≤◌, ◌<◌, ◌≡◌, refl, ◌∙◌, true, false, [], ◌∷◌, ◌++◌, Text, length, drop, arith,
  Bool-cases, inl, inr,
}
use homelab_evidence_mcp.Prelude.Int.{ℤ, pos, ltb_ℤ}
use homelab_evidence_mcp.Prelude.Table.{Table}
use homelab_evidence_mcp.Evidence.Cache.{Cache, Entry, evict}
use homelab_evidence_mcp.Evidence.Cache.Remove.{IsConsistent}
use homelab_evidence_mcp.Evidence.Cache.Evict.{exceeds, fit, items-evict}

-- A cache that stores at all ends within its limits.
pub fit-exceeds :
    (max : ℤ) (max_bytes : ℕ) (m : Table Entry)
    → ltb_ℤ (pos 0) max ≡ true
    → exceeds max max_bytes (fit max max_bytes m) ≡ false
unfolding fit
fit-exceeds max max_bytes [] h = ground arith
fit-exceeds max max_bytes (e ∷ m) h = elim (Bool-cases (exceeds max max_bytes (e ∷ m))) [
  | inl over ↦ rw over (fit-exceeds max max_bytes m h)
  | inr fits ↦ rw fits fits
]

-- An entry that fits alone survives at the end of the table.
pub fit-snoc :
    (max : ℤ) (max_bytes : ℕ) (m : Table Entry) (k : Text) (e : Entry)
    → exceeds max max_bytes ((k, e) ∷ []) ≡ false
    → (n : ℕ) × (fit max max_bytes (m ++ (k, e) ∷ []) ≡ drop n m ++ (k, e) ∷ [])
unfolding fit
fit-snoc max max_bytes [] k e h = (0, rw h)
fit-snoc max max_bytes (x ∷ m) k e h =
    elim (Bool-cases (exceeds max max_bytes (x ∷ m ++ (k, e) ∷ []))) [
      | inl over ↦ let (n, ih) = fit-snoc max max_bytes m k e h in (suc n, rw over ih)
      | inr fits ↦ (0, rw fits)
    ]

-- The entries that go are the oldest, and with any one of them back the table is over the limits.
pub fit_least :
    (max : ℤ) (max_bytes : ℕ) (m : Table Entry)
    → (n : ℕ) × (fit max max_bytes m ≡ drop n m)
      × ((j : ℕ) → j < n → exceeds max max_bytes (drop j m) ≡ true)
unfolding fit
fit_least max max_bytes [] = (0, refl, λ j h. absurd (omega arith))
fit_least max max_bytes (x ∷ m) = elim (Bool-cases (exceeds max max_bytes (x ∷ m))) [
  | inl over ↦
      let (n, ih, earlier) = fit_least max max_bytes m in
      let before : (j : ℕ) → j < suc n → exceeds max max_bytes (drop j (x ∷ m)) ≡ true = elim [
        | zero ↦ λ h. over
        | suc j ↦ λ h. earlier j (omega arith)
      ] in
      (suc n, rw over ih, before)
  | inr fits ↦ (0, rw fits, λ j h. absurd (omega arith))
]

-- The eviction of a consistent cache drops a number of entries from the oldest end, and while
-- it drops them the rest still exceeds a limit: no entry goes that could stay.
pub evict_least :
    (c : Cache)
    → IsConsistent c
    → (n : ℕ) × ((evict (length c.order) c).items ≡ drop n c.items)
      × ((j : ℕ) → j < n → exceeds c.max c.max_bytes (drop j c.items) ≡ true)
evict_least c v =
    let (n, e, over) = fit_least c.max c.max_bytes c.items in (n, items-evict c v ∙ e, over)

pub length-fit-le :
    (max : ℤ) (max_bytes : ℕ) (m : Table Entry) → length (fit max max_bytes m) ≤ length m
unfolding fit
length-fit-le max max_bytes [] = omega arith
length-fit-le max max_bytes (x ∷ m) = ground (arith, length-fit-le max max_bytes m)
