-- ===== src/Evidence/Cache/Evict.antt =====
-- The eviction loop of `Put` in internal/evidence/cache.go.
use homelab_evidence_mcp.Prelude.{
  ℕ, zero, suc, ◌+◌, ◌≤◌, ◌≡◌, refl, ◌∙◌, sym, ap, Bool, ◌||◌, List, [], ◌∷◌, none, Text,
  text_beq_refl, if◌then◌else◌, ltb, length, arith, Bool-cases, inl, inr, subst,
}
use homelab_evidence_mcp.Prelude.Int.{ℤ, pos, ltb_ℤ}
use homelab_evidence_mcp.Prelude.Table.{Table, lookup, keys, Distinct, length-keys, without_absent}
use homelab_evidence_mcp.Evidence.Cache.{Cache, Entry, remove_locked, evict, is_over}
use homelab_evidence_mcp.Evidence.Cache.Remove.{
  weight, IsConsistent, SameLimits, items-remove_locked, remove_locked-SameLimits,
  remove_locked-IsConsistent,
}

-- A table is over the limits.
abbrev pub exceeds : ℤ → ℕ → Table Entry → Bool
exceeds max max_bytes m = ltb_ℤ max (pos (length m)) || ltb max_bytes (weight m)

-- The longest end of a table that is within the limits.
unfoldable pub fit : ℤ → ℕ → Table Entry → Table Entry
fit max max_bytes [] = []
fit max max_bytes (e ∷ m) =
    let rest = fit max max_bytes m in if exceeds max max_bytes (e ∷ m) then rest else e ∷ m

-- One round of the loop.
abbrev round : Text → Cache → Cache
round oldest c = let c' = remove_locked oldest c in record c' { evictions = c'.evictions + 1 }

evict-suc :
    (fuel : ℕ) (c : Cache) (oldest : Text) (ids : List Text)
    → c.order ≡ oldest ∷ ids
    → evict (suc fuel) c ≡ (if is_over c then evict fuel (round oldest c) else c)
unfolding evict
evict-suc fuel c oldest ids h = ground arith

evict-nil : (fuel : ℕ) (c : Cache) → c.order ≡ [] → evict fuel c ≡ c
unfolding evict
evict-nil zero c h = refl
evict-nil (suc fuel) c h = ground arith

round-IsConsistent : (id : Text) (c : Cache) → IsConsistent c → IsConsistent (round id c)
round-IsConsistent id c v =
    let w = remove_locked-IsConsistent id c v in
    record { ordered = w.ordered; distinct = w.distinct; weighed = w.weighed }

-- A round takes out the first entry.
items-round :
    (k : Text) (e : Entry) (m : Table Entry) (c : Cache)
    → c.items ≡ (k, e) ∷ m
    → lookup k m ≡ none
    → (round k c).items ≡ m
items-round k e m c h absent =
    items-remove_locked k c ∙ (rw h (rw (text_beq_refl k) (without_absent k m absent)))

over-exceeds : (c : Cache) → IsConsistent c → is_over c ≡ exceeds c.max c.max_bytes c.items
over-exceeds c v = rw v.weighed refl

module _ (P : Cache → Type 0) (step : (id : Text) (c : Cache) → P c → P (round id c)) where
  evict-induction : (fuel : ℕ) (c : Cache) → P c → P (evict fuel c)
  evict-induction zero c h = unfold evict in h
  evict-induction (suc fuel) c h =
      go c.order refl (λ id. evict-induction fuel (round id c) (step id c h))
    where
      go :
          (ids : List Text)
          → c.order ≡ ids
          → ((id : Text) → P (evict fuel (round id c)))
          → P (evict (suc fuel) c)
      go [] e next = rw (evict-nil (suc fuel) c e) h
      go (id ∷ ids) e next = elim (Bool-cases (is_over c)) [
        | inl over ↦ rw (evict-suc fuel c id ids e) (rw over (next id))
        | inr fits ↦ rw (evict-suc fuel c id ids e) (rw fits h)
      ]

pub evict-IsConsistent : (fuel : ℕ) (c : Cache) → IsConsistent c → IsConsistent (evict fuel c)
evict-IsConsistent = evict-induction IsConsistent round-IsConsistent

pub evict-SameLimits : (fuel : ℕ) (c : Cache) → SameLimits (evict fuel c) c
evict-SameLimits fuel c =
    evict-induction (λ d. SameLimits d c) (λ id d h. ground (arith, remove_locked-SameLimits id d))
      fuel c (record { ttl = refl; max = refl; max_bytes = refl })

items-evict_from :
    (fuel : ℕ) (m : Table Entry) (c : Cache)
    → c.items ≡ m
    → IsConsistent c
    → length m ≤ fuel
    → (evict fuel c).items ≡ fit c.max c.max_bytes m
unfolding fit
items-evict_from fuel [] c h v enough = rw (evict-nil fuel c (sym v.ordered ∙ ap keys h)) h
items-evict_from zero (e ∷ m) c h v enough = absurd (omega arith)
items-evict_from (suc fuel) ((k, e) ∷ m) c h v enough =
    let ord = sym v.ordered ∙ ap keys h in
    let d : Distinct ((k, e) ∷ m) = subst Distinct h v.distinct in
    let lim = remove_locked-SameLimits k c in
    let rest =
      items-evict_from fuel m (round k c) (items-round k e m c h d.0) (round-IsConsistent k c v)
        (omega arith) in
    let test = over-exceeds c v ∙ ap (exceeds c.max c.max_bytes) h in
    ground (arith, evict-suc fuel c k (keys m) ord, rest, test, lim, h)

-- With a round for each id in the order, the loop leaves the longest end of the table that is
-- within the limits.
pub items-evict :
    (c : Cache) → IsConsistent c → (evict (length c.order) c).items ≡ fit c.max c.max_bytes c.items
items-evict c v =
    items-evict_from (length c.order) c.items c refl v
      (omega (arith, length-keys c.items, ap length v.ordered))
