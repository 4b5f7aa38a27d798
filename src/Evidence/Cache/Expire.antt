-- ===== src/Evidence/Cache/Expire.antt =====
-- `expireLocked` of internal/evidence/cache.go.
use mathlib.Core.List.{append_assoc}
use homelab_evidence_mcp.Prelude.{
  ◌+◌, ◌≡◌, refl, ◌∙◌, sym, Bool, not, [], ◌∷◌, ◌++◌, Text, text_beq, if◌then◌else◌, ltb, keep,
  count, arith, Bool-cases, inl, inr, subst,
}
use homelab_evidence_mcp.Prelude.Table.{Table, without, Distinct, Distinct-keep, without_middle}
use homelab_evidence_mcp.Evidence.{Time}
use homelab_evidence_mcp.Evidence.Cache.{
  Cache, Entry, remove_locked, expire_one, expire_loop, expire_locked,
}
use homelab_evidence_mcp.Evidence.Cache.Remove.{
  IsConsistent, SameLimits, items-remove_locked, remove_locked-SameLimits,
  remove_locked-IsConsistent,
}

abbrev pub is_dead : Time → Text × Entry → Bool
is_dead now e = ltb e.1.expires_at now

-- The entries that a reading at `now` may still use.
abbrev pub live : Time → Table Entry → Table Entry
live now = keep (λ e. not (is_dead now e))

expire_one-IsConsistent :
    (now : Time) (id : Text) (e : Entry) (c : Cache)
    → IsConsistent c
    → IsConsistent (expire_one now id e c)
unfolding expire_one
expire_one-IsConsistent now id e c v = elim (Bool-cases (ltb e.expires_at now)) [
  | inl dead ↦
      let w = remove_locked-IsConsistent id c v in
      rw (dead, expire_one)
        (record { ordered = w.ordered; distinct = w.distinct; weighed = w.weighed })
  | inr kept ↦ rw (kept, expire_one) v
]

expire_loop-IsConsistent :
    (now : Time) (visit : Table Entry) (c : Cache)
    → IsConsistent c
    → IsConsistent (expire_loop now visit c)
unfolding expire_loop
expire_loop-IsConsistent now [] c v = v
expire_loop-IsConsistent now ((id, e) ∷ rest) c v =
    expire_loop-IsConsistent now rest (expire_one now id e c) (expire_one-IsConsistent now id e c v)

pub expire_locked-IsConsistent :
    (now : Time) (c : Cache) → IsConsistent c → IsConsistent (expire_locked now c)
unfolding expire_locked
expire_locked-IsConsistent now c v = expire_loop-IsConsistent now c.items c v

expire_one-SameLimits :
    (now : Time) (id : Text) (e : Entry) (c : Cache) → SameLimits (expire_one now id e c) c
unfolding expire_one
expire_one-SameLimits now id e c = ground (arith, remove_locked-SameLimits id c)

expire_loop-SameLimits :
    (now : Time) (visit : Table Entry) (c : Cache) → SameLimits (expire_loop now visit c) c
unfolding expire_loop
expire_loop-SameLimits now [] c = record { ttl = refl; max = refl; max_bytes = refl }
expire_loop-SameLimits now ((id, e) ∷ rest) c = ground (
  arith,
  expire_loop-SameLimits now rest (expire_one now id e c),
  expire_one-SameLimits now id e c,
)

pub expire_locked-SameLimits : (now : Time) (c : Cache) → SameLimits (expire_locked now c) c
unfolding expire_locked
expire_locked-SameLimits now c = expire_loop-SameLimits now c.items c

items-expire_one :
    (now : Time) (id : Text) (e : Entry) (c : Cache)
    → (expire_one now id e c).items ≡ (if ltb e.expires_at now then without id c.items else c.items)
unfolding expire_one
items-expire_one now id e c = ground (arith, items-remove_locked id c)

items-expire_loop :
    (now : Time) (done visit : Table Entry) (c : Cache)
    → c.items ≡ done ++ visit
    → Distinct (done ++ visit)
    → (expire_loop now visit c).items ≡ done ++ live now visit
unfolding expire_loop
items-expire_loop now done [] c h d = h
items-expire_loop now done ((id, e) ∷ rest) c h d = elim (Bool-cases (ltb e.expires_at now)) [
  | inl dead ↦
      let gone = without_middle done id e rest d in
      let after : (expire_one now id e c).items ≡ done ++ rest =
        rw items-expire_one (rw dead (rw h gone)) in
      let d' : Distinct (done ++ rest) =
        subst Distinct gone
          (Distinct-keep (λ j. not (text_beq j.0 id)) (done ++ (id, e) ∷ rest) d) in
      rw dead (items-expire_loop now done rest (expire_one now id e c) after d')
  | inr kept ↦
      let split = append_assoc done ((id, e) ∷ []) rest in
      let after : (expire_one now id e c).items ≡ (done ++ (id, e) ∷ []) ++ rest =
        rw items-expire_one (rw kept (h ∙ sym split)) in
      let d' : Distinct ((done ++ (id, e) ∷ []) ++ rest) = subst Distinct (sym split) d in
      rw kept (
        items-expire_loop now (done ++ (id, e) ∷ []) rest (expire_one now id e c) after d'
        ∙ append_assoc done ((id, e) ∷ []) (live now rest))
]

-- Where no id stands twice, the table holds after the expiry just the entries that are not past
-- their time, in their old order.
pub items-expire_locked :
    (now : Time) (c : Cache) → Distinct c.items → (expire_locked now c).items ≡ live now c.items
unfolding expire_locked
items-expire_locked now c d = items-expire_loop now [] c.items c refl d

pub expired-expire_loop :
    (now : Time) (visit : Table Entry) (c : Cache)
    → (expire_loop now visit c).expired ≡ c.expired + count (is_dead now) visit
unfolding expire_loop expire_one remove_locked
expired-expire_loop now [] c = omega arith
expired-expire_loop now ((id, e) ∷ rest) c =
    ground (arith, expired-expire_loop now rest (expire_one now id e c))
