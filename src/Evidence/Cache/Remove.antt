-- ===== src/Evidence/Cache/Remove.antt =====
-- `removeLocked` of internal/evidence/cache.go.
use homelab_evidence_mcp.Prelude.{
  ℕ, ◌≡◌, ◌∙◌, ap, not, Text, text_beq, keep, total, arith, Option-cases, inl, inr,
}
use homelab_evidence_mcp.Prelude.Table.{
  Table, lookup, without, keys, Distinct, keys-without, Distinct-keep, total-without,
  without_absent,
}
use homelab_evidence_mcp.Evidence.Cache.{Cache, Entry, remove_locked}

-- The bytes of a table of entries.
abbrev pub weight : Table Entry → ℕ
weight = total (λ e. e.1.size)

-- The order lists the keys, no key stands twice, and `bytes` is the sum of the sizes.
pub record IsConsistent (c : Cache) : Type 0 where
  pub ordered : keys c.items ≡ c.order
  pub distinct : Distinct c.items
  pub weighed : c.bytes ≡ weight c.items

-- What removal and expiry leave alone.
pub record SameLimits (c d : Cache) : Type 0 where
  pub ttl : c.ttl ≡ d.ttl
  pub max : c.max ≡ d.max
  pub max_bytes : c.max_bytes ≡ d.max_bytes

pub items-remove_locked : (id : Text) (c : Cache) → (remove_locked id c).items ≡ without id c.items
unfolding remove_locked
items-remove_locked id c = ground (arith, without_absent id c.items)

pub remove_locked-SameLimits : (id : Text) (c : Cache) → SameLimits (remove_locked id c) c
unfolding remove_locked
remove_locked-SameLimits id c = ground arith

pub remove_locked-IsConsistent :
    (id : Text) (c : Cache) → IsConsistent c → IsConsistent (remove_locked id c)
unfolding remove_locked
remove_locked-IsConsistent id c v = elim (Option-cases (lookup id c.items)) [
  | inl e ↦ rw (e, remove_locked) v
  | inr (x, e) ↦
      rw (e, remove_locked)
        (record {
          ordered = keys-without id c.items ∙ ap (keep (λ j. not (text_beq j id))) v.ordered;
          distinct = Distinct-keep (λ j. not (text_beq j.0 id)) c.items v.distinct;
          weighed =
              omega
                (arith, v.weighed, total-without (λ (y : Entry). y.size) id c.items x v.distinct e);
        })
]
