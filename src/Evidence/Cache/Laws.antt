-- ===== src/Evidence/Cache/Laws.antt =====
-- The methods of the evidence cache of internal/evidence/cache.go against an abstract table: a list
-- of entries, oldest first.
use homelab_evidence_mcp.Prelude.{
  ℕ, ◌+◌, ◌≤◌, ◌≡◌, refl, ◌∙◌, ap, not, ◌||◌, [], ◌∷◌, ◌++◌, Option, none, Text, text_beq,
  if◌then◌else◌, ltb, length, arith, Bool-cases, inl, inr, total-append, length-keep-le,
  total-keep-le,
}
use homelab_evidence_mcp.Prelude.Int.{ℤ, pos, leb_ℤ, pos_part}
use homelab_evidence_mcp.Prelude.Table.{
  Table, lookup, without, put_absent, keys-append, Distinct-snoc, lookup-without_self,
}
use homelab_evidence_mcp.Evidence.{Item, Time}
use homelab_evidence_mcp.Evidence.Cache.{
  Cache, Entry, new_cache, remove_locked, expire_locked, evict, serialized_item_size, stored,
  append_locked, put,
}
use homelab_evidence_mcp.Evidence.Cache.Remove.{
  weight, IsConsistent, SameLimits, items-remove_locked, remove_locked-SameLimits,
  remove_locked-IsConsistent,
}
use homelab_evidence_mcp.Evidence.Cache.Expire.{
  live, is_dead, expire_locked-IsConsistent, expire_locked-SameLimits, items-expire_locked,
}
use homelab_evidence_mcp.Evidence.Cache.Evict.{
  fit, items-evict, evict-IsConsistent, evict-SameLimits,
}
use homelab_evidence_mcp.Evidence.Cache.Limits.{fit-exceeds}

-- A consistent cache within its limits.
pub record IsValid (c : Cache) : Type 0 where
  pub consistent : IsConsistent c
  pub counted : length c.items ≤ pos_part c.max
  pub bounded : c.bytes ≤ c.max_bytes

-- `NewCache` gives a consistent cache within its limits, whatever the time to live and the
-- limits it is asked for.
pub new_cache-IsValid : (ttl max max_bytes : ℤ) → IsValid (new_cache ttl max max_bytes)
unfolding new_cache
new_cache-IsValid ttl max max_bytes = record {
  consistent = record { ordered = refl; distinct = tt; weighed = refl };
  counted = omega arith;
  bounded = omega arith;
}

module _ (marshal : Item → Option ℕ) where
  -- The table after `Put`: what has not expired, without an old entry of the id, then the new entry
  -- if it can fit; and of this the newest entries that are within the limits.
  unfoldable pub put_table : Item → Time → Time → Cache → Table Entry
  put_table item now later c =
      if leb_ℤ c.max (pos 0) || text_beq item.id []
      then c.items
      else (let others = without item.id (live now c.items) in
          if ltb c.max_bytes (serialized_item_size marshal item)
          then others
          else fit c.max c.max_bytes (others ++ (item.id, stored marshal item later c) ∷ []))

  append_locked-IsConsistent :
      (item : Item) (later : Time) (c : Cache)
      → lookup item.id c.items ≡ none
      → IsConsistent c
      → IsConsistent (append_locked marshal item later c)
        × ((append_locked marshal item later c).items
            ≡ c.items ++ (item.id, stored marshal item later c) ∷ [])
  unfolding append_locked stored
  append_locked-IsConsistent item later c absent v =
      let e = stored marshal item later c in
      let new = put_absent item.id e c.items absent in
      let more = (item.id, e) ∷ [] in
      (
        record {
          ordered = rw new (keys-append c.items more ∙ ap (λ ks. ks ++ item.id ∷ []) v.ordered);
          distinct = rw new (Distinct-snoc item.id e c.items absent v.distinct);
          weighed = rw new (
              omega (arith, v.weighed, total-append (λ (x : Text × Entry). x.1.size) c.items more));
        },
        new,
      )

  -- The cache when the new entry is about to be stored.
  abbrev ready : Item → Time → Cache → Cache
  ready item now c = remove_locked item.id (expire_locked now c)

  record IsReady (item : Item) (now : Time) (c d : Cache) : Type 0 where
    consistent : IsConsistent d
    table : d.items ≡ without item.id (live now c.items)
    absent : lookup item.id d.items ≡ none
    limits : SameLimits d c

  ready-IsReady :
      (item : Item) (now : Time) (c : Cache)
      → IsConsistent c
      → IsReady item now c (ready item now c)
  ready-IsReady item now c v =
      let c1 = expire_locked now c in
      let same = items-remove_locked item.id c1 in
      record {
        consistent = remove_locked-IsConsistent item.id c1 (expire_locked-IsConsistent now c v);
        table = same ∙ ap (without item.id) (items-expire_locked now c v.distinct);
        absent = rw same (lookup-without_self item.id c1.items);
        limits =
            ground (arith, remove_locked-SameLimits item.id c1, expire_locked-SameLimits now c);
      }

  -- The new entry, once stored and after the eviction.
  store_lem :
      (item : Item) (later : Time) (c d : Cache) (now : Time)
      → IsReady item now c d
      → let d' = append_locked marshal item later d in
        IsConsistent (evict (length d'.order) d')
        × ((evict (length d'.order) d').items
            ≡ fit c.max c.max_bytes
                (without item.id (live now c.items) ++ (item.id, stored marshal item later c) ∷ []))
        × SameLimits (evict (length d'.order) d') c
  unfolding append_locked stored
  store_lem item later c d now r =
      let a = append_locked-IsConsistent item later d r.absent r.consistent in
      let d' = append_locked marshal item later d in
      (
        evict-IsConsistent (length d'.order) d' a.0,
        cc (items-evict d' a.0, a.1, r.table, r.limits.max, r.limits.max_bytes, r.limits.ttl),
        ground (arith, evict-SameLimits (length d'.order) d', r.limits),
      )

  put-cases :
      (P : Cache → Type 0) (item : Item) (now later : Time) (c : Cache)
      → P c
      → (let d = ready item now c in P (record d { oversized = d.oversized + 1 }))
      → (let d' = append_locked marshal item later (ready item now c) in
          P (evict (length d'.order) d'))
      → P (put marshal item now later c)
  unfolding put
  put-cases P item now later c skipped big kept =
      elim (Bool-cases (leb_ℤ c.max (pos 0) || text_beq item.id [])) [
        | inl e ↦ rw e skipped
        | inr e ↦
            elim (Bool-cases
              (ltb (expire_locked now c).max_bytes (serialized_item_size marshal item))) [
                | inl f ↦ rw e (rw f big)
                | inr f ↦ rw e (rw f kept)
              ]
      ]

  pub put-IsConsistent :
      (item : Item) (now later : Time) (c : Cache)
      → IsConsistent c
      → IsConsistent (put marshal item now later c)
  put-IsConsistent item now later c v =
      let r = ready-IsReady item now c v in
      put-cases IsConsistent item now later c v
        (record {
          ordered = r.consistent.ordered;
          distinct = r.consistent.distinct;
          weighed = r.consistent.weighed;
        })
        (store_lem item later c (ready item now c) now r).0

  pub put-SameLimits :
      (item : Item) (now later : Time) (c : Cache)
      → IsConsistent c
      → SameLimits (put marshal item now later c) c
  put-SameLimits item now later c v =
      let r = ready-IsReady item now c v in
      put-cases (λ d. SameLimits d c) item now later c
        (record { ttl = refl; max = refl; max_bytes = refl })
        (record { ttl = r.limits.ttl; max = r.limits.max; max_bytes = r.limits.max_bytes })
        (store_lem item later c (ready item now c) now r).2

  -- In a consistent cache, the entries after `Put` are those of the abstract table: what has
  -- not expired, without an old entry of the id, then the new entry if it can fit, and of
  -- this the newest entries within the limits.
  pub items-put :
      (item : Item) (now later : Time) (c : Cache)
      → IsConsistent c
      → (put marshal item now later c).items ≡ put_table item now later c
  unfolding put put_table
  items-put item now later c v =
      let r = ready-IsReady item now c v in
      ground (
        arith,
        store_lem item later c (ready item now c) now r,
        expire_locked-SameLimits now c,
        r.table,
      )

  put_table-bounds :
      (item : Item) (now later : Time) (c : Cache)
      → IsValid c
      → (length (put_table item now later c) ≤ pos_part c.max)
        × (weight (put_table item now later c) ≤ c.max_bytes)
  unfolding put_table
  put_table-bounds item now later c v =
      let others = without item.id (live now c.items) in
      ground (
        arith,
        v.consistent.weighed,
        length-keep-le (λ (e : Text × Entry). not (is_dead now e)) c.items,
        length-keep-le (λ (e : Text × Entry). not (text_beq e.0 item.id)) (live now c.items),
        total-keep-le (λ (e : Text × Entry). e.1.size) (λ e. not (is_dead now e)) c.items,
        total-keep-le (λ (e : Text × Entry). e.1.size) (λ e. not (text_beq e.0 item.id))
            (live now c.items),
        fit-exceeds c.max c.max_bytes (others ++ (item.id, stored marshal item later c) ∷ []),
      )

  -- `Put` keeps a cache valid: the order and the byte count agree with the map, and both
  -- limits hold.
  pub put-IsValid :
      (item : Item) (now later : Time) (c : Cache)
      → IsValid c
      → IsValid (put marshal item now later c)
  put-IsValid item now later c v =
      let w = put-IsConsistent item now later c v.consistent in
      let b = put_table-bounds item now later c v in
      let t = items-put item now later c v.consistent in
      let l = put-SameLimits item now later c v.consistent in
      record {
        consistent = w;
        counted = rw t (rw l.max b.0);
        bounded = rw w.weighed (rw t (rw l.max_bytes b.1));
      }
