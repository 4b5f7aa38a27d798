-- ===== src/Evidence/Cache/Reads.antt =====
-- What `Get` of internal/evidence/cache.go returns after a `Put`.
use mathlib.Core.Option
use homelab_evidence_mcp.Prelude.{
  ℕ, ◌≡◌, refl, ◌∙◌, true, false, not, [], ◌∷◌, ◌++◌, Option, none, some, Text, text_beq,
  text_beq_refl, if◌then◌else◌, ltb, keep, drop, arith, keep-append,
}
use homelab_evidence_mcp.Prelude.Int.{pos, ltb_ℤ}
use homelab_evidence_mcp.Prelude.Table.{
  Table, lookup, without, lookup-without_self, lookup-append, lookup-keep_absent,
  lookup-drop_absent,
}
use homelab_evidence_mcp.Evidence.{Item, Time, Freshness}
use homelab_evidence_mcp.Evidence.Cache.{
  Cache, Entry, serialized_item_size, stored, put, get, as_cached, time_add,
}
use homelab_evidence_mcp.Evidence.Cache.Remove.{IsConsistent}
use homelab_evidence_mcp.Evidence.Cache.Expire.{live, is_dead, items-expire_locked}
use homelab_evidence_mcp.Evidence.Cache.Evict.{exceeds}
use homelab_evidence_mcp.Evidence.Cache.Limits.{fit-snoc}
use homelab_evidence_mcp.Evidence.Cache.Laws.{put_table, items-put, put-IsConsistent}

-- `Get` reads the entries that have not expired.
pub get-eq-live :
    (id : Text) (now : Time) (c : Cache)
    → IsConsistent c
    → text_beq id [] ≡ false
    → (get id now c).0 ≡ Option.map as_cached (lookup id (live now c.items))
unfolding get
get-eq-live id now c v h = rw h (rw (items-expire_locked now c v.distinct) refl)

lookup-live_snoc :
    (id : Text) (now : Time) (n : ℕ) (m : Table Entry) (e : Entry)
    → lookup id m ≡ none
    → lookup id (live now (drop n m ++ (id, e) ∷ []))
      ≡ (if ltb e.expires_at now then none else some e)
unfolding lookup
lookup-live_snoc id now n m e h =
    let p = λ (x : Text × Entry). not (is_dead now x) in
    ground (
      arith,
      keep-append p (drop n m) ((id, e) ∷ []),
      lookup-append id (keep p (drop n m)) (keep p ((id, e) ∷ [])),
      lookup-keep_absent p id (drop n m) (lookup-drop_absent n id m h),
      text_beq_refl id,
    )

module _ (marshal : Item → Option ℕ) where
  -- In a consistent cache with a positive limit of items, an item with an id that fits the
  -- byte limit can be read back until its time has passed, marked as cached, and not after
  -- that; the other fields are those that were stored.
  pub get-put :
      (item : Item) (now later read : Time) (c : Cache)
      → IsConsistent c
      → ltb_ℤ (pos 0) c.max ≡ true
      → text_beq item.id [] ≡ false
      → ltb c.max_bytes (serialized_item_size marshal item) ≡ false
      → (get item.id read (put marshal item now later c)).0 ≡ (
          if ltb (time_add later c.ttl) read
          then none
          else some (record item { freshness = Freshness.cached }))
  unfolding put_table stored
  get-put item now later read c v room named small =
      let e = stored marshal item later c in
      let others = without item.id (live now c.items) in
      let absent = lookup-without_self item.id (live now c.items) in
      let alone : exceeds c.max c.max_bytes ((item.id, e) ∷ []) ≡ false = ground arith in
      let (n, kept) = fit-snoc c.max c.max_bytes others item.id e alone in
      let table : (put marshal item now later c).items ≡ drop n others ++ (item.id, e) ∷ [] =
        items-put marshal item now later c v ∙ ground (arith, kept) in
      get-eq-live item.id read (put marshal item now later c)
        (put-IsConsistent marshal item now later c v) named
      ∙ rw table (rw (lookup-live_snoc item.id read n others e absent) (ground arith))
