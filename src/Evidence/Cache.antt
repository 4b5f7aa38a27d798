-- ===== src/Evidence/Cache.antt =====
-- The evidence cache of internal/evidence/cache.go: a map of entries beside the order of
-- insertion, bounded by a number of items and a number of bytes. The lock makes each method one
-- step. The methods that read the clock take each reading as an argument, and the map is iterated
-- in its order of insertion.
pub mod Remove
pub mod Expire
pub mod Evict
pub mod Limits
pub mod Laws
pub mod Reads
mod Tests
use mathlib.Core.Option
use homelab_evidence_mcp.Prelude.{
  ℕ, zero, suc, ◌+◌, ◌-◌, ◌*◌, ◌^◌, Bool, true, false, not, ◌||◌, List, [], ◌∷◌, ◌++◌, Option, none,
  some, Text, text_beq, if◌then◌else◌, ltb, leb, length, keep,
}
use homelab_evidence_mcp.Prelude.Int.{ℤ, pos, leb_ℤ, ltb_ℤ, pos_part, neg_part}
use homelab_evidence_mcp.Prelude.Table
use homelab_evidence_mcp.Prelude.Table.{Table, lookup, without}
use homelab_evidence_mcp.Evidence.{Item, Time, Freshness}
use homelab_evidence_mcp.Evidence.Age.{minute}

abbrev pub max_cache_items : ℕ
max_cache_items = 1000

abbrev pub default_cache_max_bytes : ℕ
default_cache_max_bytes = 8 * 2 ^ 20

abbrev pub max_cache_bytes : ℕ
max_cache_bytes = 64 * 2 ^ 20

pub record Entry : Type 0 where
  pub item : Item
  pub expires_at : Time
  pub size : ℕ

pub record Cache : Type 0 where
  pub ttl : ℤ
  pub max : ℤ
  pub max_bytes : ℕ
  pub bytes : ℕ
  pub items : Table Entry
  pub order : List Text
  pub evictions : ℕ
  pub expired : ℕ
  pub oversized : ℕ

pub record CacheStats : Type 0 where
  pub items : ℕ
  pub bytes : ℕ
  pub max_items : ℤ
  pub max_bytes : ℕ
  pub evictions : ℕ
  pub expired : ℕ
  pub oversized : ℕ

unfoldable pub new_cache : ℤ → ℤ → ℤ → Cache
new_cache ttl max max_bytes = record {
  ttl = if leb_ℤ ttl (pos 0) then pos (5 * minute) else ttl;
  max = if ltb_ℤ (pos max_cache_items) max then pos max_cache_items else max;
  max_bytes =
      let bytes = if leb_ℤ max_bytes (pos 0) then default_cache_max_bytes else pos_part max_bytes in
      if ltb max_cache_bytes bytes then max_cache_bytes else bytes;
  bytes = 0;
  items = [];
  order = [];
  evictions = 0;
  expired = 0;
  oversized = 0;
}

unfoldable pub remove_locked : Text → Cache → Cache
remove_locked id c = elim (lookup id c.items) [
  | none ↦ c
  | some e ↦ record c {
    bytes = c.bytes - e.size;
    items = without id c.items;
    order = keep (λ existing. not (text_beq existing id)) c.order;
  }
]

-- One round of the loop of `expireLocked`.
unfoldable pub expire_one : Time → Text → Entry → Cache → Cache
expire_one now id e c =
    if ltb e.expires_at now
    then (let c' = remove_locked id c in record c' { expired = c'.expired + 1 })
    else c

unfoldable pub expire_loop : Time → Table Entry → Cache → Cache
expire_loop now [] c = c
expire_loop now ((id, e) ∷ rest) c = expire_loop now rest (expire_one now id e c)

unfoldable pub expire_locked : Time → Cache → Cache
unfolding expire_loop expire_one remove_locked
expire_locked now c = expire_loop now c.items c

-- The test of the eviction loop, on the number of items and the bytes.
abbrev pub is_over : Cache → Bool
is_over c = ltb_ℤ c.max (pos (length c.items)) || ltb c.max_bytes c.bytes

-- The eviction loop, on fuel. Each round takes one id off the order.
unfoldable pub evict : ℕ → Cache → Cache
evict zero c = c
evict (suc fuel) c = elim c.order [
  | [] ↦ c
  | oldest ∷ _ ↦
      let c' = remove_locked oldest c in
      let rest = evict fuel (record c' { evictions = c'.evictions + 1 }) in
      if is_over c then rest else c
]

-- `t.Add(d)`.
abbrev pub time_add : Time → ℤ → Time
time_add t d = t + pos_part d - neg_part d

-- `json.Marshal` is not part of the program: `marshal` gives the length of the encoding, or an
-- error.
module _ (marshal : Item → Option ℕ) where
  unfoldable pub serialized_item_size : Item → ℕ
  serialized_item_size item = elim (marshal item) [ none ↦ 0 | some raw ↦ raw ]

  unfoldable pub stored : Item → Time → Cache → Entry
  stored item now c = record {
    item = item;
    expires_at = time_add now c.ttl;
    size = serialized_item_size item;
  }

  -- The three writes that store an item.
  unfoldable pub append_locked : Item → Time → Cache → Cache
  unfolding stored
  append_locked item now c = record c {
    items = Table.put item.id (stored item now c) c.items;
    order = c.order ++ item.id ∷ [];
    bytes = c.bytes + serialized_item_size item;
  }

  -- `Put`; the clock is read before the expiry and again for the new entry.
  unfoldable pub put : Item → Time → Time → Cache → Cache
  put item now later c =
      if leb_ℤ c.max (pos 0) || text_beq item.id []
      then c
      else (let c1 = expire_locked now c in
          let c2 = remove_locked item.id c1 in
          let c3 = append_locked item later c2 in
          if ltb c1.max_bytes (serialized_item_size item)
          then record c2 { oversized = c2.oversized + 1 }
          else evict (length c3.order) c3)

  -- `PutAll`, with the readings of the clock for each item.
  unfoldable pub put_all : List (Item × Time × Time) → Cache → Cache
  put_all [] c = c
  put_all ((item, now, later) ∷ rest) c = put_all rest (put item now later c)

-- A copy of the stored item, marked as cached.
abbrev pub as_cached : Entry → Item
as_cached e = record (e.item) { freshness = Freshness.cached }

unfoldable pub get : Text → Time → Cache → Option Item × Cache
get id now c =
    if text_beq id []
    then (none, c)
    else (let c1 = expire_locked now c in (Option.map as_cached (lookup id c1.items), c1))

unfoldable pub stats : Time → Cache → CacheStats × Cache
stats now c =
    let c1 = expire_locked now c in
    (
      record {
        items = length c1.items;
        bytes = c1.bytes;
        max_items = c1.max;
        max_bytes = c1.max_bytes;
        evictions = c1.evictions;
        expired = c1.expired;
        oversized = c1.oversized;
      },
      c1,
    )
