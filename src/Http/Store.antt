-- ===== src/Http/Store.antt =====
-- The response cache of internal/httpx/client.go. The clock is an argument; a map is visited in the
-- order of insertion.
pub mod Laws
use homelab_evidence_mcp.Prelude.{
  ℕ, zero, suc, ◌+◌, ◌-◌, ◌*◌, ◌^◌, ◌<◌, Bool, not, ◌||◌, List, [], ◌∷◌, ◌++◌, Option, none, some,
  Text, text_beq, ltb, leb, if◌then◌else◌, length, keep,
}
use homelab_evidence_mcp.Prelude.Int.{ℤ, pos_part, neg_part}
use homelab_evidence_mcp.Prelude.Table
use homelab_evidence_mcp.Prelude.Table.{Table, lookup, without}
use homelab_evidence_mcp.Evidence.{Time}
use homelab_evidence_mcp.Evidence.Cache.{time_add}

abbrev pub max_cache_bytes : ℕ
max_cache_bytes = 33554432

abbrev pub max_cache_entries : ℕ
max_cache_entries = 128

pub record CacheEntry : Type 0 where
  pub status : ℕ
  pub body : Text
  pub collected_at : Time
  pub expires_at : Time
  pub truncated : Bool

-- The fields of `LockedClient` that hold the cache.
pub record Store : Type 0 where
  pub cache : Table CacheEntry
  pub cache_order : List Text
  pub cache_bytes : ℕ

unfoldable pub remove_cache_locked : Text → Store → Store
remove_cache_locked key c = elim (lookup key c.cache) [
  | none ↦ c
  | some e ↦ record {
    cache_bytes = c.cache_bytes - length e.body;
    cache = without key c.cache;
    cache_order = keep (λ k. not (text_beq k key)) c.cache_order;
  }
]

unfoldable pub expire_cache_loop : Time → Table CacheEntry → Store → Store
expire_cache_loop now [] c = c
expire_cache_loop now ((key, e) ∷ rest) c =
    expire_cache_loop now rest (if ltb now e.expires_at then c else remove_cache_locked key c)

unfoldable pub expire_cache_locked : Time → Store → Store
expire_cache_locked now c = expire_cache_loop now c.cache c

-- The test of the eviction loop: there is no room for this many bytes more.
abbrev pub is_full : ℕ → Store → Bool
is_full body_bytes c =
    leb max_cache_entries (length c.cache) || ltb max_cache_bytes (c.cache_bytes + body_bytes)

-- The eviction loop, on fuel. Each round takes one key off the order.
unfoldable pub make_room : ℕ → ℕ → Store → Store
make_room zero body_bytes c = c
make_room (suc fuel) body_bytes c = elim c.cache_order [
  | [] ↦ c
  | oldest ∷ _ ↦
      let rest = make_room fuel body_bytes (remove_cache_locked oldest c) in
      if is_full body_bytes c then rest else c
]

-- The last four writes of `cachePut`.
unfoldable pub store_entry : Text → CacheEntry → Store → Store
store_entry key e c = record {
  cache = Table.put key e c.cache;
  cache_order = c.cache_order ++ key ∷ [];
  cache_bytes = c.cache_bytes + length e.body;
}

-- The store when the new entry is about to be written.
unfoldable pub with_room : Text → ℕ → Time → Store → Store
with_room key body_bytes now c =
    let c2 = remove_cache_locked key (expire_cache_locked now c) in
    make_room (length c2.cache_order) body_bytes c2

-- The clock is read before the expiry and again for the new entry.
unfoldable pub cache_put : ℤ → Text → ℕ → Text → Time → Bool → Time → Time → Store → Store
unfolding with_room
cache_put ttl key status body collected_at truncated now later c =
    if ltb max_cache_bytes (length body)
    then c
    else store_entry key
        (record {
          status = status;
          body = body;
          collected_at = collected_at;
          expires_at = time_add later ttl;
          truncated = truncated;
        })
        (with_room key (length body) now c)

unfoldable pub cache_get : Text → Time → Store → Option CacheEntry × Store
cache_get key now c = elim (lookup key c.cache) [
  | none ↦ (none, c)
  | some e ↦ if ltb e.expires_at now then (none, remove_cache_locked key c) else (some e, c)
]
