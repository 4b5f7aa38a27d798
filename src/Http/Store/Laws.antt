-- ===== src/Http/Store/Laws.antt =====
-- The invariant of the response cache of internal/httpx/client.go.
use homelab_evidence_mcp.Prelude.{
  ℕ, zero, suc, ◌≤◌, ◌≡◌, refl, ◌∙◌, sym, ap, Bool, false, not, List, [], ◌∷◌, ◌++◌, none, some,
  Text, text_beq, text_beq_refl, text_beq_iff, ltb, if◌then◌else◌, length, keep, total,
  total-append, length-append, arith, Option-cases, Bool-cases, inl, inr,
}
use homelab_evidence_mcp.Prelude.Int.{ℤ}
use homelab_evidence_mcp.Prelude.Table
use homelab_evidence_mcp.Prelude.Table.{
  Table, lookup, without, keys, Distinct, keys-without, Distinct-keep, total-without,
  without_absent, put_absent, keys-append, Distinct-snoc, lookup-without_self, length-keys,
  lookup-append, lookup-without_ne,
}
use homelab_evidence_mcp.Evidence.{Time}
use homelab_evidence_mcp.Evidence.Cache.{time_add}
use homelab_evidence_mcp.Http.Store.{
  CacheEntry, Store, max_cache_bytes, max_cache_entries, remove_cache_locked, expire_cache_loop,
  expire_cache_locked, is_full, make_room, store_entry, with_room, cache_put, cache_get,
}

abbrev pub weight : Table CacheEntry → ℕ
weight = total (λ e. length e.1.body)

-- The order lists the keys, no key stands twice, and the byte count is the sum of the bodies.
pub record IsConsistent (c : Store) : Type 0 where
  pub ordered : keys c.cache ≡ c.cache_order
  pub distinct : Distinct c.cache
  pub weighed : c.cache_bytes ≡ weight c.cache

-- A consistent store within both limits.
pub record IsValid (c : Store) : Type 0 where
  pub consistent : IsConsistent c
  pub counted : length c.cache ≤ max_cache_entries
  pub bounded : c.cache_bytes ≤ max_cache_bytes

remove-IsConsistent :
    (key : Text) (c : Store) → IsConsistent c → IsConsistent (remove_cache_locked key c)
unfolding remove_cache_locked
remove-IsConsistent key c v = elim (Option-cases (lookup key c.cache)) [
  | inl e ↦ rw (e, remove_cache_locked) v
  | inr (x, e) ↦
      rw (e, remove_cache_locked)
        (record {
          ordered = keys-without key c.cache ∙ ap (keep (λ j. not (text_beq j key))) v.ordered;
          distinct = Distinct-keep (λ j. not (text_beq j.0 key)) c.cache v.distinct;
          weighed = omega (
            arith,
            v.weighed,
            total-without (λ (y : CacheEntry). length y.body) key c.cache x v.distinct e,
          );
        })
]

cache-remove : (key : Text) (c : Store) → (remove_cache_locked key c).cache ≡ without key c.cache
unfolding remove_cache_locked
cache-remove key c = ground (arith, without_absent key c.cache)

length-without-le : (key : Text) (m : Table CacheEntry) → length (without key m) ≤ length m
length-without-le key [] = omega arith
length-without-le key (e ∷ m) = ground (arith, length-without-le key m)

remove-IsValid : (key : Text) (c : Store) → IsValid c → IsValid (remove_cache_locked key c)
remove-IsValid key c v = record {
  consistent = remove-IsConsistent key c v.consistent;
  counted = rw cache-remove (omega (arith, v.counted, length-without-le key c.cache));
  bounded = omega (arith, v.bounded, bytes-remove key c);
}
  where
    bytes-remove : (k : Text) (d : Store) → (remove_cache_locked k d).cache_bytes ≤ d.cache_bytes
    bytes-remove k d = unfold remove_cache_locked in ground arith

expire-IsValid :
    (now : Time) (visit : Table CacheEntry) (c : Store)
    → IsValid c
    → IsValid (expire_cache_loop now visit c)
unfolding expire_cache_loop
expire-IsValid now [] c v = v
expire-IsValid now ((key, e) ∷ rest) c v = elim (Bool-cases (ltb now e.expires_at)) [
  | inl h ↦ rw h (expire-IsValid now rest c v)
  | inr h ↦ rw h (expire-IsValid now rest (remove_cache_locked key c) (remove-IsValid key c v))
]

-- `Stats` and `cachePut` expire entries first, and that keeps the store valid.
pub expire_cache_locked-IsValid :
    (now : Time) (c : Store) → IsValid c → IsValid (expire_cache_locked now c)
unfolding expire_cache_locked
expire_cache_locked-IsValid now c v = expire-IsValid now c.cache c v

-- What the loop of `cachePut` starts from and leaves, for a body of this many bytes.
record IsReady (key : Text) (c : Store) : Type 0 where
  valid : IsValid c
  absent : lookup key c.cache ≡ none

absent-without :
    (key oldest : Text) (m : Table CacheEntry)
    → lookup key m ≡ none
    → lookup key (without oldest m) ≡ none
absent-without key oldest m h = elim (Bool-cases (text_beq oldest key)) [
  | inl e ↦ ground (arith, text_beq_iff oldest key, lookup-without_self oldest m)
  | inr e ↦ lookup-without_ne key oldest m e ∙ h
]

remove-IsReady :
    (key oldest : Text) (c : Store) → IsReady key c → IsReady key (remove_cache_locked oldest c)
remove-IsReady key oldest c v = record {
  valid = remove-IsValid oldest c v.valid;
  absent = rw cache-remove (absent-without key oldest c.cache v.absent);
}

length-remove :
    (k : Text) (e : CacheEntry) (m : Table CacheEntry) (c : Store)
    → c.cache ≡ (k, e) ∷ m
    → length (remove_cache_locked k c).cache ≤ length m
length-remove k e m c h = rw cache-remove (rw h (rw (text_beq_refl k) (length-without-le k m)))

make_room-suc :
    (fuel n : ℕ) (c : Store) (oldest : Text) (ids : List Text)
    → c.cache_order ≡ oldest ∷ ids
    → make_room (suc fuel) n c
      ≡ (if is_full n c then make_room fuel n (remove_cache_locked oldest c) else c)
unfolding make_room
make_room-suc fuel n c oldest ids h = ground arith

make_room-nil : (fuel n : ℕ) (c : Store) → c.cache_order ≡ [] → make_room fuel n c ≡ c
unfolding make_room
make_room-nil zero n c h = refl
make_room-nil (suc fuel) n c h = ground arith

-- The store has room for a body of this many bytes under the key.
record HasRoom (key : Text) (n : ℕ) (c : Store) : Type 0 where
  ready : IsReady key c
  room : is_full n c ≡ false

make_room-HasRoom :
    (key : Text) (fuel n : ℕ) (m : Table CacheEntry) (c : Store)
    → c.cache ≡ m
    → IsReady key c
    → length m ≤ fuel
    → n ≤ max_cache_bytes
    → HasRoom key n (make_room fuel n c)
make_room-HasRoom key fuel n [] c h v enough fits =
    rw (make_room-nil fuel n c (sym v.valid.consistent.ordered ∙ ap keys h))
      (record { ready = v; room = ground (arith, h, v.valid.consistent.weighed, ap weight h) })
make_room-HasRoom key zero n (e ∷ m) c h v enough fits = absurd (omega arith)
make_room-HasRoom key (suc fuel) n ((k, e) ∷ m) c h v enough fits =
    let order = sym v.valid.consistent.ordered ∙ ap keys h in
    let less = length-remove k e m c h in
    let d = remove_cache_locked k c in
    let next =
      make_room-HasRoom key fuel n d.cache d refl (remove-IsReady key k c v) (omega arith) fits in
    elim (Bool-cases (is_full n c)) [
      | inl full ↦ rw (make_room-suc fuel n c k (keys m) order) (rw full next)
      | inr free ↦
          rw (make_room-suc fuel n c k (keys m) order) (rw free (record { ready = v; room = free }))
    ]

with_room-HasRoom :
    (key : Text) (n : ℕ) (now : Time) (c : Store)
    → IsValid c
    → n ≤ max_cache_bytes
    → HasRoom key n (with_room key n now c)
unfolding with_room
with_room-HasRoom key n now c v fits =
    let c1 = expire_cache_locked now c in
    let c2 = remove_cache_locked key c1 in
    let w = remove-IsValid key c1 (expire_cache_locked-IsValid now c v) in
    let ready : IsReady key c2 = record {
      valid = w;
      absent = rw cache-remove (lookup-without_self key c1.cache);
    } in
    let enough = sym (ap length w.consistent.ordered) ∙ length-keys c2.cache in
    make_room-HasRoom key (length c2.cache_order) n c2.cache c2 refl ready (omega arith) fits

store_entry-IsValid :
    (key : Text) (e : CacheEntry) (c : Store)
    → HasRoom key (length e.body) c
    → IsValid (store_entry key e c)
unfolding store_entry
store_entry-IsValid key e c h =
    let v = h.ready.valid in
    let new = put_absent key e c.cache h.ready.absent in
    let more : Table CacheEntry = (key, e) ∷ [] in
    record {
      consistent = record {
        ordered =
            rw new (keys-append c.cache more ∙ ap (λ ks. ks ++ key ∷ []) v.consistent.ordered);
        distinct = rw new (Distinct-snoc key e c.cache h.ready.absent v.consistent.distinct);
        weighed = rw new (
            omega (
              arith,
              v.consistent.weighed,
              total-append (λ (x : Text × CacheEntry). length x.1.body) c.cache more,
            ));
      };
      counted = rw new (ground (arith, length-append c.cache more, h.room));
      bounded = ground (arith, h.room);
    }

-- `cachePut` keeps a valid response cache valid: the order lists the keys of the map, the byte
-- count is the sum of the bodies, and there are at most 128 entries and 32 MiB.
pub cache_put-IsValid :
    (ttl : ℤ) (key : Text) (status : ℕ) (body : Text) (collected_at : Time) (truncated : Bool)
    (now later : Time) (c : Store)
    → IsValid c
    → IsValid (cache_put ttl key status body collected_at truncated now later c)
unfolding cache_put
cache_put-IsValid ttl key status body collected_at truncated now later c v =
    elim (Bool-cases (ltb max_cache_bytes (length body))) [
      | inl large ↦ rw large v
      | inr fits ↦
          let e : CacheEntry = record {
            status = status;
            body = body;
            collected_at = collected_at;
            expires_at = time_add later ttl;
            truncated = truncated;
          } in
          rw fits (
            store_entry-IsValid key e (with_room key (length body) now c)
              (with_room-HasRoom key (length body) now c v (ground arith)))
    ]

pub cache_get-IsValid :
    (key : Text) (now : Time) (c : Store) → IsValid c → IsValid (cache_get key now c).1
unfolding cache_get
cache_get-IsValid key now c v = elim (Option-cases (lookup key c.cache)) [
  | inl e ↦ rw (e, cache_get) v
  | inr (x, e) ↦ elim (Bool-cases (ltb x.expires_at now)) [
    | inl dead ↦ rw (e, cache_get) (rw dead (remove-IsValid key c v))
    | inr kept ↦ rw (e, cache_get) (rw kept v)
  ]
]

lookup-put_self :
    (k : Text) (e : CacheEntry) (m : Table CacheEntry) → lookup k (Table.put k e m) ≡ some e
unfolding lookup Table.put
lookup-put_self k e [] = ground (arith, text_beq_refl k)
lookup-put_self k e ((j, w) ∷ m) = ground (arith, text_beq_refl k, lookup-put_self k e m)

-- A body of at most 32 MiB that `cachePut` stores is what `cacheGet` returns under its key,
-- with its status, collection time and truncation flag, up to and at the expiry, and nothing
-- after it.
pub cache_get-cache_put :
    (ttl : ℤ) (key : Text) (status : ℕ) (body : Text) (collected_at : Time) (truncated : Bool)
    (now later at : Time) (c : Store)
    → length body ≤ max_cache_bytes
    → (cache_get key at (cache_put ttl key status body collected_at truncated now later c)).0 ≡ (
        if ltb (time_add later ttl) at
        then none
        else some (record {
          status = status;
          body = body;
          collected_at = collected_at;
          expires_at = time_add later ttl;
          truncated = truncated;
        }))
unfolding cache_put cache_get store_entry
cache_get-cache_put ttl key status body collected_at truncated now later at c fits =
    let e : CacheEntry = record {
      status = status;
      body = body;
      collected_at = collected_at;
      expires_at = time_add later ttl;
      truncated = truncated;
    } in
    let small : ltb max_cache_bytes (length body) ≡ false = ground arith in
    let found = lookup-put_self key e (with_room key (length body) now c).cache in
    rw small (rw (found, cache_get) (ground arith))
