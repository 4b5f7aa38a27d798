-- ===== src/Http/Get/Locked.antt =====
-- The destinations of `RegisterDestination` and `Get` in internal/httpx/client.go.
use homelab_evidence_mcp.Prelude.{
  ◌+◌, ◌≡◌, ◌∙◌, sym, ap, subst, inl, inr, true, false, [], ◌∷◌, ◌++◌, Option, none, some, Text,
  text_beq, All, arith, Bool-cases, Option-cases, Sum-cases,
}
use homelab_evidence_mcp.Prelude.Table
use homelab_evidence_mcp.Prelude.Table.{Table, lookup}
use homelab_evidence_mcp.Http.Store.{cache_get}
use homelab_evidence_mcp.Http.Paths.{
  invalid_path, trim_right, has_dot_segment, slash, join_url_path-IsBelow, dot-trim_right,
}
use homelab_evidence_mcp.Http.Info.{RequestInfo, record_miss, record_disabled}
use homelab_evidence_mcp.Http.Client.{
  Url, Destination, LockedClient, Library, Request, Network, is_web, check_base,
  register_destination,
}
use homelab_evidence_mcp.Http.Get.{
  Call, Clock, check_relative, check_call, cache_key, compose, fetch, get,
}

-- A destination that registration may have made.
abbrev pub IsBase : Destination → Type 0
IsBase d =
    (is_web d.scheme ≡ true) × (text_beq d.host [] ≡ false) × (has_dot_segment d.path ≡ false)

-- Every registered destination is one.
abbrev pub IsLocked : LockedClient → Type 0
IsLocked c = All (λ (e : Text × Destination). IsBase e.1) c.destinations

dots_of_valid : (path : Text) → invalid_path path ≡ false → has_dot_segment path ≡ false
unfolding invalid_path
dots_of_valid path h = ground arith

check_base-none :
    (raw : Text) (u : Url)
    → check_base raw u ≡ none
    → (is_web u.scheme ≡ true) × (text_beq u.host [] ≡ false) × (invalid_path u.path ≡ false)
unfolding check_base
check_base-none raw u h = ground arith

All-put :
    (k : Text) (d : Destination) (m : Table Destination)
    → IsBase d
    → All (λ (e : Text × Destination). IsBase e.1) m
    → All (λ (e : Text × Destination). IsBase e.1) (Table.put k d m)
unfolding Table.put
All-put k d [] b h = (b, tt)
All-put k d ((j, x) ∷ m) b h = elim (Bool-cases (text_beq j k)) [
  | inl e ↦ rw e (b, h.1)
  | inr e ↦ rw e (h.0, All-put k d m b h.1)
]

All-lookup :
    (k : Text) (d : Destination) (m : Table Destination)
    → All (λ (e : Text × Destination). IsBase e.1) m
    → lookup k m ≡ some d
    → IsBase d
unfolding lookup
All-lookup k d [] h e = absurd (ground arith)
All-lookup k d ((j, x) ∷ m) h e = elim (Bool-cases (text_beq j k)) [
  | inl f ↦ ground arith
  | inr f ↦ All-lookup k d m h.1 (ground arith)
]

register-cases :
    (lib : Library) (name raw : Text) (c d : LockedClient)
    → register_destination lib name raw c ≡ inr d
    → (u : Url) × (lookup name c.destinations ≡ none)
      × (check_base raw u ≡ none)
      × (d.destinations
          ≡ Table.put name
              (record { scheme = u.scheme; host = u.host; path = trim_right u.path })
              c.destinations)
unfolding register_destination
register-cases lib name raw c d h = elim (Option-cases (lib.parse raw)) [
  | inl e ↦ absurd (ground arith)
  | inr (u, e) ↦ (u, ground arith, ground arith, ground arith)
]

fetch-sent :
    (lib : Library) (net : Network) (clock : Clock) (key : Text) (request q : Request)
    (info : Option RequestInfo) (c : LockedClient)
    → (fetch lib net clock key request info c).sent ≡ some q
    → q ≡ request
unfolding fetch
fetch-sent lib net clock key request q info c h = ground arith

check_call-inr :
    (lib : Library) (call : Call) (c : LockedClient) (d : Destination) (rel : Url)
    → check_call lib call c ≡ inr (d, rel)
    → (lookup call.dest c.destinations ≡ some d) × (invalid_path rel.path ≡ false)
unfolding check_call check_relative
check_call-inr lib call c d rel h = ground arith

pub sent-cases :
    (lib : Library) (net : Network) (clock : Clock) (call : Call) (info : Option RequestInfo)
    (c : LockedClient) (q : Request)
    → (get lib net clock call info c).sent ≡ some q
    → (d : Destination) × (rel : Url) × (check_call lib call c ≡ inr (d, rel))
      × (q ≡ compose lib call c d rel)
unfolding get
sent-cases lib net clock call info c q h = elim (Sum-cases (check_call lib call c)) [
  | inl (e, is) ↦ absurd (ground arith)
  | inr ((d, rel), is) ↦
      let request = compose lib call c d rel in
      let key = cache_key lib call in
      let found = cache_get key clock.at_lookup c.store in
      let c1 = record c { store = found.1 } in
      (
        d,
        rel,
        is,
        ground (
          arith,
          fetch-sent lib net clock key request q (record_miss info)
              (record c1 { misses = c.misses + 1 }),
          fetch-sent lib net clock key request q (record_disabled info) c,
        ),
      )
]

-- `RegisterDestination` keeps the registry locked: whatever it accepts, every destination still
-- has the scheme http or https, a host, and a path with no segment `.` or `..`.
pub register_destination-IsLocked :
    (lib : Library) (name raw : Text) (c d : LockedClient)
    → IsLocked c
    → register_destination lib name raw c ≡ inr d
    → IsLocked d
register_destination-IsLocked lib name raw c d v h =
    let (u, new, fine, same) = register-cases lib name raw c d h in
    let (web, hosted, valid) = check_base-none raw u fine in
    let new_base : Destination = record {
      scheme = u.scheme;
      host = u.host;
      path = trim_right u.path;
    } in
    let base : IsBase new_base =
      (web, hosted, dot-trim_right u.path (dots_of_valid u.path valid)) in
    subst (All (λ (e : Text × Destination). IsBase e.1)) (sym same)
      (All-put name new_base c.destinations base v)

-- With a registry that is locked, a request that `Get` sends goes to the scheme and the host
-- that its destination was registered with; its path is the registered prefix, a `/` and more,
-- and has no segment `.` or `..`.
pub get-IsLocked :
    (lib : Library) (net : Network) (clock : Clock) (call : Call) (info : Option RequestInfo)
    (c : LockedClient) (q : Request)
    → IsLocked c
    → (get lib net clock call info c).sent ≡ some q
    → (d : Destination) × (r : Text) × (lookup call.dest c.destinations ≡ some d)
      × (q.scheme ≡ d.scheme)
      × (q.host ≡ d.host)
      × (is_web q.scheme ≡ true)
      × (q.path ≡ trim_right d.path ++ slash ∷ r)
      × (has_dot_segment q.path ≡ false)
unfolding compose
get-IsLocked lib net clock call info c q v h =
    let (d, rel, is, same) = sent-cases lib net clock call info c q h in
    let (there, valid) = check_call-inr lib call c d rel is in
    let base = All-lookup call.dest d c.destinations v there in
    let (r, below, clean) =
      join_url_path-IsBelow d.path rel.path base.2 (dots_of_valid rel.path valid) in
    (
      d,
      r,
      there,
      ap (λ (x : Request). x.scheme) same,
      ap (λ (x : Request). x.host) same,
      ap (λ (x : Request). is_web x.scheme) same ∙ base.0,
      ap (λ (x : Request). x.path) same ∙ below,
      ap (λ (x : Request). has_dot_segment x.path) same ∙ clean,
    )
