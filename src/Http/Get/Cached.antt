-- ===== src/Http/Get/Cached.antt =====
-- The ways in which `Get` of internal/httpx/client.go ends, and what each does to the response
-- cache.
use homelab_evidence_mcp.Prelude.{
  ◌+◌, ◌≡◌, ◌⊎◌, inl, inr, Bool, true, false, not, ◌&&◌, Option, none, Text, text_beq_refl, nat_eq,
  ◌==◌, ltb, length, arith, Bool-cases, Option-cases, Sum-cases,
}
use homelab_evidence_mcp.Prelude.Int.{pos, leb_ℤ}
use homelab_evidence_mcp.Prelude.Table
use homelab_evidence_mcp.Prelude.Table.{Table, lookup, without}
use homelab_evidence_mcp.Http.Store.{Store, cache_get, cache_put}
use homelab_evidence_mcp.Http.Store.Laws.{IsValid, cache_put-IsValid, cache_get-IsValid}
use homelab_evidence_mcp.Http.Info.{RequestInfo, record_miss, record_disabled}
use homelab_evidence_mcp.Http.Client.{
  LockedClient, Library, Request, Network, Answer, Reply, header_flag, cache_time_header,
  upstream_truncated_header,
}
use homelab_evidence_mcp.Http.Get.{
  Call, Clock, Outcome, check_call, cache_key, compose, receive, fetch, get,
}

-- The call that stores an answer.
abbrev pub put_answer : Library → Clock → Text → Answer → LockedClient → Bool → Store
put_answer lib clock key a c kept =
    cache_put c.cache_ttl key a.status a.body clock.at_read kept clock.at_expiry clock.at_store
      c.store

-- An answer is stored just when it is a whole one of status 200 and the cache is on.
pub record Stored (lib : Library) (clock : Clock) (key : Text) (a : Answer) (c : LockedClient)
    (kept : Bool) (r : Reply × LockedClient) : Type 0 where
  pub store : r.1.store ≡ put_answer lib clock key a c kept
  pub rest : r.1 ≡ record c { store = put_answer lib clock key a c kept }
  pub body : r.0.body ≡ a.body
  pub clean : r.0.error ≡ none
  pub ok : a.status ≡ 200
  pub active : leb_ℤ c.cache_ttl (pos 0) ≡ false

pub receive-cases :
    (lib : Library) (clock : Clock) (key : Text) (a : Answer) (c : LockedClient)
    → ((receive lib clock key a c).1 ≡ c)
      ⊎ ((kept : Bool) × Stored lib clock key a c kept (receive lib clock key a c))
unfolding receive
receive-cases lib clock key a c = elim (Bool-cases a.readable) [
  | inl r ↦ elim (Bool-cases (ltb c.max_body (length a.body))) [
    | inl l ↦ inl (ground arith)
    | inr l ↦ elim (Bool-cases (not (leb_ℤ c.cache_ttl (pos 0)) && a.status == 200)) [
      | inl e ↦ inr (
        (header_flag lib
            (Table.put cache_time_header (lib.format_time clock.at_read)
              (without cache_time_header a.headers))
            upstream_truncated_header),
        (record {
          store = ground arith;
          rest = ground arith;
          body = ground arith;
          clean = ground arith;
          ok = ground arith;
          active = ground arith;
        }),
      )
      | inr e ↦ inl (ground arith)
    ]
  ]
  | inr r ↦ inl (ground arith)
]

fetch-IsValid :
    (lib : Library) (net : Network) (clock : Clock) (key : Text) (request : Request)
    (info : Option RequestInfo) (c : LockedClient)
    → IsValid c.store
    → IsValid (fetch lib net clock key request info c).client.store
unfolding fetch
fetch-IsValid lib net clock key request info c v = elim (Bool-cases (lib.buildable request)) [
  | inl e ↦ elim (Sum-cases (net request)) [
    | inl (f, is) ↦ rw (e, fetch) (rw (is, fetch) v)
    | inr (a, is) ↦
        rw (e, fetch)
          (rw (is, fetch)
            (elim (receive-cases lib clock key a c) [
              | inl same ↦ rw same v
              | inr (kept, st) ↦ rw st.store (
                  cache_put-IsValid c.cache_ttl key a.status a.body clock.at_read kept
                    clock.at_expiry clock.at_store c.store v)
            ]))
  ]
  | inr e ↦ rw (e, fetch) v
]

-- The ways a call of `Get` ends.
pub data Ending (lib : Library) (net : Network) (clock : Clock) (call : Call)
    (info : Option RequestInfo) (c : LockedClient) (o : Outcome) : Type 0 where
  refused_call : o.client ≡ c → o.sent ≡ none → Ending lib net clock call info c o
  uncached :
      (request : Request) (i : Option RequestInfo)
      → leb_ℤ c.cache_ttl (pos 0) ≡ true
      → o ≡ fetch lib net clock (cache_key lib call) request i c
      → Ending lib net clock call info c o
  was_hit :
      o.client ≡ record c {
        store = (cache_get (cache_key lib call) clock.at_lookup c.store).1;
        hits = c.hits + 1;
      }
      → o.sent ≡ none
      → Ending lib net clock call info c o
  was_miss :
      (request : Request) (i : Option RequestInfo)
      → o
        ≡ fetch lib net clock (cache_key lib call) request i (record c {
          store = (cache_get (cache_key lib call) clock.at_lookup c.store).1;
          misses = c.misses + 1;
        })
      → Ending lib net clock call info c o

pub get-Ending :
    (lib : Library) (net : Network) (clock : Clock) (call : Call) (info : Option RequestInfo)
    (c : LockedClient)
    → Ending lib net clock call info c (get lib net clock call info c)
unfolding get compose
get-Ending lib net clock call info c = elim (Sum-cases (check_call lib call c)) [
  | inl (e, is) ↦ refused_call (ground arith) (ground arith)
  | inr ((d, rel), is) ↦
      let request = compose lib call c d rel in
      let o = get lib net clock call info c in
      let s = text_beq_refl d.scheme in
      let h = text_beq_refl d.host in
      elim (Bool-cases (leb_ℤ c.cache_ttl (pos 0))) [
        | inl off ↦ uncached request (record_disabled info) off (ground (arith, s, h))
        | inr on ↦ elim (Option-cases (cache_get (cache_key lib call) clock.at_lookup c.store).0) [
          | inl none_there ↦ was_miss request (record_miss info) (ground (arith, s, h))
          | inr (e, there) ↦ was_hit (ground (arith, s, h)) (ground (arith, s, h))
        ]
      ]
]

Ending-IsValid :
    (lib : Library) (net : Network) (clock : Clock) (call : Call) (info : Option RequestInfo)
    (c : LockedClient) (o : Outcome)
    → Ending lib net clock call info c o
    → IsValid c.store
    → IsValid o.client.store
Ending-IsValid lib net clock call info c o (refused_call e s) v = rw e v
Ending-IsValid lib net clock call info c o (uncached request i off e) v =
    rw e (fetch-IsValid lib net clock (cache_key lib call) request i c v)
Ending-IsValid lib net clock call info c o (was_hit e s) v =
    rw e (cache_get-IsValid (cache_key lib call) clock.at_lookup c.store v)
Ending-IsValid lib net clock call info c o (was_miss request i e) v =
    let c1 : LockedClient = record c {
      store = (cache_get (cache_key lib call) clock.at_lookup c.store).1;
      misses = c.misses + 1;
    } in
    rw e (
      fetch-IsValid lib net clock (cache_key lib call) request i c1
        (cache_get-IsValid (cache_key lib call) clock.at_lookup c.store v))

-- Every call of `Get` keeps a valid response cache valid, whatever the network answers: the
-- order lists the keys, the byte count is right, and there are at most 128 entries and 32 MiB.
pub get-IsValid :
    (lib : Library) (net : Network) (clock : Clock) (call : Call) (info : Option RequestInfo)
    (c : LockedClient)
    → IsValid c.store
    → IsValid (get lib net clock call info c).client.store
get-IsValid lib net clock call info c v =
    Ending-IsValid lib net clock call info c (get lib net clock call info c)
      (get-Ending lib net clock call info c) v
