-- ===== src/Http/Get/Repeat.antt =====
-- Two equal calls of `Get` in internal/httpx/client.go, one after the other.
use homelab_evidence_mcp.Prelude.{
  ◌+◌, ◌≤◌, ◌≡◌, refl, ◌∙◌, sym, ap, subst, inl, inr, Bool, false, Option, none, some, Text,
  text_beq_refl, nat_eq, ltb, length, arith, Sum-cases,
}
use homelab_evidence_mcp.Prelude.Int.{pos, leb_ℤ}
use homelab_evidence_mcp.Prelude.Table
use homelab_evidence_mcp.Prelude.Table.{Table, lookup, without}
use homelab_evidence_mcp.Evidence.Cache.{time_add}
use homelab_evidence_mcp.Http.Store.{CacheEntry, max_cache_bytes, cache_get}
use homelab_evidence_mcp.Http.Store.Laws.{cache_get-cache_put}
use homelab_evidence_mcp.Http.Info.{RequestInfo}
use homelab_evidence_mcp.Http.Client.{
  Url, Destination, LockedClient, Library, Request, Network, Answer, Response, Reply, header_flag,
  cache_time_header, upstream_truncated_header,
}
use homelab_evidence_mcp.Http.Get.{
  Call, Clock, Outcome, check_call, cache_key, compose, receive, fetch, cached_reply, get,
}
use homelab_evidence_mcp.Http.Get.Locked.{sent-cases}
use homelab_evidence_mcp.Http.Get.Cached.{
  put_answer, Ending, refused_call, uncached, was_hit, was_miss, get-Ending,
}

-- The call went to the network and came back whole, with status 200.
pub record Succeeded (o : Outcome) (q : Request) (r : Response) : Type 0 where
  pub sent : o.sent ≡ some q
  pub clean : o.reply.error ≡ none
  pub response : o.reply.response ≡ some r
  pub ok : r.status ≡ 200

-- The client after an answer was stored.
record Kept (lib : Library) (clock : Clock) (key : Text) (c : LockedClient) (a : Answer)
    (kept : Bool) (o : Outcome) : Type 0 where
  store : o.client.store ≡ put_answer lib clock key a c kept
  places : o.client.destinations ≡ c.destinations
  ttl : o.client.cache_ttl ≡ c.cache_ttl
  body : o.reply.body ≡ a.body

fetch-Kept :
    (lib : Library) (net : Network) (clock : Clock) (key : Text) (request : Request)
    (info : Option RequestInfo) (c : LockedClient) (q : Request) (r : Response)
    → leb_ℤ c.cache_ttl (pos 0) ≡ false
    → Succeeded (fetch lib net clock key request info c) q r
    → (a : Answer) × (kept : Bool) × Kept lib clock key c a kept
        (fetch lib net clock key request info c)
unfolding fetch receive
fetch-Kept lib net clock key request info c q r on s = elim (Sum-cases (net request)) [
  | inl (f, is) ↦ absurd (ground (arith, s.sent, s.clean))
  | inr (a, is) ↦ (
    a,
    header_flag lib
        (Table.put cache_time_header (lib.format_time clock.at_read)
          (without cache_time_header a.headers))
        upstream_truncated_header,
    (record {
      store = ground (arith, s.sent, s.clean, s.response, s.ok);
      places = ground (arith, s.sent, s.clean, s.response, s.ok);
      ttl = ground (arith, s.sent, s.clean, s.response, s.ok);
      body = ground (arith, s.sent, s.clean, s.response, s.ok);
    }),
  )
]

get-hit :
    (lib : Library) (net : Network) (clock : Clock) (call : Call) (info : Option RequestInfo)
    (c : LockedClient) (d : Destination) (rel : Url) (e : CacheEntry)
    → check_call lib call c ≡ inr (d, rel)
    → leb_ℤ c.cache_ttl (pos 0) ≡ false
    → (cache_get (cache_key lib call) clock.at_lookup c.store).0 ≡ some e
    → ((get lib net clock call info c).sent ≡ none)
      × ((get lib net clock call info c).reply ≡ cached_reply lib e)
unfolding get compose
get-hit lib net clock call info c d rel e is on found = (
  ground (arith, text_beq_refl d.scheme, text_beq_refl d.host),
  ground (arith, text_beq_refl d.scheme, text_beq_refl d.host),
)

check_call-same :
    (lib : Library) (call : Call) (c d : LockedClient)
    → c.destinations ≡ d.destinations
    → check_call lib call c ≡ check_call lib call d
unfolding check_call
check_call-same lib call c d e = rw e refl

-- The client that asked the network.
abbrev asked : Library → Clock → Call → LockedClient → LockedClient
asked lib clock call c = record c {
  store = (cache_get (cache_key lib call) clock.at_lookup c.store).1;
  misses = c.misses + 1;
}

Ending-Kept :
    (lib : Library) (net : Network) (clock : Clock) (call : Call) (info : Option RequestInfo)
    (c : LockedClient) (o : Outcome) (q : Request) (r : Response)
    → leb_ℤ c.cache_ttl (pos 0) ≡ false
    → Ending lib net clock call info c o
    → Succeeded o q r
    → (a : Answer) × (kept : Bool) × Kept lib clock
        (cache_key lib call)
        (asked lib clock call c)
        a
        kept
        o
Ending-Kept lib net clock call info c o q r on (refused_call e s) ok =
    absurd (ground (arith, ok.sent))
Ending-Kept lib net clock call info c o q r on (uncached request i off e) ok = absurd (ground arith)
Ending-Kept lib net clock call info c o q r on (was_hit e s) ok = absurd (ground (arith, ok.sent))
Ending-Kept lib net clock call info c o q r on (was_miss request i e) ok =
    let now = subst (λ x. Succeeded x q r) e ok in
    let (a, kept, k) =
      fetch-Kept lib net clock (cache_key lib call) request i (asked lib clock call c) q r on now in
    (a, kept, subst (Kept lib clock (cache_key lib call) (asked lib clock call c) a kept) (sym e) k)

-- After a call of `Get` that was answered by the network with status 200 and without an error,
-- with the cache on and a body of at most 32 MiB, an equal call before the expiry sends no
-- request and returns the same body, whatever the network would answer by then.
pub repeat_get_lem :
    (lib : Library) (net later_net : Network) (clock later : Clock) (call : Call)
    (info later_info : Option RequestInfo) (c : LockedClient) (q : Request) (r : Response)
    → leb_ℤ c.cache_ttl (pos 0) ≡ false
    → Succeeded (get lib net clock call info c) q r
    → length (get lib net clock call info c).reply.body ≤ max_cache_bytes
    → ltb (time_add clock.at_store c.cache_ttl) later.at_lookup ≡ false
    → ((get lib later_net later call later_info (get lib net clock call info c).client).sent ≡ none)
      × ((get lib later_net later call later_info (get lib net clock call info c).client).reply.body
          ≡ (get lib net clock call info c).reply.body)
      × ((get lib later_net later call later_info
            (get lib net clock call info c).client).reply.error
          ≡ none)
unfolding cached_reply
repeat_get_lem lib net later_net clock later call info later_info c q r on ok small early =
    let o = get lib net clock call info c in
    let (a, kept, k) =
      Ending-Kept lib net clock call info c o q r on (get-Ending lib net clock call info c) ok in
    let (d, rel, is, same) = sent-cases lib net clock call info c q ok.sent in
    let key = cache_key lib call in
    let there = check_call-same lib call o.client c k.places ∙ is in
    let e : CacheEntry = record {
      status = a.status;
      body = a.body;
      collected_at = clock.at_read;
      expires_at = time_add clock.at_store c.cache_ttl;
      truncated = kept;
    } in
    let stored =
      cache_get-cache_put c.cache_ttl key a.status a.body clock.at_read kept clock.at_expiry
        clock.at_store later.at_lookup (asked lib clock call c).store
        (omega (arith, ap length k.body)) in
    let found : (cache_get key later.at_lookup o.client.store).0 ≡ some e =
      rw k.store (stored ∙ ground arith) in
    let (quiet, reply) =
      get-hit lib later_net later call later_info o.client d rel e there (rw k.ttl on) found in
    (quiet, ap (λ (x : Reply). x.body) reply ∙ sym k.body, ap (λ (x : Reply). x.error) reply)
