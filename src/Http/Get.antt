-- ===== src/Http/Get.antt =====
-- `Get` of internal/httpx/client.go. The context, the readings of the clock and the network are
-- arguments; the result says which request went out.
pub mod Locked
pub mod Cached
pub mod Repeat
use homelab_evidence_mcp.Prelude.{
  ℕ, zero, suc, ◌+◌, ◌<◌, ◌≡◌, refl, ◌⊎◌, inl, inr, Bool, true, false, not, ◌||◌, ◌&&◌, List, [],
  ◌∷◌, ◌++◌, Option, none, some, Text, ascii, text_beq, text_eq, nat_eq, ◌==◌, ltb, leb,
  if◌then◌else◌, length, take,
}
use homelab_evidence_mcp.Prelude.Int.{ℤ, pos, leb_ℤ}
use homelab_evidence_mcp.Prelude.Table
use homelab_evidence_mcp.Prelude.Table.{Table, lookup, without}
use homelab_evidence_mcp.Evidence.{Time}
use homelab_evidence_mcp.Redaction.Search.{has_prefix}
use homelab_evidence_mcp.Http.Store.{Store, CacheEntry, cache_get, cache_put}
use homelab_evidence_mcp.Http.Paths.{join_url_path, invalid_path}
use homelab_evidence_mcp.Http.Info.{RequestInfo, record_hit, record_miss, record_disabled}
use homelab_evidence_mcp.Http.Client.{
  Url, Destination, LockedClient, Library, Request, Network, NetFailure, Answer, Response, Reply,
  GetError, refused, header_flag, header_fingerprint, sanitize_net_err, cache_time_header,
  upstream_truncated_header, nil_context, context_error, no_leading_slash, path_too_long,
  unknown_dest, invalid_request_path, absolute_url, fragment_in_path, invalid_relative_path,
  host_mismatch, construction_failed, body_read_failed, body_too_large,
}

-- The context: nil, ended, or usable.
pub data Context : Type 0 where
  nil_ctx ended open_ctx : Context

-- The arguments of one call.
pub record Call : Type 0 where
  pub context : Context
  pub dest : Text
  pub path : Text
  pub headers : Table Text

-- The readings of the clock, in their order.
pub record Clock : Type 0 where
  pub at_lookup : Time
  pub at_read : Time
  pub at_expiry : Time
  pub at_store : Time

pub record Outcome : Type 0 where
  pub client : LockedClient
  pub info : Option RequestInfo
  pub sent : Option Request
  pub reply : Reply

-- The checks on the parsed path.
unfoldable pub check_relative : Library → Url → Option GetError
check_relative lib rel =
    if lib.is_abs rel || (not (text_beq rel.host []) || not (text_beq rel.scheme []))
    then some absolute_url
    else if not (text_beq rel.fragment [])
    then some fragment_in_path
    else if has_prefix rel.path (ascii "//") || invalid_path rel.path
    then some invalid_relative_path
    else none

-- The checks of `Get` up to the composed URL.
unfoldable pub check_call : Library → Call → LockedClient → GetError ⊎ Destination × Url
check_call lib call c = elim call.context [
  | nil_ctx ↦ inl nil_context
  | ended ↦ inl context_error
  | open_ctx ↦
      if not (has_prefix call.path (ascii "/"))
      then inl no_leading_slash
      else if ltb 8192 (length call.path)
      then inl path_too_long
      else elim (lookup call.dest c.destinations) [
        | none ↦ inl unknown_dest
        | some d ↦ elim (lib.parse call.path) [
          | none ↦ inl invalid_request_path
          | some rel ↦ elim (check_relative lib rel) [ some e ↦ inl e | none ↦ inr (d, rel) ]
        ]
      ]
]

unfoldable pub cache_key : Library → Call → Text
cache_key lib call =
    call.dest
    ++ (ascii "\n"
        ++ (lib.keyed_fingerprint (ascii "path") call.path
            ++ (ascii "\n" ++ header_fingerprint lib call.headers)))

-- The loop over the headers of the caller.
unfoldable pub set_headers : Library → Table Text → Table Text → Table Text
set_headers lib [] out = out
set_headers lib ((k, v) ∷ rest) out =
    let canonical = lib.canonical_header_key (lib.trim_space k) in
    let lk = lib.to_lower canonical in
    let skip =
      text_beq lk (ascii "host")
      || (text_beq lk (ascii "authorization") && text_beq (lib.trim_space v) []) in
    set_headers lib rest (if skip then out else Table.put canonical v out)

unfoldable pub compose : Library → Call → LockedClient → Destination → Url → Request
unfolding set_headers
compose lib call c d rel = record {
  scheme = d.scheme;
  host = d.host;
  path = join_url_path d.path rel.path;
  raw_query = rel.raw_query;
  headers = set_headers lib call.headers (
      Table.put (ascii "Accept") (ascii "application/json")
        (Table.put (ascii "User-Agent") c.user_agent []));
}

-- The answer of the network, read and kept.
unfoldable pub receive : Library → Clock → Text → Answer → LockedClient → Reply × LockedClient
receive lib clock key a c =
    let headers = without cache_time_header a.headers in
    let stamped = Table.put cache_time_header (lib.format_time clock.at_read) headers in
    let kept = header_flag lib stamped upstream_truncated_header in
    if not a.readable
    then (
      record {
        response = some (record { status = a.status; headers = headers });
        body = [];
        error = some body_read_failed;
      },
      c,
    )
    else if ltb c.max_body (length a.body)
    then (
      record {
        response = some (record { status = a.status; headers = headers });
        body = take c.max_body a.body;
        error = some body_too_large;
      },
      c,
    )
    else (
      record {
        response = some (record { status = a.status; headers = stamped });
        body = a.body;
        error = none;
      },
      if not (leb_ℤ c.cache_ttl (pos 0)) && a.status == 200
          then record c {
            store =
                cache_put c.cache_ttl key a.status a.body clock.at_read kept clock.at_expiry
                  clock.at_store c.store;
          }
          else c,
    )

-- The request, from the construction on.
unfoldable pub fetch :
    Library → Network → Clock → Text → Request → Option RequestInfo → LockedClient → Outcome
unfolding receive
fetch lib net clock key request info c =
    if not (lib.buildable request)
    then record { client = c; info = info; sent = none; reply = refused construction_failed }
    else elim (net request) [
      | inl e ↦ record {
        client = c;
        info = info;
        sent = some request;
        reply = refused (sanitize_net_err e);
      }
      | inr a ↦
          let (reply, c') = receive lib clock key a c in
          record { client = c'; info = info; sent = some request; reply = reply }
    ]

-- The reply that a cache hit gives.
unfoldable pub cached_reply : Library → CacheEntry → Reply
cached_reply lib e =
    let headers : Table Text = (cache_time_header, lib.format_time e.collected_at) ∷ [] in
    record {
      response = some (record {
        status = e.status;
        headers =
            if e.truncated
            then Table.put upstream_truncated_header (ascii "1") headers
            else headers;
      });
      body = e.body;
      error = none;
    }

unfoldable pub get : Library → Network → Clock → Call → Option RequestInfo → LockedClient → Outcome
get lib net clock call info c = elim (check_call lib call c) [
  | inl e ↦ record { client = c; info = info; sent = none; reply = refused e }
  | inr (d, rel) ↦
      let request = compose lib call c d rel in
      let key = cache_key lib call in
      let (found, store) = cache_get key clock.at_lookup c.store in
      let c1 = record c { store = store } in
      let missed =
        fetch lib net clock key request (record_miss info) (record c1 { misses = c.misses + 1 }) in
      if not (text_beq request.scheme d.scheme) || not (text_beq request.host d.host)
      then record { client = c; info = info; sent = none; reply = refused host_mismatch }
      else if leb_ℤ c.cache_ttl (pos 0)
      then fetch lib net clock key request (record_disabled info) c
      else elim found [
        | some e ↦ record {
          client = record c1 { hits = c.hits + 1 };
          info = record_hit e.collected_at info;
          sent = none;
          reply = cached_reply lib e;
        }
        | none ↦ missed
      ]
]
