-- ===== src/Http/Client.antt =====
-- `LockedClient` of internal/httpx/client.go. `url.Parse`, the keyed fingerprints (HMAC-SHA256 with
-- the key of the process), the header functions and the network are arguments.
use homelab_evidence_mcp.Prelude.{
  ℕ, ◌⊎◌, inl, inr, Bool, false, not, ◌||◌, List, [], ◌∷◌, ◌++◌, Option, none, some, Text, ascii,
  text_beq, text_eq, text_less, nat_eq, ltb, if◌then◌else◌, length, map,
}
use homelab_evidence_mcp.Prelude.Int.{ℤ, pos, pos_part, leb_ℤ}
use homelab_evidence_mcp.Prelude.Table
use homelab_evidence_mcp.Prelude.Table.{Table, lookup}
use homelab_evidence_mcp.Prelude.Sort.{sort_stable}
use homelab_evidence_mcp.Evidence.{Time}
use homelab_evidence_mcp.Redaction.Utf8.{chunks}
use homelab_evidence_mcp.Redaction.Search.{contains}
use homelab_evidence_mcp.Http.Store.{Store, expire_cache_locked}
use homelab_evidence_mcp.Http.Paths.{invalid_path, trim_right}

-- The fields of url.URL that the client reads; `has_user` says that `User` is not nil.
pub record Url : Type 0 where
  pub scheme : Text
  pub host : Text
  pub path : Text
  pub raw_query : Text
  pub fragment : Text
  pub has_user : Bool

-- The base URL of a destination.
pub record Destination : Type 0 where
  pub scheme : Text
  pub host : Text
  pub path : Text

pub record LockedClient : Type 0 where
  pub destinations : Table Destination
  pub max_body : ℕ
  pub user_agent : Text
  pub cache_ttl : ℤ
  pub store : Store
  pub hits : ℕ
  pub misses : ℕ

pub record Options : Type 0 where
  pub max_body : ℤ
  pub user_agent : Text
  pub cache_ttl : ℤ

abbrev pub default_max_body : ℕ
default_max_body = 2097152

abbrev pub positive_or : ℕ → ℤ → ℕ
positive_or n z = if leb_ℤ z (pos 0) then n else pos_part z

-- `key_ok` says whether the random key could be read.
unfoldable pub new_locked_client : Bool → Options → LockedClient
new_locked_client key_ok opts = record {
  destinations = [];
  max_body = positive_or default_max_body opts.max_body;
  user_agent =
      if text_beq opts.user_agent [] then ascii "homelab-evidence-mcp/0.1" else opts.user_agent;
  cache_ttl = if key_ok then opts.cache_ttl else pos 0;
  store = record { cache = []; cache_order = []; cache_bytes = 0 };
  hits = 0;
  misses = 0;
}

pub data RegisterError : Type 0 where
  name_required parse_url scheme_not_allowed host_required userinfo_not_allowed query_or_fragment
        invalid_base_path already_registered :
      RegisterError

pub data GetError : Type 0 where
  nil_context context_error no_leading_slash path_too_long unknown_dest invalid_request_path
        absolute_url fragment_in_path invalid_relative_path host_mismatch construction_failed
        redirects_disabled timed_out network_error body_read_failed body_too_large :
      GetError

-- The request that goes out.
pub record Request : Type 0 where
  pub scheme : Text
  pub host : Text
  pub path : Text
  pub raw_query : Text
  pub headers : Table Text

-- `TrimSpace` and `ToLower` depend on the tables of Unicode, `CanonicalHeaderKey` on net/textproto.
pub record Library : Type 0 where
  pub parse : Text → Option Url
  pub is_abs : Url → Bool
  pub keyed_fingerprint : Text → Text → Text
  pub canonical_header_key : Text → Text
  pub trim_space : Text → Text
  pub to_lower : Text → Text
  pub equal_fold : Text → Text → Bool
  pub buildable : Request → Bool
  pub format_time : Time → Text
  pub parse_time : Text → Option Time

-- The scheme of a URL that the client may talk to.
abbrev pub is_web : Text → Bool
is_web scheme = text_beq scheme (ascii "http") || text_beq scheme (ascii "https")

-- The checks of `RegisterDestination`, in their order, up to the lock.
unfoldable pub check_base : Text → Url → Option RegisterError
check_base raw_url u =
    if not (is_web u.scheme)
    then some scheme_not_allowed
    else if text_beq u.host []
    then some host_required
    else if u.has_user
    then some userinfo_not_allowed
    else if not (text_beq u.raw_query []) || not (text_beq u.fragment [])
    then some query_or_fragment
    else if ltb 4096 (length (chunks raw_url)) || invalid_path u.path
    then some invalid_base_path
    else none

-- The error, or the client with the destination.
unfoldable pub register_destination :
    Library → Text → Text → LockedClient → RegisterError ⊎ LockedClient
register_destination lib name raw_url c =
    if text_beq name [] then inl name_required else elim (lib.parse raw_url) [
      | none ↦ inl parse_url
      | some u ↦ elim (check_base raw_url u) [
        | some e ↦ inl e
        | none ↦ elim (lookup name c.destinations) [
          | some _ ↦ inl already_registered
          | none ↦ inr (record c {
            destinations =
                Table.put name
                  (record { scheme = u.scheme; host = u.host; path = trim_right u.path })
                  c.destinations;
          })
        ]
      ]
    ]

abbrev pub joined : Text → List Text → Text
joined sep [] = []
joined sep (x ∷ []) = x
joined sep (x ∷ y ∷ rest) = x ++ (sep ++ joined sep (y ∷ rest))

abbrev pub fingerprint_part : Library → Text × Text → Text
fingerprint_part lib (k, v) =
    let lk = lib.to_lower (lib.trim_space k) in lk ++ (ascii "=" ++ lib.keyed_fingerprint lk v)

unfoldable pub header_fingerprint : Library → Table Text → Text
header_fingerprint lib headers =
    joined (ascii "&") (sort_stable text_less (map (fingerprint_part lib) headers))

-- What the network does with a request. `redirect` says that the error wraps the client's own
-- refusal of redirects, `deadline` that it wraps context.DeadlineExceeded, `timeout` that it is a
-- net.Error whose Timeout holds. A body may fail to be read.
pub record NetFailure : Type 0 where
  pub redirect : Bool
  pub message : Text
  pub deadline : Bool
  pub timeout : Bool

pub record Answer : Type 0 where
  pub status : ℕ
  pub headers : Table Text
  pub body : Text
  pub readable : Bool

abbrev pub Network : Type 0
Network = Request → NetFailure ⊎ Answer

unfoldable pub sanitize_net_err : NetFailure → GetError
sanitize_net_err e =
    if e.redirect || contains e.message (ascii "redirect")
    then redirects_disabled
    else if e.deadline
    then timed_out
    else if e.timeout
    then timed_out
    else network_error

-- The response, the body and the error that `Get` returns.
pub record Response : Type 0 where
  pub status : ℕ
  pub headers : Table Text

pub record Reply : Type 0 where
  pub response : Option Response
  pub body : Text
  pub error : Option GetError

abbrev pub refused : GetError → Reply
refused e = record { response = none; body = []; error = some e }

abbrev pub cache_time_header : Text
cache_time_header = ascii "X-Homelab-Evidence-Cache-Time"

abbrev pub upstream_truncated_header : Text
upstream_truncated_header = ascii "X-Messages-Truncated"

-- header.Get(name)
abbrev pub header_value : Text → Table Text → Text
header_value name headers = elim (lookup name headers) [ none ↦ [] | some v ↦ v ]

unfoldable pub header_flag : Library → Table Text → Text → Bool
header_flag lib headers name =
    let value = lib.trim_space (header_value name headers) in
    text_beq value (ascii "1") || lib.equal_fold value (ascii "true")

-- `UpstreamTruncated`; the response may be nil.
unfoldable pub upstream_truncated : Library → Option Response → Bool
unfolding header_flag
upstream_truncated lib none = false
upstream_truncated lib (some resp) = header_flag lib resp.headers upstream_truncated_header

unfoldable pub collection_time : Library → Option Response → Time → Time
collection_time lib none fallback = fallback
collection_time lib (some resp) fallback =
    let raw = header_value cache_time_header resp.headers in
    if text_beq raw [] then fallback else elim (lib.parse_time raw) [ none ↦ fallback | some t ↦ t ]

-- `Stats`, without the printed TTL.
pub record CacheStats : Type 0 where
  pub hits : ℕ
  pub misses : ℕ
  pub size : ℕ
  pub bytes : ℕ

unfoldable pub client_stats : Time → LockedClient → CacheStats × LockedClient
client_stats now c =
    let s = expire_cache_locked now c.store in
    (
      record { hits = c.hits; misses = c.misses; size = length s.cache; bytes = s.cache_bytes },
      record c { store = s },
    )
