-- ===== src/Http/Tests.antt =====
-- Runs of the locked client and its theorems at concrete inputs. The library knows one base URL and
-- reads every other text as a path.
use homelab_evidence_mcp.Prelude.{
  ◌≤◌, ◌≡◌, refl, inl, inr, true, false, List, [], ◌∷◌, ◌++◌, none, some, Text, ascii, text_beq,
  length, if◌then◌else◌, arith,
}
use homelab_evidence_mcp.Prelude.Int.{pos}
use homelab_evidence_mcp.Prelude.Table
use homelab_evidence_mcp.Prelude.Table.{Table, lookup}
use homelab_evidence_mcp.Prelude.Sort.{insert, sort_stable}
use homelab_evidence_mcp.Redaction.Utf8.{decode_rune, chunks_from, chunks, value}
use homelab_evidence_mcp.Redaction.Search.{has_prefix, index, contains}
use homelab_evidence_mcp.Redaction.Clean.{is_control}
use homelab_evidence_mcp.Http.Store.{
  remove_cache_locked, expire_cache_loop, expire_cache_locked, make_room, store_entry, with_room,
  cache_put, cache_get,
}
use homelab_evidence_mcp.Http.Store.Laws.{IsValid}
use homelab_evidence_mcp.Http.Paths.{
  split, trim_right, join_url_path, invalid_path, has_dot_segment, slash,
}
use homelab_evidence_mcp.Http.Info.{
  new_request_info, record_hit, record_miss, record_disabled, snapshot, Event, was_hit,
  was_disabled, note, note_all, hit,
}
use homelab_evidence_mcp.Http.Info.Recorded.{report}
use homelab_evidence_mcp.Http.Client.{
  Url, Destination, LockedClient, Library, Request, Network, Response, new_locked_client,
  check_base, register_destination, header_fingerprint, header_flag, sanitize_net_err, is_web,
  already_registered,
}
use homelab_evidence_mcp.Http.Get.{
  Call, Clock, Outcome, open_ctx, check_relative, check_call, cache_key, set_headers, compose,
  receive, fetch, cached_reply, get,
}
use homelab_evidence_mcp.Http.Get.Locked.{IsLocked, get-IsLocked}
use homelab_evidence_mcp.Http.Get.Cached.{get-IsValid}
use homelab_evidence_mcp.Http.Get.Repeat.{Succeeded, repeat_get_lem}

program : Unit {0}
unfolding lookup Table.put sort_stable insert decode_rune chunks_from chunks value has_prefix index
    contains is_control remove_cache_locked expire_cache_loop expire_cache_locked make_room
    store_entry with_room cache_put cache_get split trim_right join_url_path invalid_path record_hit
    record_miss record_disabled snapshot note note_all new_locked_client check_base
    register_destination header_fingerprint header_flag sanitize_net_err check_relative check_call
    cache_key set_headers compose receive fetch cached_reply get text_beq
program = tt

abbrev relative : Text → Url
relative s = record {
  scheme = [];
  host = [];
  path = s;
  raw_query = [];
  fragment = [];
  has_user = false;
}

abbrev base_text : Text
base_text = ascii "http://nas:80/api/"

abbrev library : Library
library = record {
  parse = λ s.
      if text_beq s base_text
      then some (record {
        scheme = ascii "http";
        host = ascii "nas:80";
        path = ascii "/api/";
        raw_query = [];
        fragment = [];
        has_user = false;
      })
      else some (relative s);
  is_abs = λ u. false;
  keyed_fingerprint = λ l v. v;
  canonical_header_key = λ s. s;
  trim_space = λ s. s;
  to_lower = λ s. s;
  equal_fold = λ a b. text_beq a b;
  buildable = λ q. true;
  format_time = λ t. [];
  parse_time = λ s. none;
}

abbrev fresh_client : LockedClient
fresh_client =
    new_locked_client true (record { max_body = pos 0; user_agent = []; cache_ttl = pos 10 })

abbrev client : LockedClient
client = record {
  destinations =
      (ascii "nas", record { scheme = ascii "http"; host = ascii "nas:80"; path = ascii "/api" })
      ∷ [];
  max_body = 2097152;
  user_agent = ascii "homelab-evidence-mcp/0.1";
  cache_ttl = pos 10;
  store = record { cache = []; cache_order = []; cache_bytes = 0 };
  hits = 0;
  misses = 0;
}

registered : register_destination library (ascii "nas") base_text fresh_client ≡ inr client
unfolding program
registered = refl

registered_twice :
    register_destination library (ascii "nas") base_text client ≡ inl already_registered
unfolding program
registered_twice = refl

abbrev call_of : Text → Call
call_of path = record { context = open_ctx; dest = ascii "nas"; path = path; headers = [] }

abbrev clock : Clock
clock = record { at_lookup = 1; at_read = 2; at_expiry = 3; at_store = 4 }

abbrev later_clock : Clock
later_clock = record { at_lookup = 14; at_read = 15; at_expiry = 16; at_store = 17 }

abbrev online : Network
online q = inr (record { status = 200; headers = []; body = ascii "up"; readable = true })

abbrev changed : Network
changed q = inr (record { status = 500; headers = []; body = ascii "down"; readable = true })

abbrev outcome : Outcome
outcome = get library online clock (call_of (ascii "/status")) (some new_request_info) client

abbrev request : Request
request = record {
  scheme = ascii "http";
  host = ascii "nas:80";
  path = ascii "/api/status";
  raw_query = [];
  headers =
      (ascii "User-Agent", ascii "homelab-evidence-mcp/0.1")
      ∷ (ascii "Accept", ascii "application/json")
      ∷ [];
}

sent_request : outcome.sent ≡ some request
unfolding program
sent_request = refl

refused_escape : (get library online clock (call_of (ascii "/../admin")) none client).sent ≡ none
unfolding program
refused_escape = refl

fresh-IsLocked : IsLocked fresh_client
unfolding program
fresh-IsLocked = tt

client-IsLocked : IsLocked client
unfolding program
client-IsLocked = ((refl, refl, refl), tt)

client-IsValid : IsValid client.store
client-IsValid = record {
  consistent = record { ordered = refl; distinct = tt; weighed = refl };
  counted = omega arith;
  bounded = omega arith;
}

get-IsLocked_example :
    (d : Destination) × (r : Text) × (lookup (ascii "nas") client.destinations ≡ some d)
    × (request.scheme ≡ d.scheme)
    × (request.host ≡ d.host)
    × (is_web request.scheme ≡ true)
    × (request.path ≡ trim_right d.path ++ slash ∷ r)
    × (has_dot_segment request.path ≡ false)
get-IsLocked_example =
    get-IsLocked library online clock (call_of (ascii "/status")) (some new_request_info) client
      request client-IsLocked sent_request

get-IsValid_example : IsValid outcome.client.store
get-IsValid_example =
    get-IsValid library online clock (call_of (ascii "/status")) (some new_request_info) client
      client-IsValid

abbrev response : Response
response = record { status = 200; headers = (ascii "X-Homelab-Evidence-Cache-Time", []) ∷ [] }

succeeded : Succeeded outcome request response
unfolding program
succeeded = record { sent = refl; clean = refl; response = refl; ok = refl }

small : length outcome.reply.body ≤ 33554432
unfolding program
small = omega arith

repeat_get_lem_example :
    ((get library changed later_clock (call_of (ascii "/status")) none outcome.client).sent ≡ none)
    × ((get library changed later_clock (call_of (ascii "/status")) none outcome.client).reply.body
        ≡ outcome.reply.body)
    × ((get library changed later_clock (call_of (ascii "/status")) none outcome.client).reply.error
        ≡ none)
repeat_get_lem_example =
    repeat_get_lem library online changed clock later_clock (call_of (ascii "/status"))
      (some new_request_info) none client request response refl succeeded small refl

abbrev events : List Event
events = was_hit 4000000000 ∷ was_disabled ∷ was_hit 1000000000 ∷ []

reported : report 6000000000 events ≡ (hit, 5)
reported = refl
