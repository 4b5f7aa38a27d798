-- ===== src/Http/Info.antt =====
-- internal/httpx/requestinfo.go: the record of the cache use of one collection. A nil recorder is
-- `none`; the zero time is `none` as well.
pub mod Recorded
use homelab_evidence_mcp.Prelude.{
  ℕ, ◌+◌, ◌-◌, ◌/◌, ◌≤◌, ◌≡◌, refl, Bool, true, false, ◌||◌, ◌&&◌, List, [], ◌∷◌, Option, none,
  some, nat_eq, ◌==◌, ltb, if◌then◌else◌, any, arith, Bool-cases, inl, inr,
}
use homelab_evidence_mcp.Evidence.{Time}

pub record RequestInfo : Type 0 where
  pub requests : ℕ
  pub hits : ℕ
  pub misses : ℕ
  pub disabled : Bool
  pub oldest_collected : Option Time

-- `WithRequestInfo` attaches this one.
abbrev pub new_request_info : RequestInfo
new_request_info = record {
  requests = 0;
  hits = 0;
  misses = 0;
  disabled = false;
  oldest_collected = none;
}

abbrev pub older : Time → Option Time → Option Time
older t none = some t
older t (some oldest) = if ltb t oldest then some t else some oldest

unfoldable pub record_hit : Time → Option RequestInfo → Option RequestInfo
record_hit collected_at none = none
record_hit collected_at (some i) = some (record i {
  requests = i.requests + 1;
  hits = i.hits + 1;
  oldest_collected = older collected_at i.oldest_collected;
})

unfoldable pub record_miss : Option RequestInfo → Option RequestInfo
record_miss none = none
record_miss (some i) = some (record i { requests = i.requests + 1; misses = i.misses + 1 })

unfoldable pub record_disabled : Option RequestInfo → Option RequestInfo
record_disabled none = none
record_disabled (some i) = some (record i { disabled = true })

-- The texts of the cache state: `no_state` is the empty one.
pub data CacheState : Type 0 where
  no_state disabled hit miss : CacheState

-- Whole seconds from one time to another; none when the clock ran back.
abbrev pub seconds_since : Option Time → Time → ℕ
seconds_since none now = now / 1000000000
seconds_since (some t) now = (now - t) / 1000000000

unfoldable pub snapshot : Time → Option RequestInfo → CacheState × ℕ
snapshot now none = (no_state, 0)
snapshot now (some i) =
    if i.requests == 0 && i.disabled
    then (disabled, 0)
    else if i.requests == 0
    then (no_state, 0)
    else if i.hits == i.requests
    then (hit, seconds_since i.oldest_collected now)
    else (miss, 0)

-- What `Get` reports to the recorder.
pub data Event : Type 0 where
  was_hit : Time → Event
  was_miss was_disabled : Event

unfoldable pub note : Event → Option RequestInfo → Option RequestInfo
unfolding record_hit record_miss record_disabled
note (was_hit t) i = record_hit t i
note was_miss i = record_miss i
note was_disabled i = record_disabled i

unfoldable pub note_all : List Event → Option RequestInfo → Option RequestInfo
unfolding note
note_all [] i = i
note_all (e ∷ rest) i = note_all rest (note e i)
