-- ===== src/Http/Info/Recorded.antt =====
-- What the snapshot of a recorder says of the requests of one collection.
use homelab_evidence_mcp.Prelude.{
  ℕ, ◌+◌, ◌≡◌, refl, Bool, true, false, ◌||◌, List, [], ◌∷◌, Option, none, some, nat_eq, ◌==◌, ltb,
  if◌then◌else◌, any, count, arith,
}
use homelab_evidence_mcp.Evidence.{Time}
use homelab_evidence_mcp.Http.Info.{
  RequestInfo, new_request_info, older, CacheState, no_state, disabled, hit, miss, seconds_since,
  snapshot, Event, was_hit, was_miss, was_disabled, note, note_all, record_hit, record_miss,
  record_disabled,
}

abbrev pub is_hit : Event → Bool
is_hit (was_hit t) = true
is_hit was_miss = false
is_hit was_disabled = false

abbrev pub is_miss : Event → Bool
is_miss (was_hit t) = false
is_miss was_miss = true
is_miss was_disabled = false

abbrev pub is_disabled : Event → Bool
is_disabled (was_hit t) = false
is_disabled was_miss = false
is_disabled was_disabled = true

abbrev pub is_request : Event → Bool
is_request e = is_hit e || is_miss e

-- The earlier of two times that may be missing.
abbrev pub earlier : Option Time → Option Time → Option Time
earlier none u = u
earlier (some t) none = some t
earlier (some t) (some u) = if ltb u t then some u else some t

abbrev time_of : Event → Option Time
time_of (was_hit t) = some t
time_of was_miss = none
time_of was_disabled = none

abbrev pub oldest : List Event → Option Time
oldest [] = none
oldest (e ∷ rest) = earlier (time_of e) (oldest rest)

earlier_assoc : (a b c : Option Time) → earlier (earlier a b) c ≡ earlier a (earlier b c)
earlier_assoc none b c = refl
earlier_assoc (some a) none c = refl
earlier_assoc (some a) (some b) none = ground arith
earlier_assoc (some a) (some b) (some c) = ground arith

older-earlier : (t : Time) (o : Option Time) → older t o ≡ earlier o (some t)
older-earlier t none = refl
older-earlier t (some u) = ground arith

-- The recorder after these events.
abbrev after : List Event → RequestInfo → RequestInfo
after events i = record {
  requests = i.requests + count is_request events;
  hits = i.hits + count is_hit events;
  misses = i.misses + count is_miss events;
  disabled = i.disabled || any is_disabled events;
  oldest_collected = earlier i.oldest_collected (oldest events);
}

note_all-after :
    (events : List Event) (i : RequestInfo) → note_all events (some i) ≡ some (after events i)
unfolding note_all note record_hit record_miss record_disabled
note_all-after [] i = ground arith
note_all-after (was_hit t ∷ rest) i =
    let j : RequestInfo = record i {
      requests = i.requests + 1;
      hits = i.hits + 1;
      oldest_collected = older t i.oldest_collected;
    } in
    ground (
      arith,
      note_all-after rest j,
      older-earlier t i.oldest_collected,
      earlier_assoc i.oldest_collected (some t) (oldest rest),
    )
note_all-after (was_miss ∷ rest) i =
    let j : RequestInfo = record i { requests = i.requests + 1; misses = i.misses + 1 } in
    ground (arith, note_all-after rest j)
note_all-after (was_disabled ∷ rest) i =
    let j : RequestInfo = record i { disabled = true } in ground (arith, note_all-after rest j)

-- The report of a collection, read off its events.
abbrev pub report : Time → List Event → CacheState × ℕ
report now events =
    if count is_request events == 0
    then (if any is_disabled events then disabled else no_state, 0)
    else if count is_miss events == 0
    then (hit, seconds_since (oldest events) now)
    else (miss, 0)

count-request :
    (events : List Event) → count is_request events ≡ count is_hit events + count is_miss events
count-request [] = omega arith
count-request (was_hit t ∷ rest) = omega (arith, count-request rest)
count-request (was_miss ∷ rest) = omega (arith, count-request rest)
count-request (was_disabled ∷ rest) = count-request rest

-- `Snapshot` reports a hit just when there was a request and no request missed, with the whole
-- seconds since the oldest snapshot used; a miss when one missed; and without any request it
-- says whether a cache that is off was noted.
snapshot_lem :
    (now : Time) (events : List Event)
    → snapshot now (note_all events (some new_request_info)) ≡ report now events
unfolding snapshot
snapshot_lem now events =
    ground (arith, note_all-after events new_request_info, count-request events)
