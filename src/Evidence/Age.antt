-- ===== src/Evidence/Age.antt =====
-- `ComputeFreshness` of internal/evidence/evidence.go, with the saturation and the wrap-around of
-- `time.Duration`.
use homelab_evidence_mcp.Prelude.{
  ℕ, suc, zero, ◌+◌, ◌-◌, ◌*◌, ◌^◌, ◌<◌, ◌≡◌, ◌==◌, nat_eq, arith, leb, ltb, if◌then◌else◌,
}
use homelab_evidence_mcp.Prelude.Int.{ℤ, pos, negsuc, sub_ℕ, leb_ℤ, ltb_ℤ}
use homelab_evidence_mcp.Evidence.{Time, Freshness}

abbrev pub minute : ℕ
minute = 60 * 1000000000

-- The bounds of `int64`.
abbrev pub max_duration : ℤ
max_duration = pos (2 ^ 63 - 1)

abbrev pub min_duration : ℤ
min_duration = negsuc (2 ^ 63 - 1)

-- `t.Sub(u)`: a difference that `int64` cannot hold is the nearest bound.
unfoldable pub time_sub : Time → Time → ℤ
time_sub t u =
    let d = sub_ℕ t u in
    if ltb_ℤ max_duration d then max_duration else if ltb_ℤ d min_duration then min_duration else d

-- `-d` on `int64`: the least value is its own negation.
unfoldable pub negate : ℤ → ℤ
negate (pos zero) = pos zero
negate (pos (suc n)) = negsuc n
negate (negsuc n) = if n == 2 ^ 63 - 1 then negsuc n else pos (n + 1)

unfoldable pub compute_freshness : Time → Time → Freshness
unfolding time_sub negate
compute_freshness observed now =
    if observed == 0
    then Freshness.unknown
    else (let age = time_sub now observed in
        if ltb_ℤ age (pos 0)
        then (if ltb_ℤ (negate age) (pos (2 * minute)) then Freshness.live else Freshness.unknown)
        else if leb_ℤ age (pos (2 * minute))
        then Freshness.live
        else if leb_ℤ age (pos (15 * minute))
        then Freshness.recent
        else Freshness.stale)

-- The age categories on exact distances.
abbrev pub past_category : ℕ → Freshness
past_category age =
    if leb age (2 * minute)
    then Freshness.live
    else if leb age (15 * minute)
    then Freshness.recent
    else Freshness.stale

abbrev pub future_category : ℕ → Freshness
future_category ahead =
    if ltb ahead (2 * minute)
    then Freshness.live
    else if ltb ahead (2 ^ 63)
    then Freshness.unknown
    else Freshness.live

-- For a known observation time, the category is that of the exact distance to the clock: two
-- and fifteen minutes in the past are still `live` and `recent`, less than two minutes ahead is
-- `live`, further ahead is `unknown`, and 2 ^ 63 nanoseconds ahead or more is `live` again.
pub compute_freshness_lem :
    (observed now : Time)
    → 0 < observed
    → compute_freshness observed now ≡ (
        if leb observed now
        then past_category (now - observed)
        else future_category (observed - now))
unfolding compute_freshness
compute_freshness_lem observed now h = ground arith
