-- ===== src/Registry.antt =====
-- The service registry of internal/registry/registry.go. The lower case and the trimming of texts
-- are arguments.
pub mod Pages
pub mod Lookup
mod Tests
use homelab_evidence_mcp.Prelude.{
  ℕ, ◌+◌, ◌-◌, ◌≡◌, refl, Bool, true, false, not, ◌||◌, ◌&&◌, List, [], ◌∷◌, ◌++◌, Option, none,
  some, Text, text_beq, text_less, ltb, leb, if◌then◌else◌, length, take, drop, keep, map,
}
use homelab_evidence_mcp.Prelude.Int.{ℤ, pos, pos_part, leb_ℤ, ltb_ℤ}
use homelab_evidence_mcp.Prelude.Table
use homelab_evidence_mcp.Prelude.Table.{Table, lookup}
use homelab_evidence_mcp.Prelude.Sort.{sort_stable}
use homelab_evidence_mcp.Redaction.Search.{has_prefix}
use homelab_evidence_mcp.Config.Types.{Service}
use homelab_evidence_mcp.Config.Service.{is_set}

pub record Coverage : Type 0 where
  pub gatus : Bool
  pub docker : Bool
  pub loki : Bool
  pub healthchecks : Bool
  pub beszel : Bool
  pub ntfy : Bool

pub record ServiceView : Type 0 where
  pub id : Text
  pub display_name : Text
  pub coverage : Coverage

pub record Registry : Type 0 where
  pub by_id : Table Service
  pub order : List Text

abbrev pub page_limit : ℤ → ℕ
page_limit limit =
    if leb_ℤ limit (pos 0) then 50 else if ltb_ℤ (pos 200) limit then 200 else pos_part limit

-- The loop of `New`, before the sort.
unfoldable pub collect_services : List Service → Registry → Registry
collect_services [] r = r
collect_services (s ∷ rest) r =
    collect_services rest
      (record { by_id = Table.put s.id s r.by_id; order = r.order ++ s.id ∷ [] })

unfoldable pub new_registry : List Service → Registry
unfolding collect_services
new_registry services =
    let r = collect_services services (record { by_id = []; order = [] }) in
    record r { order = sort_stable text_less r.order }

-- The zero value that a missing key gives.
abbrev pub no_service : Service
no_service = record {
  id = [];
  display_name = [];
  sources = record {
    gatus = none;
    docker = none;
    loki = none;
    healthchecks = none;
    beszel = none;
    ntfy = none;
  };
}

abbrev pub service_at : Registry → Text → Service
service_at r id = elim (lookup id r.by_id) [ none ↦ no_service | some s ↦ s ]

unfoldable pub view : Registry → Text → ServiceView
view r id =
    let s = service_at r id in
    record {
      id = s.id;
      display_name = s.display_name;
      coverage = record {
        gatus = is_set s.sources.gatus;
        docker = is_set s.sources.docker;
        loki = is_set s.sources.loki;
        healthchecks = is_set s.sources.healthchecks;
        beszel = is_set s.sources.beszel;
        ntfy = is_set s.sources.ntfy;
      };
    }

-- `Require`; `none` is the error.
unfoldable pub require : Registry → Text → Option Service
require r id = lookup id r.by_id

module _ (to_lower : Text → Text) (trim_space : Text → Text) where
  abbrev pub is_match : Registry → Text → Text → Bool
  is_match r wanted id =
      text_beq wanted []
      || (has_prefix id wanted || has_prefix (to_lower (service_at r id).display_name) wanted)

  unfoldable pub matched : Registry → Text → List Text
  matched r prefix = keep (is_match r (to_lower (trim_space prefix))) r.order

  -- A negative offset is zero.
  unfoldable pub list : Registry → Text → ℤ → ℤ → List ServiceView × ℕ
  list r prefix offset limit =
      let ids = matched r prefix in
      let total = length ids in
      let start = pos_part offset in
      let end = if ltb total (start + page_limit limit) then total else start + page_limit limit in
      if leb total start
      then ([], total)
      else (map (view r) (take (end - start) (drop start ids)), total)
