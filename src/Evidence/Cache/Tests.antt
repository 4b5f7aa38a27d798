-- ===== src/Evidence/Cache/Tests.antt =====
-- Runs of the evidence cache, and its theorems at concrete inputs.
use homelab_evidence_mcp.Prelude.{
  ℕ, ◌≡◌, refl, [], ◌∷◌, Option, some, none, ltb, if◌then◌else◌, text_beq,
}
use homelab_evidence_mcp.Prelude.Int.{pos}
use homelab_evidence_mcp.Prelude.Table
use homelab_evidence_mcp.Prelude.Table.{Table, lookup}
use homelab_evidence_mcp.Evidence.{Item, Freshness}
use homelab_evidence_mcp.Evidence.Samples.{first, second, third}
use homelab_evidence_mcp.Evidence.Cache.{
  Cache, new_cache, remove_locked, expire_locked, evict, serialized_item_size, append_locked, put,
  put_all, get, stats, time_add,
}
use homelab_evidence_mcp.Evidence.Cache.Evict.{fit}
use homelab_evidence_mcp.Evidence.Cache.Laws.{
  IsValid, new_cache-IsValid, put-IsValid, put_table, items-put,
}
use homelab_evidence_mcp.Evidence.Cache.Reads.{get-put}

program : Unit {0}
unfolding new_cache serialized_item_size append_locked remove_locked expire_locked evict put put_all
    get stats lookup Table.put text_beq fit
program = tt

-- Every item takes 40 bytes.
abbrev marshal : Item → Option ℕ
marshal item = some 40

abbrev empty : Cache
empty = new_cache (pos 100) (pos 2) (pos 100)

abbrev full : Cache
full = put_all marshal ((first, 10, 10) ∷ (second, 20, 20) ∷ []) empty

-- The third item evicts the first, and the second expires.
oldest_goes : (get first.id 40 (put marshal third 30 30 full)).0 ≡ none
unfolding program
oldest_goes = refl

second_stays :
    (get second.id 40 (put marshal third 30 30 full)).0
    ≡ some (record second { freshness = Freshness.cached })
unfolding program
second_stays = refl

second_expires : (get second.id 121 (put marshal third 30 30 full)).0 ≡ none
unfolding program
second_expires = refl

empty-IsValid : IsValid empty
empty-IsValid = new_cache-IsValid (pos 100) (pos 2) (pos 100)

full-IsValid : IsValid full
unfolding put_all
full-IsValid =
    put-IsValid marshal second 20 20 (put marshal first 10 10 empty)
      (put-IsValid marshal first 10 10 empty empty-IsValid)

put-IsValid_example : IsValid (put marshal third 30 30 full)
put-IsValid_example = put-IsValid marshal third 30 30 full full-IsValid

items-put_example : (put marshal third 30 30 full).items ≡ put_table marshal third 30 30 full
items-put_example = items-put marshal third 30 30 full full-IsValid.consistent

get-put_example : (get third.id 99 (put marshal third 30 30 full)).0 ≡ (
    if ltb (time_add 30 full.ttl) 99
    then none
    else some (record third { freshness = Freshness.cached }))
unfolding program
get-put_example = get-put marshal third 30 30 99 full full-IsValid.consistent refl refl refl
