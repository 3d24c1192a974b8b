-- ===== src/Map/Tests.antt =====
-- A concrete table: runs, and the theorems at inputs that meet their hypotheses.
use libixp.Prelude.{
  ℕ, suc, zero, ◌≡◌, refl, true, false, [], ◌∷◌, ◌+◌, Option, none, some, ◌==◌, not, ◌||◌,
  if◌then◌else◌, arith, get_or,
}
use libixp.Map.{
  IxpMap, ixp_mapinsert, ixp_mapget, ixp_maprm, ixp_mapexec, ixp_mapfree, map_getp, at_link, exists,
  insert, store, insert_link,
}
use libixp.Map.Chain.{IsChain, found, kept, or_nil}
use libixp.Map.Walk.{mapfree_lem}
use libixp.Map.Refine.{view, IsMap, mapget-eq-view, mapinsert_lem, maprm_lem}

-- Two buckets; the hashes 1 and 5 collide, and 5 holds nil.
abbrev small_map : IxpMap ℕ
small_map = record {
  bucket = [] ∷ (record { hash = 1; val = some 10 } ∷ record { hash = 5; val = none } ∷ []) ∷ [];
  nhash = 2;
}

small_map-IsChain : (i : ℕ) → IsChain 2 i 0 (get_or small_map.bucket i [])
small_map-IsChain zero = tt
small_map-IsChain (suc zero) = (omega arith, refl, (omega arith, refl, tt))
small_map-IsChain (suc (suc i)) = tt

small_map-IsMap : IsMap small_map
small_map-IsMap = record { some_buckets = omega arith; width = refl; chains = small_map-IsChain }

insert_between : ixp_mapinsert small_map 3 (some 30) false ≡ (
  true,
  record {
    bucket =
        []
        ∷ (record { hash = 1; val = some 10 }
            ∷ record { hash = 3; val = some 30 }
            ∷ record { hash = 5; val = none }
            ∷ [])
        ∷ [];
    nhash = 2;
  },
)
unfolding ixp_mapinsert map_getp at_link insert_link exists insert store
insert_between = refl

mapget-eq-view_example : ixp_mapget small_map 1 ≡ or_nil (view small_map 1)
mapget-eq-view_example = mapget-eq-view small_map small_map-IsMap 1

mapinsert_lem_example :
    IsMap (ixp_mapinsert small_map 5 (some 50) false).1
    × ((ixp_mapinsert small_map 5 (some 50) false).0 ≡ (not (found (view small_map 5)) || false))
    × ((j : ℕ)
        → view (ixp_mapinsert small_map 5 (some 50) false).1 j
          ≡ (if 5 == j then some (kept (view small_map 5) false (some 50)) else view small_map j))
mapinsert_lem_example = mapinsert_lem small_map small_map-IsMap 5 (some 50) false

maprm_lem_example :
    IsMap (ixp_maprm small_map 1).1
    × ((ixp_maprm small_map 1).0 ≡ or_nil (view small_map 1))
    × ((j : ℕ) → view (ixp_maprm small_map 1).1 j ≡ (if 1 == j then none else view small_map j))
maprm_lem_example = maprm_lem small_map small_map-IsMap 1

-- The sum of the values, nil being 100.
abbrev add_value : ℕ → Option ℕ → ℕ
add_value s none = s + 100
add_value s (some v) = s + v

mapfree_lem_example :
    ((ixp_mapfree small_map add_value 0).0 ≡ ixp_mapexec small_map add_value 0)
    × IsMap (ixp_mapfree small_map add_value 0).1
    × ((k : ℕ) → view (ixp_mapfree small_map add_value 0).1 k ≡ none)
mapfree_lem_example = mapfree_lem small_map small_map-IsMap add_value 0
