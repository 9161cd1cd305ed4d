-- ===== src/HashMap/Tests.antt =====
-- A map with two strings, and changes to one.
use xzile.Prelude.{ℕ, ◌≡◌, refl, none, some, List, [], ◌∷◌}
use xzile.StrVec.{same_bytes}
use xzile.HashMap.{
  Map, map_new, hash_from, find_entry, map_get, set_entry, remove_entry, map_set, map_remove,
}
use xzile.HashMap.Refine.{
  MapChange, put, cut, meanings, change_maps, IsMap, map_get-change_maps_new,
}

abbrev two : Map ℕ
two = map_set (map_set map_new (97 ∷ []) 1) (98 ∷ []) 2

replaced : map_get (map_set two (97 ∷ []) 3) (97 ∷ []) ≡ some 3
unfolding map_get map_set set_entry find_entry hash_from same_bytes
replaced = refl

removed : map_get (map_remove two (97 ∷ [])).1 (97 ∷ []) ≡ none
unfolding map_get map_set set_entry find_entry hash_from same_bytes map_remove remove_entry
removed = refl

abbrev changes : List (MapChange ℕ)
changes = put (97 ∷ []) 1 ∷ put (98 ∷ []) 2 ∷ cut (97 ∷ []) ∷ put (98 ∷ []) 3 ∷ []

map_get-change_maps_new_example :
    IsMap (change_maps changes map_new)
    × (map_get (change_maps changes map_new) ≡ meanings changes (λ q. none))
map_get-change_maps_new_example = map_get-change_maps_new changes
