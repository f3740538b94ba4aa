-- ===== src/Tests/Maps.antt =====
-- Maps at fixed inputs.
use rust_wren.Base.{◌%◌, ◌≡◌, refl, List, [], ◌∷◌, Bool, Option, none, some, arith, replicate}
use rust_wren.Value.{string, Heap, Value, undefined, null_val, num, obj}
use rust_wren.Value.Hash.{hash_value}
use rust_wren.Map.{
  Entry, Map, new_map, empty_entry, find_entry, insert_entry, reinsert, resize_map, map_get,
  make_room, insert_counted, map_set, shrink, map_clear, map_remove_key,
}
use rust_wren.Map.Search.{Finds, find_entry-Finds}
use rust_wren.Map.Insert.{Inserted, insert_entry-Inserted}
use rust_wren.Map.Methods.{
  IsValid, view, value_or, new_map-IsValid, replicate-IsTable, resize_map-view, map_get-view,
}
use rust_wren.Map.Set.{WasSet, map_set-WasSet}
use rust_wren.Map.Remove.{Removes, map_remove_key-WasRemoved}

-- The object at an address is the string of that one byte.
abbrev heap : Heap
heap a = string (a ∷ [])

program : Unit {0}
unfolding find_entry insert_entry reinsert resize_map map_get make_room insert_counted map_set
    shrink map_clear map_remove_key new_map
program = tt

abbrev set_in : Option Map → Value → Value → Option Map
set_in none key value = none
set_in (some map) key value = map_set heap map key value

abbrev get_in : Option Map → Value → Option Value
get_in none key = none
get_in (some map) key = map_get heap map key

-- Three keys, one of them set twice.
abbrev session : Option Map
session =
    set_in
      (set_in (set_in (set_in (some new_map) (obj 97) (num 1)) (obj 98) (num 2)) (num 5) null_val)
      (obj 97) (num 3)

session_get : get_in session (obj 97) ≡ some (num 3)
unfolding program
session_get = refl

session_get_absent : get_in session (obj 99) ≡ some undefined
unfolding program
session_get_absent = refl

map_set-WasSet_example :
    (map' : Map) × (map_set heap new_map (obj 97) (num 1) ≡ some map')
    × WasSet heap new_map map' (obj 97) (num 1)
map_set-WasSet_example =
    map_set-WasSet heap new_map (obj 97) (num 1) (new_map-IsValid heap) tt refl
      (unfold new_map in omega arith)

abbrev one_key : Map
one_key = map_set-WasSet_example.0

one_key-IsValid : IsValid heap one_key
one_key-IsValid = map_set-WasSet_example.2.valid

map_get-view_example :
    map_get heap one_key (obj 97) ≡ some (value_or undefined (view heap one_key (obj 97)))
map_get-view_example = map_get-view heap one_key (obj 97) one_key-IsValid tt

map_remove_key-WasRemoved_example : Removes heap one_key (obj 97)
map_remove_key-WasRemoved_example =
    map_remove_key-WasRemoved heap one_key (obj 97) one_key-IsValid tt

abbrev fresh : List Entry
fresh = replicate 4 empty_entry

insert_entry-Inserted_example :
    (entries' : List Entry) × (is_new : Bool) × (insert_entry heap fresh 4 (obj 97) (num 1)
      ≡ some (entries', is_new))
    × Inserted heap fresh entries' (obj 97) (num 1) is_new
insert_entry-Inserted_example =
    insert_entry-Inserted heap fresh (obj 97) (num 1) (replicate-IsTable heap 4) tt refl
      (omega arith)

find_entry-Finds_example :
    Finds heap fresh (obj 97) (hash_value heap (obj 97) % 4) (find_entry heap fresh 4 (obj 97))
find_entry-Finds_example = find_entry-Finds heap fresh (obj 97) (omega arith)

resize_map-view_example :
    (map' : Map) × (resize_map heap new_map 16 ≡ some map')
    × IsValid heap map'
    × (map'.capacity ≡ 16)
    × (map'.count ≡ 0)
    × ((q : Value) → view heap map' q ≡ view heap new_map q)
unfolding new_map
resize_map-view_example = resize_map-view heap new_map 16 (new_map-IsValid heap) (omega arith)
