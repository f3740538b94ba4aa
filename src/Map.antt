-- ===== src/Map.antt =====
-- wren_value.c, lines 363 to 371 and 454 to 643: hash tables with open addressing and linear
-- probing. An entry array is the list of its entries, the empty list for NULL; a pointer to an entry
-- is its index. The heap gives the objects that keys refer to, which are immutable.
pub mod Positions
pub mod Search
pub mod Table
pub mod Write
pub mod Insert
pub mod Resize
pub mod Methods
pub mod Set
pub mod Remove
use rust_wren.Base.{
  ℕ, zero, suc, ◌+◌, ◌-◌, ◌*◌, ◌/◌, ◌%◌, ◌^◌, List, [], ◌∷◌, Bool, true, false, ◌&&◌, Option, none,
  some, ltb, ◌==◌, if◌then◌else◌, get_elem?, set, replicate,
}
use mathlib.Core.Option
use rust_wren.Value.{Heap, Value, undefined, null_val, false_val, true_val, is_undefined, is_false}
use rust_wren.Value.Hash.{hash_value}
use rust_wren.Value.Equal.{values_equal}

pub record Entry : Type 0 where
  pub key : Value
  pub value : Value

-- `ObjMap`.
pub record Map : Type 0 where
  pub entries : List Entry
  pub capacity : ℕ
  pub count : ℕ

-- `wrenNewMap`.
unfoldable pub new_map : Map
new_map = record { entries = []; capacity = 0; count = 0 }

-- What `findEntry` returns with its result: the entry of the key, the entry to insert it at, no
-- entry (and no result), a failed assertion, a read outside of the table, or a search that has run
-- out of fuel.
pub data Lookup : Type 0 where
  found : ℕ → Lookup
  absent : ℕ → Lookup
  no_table : Lookup
  failed : Lookup
  outside : Lookup
  unfinished : Lookup

-- What the body of the loop sees in an entry.
pub data Probe : Type 0 where
  empty tombstone match other : Probe

abbrev pub min_capacity : ℕ
min_capacity = 16

abbrev pub grow_factor : ℕ
grow_factor = 2

abbrev pub map_load_percent : ℕ
map_load_percent = 75

abbrev pub empty_entry : Entry
empty_entry = record { key = undefined; value = false_val }

-- `tombstone` after the body of the loop, and `tombstone != NULL ? tombstone : entry`.
abbrev pub pass : Probe → Option ℕ → ℕ → Option ℕ
pass tombstone none index = some index
pass p passed index = passed

abbrev pub insertion_point : Option ℕ → ℕ → ℕ
insertion_point none index = index
insertion_point (some t) index = t

abbrev pub first_tombstone : Option ℕ → Lookup
first_tombstone none = failed
first_tombstone (some t) = absent t

-- `entry->value = value` at an index.
abbrev pub set_value : List Entry → ℕ → Value → List Entry
set_value entries index value = elim (get_elem? entries index) [
  | none ↦ entries
  | some entry ↦ set entries index (record entry { value = value })
]

-- `capacity * MAP_LOAD_PERCENT / 100`, of 32-bit numbers.
abbrev pub load_limit : ℕ → ℕ
load_limit capacity = capacity * map_load_percent % 2 ^ 32 / 100

-- The least capacity of a table.
abbrev pub at_least_min : ℕ → ℕ
at_least_min capacity = if ltb capacity min_capacity then min_capacity else capacity

-- `wrenMapClear`.
unfoldable pub map_clear : Map → Map
map_clear map = record { entries = []; capacity = 0; count = 0 }

abbrev pub tombstone_entry : Entry
tombstone_entry = record { key = undefined; value = true_val }

abbrev pub bury : Map → ℕ → Map
bury map i = record map { entries = set map.entries i tombstone_entry; count = map.count - 1 }

module _ (heap : Heap) where
  unfoldable pub probe : Value → Entry → Probe
  unfolding values_equal
  probe key entry =
      if is_undefined entry.key
      then if is_false entry.value then empty else tombstone
      else if values_equal heap entry.key key
      then match
      else other

  -- The loop of `findEntry`: one round for each unit of fuel, of which the capacity is enough.
  unfoldable pub find_from : List Entry → ℕ → Value → ℕ → ℕ → ℕ → Option ℕ → Lookup
  unfolding probe
  find_from entries capacity key start zero index passed = unfinished
  find_from entries capacity key start (suc fuel) index passed = elim (get_elem? entries index) [
    | none ↦ outside
    | some entry ↦
        let p = probe key entry in
        let next_index = (index + 1) % capacity in
        let passed' = pass p passed index in
        let rest = find_from entries capacity key start fuel next_index passed' in
        elim p [
          | empty ↦ absent (insertion_point passed index)
          | match ↦ found index
          | _ ↦ if next_index == start then first_tombstone passed' else rest
        ]
  ]

  -- `findEntry`.
  unfoldable pub find_entry : List Entry → ℕ → Value → Lookup
  unfolding find_from hash_value
  find_entry entries capacity key =
      let start = hash_value heap key % capacity in
      if capacity == 0 then no_table else find_from entries capacity key start capacity start none

  -- `insertEntry`: the entries, and whether the key is new; `none` is a failed assertion, a store
  -- through no pointer, or a search that does not end within the table.
  unfoldable pub insert_entry : List Entry → ℕ → Value → Value → Option (List Entry × Bool)
  insert_entry entries capacity key value = elim (find_entry entries capacity key) [
    | found i ↦ some (set_value entries i value, false)
    | absent i ↦ some (set entries i (record { key = key; value = value }), true)
    | no_table ↦ none
    | failed ↦ none
    | outside ↦ none
    | unfinished ↦ none
  ]

  -- The loop of `resizeMap` over the old entries.
  unfoldable pub reinsert : List Entry → ℕ → List Entry → Option (List Entry)
  reinsert entries capacity [] = some entries
  reinsert entries capacity (entry ∷ old) =
      if is_undefined entry.key
      then reinsert entries capacity old
      else elim (insert_entry entries capacity entry.key entry.value) [
        | none ↦ none
        | some (entries', _) ↦ reinsert entries' capacity old
      ]

  -- `resizeMap`.
  unfoldable pub resize_map : Map → ℕ → Option Map
  resize_map map capacity = elim (reinsert (replicate capacity empty_entry) capacity map.entries) [
    | none ↦ none
    | some entries ↦ some (record map { entries = entries; capacity = capacity })
  ]

  -- `wrenMapGet`; `none` is a failed assertion, or a search that does not end within the table.
  unfoldable pub map_get : Map → Value → Option Value
  map_get map key = elim (find_entry map.entries map.capacity key) [
    | found i ↦ Option.map (λ (entry : Entry). entry.value) (get_elem? map.entries i)
    | absent i ↦ some undefined
    | no_table ↦ some undefined
    | failed ↦ none
    | outside ↦ none
    | unfinished ↦ none
  ]

  -- The growth at the head of `wrenMapSet`.
  unfoldable pub make_room : Map → Option Map
  make_room map =
      if ltb (load_limit map.capacity) (map.count + 1)
      then resize_map map (at_least_min (map.capacity * grow_factor % 2 ^ 32))
      else some map

  -- The insertion of `wrenMapSet`.
  unfoldable pub insert_counted : Map → Value → Value → Option Map
  insert_counted map key value = elim (insert_entry map.entries map.capacity key value) [
    | none ↦ none
    | some (entries, is_new) ↦
        some (record map { entries = entries; count = if is_new then map.count + 1 else map.count })
  ]

  -- `wrenMapSet`.
  unfoldable pub map_set : Map → Value → Value → Option Map
  map_set map key value = elim (make_room map) [
    | none ↦ none
    | some map' ↦ insert_counted map' key value
  ]

  -- What `wrenMapRemoveKey` does once the entry is a tombstone and the count is lower.
  unfoldable pub shrink : Map → Option Map
  shrink map =
      if map.count == 0
      then some (map_clear map)
      else if ltb min_capacity map.capacity
          && ltb map.count (load_limit (map.capacity / grow_factor))
      then resize_map map (at_least_min (map.capacity / grow_factor))
      else some map

  -- `wrenMapRemoveKey`: the removed value, or null, and the map.
  unfoldable pub map_remove_key : Map → Value → Option (Value × Map)
  map_remove_key map key = elim (find_entry map.entries map.capacity key) [
    | found i ↦ elim (get_elem? map.entries i) [
      | none ↦ none
      | some entry ↦ Option.map (λ (map' : Map). (entry.value, map')) (shrink (bury map i))
    ]
    | absent i ↦ some (null_val, map)
    | no_table ↦ some (null_val, map)
    | failed ↦ none
    | outside ↦ none
    | unfinished ↦ none
  ]
