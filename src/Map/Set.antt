-- ===== src/Map/Set.antt =====
-- `wrenMapSet` against a finite map.
use rust_wren.Base.{
  ℕ, ◌+◌, ◌*◌, ◌%◌, ◌^◌, ◌≤◌, ◌<◌, ◌≡◌, refl, sym, ◌∙◌, ◌⊎◌, inl, inr, Bool, true, false, Option,
  none, some, arith, ltb, if◌then◌else◌, Bool-cases,
}
use rust_wren.Value.Equal.{values_equal}
use rust_wren.Value.Equal.Laws.{Lawful}
use rust_wren.Value.{Heap, Value, is_undefined}
use rust_wren.Map.{Map, insert_entry, map_set, make_room, insert_counted, load_limit, at_least_min}
use rust_wren.Map.Table.{Reads, scan, scan-Reads, Reads-unique}
use rust_wren.Map.Insert.{insert_entry-Inserted, live_count-le}
use rust_wren.Map.Methods.{IsValid, view, resize_map-view}

-- The thresholds of `wrenMapSet`, where the product does not wrap.
grown_lt :
    (count capacity : ℕ)
    → count ≤ capacity
    → (capacity ≡ 0) ⊎ (count < capacity)
    → capacity * 75 < 2 ^ 32
    → count + 1 < at_least_min (capacity * 2 % 2 ^ 32)
grown_lt count capacity h room small = ground arith

unloaded_lt :
    (count capacity : ℕ)
    → capacity * 75 < 2 ^ 32
    → ltb (load_limit capacity) (count + 1) ≡ false
    → count + 1 < capacity
unloaded_lt count capacity small h = ground arith

module _ (heap : Heap) where
  make_room-view :
      (map : Map)
      → IsValid heap map
      → map.capacity * 75 < 2 ^ 32
      → (map' : Map) × (make_room heap map ≡ some map')
        × IsValid heap map'
        × (map'.count + 1 < map'.capacity)
        × (map'.count ≡ map.count)
        × ((q : Value) → view heap map' q ≡ view heap map q)
  unfolding make_room
  make_room-view map v small = elim (Bool-cases (ltb (load_limit map.capacity) (map.count + 1))) [
    | inr e ↦
        (map, rw (e, make_room), v, unloaded_lt map.count map.capacity small e, refl, λ q. refl)
    | inl e ↦
        let bound : map.count ≤ map.capacity =
          omega (arith, live_count-le map.entries, v.count_eq, v.capacity_eq) in
        let room = grown_lt map.count map.capacity bound v.room small in
        let (map', run, v', cap, count, same) =
          resize_map-view heap map (at_least_min (map.capacity * 2 % 2 ^ 32)) v (omega arith) in
        (map', rw (e, make_room) run, v', rw (cap, count) room, count, same)
  ]

  -- What `wrenMapSet` leaves of a map.
  pub record WasSet (map map' : Map) (key value : Value) : Type 0 where
    pub valid : IsValid heap map'
    pub view_eq :
        (q : Value)
        → view heap map' q ≡ (if values_equal heap key q then some value else view heap map q)
    pub counted : map'.count ≡ map.count + elim (view heap map key) [ none ↦ 1 | some v ↦ 0 ]

  insert_counted-WasSet :
      (map : Map) (key value : Value)
      → IsValid heap map
      → Lawful heap key
      → is_undefined key ≡ false
      → map.count + 1 < map.capacity
      → (map' : Map) × (insert_counted heap map key value ≡ some map') × WasSet map map' key value
  unfolding insert_counted
  insert_counted-WasSet map key value v lawful defined room =
      let (entries', is_new, run, ins) =
        insert_entry-Inserted heap map.entries key value v.table lawful defined
          (omega (arith, v.count_eq, v.capacity_eq)) in
      let run' : insert_entry heap map.entries map.capacity key value ≡ some (entries', is_new) =
        rw v.capacity_eq run in
      let map' : Map = record map {
        entries = entries';
        count = if is_new then map.count + 1 else map.count;
      } in
      (
        map',
        rw (run', insert_counted),
        record {
          valid = record {
            capacity_eq = v.capacity_eq ∙ sym ins.size;
            count_eq = ground (arith, ins.live, v.count_eq);
            table = ins.table;
            room = inr (ground arith);
          };
          view_eq = λ q.
              Reads-unique heap entries' ins.table q _ _ (scan-Reads heap entries' q)
                (ins.reads q _ (scan-Reads heap map.entries q));
          counted =
              counted is_new (scan heap map.entries key) (scan-Reads heap map.entries key) ins.fresh
                ins.stale;
        },
      )
    where
      counted :
          (is_new : Bool) (o : Option Value)
          → Reads heap map.entries key o
          → (Reads heap map.entries key none → is_new ≡ true)
          → ((w : Value) → Reads heap map.entries key (some w) → is_new ≡ false)
          → (if is_new then map.count + 1 else map.count)
            ≡ map.count + elim o [ none ↦ 1 | some w ↦ 0 ]
      counted is_new none r fresh stale = ground (arith, fresh r)
      counted is_new (some w) r fresh stale = ground (arith, stale w r)

  -- `wrenMapSet` on a valid map whose capacity times 75 is below 2 ^ 32, with a key that is not
  -- undefined and no range from or to the negative zero, succeeds: the map stays valid, it holds the
  -- value for every key that is equal to the given one and what it held for every other, and it counts one more
  -- key exactly if it held none for the key.
  pub map_set-WasSet :
      (map : Map) (key value : Value)
      → IsValid heap map
      → Lawful heap key
      → is_undefined key ≡ false
      → map.capacity * 75 < 2 ^ 32
      → (map' : Map) × (map_set heap map key value ≡ some map') × WasSet map map' key value
  unfolding map_set
  map_set-WasSet map key value v lawful defined small =
      let (map₁, run₁, v₁, room, count, same) = make_room-view map v small in
      let (map', run, set') = insert_counted-WasSet map₁ key value v₁ lawful defined room in
      (
        map',
        rw (run₁, map_set) run,
        record {
          valid = set'.valid;
          view_eq = λ q. rw (← same q) (set'.view_eq q);
          counted = rw (← same key, ← count) set'.counted;
        },
      )
