-- ===== src/Map/Methods.antt =====
-- A valid map as a finite map, what `scan` reads: `resizeMap` and `wrenMapGet`.
use mathlib.Core.Path.{subst}
use rust_wren.Base.{
  ℕ, zero, suc, ◌<◌, ◌≡◌, refl, sym, ap, ◌∙◌, ◌⊎◌, inl, inr, List, true, Option, none, some, arith,
  length, get_elem?, lt-of-get_elem?, replicate, length-replicate,
}
use rust_wren.Value.Equal.Laws.{Lawful}
use rust_wren.Value.{Heap, Value, undefined, is_undefined}
use rust_wren.Map.{
  Entry, Map, new_map, Lookup, found, absent, no_table, failed, outside, unfinished, find_entry,
  reinsert, resize_map, empty_entry, map_get,
}
use rust_wren.Map.Table.{
  IsTable, Reads, scan, scan-Reads, Reads-unique, Locates, find_entry-Locates,
}
use rust_wren.Map.Write.{live_count}
use rust_wren.Map.Insert.{all_live}
use rust_wren.Map.Resize.{or_else, IsTable-IsSource, reinsert-Merged}

pub record IsValid (heap : Heap) (map : Map) : Type 0 where
  pub capacity_eq : map.capacity ≡ length map.entries
  pub count_eq : map.count ≡ live_count map.entries
  pub table : IsTable heap map.entries
  pub room : (map.capacity ≡ 0) ⊎ (map.count < map.capacity)

-- What the map holds for a key.
abbrev pub view : Heap → Map → Value → Option Value
view heap map key = scan heap map.entries key

abbrev pub value_or : Value → Option Value → Value
value_or d none = d
value_or d (some v) = v

get-replicate :
    (n i : ℕ) (e : Entry)
    → get_elem? (replicate n empty_entry) i ≡ some e
    → is_undefined e.key ≡ true
get-replicate zero i e h = cc
get-replicate (suc n) zero e h =
    let same : empty_entry ≡ e = cc in sym (ap (λ (x : Entry). is_undefined x.key) same)
get-replicate (suc n) (suc i) e h = get-replicate n i e h

live_count-replicate : (n : ℕ) → live_count (replicate n empty_entry) ≡ 0
live_count-replicate zero = refl
live_count-replicate (suc n) = omega (arith, live_count-replicate n)

or_else-none : (o : Option Value) → or_else o none ≡ o
or_else-none none = refl
or_else-none (some v) = refl

module _ (heap : Heap) where
  pub replicate-IsTable : (n : ℕ) → IsTable heap (replicate n empty_entry)
  replicate-IsTable n = record {
    placed = λ i e h l. cc (get-replicate n i e h);
    unique = λ i j a b h h' l l' e. cc (get-replicate n i a h);
  }

  -- `resizeMap` of a valid map to a capacity above its count succeeds: it gives a valid map of this
  -- capacity and the same count that holds what the map held.
  pub resize_map-view :
      (map : Map) (capacity : ℕ)
      → IsValid heap map
      → map.count < capacity
      → (map' : Map) × (resize_map heap map capacity ≡ some map')
        × IsValid heap map'
        × (map'.capacity ≡ capacity)
        × (map'.count ≡ map.count)
        × ((q : Value) → view heap map' q ≡ view heap map q)
  unfolding resize_map
  resize_map-view map capacity v h =
      let fresh = replicate capacity empty_entry in
      let size : length fresh ≡ capacity = length-replicate capacity empty_entry in
      let none_live = live_count-replicate capacity in
      let (result, run, m) =
        reinsert-Merged heap map.entries fresh (replicate-IsTable capacity)
          (IsTable-IsSource heap map.entries v.table)
          (λ i a there l j b here l'. cc (get-replicate capacity j b here))
          (omega (arith, v.count_eq)) in
      (
        record map { entries = result; capacity = capacity },
        rw (subst (λ n. reinsert heap fresh n map.entries ≡ some result) size run, resize_map),
        record {
          capacity_eq = sym (m.size ∙ size);
          count_eq = omega (arith, m.live, v.count_eq);
          table = m.table;
          room = inr h;
        },
        refl,
        refl,
        λ q. Reads-unique heap result m.table q _ _ (scan-Reads heap result q) (
            rw or_else-none at
              (m.reads q none (λ j b here l. cc (get-replicate capacity j b here)))),
      )

  pub view_of_Reads :
      (map : Map) (key : Value) (o : Option Value)
      → IsValid heap map
      → Reads heap map.entries key o
      → view heap map key ≡ o
  view_of_Reads map key o v r =
      Reads-unique heap map.entries v.table key _ o (scan-Reads heap map.entries key) r

  pub locate :
      (map : Map) (key : Value)
      → IsValid heap map
      → map.count < map.capacity
      → Lawful heap key
      → Locates heap map.entries key (find_entry heap map.entries map.capacity key)
  locate map key v room lawful =
      rw v.capacity_eq
        (find_entry-Locates heap map.entries key v.table lawful (omega (arith, v.capacity_eq)))

  -- A map with no table.
  pub find_nothing :
      (entries : List Entry) (capacity : ℕ) (key : Value)
      → capacity ≡ 0
      → find_entry heap entries capacity key ≡ no_table
  unfolding find_entry
  find_nothing entries capacity key e = rw e

  pub nothing :
      (map : Map)
      → IsValid heap map
      → map.capacity ≡ 0
      → (key : Value) → Reads heap map.entries key none
  nothing map v e key i entry here live =
      absurd (omega (arith, lt-of-get_elem? map.entries i entry here, v.capacity_eq))

  get_at :
      (map : Map) (key : Value) (l : Lookup)
      → IsValid heap map
      → map.count < map.capacity
      → find_entry heap map.entries map.capacity key ≡ l
      → Locates heap map.entries key l
      → map_get heap map key ≡ some (value_or undefined (view heap map key))
  unfolding map_get
  get_at map key (found i) v room run (entry, here, live, same) =
      let e = view_of_Reads map key (some entry.value) v (i, entry, here, live, same, refl) in
      rw (run, map_get, here, e)
  get_at map key (absent i) v room run h =
      let e = view_of_Reads map key none v h.4 in rw (run, map_get, e)
  get_at map key no_table v room run h = absurd h
  get_at map key outside v room run h = absurd h
  get_at map key unfinished v room run h = absurd h
  get_at map key failed v room run h =
      absurd (omega (arith, all_live map.entries h, v.count_eq, v.capacity_eq))

  -- `wrenMapGet` on a valid map, with a key that is no range from or to the negative zero, returns
  -- the value that the map holds for the key, or undefined.
  pub map_get-view :
      (map : Map) (key : Value)
      → IsValid heap map
      → Lawful heap key
      → map_get heap map key ≡ some (value_or undefined (view heap map key))
  unfolding map_get
  map_get-view map key v lawful = elim v.room [
    | inr room ↦ get_at map key _ v room refl (locate map key v room lawful)
    | inl none_yet ↦
        let e = view_of_Reads map key none v (nothing map v none_yet key) in
        rw (find_nothing map.entries map.capacity key none_yet, map_get, e)
  ]

  -- A new map is valid.
  pub new_map-IsValid : IsValid heap new_map
  unfolding new_map
  new_map-IsValid = record {
    capacity_eq = refl;
    count_eq = refl;
    table = replicate-IsTable 0;
    room = inl refl;
  }
