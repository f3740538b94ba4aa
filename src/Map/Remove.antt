-- ===== src/Map/Remove.antt =====
-- `wrenMapRemoveKey` and `wrenMapClear` against a finite map.
use mathlib.Core.Path.{subst}
use rust_wren.Base.{
  ℕ, zero, suc, ◌+◌, ◌/◌, ◌<◌, ◌≡◌, ◌≢◌, refl, sym, ◌∙◌, inl, inr, List, [], ◌∷◌, true, ◌&&◌, none,
  some, arith, ltb, ◌==◌, if◌then◌else◌, get_elem?, set, length-set, Bool-cases,
}
use rust_wren.Value.Equal.{values_equal}
use rust_wren.Value.Equal.Laws.{Lawful, values_equal_symm, values_equal_trans}
use rust_wren.Value.{Heap, Value, null_val}
use rust_wren.Map.{
  Entry, Map, Lookup, found, absent, no_table, failed, outside, unfinished, find_entry, probe,
  empty, map_remove_key, map_clear, shrink, bury, tombstone_entry, load_limit, at_least_min,
  min_capacity,
}
use rust_wren.Map.Table.{IsLive, Reads, scan-Reads, Reads-unique, Locates}
use rust_wren.Map.Write.{live_count, one_if_live}
use rust_wren.Map.Insert.{all_live, values_equal_congr}
use rust_wren.Map.Write.{write-IsTable, Reads-bury, live_count-set}
use rust_wren.Map.Methods.{
  IsValid, view, value_or, resize_map-view, view_of_Reads, locate, find_nothing, nothing,
}

no_live :
    (heap : Heap) (entries : List Entry) (key : Value)
    → live_count entries ≡ 0
    → Reads heap entries key none
no_live heap [] key e i entry here live = cc
no_live heap (x ∷ entries) key e zero entry here live =
    let same : x ≡ entry = cc in
    let counted : one_if_live x ≡ 1 = rw (subst IsLive (sym same) live) in absurd (omega arith)
no_live heap (x ∷ entries) key e (suc i) entry here live =
    no_live heap entries key (omega arith) i entry here live

module _ (heap : Heap) where
  Reads-congr :
      (entries : List Entry) (key q : Value)
      → values_equal heap key q ≡ true
      → Reads heap entries key none
      → Reads heap entries q none
  Reads-congr entries key q e r i entry here live =
      elim (Bool-cases (values_equal heap entry.key q)) [
        | inr e' ↦ e'
        | inl e' ↦ cc (
          r i entry here live,
          values_equal_trans heap entry.key q key e' (values_equal_symm heap key q e),
        )
      ]

  probe_tombstone : (key : Value) → probe heap key tombstone_entry ≢ empty
  unfolding probe
  probe_tombstone key = ground arith

  shrink-view :
      (map : Map)
      → IsValid heap map
      → map.count < map.capacity
      → (map' : Map) × (shrink heap map ≡ some map')
        × IsValid heap map'
        × (map'.count ≡ map.count)
        × ((q : Value) → view heap map' q ≡ view heap map q)
  unfolding shrink map_clear
  shrink-view map v room = elim (Bool-cases (map.count == 0)) [
    | inl e ↦ (
      map_clear map,
      rw (e, shrink),
      record {
        capacity_eq = refl;
        count_eq = refl;
        table = record { placed = λ i entry h. cc; unique = λ i j a b h. cc };
        room = inl refl;
      },
      ground arith,
      λ q. sym (
          view_of_Reads heap map q none v
            (no_live heap map.entries q (ground (arith, v.count_eq)))),
    )
    | inr e ↦
        elim (Bool-cases
          (ltb min_capacity map.capacity && ltb map.count (load_limit (map.capacity / 2)))) [
            | inr e' ↦ (map, rw (e, e', shrink), v, refl, λ q. refl)
            | inl e' ↦
                let (map', run, v', cap, count, same) =
                  resize_map-view heap map (at_least_min (map.capacity / 2)) v (ground arith) in
                (map', rw (e, e', shrink) run, v', count, same)
          ]
  ]

  -- What `wrenMapRemoveKey` leaves of a map.
  pub record WasRemoved (map map' : Map) (key : Value) : Type 0 where
    pub valid : IsValid heap map'
    pub view_eq :
        (q : Value) → view heap map' q ≡ (if values_equal heap key q then none else view heap map q)
    pub counted : map'.count + elim (view heap map key) [ none ↦ 0 | some v ↦ 1 ] ≡ map.count

  bury-WasRemoved :
      (map : Map) (key : Value) (i : ℕ) (entry : Entry)
      → IsValid heap map
      → map.count < map.capacity
      → get_elem? map.entries i ≡ some entry
      → IsLive entry
      → values_equal heap entry.key key ≡ true
      → WasRemoved map (bury map i) key
  bury-WasRemoved map key i entry v room here live same =
      let held =
        view_of_Reads heap map key (some entry.value) v (i, entry, here, live, same, refl) in
      let counted = live_count-set map.entries i entry tombstone_entry here in
      let was_live : one_if_live entry ≡ 1 = rw live in
      let table =
        write-IsTable heap map.entries i entry tombstone_entry here probe_tombstone v.table
          (λ l j b d h l'. cc) (λ l. cc) in
      record {
        valid = record {
          capacity_eq = v.capacity_eq ∙ sym (length-set map.entries i tombstone_entry);
          count_eq = omega (arith, v.count_eq);
          table = table;
          room = inr (omega arith);
        };
        view_eq = λ q. rw (← values_equal_congr heap entry.key key q same) (
            Reads-unique heap _ table q _ _ (scan-Reads heap (set map.entries i tombstone_entry) q)
              (Reads-bury heap map.entries i entry tombstone_entry here probe_tombstone q _ v.table
                refl live (scan-Reads heap map.entries q)));
        counted = rw held (omega (arith, v.count_eq));
      }

  -- What a removal that found nothing leaves.
  unchanged-WasRemoved :
      (map : Map) (key : Value)
      → IsValid heap map
      → Reads heap map.entries key none
      → WasRemoved map map key
  unchanged-WasRemoved map key v none_there =
      let held = view_of_Reads heap map key none v none_there in
      record {
        valid = v;
        view_eq = λ q. elim (Bool-cases (values_equal heap key q)) [
          | inl e ↦
              rw e (view_of_Reads heap map q none v (Reads-congr map.entries key q e none_there))
          | inr e ↦ rw e
        ];
        counted = rw held (omega arith);
      }

  -- What `wrenMapRemoveKey` returns and leaves.
  abbrev pub Removes : Map → Value → Type 0
  Removes map key =
      (map' : Map) × (map_remove_key heap map key
        ≡ some (value_or null_val (view heap map key), map'))
      × WasRemoved map map' key

  remove_at :
      (map : Map) (key : Value) (l : Lookup)
      → IsValid heap map
      → map.count < map.capacity
      → find_entry heap map.entries map.capacity key ≡ l
      → Locates heap map.entries key l
      → Removes map key
  unfolding map_remove_key
  remove_at map key (found i) v room run (entry, here, live, same) =
      let b = bury-WasRemoved map key i entry v room here live same in
      let held =
        view_of_Reads heap map key (some entry.value) v (i, entry, here, live, same, refl) in
      let (map', run', v', count, view_eq) = shrink-view (bury map i) b.valid (omega arith) in
      (
        map',
        rw (run, map_remove_key, here, run', held),
        record { valid = v'; view_eq = λ q. view_eq q ∙ b.view_eq q; counted = rw count b.counted },
      )
  remove_at map key (absent i) v room run h =
      let held = view_of_Reads heap map key none v h.4 in
      (map, rw (run, map_remove_key, held), unchanged-WasRemoved map key v h.4)
  remove_at map key no_table v room run h = absurd h
  remove_at map key outside v room run h = absurd h
  remove_at map key unfinished v room run h = absurd h
  remove_at map key failed v room run h =
      absurd (omega (arith, all_live map.entries h, v.count_eq, v.capacity_eq))

  -- `wrenMapRemoveKey` on a valid map, with a key that is no range from or to the negative zero,
  -- returns the value that the map held for the key, or null. The map stays valid and then holds
  -- nothing for every key that is equal to the given one and what it held for every other, and it
  -- counts one key less exactly if it held one.
  pub map_remove_key-WasRemoved :
      (map : Map) (key : Value) → IsValid heap map → Lawful heap key → Removes map key
  unfolding map_remove_key
  map_remove_key-WasRemoved map key v lawful = elim v.room [
    | inr room ↦ remove_at map key _ v room refl (locate heap map key v room lawful)
    | inl none_yet ↦
        let none_there = nothing heap map v none_yet key in
        let held = view_of_Reads heap map key none v none_there in
        (
          map,
          rw (find_nothing heap map.entries map.capacity key none_yet, map_remove_key, held),
          unchanged-WasRemoved map key v none_there,
        )
  ]
