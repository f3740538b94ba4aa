-- ===== src/Map/Insert.antt =====
-- `insertEntry` on a table.
use rust_wren.Base.{
  ℕ, suc, ◌+◌, ◌≤◌, ◌<◌, ◌≡◌, ◌≢◌, refl, sym, inl, inr, List, [], ◌∷◌, Bool, true, false, Option,
  none, some, arith, if◌then◌else◌, length, get_elem?, set, length-set, Bool-cases,
}
use rust_wren.Value.Equal.{values_equal}
use rust_wren.Value.Equal.Laws.{Lawful, values_equal_symm, values_equal_trans}
use rust_wren.Value.{Heap, Value, is_undefined}
use rust_wren.Map.{
  Entry, Lookup, found, absent, no_table, failed, outside, unfinished, empty, probe, find_entry,
  insert_entry, set_value,
}
use rust_wren.Map.Table.{IsLive, IsPlaced, IsTable, Reads, Locates, find_entry-Locates}
use rust_wren.Map.Write.{live_count, live_count-set, write-IsTable, Reads-write}

pub live_count-le : (entries : List Entry) → live_count entries ≤ length entries
live_count-le [] = omega arith
live_count-le (e ∷ entries) = ground (arith, live_count-le entries)

pub all_live :
    (entries : List Entry)
    → ((i : ℕ) (entry : Entry) → get_elem? entries i ≡ some entry → IsLive entry)
    → live_count entries ≡ length entries
all_live [] h = refl
all_live (e ∷ entries) h = ground (arith, h 0 e refl, all_live entries (λ i. h (suc i)))

-- `entries'` is `entries` with the key set to the value.
pub record Inserted (heap : Heap) (entries entries' : List Entry) (key value : Value)
    (is_new : Bool) : Type 0 where
  pub table : IsTable heap entries'
  pub size : length entries' ≡ length entries
  pub live : live_count entries' ≡ live_count entries + (if is_new then 1 else 0)
  pub reads :
      (q : Value) (o : Option Value)
      → Reads heap entries q o
      → Reads heap entries' q (if values_equal heap key q then some value else o)
  pub fresh : Reads heap entries key none → is_new ≡ true
  pub stale : (v : Value) → Reads heap entries key (some v) → is_new ≡ false

module _ (heap : Heap) where
  probe_of_live : (key : Value) (entry : Entry) → IsLive entry → probe heap key entry ≢ empty
  unfolding probe
  probe_of_live key entry h = ground arith

  pub values_equal_congr :
      (a b q : Value) → values_equal heap a b ≡ true → values_equal heap a q ≡ values_equal heap b q
  values_equal_congr a b q h = elim (Bool-cases (values_equal heap a q)) [
    | inl e ↦ rw e (sym (values_equal_trans heap b a q (values_equal_symm heap a b h) e))
    | inr e ↦ elim (Bool-cases (values_equal heap b q)) [
      | inl e' ↦ cc (values_equal_trans heap a b q h e')
      | inr e' ↦ rw (e, e')
    ]
  ]

  module _ (entries : List Entry) (key value : Value) (t : IsTable heap entries)
      (lawful : Lawful heap key) (defined : is_undefined key ≡ false) where
    replace-Inserted :
        (i : ℕ) (entry : Entry)
        → get_elem? entries i ≡ some entry
        → IsLive entry
        → values_equal heap entry.key key ≡ true
        → Inserted heap entries (set entries i (record entry { value = value })) key value false
    replace-Inserted i entry here live same =
        let x = record entry { value = value } in
        let solid = λ (k : Value). probe_of_live k x live in
        let p = t.placed i entry here live in
        record {
          table =
              write-IsTable heap entries i entry x here solid t
                (λ l j b differs h live'. elim (Bool-cases (values_equal heap entry.key b.key)) [
                  | inr e ↦ e
                  | inl e ↦ absurd (differs (sym (t.unique i j entry b here h live live' e)))
                ])
                (λ l. record {
                  lawful = p.lawful;
                  steps = p.steps;
                  steps_lt = p.steps_lt;
                  arrives = p.arrives;
                  clear = p.clear;
                });
          size = length-set entries i x;
          live = omega (arith, live_count-set entries i entry x here);
          reads = λ q o r.
              rw (← values_equal_congr entry.key key q same)
                (Reads-write heap entries i entry x here solid q o live (λ l. refl) r);
          fresh = λ none_there. cc (none_there i entry here live);
          stale = λ v r. refl;
        }

    insert-Inserted :
        (i : ℕ) (old : Entry)
        → get_elem? entries i ≡ some old
        → is_undefined old.key ≡ true
        → IsPlaced heap entries i (record { key = key; value = value })
        → Reads heap entries key none
        → Inserted heap entries (set entries i (record { key = key; value = value })) key value true
    insert-Inserted i old here dead p absent_key =
        let x : Entry = record { key = key; value = value } in
        let solid = λ (k : Value). probe_of_live k x defined in
        record {
          table =
              write-IsTable heap entries i old x here solid t
                (λ l j b differs h live'. elim (Bool-cases (values_equal heap key b.key)) [
                  | inr e ↦ e
                  | inl e ↦ cc (absent_key j b h live', values_equal_symm heap key b.key e)
                ])
                (λ l. p);
          size = length-set entries i x;
          live = ground (arith, live_count-set entries i old x here);
          reads = λ q o r. Reads-write heap entries i old x here solid q o defined (λ l. cc) r;
          fresh = λ _. refl;
          stale = λ v r. let (j, b, h, l, e, _) = r in cc (absent_key j b h l);
        }

    insert_at :
        (l : Lookup)
        → find_entry heap entries (length entries) key ≡ l
        → Locates heap entries key l
        → live_count entries < length entries
        → (entries' : List Entry) × (is_new : Bool) × (insert_entry heap entries
              (length entries)
              key
              value
            ≡ some (entries', is_new))
          × Inserted heap entries entries' key value is_new
    unfolding insert_entry
    insert_at (found i) run (entry, here, live, same) room = (
      set entries i (record entry { value = value }),
      false,
      rw (run, insert_entry) (rw (here, set_value)),
      replace-Inserted i entry here live same,
    )
    insert_at (absent i) run (old, here, dead, (d, below, place, clear), none_there) room = (
      set entries i (record { key = key; value = value }),
      true,
      rw (run, insert_entry),
      insert-Inserted i old here dead
          (record { lawful = lawful; steps = d; steps_lt = below; arrives = place; clear = clear })
          none_there,
    )
    insert_at no_table run h room = absurd h
    insert_at outside run h room = absurd h
    insert_at unfinished run h room = absurd h
    insert_at failed run h room = absurd (omega (arith, all_live entries h))

    -- `insertEntry` on a table that keeps the invariant and has room, with a key that is not undefined
    -- and no range from or to the negative zero, succeeds: it keeps the invariant and the size, sets
    -- the keys equal to the given one to the value and no other key, returns true exactly if the
    -- table did not hold the key, and then holds one more key.
    pub insert_entry-Inserted :
        live_count entries < length entries
        → (entries' : List Entry) × (is_new : Bool) × (insert_entry heap entries
              (length entries)
              key
              value
            ≡ some (entries', is_new))
          × Inserted heap entries entries' key value is_new
    insert_entry-Inserted room =
        insert_at _ refl (find_entry-Locates heap entries key t lawful (omega arith)) room
