-- ===== src/Map/Table.antt =====
-- The invariant of an entry array, and what a search of a table that keeps it finds.
use mathlib.Core.Path.{subst}
use rust_wren.Base.{
  ℕ, zero, suc, ◌%◌, ◌<◌, ◌≡◌, ◌≢◌, refl, sym, ap, ◌∙◌, ◌⊎◌, inl, inr, List, [], ◌∷◌, true, false,
  not, ◌&&◌, Option, none, some, arith, if◌then◌else◌, length, get_elem?, get_elem?-of_lt,
  lt-of-get_elem?, Bool-cases,
}
use rust_wren.Value.Hash.{hash_value}
use rust_wren.Value.Equal.{values_equal}
use rust_wren.Value.Equal.Laws.{Lawful, values_equal_symm, values_equal_trans, hash-values_equal}
use rust_wren.Value.{Heap, Value, is_undefined}
use rust_wren.Map.{
  Entry, Lookup, found, absent, no_table, failed, outside, unfinished, empty, tombstone, match,
  probe, find_entry,
}
use rust_wren.Map.Positions.{at, at-lt, steps_to}
use rust_wren.Map.Search.{kind, kind_at, kind_after, Clear, Finds, find_entry-Finds}

-- The entry holds a key.
abbrev pub IsLive : Entry → Type 0
IsLive entry = is_undefined entry.key ≡ false

module _ (heap : Heap) where
  -- The index that the search for a key begins at.
  abbrev pub home : Value → ℕ → ℕ
  home key capacity = hash_value heap key % capacity

  -- A search for the key of the entry gets to index `i` with no empty entry before it.
  pub record IsPlaced (entries : List Entry) (i : ℕ) (entry : Entry) : Type 0 where
    pub lawful : Lawful heap entry.key
    pub steps : ℕ
    pub steps_lt : steps < length entries
    pub arrives : at (home entry.key (length entries)) (length entries) steps ≡ i
    pub clear : Clear heap entries entry.key (home entry.key (length entries)) steps

  pub record IsTable (entries : List Entry) : Type 0 where
    pub placed :
        (i : ℕ) (entry : Entry)
        → get_elem? entries i ≡ some entry
        → IsLive entry
        → IsPlaced entries i entry
    pub unique :
        (i j : ℕ) (a b : Entry)
        → get_elem? entries i ≡ some a
        → get_elem? entries j ≡ some b
        → IsLive a
        → IsLive b
        → values_equal heap a.key b.key ≡ true
        → i ≡ j

  -- What a lookup of a key is to return, whatever the order of the entries.
  abbrev pub Reads : List Entry → Value → Option Value → Type 0
  Reads entries key none =
      (i : ℕ) (entry : Entry)
      → get_elem? entries i ≡ some entry
      → IsLive entry
      → values_equal heap entry.key key ≡ false
  Reads entries key (some v) =
      (i : ℕ) × (entry : Entry) × (get_elem? entries i ≡ some entry)
      × IsLive entry
      × (values_equal heap entry.key key ≡ true)
      × (entry.value ≡ v)

  -- The value of the first entry whose key is equal to the given one.
  abbrev pub scan : List Entry → Value → Option Value
  scan [] key = none
  scan (entry ∷ entries) key =
      if not (is_undefined entry.key) && values_equal heap entry.key key
      then some entry.value
      else scan entries key

  none_cons :
      (entry : Entry) (entries : List Entry) (key : Value)
      → (IsLive entry → values_equal heap entry.key key ≡ false)
      → Reads entries key none
      → Reads (entry ∷ entries) key none
  none_cons entry entries key h r zero a e live =
      let same : entry ≡ a = cc in
      subst (λ x. values_equal heap x.key key ≡ false) same (h (subst IsLive (sym same) live))
  none_cons entry entries key h r (suc i) a e live = r i a e live

  Reads-cons :
      (entry : Entry) (entries : List Entry) (key : Value) (o : Option Value)
      → (IsLive entry → values_equal heap entry.key key ≡ false)
      → Reads entries key o
      → Reads (entry ∷ entries) key o
  Reads-cons entry entries key none h r = none_cons entry entries key h r
  Reads-cons entry entries key (some v) h (i, a, here, live, same, value) =
      (suc i, a, here, live, same, value)

  pub scan-Reads : (entries : List Entry) (key : Value) → Reads entries key (scan entries key)
  scan-Reads [] key = λ i entry e. cc
  scan-Reads (entry ∷ entries) key = elim (Bool-cases (is_undefined entry.key)) [
    | inl dead ↦ rw dead (Reads-cons entry entries key _ (λ l. cc) (scan-Reads entries key))
    | inr live ↦ elim (Bool-cases (values_equal heap entry.key key)) [
      | inl same ↦ rw (live, same) (0, entry, refl, live, same, refl)
      | inr differs ↦
          rw (live, differs)
            (Reads-cons entry entries key _ (λ l. differs) (scan-Reads entries key))
    ]
  ]

  probe_match :
      (key : Value) (entry : Entry)
      → probe heap key entry ≡ match
      → IsLive entry × (values_equal heap entry.key key ≡ true)
  unfolding probe
  probe_match key entry h = ground arith

  match_probe :
      (key : Value) (entry : Entry)
      → IsLive entry
      → values_equal heap entry.key key ≡ true
      → probe heap key entry ≡ match
  unfolding probe
  match_probe key entry l e = ground arith

  probe_empty :
      (key key' : Value) (entry : Entry)
      → probe heap key entry ≡ empty
      → probe heap key' entry ≡ empty
  unfolding probe
  probe_empty key key' entry h = ground arith

  kind_at_empty :
      (key key' : Value) (o : Option Entry)
      → kind_at heap key o ≡ empty
      → kind_at heap key' o ≡ empty
  kind_at_empty key key' none h = cc
  kind_at_empty key key' (some entry) h = probe_empty key key' entry h

  -- Whether a probe sequence is clear does not depend on the key that is searched for.
  pub Clear_congr :
      (entries : List Entry) (key key' : Value) (start start' d : ℕ)
      → start ≡ start'
      → Clear heap entries key start d
      → Clear heap entries key' start' d
  Clear_congr entries key key' start start' d same clear e below h =
      clear e below (kind_at_empty key' key _ (ap (λ s. kind_after heap entries key' s e) same ∙ h))

  module _ (entries : List Entry) (t : IsTable entries) where
    -- At most one value can be read for a key.
    pub Reads-unique :
        (key : Value) (o o' : Option Value) → Reads entries key o → Reads entries key o' → o ≡ o'
    Reads-unique key none none r r' = refl
    Reads-unique key none (some v) r (i, a, here, live, same, value) = cc (r i a here live)
    Reads-unique key (some v) none (i, a, here, live, same, value) r' = cc (r' i a here live)
    Reads-unique key (some v) (some w) (i, a, here, live, same, value)
          (j, b, here', live', same', value') =
        let equal =
          values_equal_trans heap a.key key b.key same (values_equal_symm heap b.key key same') in
        let place = t.unique i j a b here here' live live' equal in
        let entry_eq : a ≡ b = cc (ap (get_elem? entries) place) in
        ap some (sym value ∙ ap (λ (x : Entry). x.value) entry_eq ∙ value')

    -- Where the search for a key cannot reach it, it does not stand.
    Unreachable-none :
        (key : Value)
        → Lawful heap key
        → ((d : ℕ)
            → d < length entries
            → Clear heap entries key (home key (length entries)) d
            → kind_after heap entries key (home key (length entries)) d ≢ match)
        → Reads entries key none
    Unreachable-none key lawful away i a here live =
        elim (Bool-cases (values_equal heap a.key key)) [
          | inr differs ↦ differs
          | inl same ↦
              let p = t.placed i a here live in
              let begin : home a.key (length entries) ≡ home key (length entries) =
                ap (λ h. h % length entries)
                  (hash-values_equal heap a.key key p.lawful lawful same) in
              let place : at (home key (length entries)) (length entries) p.steps ≡ i =
                ap (λ h. at h (length entries) p.steps) (sym begin) ∙ p.arrives in
              let seen : kind_after heap entries key (home key (length entries)) p.steps ≡ match =
                ap (kind heap entries key) place
                ∙ ap (kind_at heap key) here
                ∙ match_probe key a live same in
              absurd (
                away p.steps p.steps_lt (Clear_congr entries a.key key _ _ p.steps begin p.clear)
                  seen)
        ]

  -- What `findEntry` returns for a key on a table, in terms of what the table holds.
  abbrev pub Locates : List Entry → Value → Lookup → Type 0
  Locates entries key (found i) =
      (entry : Entry) × (get_elem? entries i ≡ some entry)
      × IsLive entry
      × (values_equal heap entry.key key ≡ true)
  Locates entries key (absent i) =
      (entry : Entry) × (get_elem? entries i ≡ some entry)
      × (is_undefined entry.key ≡ true)
      × ((d : ℕ) × (d < length entries)
          × (at (home key (length entries)) (length entries) d ≡ i)
          × Clear heap entries key (home key (length entries)) d)
      × Reads entries key none
  Locates entries key no_table = ⊥
  Locates entries key outside = ⊥
  Locates entries key unfinished = ⊥
  Locates entries key failed =
      (i : ℕ) (entry : Entry) → get_elem? entries i ≡ some entry → IsLive entry

  probe_dead :
      (key : Value) (entry : Entry)
      → (probe heap key entry ≡ empty) ⊎ (probe heap key entry ≡ tombstone)
      → is_undefined entry.key ≡ true
  unfolding probe
  probe_dead key entry h = ground arith

  probe-IsLive :
      (key : Value) (entry : Entry)
      → probe heap key entry ≢ empty
      → probe heap key entry ≢ tombstone
      → IsLive entry
  unfolding probe
  probe-IsLive key entry h h' = ground arith

  Finds-Locates :
      (entries : List Entry) (key : Value) (l : Lookup)
      → IsTable entries
      → Lawful heap key
      → home key (length entries) < length entries
      → Finds heap entries key (home key (length entries)) l
      → Locates entries key l
  Finds-Locates entries key (found i) t lawful h (d, below, place, seen) =
      let (entry, here) = get_elem?-of_lt entries i (rw place (at-lt _ _ d h below)) in
      let (live, same) = probe_match key entry (sym (ap (kind_at heap key) here) ∙ seen) in
      (entry, here, live, same)
  Finds-Locates entries key (absent i) t lawful h (d, below, place, dead, clear, away) =
      let (entry, here) = get_elem?-of_lt entries i (rw place (at-lt _ _ d h below)) in
      (
        entry,
        here,
        probe_dead key entry (rw here at dead),
        (d, below, sym place, clear),
        Unreachable-none entries t key lawful away,
      )
  Finds-Locates entries key no_table t lawful h f = absurd f
  Finds-Locates entries key outside t lawful h f = absurd f
  Finds-Locates entries key unfinished t lawful h f = absurd f
  Finds-Locates entries key failed t lawful h f = λ i entry here.
      let (d, below, place) = steps_to _ _ i h (lt-of-get_elem? entries i entry here) in
      let seen : kind_after heap entries key (home key (length entries)) d ≡ probe heap key entry =
        ap (kind heap entries key) place ∙ ap (kind_at heap key) here in
      probe-IsLive key entry (λ e. (f d below).0 (seen ∙ e)) (λ e. (f d below).1 (seen ∙ e))

  pub find_entry-Locates :
      (entries : List Entry) (key : Value)
      → IsTable entries
      → Lawful heap key
      → 0 < length entries
      → Locates entries key (find_entry heap entries (length entries) key)
  find_entry-Locates entries key t lawful h =
      Finds-Locates entries key _ t lawful (omega arith) (find_entry-Finds heap entries key h)
