-- ===== src/Map/Write.antt =====
-- Writes to one entry of a table.
use mathlib.Core.Path.{subst}
use rust_wren.Base.{
  ℕ, zero, suc, ◌+◌, ◌≡◌, ◌≢◌, refl, sym, ap, ◌∙◌, inl, inr, List, [], ◌∷◌, true, false, Option,
  none, some, arith, if◌then◌else◌, length, get_elem?, set, length-set, lt-of-get_elem?, Bool-cases,
  get_elem?-set_cases, get_elem?-set_self, get_elem?-set_ne, ℕ_discrete,
}
use rust_wren.Value.Equal.{values_equal}
use rust_wren.Value.Equal.Laws.{values_equal_symm, values_equal_trans}
use rust_wren.Value.{Heap, Value, is_undefined}
use rust_wren.Map.{Entry, empty, probe}
use rust_wren.Map.Positions.{at}
use rust_wren.Map.Search.{kind, kind_at, Clear}
use rust_wren.Map.Table.{IsLive, home, IsPlaced, IsTable, Reads, Clear_congr}

-- The number of entries that hold a key.
abbrev pub one_if_live : Entry → ℕ
one_if_live entry = if is_undefined entry.key then 0 else 1

abbrev pub live_count : List Entry → ℕ
live_count [] = 0
live_count (entry ∷ entries) = one_if_live entry + live_count entries

pub live_count-set :
    (entries : List Entry) (i : ℕ) (old x : Entry)
    → get_elem? entries i ≡ some old
    → live_count (set entries i x) + one_if_live old ≡ live_count entries + one_if_live x
live_count-set [] i old x here = cc
live_count-set (e ∷ entries) zero old x here =
    let same : e ≡ old = cc in omega (arith, ap one_if_live same)
live_count-set (e ∷ entries) (suc i) old x here = omega (arith, live_count-set entries i old x here)

module _ (heap : Heap) (entries : List Entry) (i : ℕ) (old x : Entry)
    (here : get_elem? entries i ≡ some old) (solid : (key : Value) → probe heap key x ≢ empty) where
  -- A write that leaves no empty entry keeps every probe sequence clear.
  Clear_write :
      (key : Value) (start d : ℕ)
      → Clear heap entries key start d
      → Clear heap (set entries i x) key start d
  Clear_write key start d clear e below h =
      let j = at start (length entries) e in
      let place : at start (length (set entries i x)) e ≡ j =
        ap (λ n. at start n e) (length-set entries i x) in
      let seen : kind_at heap key (get_elem? (set entries i x) j) ≡ empty =
        sym (ap (kind heap (set entries i x) key) place) ∙ h in
      elim (ℕ_discrete j i) [
        | yes same ↦ solid key (
            sym (
              ap (kind_at heap key) (
                ap (get_elem? (set entries i x)) same
                ∙ get_elem?-set_self entries i x (lt-of-get_elem? entries i old here)))
            ∙ seen)
        | no differs ↦
            clear e below (
              sym (ap (kind_at heap key) (get_elem?-set_ne entries x (λ q. differs (sym q))))
              ∙ seen)
      ]

  write-IsPlaced :
      (j : ℕ) (a : Entry) → IsPlaced heap entries j a → IsPlaced heap (set entries i x) j a
  write-IsPlaced j a p =
      let size = length-set entries i x in
      let begin = ap (home heap a.key) size in
      record {
        lawful = p.lawful;
        steps = p.steps;
        steps_lt = omega (arith, p.steps_lt);
        arrives = ap (λ n. at (home heap a.key n) n p.steps) size ∙ p.arrives;
        clear =
            Clear_congr heap (set entries i x) a.key a.key _ _ p.steps (sym begin)
              (Clear_write a.key _ p.steps p.clear);
      }

  Reads-keep :
      (key : Value) (o : Option Value)
      → (IsLive x → values_equal heap x.key key ≡ false)
      → (IsLive old → values_equal heap old.key key ≡ false)
      → Reads heap entries key o
      → Reads heap (set entries i x) key o
  Reads-keep key none differs same r = λ j a h live. elim (get_elem?-set_cases entries i j x a h) [
    | inl (at_i, is_x) ↦ rw is_x (differs (subst IsLive is_x live))
    | inr (other_place, h') ↦ r j a h' live
  ]
  Reads-keep key (some v) differs same (j, a, h, live, equal, value) =
      let apart_from : i ≢ j = λ e.
        let is_old : a ≡ old = cc (ap (get_elem? entries) e) in
        let unequal : values_equal heap old.key key ≡ false = same (subst IsLive is_old live) in
        cc (ap (λ (y : Entry). values_equal heap y.key key) is_old) in
      (j, a, get_elem?-set_ne entries x apart_from ∙ h, live, equal, value)

  module _ (t : IsTable heap entries)
      (new : IsLive x
        → (j : ℕ) (b : Entry) → j ≢ i
        → get_elem? entries j ≡ some b
        → IsLive b
        → values_equal heap x.key b.key ≡ false) where
    -- The written entry and another one have different keys.
    apart :
        (a : Entry) (j : ℕ) (b : Entry)
        → a ≡ x
        → j ≢ i
        → get_elem? entries j ≡ some b
        → IsLive a
        → IsLive b
        → values_equal heap a.key b.key ≡ false
    apart a j b same differs h live live' =
        rw same (new (subst IsLive same live) j b differs h live')

    write_unique :
        (j k : ℕ) (a b : Entry)
        → get_elem? (set entries i x) j ≡ some a
        → get_elem? (set entries i x) k ≡ some b
        → IsLive a
        → IsLive b
        → values_equal heap a.key b.key ≡ true
        → j ≡ k
    write_unique j k a b h h' live live' equal = elim (get_elem?-set_cases entries i j x a h) [
      | inl (at_i, same) ↦ elim (get_elem?-set_cases entries i k x b h') [
        | inl (at_i', same') ↦ at_i ∙ sym at_i'
        | inr (differs, there) ↦ cc (apart a k b same differs there live live')
      ]
      | inr (differs, there) ↦ elim (get_elem?-set_cases entries i k x b h') [
        | inl (at_i', same') ↦
            cc
              (apart b j a same' differs there live' live, values_equal_symm heap a.key b.key equal)
        | inr (differs', there') ↦ t.unique j k a b there there' live live' equal
      ]
    ]

    -- A write of a live entry whose key is nowhere else, at a place that its search gets to, or of a
    -- tombstone, keeps the invariant.
    pub write-IsTable : (IsLive x → IsPlaced heap entries i x) → IsTable heap (set entries i x)
    write-IsTable place = record {
      placed = λ j a h live. elim (get_elem?-set_cases entries i j x a h) [
        | inl (at_i, same) ↦
            subst (λ k. IsPlaced heap (set entries i x) k a) (sym at_i)
              (subst (λ y. IsPlaced heap (set entries i x) i y) (sym same)
                (write-IsPlaced i x (place (subst IsLive same live))))
        | inr (differs, h') ↦ write-IsPlaced j a (t.placed j a h' live)
      ];
      unique = write_unique;
    }

  -- What is read after a write of a live entry that replaces no other key.
  pub Reads-write :
      (key : Value) (o : Option Value)
      → IsLive x
      → (IsLive old → old.key ≡ x.key)
      → Reads heap entries key o
      → Reads heap (set entries i x) key (if values_equal heap x.key key then some x.value else o)
  Reads-write key o live same r = elim (Bool-cases (values_equal heap x.key key)) [
    | inl e ↦
        rw e
          (i, x, get_elem?-set_self entries i x (lt-of-get_elem? entries i old here), live, e, refl)
    | inr e ↦
        rw e (Reads-keep key o (λ l. e) (λ l. ap (λ y. values_equal heap y key) (same l) ∙ e) r)
  ]

  -- What is read after a write of a tombstone over a key.
  pub Reads-bury :
      (key : Value) (o : Option Value)
      → IsTable heap entries
      → is_undefined x.key ≡ true
      → IsLive old
      → Reads heap entries key o
      → Reads heap (set entries i x) key (if values_equal heap old.key key then none else o)
  Reads-bury key o t dead live r = elim (Bool-cases (values_equal heap old.key key)) [
    | inl e ↦ rw e (λ j a h live'. elim (get_elem?-set_cases entries i j x a h) [
      | inl (at_i, is_x) ↦ cc (ap (λ (y : Entry). is_undefined y.key) is_x)
      | inr (other_place, h') ↦ elim (Bool-cases (values_equal heap a.key key)) [
        | inr e' ↦ e'
        | inl e' ↦ absurd (
            other_place (
              t.unique j i a old h' here live' live (
                values_equal_trans heap a.key key old.key e'
                  (values_equal_symm heap old.key key e))))
      ]
    ])
    | inr e ↦ rw e (Reads-keep key o (λ l. cc) (λ l. e) r)
  ]
