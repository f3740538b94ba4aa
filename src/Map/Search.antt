-- ===== src/Map/Search.antt =====
-- What `findEntry` finds, in terms of the probe sequence from the home of the key.
use rust_wren.Base.{
  ℕ, zero, suc, ◌+◌, ◌%◌, ◌<◌, ◌≡◌, ◌≢◌, refl, sym, ap, ◌∙◌, ◌⊎◌, inl, inr, List, [], ◌∷◌, true,
  false, Option, none, some, arith, ◌==◌, if◌then◌else◌, dec_lt, length, get_elem?, get_elem?-of_lt,
}
use mathlib.Core.Path.{subst}
use rust_wren.Value.Hash.{hash_value}
use rust_wren.Map.Positions.{at, at-lt, at_zero, at_suc}
use rust_wren.Value.{Heap, Value}
use rust_wren.Map.{
  Entry, Lookup, found, absent, no_table, failed, outside, unfinished, Probe, empty, tombstone,
  match, other, probe, pass, insertion_point, first_tombstone, find_from, find_entry,
}

Probe-cases : (p : Probe) → (p ≡ tombstone) ⊎ (p ≡ other) ⊎ (p ≡ empty) ⊎ (p ≡ match)
Probe-cases tombstone = inl refl
Probe-cases other = inr (inl refl)
Probe-cases empty = inr (inr (inl refl))
Probe-cases match = inr (inr (inr refl))

pass-none : (p : Probe) (i t : ℕ) → pass p none i ≡ some t → (p ≡ tombstone) × (i ≡ t)
pass-none tombstone i t e = (refl, cc)
pass-none empty i t e = cc
pass-none match i t e = cc
pass-none other i t e = cc

pass-some : (p : Probe) (i t : ℕ) → pass p (some t) i ≡ some t
pass-some tombstone i t = refl
pass-some empty i t = refl
pass-some match i t = refl
pass-some other i t = refl

-- What the loop sees in an entry, if there is one.
abbrev pub kind_at : Heap → Value → Option Entry → Probe
kind_at heap key none = other
kind_at heap key (some entry) = probe heap key entry

module _ (heap : Heap) (entries : List Entry) (key : Value) where
  -- What the loop sees at an index.
  abbrev pub kind : ℕ → Probe
  kind i = kind_at heap key (get_elem? entries i)

  module _ (start : ℕ) where
    abbrev pub kind_after : ℕ → Probe
    kind_after d = kind (at start (length entries) d)

    -- No empty entry stands on the first `d` steps.
    abbrev pub Clear : ℕ → Type 0
    Clear d = (e : ℕ) → e < d → kind_after e ≢ empty

    -- The key is nowhere that a search could reach.
    abbrev pub Unreachable : Type 0
    Unreachable = (d : ℕ) → d < length entries → Clear d → kind_after d ≢ match

    -- What the result of a search means.
    abbrev pub Finds : Lookup → Type 0
    Finds (found i) =
        (d : ℕ) × (d < length entries) × (i ≡ at start (length entries) d) × (kind i ≡ match)
    Finds (absent i) =
        (d : ℕ) × (d < length entries)
        × (i ≡ at start (length entries) d)
        × ((kind i ≡ empty) ⊎ (kind i ≡ tombstone))
        × Clear d
        × Unreachable
    Finds no_table = ⊥
    Finds outside = ⊥
    Finds unfinished = ⊥
    Finds failed =
        (d : ℕ) → d < length entries → (kind_after d ≢ empty) × (kind_after d ≢ tombstone)

    -- What the loop knows before round `d`.
    record Passed (d : ℕ) (passed : Option ℕ) : Type 0 where
      clear : Clear d
      unmatched : (e : ℕ) → e < d → kind_after e ≢ match
      none_passed : passed ≡ none → (e : ℕ) → e < d → kind_after e ≢ tombstone
      some_passed :
          (t : ℕ)
          → passed ≡ some t
          → (e : ℕ) × (e < d) × (t ≡ at start (length entries) e) × (kind t ≡ tombstone)

    -- One round, by what the loop sees.
    module _ (fuel i : ℕ) (passed : Option ℕ) (entry : Entry)
        (here : get_elem? entries i ≡ some entry) where
      round_empty :
          probe heap key entry ≡ empty
          → find_from heap entries (length entries) key start (suc fuel) i passed
            ≡ absent (insertion_point passed i)
      unfolding find_from
      round_empty e = rw (here, find_from, e)

      round_match :
          probe heap key entry ≡ match
          → find_from heap entries (length entries) key start (suc fuel) i passed ≡ found i
      unfolding find_from
      round_match e = rw (here, find_from, e)

      round_more :
          probe heap key entry ≢ empty
          → probe heap key entry ≢ match
          → find_from heap entries (length entries) key start (suc fuel) i passed ≡ (
              if (i + 1) % length entries == start
              then first_tombstone (pass (probe heap key entry) passed i)
              else find_from heap entries
                  (length entries)
                  key
                  start
                  fuel
                  ((i + 1) % length entries)
                  (pass (probe heap key entry) passed i))
      unfolding find_from
      round_more p q =
          let more = λ (k : Probe).
            if (i + 1) % length entries == start
            then first_tombstone (pass k passed i)
            else find_from heap entries (length entries) key start fuel ((i + 1) % length entries)
                (pass k passed i) in
          elim (Probe-cases (probe heap key entry)) [
            | inl e ↦ rw (here, find_from, e) (ap more e)
            | inr (inl e) ↦ rw (here, find_from, e) (ap more e)
            | inr (inr (inl e)) ↦ absurd (p e)
            | inr (inr (inr e)) ↦ absurd (q e)
          ]

    Passed-start : Passed 0 none
    Passed-start = record {
      clear = λ e h. absurd (omega arith);
      unmatched = λ e h. absurd (omega arith);
      none_passed = λ _ e h. absurd (omega arith);
      some_passed = λ t h. cc;
    }

    congr : (e d : ℕ) → e ≡ d → kind_after e ≡ kind_after d
    congr e d q = ap kind_after q

    -- One round past an entry that ends nothing.
    Passed-next :
        (d : ℕ) (passed : Option ℕ)
        → Passed d passed
        → kind_after d ≢ empty
        → kind_after d ≢ match
        → Passed (d + 1) (pass (kind_after d) passed (at start (length entries) d))
    Passed-next d none p full unequal = record {
      clear = λ e h. ground (arith, p.clear e, congr e d);
      unmatched = λ e h. ground (arith, p.unmatched e, congr e d);
      none_passed = λ q e h. ground (arith, p.none_passed refl e, congr e d);
      some_passed = λ t q.
          let (stone, at_d) = pass-none _ _ t q in
          (d, omega arith, sym at_d, ap kind (sym at_d) ∙ stone);
    }
    Passed-next d (some t₀) p full unequal = record {
      clear = λ e h. ground (arith, p.clear e, congr e d);
      unmatched = λ e h. ground (arith, p.unmatched e, congr e d);
      none_passed = λ q. cc (pass-some (kind_after d) (at start (length entries) d) t₀);
      some_passed = λ t q.
          let same : t₀ ≡ t = cc (pass-some (kind_after d) (at start (length entries) d) t₀) in
          let (e, below, place, stone) = p.some_passed t (ap some same) in
          (e, omega arith, place, stone);
    }

    Passed-Unreachable :
        (d : ℕ) (passed : Option ℕ) → Passed d passed → kind_after d ≡ empty → Unreachable
    Passed-Unreachable d passed p e j j_lt clear same = elim (dec_lt j d) [
      | yes less ↦ p.unmatched j less same
      | no not_less ↦ elim (dec_lt d j) [
        | yes more ↦ clear d more e
        | no not_more ↦ ground (arith, congr j d (omega arith))
      ]
    ]

    Passed-empty :
        (d i : ℕ) (passed : Option ℕ)
        → d < length entries
        → i ≡ at start (length entries) d
        → Passed d passed
        → kind_after d ≡ empty
        → Finds (absent (insertion_point passed i))
    Passed-empty d i none h place p e =
        (d, h, place, inl (ap kind place ∙ e), p.clear, Passed-Unreachable d none p e)
    Passed-empty d i (some t) h place p e =
        let (c, c_lt, c_place, stone) = p.some_passed t refl in
        (
          c,
          omega arith,
          c_place,
          inr stone,
          λ j j_lt. p.clear j (omega arith),
          Passed-Unreachable d (some t) p e,
        )

    Passed-end :
        (passed : Option ℕ) → Passed (length entries) passed → Finds (first_tombstone passed)
    Passed-end none p = λ d h. (p.clear d h, p.none_passed refl d h)
    Passed-end (some t) p =
        let (c, c_lt, c_place, stone) = p.some_passed t refl in
        (
          c,
          c_lt,
          c_place,
          inr stone,
          λ j j_lt. p.clear j (omega arith),
          λ j j_lt clear. p.unmatched j j_lt,
        )

    -- The loop from round `d` on, with enough fuel for the rounds that are left.
    module _ (below : start < length entries) where
      round-Finds :
          (fuel d i : ℕ) (passed : Option ℕ)
          → d < length entries
          → i ≡ at start (length entries) d
          → Passed d passed
          → ((passed' : Option ℕ)
              → Passed (d + 1) passed'
              → Finds (
                  if (i + 1) % length entries == start
                  then first_tombstone passed'
                  else find_from heap entries
                      (length entries)
                      key
                      start
                      fuel
                      ((i + 1) % length entries)
                      passed'))
          → Finds (find_from heap entries (length entries) key start (suc fuel) i passed)
      round-Finds fuel d i passed h place p go_on =
          let (entry, here) =
            get_elem?-of_lt entries i (rw place (at-lt start (length entries) d below h)) in
          let seen : probe heap key entry ≡ kind_after d =
            sym (ap kind (sym place) ∙ ap (kind_at heap key) here) in
          let on : kind_after d ≢ empty
              → kind_after d ≢ match
              → Finds (find_from heap entries (length entries) key start (suc fuel) i passed) =
            λ full unequal.
              rw
                (
                  round_more fuel i passed entry here (λ e. full (sym seen ∙ e))
                      (λ e. unequal (sym seen ∙ e)),
                  seen,
                )
                (go_on (pass (kind_after d) passed i)
                  (rw place (Passed-next d passed p full unequal))) in
          elim (Probe-cases (kind_after d)) [
            | inl e ↦ on (rw e (cc)) (rw e (cc))
            | inr (inl e) ↦ on (rw e (cc)) (rw e (cc))
            | inr (inr (inl e)) ↦
                rw (round_empty fuel i passed entry here (seen ∙ e))
                  (Passed-empty d i passed h place p e)
            | inr (inr (inr e)) ↦
                rw (round_match fuel i passed entry here (seen ∙ e))
                  (d, h, place, ap kind place ∙ e)
          ]

      find_from-Finds :
          (fuel d i : ℕ) (passed : Option ℕ)
          → d + suc fuel ≡ length entries
          → i ≡ at start (length entries) d
          → Passed d passed
          → Finds (find_from heap entries (length entries) key start (suc fuel) i passed)
      find_from-Finds zero d i passed left place p =
          let next : (i + 1) % length entries ≡ at start (length entries) (d + 1) =
            rw place (at_suc start (length entries) d below (omega arith)) in
          let wrapped : ((i + 1) % length entries == start) ≡ true = ground arith in
          round-Finds zero d i passed (omega arith) place p λ passed' p'.
            rw wrapped (Passed-end passed' (subst (λ k. Passed k passed') (omega arith) p'))
      find_from-Finds (suc fuel) d i passed left place p =
          let next : (i + 1) % length entries ≡ at start (length entries) (d + 1) =
            rw place (at_suc start (length entries) d below (omega arith)) in
          let onward : ((i + 1) % length entries == start) ≡ false = ground arith in
          round-Finds (suc fuel) d i passed (omega arith) place p
            λ passed' p'. rw onward (find_from-Finds fuel (d + 1) _ passed' (omega arith) next p')

-- On a table of positive capacity the search of `findEntry` ends within one round for each entry, also
-- where no entry ends it, and reads no entry outside of the table. An entry it finds holds an equal
-- key; where it finds none, the entry it gives to insert at is empty or a tombstone, no empty entry
-- stands before it on the way from the home of the key, and no entry that is reached without passing
-- an empty one holds an equal key; and its assertion fails only where no entry is empty or a
-- tombstone.
pub find_entry-Finds :
    (heap : Heap) (entries : List Entry) (key : Value)
    → 0 < length entries
    → Finds heap entries key
        (hash_value heap key % length entries)
        (find_entry heap entries (length entries) key)
unfolding find_entry
find_entry-Finds heap [] key h = absurd (omega arith)
find_entry-Finds heap (entry ∷ entries) key h =
    let capacity = suc (length entries) in
    let start = hash_value heap key % capacity in
    let below : start < capacity = omega arith in
    let full : (capacity == 0) ≡ false = ground arith in
    rw full (
      find_from-Finds heap (entry ∷ entries) key start below (length entries) 0 start none
        (omega arith) (sym (at_zero start capacity below))
        (Passed-start heap (entry ∷ entries) key start))
