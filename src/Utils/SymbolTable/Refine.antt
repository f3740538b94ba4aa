-- ===== src/Utils/SymbolTable/Refine.antt =====
-- wren_utils.c: a symbol table against the list of its names, whose places are the symbols.
use rust_wren.Base.{
  ℕ, zero, suc, ◌+◌, ◌^◌, ◌≤◌, ◌<◌, ◌≡◌, refl, ap, sym, ◌∙◌, List, [], ◌∷◌, ◌++◌, some, get_elem?,
  length, arith, ◌≢◌, Bool-cases, inl, inr, length-append, lt-of-get_elem?, get_elem?-of_lt,
  get_elem?-snoc, dec_lt, get_elem?-append_left, get_elem?-append_length,
}
use rust_wren.Base.Int.{ℤ, pos, negsuc, sub_ℕ}
use rust_wren.Bytes.{string_equals_cstring, string_equals_cstring_iff}
use rust_wren.Utils.Buffer
use rust_wren.Utils.Buffer.{Buffer}
use rust_wren.Utils.Buffer.Refine.{Represents, load-Represents, fill-Represents}
use rust_wren.Utils.SymbolTable.{SymbolTable, find_from, find, add, ensure}

-- `name` stands at index `i` of `names`, and nowhere before.
pub record IsFirst (names : List (List ℕ)) (name : List ℕ) (i : ℕ) : Type 0 where
  pub here : get_elem? names i ≡ some name
  pub not_before : (j : ℕ) → j < i → get_elem? names j ≢ some name

-- What `wrenSymbolTableFind` returns is the first index of the name, or -1 if the name is absent.
abbrev pub Finds : List (List ℕ) → List ℕ → ℤ → Type 0
Finds names name (pos i) = IsFirst names name i
Finds names name (negsuc n) = (n ≡ 0) × ((j : ℕ) → get_elem? names j ≢ some name)

module _ (symbols : SymbolTable) (names : List (List ℕ)) (r : Represents symbols names)
    (name : List ℕ) where
  find_from-Finds :
      (rounds i : ℕ)
      → i + rounds ≡ length names
      → ((j : ℕ) → j < i → get_elem? names j ≢ some name)
      → (k : ℤ) × (find_from symbols name rounds i ≡ some k) × Finds names name k
  unfolding find_from
  find_from-Finds zero i e before = (
    negsuc 0,
    refl,
    (refl, λ j found. before j (omega (arith, lt-of-get_elem? names j name found)) found),
  )
  find_from-Finds (suc rounds) i e before =
      let (symbol, here) = get_elem?-of_lt names i (omega arith) in
      let loaded = load-Represents symbols names i symbol r here in
      elim (Bool-cases (string_equals_cstring symbol name)) [
        | inl same ↦
            let symbol_eq = (string_equals_cstring_iff symbol name).0 same in
            (
              pos i,
              rw (loaded, find_from, same),
              record { here = here ∙ ap some symbol_eq; not_before = before },
            )
        | inr other ↦
            let (k, run, found) = find_from-Finds rounds (i + 1) (omega arith) λ j below found.
              elim (dec_lt j i) [
                | yes less ↦ before j less found
                | no not_less ↦
                    let at_i : j ≡ i = omega arith in
                    let symbol_eq : symbol ≡ name = cc (ap (get_elem? names) at_i) in
                    cc ((string_equals_cstring_iff symbol name).1 symbol_eq)
              ] in
            (k, rw (loaded, find_from, other) run, found)
      ]

  pub find-Finds : (k : ℤ) × (find symbols name ≡ some k) × Finds names name k
  unfolding find
  find-Finds =
      rw r.count_eq (find_from-Finds (length names) 0 (omega arith) (λ j h. absurd (omega arith)))

-- No name has two symbols.
abbrev pub Distinct : List (List ℕ) → Type 0
Distinct names =
    (i j : ℕ) (name : List ℕ)
    → get_elem? names i ≡ some name
    → get_elem? names j ≡ some name
    → i ≡ j

-- What `wrenSymbolTableEnsure` leaves, given the names before it.
pub record Ensured (names : List (List ℕ)) (name : List ℕ) (k : ℤ) (symbols : SymbolTable)
    : Type 0 where
  pub index : ℕ
  pub names' : List (List ℕ)
  pub symbol : k ≡ pos index
  pub represents : Represents symbols names'
  pub here : get_elem? names' index ≡ some name
  pub kept : (j : ℕ) → j < length names → get_elem? names' j ≡ get_elem? names j
  pub size : length names' ≤ length names + 1
  pub distinct : Distinct names → Distinct names'

module _ (symbols : SymbolTable) (names : List (List ℕ)) (r : Represents symbols names)
    (name : List ℕ) where
  Distinct-snoc :
      ((j : ℕ) → get_elem? names j ≢ some name) → Distinct names → Distinct (names ++ name ∷ [])
  Distinct-snoc absent d i j other e e' = elim (get_elem?-snoc names name other i e) [
    | inl p ↦ elim (get_elem?-snoc names name other j e') [
      | inl q ↦ d i j other p q
      | inr q ↦ absurd (absent i (p ∙ ap some (sym q.1)))
    ]
    | inr p ↦ elim (get_elem?-snoc names name other j e') [
      | inl q ↦ absurd (absent j (q ∙ ap some (sym p.1)))
      | inr q ↦ p.0 ∙ sym q.0
    ]
  ]

  add-Ensured :
      length names < 2 ^ 30
      → ((j : ℕ) → get_elem? names j ≢ some name)
      → (k : ℤ) × (symbols' : SymbolTable) × (add symbols name ≡ some (k, symbols'))
        × Ensured names name k symbols'
  unfolding add Buffer.write
  add-Ensured h absent =
      let (symbols', run, r', _, _) =
        fill-Represents symbols names name 1 r (omega arith) (omega arith) in
      let last : sub_ℕ symbols'.count 1 ≡ pos (length names) =
        ground (arith, r'.count_eq, length-append names (name ∷ [])) in
      (
        pos (length names),
        symbols',
        rw (run, add, last),
        record {
          index = length names;
          names' = names ++ name ∷ [];
          symbol = refl;
          represents = r';
          here = get_elem?-append_length names [] name;
          kept = get_elem?-append_left names (name ∷ []);
          size = omega (arith, length-append names (name ∷ []));
          distinct = Distinct-snoc absent;
        },
      )

  ensure-found :
      (k : ℤ)
      → length names < 2 ^ 30
      → find symbols name ≡ some k
      → Finds names name k
      → (k' : ℤ) × (symbols' : SymbolTable) × (ensure symbols name ≡ some (k', symbols'))
        × Ensured names name k' symbols'
  unfolding ensure
  ensure-found (pos i) h run found = (
    pos i,
    symbols,
    rw (run, ensure) (ground arith),
    record {
      index = i;
      names' = names;
      symbol = refl;
      represents = r;
      here = found.here;
      kept = λ j _. refl;
      size = omega arith;
      distinct = λ d. d;
    },
  )
  ensure-found (negsuc n) h run found =
      let (k, symbols', added, e) = add-Ensured h found.1 in
      (k, symbols', rw (run, ensure, found.0) added, e)

  -- On a table of fewer than 2 ^ 30 names, `wrenSymbolTableEnsure` returns a symbol whose name is the
  -- given one, keeps the name of every symbol that was there, and leaves at most one name more than
  -- before, all distinct if they were.
  pub ensure-Ensured :
      length names < 2 ^ 30
      → (k : ℤ) × (symbols' : SymbolTable) × (ensure symbols name ≡ some (k, symbols'))
        × Ensured names name k symbols'
  unfolding ensure
  ensure-Ensured h =
      let (k, run, found) = find-Finds symbols names r name in ensure-found k h run found
