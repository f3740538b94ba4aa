-- ===== src/Sequence/Find.antt =====
-- wren_value.c, lines 323 to 334: the search in a list.
use rust_wren.Base.{
  ℕ, ◌+◌, ◌≡◌, refl, ap, ap₂, ◌∙◌, sym, List, [], ◌∷◌, ◌++◌, arith, length, length-append,
  get_elem?, get_elem?-append_length, map, append_assoc, Option, none, some, inl, inr, Bool-cases,
  if◌then◌else◌,
}
use rust_wren.Utils.Buffer.{Buffer}
use rust_wren.Utils.Buffer.Refine.{Represents}
use rust_wren.Value.{Heap, Value}
use rust_wren.Value.Equal.{values_equal}
use rust_wren.Sequence.{element, index_rounds, list_index_of}
use rust_wren.Sequence.Refine.{bind_some}

-- The index of the first item that is equal to the value, if there is one, where the first item has
-- the index `i`.
unfoldable pub index_from : Heap → List Value → Value → ℕ → Option ℕ
index_from heap [] value i = none
index_from heap (item ∷ items) value i =
    let rest = index_from heap items value (i + 1) in
    if values_equal heap item value then some i else rest

index_rounds-index_from :
    (heap : Heap) (items : List Value) (value : Value) (pre free : List (Option Value)) (i : ℕ)
    → i ≡ length pre
    → index_rounds heap (pre ++ (map some items ++ free)) value (length items) i
      ≡ some (index_from heap items value i)
unfolding index_rounds index_from
index_rounds-index_from heap [] value pre free i at = refl
index_rounds-index_from heap (item ∷ items) value pre free i at =
    let cells = pre ++ some item ∷ (map some items ++ free) in
    let here : element (get_elem? cells i) ≡ some item =
      ap (λ (k : ℕ). element (get_elem? cells k)) at
      ∙ ap element (get_elem?-append_length pre (map some items ++ free) (some item)) in
    bind_some (element (get_elem? cells i)) item _ here
    ∙ elim (Bool-cases (values_equal heap item value)) [
      | inl t ↦ rw t refl
      | inr t ↦ rw t (
          ap (λ (c : List (Option Value)). index_rounds heap c value (length items) (i + 1))
            (sym (append_assoc pre (some item ∷ []) (map some items ++ free)))
          ∙ index_rounds-index_from heap items value (pre ++ some item ∷ []) free (i + 1)
              (omega (arith, at, length-append pre (some item ∷ []))))
    ]

-- `wrenListIndexOf` on a list that holds `items`: no access is out of bounds, and it returns what
-- the search in the sequence of the items does, the index of the first item that wrenValuesEqual
-- takes for equal to the value, or -1 if there is none.
pub list_index_of-index_from :
    (heap : Heap) (list : Buffer Value) (items : List Value) (value : Value)
    → Represents list items
    → list_index_of heap list value ≡ some (index_from heap items value 0)
unfolding list_index_of
list_index_of-index_from heap list items value r =
    ap₂ (λ (c : List (Option Value)) (n : ℕ). index_rounds heap c value n 0) r.cells_eq r.count_eq
    ∙ index_rounds-index_from heap items value [] r.free 0 refl
