-- ===== src/Tests/Sequences.antt =====
-- Runs of the operations on lists.
use rust_wren.Base.{ℕ, ◌≡◌, ◌≤◌, refl, [], ◌∷◌, none, some, arith}
use rust_wren.Utils.Buffer.{Buffer}
use rust_wren.Utils.Buffer.Refine.{Represents}
use rust_wren.Value.{string, Heap, Value, num}
use rust_wren.Sequence.{list_insert, list_remove_at, list_index_of}
use rust_wren.Sequence.Refine.{list_insert-Represents, list_remove_at-Represents}
use rust_wren.Sequence.Find.{index_from, list_index_of-index_from}

abbrev three_items : Buffer ℕ
three_items = record { cells = some 7 ∷ some 8 ∷ some 9 ∷ none ∷ []; count = 3; capacity = 4 }

three_items-Represents : Represents three_items (7 ∷ 8 ∷ 9 ∷ [])
three_items-Represents = record {
  free = none ∷ [];
  cells_eq = refl;
  count_eq = refl;
  capacity_eq = refl;
}

list_insert-Represents_example :
    (list' : Buffer ℕ) × (list_insert 0 three_items 5 1 ≡ some list')
    × Represents list' (7 ∷ 5 ∷ 8 ∷ 9 ∷ [])
list_insert-Represents_example =
    list_insert-Represents 0 three_items (7 ∷ []) (8 ∷ 9 ∷ []) 5 three_items-Represents
      (omega arith)

list_remove_at-Represents_example :
    (list' : Buffer ℕ) × (list_remove_at three_items 1 ≡ some (8, list'))
    × Represents list' (7 ∷ 9 ∷ [])
    × (list'.capacity ≤ 4)
list_remove_at-Represents_example =
    list_remove_at-Represents three_items (7 ∷ []) 8 (9 ∷ []) three_items-Represents

abbrev no_objects : Heap
no_objects address = string []

abbrev numbers : Buffer Value
numbers = record { cells = some (num 1) ∷ some (num 2) ∷ []; count = 2; capacity = 2 }

numbers-Represents : Represents numbers (num 1 ∷ num 2 ∷ [])
numbers-Represents = record { free = []; cells_eq = refl; count_eq = refl; capacity_eq = refl }

list_index_of-index_from_example :
    list_index_of no_objects numbers (num 2)
    ≡ some (index_from no_objects (num 1 ∷ num 2 ∷ []) (num 2) 0)
list_index_of-index_from_example =
    list_index_of-index_from no_objects numbers (num 1 ∷ num 2 ∷ []) (num 2) numbers-Represents
