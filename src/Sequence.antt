-- ===== src/Sequence.antt =====
-- wren_value.c, lines 304 to 361: lists, on buffers of their elements. The roots that keep values alive
-- while the buffer grows are left out.
pub mod Shift
pub mod Refine
pub mod Find
use rust_wren.Base.{
  ℕ, zero, suc, ◌+◌, ◌-◌, ◌/◌, List, [], ◌∷◌, Bool, true, false, ltb, leb, if◌then◌else◌, length,
  get_elem?, set, take, Option, none, some,
}
use rust_wren.Utils.Buffer.{Buffer, reallocate, write}
use rust_wren.Value.{Heap, Value}
use rust_wren.Value.Equal.{values_equal}

-- `GROW_FACTOR`.
abbrev pub grow_factor : ℕ
grow_factor = 2

infixl 5 ◌>>=◌
abbrev pub ◌>>=◌ {ℓ κ} : {A : Type ℓ} {B : Type κ} → Option A → (A → Option B) → Option B
none >>= f = none
some a >>= f = f a

module _ {ℓ} {A : Type ℓ} where
  -- A store into the array of a list; `none` is one out of bounds.
  unfoldable pub put : List (Option A) → ℕ → Option A → Option (List (Option A))
  put cells i cell = if ltb i (length cells) then some (set cells i cell) else none

  -- `data[to] = data[from]`.
  unfoldable pub copy : List (Option A) → ℕ → ℕ → Option (List (Option A))
  unfolding put
  copy cells from to = elim (get_elem? cells from) [ none ↦ none | some cell ↦ put cells to cell ]

  -- The loop of `wrenListInsert`, from `i` down.
  unfoldable pub shift_down : List (Option A) → ℕ → ℕ → Option (List (Option A))
  unfolding copy
  shift_down cells index zero = some cells
  shift_down cells index (suc i) = elim (ltb index (suc i)) [
    | false ↦ some cells
    | true ↦ elim (copy cells i (suc i)) [ none ↦ none | some cells' ↦ shift_down cells' index i ]
  ]

  -- `wrenListInsert`, where `null` fills the slot that is added.
  unfoldable pub list_insert : A → Buffer A → A → ℕ → Option (Buffer A)
  unfolding shift_down put
  list_insert null list value index = do
    b ← write list null
    cells ← shift_down b.cells index (b.count - 1)
    cells' ← put cells index (some value)
    some (record b { cells = cells' })

  -- The loop of `wrenListRemoveAt`, for the rounds left from `i` up.
  unfoldable pub shift_up : ℕ → List (Option A) → ℕ → Option (List (Option A))
  unfolding copy
  shift_up zero cells i = some cells
  shift_up (suc rounds) cells i = elim (copy cells (i + 1) i) [
    | none ↦ none
    | some cells' ↦ shift_up rounds cells' (i + 1)
  ]

  -- The excess capacity is given back.
  unfoldable pub shrink_list : Buffer A → Buffer A
  unfolding reallocate
  shrink_list b =
      if leb b.count (b.capacity / grow_factor)
      then record b {
        cells = reallocate b.cells (b.capacity / grow_factor);
        capacity = b.capacity / grow_factor;
      }
      else b

  -- `wrenListRemoveAt`; `none` is also a read of a slot that nothing was written to.
  unfoldable pub list_remove_at : Buffer A → ℕ → Option (A × Buffer A)
  unfolding shift_up shrink_list
  list_remove_at list index = do
    cell ← get_elem? list.cells index
    removed ← cell
    cells ← shift_up (list.count - 1 - index) list.cells index
    let b = shrink_list (record list { cells = cells })
    some (removed, record b { count = b.count - 1 })

-- What the loop of `wrenListIndexOf` reads; `none` is a slot that nothing was written to, or out of
-- bounds.
abbrev pub element : Option (Option Value) → Option Value
element none = none
element (some cell) = cell

-- The loop, for the rounds left from `i` on.
unfoldable pub index_rounds : Heap → List (Option Value) → Value → ℕ → ℕ → Option (Option ℕ)
index_rounds heap cells value zero i = some none
index_rounds heap cells value (suc rounds) i = do
  item ← element (get_elem? cells i)
  elim (values_equal heap item value) [
    | true ↦ some (some i)
    | false ↦ index_rounds heap cells value rounds (i + 1)
  ]

-- `wrenListIndexOf`; the result `some none` is -1.
unfoldable pub list_index_of : Heap → Buffer Value → Value → Option (Option ℕ)
unfolding index_rounds
list_index_of heap list value = index_rounds heap list.cells value list.count 0
