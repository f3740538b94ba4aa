-- ===== src/Utils/Buffer.antt =====
-- wren_utils.h, lines 16 to 64: the buffers that DECLARE_BUFFER and DEFINE_BUFFER generate.
-- An array is the list of its cells; `none` is a cell that nothing has been written to.
pub mod Refine
use rust_wren.Base.{
  ℕ, zero, suc, ◌+◌, ◌-◌, List, [], ◌∷◌, ◌++◌, Option, none, some, length, set, take, replicate,
  get_elem?, ltb, if◌then◌else◌,
}
use rust_wren.Utils.PowerOf2.{power_of_2_ceil}

pub record Buffer {ℓ} (A : Type ℓ) : Type ℓ where
  pub cells : List (Option A)
  pub count : ℕ
  pub capacity : ℕ

module _ {ℓ} {A : Type ℓ} where
  -- What `wrenReallocate` does to an array: the cells that fit keep what they hold.
  unfoldable pub reallocate : List (Option A) → ℕ → List (Option A)
  reallocate cells n = take n cells ++ replicate (n - length cells) none

  -- `wren##name##BufferInit`.
  unfoldable pub init : Buffer A
  init = record { cells = []; count = 0; capacity = 0 }

  -- `wren##name##BufferClear`.
  unfoldable pub clear : Buffer A → Buffer A
  unfolding reallocate init
  clear b = init

  -- The test at the head of `wren##name##BufferFill`.
  unfoldable pub reserve : Buffer A → ℕ → Buffer A
  unfolding reallocate
  reserve b n =
      let capacity = power_of_2_ceil (b.count + n) in
      if ltb b.capacity (b.count + n)
      then record b { cells = reallocate b.cells capacity; capacity = capacity }
      else b

  -- `buffer->data[buffer->count++] = data`; `none` is a store past the end of the array.
  unfoldable pub store : Buffer A → A → Option (Buffer A)
  store b x =
      if ltb b.count (length b.cells)
      then some (record b { cells = set b.cells b.count (some x); count = b.count + 1 })
      else none

  -- The loop of `wren##name##BufferFill`.
  unfoldable pub store_many : Buffer A → A → ℕ → Option (Buffer A)
  unfolding store
  store_many b x zero = some b
  store_many b x (suc n) = elim (store b x) [ none ↦ none | some b' ↦ store_many b' x n ]

  -- `wren##name##BufferFill`.
  unfoldable pub fill : Buffer A → A → ℕ → Option (Buffer A)
  unfolding reserve store_many
  fill b x n = store_many (reserve b n) x n

  -- `wren##name##BufferWrite`.
  unfoldable pub write : Buffer A → A → Option (Buffer A)
  unfolding fill
  write b x = fill b x 1

  -- `buffer->data[i]`; `none` is a read of a cell that holds nothing, or past the end.
  unfoldable pub load : Buffer A → ℕ → Option A
  load b i = elim (get_elem? b.cells i) [ none ↦ none | some cell ↦ cell ]
