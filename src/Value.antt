-- ===== src/Value.antt =====
-- wren_value.h and wren_value.c: values, their equality and their hash codes.
-- The build is the default one, with WREN_NAN_TAGGING: a value is 64 bits, and `Value.bits` gives
-- them for a value that is no object. A double is its 64 bits; an object is its address, and a
-- `Heap` gives what stands at an address. `char` is signed.
pub mod Double
pub mod Hash
pub mod Equal
use rust_wren.Base.{ℕ, ◌+◌, ◌^◌, List, Bool, true, false}

-- The objects that are compared or hashed by their contents, and the class, which is hashed by its
-- name. `arity` and `code_count` are those of an ObjFn.
pub data Object : Type 0 where
  class_object : List ℕ → Object
  fn : ℕ → ℕ → Object
  range : ℕ → ℕ → Bool → Object
  string : List ℕ → Object
  other : Object

abbrev pub Heap : Type 0
Heap = ℕ → Object

pub data Value : Type 0 where
  undefined null_val false_val true_val : Value
  num : ℕ → Value
  obj : ℕ → Value

abbrev pub qnan : ℕ
qnan = 0x7ffc000000000000

-- `IS_UNDEFINED`, `IS_FALSE` and `IS_OBJ`.
abbrev pub is_undefined : Value → Bool
is_undefined undefined = true
is_undefined v = false

abbrev pub is_false : Value → Bool
is_false false_val = true
is_false v = false

abbrev pub is_obj : Value → Bool
is_obj (obj a) = true
is_obj v = false

-- `wrenMapIsValidKey`.
abbrev pub is_key_object : Object → Bool
is_key_object (class_object name) = true
is_key_object (fn arity code_count) = false
is_key_object (range from to inclusive) = true
is_key_object (string s) = true
is_key_object other = false

unfoldable pub map_is_valid_key : Heap → Value → Bool
map_is_valid_key heap undefined = false
map_is_valid_key heap null_val = true
map_is_valid_key heap false_val = true
map_is_valid_key heap true_val = true
map_is_valid_key heap (num n) = true
map_is_valid_key heap (obj a) = is_key_object (heap a)
