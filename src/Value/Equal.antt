-- ===== src/Value/Equal.antt =====
-- wren_value.h, lines 803 to 814, and wren_value.c, lines 1292 to 1330: equality of values.
pub mod Laws
use rust_wren.Base.{ℕ, List, [], ◌∷◌, Bool, true, false, ◌&&◌, ◌||◌, ◌==◌, if◌then◌else◌}
use rust_wren.Bytes.{string_equals_cstring}
use rust_wren.Value.{
  Object, class_object, fn, range, string, other, Heap, Value, undefined, null_val, false_val,
  true_val, num, obj, is_obj,
}
use rust_wren.Value.Double.{double_eq}
use rust_wren.Value.Hash.{hash_string}

-- `wrenValuesSame`: the same bits, or the same object.
unfoldable pub values_same : Value → Value → Bool
values_same undefined undefined = true
values_same null_val null_val = true
values_same false_val false_val = true
values_same true_val true_val = true
values_same (num m) (num n) = m == n
values_same (obj a) (obj b) = a == b
values_same v w = false

abbrev pub bool_eq : Bool → Bool → Bool
bool_eq true b = b
bool_eq false true = false
bool_eq false false = true

-- The `switch` of `wrenValuesEqual`, on two objects.
unfoldable pub objects_equal : Object → Object → Bool
unfolding double_eq string_equals_cstring hash_string
objects_equal (range from to inclusive) (range from' to' inclusive') =
    double_eq from from' && double_eq to to' && bool_eq inclusive inclusive'
objects_equal (string s) (string s') = hash_string s == hash_string s' && string_equals_cstring s s'
objects_equal a b = false

abbrev pub both_objects : Heap → Value → Value → Bool
both_objects heap (obj a) (obj b) = objects_equal (heap a) (heap b)
both_objects heap v w = false

-- `wrenValuesEqual`.
unfoldable pub values_equal : Heap → Value → Value → Bool
unfolding values_same objects_equal
values_equal heap v w = values_same v w || both_objects heap v w
