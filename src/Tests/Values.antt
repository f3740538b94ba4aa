-- ===== src/Tests/Values.antt =====
-- Hash codes and equality of values at fixed inputs.
use rust_wren.Base.{◌^◌, ◌≡◌, refl, [], ◌∷◌, true, false, if◌then◌else◌, ◌==◌}
use rust_wren.Value.{string, range, Heap, obj}
use rust_wren.Value.Double.{double_of_int}
use rust_wren.Value.Hash.{hash_value, hash_string}
use rust_wren.Value.Equal.{values_equal}
use rust_wren.Value.Equal.Laws.{hash-values_equal}

-- Two strings with the same bytes, and two ranges that differ in the sign of a zero.
abbrev heap : Heap
heap a =
    if a == 0
    then string (97 ∷ 98 ∷ [])
    else if a == 1
    then string (97 ∷ 98 ∷ [])
    else if a == 2
    then range 0 0 true
    else range (2 ^ 63) 0 true

-- The FNV-1a hash of "a".
hash_string_a : hash_string (97 ∷ []) ≡ 0xe40c292c
unfolding hash_string
hash_string_a = refl

-- 3.0.
double_of_int_three : double_of_int 3 ≡ 0x4008000000000000
unfolding double_of_int
double_of_int_three = refl

strings_equal : values_equal heap (obj 0) (obj 1) ≡ true
unfolding values_equal
strings_equal = refl

hash-values_equal_example : hash_value heap (obj 0) ≡ hash_value heap (obj 1)
hash-values_equal_example = hash-values_equal heap (obj 0) (obj 1) tt tt strings_equal

-- A range from the negative zero equals the range from 0 and has another hash code.
ranges_equal : values_equal heap (obj 2) (obj 3) ≡ true
unfolding values_equal
ranges_equal = refl

ranges_hash : (hash_value heap (obj 2) == hash_value heap (obj 3)) ≡ false
unfolding hash_value
ranges_hash = refl
