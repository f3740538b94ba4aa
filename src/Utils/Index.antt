-- ===== src/Utils/Index.antt =====
-- wren_utils.c, lines 198 to 207: `wrenValidateIndex`. An `int64_t` is an integer.
use rust_wren.Base.{
  ℕ, ◌+◌, ◌-◌, ◌^◌, ◌<◌, ◌≡◌, ◌⊎◌, inl, inr, ◌%◌, arith, dec_lt, ◌&&◌, not, if◌then◌else◌,
}
use rust_wren.Base.Int.{ℤ, pos, negsuc, ◌+ℤ◌, ltb_ℤ, pos_part}

abbrev pub uint32_max : ℕ
uint32_max = 2 ^ 32 - 1

-- `value` after the adjustment of negative indices.
abbrev pub from_end : ℕ → ℤ → ℤ
from_end count value = if ltb_ℤ value (pos 0) then pos count +ℤ value else value

unfoldable pub validate_index : ℕ → ℤ → ℕ
validate_index count value =
    let v = from_end count value in
    if not (ltb_ℤ v (pos 0)) && ltb_ℤ v (pos count) then pos_part v % 2 ^ 32 else uint32_max

-- An index that counts from the front or, if negative, from the end of `count` items.
abbrev pub Denotes : ℕ → ℤ → ℕ → Type 0
Denotes count (pos n) i = i ≡ n
Denotes count (negsuc n) i = i + n + 1 ≡ count

-- For a count below 2 ^ 32 - 1, `wrenValidateIndex` returns the index below the count that the value
-- denotes, from the front or from the end, and UINT32_MAX exactly when it denotes none.
pub validate_index_lem :
    (count : ℕ) (value : ℤ)
    → count < uint32_max
    → ((validate_index count value < count) × Denotes count value (validate_index count value))
      ⊎ ((validate_index count value ≡ uint32_max)
          × ((i : ℕ) → i < count → Denotes count value i → ⊥))
unfolding validate_index
validate_index_lem count (pos n) h = elim (dec_lt n count) [
  | yes p ↦ inl (ground arith, ground arith)
  | no p ↦ inr (ground arith, λ i below e. omega arith)
]
validate_index_lem count (negsuc n) h = elim (dec_lt n count) [
  | yes p ↦ inl (ground arith, ground arith)
  | no p ↦ inr (ground arith, λ i below e. omega arith)
]
