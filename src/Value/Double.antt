-- ===== src/Value/Double.antt =====
-- Doubles by their 64 bits, as wren_math.h converts them: the comparison `==` and the conversion of
-- an `int`.
use rust_wren.Base.{
  ℕ, zero, suc, ◌+◌, ◌-◌, ◌*◌, ◌/◌, ◌%◌, ◌^◌, Bool, ◌&&◌, ◌||◌, not, ltb, ◌==◌, if◌then◌else◌,
}

abbrev pub is_nan : ℕ → Bool
is_nan d = ltb 0x7ff0000000000000 (d % 2 ^ 63)

abbrev pub is_zero : ℕ → Bool
is_zero d = d % 2 ^ 63 == 0

-- `a == b` on doubles: a NaN equals nothing, and the two zeros are equal.
unfoldable pub double_eq : ℕ → ℕ → Bool
double_eq a b = not (is_nan a) && not (is_nan b) && (a == b || is_zero a && is_zero b)

abbrev pub negative_zero : ℕ
negative_zero = 2 ^ 63

log_2 : ℕ → ℕ → ℕ
log_2 zero n = 0
log_2 (suc fuel) n = let rest = suc (log_2 fuel (n / 2)) in if ltb n 2 then 0 else rest

-- The double of a number below 2 ^ 32, which is exact.
unfoldable pub double_of_int : ℕ → ℕ
unfolding log_2
double_of_int n =
    let e = log_2 32 n in if n == 0 then 0 else (1023 + e) * 2 ^ 52 + (n * 2 ^ (52 - e) - 2 ^ 52)
