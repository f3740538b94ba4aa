-- ===== src/Utils/PowerOf2.antt =====
-- wren_utils.c, lines 184 to 196: `wrenPowerOf2Ceil`. An `int` is its bit pattern, below 2 ^ 32.
pub mod Bounds
use rust_wren.Base.{ℕ, ◌+◌, ◌-◌, ◌/◌, ◌%◌, ◌^◌, bit_or, ltb, if◌then◌else◌}

-- `n >> k` on an `int`, which keeps the sign bit.
abbrev pub shift_right : ℕ → ℕ → ℕ
shift_right n k = if ltb n (2 ^ 31) then n / 2 ^ k else bit_or (n / 2 ^ k) (2 ^ 32 - 2 ^ (32 - k))

-- `n |= n >> k`.
unfoldable pub smear : ℕ → ℕ → ℕ
smear n k = bit_or n (shift_right n k)

unfoldable pub power_of_2_ceil : ℕ → ℕ
unfolding smear
power_of_2_ceil n =
    let n₀ = (n + 2 ^ 32 - 1) % 2 ^ 32 in
    let n₁ = smear n₀ 1 in
    let n₂ = smear n₁ 2 in
    let n₃ = smear n₂ 4 in let n₄ = smear n₃ 8 in let n₅ = smear n₄ 16 in (n₅ + 1) % 2 ^ 32
