-- ===== src/Utils/PowerOf2/Bounds.antt =====
-- wren_utils.c, `wrenPowerOf2Ceil` against the powers of two.
use native.Mathlib.Nat.{pow-suc}
use rust_wren.Base.{
  ℕ, zero, suc, ◌+◌, ◌-◌, ◌*◌, ◌/◌, ◌%◌, ◌^◌, ◌≤◌, ◌<◌, ◌≡◌, refl, ap, bit_or, arith, dec_lt, ◌≢◌,
  lt→ltb, ◌∙◌,
}
use rust_wren.Base.Bits.{bit_or_step}
use rust_wren.Utils.PowerOf2.{smear, power_of_2_ceil}

-- The smearing steps on a number with a clear sign bit.
join : ℕ → ℕ → ℕ
join d n = bit_or n (n / d)

-- Functions that act on each binary digit alike: they commute with halving.
module _ (f : ℕ → ℕ) (h : (n : ℕ) → f n / 2 ≡ f (n / 2)) where
  by_4 : (n : ℕ) → f n / 4 ≡ f (n / 4)
  by_4 n = let e : n / 2 / 2 ≡ n / 4 = omega arith in omega (arith, h n, h (n / 2), ap f e)

  by_16 : (n : ℕ) → f n / 16 ≡ f (n / 16)
  by_16 n = let e : n / 4 / 4 ≡ n / 16 = omega arith in omega (arith, by_4 n, by_4 (n / 4), ap f e)

  by_256 : (n : ℕ) → f n / 256 ≡ f (n / 256)
  by_256 n =
      let e : n / 16 / 16 ≡ n / 256 = omega arith in omega (arith, by_16 n, by_16 (n / 16), ap f e)

  by_65536 : (n : ℕ) → f n / 65536 ≡ f (n / 65536)
  by_65536 n =
      let e : n / 256 / 256 ≡ n / 65536 = omega arith in
      omega (arith, by_256 n, by_256 (n / 256), ap f e)

  -- The sign bit stays clear.
  stays_positive : f 0 ≡ 0 → (n : ℕ) → n < 2 ^ 31 → f n < 2 ^ 31
  stays_positive z n small =
      let m = n / 65536 in
      let k = m / 256 in
      let j = k / 16 in
      let e : j / 4 / 2 ≡ 0 = omega arith in
      omega (arith, by_65536 n, by_256 m, by_16 k, by_4 j, h (j / 4), ap f e)

module _ (f : ℕ → ℕ) (h : (n : ℕ) → f n / 2 ≡ f (n / 2)) where
  join_half :
      (d : ℕ) → ((n : ℕ) → n / d / 2 ≡ n / 2 / d) → (n : ℕ) → join d (f n) / 2 ≡ join d (f (n / 2))
  unfolding join
  join_half d c n = omega (
    arith,
    bit_or_step (f n) (f n / d),
    c (f n),
    h n,
    ap (λ (t : ℕ). bit_or (f n / 2) t) (c (f n)),
    ap (λ (t : ℕ). bit_or t (t / d)) (h n),
  )

join_low : (d n : ℕ) → join d n % 2 ≡ 0 → (n % 2 ≡ 0) × (n / d % 2 ≡ 0)
unfolding join
join_low d n e = omega (arith, bit_or_step n (n / d))

one_step : ℕ → ℕ
one_step n = join 2 n

one_step-half : (n : ℕ) → one_step n / 2 ≡ one_step (n / 2)
unfolding one_step
one_step-half n = join_half (λ n. n) (λ n. refl) 2 (λ n. omega arith) n

one_step-zero : one_step 0 ≡ 0
unfolding one_step join
one_step-zero = refl

one_step_low : (n : ℕ) → one_step n % 2 ≡ 0 → n % 4 ≡ 0
unfolding one_step
one_step_low n e = omega (arith, join_low 2 n e)

two_steps : ℕ → ℕ
two_steps n = join 4 (one_step n)

two_steps-half : (n : ℕ) → two_steps n / 2 ≡ two_steps (n / 2)
unfolding two_steps
two_steps-half n = join_half (one_step) (one_step-half) 4 (λ n. omega arith) n

two_steps-zero : two_steps 0 ≡ 0
unfolding two_steps join
two_steps-zero = rw one_step-zero

two_steps_low : (n : ℕ) → two_steps n % 2 ≡ 0 → n % 16 ≡ 0
unfolding two_steps
two_steps_low n e =
    let (low, high) = join_low 4 (one_step n) e in
    let high' : one_step (n / 4) % 2 ≡ 0 = omega (arith, by_4 one_step one_step-half n) in
    omega (arith, one_step_low n low, one_step_low (n / 4) high')

three_steps : ℕ → ℕ
three_steps n = join 16 (two_steps n)

three_steps-half : (n : ℕ) → three_steps n / 2 ≡ three_steps (n / 2)
unfolding three_steps
three_steps-half n = join_half (two_steps) (two_steps-half) 16 (λ n. omega arith) n

three_steps-zero : three_steps 0 ≡ 0
unfolding three_steps join
three_steps-zero = rw two_steps-zero

three_steps_low : (n : ℕ) → three_steps n % 2 ≡ 0 → n % 256 ≡ 0
unfolding three_steps
three_steps_low n e =
    let (low, high) = join_low 16 (two_steps n) e in
    let high' : two_steps (n / 16) % 2 ≡ 0 = omega (arith, by_16 two_steps two_steps-half n) in
    omega (arith, two_steps_low n low, two_steps_low (n / 16) high')

four_steps : ℕ → ℕ
four_steps n = join 256 (three_steps n)

four_steps-half : (n : ℕ) → four_steps n / 2 ≡ four_steps (n / 2)
unfolding four_steps
four_steps-half n = join_half (three_steps) (three_steps-half) 256 (λ n. omega arith) n

four_steps-zero : four_steps 0 ≡ 0
unfolding four_steps join
four_steps-zero = rw three_steps-zero

four_steps_low : (n : ℕ) → four_steps n % 2 ≡ 0 → n % 65536 ≡ 0
unfolding four_steps
four_steps_low n e =
    let (low, high) = join_low 256 (three_steps n) e in
    let high' : three_steps (n / 256) % 2 ≡ 0 =
      omega (arith, by_256 three_steps three_steps-half n) in
    omega (arith, three_steps_low n low, three_steps_low (n / 256) high')

five_steps : ℕ → ℕ
five_steps n = join 65536 (four_steps n)

five_steps-half : (n : ℕ) → five_steps n / 2 ≡ five_steps (n / 2)
unfolding five_steps
five_steps-half n = join_half (four_steps) (four_steps-half) 65536 (λ n. omega arith) n

five_steps-zero : five_steps 0 ≡ 0
unfolding five_steps join
five_steps-zero = rw four_steps-zero

five_steps_low : (n : ℕ) → five_steps n % 2 ≡ 0 → n % 4294967296 ≡ 0
unfolding five_steps
five_steps_low n e =
    let (low, high) = join_low 65536 (four_steps n) e in
    let high' : four_steps (n / 65536) % 2 ≡ 0 =
      omega (arith, by_65536 four_steps four_steps-half n) in
    omega (arith, four_steps_low n low, four_steps_low (n / 65536) high')

five_steps_odd : (n : ℕ) → 0 < n → n < 2 ^ 31 → five_steps n % 2 ≢ 0
five_steps_odd n p small e = omega (arith, five_steps_low n e)

-- After the five steps a positive number is 2 ^ k - 1 for the least such k.
five_steps_ones :
    (fuel n : ℕ)
    → n ≤ fuel
    → 0 < n
    → n < 2 ^ 31
    → (k : ℕ) × (five_steps n + 1 ≡ 2 ^ k) × (n < 2 ^ k) × (2 ^ k ≤ 2 * n)
five_steps_ones zero n f p small = absurd (omega arith)
five_steps_ones (suc fuel) n f p small =
    let odd = five_steps_odd n p small in
    elim (dec_lt 1 n) [
      | yes more ↦
          let (k, ones, above, below) =
            five_steps_ones fuel (n / 2) (omega arith) (omega arith) (omega arith) in
          (
            suc k,
            omega (arith, pow-suc 2 k, five_steps-half n),
            omega (arith, pow-suc 2 k),
            omega (arith, pow-suc 2 k),
          )
      | no one ↦
          let e : n / 2 ≡ 0 = omega arith in
          (
            1,
            omega (arith, five_steps-half n, ap five_steps e, five_steps-zero),
            omega arith,
            omega arith,
          )
    ]

-- On a number with a clear sign bit the shifts of the source are divisions.
smear_small : (n k : ℕ) → n < 2 ^ 31 → smear n k ≡ bit_or n (n / 2 ^ k)
unfolding smear
smear_small n k h = rw (lt→ltb n (2 ^ 31) h)

five_smears :
    (n : ℕ) → n < 2 ^ 31 → smear (smear (smear (smear (smear n 1) 2) 4) 8) 16 ≡ five_steps n
unfolding one_step two_steps three_steps four_steps five_steps join
five_smears n h = rw (
  smear_small n 1 h,
  smear_small _ 2 (stays_positive one_step one_step-half one_step-zero n h),
  smear_small _ 4 (stays_positive two_steps two_steps-half two_steps-zero n h),
  smear_small _ 8 (stays_positive three_steps three_steps-half three_steps-zero n h),
  smear_small _ 16 (stays_positive four_steps four_steps-half four_steps-zero n h),
)

power_of_2_ceil_lem :
    (n : ℕ) → 1 ≤ n → n ≤ 2 ^ 30 → power_of_2_ceil n ≡ (five_steps (n - 1) + 1) % 2 ^ 32
unfolding power_of_2_ceil
power_of_2_ceil_lem n l h =
    let e : (n + 2 ^ 32 - 1) % 2 ^ 32 ≡ n - 1 = omega arith in
    rw (e, five_smears (n - 1) (omega arith))

power_of_2_ceil_one : power_of_2_ceil 1 ≡ 1
unfolding power_of_2_ceil
power_of_2_ceil_one = refl

-- For every n from 1 to 2 ^ 30, `wrenPowerOf2Ceil(n)` is a power of two, is not below n, and is
-- below 2 n: it is the least power of two that is not below n.
pub power_of_2_ceil_bounds :
    (n : ℕ)
    → 1 ≤ n
    → n ≤ 2 ^ 30
    → (k : ℕ) × (power_of_2_ceil n ≡ 2 ^ k) × (n ≤ power_of_2_ceil n) × (power_of_2_ceil n < 2 * n)
power_of_2_ceil_bounds n l h = elim (dec_lt 1 n) [
  | no one ↦
      let e : power_of_2_ceil n ≡ 1 = ap power_of_2_ceil (omega arith) ∙ power_of_2_ceil_one in
      (0, omega arith, omega arith, omega arith)
  | yes more ↦
      let (k, ones, above, below) =
        five_steps_ones (n - 1) (n - 1) (omega arith) (omega arith) (omega arith) in
      let e : power_of_2_ceil n ≡ 2 ^ k = omega (arith, power_of_2_ceil_lem n l h) in
      (k, e, omega arith, omega arith)
]
