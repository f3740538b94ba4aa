-- ===== src/Base/Bits.antt =====
-- Laws of the native bit operations at variables: one binary digit at a time, then masks and
-- shifts by six places, as UTF-8 uses them.
use Prim.Native.Nat.{min, max, digits, bit_and-bitwise, bit_or-bitwise}
use rust_wren.Base.{
  ℕ, zero, suc, ◌+◌, ◌-◌, ◌*◌, ◌/◌, ◌%◌, ◌≤◌, ◌<◌, bit_and, bit_or, ◌≡◌, refl, arith, Bool, true,
  ◌&&◌, ap,
}

-- Evaluation at every value under a bound.
abbrev pub holds_below : ℕ → (ℕ → Bool) → Bool
holds_below zero test = true
holds_below (suc bound) test = holds_below bound test && test bound

pub holds_below_lem :
    (test : ℕ → Bool) (bound x : ℕ) → x < bound → holds_below bound test ≡ true → test x ≡ true
holds_below_lem test zero x less all = absurd (omega arith)
holds_below_lem test (suc bound) x less all = ground (arith, holds_below_lem test bound x)

-- The native operations are a recursion on fuel; surplus fuel changes nothing.
module _ (rest : ℕ → ℕ) (op : ℕ → ℕ → ℕ) where
  digits-suc : (fuel x y : ℕ) → x ≤ fuel → digits rest op (suc fuel) x y ≡ digits rest op fuel x y
  digits-suc zero zero y enough = refl
  digits-suc zero (suc x) y enough = absurd (omega arith)
  digits-suc (suc fuel) zero y enough = refl
  digits-suc (suc fuel) (suc x) y enough =
      omega (arith, digits-suc fuel (suc x / 2) (y / 2) (omega arith))

  digits-add :
      (extra fuel x y : ℕ) → x ≤ fuel → digits rest op (extra + fuel) x y ≡ digits rest op fuel x y
  digits-add zero fuel x y enough =
      let none_extra : 0 + fuel ≡ fuel = omega arith in
      ap (λ (total : ℕ). digits rest op total x y) none_extra
  digits-add (suc extra) fuel x y enough =
      let one_extra : suc extra + fuel ≡ suc (extra + fuel) = omega arith in
      omega (
        arith,
        ap (λ (total : ℕ). digits rest op total x y) one_extra,
        digits-suc (extra + fuel) x y (omega arith),
        digits-add extra fuel x y enough,
      )

  digits-half :
      (x y : ℕ) → digits rest op x (suc x / 2) y ≡ digits rest op (suc x / 2) (suc x / 2) y
  digits-half x y =
      let split : x - suc x / 2 + suc x / 2 ≡ x = omega arith in
      omega (
        arith,
        ap (λ (fuel : ℕ). digits rest op fuel (suc x / 2) y) split,
        digits-add (x - suc x / 2) (suc x / 2) (suc x / 2) y (omega arith),
      )

pub bit_and_step : (x y : ℕ) → bit_and x y ≡ bit_and (x / 2) (y / 2) * 2 + min (x % 2) (y % 2)
bit_and_step zero y = omega (arith, bit_and-bitwise 0 y, bit_and-bitwise 0 (y / 2))
bit_and_step (suc x) y = omega (
  arith,
  digits-half (λ _. zero) min x (y / 2),
  bit_and-bitwise (suc x / 2) (y / 2),
  bit_and-bitwise (suc x) y,
)

pub zero-bit_or : (y : ℕ) → bit_or 0 y ≡ y
zero-bit_or y = bit_or-bitwise 0 y

pub bit_or_step : (x y : ℕ) → bit_or x y ≡ bit_or (x / 2) (y / 2) * 2 + max (x % 2) (y % 2)
bit_or_step zero y = omega (arith, zero-bit_or (y / 2), zero-bit_or y)
bit_or_step (suc x) y = omega (
  arith,
  digits-half (λ rest. rest) max x (y / 2),
  bit_or-bitwise (suc x / 2) (y / 2),
  bit_or-bitwise (suc x) y,
)

bit_and-zero_below : (bound a : ℕ) → a < bound → bit_and a 0 ≡ 0
bit_and-zero_below zero a less = absurd (omega arith)
bit_and-zero_below (suc bound) zero less = refl
bit_and-zero_below (suc bound) (suc a) less =
    omega (arith, bit_and_step (suc a) 0, bit_and-zero_below bound (suc a / 2) (omega arith))

pub bit_and-zero : (a : ℕ) → bit_and a 0 ≡ 0
bit_and-zero a = bit_and-zero_below (suc a) a (omega arith)

pub bit_and_three : (a : ℕ) → bit_and a 3 ≡ a % 4
bit_and_three a = omega (arith, bit_and_step a 3, bit_and_step (a / 2) 1, bit_and-zero (a / 2 / 2))

pub bit_and_0x0f : (a : ℕ) → bit_and a 0x0f ≡ a % 16
bit_and_0x0f a = omega (arith, bit_and_step a 15, bit_and_step (a / 2) 7, bit_and_three (a / 2 / 2))

pub bit_and_0x1f : (a : ℕ) → bit_and a 0x1f ≡ a % 32
bit_and_0x1f a = omega (arith, bit_and_step a 31, bit_and_0x0f (a / 2))

pub bit_and_0x3f : (a : ℕ) → bit_and a 0x3f ≡ a % 64
bit_and_0x3f a = omega (arith, bit_and_step a 63, bit_and_0x1f (a / 2))

pub bit_and_0x07 : (a : ℕ) → bit_and a 0x07 ≡ a % 8
bit_and_0x07 a = omega (arith, bit_and_step a 7, bit_and_three (a / 2))

pub bit_and_0x7f : (a : ℕ) → bit_and a 0x7f ≡ a % 128
bit_and_0x7f a = omega (arith, bit_and_step a 127, bit_and_0x3f (a / 2))

-- A mask whose low digit is 0 acts above that digit.
bit_and-double : (a m : ℕ) → bit_and a (m * 2) ≡ bit_and (a / 2) m * 2
bit_and-double a m =
    let h : m * 2 / 2 ≡ m = omega arith in
    omega (arith, bit_and_step a (m * 2), ap (bit_and (a / 2)) h)

bit_and_eight : (a m : ℕ) → bit_and a (m * 8) ≡ bit_and (a / 8) m * 8
bit_and_eight a m =
    let h : m * 8 ≡ m * 4 * 2 = omega arith in
    let h' : m * 4 ≡ m * 2 * 2 = omega arith in
    let q : a / 2 / 2 / 2 ≡ a / 8 = omega arith in
    omega (
      arith,
      ap (bit_and a) h,
      bit_and-double a (m * 4),
      ap (bit_and (a / 2)) h',
      bit_and-double (a / 2) (m * 2),
      bit_and-double (a / 2 / 2) m,
      ap (λ (t : ℕ). bit_and t m) q,
    )

-- A mask shifted by six places.
pub bit_and_shifted : (a m : ℕ) → bit_and a (m * 64) ≡ bit_and (a / 64) m * 64
bit_and_shifted a m =
    let h : m * 64 ≡ m * 8 * 8 = omega arith in
    let q : a / 8 / 8 ≡ a / 64 = omega arith in
    omega (
      arith,
      ap (bit_and a) h,
      bit_and_eight a (m * 8),
      bit_and_eight (a / 8) m,
      ap (λ (t : ℕ). bit_and t m) q,
    )

bit_or-zero_below : (bound a : ℕ) → a < bound → bit_or a 0 ≡ a
bit_or-zero_below zero a less = absurd (omega arith)
bit_or-zero_below (suc bound) zero less = refl
bit_or-zero_below (suc bound) (suc a) less =
    omega (arith, bit_or_step (suc a) 0, bit_or-zero_below bound (suc a / 2) (omega arith))

pub bit_or-zero : (a : ℕ) → bit_or a 0 ≡ a
bit_or-zero a = bit_or-zero_below (suc a) a (omega arith)

-- Joining a number whose low part is clear with a low part, one digit at a time.
bit_or-double : (a b : ℕ) → bit_or (a * 2) b ≡ bit_or a (b / 2) * 2 + b % 2
bit_or-double a b =
    let h : a * 2 / 2 ≡ a = omega arith in
    omega (arith, bit_or_step (a * 2) b, ap (λ (t : ℕ). bit_or t (b / 2)) h)

bit_or_eight : (a b : ℕ) → bit_or (a * 8) b ≡ bit_or a (b / 8) * 8 + b % 8
bit_or_eight a b =
    let h : a * 8 ≡ a * 4 * 2 = omega arith in
    let h' : a * 4 ≡ a * 2 * 2 = omega arith in
    let q : b / 2 / 2 / 2 ≡ b / 8 = omega arith in
    omega (
      arith,
      ap (λ (t : ℕ). bit_or t b) h,
      bit_or-double (a * 4) b,
      ap (λ (t : ℕ). bit_or t (b / 2)) h',
      bit_or-double (a * 2) (b / 2),
      bit_or-double a (b / 2 / 2),
      ap (bit_or a) q,
    )

-- `a << 6 | b` for a six-bit `b` adds it.
pub bit_or_shifted : (a b : ℕ) → b < 64 → bit_or (a * 64) b ≡ a * 64 + b
bit_or_shifted a b h =
    let p : a * 64 ≡ a * 8 * 8 = omega arith in
    let q : b / 8 / 8 ≡ 0 = omega arith in
    omega (
      arith,
      ap (λ (t : ℕ). bit_or t b) p,
      bit_or_eight (a * 8) b,
      bit_or_eight a (b / 8),
      ap (bit_or a) q,
      bit_or-zero a,
    )
