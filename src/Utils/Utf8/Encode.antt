-- ===== src/Utils/Utf8/Encode.antt =====
-- The bytes that `wrenUtf8Encode` writes, in plain arithmetic.
use rust_wren.Base.{
  ℕ, ◌+◌, ◌/◌, ◌%◌, ◌^◌, ◌≤◌, ◌<◌, bit_and, bit_or, ◌≡◌, refl, ap, List, [], ◌∷◌, some, arith, true,
  ◌==◌, ==_iff, ltb, if◌then◌else◌, length,
}
use rust_wren.Base.Bits.{
  holds_below, holds_below_lem, bit_and_0x0f, bit_and_0x1f, bit_and_0x3f, bit_and_0x07,
  bit_and_0x7f, bit_and_shifted,
}
use rust_wren.Utils.Utf8.{byte, encode, encode_num_bytes}

or_table :
    (n m : ℕ)
    → holds_below n (λ y. bit_or m y == m + y) ≡ true
    → (y : ℕ) → y < n
    → byte (bit_or m y) ≡ byte (m + y)
or_table n m t y h = ap byte ((==_iff _ (m + y)).0 (holds_below_lem _ n y h t))

lead_two : (y : ℕ) → y < 32 → byte (bit_or 0xc0 y) ≡ byte (0xc0 + y)
lead_two = or_table 32 0xc0 refl

lead_three : (y : ℕ) → y < 16 → byte (bit_or 0xe0 y) ≡ byte (0xe0 + y)
lead_three = or_table 16 0xe0 refl

lead_four : (y : ℕ) → y < 8 → byte (bit_or 0xf0 y) ≡ byte (0xf0 + y)
lead_four = or_table 8 0xf0 refl

continuation : (y : ℕ) → y < 64 → byte (bit_or 0x80 y) ≡ byte (0x80 + y)
continuation = or_table 64 0x80 refl

low_six : (v : ℕ) → byte (bit_or 0x80 (bit_and v 0x3f)) ≡ 0x80 + v % 64
low_six v = rw (bit_and_0x3f v) (omega (arith, continuation (v % 64) (omega arith)))

middle_six : (v : ℕ) → byte (bit_or 0x80 (bit_and v 0xfc0 / 2 ^ 6)) ≡ 0x80 + v / 64 % 64
middle_six v =
    let e : bit_and v 0xfc0 / 2 ^ 6 ≡ v / 64 % 64 =
      omega (arith, bit_and_shifted v 63, bit_and_0x3f (v / 64)) in
    rw e (omega (arith, continuation (v / 64 % 64) (omega arith)))

high_six : (v : ℕ) → byte (bit_or 0x80 (bit_and v 0x3f000 / 2 ^ 12)) ≡ 0x80 + v / 4096 % 64
high_six v =
    let e : bit_and v 0x3f000 / 2 ^ 12 ≡ v / 4096 % 64 =
      omega
        (arith, bit_and_shifted v 0xfc0, bit_and_shifted (v / 64) 63, bit_and_0x3f (v / 64 / 64)) in
    rw e (omega (arith, continuation (v / 4096 % 64) (omega arith)))

first_of_two : (v : ℕ) → byte (bit_or 0xc0 (bit_and v 0x7c0 / 2 ^ 6)) ≡ 0xc0 + v / 64 % 32
first_of_two v =
    let e : bit_and v 0x7c0 / 2 ^ 6 ≡ v / 64 % 32 =
      omega (arith, bit_and_shifted v 31, bit_and_0x1f (v / 64)) in
    rw e (omega (arith, lead_two (v / 64 % 32) (omega arith)))

first_of_three : (v : ℕ) → byte (bit_or 0xe0 (bit_and v 0xf000 / 2 ^ 12)) ≡ 0xe0 + v / 4096 % 16
first_of_three v =
    let e : bit_and v 0xf000 / 2 ^ 12 ≡ v / 4096 % 16 =
      omega
        (arith, bit_and_shifted v 0x3c0, bit_and_shifted (v / 64) 15, bit_and_0x0f (v / 64 / 64)) in
    rw e (omega (arith, lead_three (v / 4096 % 16) (omega arith)))

first_of_four : (v : ℕ) → byte (bit_or 0xf0 (bit_and v 0x1c0000 / 2 ^ 18)) ≡ 0xf0 + v / 262144 % 8
first_of_four v =
    let e : bit_and v 0x1c0000 / 2 ^ 18 ≡ v / 262144 % 8 = omega (
      arith,
      bit_and_shifted v 0x7000,
      bit_and_shifted (v / 64) 0x1c0,
      bit_and_shifted (v / 64 / 64) 7,
      bit_and_0x07 (v / 64 / 64 / 64),
    ) in
    rw e (omega (arith, lead_four (v / 262144 % 8) (omega arith)))

-- The encoding of a code point by division.
abbrev pub encoding : ℕ → List ℕ
encoding v =
    if ltb v 0x80
    then v ∷ []
    else if ltb v 0x800
    then (0xc0 + v / 64) ∷ (0x80 + v % 64) ∷ []
    else if ltb v 0x10000
    then (0xe0 + v / 4096) ∷ (0x80 + v / 64 % 64) ∷ (0x80 + v % 64) ∷ []
    else (0xf0 + v / 262144) ∷ (0x80 + v / 4096 % 64) ∷ (0x80 + v / 64 % 64) ∷ (0x80 + v % 64) ∷ []

pub encode_lem : (v : ℕ) → v ≤ 0x10ffff → encode v ≡ some (length (encoding v), encoding v)
unfolding encode
encode_lem v h =
    rw
      (
        first_of_two v,
        first_of_three v,
        first_of_four v,
        low_six v,
        middle_six v,
        high_six v,
        bit_and_0x7f v,
      )
      (ground arith)

-- `wrenUtf8EncodeNumBytes` announces what `wrenUtf8Encode` writes.
pub encode_num_bytes_lem : (v : ℕ) → v ≤ 0x10ffff → encode_num_bytes v ≡ length (encoding v)
unfolding encode_num_bytes
encode_num_bytes_lem v h = ground arith
