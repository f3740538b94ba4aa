-- ===== src/Utils/Utf8/Decode.antt =====
-- wren_utils.c, what `wrenUtf8Decode` reads and accepts.
use rust_wren.Base.{
  ℕ, suc, ◌+◌, ◌*◌, ◌/◌, ◌%◌, ◌^◌, ◌≤◌, ◌<◌, bit_and, ◌≡◌, refl, List, [], ◌∷◌, ◌++◌, some, arith,
  true, ◌==◌, ==_iff, ltb, if◌then◌else◌, length,
}
use rust_wren.Base.Int.{pos, negsuc}
use rust_wren.Base.Bits.{
  holds_below, holds_below_lem, bit_and_0x0f, bit_and_0x1f, bit_and_0x3f, bit_and_0x07,
  bit_or_shifted,
}
use rust_wren.Utils.Utf8.{decode, decode_tail, decode_rest}
use rust_wren.Utils.Utf8.Encode.{encoding}

mask_table :
    (m d : ℕ)
    → holds_below 256 (λ b. bit_and b m == b / d * d) ≡ true
    → (b : ℕ) → b < 256
    → bit_and b m ≡ b / d * d
mask_table m d t b h =
    (==_iff _ (b / d * d)).0 (holds_below_lem (λ x. bit_and x m == x / d * d) 256 b h t)

pub mask_0xc0 : (b : ℕ) → b < 256 → bit_and b 0xc0 ≡ b / 64 * 64
mask_0xc0 = mask_table 0xc0 64 refl

pub mask_0xe0 : (b : ℕ) → b < 256 → bit_and b 0xe0 ≡ b / 32 * 32
mask_0xe0 = mask_table 0xe0 32 refl

pub mask_0xf0 : (b : ℕ) → b < 256 → bit_and b 0xf0 ≡ b / 16 * 16
mask_0xf0 = mask_table 0xf0 16 refl

pub mask_0xf8 : (b : ℕ) → b < 256 → bit_and b 0xf8 ≡ b / 8 * 8
mask_0xf8 = mask_table 0xf8 8 refl

-- A continuation byte adds its six bits.
pub decode_rest_step :
    (b : ℕ) (bytes : List ℕ) (r value : ℕ)
    → b < 256
    → decode_rest (b ∷ bytes) (suc r) value
      ≡ (if b / 64 == 2 then decode_rest bytes r (value * 64 + b % 64) else some (negsuc 0))
unfolding decode_rest
decode_rest_step b bytes r value h =
    rw (mask_0xc0 b h, bit_and_0x3f b, bit_or_shifted value (b % 64) (omega arith)) (ground arith)

-- The dispatch on the first byte, in plain arithmetic.
pub decode_step :
    (b : ℕ) (bytes : List ℕ) (len : ℕ)
    → b < 256
    → decode (b ∷ bytes) len ≡ (
        if ltb b 0x80
        then some (pos b)
        else if b / 32 == 6
        then decode_tail bytes len 1 (b % 32)
        else if b / 16 == 14
        then decode_tail bytes len 2 (b % 16)
        else if b / 8 == 30
        then decode_tail bytes len 3 (b % 8)
        else some (negsuc 0))
unfolding decode
decode_step b bytes len h =
    rw (mask_0xe0 b h, mask_0xf0 b h, mask_0xf8 b h, bit_and_0x1f b, bit_and_0x0f b, bit_and_0x07 b)
      (ground arith)

pub decode_rest_zero : (bytes : List ℕ) (value : ℕ) → decode_rest bytes 0 value ≡ some (pos value)
unfolding decode_rest
decode_rest_zero [] value = refl
decode_rest_zero (b ∷ bytes) value = refl

module _ (v : ℕ) (rest : List ℕ) (len : ℕ) (small : len < 2 ^ 32) where
  decode_one : v < 0x80 → 1 ≤ len → decode (v ∷ rest) len ≡ some (pos v)
  decode_one h fits = ground (arith, decode_step v rest len)

  decode_two :
      0x80 ≤ v
      → v < 0x800
      → 2 ≤ len
      → decode ((0xc0 + v / 64) ∷ (0x80 + v % 64) ∷ rest) len ≡ some (pos v)
  unfolding decode_tail
  decode_two l h fits = ground (
    arith,
    decode_step (0xc0 + v / 64) ((0x80 + v % 64) ∷ rest) len,
    decode_rest_step (0x80 + v % 64) rest 0 ((0xc0 + v / 64) % 32),
    decode_rest_zero rest ((0xc0 + v / 64) % 32 * 64 + (0x80 + v % 64) % 64),
  )

  decode_three :
      0x800 ≤ v
      → v < 0x10000
      → 3 ≤ len
      → decode ((0xe0 + v / 4096) ∷ (0x80 + v / 64 % 64) ∷ (0x80 + v % 64) ∷ rest) len
        ≡ some (pos v)
  unfolding decode_tail
  decode_three l h fits =
      let high = (0xe0 + v / 4096) % 16 in
      let middle = high * 64 + (0x80 + v / 64 % 64) % 64 in
      ground (
        arith,
        decode_step (0xe0 + v / 4096) ((0x80 + v / 64 % 64) ∷ (0x80 + v % 64) ∷ rest) len,
        decode_rest_step (0x80 + v / 64 % 64) ((0x80 + v % 64) ∷ rest) 1 high,
        decode_rest_step (0x80 + v % 64) rest 0 middle,
        decode_rest_zero rest (middle * 64 + (0x80 + v % 64) % 64),
      )

  decode_four :
      0x10000 ≤ v
      → v ≤ 0x10ffff
      → 4 ≤ len
      → decode
          ((0xf0 + v / 262144)
            ∷ (0x80 + v / 4096 % 64)
            ∷ (0x80 + v / 64 % 64)
            ∷ (0x80 + v % 64)
            ∷ rest)
          len
        ≡ some (pos v)
  unfolding decode_tail
  decode_four l h fits =
      let high = (0xf0 + v / 262144) % 8 in
      let upper = high * 64 + (0x80 + v / 4096 % 64) % 64 in
      let middle = upper * 64 + (0x80 + v / 64 % 64) % 64 in
      ground (
        arith,
        decode_step (0xf0 + v / 262144)
            ((0x80 + v / 4096 % 64) ∷ (0x80 + v / 64 % 64) ∷ (0x80 + v % 64) ∷ rest) len,
        decode_rest_step (0x80 + v / 4096 % 64) ((0x80 + v / 64 % 64) ∷ (0x80 + v % 64) ∷ rest) 2
            high,
        decode_rest_step (0x80 + v / 64 % 64) ((0x80 + v % 64) ∷ rest) 1 upper,
        decode_rest_step (0x80 + v % 64) rest 0 middle,
        decode_rest_zero rest (middle * 64 + (0x80 + v % 64) % 64),
      )

  pub decode-encoding :
      v ≤ 0x10ffff → length (encoding v) ≤ len → decode (encoding v ++ rest) len ≡ some (pos v)
  decode-encoding h fits = ground (arith, decode_one, decode_two, decode_three, decode_four)
