-- ===== src/Utils/Utf8.antt =====
-- wren_utils.c, lines 67 to 182: UTF-8. A byte sequence is a list of numbers below 256, and the
-- value of an `int` that holds a code point is a natural number, as its callers assert.
pub mod Encode
pub mod Decode
pub mod RoundTrip
use rust_wren.Base.{
  ℕ, zero, suc, ◌+◌, ◌-◌, ◌*◌, ◌/◌, ◌%◌, ◌^◌, bit_and, bit_or, List, [], ◌∷◌, Option, none, some,
  not, leb, ltb, ◌==◌, if◌then◌else◌,
}
use rust_wren.Base.Int.{ℤ, pos, negsuc}

-- `wrenUtf8EncodeNumBytes`.
unfoldable pub encode_num_bytes : ℕ → ℕ
encode_num_bytes value =
    if leb value 0x7f
    then 1
    else if leb value 0x7ff
    then 2
    else if leb value 0xffff
    then 3
    else if leb value 0x10ffff
    then 4
    else 0

-- A store into a `uint8_t`.
abbrev pub byte : ℕ → ℕ
byte x = x % 2 ^ 8

-- `wrenUtf8Encode`: the number of bytes that it returns, and the bytes that it writes. `none`
-- stands for `UNREACHABLE()`, which aborts a debug build.
unfoldable pub encode : ℕ → Option (ℕ × List ℕ)
encode value =
    if leb value 0x7f
    then some (1, byte (bit_and value 0x7f) ∷ [])
    else if leb value 0x7ff
    then some (
      2,
      byte (bit_or 0xc0 (bit_and value 0x7c0 / 2 ^ 6))
          ∷ byte (bit_or 0x80 (bit_and value 0x3f))
          ∷ [],
    )
    else if leb value 0xffff
    then some (
      3,
      byte (bit_or 0xe0 (bit_and value 0xf000 / 2 ^ 12))
          ∷ byte (bit_or 0x80 (bit_and value 0xfc0 / 2 ^ 6))
          ∷ byte (bit_or 0x80 (bit_and value 0x3f))
          ∷ [],
    )
    else if leb value 0x10ffff
    then some (
      4,
      byte (bit_or 0xf0 (bit_and value 0x1c0000 / 2 ^ 18))
          ∷ byte (bit_or 0x80 (bit_and value 0x3f000 / 2 ^ 12))
          ∷ byte (bit_or 0x80 (bit_and value 0xfc0 / 2 ^ 6))
          ∷ byte (bit_or 0x80 (bit_and value 0x3f))
          ∷ [],
    )
    else none

-- The loop of `wrenUtf8Decode` over the bytes behind the first one. `none` is a read past the end
-- of the array.
unfoldable pub decode_rest : List ℕ → ℕ → ℕ → Option ℤ
decode_rest bytes zero value = some (pos value)
decode_rest [] (suc remaining) value = none
decode_rest (b ∷ bytes) (suc remaining) value =
    if not (bit_and b 0xc0 == 0x80)
    then some (negsuc 0)
    else decode_rest bytes remaining (bit_or (value * 2 ^ 6) (bit_and b 0x3f))

-- What stands before the loop: the test for truncated input, whose `length - 1` is unsigned.
unfoldable pub decode_tail : List ℕ → ℕ → ℕ → ℕ → Option ℤ
unfolding decode_rest
decode_tail bytes length remaining value =
    if ltb ((length + 2 ^ 32 - 1) % 2 ^ 32) remaining
    then some (negsuc 0)
    else decode_rest bytes remaining value

-- `wrenUtf8Decode`.
unfoldable pub decode : List ℕ → ℕ → Option ℤ
unfolding decode_tail
decode [] length = none
decode (b ∷ bytes) length =
    if leb b 0x7f
    then some (pos b)
    else if bit_and b 0xe0 == 0xc0
    then decode_tail bytes length 1 (bit_and b 0x1f)
    else if bit_and b 0xf0 == 0xe0
    then decode_tail bytes length 2 (bit_and b 0x0f)
    else if bit_and b 0xf8 == 0xf0
    then decode_tail bytes length 3 (bit_and b 0x07)
    else some (negsuc 0)

-- `wrenUtf8DecodeNumBytes`.
unfoldable pub decode_num_bytes : ℕ → ℕ
decode_num_bytes b =
    if bit_and b 0xc0 == 0x80
    then 0
    else if bit_and b 0xf8 == 0xf0
    then 4
    else if bit_and b 0xf0 == 0xe0
    then 3
    else if bit_and b 0xe0 == 0xc0
    then 2
    else 1
