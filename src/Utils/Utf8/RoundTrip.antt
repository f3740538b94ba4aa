-- ===== src/Utils/Utf8/RoundTrip.antt =====
-- What a caller of wren_utils.c may rely on when it encodes and decodes UTF-8.
use rust_wren.Base.{
  ℕ, zero, suc, ◌+◌, ◌-◌, ◌*◌, ◌/◌, ◌%◌, ◌^◌, ◌≤◌, ◌<◌, ◌≢◌, ◌≡◌, refl, sym, map, replicate, List,
  [], ◌∷◌, ◌++◌, none, some, arith, ◌==◌, if◌then◌else◌, length, All,
}
use rust_wren.Base.Int.{pos}
use rust_wren.Utils.Utf8.{
  encode, encode_num_bytes, decode, decode_tail, decode_rest, decode_num_bytes,
}
use rust_wren.Utils.Utf8.Encode.{encoding, encode_lem, encode_num_bytes_lem}
use rust_wren.Utils.Utf8.Decode.{
  decode_step, decode_rest_step, decode_rest_zero, decode-encoding, mask_0xc0, mask_0xe0, mask_0xf0,
  mask_0xf8,
}

-- For every code point up to 0x10ffff, `wrenUtf8Encode` writes as many bytes as it returns and as
-- `wrenUtf8EncodeNumBytes` announces, and `wrenUtf8Decode` gives the code point back from them,
-- whatever bytes follow, if the length that it is given covers the encoding and is below 2 ^ 32.
pub decode-encode :
    (v : ℕ) (rest : List ℕ) (len : ℕ)
    → v ≤ 0x10ffff
    → encode_num_bytes v ≤ len
    → len < 2 ^ 32
    → (bytes : List ℕ) × (encode v ≡ some (encode_num_bytes v, bytes))
      × (length bytes ≡ encode_num_bytes v)
      × (decode (bytes ++ rest) len ≡ some (pos v))
decode-encode v rest len h fits small =
    let e = encode_num_bytes_lem v h in
    (encoding v, rw e (encode_lem v h), sym e, decode-encoding v rest len small h (rw (← e) fits))

decode_rest-ne-none :
    (bytes : List ℕ) (r value : ℕ)
    → All (λ b. b < 256) bytes
    → r ≤ length bytes
    → decode_rest bytes r value ≢ none
decode_rest-ne-none bytes zero value small h = rw (decode_rest_zero bytes value) (cc)
decode_rest-ne-none [] (suc r) value small h = absurd (omega arith)
decode_rest-ne-none (b ∷ bytes) (suc r) value small h = ground (
  arith,
  decode_rest_step b bytes r value,
  decode_rest-ne-none bytes r (value * 64 + b % 64) small.1,
)

decode_tail-ne-none :
    (bytes : List ℕ) (r value : ℕ)
    → All (λ b. b < 256) bytes
    → suc (length bytes) < 2 ^ 32
    → decode_tail bytes (suc (length bytes)) r value ≢ none
unfolding decode_tail
decode_tail-ne-none bytes r value small short =
    ground (arith, decode_rest-ne-none bytes r value small)

-- `wrenUtf8Decode` does not read past the end of the array: on every non-empty sequence of bytes,
-- truncated or malformed ones too, and its length, it returns.
pub decode-ne-none :
    (bytes : List ℕ)
    → All (λ b. b < 256) bytes
    → bytes ≢ []
    → length bytes < 2 ^ 32
    → decode bytes (length bytes) ≢ none
decode-ne-none [] small full short = absurd (full refl)
decode-ne-none (b ∷ bytes) small full short = ground (
  arith,
  decode_step b bytes (suc (length bytes)),
  decode_tail-ne-none bytes 1 (b % 32) small.1,
  decode_tail-ne-none bytes 2 (b % 16) small.1,
  decode_tail-ne-none bytes 3 (b % 8) small.1,
)

pub decode_num_bytes_step :
    (b : ℕ)
    → b < 256
    → decode_num_bytes b ≡ (
        if b / 64 == 2
        then 0
        else if b / 8 == 30
        then 4
        else if b / 16 == 14
        then 3
        else if b / 32 == 6
        then 2
        else 1)
unfolding decode_num_bytes
decode_num_bytes_step b h =
    rw (mask_0xc0 b h, mask_0xe0 b h, mask_0xf0 b h, mask_0xf8 b h) (ground arith)

count_ascii : (b : ℕ) → b < 0x80 → decode_num_bytes b ≡ 1
count_ascii b h = ground (arith, decode_num_bytes_step b)

count_two : (y : ℕ) → y < 32 → decode_num_bytes (0xc0 + y) ≡ 2
count_two y h = ground (arith, decode_num_bytes_step (0xc0 + y))

count_three : (y : ℕ) → y < 16 → decode_num_bytes (0xe0 + y) ≡ 3
count_three y h = ground (arith, decode_num_bytes_step (0xe0 + y))

count_four : (y : ℕ) → y < 8 → decode_num_bytes (0xf0 + y) ≡ 4
count_four y h = ground (arith, decode_num_bytes_step (0xf0 + y))

count_continuation : (v : ℕ) → decode_num_bytes (0x80 + v % 64) ≡ 0
count_continuation v = ground (arith, decode_num_bytes_step (0x80 + v % 64))

pub map-encoding :
    (v : ℕ)
    → v ≤ 0x10ffff
    → map decode_num_bytes (encoding v)
      ≡ length (encoding v) ∷ replicate (length (encoding v) - 1) 0
map-encoding v h = ground (
  arith,
  count_ascii v,
  count_two (v / 64),
  count_three (v / 4096),
  count_four (v / 262144),
  count_continuation (v / 4096),
  count_continuation (v / 64),
  count_continuation v,
)

encode-le : (v : ℕ) {r : ℕ × List ℕ} → encode v ≡ some r → v ≤ 0x10ffff
unfolding encode
encode-le v e = ground arith

-- Of the bytes that `wrenUtf8Encode` writes for a code point, `wrenUtf8DecodeNumBytes` counts the
-- first one with the number of all of them, which is what `wrenUtf8Encode` returns, and every other
-- one with 0.
pub decode_num_bytes-encode :
    (v n : ℕ) (bytes : List ℕ)
    → encode v ≡ some (n, bytes)
    → map decode_num_bytes bytes ≡ n ∷ replicate (n - 1) 0
decode_num_bytes-encode v n bytes e =
    let p : n ≡ length (encoding v) = cc (encode_lem v (encode-le v e)) in
    let q : bytes ≡ encoding v = cc (encode_lem v (encode-le v e)) in
    rw (p, q) (map-encoding v (encode-le v e))

-- A two-byte sequence that spells a code point below 0x80, which no valid UTF-8 does, is decoded to
-- that code point and not refused.
pub decode_overlong :
    (v : ℕ) (rest : List ℕ) (len : ℕ)
    → v < 0x80
    → 2 ≤ len
    → len < 2 ^ 32
    → decode ((0xc0 + v / 64) ∷ (0x80 + v % 64) ∷ rest) len ≡ some (pos v)
unfolding decode_tail
decode_overlong v rest len h fits small = ground (
  arith,
  decode_step (0xc0 + v / 64) ((0x80 + v % 64) ∷ rest) len,
  decode_rest_step (0x80 + v % 64) rest 0 ((0xc0 + v / 64) % 32),
  decode_rest_zero rest ((0xc0 + v / 64) % 32 * 64 + (0x80 + v % 64) % 64),
)
