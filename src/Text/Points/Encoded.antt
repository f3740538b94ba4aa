-- ===== src/Text/Points/Encoded.antt =====
-- wren_value.c, lines 724 to 755: encoded code points in a row.
use rust_wren.Base.{
  ℕ, zero, suc, ◌+◌, ◌-◌, ◌/◌, ◌%◌, ◌≤◌, ◌<◌, ◌≡◌, refl, ap, ◌∙◌, List, [], ◌∷◌, ◌++◌, ltb, inl,
  inr, arith, length, length-append, drop, replicate, map, Option, none, some, Bool-cases, All,
}
use rust_wren.Base.Int.{negsuc}
use rust_wren.Utils.Utf8.{encode, decode, decode_num_bytes}
use rust_wren.Utils.Utf8.Encode.{encoding, encode_lem}
use rust_wren.Utils.Utf8.Decode.{decode_step}
use rust_wren.Utils.Utf8.RoundTrip.{map-encoding}

-- The bytes that `wrenUtf8Encode` writes for code points in a row.
abbrev pub bytes_of : Option (ℕ × List ℕ) → List ℕ
bytes_of none = []
bytes_of (some (count, bytes)) = bytes

unfoldable pub encode_all : List ℕ → List ℕ
encode_all [] = []
encode_all (v ∷ vs) = bytes_of (encode v) ++ encode_all vs

abbrev pub IsPoint : ℕ → Type 0
IsPoint v = v ≤ 0x10ffff

-- A byte that goes on with a code point.
abbrev pub IsContinuation : ℕ → Type 0
IsContinuation b = (128 ≤ b) × (b < 192)

pub decode_continuation :
    (b : ℕ) (rest : List ℕ) (len : ℕ) → IsContinuation b → decode (b ∷ rest) len ≡ some (negsuc 0)
decode_continuation b rest len (low, high) = ground (arith, decode_step b rest len)

-- A first byte and continuations.
abbrev pub Parts : List ℕ → Type 0
Parts bytes = (b : ℕ) × (tail : List ℕ) × (bytes ≡ b ∷ tail) × All IsContinuation tail

six_bits : (x : ℕ) → IsContinuation (0x80 + x % 64)
six_bits x = (omega arith, omega arith)

pub encoding-Parts : (v : ℕ) → Parts (encoding v)
encoding-Parts v = elim (Bool-cases (ltb v 0x80)) [
  | inl a ↦ rw a (v, [], refl, tt)
  | inr a ↦ elim (Bool-cases (ltb v 0x800)) [
    | inl b ↦ rw (a, b) (0xc0 + v / 64, (0x80 + v % 64) ∷ [], refl, (six_bits v, tt))
    | inr b ↦ elim (Bool-cases (ltb v 0x10000)) [
      | inl c ↦
          rw (a, b, c)
            (
              0xe0 + v / 4096,
              (0x80 + v / 64 % 64) ∷ (0x80 + v % 64) ∷ [],
              refl,
              (six_bits (v / 64), (six_bits v, tt)),
            )
      | inr c ↦
          rw (a, b, c)
            (
              0xf0 + v / 262144,
              (0x80 + v / 4096 % 64) ∷ (0x80 + v / 64 % 64) ∷ (0x80 + v % 64) ∷ [],
              refl,
              (six_bits (v / 4096), (six_bits (v / 64), (six_bits v, tt))),
            )
    ]
  ]
]

pub drop-append_length : (pre rest : List ℕ) → drop (length pre) (pre ++ rest) ≡ rest
drop-append_length [] rest = refl
drop-append_length (x ∷ pre) rest = drop-append_length pre rest

unfoldable pub sum : List ℕ → ℕ
sum [] = 0
sum (n ∷ ns) = n + sum ns

sum-replicate_zero : (n : ℕ) → sum (replicate n 0) ≡ 0
unfolding sum
sum-replicate_zero zero = refl
sum-replicate_zero (suc n) = omega (arith, sum-replicate_zero n)

-- How many bytes the first loop counts for bytes in a row.
unfoldable pub total : List ℕ → ℕ
unfolding sum
total bytes = sum (map decode_num_bytes bytes)

total-encoding : (v : ℕ) → IsPoint v → total (encoding v) ≡ length (encoding v)
unfolding total sum
total-encoding v h =
    let full : 1 ≤ length (encoding v) = encoding_full v in
    ap sum (map-encoding v h) ∙ omega (arith, sum-replicate_zero (length (encoding v) - 1), full)
  where
    encoding_full : (v : ℕ) → 1 ≤ length (encoding v)
    encoding_full v = let parts = encoding-Parts v in omega (arith, ap length parts.2)

total-append : (a b : List ℕ) → total (a ++ b) ≡ total a + total b
unfolding total sum
total-append [] b = omega arith
total-append (x ∷ a) b = omega (arith, total-append a b)

pub encode_all-cons :
    (v : ℕ) (vs : List ℕ) → IsPoint v → encode_all (v ∷ vs) ≡ encoding v ++ encode_all vs
unfolding encode_all
encode_all-cons v vs h =
    ap (λ (o : Option (ℕ × List ℕ)). bytes_of o ++ encode_all vs) (encode_lem v h)

pub total-encode_all :
    (vs : List ℕ) → All IsPoint vs → total (encode_all vs) ≡ length (encode_all vs)
unfolding total sum encode_all
total-encode_all [] h = refl
total-encode_all (v ∷ vs) (p, h) = rw (encode_all-cons v vs p) (
    omega (
      arith,
      total-append (encoding v) (encode_all vs),
      total-encoding v p,
      total-encode_all vs h,
      length-append (encoding v) (encode_all vs),
    ))
