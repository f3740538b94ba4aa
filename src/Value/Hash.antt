-- ===== src/Value/Hash.antt =====
-- wren_value.c, lines 373 to 452 and 690 to 705: hash codes.
use rust_wren.Base.{
  ℕ, ◌+◌, ◌-◌, ◌*◌, ◌/◌, ◌%◌, ◌^◌, List, [], ◌∷◌, bit_xor, bit_and, ltb, if◌then◌else◌,
}
use rust_wren.Value.{
  Object, class_object, fn, range, string, other, Heap, Value, undefined, null_val, false_val,
  true_val, num, obj, qnan,
}
use rust_wren.Value.Double.{double_of_int}

abbrev pub word : ℕ → ℕ
word x = x % 2 ^ 64

-- `hashBits`.
unfoldable pub hash_bits : ℕ → ℕ
hash_bits hash =
    let h₁ = word (2 ^ 64 - 1 - word hash + word (hash * 2 ^ 18)) in
    let h₂ = bit_xor h₁ (h₁ / 2 ^ 31) in
    let h₃ = word (h₂ * 21) in
    let h₄ = bit_xor h₃ (h₃ / 2 ^ 11) in
    let h₅ = word (h₄ + word (h₄ * 2 ^ 6)) in
    let h₆ = bit_xor h₅ (h₅ / 2 ^ 22) in bit_and h₆ 0x3fffffff

-- `hashNumber`, of the bits of a double.
unfoldable pub hash_number : ℕ → ℕ
unfolding hash_bits
hash_number d = hash_bits d

-- A `char` of a string as the `uint32_t` that it is converted to.
abbrev pub sign_extend : ℕ → ℕ
sign_extend b = if ltb b 128 then b else b + (2 ^ 32 - 256)

-- The loop of `hashString`.
unfoldable pub hash_bytes : ℕ → List ℕ → ℕ
hash_bytes hash [] = hash
hash_bytes hash (b ∷ bytes) = hash_bytes (bit_xor hash (sign_extend b) * 16777619 % 2 ^ 32) bytes

-- `hashString`, which runs when a string is made: the `hash` field of a string.
unfoldable pub hash_string : List ℕ → ℕ
unfolding hash_bytes
hash_string bytes = hash_bytes 2166136261 bytes

-- `hashObject`.
unfoldable pub hash_object : Object → ℕ
unfolding hash_string hash_number double_of_int
hash_object (class_object name) = hash_string name
hash_object (fn arity code_count) =
    bit_xor (hash_number (double_of_int arity)) (hash_number (double_of_int code_count))
hash_object (range from to inclusive) = bit_xor (hash_number from) (hash_number to)
hash_object (string s) = hash_string s
hash_object other = 0

-- The bits of a value that is no object.
abbrev pub bits : Value → ℕ
bits undefined = qnan + 4
bits null_val = qnan + 1
bits false_val = qnan + 2
bits true_val = qnan + 3
bits (num n) = n
bits (obj a) = 2 ^ 63 + qnan + a

-- `hashValue`.
unfoldable pub hash_value : Heap → Value → ℕ
unfolding hash_object hash_bits
hash_value heap (obj a) = hash_object (heap a)
hash_value heap v = hash_bits (bits v)
