-- ===== src/Text/Points.antt =====
-- wren_value.c, lines 728 to 755, 796 to 816 and 883 to 899: strings made of code points. A string is
-- the list of its bytes; its terminator and its hash code are left out.
pub mod Encoded
pub mod Slice
pub mod At
use rust_wren.Base.{
  ℕ, zero, suc, ◌+◌, ◌-◌, ◌*◌, ◌%◌, ◌^◌, List, [], ◌∷◌, ◌++◌, Bool, true, false, ◌==◌, ltb, leb,
  if◌then◌else◌, length, get_elem?, drop, replicate, map, Option, none, some,
}
use rust_wren.Base.Int.{ℤ, pos, negsuc}
use rust_wren.Result.{Fault, out_of_bounds, unreachable, Result, ok, fault, ◌>>=◌}
use rust_wren.Utils.Utf8.{encode, encode_num_bytes, decode, decode_num_bytes}

-- The bytes that `wrenUtf8Encode` writes; `none` is its `UNREACHABLE()`.
abbrev pub written : Option (ℕ × List ℕ) → Result (List ℕ)
written none = fault unreachable
written (some (count, bytes)) = ok bytes

-- `wrenStringFromCodePoint`; a failed assertion is a fault.
unfoldable pub string_from_code_point : ℕ → Result (List ℕ)
string_from_code_point value =
    if encode_num_bytes value == 0 then fault unreachable else written (encode value)

-- `wrenStringFromByte`.
abbrev pub string_from_byte : ℕ → List ℕ
string_from_byte value = value ∷ []

-- The string of a code point, or of the raw byte where the code point is -1.
unfoldable pub point_or_byte : Option ℤ → Option ℕ → Result (List ℕ)
point_or_byte none b = fault out_of_bounds
point_or_byte (some (pos value)) b = string_from_code_point value
point_or_byte (some (negsuc n)) none = fault out_of_bounds
point_or_byte (some (negsuc n)) (some b) = ok (b ∷ [])

-- `wrenStringCodePointAt`.
unfoldable pub string_code_point_at : List ℕ → ℕ → Result (List ℕ)
string_code_point_at string index =
    if ltb index (length string)
    then point_or_byte (decode (drop index string) (length string - index)) (get_elem? string index)
    else fault unreachable

-- `start + i * step`, where a negative step is its remainder.
abbrev pub range_index : ℕ → ℕ → ℕ → ℕ
range_index start i step = (start + i * step) % 2 ^ 32

abbrev pub num_bytes_at : Option ℕ → Result ℕ
num_bytes_at none = fault out_of_bounds
num_bytes_at (some b) = ok (decode_num_bytes b)

-- The first loop of `wrenNewStringFromRange`, for the rounds left from `i` on.
unfoldable pub range_length : List ℕ → ℕ → ℕ → ℕ → ℕ → Result ℕ
range_length source start step zero i = ok 0
range_length source start step (suc rounds) i = do
  n ← num_bytes_at (get_elem? source (range_index start i step))
  rest ← range_length source start step rounds (i + 1)
  ok (n + rest)

-- What a round of the second loop writes.
abbrev pub point_bytes : Option ℤ → Result (List ℕ)
point_bytes none = fault out_of_bounds
point_bytes (some (pos value)) = written (encode value)
point_bytes (some (negsuc n)) = ok []

-- The second loop of `wrenNewStringFromRange`.
unfoldable pub range_bytes : List ℕ → ℕ → ℕ → ℕ → ℕ → Result (List ℕ)
range_bytes source start step zero i = ok []
range_bytes source start step (suc rounds) i = do
  let index = range_index start i step
  bytes ← point_bytes (decode (drop index source) (length source - index))
  rest ← range_bytes source start step rounds (i + 1)
  ok (bytes ++ rest)

-- `wrenNewStringFromRange`: `none` is a byte of the new string that nothing is written to.
unfoldable pub new_string_from_range : List ℕ → ℕ → ℕ → ℕ → Result (List (Option ℕ))
new_string_from_range source start count step = do
  size ← range_length source start step count 0
  bytes ← range_bytes source start step count 0
  (if leb (length bytes) size
      then ok (map some bytes ++ replicate (size - length bytes) none)
      else fault out_of_bounds)
