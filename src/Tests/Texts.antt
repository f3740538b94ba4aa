-- ===== src/Tests/Texts.antt =====
-- Runs of the operations on strings.
use rust_wren.Base.{length, map, ◌++◌, some, none, ℕ, ◌≡◌, refl, List, [], ◌∷◌, arith}
use rust_wren.Bytes.{memcmp_eq}
use rust_wren.Result.{ok, fault, out_of_bounds, unreachable}
use rust_wren.Utils.Utf8.{encode, decode, decode_tail, decode_rest, decode_num_bytes}
use rust_wren.Text.Points.{
  range_length, range_bytes, new_string_from_range, string_code_point_at, string_from_code_point,
}
use rust_wren.Text.Points.Encoded.{encode_all}
use rust_wren.Text.Points.Slice.{new_string_from_range-encode_all}
use rust_wren.Text.Points.At.{string_code_point_at-encode}
use rust_wren.Text.Find.{fill_shift, slide, matches, search_from, string_find}
use rust_wren.Text.Find.Slide.{First}
use rust_wren.Text.Find.First.{string_find-First}

abbrev banana : List ℕ
banana = b'b' ∷ b'a' ∷ b'n' ∷ b'a' ∷ b'n' ∷ b'a' ∷ []

-- `"banana".indexOf("ana", 2)`.
find_ana : string_find banana (b'a' ∷ b'n' ∷ b'a' ∷ []) 2 ≡ ok 3
unfolding string_find search_from fill_shift slide matches memcmp_eq
find_ana = refl

-- A needle with the byte 0xff in front of another byte.
find_0xff : string_find banana (0xff ∷ b'a' ∷ []) 0 ≡ fault out_of_bounds
unfolding string_find search_from fill_shift slide matches memcmp_eq
find_0xff = refl

string_find-First_example :
    (r : ℕ) × (string_find banana (b'a' ∷ b'n' ∷ b'a' ∷ []) 2 ≡ ok r)
    × First banana (b'a' ∷ b'n' ∷ b'a' ∷ []) 2 r
string_find-First_example =
    string_find-First banana (b'a' ∷ b'n' ∷ b'a' ∷ []) 2
      (omega arith, (omega arith, (omega arith, (omega arith, (omega arith, (omega arith, tt))))))
      (omega arith, (omega arith, (omega arith, tt))) (omega arith) (omega arith)

-- `a`, `é` and `b`, of which the part of the first two code points.
new_string_from_range-encode_all_example :
    new_string_from_range
      ([] ++ (encode_all (b'a' ∷ 0xe9 ∷ []) ++ b'b' ∷ []))
      0
      (length (encode_all (b'a' ∷ 0xe9 ∷ [])))
      1
    ≡ ok (map some (encode_all (b'a' ∷ 0xe9 ∷ [])))
unfolding encode_all encode
new_string_from_range-encode_all_example =
    new_string_from_range-encode_all [] (b'a' ∷ 0xe9 ∷ []) (b'b' ∷ [])
      (omega arith, (omega arith, tt)) (omega arith)

string_code_point_at-encode_example :
    (string_code_point_at (b'a' ∷ [] ++ (encode_all (0xe9 ∷ []) ++ b'b' ∷ [])) 1
      ≡ string_from_code_point 0xe9)
    × (string_from_code_point 0xe9 ≡ ok (encode_all (0xe9 ∷ [])))
unfolding encode_all encode
string_code_point_at-encode_example =
    string_code_point_at-encode (b'a' ∷ []) 0xe9 (b'b' ∷ []) (omega arith) (omega arith)

-- A part with an overlong sequence: its second byte is never written.
range_overlong : new_string_from_range (0xc1 ∷ 0x81 ∷ []) 0 2 1 ≡ ok (some b'A' ∷ none ∷ [])
unfolding new_string_from_range range_length range_bytes decode decode_tail decode_rest
    decode_num_bytes encode
range_overlong = refl

-- A sequence that decodes to 0x1fffff, which cannot be encoded.
range_too_large : new_string_from_range (0xf7 ∷ 0xbf ∷ 0xbf ∷ 0xbf ∷ []) 0 4 1 ≡ fault unreachable
unfolding new_string_from_range range_length range_bytes decode decode_tail decode_rest
    decode_num_bytes encode
range_too_large = refl
