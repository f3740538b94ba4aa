-- ===== src/Text/Points/At.antt =====
-- wren_value.c, lines 882 to 899: the code point at an index of a string.
use rust_wren.Base.{
  ℕ, suc, ◌-◌, ◌^◌, ◌<◌, ◌≡◌, refl, ap, ap₂, ◌∙◌, sym, List, [], ◌∷◌, ◌++◌, true, false, ◌==◌, ltb,
  arith, lt→ltb, length, length-append, drop, append-nil, some,
}
use rust_wren.Base.Int.{pos}
use rust_wren.Result.{ok}
use rust_wren.Utils.Utf8.{decode}
use rust_wren.Utils.Utf8.Encode.{encoding, encode_lem, encode_num_bytes_lem}
use rust_wren.Utils.Utf8.Decode.{decode-encoding}
use rust_wren.Text.Points.{string_from_code_point, point_or_byte, string_code_point_at}
use rust_wren.Text.Points.Encoded.{
  encode_all, IsPoint, encode_all-cons, encoding-Parts, drop-append_length,
}

string_from_code_point-encoding : (v : ℕ) → IsPoint v → string_from_code_point v ≡ ok (encoding v)
unfolding string_from_code_point
string_from_code_point-encoding v h =
    let parts = encoding-Parts v in
    let full : (length (encoding v) == 0) ≡ false = not_empty (encoding v) (ap length parts.2) in
    rw (encode_num_bytes_lem v h, full, encode_lem v h) refl
  where
    not_empty : {n : ℕ} (bytes : List ℕ) → length bytes ≡ suc n → (length bytes == 0) ≡ false
    not_empty bytes e = ground arith

-- `wrenStringCodePointAt` where a code point up to 0x10ffff begins in a string below 2 ^ 32 bytes,
-- whatever bytes stand before and behind it: it returns the string that `wrenStringFromCodePoint`
-- makes of this code point, and that is its encoding.
pub string_code_point_at-encode :
    (before : List ℕ) (v : ℕ) (behind : List ℕ)
    → IsPoint v
    → length (before ++ (encode_all (v ∷ []) ++ behind)) < 2 ^ 32
    → (string_code_point_at (before ++ (encode_all (v ∷ []) ++ behind)) (length before)
        ≡ string_from_code_point v)
      × (string_from_code_point v ≡ ok (encode_all (v ∷ [])))
unfolding string_code_point_at point_or_byte encode_all
string_code_point_at-encode before v behind h short =
    let single : encode_all (v ∷ []) ≡ encoding v =
      encode_all-cons v [] h ∙ append-nil (encoding v) in
    let parts = encoding-Parts v in
    let source = before ++ (encode_all (v ∷ []) ++ behind) in
    let split : source ≡ before ++ (encoding v ++ behind) =
      ap (λ (b : List ℕ). before ++ (b ++ behind)) single in
    let size = ap length split ∙ length-append before (encoding v ++ behind) in
    let inside : ltb (length before) (length source) ≡ true =
      lt→ltb (length before) (length source)
        (omega (arith, size, ap length parts.2, length-append (encoding v) behind)) in
    let decoded : decode (drop (length before) source) (length source - length before)
        ≡ some (pos v) =
      ap₂ decode
        (ap (drop (length before)) split ∙ drop-append_length before (encoding v ++ behind))
        (omega (arith, size))
      ∙ decode-encoding v behind (length (encoding v ++ behind)) (omega (arith, size, short)) h
          (omega (arith, length-append (encoding v) behind)) in
    (
      rw (inside, decoded) refl,
      string_from_code_point-encoding v h ∙ ap (λ (b : List ℕ). ok b) (sym single),
    )
