-- ===== src/Text/Points/Slice.antt =====
-- wren_value.c, lines 724 to 755: parts of strings of whole code points.
use rust_wren.Base.{
  ℕ, suc, ◌+◌, ◌-◌, ◌^◌, ◌<◌, ◌≡◌, refl, ap, ap₂, ◌∙◌, sym, List, [], ◌∷◌, ◌++◌, true, leb, arith,
  length, length-append, get_elem?, get_elem?-append_length, drop, map, append-nil, append_assoc,
  Option, some, All,
}
use rust_wren.Base.Int.{pos, negsuc}
use rust_wren.Result.{ok, ◌>>=◌, >>=-ok, >>=-return}
use rust_wren.Utils.Utf8.{decode, decode_num_bytes}
use rust_wren.Utils.Utf8.Encode.{encoding, encode_lem}
use rust_wren.Utils.Utf8.Decode.{decode-encoding}
use rust_wren.Text.Points.{
  written, range_index, num_bytes_at, range_length, point_bytes, range_bytes, new_string_from_range,
}
use rust_wren.Text.Points.Encoded.{
  encode_all, IsPoint, IsContinuation, decode_continuation, encoding-Parts, drop-append_length, sum,
  total, total-encode_all, encode_all-cons,
}

module _ (source : List ℕ) (start : ℕ) (short : length source < 2 ^ 32) where
  -- The index of a round, behind the bytes `pre`.
  index_of :
      (i : ℕ) (pre rest : List ℕ)
      → source ≡ pre ++ rest
      → length pre ≡ start + i
      → range_index start i 1 ≡ length pre
  index_of i pre rest e at = omega (arith, at, short, ap length e, length-append pre rest)

  range_length-total :
      (i : ℕ) (pre ys post : List ℕ)
      → source ≡ pre ++ (ys ++ post)
      → length pre ≡ start + i
      → range_length source start 1 (length ys) i ≡ ok (total ys)
  unfolding range_length total sum
  range_length-total i pre [] post e at = refl
  range_length-total i pre (y ∷ ys) post e at =
      let here : get_elem? source (range_index start i 1) ≡ some y =
        ap₂ (λ (s : List ℕ) (k : ℕ). get_elem? s k) e (index_of i pre (y ∷ ys ++ post) e at)
        ∙ get_elem?-append_length pre (ys ++ post) y in
      let rest =
        range_length-total (i + 1) (pre ++ y ∷ []) ys post
          (e ∙ sym (append_assoc pre (y ∷ []) (ys ++ post)))
          (omega (arith, at, length-append pre (y ∷ []))) in
      >>=-ok (num_bytes_at (get_elem? source (range_index start i 1))) (decode_num_bytes y) _
        (ap num_bytes_at here)
      ∙ >>=-ok (range_length source start 1 (length ys) (i + 1)) (total ys) _ rest

  -- The decoding of a round.
  decode_at :
      (i : ℕ) (pre rest : List ℕ)
      → source ≡ pre ++ rest
      → length pre ≡ start + i
      → decode (drop (range_index start i 1) source) (length source - range_index start i 1)
        ≡ decode rest (length rest)
  decode_at i pre rest e at =
      let index = index_of i pre rest e at in
      ap₂ decode (ap₂ (λ (s : List ℕ) (k : ℕ). drop k s) e index ∙ drop-append_length pre rest)
        (omega (arith, index, ap length e, length-append pre rest))

  -- A round on a byte that begins no code point.
  round_none :
      (n i : ℕ)
      → decode (drop (range_index start i 1) source) (length source - range_index start i 1)
        ≡ some (negsuc 0)
      → range_bytes source start 1 (suc n) i ≡ range_bytes source start 1 n (i + 1)
  unfolding range_bytes
  round_none n i e =
      >>=-ok
        (point_bytes
          (decode (drop (range_index start i 1) source) (length source - range_index start i 1)))
        [] _ (ap point_bytes e)
      ∙ >>=-return (range_bytes source start 1 n (i + 1))

  -- Continuations add no round's bytes.
  range_bytes-skip :
      (tail : List ℕ) (i r : ℕ) (pre rest : List ℕ)
      → All IsContinuation tail
      → source ≡ pre ++ (tail ++ rest)
      → length pre ≡ start + i
      → range_bytes source start 1 (length tail + r) i
        ≡ range_bytes source start 1 r (i + length tail)
  range_bytes-skip [] i r pre rest h e at =
      ap₂ (range_bytes source start 1) (omega arith) (omega arith)
  range_bytes-skip (b ∷ tail) i r pre rest (is, h) e at =
      let next =
        range_bytes-skip tail (i + 1) r (pre ++ b ∷ []) rest h
          (e ∙ sym (append_assoc pre (b ∷ []) (tail ++ rest)))
          (omega (arith, at, length-append pre (b ∷ []))) in
      let here =
        decode_at i pre (b ∷ (tail ++ rest)) e at
        ∙ decode_continuation b (tail ++ rest) (length (b ∷ (tail ++ rest))) is in
      ap (λ (n : ℕ). range_bytes source start 1 n i) (omega arith)
      ∙ round_none (length tail + r) i here
      ∙ next
      ∙ ap (range_bytes source start 1 r) (omega arith)

  -- A round on the first byte of a code point.
  round_some :
      (v n i : ℕ)
      → IsPoint v
      → decode (drop (range_index start i 1) source) (length source - range_index start i 1)
        ≡ some (pos v)
      → range_bytes source start 1 (suc n) i
        ≡ (range_bytes source start 1 n (i + 1) >>= λ rest. ok (encoding v ++ rest))
  unfolding range_bytes
  round_some v n i h e =
      >>=-ok
        (point_bytes
          (decode (drop (range_index start i 1) source) (length source - range_index start i 1)))
        (encoding v) _ (ap point_bytes e ∙ ap written (encode_lem v h))

  range_bytes-encode_all :
      (vs : List ℕ) (i : ℕ) (pre post : List ℕ)
      → All IsPoint vs
      → source ≡ pre ++ (encode_all vs ++ post)
      → length pre ≡ start + i
      → range_bytes source start 1 (length (encode_all vs)) i ≡ ok (encode_all vs)
  unfolding range_bytes encode_all
  range_bytes-encode_all [] i pre post h e at = refl
  range_bytes-encode_all (v ∷ vs) i pre post (p, h) e at =
      let parts = encoding-Parts v in
      let b = parts.0 in
      let tail = parts.1 in
      let rest = encode_all vs ++ post in
      let split : source ≡ pre ++ (encoding v ++ rest) =
        e
        ∙ ap (λ (c : List ℕ). pre ++ (c ++ post)) (encode_all-cons v vs p)
        ∙ ap (λ (c : List ℕ). pre ++ c) (append_assoc (encoding v) (encode_all vs) post) in
      let behind : source ≡ pre ++ b ∷ [] ++ (tail ++ rest) =
        split
        ∙ ap (λ (c : List ℕ). pre ++ (c ++ rest)) parts.2
        ∙ sym (append_assoc pre (b ∷ []) (tail ++ rest)) in
      let here =
        decode_at i pre (encoding v ++ rest) split at
        ∙ decode-encoding v rest (length (encoding v ++ rest))
            (omega (arith, short, ap length split, length-append pre (encoding v ++ rest))) p
            (omega (arith, length-append (encoding v) rest)) in
      let skipped =
        range_bytes-skip tail (i + 1) (length (encode_all vs)) (pre ++ b ∷ []) rest parts.3 behind
          (omega (arith, at, length-append pre (b ∷ [])))
        ∙ range_bytes-encode_all vs (i + 1 + length tail) (pre ++ encoding v) post h
            (split ∙ sym (append_assoc pre (encoding v) rest))
            (omega (arith, at, length-append pre (encoding v), ap length parts.2)) in
      let rounds : length (encode_all (v ∷ vs)) ≡ suc (length tail + length (encode_all vs)) =
        (ap length (encode_all-cons v vs p)
          ∙ omega (arith, length-append (encoding v) (encode_all vs), ap length parts.2)) in
      ap (λ (n : ℕ). range_bytes source start 1 n i) rounds
      ∙ round_some v (length tail + length (encode_all vs)) i p here
      ∙ >>=-ok (range_bytes source start 1 (length tail + length (encode_all vs)) (i + 1))
          (encode_all vs) _ skipped
      ∙ ap (λ (c : List ℕ). ok c) (sym (encode_all-cons v vs p))

-- `wrenNewStringFromRange` with step 1 on a source below 2 ^ 32 bytes, from where code points up to
-- 0x10ffff begin and for as many bytes as they have, whatever bytes stand before and behind them: it
-- reads only inside of the source, and the new string is exactly the encoding of these code points,
-- with no byte left unwritten.
pub new_string_from_range-encode_all :
    (before vs behind : List ℕ)
    → All IsPoint vs
    → length (before ++ (encode_all vs ++ behind)) < 2 ^ 32
    → new_string_from_range
        (before ++ (encode_all vs ++ behind))
        (length before)
        (length (encode_all vs))
        1
      ≡ ok (map some (encode_all vs))
unfolding new_string_from_range
new_string_from_range-encode_all before vs behind h short =
    let source = before ++ (encode_all vs ++ behind) in
    let size = length (encode_all vs) in
    let at : length before ≡ length before + 0 = omega arith in
    let counted =
      range_length-total source (length before) short 0 before (encode_all vs) behind refl at
      ∙ ap (λ (n : ℕ). ok n) (total-encode_all vs h) in
    let bytes = range_bytes-encode_all source (length before) short vs 0 before behind h refl at in
    >>=-ok (range_length source (length before) 1 size 0) size _ counted
    ∙ >>=-ok (range_bytes source (length before) 1 size 0) (encode_all vs) _ bytes
    ∙ rw (within size, none_left size)
        (ap (λ (c : List (Option ℕ)). ok c) (append-nil (map some (encode_all vs))))
  where
    within : (n : ℕ) → leb n n ≡ true
    within n = ground arith

    none_left : (n : ℕ) → n - n ≡ 0
    none_left n = omega arith
