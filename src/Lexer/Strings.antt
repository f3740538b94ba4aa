-- ===== src/Lexer/Strings.antt =====
-- wren_compiler.c, lines 848 to 1044: string literals. `buffer` is what the byte buffer holds.
use rust_wren.Base.{
  ℕ, zero, suc, ◌+◌, ◌-◌, ◌*◌, ◌^◌, bit_or, List, [], ◌∷◌, ◌++◌, Bool, true, false, not, ◌&&◌, ◌||◌,
  ◌==◌, ltb, if◌then◌else◌, Option, none, some, length, take, drop,
}
use rust_wren.Result.{no_fuel, overflow, unreachable, Result, ok, fault, ◌>>=◌}
use rust_wren.Utils.Utf8.{encode_num_bytes, encode, byte}
use rust_wren.Lexer.Tokens.{TokenType, string, interpolation, text}
use rust_wren.Lexer.Cursor.{
  Parser, incomplete_escape, invalid_digit, unterminated_raw_string, unterminated_string,
  expect_paren, too_deep, invalid_escape, lex_error, peek_char, peek_next_char, next_char, back,
  make_token,
}
use rust_wren.Lexer.Words.{next_two, read_hex_digit}

abbrev pub max_interpolation_nesting : ℕ
max_interpolation_nesting = 8

-- `(value * 16) | digit`, of an `int`.
abbrev pub add_digit : ℕ → ℕ → Result ℕ
add_digit value digit =
    if ltb (value * 16) (2 ^ 31) then ok (bit_or (value * 16) digit) else fault overflow

-- `readHexEscape` from a value on: the value and the parser.
unfoldable pub read_hex_escape : ℕ → ℕ → Parser → Result (ℕ × Parser)
read_hex_escape zero value p = ok (value, p)
read_hex_escape (suc digits) value p = do
  c ← peek_char p
  elim (c == b'"' || c == 0) [
    | true ↦ do p' ← back (lex_error p incomplete_escape); ok (value, p')
    | false ↦ do
      read ← read_hex_digit p
      elim read.0 [
        | none ↦ ok (value, lex_error read.1 invalid_digit)
        | some digit ↦ do value' ← add_digit value digit; read_hex_escape digits value' read.1
      ]
  ]

-- The bytes that `readUnicodeEscape` writes to the buffer.
abbrev pub encoded : ℕ → Option (ℕ × List ℕ) → Result (List ℕ)
encoded zero written = ok []
encoded (suc n) none = fault unreachable
encoded (suc n) (some (count, bytes)) = ok bytes

-- `readUnicodeEscape`.
unfoldable pub read_unicode_escape : Parser → List ℕ → ℕ → Result (List ℕ × Parser)
read_unicode_escape p buffer digits = do
  (value, p') ← read_hex_escape digits 0 p
  bytes ← encoded (encode_num_bytes value) (encode value)
  ok (buffer ++ bytes, p')

-- The escapes that stand for one byte.
unfoldable pub simple_escape : ℕ → Option ℕ
simple_escape c =
    if c == b'"'
    then some b'"'
    else if c == b'\\'
    then some b'\\'
    else if c == b'%'
    then some b'%'
    else if c == b'0'
    then some 0
    else if c == b'a'
    then some 7
    else if c == b'b'
    then some 8
    else if c == b'e'
    then some 27
    else if c == b'f'
    then some 12
    else if c == b'n'
    then some 10
    else if c == b'r'
    then some 13
    else if c == b't'
    then some 9
    else if c == b'v'
    then some 11
    else none

-- The `switch` of `readString` on the character behind a backslash.
abbrev pub escape_by : Option ℕ → ℕ → Parser → List ℕ → Result (List ℕ × Parser)
escape_by (some b) c p buffer = ok (buffer ++ b ∷ [], p)
escape_by none c p buffer =
    if c == b'u'
    then read_unicode_escape p buffer 4
    else if c == b'U'
    then read_unicode_escape p buffer 8
    else if c == b'x'
    then (read_hex_escape 2 0 p >>= λ read. ok (buffer ++ byte read.0 ∷ [], read.1))
    else ok (buffer, lex_error p invalid_escape)

unfoldable pub read_escape : Parser → List ℕ → Result (List ℕ × Parser)
read_escape p buffer = next_char p >>= λ step. escape_by (simple_escape step.0) step.0 step.1 buffer

-- What one round of the loop of `readString` comes to.
pub data Round : Type 0 where
  ended : Parser → List ℕ → TokenType → Round
  more : Parser → List ℕ → Round

-- The start of an interpolation.
unfoldable pub open_interpolation : Parser → List ℕ → Result Round
open_interpolation p buffer = do
  (c, p') ← next_char p
  let p'' = if c == b'(' then p' else lex_error p' expect_paren
  ok (ended (record p'' { parens = 1 ∷ p''.parens }) buffer interpolation)

-- The body of the loop on a character.
unfoldable pub string_case : ℕ → Parser → List ℕ → Result Round
string_case c p buffer =
    if c == b'"'
    then ok (ended p buffer string)
    else if c == 0
    then (back (lex_error p unterminated_string) >>= λ p'. ok (ended p' buffer string))
    else if c == b'%' && ltb (length p.parens) max_interpolation_nesting
    then open_interpolation p buffer
    else if c == b'%'
    then ok (more (lex_error p too_deep) (buffer ++ c ∷ []))
    else if c == b'\\'
    then (read_escape p buffer >>= λ read. ok (more read.1 read.0))
    else ok (more p (buffer ++ c ∷ []))

-- The loop of `readString`, on fuel.
unfoldable pub read_string_from : ℕ → Parser → List ℕ → Result (Parser × List ℕ × TokenType)
read_string_from zero p buffer = fault no_fuel
read_string_from (suc fuel) p buffer = do
  (c, p') ← next_char p
  round ← string_case c p' buffer
  elim round [
    | ended p'' buffer' type ↦ ok (p'', buffer', type)
    | more p'' buffer' ↦ read_string_from fuel p'' buffer'
  ]

-- A string as the value of the next token.
abbrev pub make_string : Parser → List ℕ → TokenType → Parser
make_string p bytes type =
    make_token (record p { next = record p.next { value = text bytes } }) type

-- `readString`.
unfoldable pub read_string : Parser → Result Parser
read_string p = do
  (p', bytes, type) ← read_string_from (suc (length p.rest)) p []
  ok (make_string p' bytes type)

-- The variables of the loop of `readRawString`; `none` is -1.
pub record Raw : Type 0 where
  pub bytes : List ℕ
  pub skip_start : Option ℕ
  pub first_newline : Option ℕ
  pub skip_end : Option ℕ
  pub last_newline : Option ℕ

abbrev pub start_raw : Raw
start_raw = record {
  bytes = [];
  skip_start = some 0;
  first_newline = none;
  skip_end = none;
  last_newline = none;
}

abbrev is_none : Option ℕ → Bool
is_none none = true
is_none (some n) = false

-- The first `if` of the loop.
abbrev pub see_newline : Raw → ℕ → Raw
see_newline r c =
    let here = some (length r.bytes) in
    if c == b'\n'
    then record r {
      last_newline = here;
      skip_end = here;
      first_newline = if is_none r.first_newline then here else r.first_newline;
    }
    else r

-- The rest of the loop up to the test for the end of the source.
abbrev pub see_blank : Raw → ℕ → Raw
see_blank r c =
    let is_whitespace = c == b' ' || c == b'\t' in
    let skippable = not (is_none r.skip_start) && is_whitespace && is_none r.first_newline in
    let skip_start = if skippable then some (length r.bytes + 1) else r.skip_start in
    record r {
      skip_end = if c == b'\n' || is_whitespace then r.skip_end else none;
      skip_start =
          if is_none r.first_newline && not is_whitespace && not (c == b'\n')
          then none
          else skip_start;
    }

-- `a != -1 && b == a`.
abbrev same_index : Option ℕ → Option ℕ → Bool
same_index (some a) (some b) = b == a
same_index a b = false

abbrev index_or : Option ℕ → ℕ → ℕ
index_or (some a) d = a
index_or none d = d

-- What `readRawString` keeps of the bytes.
unfoldable pub trim_raw : Raw → List ℕ
trim_raw r =
    let offset =
      if same_index r.first_newline r.skip_start then index_or r.first_newline 0 + 1 else 0 in
    let count =
      if same_index r.last_newline r.skip_end then index_or r.last_newline 0 else length r.bytes in
    take (count - offset) (drop offset r.bytes)

-- The loop of `readRawString`, on fuel.
unfoldable pub read_raw_from : ℕ → Parser → Raw → Result (Parser × Raw)
read_raw_from zero p r = fault no_fuel
read_raw_from (suc fuel) p r = do
  (c, p') ← next_char p
  c1 ← peek_char p'
  c2 ← peek_next_char p'
  let seen = see_newline r c
  let r' = see_blank seen c
  elim (c == b'"' && c1 == b'"' && c2 == b'"') [
    | true ↦ ok (p', seen)
    | false ↦ elim (c == 0 || c1 == 0 || c2 == 0) [
      | true ↦ do p'' ← back (lex_error p' unterminated_raw_string); ok (p'', r')
      | false ↦ read_raw_from fuel p' (record r' { bytes = r'.bytes ++ c ∷ [] })
    ]
  ]

-- `readRawString`.
unfoldable pub read_raw_string : Parser → Result Parser
read_raw_string p = do
  inside ← next_two p
  (p', r) ← read_raw_from (suc (length inside.rest)) inside start_raw
  p'' ← next_two p'
  ok (make_string p'' (trim_raw r) string)
