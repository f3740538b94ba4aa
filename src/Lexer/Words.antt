-- ===== src/Lexer/Words.antt =====
-- wren_compiler.c, lines 697 to 846: comments, numbers and names.
use rust_wren.Base.{
  ℕ, zero, suc, ◌+◌, ◌-◌, List, [], ◌∷◌, ◌++◌, Bool, true, false, ◌&&◌, ◌||◌, ◌==◌, if◌then◌else◌,
  Option, none, some, length,
}
use rust_wren.Result.{no_fuel, Result, ok, fault, ◌>>=◌}
use rust_wren.Lexer.Tokens.{
  TokenType, number, text, bits, keywords, keyword_type, is_name, is_digit, hex_value,
}
use rust_wren.Lexer.Cursor.{
  Parser, unterminated_comment, number_too_large, unterminated_exponent, lex_error, peek_char,
  peek_next_char, next_char, back, match_char, skip_while, make_token,
}

-- Two characters further.
abbrev pub next_two : Parser → Result Parser
next_two p = do first ← next_char p; second ← next_char first.1; ok second.1

-- The body of the loop of `skipBlockComment` on two characters: the nesting and the parser after it.
-- The nesting is 0 after an error, which returns.
unfoldable pub comment_case : ℕ → ℕ → ℕ → Parser → Result (ℕ × Parser)
comment_case c d nesting p =
    if c == 0
    then ok (0, lex_error p unterminated_comment)
    else if c == b'/' && d == b'*'
    then (next_two p >>= λ p'. ok (nesting + 1, p'))
    else if c == b'*' && d == b'/'
    then (next_two p >>= λ p'. ok (nesting - 1, p'))
    else (next_char p >>= λ step. ok (nesting, step.1))

unfoldable pub comment_round : ℕ → Parser → Result (ℕ × Parser)
comment_round nesting p = do c ← peek_char p; d ← peek_next_char p; comment_case c d nesting p

-- The loop of `skipBlockComment`, on fuel.
unfoldable pub skip_comment : ℕ → ℕ → Parser → Result Parser
skip_comment fuel zero p = ok p
skip_comment zero (suc nesting) p = fault no_fuel
skip_comment (suc fuel) (suc nesting) p = do
  round ← comment_round (suc nesting) p
  skip_comment fuel round.0 round.1

-- `skipBlockComment`.
unfoldable pub skip_block_comment : Parser → Result Parser
skip_block_comment p = skip_comment (suc (length p.rest)) 1 p

-- `readHexDigit` on the value of the character that was read: back, if it is no digit.
abbrev pub keep_digit : Option ℕ → Parser → Result (Option ℕ × Parser)
keep_digit (some digit) p = ok (some digit, p)
keep_digit none p = back p >>= λ p'. ok (none, p')

-- `readHexDigit`; `none` is -1.
unfoldable pub read_hex_digit : Parser → Result (Option ℕ × Parser)
read_hex_digit p = next_char p >>= λ step. keep_digit (hex_value step.0) step.1

-- `while (readHexDigit(parser) != -1) continue;`, on fuel.
unfoldable pub skip_hex_digits : ℕ → Parser → Result Parser
skip_hex_digits zero p = fault no_fuel
skip_hex_digits (suc fuel) p = do
  read ← read_hex_digit p
  elim read.0 [ none ↦ ok read.1 | some digit ↦ skip_hex_digits fuel read.1 ]

-- `while (isDigit(peekChar(parser))) nextChar(parser);`.
abbrev pub skip_digits : Parser → Result Parser
skip_digits p = skip_while is_digit (suc (length p.rest)) p

-- The exponent of a number.
unfoldable pub read_exponent : Parser → Result Parser
read_exponent p = do
  plus ← match_char p b'+'
  sign ← (if plus.0 then ok plus else match_char plus.1 b'-')
  c ← peek_char sign.1
  skip_digits (if is_digit c then sign.1 else lex_error sign.1 unterminated_exponent)

-- The digits behind a point.
unfoldable pub read_fraction : Parser → Result Parser
read_fraction p = do
  c ← peek_char p
  d ← peek_next_char p
  if c == b'.' && is_digit d then (next_char p >>= λ step. skip_digits step.1) else ok p

-- The condition of the loop of `readName`.
unfoldable pub in_name : ℕ → Bool
in_name c = is_name c || is_digit c

-- The loop of `readName` and the bytes that it buffers, on fuel.
unfoldable pub read_name_chars : ℕ → Parser → List ℕ → Result (List ℕ × Parser)
read_name_chars zero p string = fault no_fuel
read_name_chars (suc fuel) p string = do
  c ← peek_char p
  elim (in_name c) [
    | false ↦ ok (string, p)
    | true ↦ do step ← next_char p; read_name_chars fuel step.1 (string ++ step.0 ∷ [])
  ]

-- `readName`.
unfoldable pub read_name : Parser → TokenType → ℕ → Result Parser
read_name p type first_char = do
  (string, p') ← read_name_chars (suc (length p.rest)) p (first_char ∷ [])
  let size = length p'.before - p'.token_start
  let p'' = record p' { next = record p'.next { value = text string } }
  ok (make_token p'' (keyword_type keywords p'.token_text size type))

-- `strtoll` in base 16 with the conversion to a double, and `strtod`, on the text of the source from
-- the token on; `none` is ERANGE.
module _ (parse_hex parse_decimal : List ℕ → Option ℕ) where
  -- The value of a number, 0 if it is out of range.
  abbrev pub set_number : Parser → Option ℕ → Parser
  set_number p (some value) = record p { next = record p.next { value = bits value } }
  set_number p none = record (lex_error p number_too_large) {
    next = record p.next { value = bits 0 };
  }

  -- `makeNumber`.
  unfoldable pub make_number : Parser → Bool → Parser
  make_number p is_hex =
      let value = if is_hex then parse_hex p.token_text else parse_decimal p.token_text in
      make_token (set_number p value) number

  -- `readHexNumber`.
  unfoldable pub read_hex_number : Parser → Result Parser
  read_hex_number p = do
    step ← next_char p
    p' ← skip_hex_digits (suc (length step.1.rest)) step.1
    ok (make_number p' true)

  -- `readNumber`.
  unfoldable pub read_number : Parser → Result Parser
  read_number p = do
    whole ← skip_digits p
    fraction ← read_fraction whole
    small ← match_char fraction b'e'
    large ← (if small.0 then ok small else match_char small.1 b'E')
    p' ← (if large.0 then read_exponent large.1 else ok large.1)
    ok (make_number p' false)
