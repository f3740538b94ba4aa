-- ===== src/Tests/Lexers.antt =====
-- Runs of the lexer.
use rust_wren.Base.{true, arith, ℕ, zero, suc, ◌≡◌, refl, List, [], ◌∷◌, ◌++◌, Option, some}
use rust_wren.Bytes.{memcmp_eq}
use rust_wren.Result.{Result, ok, ◌>>=◌}
use rust_wren.Lexer.Progress.Scan.{Scans}
use rust_wren.Lexer.Progress.Readable.{Readable}
use rust_wren.Lexer.Progress.Readable.Scan.{next_token-Scans}
use rust_wren.Lexer.Tokens
use rust_wren.Lexer.Passed.{started, passed}
use rust_wren.Lexer.Quote.{quote, quote_byte}
use rust_wren.Lexer.Quote.Literal.{next_token-quote}
use rust_wren.Lexer.Names.{make_word, next_token-word}
use rust_wren.Lexer.Comments.{Comment, close, nested, char, is_mark, skip_block_comment-Comment}
use rust_wren.Lexer.Hexadecimal.{in_front, read_hex_number-digits}
use rust_wren.Lexer.Tokens.{
  TokenType, Token, no_value, keywords, keyword_type, is_name, is_digit, hex_value,
}
use rust_wren.Lexer.Cursor.{Parser, next_char, back, match_char, skip_while, two_char_token}
use rust_wren.Lexer.Words.{
  in_name, comment_case, comment_round, skip_comment, skip_block_comment, read_hex_digit,
  skip_hex_digits, read_name_chars, read_name, make_number, read_hex_number, read_number,
}
use rust_wren.Lexer.Strings.{make_string}
use rust_wren.Lexer.Scan.{case_of, close_case, scan_case, scan_round, scan_from, next_token}

abbrev no_token : Token
no_token = record { type = Tokens.error; start = 0; length = 0; line = 0; value = no_value }

-- A parser at the beginning of a source.
abbrev begin : List ℕ → Parser
begin source = record {
  before = [];
  rest = source ++ 0 ∷ [];
  current_line = 1;
  token_start = 0;
  token_text = source ++ 0 ∷ [];
  next = no_token;
  current = no_token;
  previous = no_token;
  parens = [];
  errors = [];
}

abbrev parse_nothing : List ℕ → Option ℕ
parse_nothing source = some 0

abbrev tokens : ℕ → Parser → Result (List (TokenType × ℕ))
tokens zero p = ok []
tokens (suc n) p = do
  p' ← next_token parse_nothing parse_nothing p
  rest ← tokens n p'
  ok ((p'.next.type, p'.next.line) ∷ rest)

-- `if x`, a block comment in a block comment, `>>`, a new line and the end.
some_tokens :
    tokens 5 (
      begin (
        b'i' ∷ b'f' ∷ b' ' ∷ b'x' ∷ b'/' ∷ b'*' ∷ b'/' ∷ b'*' ∷ b'*' ∷ b'/' ∷ b'*' ∷ b'/' ∷ b'>'
        ∷ b'>' ∷ b'\n' ∷ []))
    ≡ ok (
        (Tokens.if_, 1)
        ∷ (Tokens.name, 1)
        ∷ (Tokens.gtgt, 1)
        ∷ (Tokens.line, 1)
        ∷ (Tokens.eof, 2)
        ∷ [])
unfolding next_token scan_from scan_round scan_case case_of close_case read_number read_name
    read_name_chars is_name is_digit keywords keyword_type next_char match_char skip_while
    skip_block_comment skip_comment comment_round comment_case two_char_token memcmp_eq in_name
some_tokens = refl

-- `0x1` and three new lines: the line of the last two is one too high.
hex_lines :
    tokens 4 (begin (b'0' ∷ b'x' ∷ b'1' ∷ b'\n' ∷ b'\n' ∷ b'\n' ∷ []))
    ≡ ok ((Tokens.number, 2) ∷ (Tokens.line, 2) ∷ (Tokens.line, 3) ∷ (Tokens.line, 4) ∷ [])
unfolding next_token scan_from scan_round scan_case case_of read_hex_number skip_hex_digits
    read_hex_digit hex_value make_number back next_char
hex_lines = refl

-- `"a`, a line break in the string, an escaped line break, a quote and a name.
abbrev two_lines : Parser
two_lines = begin (b'"' ∷ b'a' ∷ b'\n' ∷ b'\\' ∷ b'n' ∷ b'"' ∷ b'c' ∷ [])

two_lines-Readable : Readable two_lines.rest
two_lines-Readable = ground arith

next_token-Scans_example :
    (q : Parser) × (next_token parse_nothing parse_nothing two_lines ≡ ok q)
    × Scans two_lines q
    × Readable q.rest
next_token-Scans_example = next_token-Scans parse_nothing parse_nothing two_lines two_lines-Readable

-- The literal of `a` and a quotation mark.
abbrev quoted : Parser
quoted = begin (b'"' ∷ b'a' ∷ b'\\' ∷ b'"' ∷ b'"' ∷ [])

next_token-quote_example :
    next_token parse_nothing parse_nothing quoted
    ≡ ok (
        make_string
          (passed (started quoted) (b'"' ∷ quote (b'a' ∷ b'"' ∷ []) ++ b'"' ∷ []) (0 ∷ []))
          (b'a' ∷ b'"' ∷ [])
          Tokens.string)
unfolding quote quote_byte
next_token-quote_example =
    next_token-quote parse_nothing parse_nothing quoted (b'a' ∷ b'"' ∷ []) 0 [] refl refl
      (λ e. ground arith)

-- A reserved word and a blank.
abbrev reserved : Parser
reserved = begin (b'i' ∷ b'f' ∷ b' ' ∷ [])

next_token-word_example :
    next_token parse_nothing parse_nothing reserved
    ≡ ok (
        make_word
          (passed (started reserved) (b'i' ∷ b'f' ∷ []) (b' ' ∷ 0 ∷ []))
          (b'i' ∷ b'f' ∷ [])
          Tokens.name)
unfolding is_name is_digit in_name
next_token-word_example =
    next_token-word parse_nothing parse_nothing reserved b'i' (b'f' ∷ []) b' ' (0 ∷ []) refl refl
      refl (λ e. ground arith) (refl, tt) refl

-- `a` and a comment in a comment.
abbrev commented : Parser
commented = begin (b'a' ∷ b'/' ∷ b'*' ∷ b'*' ∷ b'/' ∷ b'*' ∷ b'/' ∷ [])

inner-Comment : Comment (b'a' ∷ b'/' ∷ b'*' ∷ b'*' ∷ b'/' ∷ b'*' ∷ b'/' ∷ [])
unfolding is_mark
inner-Comment =
    char b'a' b'/' (b'*' ∷ b'*' ∷ b'/' ∷ b'*' ∷ b'/' ∷ []) (λ e. ground arith) refl
      (nested (b'*' ∷ b'/' ∷ []) (b'*' ∷ b'/' ∷ []) close close)

skip_block_comment-Comment_example :
    skip_block_comment commented
    ≡ ok (passed commented (b'a' ∷ b'/' ∷ b'*' ∷ b'*' ∷ b'/' ∷ b'*' ∷ b'/' ∷ []) (0 ∷ []))
skip_block_comment-Comment_example =
    skip_block_comment-Comment commented (b'a' ∷ b'/' ∷ b'*' ∷ b'*' ∷ b'/' ∷ b'*' ∷ b'/' ∷ [])
      (0 ∷ []) inner-Comment refl

-- `x1` and a line break.
abbrev digits : Parser
digits = begin (b'x' ∷ b'1' ∷ b'\n' ∷ [])

read_hex_number-digits_example :
    read_hex_number parse_nothing parse_nothing digits
    ≡ ok (
        make_number parse_nothing parse_nothing
          (in_front (passed digits (b'x' ∷ b'1' ∷ []) (b'\n' ∷ 0 ∷ [])) b'\n')
          true)
unfolding hex_value
read_hex_number-digits_example =
    read_hex_number-digits parse_nothing parse_nothing digits b'x' (b'1' ∷ []) b'\n' (0 ∷ [])
      ((1, refl), tt) refl refl
