-- ===== src/Lexer/Cursor.antt =====
-- wren_compiler.c, lines 155 to 206, 442 to 449 and 637 to 695: the state of the lexer and its steps
-- of one character. The source is its bytes with the terminator, a byte 0; the position in it is the
-- bytes before it, the last one first, and those from it on.
use rust_wren.Base.{
  ℕ, zero, suc, ◌+◌, ◌-◌, List, [], ◌∷◌, Bool, true, false, not, ◌&&◌, ◌==◌, if◌then◌else◌, length,
}
use rust_wren.Result.{out_of_bounds, no_fuel, Result, ok, fault, ◌>>=◌}
use rust_wren.Lexer.Tokens.{TokenType, Token, line}

pub data LexError : Type 0 where
  unterminated_comment number_too_large unterminated_exponent incomplete_escape : LexError
  invalid_digit unterminated_raw_string unterminated_string expect_paren too_deep : LexError
  invalid_escape invalid_character invalid_byte : LexError

-- `Parser`. `token_text` is what `tokenStart` points to, and `token_start` its distance from the
-- beginning. `parens` holds the entries in use, the last one first. `errors` are the errors reported,
-- the last one first, each with its line.
pub record Parser : Type 0 where
  pub before : List ℕ
  pub rest : List ℕ
  pub current_line : ℕ
  pub token_start : ℕ
  pub token_text : List ℕ
  pub next : Token
  pub current : Token
  pub previous : Token
  pub parens : List ℕ
  pub errors : List (LexError × ℕ)

-- `lexError`.
abbrev pub lex_error : Parser → LexError → Parser
lex_error p e = record p { errors = (e, p.current_line) ∷ p.errors }

-- What the pointer to the current character points to, and what the next one does.
abbrev pub peek : List ℕ → Result ℕ
peek [] = fault out_of_bounds
peek (c ∷ rest) = ok c

abbrev pub peek_after : List ℕ → Result ℕ
peek_after [] = fault out_of_bounds
peek_after (c ∷ rest) = if c == 0 then ok 0 else peek rest

-- `peekChar`, `peekNextChar` and `nextChar`.
abbrev pub peek_char : Parser → Result ℕ
peek_char p = peek p.rest

abbrev pub peek_next_char : Parser → Result ℕ
peek_next_char p = peek_after p.rest

-- The parser past a character.
abbrev pub pass : Parser → ℕ → List ℕ → Parser
pass p c rest = record p {
  before = c ∷ p.before;
  rest = rest;
  current_line = if c == b'\n' then p.current_line + 1 else p.current_line;
}

abbrev pub advance : Parser → List ℕ → Result (ℕ × Parser)
advance p [] = fault out_of_bounds
advance p (c ∷ rest) = ok (c, pass p c rest)

unfoldable pub next_char : Parser → Result (ℕ × Parser)
next_char p = advance p p.rest

-- `currentChar--`.
abbrev pub retreat : Parser → List ℕ → Result Parser
retreat p [] = fault out_of_bounds
retreat p (c ∷ before) = ok (record p { before = before; rest = c ∷ p.rest })

unfoldable pub back : Parser → Result Parser
back p = retreat p p.before

-- `matchChar`.
unfoldable pub match_char : Parser → ℕ → Result (Bool × Parser)
match_char p c = do
  d ← peek_char p
  elim (d == c) [ false ↦ ok (false, p) | true ↦ do step ← next_char p; ok (true, step.1) ]

-- A loop `while (test(peekChar(parser))) nextChar(parser);`, on fuel.
unfoldable pub skip_while : (ℕ → Bool) → ℕ → Parser → Result Parser
skip_while test zero p = fault no_fuel
skip_while test (suc fuel) p = do
  c ← peek_char p
  elim (test c) [ false ↦ ok p | true ↦ do step ← next_char p; skip_while test fuel step.1 ]

abbrev is_line : TokenType → Bool
is_line line = true
is_line type = false

-- `makeToken`.
abbrev pub make_token : Parser → TokenType → Parser
make_token p type = record p {
  next = record p.next {
    type = type;
    start = p.token_start;
    length = length p.before - p.token_start;
    line = if is_line type then p.current_line - 1 else p.current_line;
  };
}

-- `twoCharToken`.
unfoldable pub two_char_token : Parser → ℕ → TokenType → TokenType → Result Parser
two_char_token p c two one = do
  (matched, p') ← match_char p c
  ok (make_token p' (if matched then two else one))

-- `skipLineComment`.
unfoldable pub skip_line_comment : Parser → Result Parser
skip_line_comment p = skip_while (λ c. not (c == b'\n') && not (c == 0)) (suc (length p.rest)) p
