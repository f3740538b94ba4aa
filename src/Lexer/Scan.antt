-- ===== src/Lexer/Scan.antt =====
-- wren_compiler.c, lines 1046 to 1235: `nextToken`.
use rust_wren.Base.{
  ℕ, zero, suc, ◌+◌, ◌-◌, List, [], ◌∷◌, Bool, true, false, ◌&&◌, ◌||◌, ◌==◌, leb, if◌then◌else◌,
  Option, length,
}
use rust_wren.Result.{no_fuel, Result, ok, fault, ◌>>=◌}
use rust_wren.Lexer.Tokens.{
  TokenType, left_paren, right_paren, left_bracket, right_bracket, left_brace, right_brace, colon,
  dot, dotdot, dotdotdot, comma, star, slash, percent, hash, plus, minus, ltlt, gtgt, pipe,
  pipepipe, caret, amp, ampamp, bang, tilde, question, eq, lt, gt, lteq, gteq, eqeq, bangeq, field,
  static_field, name, line, error, eof, is_name, is_digit,
}
use rust_wren.Lexer.Cursor.{
  Parser, invalid_character, invalid_byte, lex_error, peek_char, peek_next_char, next_char,
  match_char, skip_while, make_token, two_char_token, skip_line_comment,
}
use rust_wren.Lexer.Words.{skip_block_comment, read_name, read_hex_number, read_number}
use rust_wren.Lexer.Strings.{read_string, read_raw_string}

-- The cases of the `switch`, those of one shape together.
pub data Case : Type 0 where
  one_char : TokenType → Case
  two_char : ℕ → TokenType → TokenType → Case
  shift_or_compare : ℕ → TokenType → TokenType → TokenType → Case
  open_paren close_paren hash_sign full_stop divide new_line blank quote underscore zero_digit :
      Case
  letter digit_char invalid : Case

-- The `switch` on a character.
unfoldable pub case_of : ℕ → Case
case_of c =
    if c == b'('
    then open_paren
    else if c == b')'
    then close_paren
    else if c == b'['
    then one_char left_bracket
    else if c == b']'
    then one_char right_bracket
    else if c == b'{'
    then one_char left_brace
    else if c == b'}'
    then one_char right_brace
    else if c == b':'
    then one_char colon
    else if c == b','
    then one_char comma
    else if c == b'*'
    then one_char star
    else if c == b'%'
    then one_char percent
    else if c == b'#'
    then hash_sign
    else if c == b'^'
    then one_char caret
    else if c == b'+'
    then one_char plus
    else if c == b'-'
    then one_char minus
    else if c == b'~'
    then one_char tilde
    else if c == b'?'
    then one_char question
    else if c == b'|'
    then two_char b'|' pipepipe pipe
    else if c == b'&'
    then two_char b'&' ampamp amp
    else if c == b'='
    then two_char b'=' eqeq eq
    else if c == b'!'
    then two_char b'=' bangeq bang
    else if c == b'.'
    then full_stop
    else if c == b'/'
    then divide
    else if c == b'<'
    then shift_or_compare b'<' ltlt lteq lt
    else if c == b'>'
    then shift_or_compare b'>' gtgt gteq gt
    else if c == b'\n'
    then new_line
    else if c == b' '
    then blank
    else if c == b'\r'
    then blank
    else if c == b'\t'
    then blank
    else if c == b'"'
    then quote
    else if c == b'_'
    then underscore
    else if c == b'0'
    then zero_digit
    else if is_name c
    then letter
    else if is_digit c
    then digit_char
    else invalid

-- What a round of the loop of `nextToken` comes to: another round, or a token.
pub data Step : Type 0 where
  again : Parser → Step
  done : Parser → Step

-- `parens[numParens - 1]++`, inside of an interpolation.
abbrev pub count_open : List ℕ → List ℕ
count_open [] = []
count_open (n ∷ parens) = (n + 1) ∷ parens

-- A `)` where the unmatched parentheses are as given.
unfoldable pub close_case : List ℕ → Parser → Result Parser
close_case [] p = ok (make_token p right_paren)
close_case (n ∷ parens) p =
    if n - 1 == 0
    then read_string (record p { parens = parens })
    else ok (make_token (record p { parens = (n - 1) ∷ parens }) right_paren)

-- The token of a character that begins none: its start, line and value stay as they were.
abbrev pub invalid_token : ℕ → Parser → Parser
invalid_token c p =
    let p' = lex_error p (if leb 32 c && leb c 126 then invalid_character else invalid_byte) in
    record p' { next = record p'.next { type = error; length = 0 } }

abbrev pub is_blank : ℕ → Bool
is_blank c = c == b' ' || c == b'\r' || c == b'\t'

-- `parser->tokenStart = parser->currentChar`.
abbrev pub start_token : Parser → Parser
start_token p = record p { token_start = length p.before; token_text = p.rest }

abbrev pub is_eof : TokenType → Bool
is_eof eof = true
is_eof type = false

module _ (parse_hex parse_decimal : List ℕ → Option ℕ) where
  -- The body of the `switch`.
  unfoldable pub scan_case : Case → ℕ → Parser → Result Step
  scan_case (one_char type) c p = ok (done (make_token p type))
  scan_case (two_char d two one) c p = two_char_token p d two one >>= λ p'. ok (done p')
  scan_case (shift_or_compare d shift two one) c p = do
    (matched, p') ← match_char p d
    p'' ← (if matched then ok (make_token p' shift) else two_char_token p' b'=' two one)
    ok (done p'')
  scan_case open_paren c p =
      ok (done (make_token (record p { parens = count_open p.parens }) left_paren))
  scan_case close_paren c p = close_case p.parens p >>= λ p'. ok (done p')
  scan_case hash_sign c p = do
    d ← peek_char p
    e ← peek_next_char p
    (if p.current_line == 1 && d == b'!' && e == b'/'
        then (skip_line_comment p >>= λ p'. ok (again p'))
        else ok (done (make_token p hash)))
  scan_case full_stop c p = do
    (matched, p') ← match_char p b'.'
    p'' ← (if matched then two_char_token p' b'.' dotdotdot dotdot else ok (make_token p' dot))
    ok (done p'')
  scan_case divide c p = do
    (is_line, p') ← match_char p b'/'
    (is_block, p'') ← (if is_line then ok (false, p') else match_char p' b'*')
    (if is_line
        then (skip_line_comment p'' >>= λ q. ok (again q))
        else if is_block
        then (skip_block_comment p'' >>= λ q. ok (again q))
        else ok (done (make_token p'' slash)))
  scan_case new_line c p = ok (done (make_token p line))
  scan_case blank c p = skip_while is_blank (suc (length p.rest)) p >>= λ p'. ok (again p')
  scan_case quote c p = do
    d ← peek_char p
    e ← peek_next_char p
    p' ← (if d == b'"' && e == b'"' then read_raw_string p else read_string p)
    ok (done p')
  scan_case underscore c p = do
    d ← peek_char p
    p' ← read_name p (if d == b'_' then static_field else field) c
    ok (done p')
  scan_case zero_digit c p = do
    d ← peek_char p
    p' ←
        (if d == b'x'
          then read_hex_number parse_hex parse_decimal p
          else read_number parse_hex parse_decimal p)
    ok (done p')
  scan_case letter c p = read_name p name c >>= λ p'. ok (done p')
  scan_case digit_char c p = read_number parse_hex parse_decimal p >>= λ p'. ok (done p')
  scan_case invalid c p = ok (done (invalid_token c p))

  -- The body of the loop of `nextToken`.
  unfoldable pub scan_round : Parser → Result Step
  scan_round p = do (c, p') ← next_char (start_token p); scan_case (case_of c) c p'

  -- The loop of `nextToken` and what follows it, on fuel.
  unfoldable pub scan_from : ℕ → Parser → Result Parser
  scan_from zero p = fault no_fuel
  scan_from (suc fuel) p = do
    c ← peek_char p
    elim (c == 0) [
      | true ↦ ok (make_token (start_token p) eof)
      | false ↦ do step ← scan_round p; elim step [ again p' ↦ scan_from fuel p' | done p' ↦ ok p' ]
    ]

  -- `nextToken`.
  unfoldable pub next_token : Parser → Result Parser
  next_token p =
      let p' = record p { previous = p.current; current = p.next } in
      if is_eof p.next.type then ok p' else scan_from (suc (length p.rest)) p'
