-- ===== src/Lexer/Progress/Words.antt =====
-- wren_compiler.c, lines 697 to 846: comments, numbers and names.
use rust_wren.Base.{
  ℕ, zero, suc, ◌<◌, ◌≡◌, ◌≢◌, refl, List, [], ◌∷◌, ◌++◌, Bool, true, false, ◌&&◌, ◌==◌, inl, inr,
  arith, length, Bool-cases, if◌then◌else◌, Option, none, some,
}
use rust_wren.Result.{ok, ◌>>=◌, Ends, >>=-Ends, Ends-map}
use rust_wren.Lexer.Tokens.{TokenType, is_digit, hex_value}
use rust_wren.Lexer.Cursor.{
  Parser, lex_error, unterminated_exponent, peek_char, peek_next_char, next_char, back, match_char,
}
use rust_wren.Lexer.Words.{
  in_name, next_two, comment_case, comment_round, skip_comment, skip_block_comment, keep_digit,
  read_hex_digit, skip_hex_digits, skip_digits, read_exponent, read_fraction, read_name_chars,
  read_name, make_number, set_number, read_hex_number, read_number,
}
use rust_wren.Lexer.Progress.{
  Keeps, Onward, Forward, Keeps-trans, Onward-refl, Onward-trans, Forward-Onward, Forward-trans,
  Ends-Onward, >>=-Onward, peek_char-Ends, peek_next_char-Ends, next_char-Ends, next_char-Forward,
  next_char-Onward, back-Ends, match_char-Ends, skip_all-Ends,
}

pub next_two-Forward : (p : Parser) → Ends (Forward p) (next_two p)
next_two-Forward p = >>=-Ends (Forward p) (next_char p) _ (next_char-Forward p) (λ s f.
    >>=-Ends (Forward p) (next_char s.1) _ (next_char-Onward s.1)
      (λ t o. Forward-trans p s.1 t.1 f o))

-- A round of a block comment moves on, or is the last one.
comment_case-Ends :
    (c d nesting : ℕ) (p : Parser)
    → Ends
        (λ s. Onward p s.1 × (s.0 ≢ 0 → length s.1.rest < length p.rest))
        (comment_case c d nesting p)
unfolding comment_case
comment_case-Ends c d nesting p = elim (Bool-cases (c == 0)) [
  | inl t ↦ rw t (Onward-refl p, λ ne. absurd (ne refl))
  | inr t ↦ elim (Bool-cases (c == b'/' && d == b'*')) [
    | inl open_ ↦
        rw (t, open_)
          (>>=-Ends _ (next_two p) _ (next_two-Forward p) (λ q f. (Forward-Onward p q f, λ _. f.1)))
    | inr open_ ↦ elim (Bool-cases (c == b'*' && d == b'/')) [
      | inl close ↦
          rw (t, open_, close)
            (>>=-Ends _ (next_two p) _ (next_two-Forward p)
              (λ q f. (Forward-Onward p q f, λ _. f.1)))
      | inr close ↦
          rw (t, open_, close)
            (>>=-Ends _ (next_char p) _ (next_char-Forward p)
              (λ s f. (Forward-Onward p s.1 f, λ _. f.1)))
    ]
  ]
]

comment_round-Ends :
    (nesting : ℕ) (p : Parser)
    → Ends
        (λ s. Onward p s.1 × (s.0 ≢ 0 → length s.1.rest < length p.rest))
        (comment_round nesting p)
unfolding comment_round
comment_round-Ends nesting p = >>=-Ends _ (peek_char p) _ (peek_char-Ends p) (λ c _.
    >>=-Ends _ (peek_next_char p) _ (peek_next_char-Ends p)
      (λ d _. comment_case-Ends c d nesting p))

skip_comment-Ends :
    (fuel nesting : ℕ) (p : Parser)
    → (nesting ≢ 0 → length p.rest < fuel)
    → Ends (Onward p) (skip_comment fuel nesting p)
unfolding skip_comment
skip_comment-Ends zero zero p h = Onward-refl p
skip_comment-Ends (suc fuel) zero p h = Onward-refl p
skip_comment-Ends zero (suc nesting) p h = absurd (omega (arith, h (λ e. omega arith)))
skip_comment-Ends (suc fuel) (suc nesting) p h =
    let enough = h (λ e. omega arith) in
    >>=-Ends (Onward p) (comment_round (suc nesting) p) _ (comment_round-Ends (suc nesting) p)
      (λ s k. Ends-Onward p s.1 (skip_comment fuel s.0 s.1) k.0 (
        skip_comment-Ends fuel s.0 s.1 (λ ne.
          let shorter : length s.1.rest < length p.rest = k.1 ne in
          omega (arith, shorter, enough))))

pub skip_block_comment-Ends : (p : Parser) → Ends (Onward p) (skip_block_comment p)
unfolding skip_block_comment
skip_block_comment-Ends p = skip_comment-Ends (suc (length p.rest)) 1 p (λ _. omega arith)

-- A digit is read, or nothing but the line has changed.
keep_digit-Ends :
    (o : Option ℕ) (p q : Parser)
    → Keeps p q
    → length p.rest ≡ suc (length q.rest)
    → Ends (λ s. Onward p s.1 × (s.0 ≢ none → length s.1.rest < length p.rest)) (keep_digit o q)
keep_digit-Ends (some digit) p q k e = ((k, omega (arith, e)), λ _. omega (arith, e))
keep_digit-Ends none p q k e =
    >>=-Ends _ (back q) _ (back-Ends q)
      (λ r (k', e'). ((Keeps-trans p q r k k', omega (arith, e, e')), λ ne. absurd (ne refl)))

pub read_hex_digit-Ends :
    (p : Parser)
    → Ends (λ s. Onward p s.1 × (s.0 ≢ none → length s.1.rest < length p.rest)) (read_hex_digit p)
unfolding read_hex_digit
read_hex_digit-Ends p =
    >>=-Ends _ (next_char p) _ (next_char-Ends p)
      (λ s (k, e). keep_digit-Ends (hex_value s.0) p s.1 k e)

skip_hex_digits-Ends :
    (fuel : ℕ) (p : Parser) → length p.rest < fuel → Ends (Onward p) (skip_hex_digits fuel p)
unfolding skip_hex_digits
skip_hex_digits-Ends zero p h = absurd (omega arith)
skip_hex_digits-Ends (suc fuel) p h =
    >>=-Ends (Onward p) (read_hex_digit p) _ (read_hex_digit-Ends p)
      (more fuel p h (skip_hex_digits-Ends fuel))
  where
    more :
        (fuel : ℕ) (p : Parser)
        → length p.rest < suc fuel
        → ((q : Parser) → length q.rest < fuel → Ends (Onward q) (skip_hex_digits fuel q))
        → (s : Option ℕ × Parser) → (Onward p s.1 × (s.0 ≢ none → length s.1.rest < length p.rest))
        → Ends (Onward p) (elim s.0 [ none ↦ ok s.1 | some digit ↦ skip_hex_digits fuel s.1 ])
    more fuel p h ih (none, q) (o, less) = o
    more fuel p h ih (some digit, q) (o, less) =
        let shorter : length q.rest < length p.rest = less (λ e. cc) in
        Ends-Onward p q (skip_hex_digits fuel q) o (ih q (omega (arith, shorter, h)))

pub read_exponent-Ends : (p : Parser) → Ends (Onward p) (read_exponent p)
unfolding read_exponent
read_exponent-Ends p =
    >>=-Onward p (λ s. s.1) (λ q. q) (match_char p b'+') _ (match_char-Ends p b'+')
      (λ plus.
        >>=-Onward plus.1 (λ s. s.1) (λ q. q) _ _ (sign plus)
          (λ s.
            >>=-Ends (Onward s.1) (peek_char s.1) _ (peek_char-Ends s.1)
              (λ c _. digits s.1 (is_digit c))))
  where
    sign :
        (plus : Bool × Parser)
        → Ends (λ s. Onward plus.1 s.1) (if plus.0 then ok plus else match_char plus.1 b'-')
    sign (true, q) = Onward-refl q
    sign (false, q) = match_char-Ends q b'-'

    digits :
        (q : Parser) (b : Bool)
        → Ends (Onward q) (skip_digits (if b then q else lex_error q unterminated_exponent))
    digits q true = skip_all-Ends is_digit q
    digits q false = skip_all-Ends is_digit (lex_error q unterminated_exponent)

pub read_fraction-Ends : (p : Parser) → Ends (Onward p) (read_fraction p)
unfolding read_fraction
read_fraction-Ends p = >>=-Ends (Onward p) (peek_char p) _ (peek_char-Ends p) (λ c _.
    >>=-Ends (Onward p) (peek_next_char p) _ (peek_next_char-Ends p)
      (λ d _. digits (c == b'.' && is_digit d)))
  where
    digits :
        (b : Bool)
        → Ends (Onward p) (if b then (next_char p >>= λ step. skip_digits step.1) else ok p)
    digits true =
        >>=-Onward p (λ s. s.1) (λ q. q) (next_char p) _ (next_char-Onward p)
          (λ s. skip_all-Ends is_digit s.1)
    digits false = Onward-refl p

read_name_chars-Ends :
    (fuel : ℕ) (p : Parser) (buffer : List ℕ)
    → length p.rest < fuel
    → Ends (λ s. Onward p s.1) (read_name_chars fuel p buffer)
unfolding read_name_chars
read_name_chars-Ends zero p buffer h = absurd (omega arith)
read_name_chars-Ends (suc fuel) p buffer h =
    >>=-Ends (λ s. Onward p s.1) (peek_char p) _ (peek_char-Ends p)
      (λ c _. elim (Bool-cases (in_name c)) [
        | inl t ↦ rw t (
            >>=-Ends (λ s. Onward p s.1) (next_char p) _ (next_char-Forward p)
              (λ s f.
                let shorter : length s.1.rest < length p.rest = f.1 in
                Ends-map (λ r. Onward p r.1) (read_name_chars fuel s.1 (buffer ++ s.0 ∷ []))
                  (read_name_chars-Ends fuel s.1 (buffer ++ s.0 ∷ []) (omega (arith, shorter, h)))
                  (λ r o. Onward-trans p s.1 r.1 (Forward-Onward p s.1 f) o)))
        | inr t ↦ rw t (Onward-refl p)
      ])

pub read_name-Ends : (p : Parser) (type : TokenType) (c : ℕ) → Ends (Onward p) (read_name p type c)
unfolding read_name
read_name-Ends p type c =
    >>=-Ends (Onward p) (read_name_chars (suc (length p.rest)) p (c ∷ [])) _
      (read_name_chars-Ends (suc (length p.rest)) p (c ∷ []) (omega arith)) (λ s o. o)

module _ (parse_hex parse_decimal : List ℕ → Option ℕ) where
  set_number-Onward :
      (p : Parser) (o : Option ℕ) → Onward p (set_number parse_hex parse_decimal p o)
  set_number-Onward p (some value) = Onward-refl p
  set_number-Onward p none = Onward-refl p

  make_number-Onward : (p : Parser) (b : Bool) → Onward p (make_number parse_hex parse_decimal p b)
  unfolding make_number
  make_number-Onward p true = set_number-Onward p (parse_hex p.token_text)
  make_number-Onward p false = set_number-Onward p (parse_decimal p.token_text)

  pub read_hex_number-Ends :
      (p : Parser) → Ends (Onward p) (read_hex_number parse_hex parse_decimal p)
  unfolding read_hex_number
  read_hex_number-Ends p =
      >>=-Onward p (λ s. s.1) (λ q. q) (next_char p) _ (next_char-Onward p)
        (λ s.
          >>=-Onward s.1 (λ q. q) (λ q. q) (skip_hex_digits (suc (length s.1.rest)) s.1) _
            (skip_hex_digits-Ends (suc (length s.1.rest)) s.1 (omega arith))
            (λ q. make_number-Onward q true))

  pub read_number-Ends : (p : Parser) → Ends (Onward p) (read_number parse_hex parse_decimal p)
  unfolding read_number
  read_number-Ends p =
      >>=-Onward p (λ q. q) (λ q. q) (skip_digits p) _ (skip_all-Ends is_digit p)
        (λ whole.
          >>=-Onward whole (λ q. q) (λ q. q) (read_fraction whole) _ (read_fraction-Ends whole)
            (λ q.
              >>=-Onward q (λ s. s.1) (λ q. q) (match_char q b'e') _ (match_char-Ends q b'e')
                (λ small.
                  >>=-Onward small.1 (λ s. s.1) (λ q. q) _ _ (large small)
                    (λ s.
                      >>=-Onward s.1 (λ q. q) (λ q. q) _ _ (exponent s)
                        (λ q. make_number-Onward q false)))))
    where
      large :
          (s : Bool × Parser)
          → Ends (λ t. Onward s.1 t.1) (if s.0 then ok s else match_char s.1 b'E')
      large (true, q) = Onward-refl q
      large (false, q) = match_char-Ends q b'E'

      exponent : (s : Bool × Parser) → Ends (Onward s.1) (if s.0 then read_exponent s.1 else ok s.1)
      exponent (true, q) = read_exponent-Ends q
      exponent (false, q) = Onward-refl q
