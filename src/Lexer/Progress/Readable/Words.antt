-- ===== src/Lexer/Progress/Readable/Words.antt =====
-- wren_compiler.c, lines 697 to 846: comments, numbers and names.
use rust_wren.Base.{
  ℕ, zero, suc, ◌≡◌, ◌≢◌, refl, ap, List, [], ◌∷◌, ◌++◌, Bool, true, false, ◌&&◌, ◌==◌, inl, inr,
  arith, ◌∙◌, length, Bool-cases, if◌then◌else◌, Option, none, some,
}
use rust_wren.Result.{ok, Safely, >>=-Safely}
use rust_wren.Lexer.Tokens.{TokenType, is_name, is_digit, hex_value}
use rust_wren.Lexer.Cursor.{
  Parser, lex_error, unterminated_exponent, peek_char, peek_next_char, next_char, back, match_char,
}
use rust_wren.Lexer.Words.{
  in_name, next_two, comment_case, comment_round, skip_comment, skip_block_comment, keep_digit,
  read_hex_digit, skip_hex_digits, skip_digits, read_exponent, read_fraction, read_name_chars,
  read_name, make_number, set_number, read_hex_number, read_number,
}
use rust_wren.Lexer.Progress.Readable.{
  Readable, behind, Readable-behind, peek_char-Safely, peek_next_char-Safely, Passes,
  next_char-Safely, next_char-Readable, next_char-rest, back-Readable, match_char-Safely,
  skip_while-Safely,
}

-- Two characters that are known not to be the terminator.
next_two-Safely :
    (p : Parser)
    → Readable p.rest
    → Readable (behind p.rest)
    → Readable (behind (behind p.rest))
    → Safely (λ q. Readable q.rest) (next_two p)
next_two-Safely p h k l =
    >>=-Safely (λ q. Readable q.rest) (next_char p) _ (next_char-Readable p h k)
      (λ s (r, e).
        let last : Readable (behind s.1.rest) = rw e l in
        >>=-Safely (λ q. Readable q.rest) (next_char s.1) _ (next_char-rest s.1 r last)
          (λ t r'. r'))

comment_case-Safely :
    (c d nesting : ℕ) (p : Parser)
    → Readable p.rest
    → (c ≢ 0 → Readable (behind p.rest))
    → (d ≢ 0 → Readable (behind (behind p.rest)))
    → Safely (λ s. Readable s.1.rest) (comment_case c d nesting p)
unfolding comment_case
comment_case-Safely c d nesting p h k l = elim (Bool-cases (c == 0)) [
  | inl t ↦ rw t h
  | inr t ↦
      let nonzero : c ≢ 0 = ground arith in
      elim (Bool-cases (c == b'/' && d == b'*')) [
        | inl open_ ↦
            let second : d ≢ 0 = ground arith in
            rw (t, open_)
              (>>=-Safely (λ s. Readable s.1.rest) (next_two p) _
                (next_two-Safely p h (k nonzero) (l second)) (λ q r. r))
        | inr open_ ↦ elim (Bool-cases (c == b'*' && d == b'/')) [
          | inl close ↦
              let second : d ≢ 0 = ground arith in
              rw (t, open_, close)
                (>>=-Safely (λ s. Readable s.1.rest) (next_two p) _
                  (next_two-Safely p h (k nonzero) (l second)) (λ q r. r))
          | inr close ↦
              rw (t, open_, close)
                (>>=-Safely (λ s. Readable s.1.rest) (next_char p) _
                  (next_char-rest p h (k nonzero)) (λ s r. r))
        ]
      ]
]

skip_comment-Safely :
    (fuel nesting : ℕ) (p : Parser)
    → Readable p.rest
    → Safely (λ q. Readable q.rest) (skip_comment fuel nesting p)
unfolding skip_comment comment_round
skip_comment-Safely zero zero p h = h
skip_comment-Safely (suc fuel) zero p h = h
skip_comment-Safely zero (suc nesting) p h = tt
skip_comment-Safely (suc fuel) (suc nesting) p h =
    >>=-Safely (λ q. Readable q.rest) (comment_round (suc nesting) p) _
      (>>=-Safely (λ s. Readable s.1.rest) (peek_char p) _ (peek_char-Safely p h)
        (λ c k.
          >>=-Safely (λ s. Readable s.1.rest) (peek_next_char p) _ (peek_next_char-Safely p h)
            (λ d l. comment_case-Safely c d (suc nesting) p h k l)))
      (λ s r. skip_comment-Safely fuel s.0 s.1 r)

pub skip_block_comment-Safely :
    (p : Parser) → Readable p.rest → Safely (λ q. Readable q.rest) (skip_block_comment p)
unfolding skip_block_comment
skip_block_comment-Safely p h = skip_comment-Safely (suc (length p.rest)) 1 p h

keep_digit-Safely :
    (o : Option ℕ) (p q : Parser) (c : ℕ)
    → o ≡ hex_value c
    → Readable p.rest
    → Passes p (c, q)
    → Safely (λ s. Readable s.1.rest) (keep_digit o q)
unfolding hex_value
keep_digit-Safely (some digit) p q c is h (e, b) =
    let nonzero : c ≢ 0 =
      λ z. let none_there : some digit ≡ none = is ∙ ap hex_value z in absurd cc in
    Readable-behind c q.rest (rw e at h) nonzero
keep_digit-Safely none p q c is h (e, b) =
    >>=-Safely (λ s. Readable s.1.rest) (back q) _ (back-Readable p q c h e b) (λ r k. k)

read_hex_digit-Safely :
    (p : Parser) → Readable p.rest → Safely (λ s. Readable s.1.rest) (read_hex_digit p)
unfolding read_hex_digit
read_hex_digit-Safely p h =
    >>=-Safely (λ s. Readable s.1.rest) (next_char p) _ (next_char-Safely p h)
      (λ s passes. keep_digit-Safely (hex_value s.0) p s.1 s.0 refl h passes)

skip_hex_digits-Safely :
    (fuel : ℕ) (p : Parser)
    → Readable p.rest
    → Safely (λ q. Readable q.rest) (skip_hex_digits fuel p)
unfolding skip_hex_digits
skip_hex_digits-Safely zero p h = tt
skip_hex_digits-Safely (suc fuel) p h =
    >>=-Safely (λ q. Readable q.rest) (read_hex_digit p) _ (read_hex_digit-Safely p h)
      (more fuel (skip_hex_digits-Safely fuel))
  where
    more :
        (fuel : ℕ)
        → ((q : Parser) → Readable q.rest → Safely (λ r. Readable r.rest) (skip_hex_digits fuel q))
        → (s : Option ℕ × Parser) → Readable s.1.rest
        → Safely
            (λ (r : Parser). Readable r.rest)
            (elim s.0 [ none ↦ ok s.1 | some digit ↦ skip_hex_digits fuel s.1 ])
    more fuel ih (none, q) h = h
    more fuel ih (some digit, q) h = ih q h

skip_digits-Safely : (p : Parser) → Readable p.rest → Safely (λ q. Readable q.rest) (skip_digits p)
unfolding is_digit
skip_digits-Safely p h = skip_while-Safely is_digit (suc (length p.rest)) p refl h

read_exponent-Safely :
    (p : Parser) → Readable p.rest → Safely (λ q. Readable q.rest) (read_exponent p)
unfolding read_exponent
read_exponent-Safely p h =
    >>=-Safely (λ (q : Parser). Readable q.rest) (match_char p b'+') _
      (match_char-Safely p b'+' (omega arith) h)
      (λ plus k.
        >>=-Safely {Good = λ (s : Bool × Parser). Readable s.1.rest}
          (λ (q : Parser). Readable q.rest) _ _ (sign plus k)
          (λ s l.
            >>=-Safely (λ (q : Parser). Readable q.rest) (peek_char s.1) _ (peek_char-Safely s.1 l)
              (λ c _. digits s.1 (is_digit c) l)))
  where
    sign :
        (plus : Bool × Parser)
        → Readable plus.1.rest
        → Safely (λ s. Readable s.1.rest) (if plus.0 then ok plus else match_char plus.1 b'-')
    sign (true, q) h = h
    sign (false, q) h = match_char-Safely q b'-' (omega arith) h

    digits :
        (q : Parser) (b : Bool)
        → Readable q.rest
        → Safely
            (λ r. Readable r.rest)
            (skip_digits (if b then q else lex_error q unterminated_exponent))
    digits q true h = skip_digits-Safely q h
    digits q false h = skip_digits-Safely (lex_error q unterminated_exponent) h

read_fraction-Safely :
    (p : Parser) → Readable p.rest → Safely (λ q. Readable q.rest) (read_fraction p)
unfolding read_fraction
read_fraction-Safely p h =
    >>=-Safely (λ (q : Parser). Readable q.rest) (peek_char p) _ (peek_char-Safely p h)
      (λ c k.
        >>=-Safely (λ (q : Parser). Readable q.rest) (peek_next_char p) _
          (peek_next_char-Safely p h)
          (λ d _. elim (Bool-cases (c == b'.' && is_digit d)) [
            | inl t ↦
                let nonzero : c ≢ 0 = ground arith in
                rw t (
                  >>=-Safely (λ (q : Parser). Readable q.rest) (next_char p) _
                    (next_char-rest p h (k nonzero)) (λ s r. skip_digits-Safely s.1 r))
            | inr t ↦ rw t h
          ]))

in_name-zero : in_name 0 ≡ false
unfolding in_name is_name is_digit
in_name-zero = refl

read_name_chars-Safely :
    (fuel : ℕ) (p : Parser) (buffer : List ℕ)
    → Readable p.rest
    → Safely (λ s. Readable s.1.rest) (read_name_chars fuel p buffer)
unfolding read_name_chars
read_name_chars-Safely zero p buffer h = tt
read_name_chars-Safely (suc fuel) p buffer h =
    >>=-Safely (λ s. Readable s.1.rest) (peek_char p) _ (peek_char-Safely p h)
      (λ c k. elim (Bool-cases (in_name c)) [
        | inl t ↦
            let ends = in_name-zero in
            let nonzero : c ≢ 0 = λ e. absurd cc in
            rw t (
              >>=-Safely (λ s. Readable s.1.rest) (next_char p) _ (next_char-rest p h (k nonzero))
                (λ s r. read_name_chars-Safely fuel s.1 (buffer ++ s.0 ∷ []) r))
        | inr t ↦ rw t h
      ])

pub read_name-Safely :
    (p : Parser) (type : TokenType) (c : ℕ)
    → Readable p.rest
    → Safely (λ q. Readable q.rest) (read_name p type c)
unfolding read_name
read_name-Safely p type c h =
    >>=-Safely (λ (q : Parser). Readable q.rest) (read_name_chars (suc (length p.rest)) p (c ∷ []))
      _ (read_name_chars-Safely (suc (length p.rest)) p (c ∷ []) h) (λ s r. r)

module _ (parse_hex parse_decimal : List ℕ → Option ℕ) where
  set_number-rest :
      (p : Parser) (o : Option ℕ) → (set_number parse_hex parse_decimal p o).rest ≡ p.rest
  set_number-rest p (some value) = refl
  set_number-rest p none = refl

  make_number-Readable :
      (p : Parser) (b : Bool)
      → Readable p.rest
      → Readable (make_number parse_hex parse_decimal p b).rest
  unfolding make_number
  make_number-Readable p true h = rw (set_number-rest p (parse_hex p.token_text)) h
  make_number-Readable p false h = rw (set_number-rest p (parse_decimal p.token_text)) h

  pub read_hex_number-Safely :
      (p : Parser)
      → Readable p.rest
      → Readable (behind p.rest)
      → Safely (λ q. Readable q.rest) (read_hex_number parse_hex parse_decimal p)
  unfolding read_hex_number
  read_hex_number-Safely p h k =
      >>=-Safely (λ (q : Parser). Readable q.rest) (next_char p) _ (next_char-rest p h k)
        (λ s r.
          >>=-Safely (λ (q : Parser). Readable q.rest) (skip_hex_digits (suc (length s.1.rest)) s.1)
            _ (skip_hex_digits-Safely (suc (length s.1.rest)) s.1 r)
            (λ q l. make_number-Readable q true l))

  pub read_number-Safely :
      (p : Parser)
      → Readable p.rest
      → Safely (λ q. Readable q.rest) (read_number parse_hex parse_decimal p)
  unfolding read_number
  read_number-Safely p h =
      >>=-Safely (λ (q : Parser). Readable q.rest) (skip_digits p) _ (skip_digits-Safely p h)
        (λ whole r.
          >>=-Safely (λ (q : Parser). Readable q.rest) (read_fraction whole) _
            (read_fraction-Safely whole r)
            (λ q k.
              >>=-Safely (λ (q : Parser). Readable q.rest) (match_char q b'e') _
                (match_char-Safely q b'e' (omega arith) k)
                (λ small l.
                  >>=-Safely (λ (q : Parser). Readable q.rest) _ _ (large small l)
                    (λ s m.
                      >>=-Safely (λ (q : Parser). Readable q.rest) _ _ (exponent s m)
                        (λ q n. make_number-Readable q false n)))))
    where
      large :
          (s : Bool × Parser)
          → Readable s.1.rest
          → Safely (λ t. Readable t.1.rest) (if s.0 then ok s else match_char s.1 b'E')
      large (true, q) h = h
      large (false, q) h = match_char-Safely q b'E' (omega arith) h

      exponent :
          (s : Bool × Parser)
          → Readable s.1.rest
          → Safely (λ q. Readable q.rest) (if s.0 then read_exponent s.1 else ok s.1)
      exponent (true, q) h = read_exponent-Safely q h
      exponent (false, q) h = h
