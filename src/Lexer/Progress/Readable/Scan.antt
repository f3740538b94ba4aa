-- ===== src/Lexer/Progress/Readable/Scan.antt =====
-- wren_compiler.c, lines 848 to 1235: string literals and `nextToken`.
use mathlib.Core.Path.{subst}
use rust_wren.Base.{
  ℕ, zero, suc, ◌-◌, ◌≡◌, ◌≢◌, refl, ap, List, [], ◌∷◌, Bool, true, false, ◌&&◌, ◌==◌, inl, inr,
  arith, length, Bool-cases, if◌then◌else◌, Option, none, some, ltb,
}
use rust_wren.Result.{Result, ok, ◌>>=◌, Safely, >>=-Safely, Ends-Safely}
use rust_wren.Lexer.Tokens.{TokenType, slash, dot, dotdot, dotdotdot, static_field, field, name}
use rust_wren.Lexer.Cursor.{
  Parser, lex_error, unterminated_string, peek, peek_after, peek_char, peek_next_char, next_char,
  back, match_char, make_token, two_char_token, skip_line_comment,
}
use rust_wren.Lexer.Words.{skip_block_comment, read_name, read_hex_number, read_number}
use rust_wren.Lexer.Strings.{
  max_interpolation_nesting, simple_escape, escape_by, read_escape, Round, ended, more,
  open_interpolation, string_case, read_string_from, read_string,
}
use rust_wren.Lexer.Scan.{
  Case, one_char, two_char, shift_or_compare, open_paren, close_paren, hash_sign, full_stop, divide,
  new_line, blank, quote, underscore, zero_digit, letter, digit_char, invalid, case_of, Step, again,
  done, close_case, is_blank, scan_case, start_token, is_eof, scan_round, scan_from, next_token,
}
use rust_wren.Lexer.Progress.Scan.{parser, Scans, next_token-Ends}
use rust_wren.Lexer.Progress.Readable.{
  IsShort, Readable, behind, Readable-behind, Readable-IsShort, Readable-sign, peek_char-Safely,
  peek_next_char-Safely, next_char-Safely, next_char-rest, back-Readable, match_char-Safely,
  skip_while-Safely, two_char_token-Safely, skip_line_comment-Safely,
}
use rust_wren.Lexer.Progress.Readable.Words.{
  skip_block_comment-Safely, read_name-Safely, read_hex_number-Safely, read_number-Safely,
}

-- The parser of a round of a string.
abbrev reader : Round → Parser
reader (ended p buffer type) = p
reader (more p buffer) = p

open_interpolation-Safely :
    (p : Parser) (buffer : List ℕ) (rest : List ℕ)
    → rest ≡ p.rest
    → Readable (b'%' ∷ rest)
    → Safely (λ r. Readable (reader r).rest) (open_interpolation p buffer)
unfolding open_interpolation
open_interpolation-Safely p buffer [] same h = absurd (omega (arith, h))
open_interpolation-Safely p buffer (d ∷ rest) same h =
    let nonzero : d ≢ 0 = Readable-sign b'%' d rest h refl in
    let inside : Readable (d ∷ rest) = Readable-behind b'%' (d ∷ rest) h (omega arith) in
    let here : Readable p.rest = subst (λ (l : List ℕ). Readable l) same inside in
    let there : Readable (behind p.rest) = rw (← same) (Readable-behind d rest inside nonzero) in
    >>=-Safely (λ r. Readable (reader r).rest) (next_char p) _ (next_char-rest p here there)
      (λ s k. elim (Bool-cases (s.0 == b'(')) [ inl t ↦ rw t k | inr t ↦ rw t k ])

escape_by-Safely :
    (o : Option ℕ) (c : ℕ) (p : Parser) (buffer : List ℕ)
    → IsShort c
    → Readable p.rest
    → Safely (λ s. Readable s.1.rest) (escape_by o c p buffer)
escape_by-Safely (some b) c p buffer short h = h
escape_by-Safely none c p buffer (there, not_x, not_u, not_upper) h =
    let u : (c == b'u') ≡ false = ground arith in
    let upper : (c == b'U') ≡ false = ground arith in
    let x : (c == b'x') ≡ false = ground arith in rw (u, upper, x) h

read_escape-Safely :
    (p : Parser) (buffer : List ℕ)
    → Readable (b'\\' ∷ p.rest)
    → Readable p.rest
    → Safely (λ s. Readable s.1.rest) (read_escape p buffer)
unfolding read_escape
read_escape-Safely p buffer whole h =
    >>=-Safely (λ s. Readable s.1.rest) (next_char p) _ (next_char-Safely p h)
      (λ (c, q) (e, b).
        let there : Readable (b'\\' ∷ c ∷ q.rest) =
          subst (λ (l : List ℕ). Readable (b'\\' ∷ l)) e whole in
        let short : IsShort c = Readable-IsShort b'\\' c q.rest there refl in
        let inside = Readable-behind b'\\' (c ∷ q.rest) there (omega arith) in
        escape_by-Safely (simple_escape c) c q buffer short
          (Readable-behind c q.rest inside short.0))

string_case-Safely :
    (c : ℕ) (p q : Parser) (buffer : List ℕ)
    → Readable p.rest
    → p.rest ≡ c ∷ q.rest
    → q.before ≡ c ∷ p.before
    → Safely (λ r. Readable (reader r).rest) (string_case c q buffer)
unfolding string_case
string_case-Safely c p q buffer h e b =
    let here : Readable (c ∷ q.rest) = rw e at h in
    let onward = Readable-behind c q.rest here in
    elim (Bool-cases (c == b'"')) [
      | inl t ↦ rw t (onward (ground arith))
      | inr t ↦ elim (Bool-cases (c == 0)) [
        | inl z ↦
            rw (t, z)
              (>>=-Safely (λ r. Readable (reader r).rest) (back (lex_error q unterminated_string)) _
                (back-Readable p (lex_error q unterminated_string) c h e b) (λ r k. k))
        | inr z ↦
            let nonzero : c ≢ 0 = ground arith in
            elim (Bool-cases (c == b'%' && ltb (length q.parens) max_interpolation_nesting)) [
              | inl o ↦
                  let sign : c ≡ b'%' = ground arith in
                  rw (t, z, o)
                    (open_interpolation-Safely q buffer q.rest refl
                      (subst (λ (d : ℕ). Readable (d ∷ q.rest)) sign here))
              | inr o ↦ elim (Bool-cases (c == b'%')) [
                | inl d ↦ rw (t, z, o, d) (onward nonzero)
                | inr d ↦ elim (Bool-cases (c == b'\\')) [
                  | inl s ↦
                      let slash : c ≡ b'\\' = ground arith in
                      let whole = subst (λ (d : ℕ). Readable (d ∷ q.rest)) slash here in
                      rw (t, z, o, d, s)
                        (>>=-Safely (λ r. Readable (reader r).rest) (read_escape q buffer) _
                          (read_escape-Safely q buffer whole (onward nonzero)) (λ r k. k))
                  | inr s ↦ rw (t, z, o, d, s) (onward nonzero)
                ]
              ]
            ]
      ]
    ]

read_string_from-Safely :
    (fuel : ℕ) (p : Parser) (buffer : List ℕ)
    → Readable p.rest
    → Safely (λ s. Readable s.0.rest) (read_string_from fuel p buffer)
unfolding read_string_from
read_string_from-Safely zero p buffer h = tt
read_string_from-Safely (suc fuel) p buffer h =
    >>=-Safely (λ s. Readable s.0.rest) (next_char p) _ (next_char-Safely p h)
      (λ (c, q) (e, b).
        >>=-Safely (λ s. Readable s.0.rest) (string_case c q buffer) _
          (string_case-Safely c p q buffer h e b) (rounds fuel (read_string_from-Safely fuel)))
  where
    rounds :
        (fuel : ℕ)
        → ((q : Parser) (buffer : List ℕ)
            → Readable q.rest
            → Safely (λ s. Readable s.0.rest) (read_string_from fuel q buffer))
        → (r : Round) → Readable (reader r).rest
        → Safely
            (λ (s : Parser × List ℕ × TokenType). Readable s.0.rest)
            (elim r [
              | ended p'' buffer' type ↦ ok (p'', buffer', type)
              | more p'' buffer' ↦ read_string_from fuel p'' buffer'
            ])
    rounds fuel ih (ended r b t) h = h
    rounds fuel ih (more r b) h = ih r b h

read_string-Safely : (p : Parser) → Readable p.rest → Safely (λ q. Readable q.rest) (read_string p)
unfolding read_string
read_string-Safely p h =
    >>=-Safely (λ q. Readable q.rest) (read_string_from (suc (length p.rest)) p []) _
      (read_string_from-Safely (suc (length p.rest)) p [] h) (λ (q, buffer, type) r. r)

close_case-Safely :
    (parens : List ℕ) (p : Parser)
    → Readable p.rest
    → Safely (λ q. Readable q.rest) (close_case parens p)
unfolding close_case
close_case-Safely [] p h = h
close_case-Safely (n ∷ parens) p h = elim (Bool-cases (n - 1 == 0)) [
  | inl t ↦ rw t (read_string-Safely (record p { parens = parens }) h)
  | inr t ↦ rw t h
]

-- Only a quotation mark begins a string.
case_of-quote : (c : ℕ) → case_of c ≡ quote → c ≡ b'"'
unfolding case_of
case_of-quote c e = ground arith

then_again :
    (r : Result Parser)
    → Safely (λ q. Readable q.rest) r
    → Safely (λ s. Readable (parser s).rest) (r >>= λ q. ok (again q))
then_again r h = >>=-Safely (λ s. Readable (parser s).rest) r _ h (λ q k. k)

then_done :
    (r : Result Parser)
    → Safely (λ q. Readable q.rest) r
    → Safely (λ s. Readable (parser s).rest) (r >>= λ q. ok (done q))
then_done r h = >>=-Safely (λ s. Readable (parser s).rest) r _ h (λ q k. k)

-- The second character of a token of two is not the terminator.
abbrev IsPlain : Case → Type 0
IsPlain (two_char d two one) = d ≢ 0
IsPlain (shift_or_compare d shift two one) = d ≢ 0
IsPlain k = Unit

case_of-IsPlain : (c : ℕ) → IsPlain (case_of c)
unfolding case_of
case_of-IsPlain c = ground arith

-- Two quotation marks behind one are a raw string.
quotes-Safely :
    (c : ℕ) (rest : List ℕ)
    → c ≡ b'"'
    → Readable (c ∷ rest)
    → Safely (λ d. Safely (λ e. (d == b'"' && e == b'"') ≡ false) (peek_after rest)) (peek rest)
quotes-Safely c [] is h = absurd (omega (arith, is, h))
quotes-Safely c (d ∷ []) is (nonzero, short, sign, triple, h) =
    let ends : (d == 0) ≡ true = ground arith in rw ends (ground arith)
quotes-Safely c (d ∷ e ∷ rest) is (nonzero, short, sign, triple, h) = elim (Bool-cases (d == 0)) [
  | inl t ↦ rw t (ground arith)
  | inr t ↦ rw t (elim (Bool-cases (d == b'"' && e == b'"')) [
    | inl u ↦ absurd (triple (is, ground arith, ground arith))
    | inr u ↦ u
  ])
]

module _ (parse_hex parse_decimal : List ℕ → Option ℕ) where
  scan_case-Safely :
      (k : Case) (c : ℕ) (p : Parser)
      → IsPlain k
      → (k ≡ quote → c ≡ b'"')
      → Readable (c ∷ p.rest)
      → Readable p.rest
      → Safely (λ s. Readable (parser s).rest) (scan_case parse_hex parse_decimal k c p)
  unfolding scan_case
  scan_case-Safely (one_char type) c p plain is whole h = h
  scan_case-Safely (two_char d two one) c p plain is whole h =
      then_done (two_char_token p d two one) (two_char_token-Safely p d two one plain h)
  scan_case-Safely (shift_or_compare d shift two one) c p plain is whole h =
      >>=-Safely (λ s. Readable (parser s).rest) (match_char p d) _ (match_char-Safely p d plain h)
        matched
    where
      matched :
          (s : Bool × Parser)
          → Readable s.1.rest
          → Safely
              (λ (t : Step). Readable (parser t).rest)
              ((if s.0 then ok (make_token s.1 shift) else two_char_token s.1 b'=' two one) >>= λ q.
                ok (done q))
      matched (true, q) h = h
      matched (false, q) h =
          then_done (two_char_token q b'=' two one)
            (two_char_token-Safely q b'=' two one (omega arith) h)
  scan_case-Safely open_paren c p plain is whole h = h
  scan_case-Safely close_paren c p plain is whole h =
      then_done (close_case p.parens p) (close_case-Safely p.parens p h)
  scan_case-Safely hash_sign c p plain is whole h =
      >>=-Safely (λ s. Readable (parser s).rest) (peek_char p) _ (peek_char-Safely p h)
        (λ d _.
          >>=-Safely (λ s. Readable (parser s).rest) (peek_next_char p) _
            (peek_next_char-Safely p h)
            (λ e _. elim (Bool-cases (p.current_line == 1 && d == b'!' && e == b'/')) [
              | inl t ↦ rw t (then_again (skip_line_comment p) (skip_line_comment-Safely p h))
              | inr t ↦ rw t h
            ]))
  scan_case-Safely full_stop c p plain is whole h =
      >>=-Safely (λ s. Readable (parser s).rest) (match_char p b'.') _
        (match_char-Safely p b'.' (omega arith) h) matched
    where
      matched :
          (s : Bool × Parser)
          → Readable s.1.rest
          → Safely
              (λ (t : Step). Readable (parser t).rest)
              ((if s.0 then two_char_token s.1 b'.' dotdotdot dotdot else ok (make_token s.1 dot))
                >>= λ q. ok (done q))
      matched (true, q) h =
          then_done (two_char_token q b'.' dotdotdot dotdot)
            (two_char_token-Safely q b'.' dotdotdot dotdot (omega arith) h)
      matched (false, q) h = h
  scan_case-Safely divide c p plain is whole h =
      >>=-Safely (λ s. Readable (parser s).rest) (match_char p b'/') _
        (match_char-Safely p b'/' (omega arith) h) (λ s k. slashed s k)
    where
      starred :
          (s : Bool × Parser)
          → Readable s.1.rest
          → Safely
              (λ (t : Step). Readable (parser t).rest)
              (if s.0
                then (skip_block_comment s.1 >>= λ q. ok (again q))
                else ok (done (make_token s.1 slash)))
      starred (true, q) h = then_again (skip_block_comment q) (skip_block_comment-Safely q h)
      starred (false, q) h = h

      slashed :
          (s : Bool × Parser)
          → Readable s.1.rest
          → Safely
              (λ (t : Step). Readable (parser t).rest)
              (do
                (is_block, p'') ← (if s.0 then ok (false, s.1) else match_char s.1 b'*')
                (if s.0
                    then (skip_line_comment p'' >>= λ q. ok (again q))
                    else if is_block
                    then (skip_block_comment p'' >>= λ q. ok (again q))
                    else ok (done (make_token p'' slash))))
      slashed (true, q) h = then_again (skip_line_comment q) (skip_line_comment-Safely q h)
      slashed (false, q) h =
          >>=-Safely (λ t. Readable (parser t).rest) (match_char q b'*') _
            (match_char-Safely q b'*' (omega arith) h) (λ t k. starred t k)
  scan_case-Safely new_line c p plain is whole h = h
  scan_case-Safely blank c p plain is whole h =
      then_again _ (skip_while-Safely is_blank (suc (length p.rest)) p refl h)
  scan_case-Safely quote c p plain is whole h =
      >>=-Safely (λ s. Readable (parser s).rest) (peek_char p) _
        (quotes-Safely c p.rest (is refl) whole)
        (λ d k.
          >>=-Safely (λ s. Readable (parser s).rest) (peek_next_char p) _ k
            (λ e t. rw t (then_done (read_string p) (read_string-Safely p h))))
  scan_case-Safely underscore c p plain is whole h =
      >>=-Safely (λ s. Readable (parser s).rest) (peek_char p) _ (peek_char-Safely p h)
        (λ d _.
          then_done (read_name p (if d == b'_' then static_field else field) c)
            (read_name-Safely p (if d == b'_' then static_field else field) c h))
  scan_case-Safely zero_digit c p plain is whole h =
      >>=-Safely (λ s. Readable (parser s).rest) (peek_char p) _ (peek_char-Safely p h)
        (λ d k. elim (Bool-cases (d == b'x')) [
          | inl t ↦
              let nonzero : d ≢ 0 = ground arith in
              rw t (
                then_done (read_hex_number parse_hex parse_decimal p)
                  (read_hex_number-Safely parse_hex parse_decimal p h (k nonzero)))
          | inr t ↦ rw t (
              then_done (read_number parse_hex parse_decimal p)
                (read_number-Safely parse_hex parse_decimal p h))
        ])
  scan_case-Safely letter c p plain is whole h =
      then_done (read_name p name c) (read_name-Safely p name c h)
  scan_case-Safely digit_char c p plain is whole h =
      then_done (read_number parse_hex parse_decimal p)
        (read_number-Safely parse_hex parse_decimal p h)
  scan_case-Safely invalid c p plain is whole h = h

  scan_round-Safely :
      (p : Parser)
      → Readable p.rest
      → Readable (behind p.rest)
      → Safely (λ s. Readable (parser s).rest) (scan_round parse_hex parse_decimal p)
  unfolding scan_round
  scan_round-Safely p h k =
      >>=-Safely (λ s. Readable (parser s).rest) (next_char (start_token p)) _
        (next_char-Safely (start_token p) h)
        (λ (c, q) (e, b).
          let whole : Readable (c ∷ q.rest) = subst (λ (l : List ℕ). Readable l) e h in
          let onward : Readable q.rest = subst (λ (l : List ℕ). Readable l) (ap behind e) k in
          scan_case-Safely (case_of c) c q (case_of-IsPlain c) (case_of-quote c) whole onward)

  scan_from-Safely :
      (fuel : ℕ) (p : Parser)
      → Readable p.rest
      → Safely (λ q. Readable q.rest) (scan_from parse_hex parse_decimal fuel p)
  unfolding scan_from
  scan_from-Safely zero p h = tt
  scan_from-Safely (suc fuel) p h =
      >>=-Safely (λ q. Readable q.rest) (peek_char p) _ (peek_char-Safely p h)
        (λ c k. elim (Bool-cases (c == 0)) [
          | inl t ↦ rw t h
          | inr t ↦
              let nonzero : c ≢ 0 = ground arith in
              rw t (
                >>=-Safely (λ q. Readable q.rest) (scan_round parse_hex parse_decimal p) _
                  (scan_round-Safely p h (k nonzero)) (rounds fuel (scan_from-Safely fuel)))
        ])
    where
      rounds :
          (fuel : ℕ)
          → ((q : Parser)
              → Readable q.rest
              → Safely (λ r. Readable r.rest) (scan_from parse_hex parse_decimal fuel q))
          → (s : Step) → Readable (parser s).rest
          → Safely
              (λ (r : Parser). Readable r.rest)
              (elim s [ again q ↦ scan_from parse_hex parse_decimal fuel q | done q ↦ ok q ])
      rounds fuel ih (done q) h = h
      rounds fuel ih (again q) h = ih q h

  next_token-Safely :
      (p : Parser)
      → Readable p.rest
      → Safely (λ q. Readable q.rest) (next_token parse_hex parse_decimal p)
  unfolding next_token
  next_token-Safely p h = elim (Bool-cases (is_eof p.next.type)) [
    | inl t ↦ rw t h
    | inr t ↦ rw t (scan_from-Safely (suc (length p.rest)) _ h)
  ]

  -- Where the rest of the source is a text and its terminator, and the text does not end with a
  -- percent sign or a backslash and has no backslash in front of `x`, `u` or `U` and no triple
  -- quotation mark, `nextToken` returns: it ends, and reads nothing outside of the source. What it
  -- leaves to read is such a rest again, so that the next call returns too. The source is the same,
  -- the position is no further back, the stack of parentheses fits its array with positive entries if
  -- it did before, and unless the next token is the end of the source, the position has moved on.
  pub next_token-Scans :
      (p : Parser)
      → Readable p.rest
      → (q : Parser) × (next_token parse_hex parse_decimal p ≡ ok q) × Scans p q × Readable q.rest
  next_token-Scans p h =
      Ends-Safely (Scans p) (λ q. Readable q.rest) (next_token parse_hex parse_decimal p)
        (next_token-Ends parse_hex parse_decimal p) (next_token-Safely p h)
