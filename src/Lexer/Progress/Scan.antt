-- ===== src/Lexer/Progress/Scan.antt =====
-- wren_compiler.c, lines 1046 to 1235: `nextToken`.
use rust_wren.Base.{
  ℕ, zero, suc, ◌-◌, ◌<◌, ◌≡◌, ◌≢◌, refl, List, [], ◌∷◌, Bool, true, false, ◌&&◌, ◌⊎◌, ◌==◌, inl,
  inr, arith, length, Bool-cases, if◌then◌else◌, Option,
}
use rust_wren.Result.{Result, ok, ◌>>=◌, Ends, >>=-Ends, Ends-map}
use rust_wren.Lexer.Tokens.{
  TokenType, eof, slash, dot, dotdot, dotdotdot, static_field, field, name,
}
use rust_wren.Lexer.Cursor.{
  Parser, peek_char, peek_next_char, next_char, match_char, make_token, two_char_token,
  skip_line_comment,
}
use rust_wren.Lexer.Words.{skip_block_comment, read_name, read_hex_number, read_number}
use rust_wren.Lexer.Strings.{read_string, read_raw_string}
use rust_wren.Lexer.Scan.{
  Case, one_char, two_char, shift_or_compare, open_paren, close_paren, hash_sign, full_stop, divide,
  new_line, blank, quote, underscore, zero_digit, letter, digit_char, invalid, case_of, Step, again,
  done, count_open, close_case, is_blank, scan_case, start_token, is_eof, scan_round, scan_from,
  next_token,
}
use rust_wren.Lexer.Progress.{
  IsNested, Onward, Forward, Onward-refl, Forward-Onward, Forward-trans, >>=-Onward, peek_char-Ends,
  peek_next_char-Ends, next_char-Forward, match_char-Ends, skip_all-Ends, two_char_token-Ends,
  skip_line_comment-Ends,
}
use rust_wren.Lexer.Progress.Words.{
  skip_block_comment-Ends, read_name-Ends, read_hex_number-Ends, read_number-Ends,
}
use rust_wren.Lexer.Progress.Strings.{read_string-Ends, read_raw_string-Ends}

-- The parser of a step.
abbrev pub parser : Step → Parser
parser (again p) = p
parser (done p) = p

-- One more unmatched parenthesis.
count_open-IsNested : (parens : List ℕ) → IsNested parens → IsNested (count_open parens)
count_open-IsNested [] h = h
count_open-IsNested (n ∷ parens) (short, (positive, h)) = (omega (arith, short), (omega arith, h))

-- One unmatched parenthesis less, in an interpolation that stays open or ends.
open-IsNested :
    (n : ℕ) (parens : List ℕ) → (n - 1 ≢ 0) → IsNested (n ∷ parens) → IsNested ((n - 1) ∷ parens)
open-IsNested n parens ne (short, (positive, h)) = (short, (omega (arith, ne), h))

ended-IsNested : (n : ℕ) (parens : List ℕ) → IsNested (n ∷ parens) → IsNested parens
ended-IsNested n parens (short, (positive, h)) = (omega (arith, short), h)

close_case-Ends :
    (parens : List ℕ) (p : Parser) → p.parens ≡ parens → Ends (Onward p) (close_case parens p)
unfolding close_case
close_case-Ends [] p e = Onward-refl p
close_case-Ends (n ∷ parens) p e = elim (Bool-cases (n - 1 == 0)) [
  | inl t ↦ rw t (
      Ends-map (Onward p) (read_string (record p { parens = parens }))
        (read_string-Ends (record p { parens = parens }))
        (λ q ((same, nested), le). ((same, λ h. nested (ended-IsNested n parens (rw e at h))), le)))
  | inr t ↦
      let ne : n - 1 ≢ 0 = ground arith in
      rw t ((refl, λ h. open-IsNested n parens ne (rw e at h)), omega arith)
]

then_again :
    (p : Parser) (r : Result Parser)
    → Ends (Onward p) r
    → Ends (λ s. Onward p (parser s)) (r >>= λ q. ok (again q))
then_again p r h = >>=-Ends (λ s. Onward p (parser s)) r _ h (λ q o. o)

-- What `nextToken` makes of the position: it is at the end of the source, or it has moved on.
abbrev pub Scans : Parser → Parser → Type 0
Scans p q = Onward p q × ((q.next.type ≡ eof) ⊎ (length q.rest < length p.rest))

is_eof-eof : (type : TokenType) → is_eof type ≡ true → type ≡ eof
is_eof-eof eof e = refl
is_eof-eof type e = absurd cc

-- The parser where the tokens have been shifted.
abbrev shifted : Parser → Parser
shifted p = record p { previous = p.current; current = p.next }

module _ (parse_hex parse_decimal : List ℕ → Option ℕ) where
  scan_case-Ends :
      (k : Case) (c : ℕ) (p : Parser)
      → Ends (λ s. Onward p (parser s)) (scan_case parse_hex parse_decimal k c p)
  unfolding scan_case
  scan_case-Ends (one_char type) c p = Onward-refl p
  scan_case-Ends (two_char d two one) c p =
      >>=-Ends (λ s. Onward p (parser s)) (two_char_token p d two one) _
        (two_char_token-Ends p d two one) (λ q o. o)
  scan_case-Ends (shift_or_compare d shift two one) c p =
      >>=-Onward p (λ s. s.1) parser (match_char p d) _ (match_char-Ends p d) matched
    where
      matched :
          (s : Bool × Parser)
          → Ends
              (λ (t : Step). Onward s.1 (parser t))
              ((if s.0 then ok (make_token s.1 shift) else two_char_token s.1 b'=' two one) >>= λ q.
                ok (done q))
      matched (true, q) = Onward-refl q
      matched (false, q) =
          >>=-Ends (λ t. Onward q (parser t)) (two_char_token q b'=' two one) _
            (two_char_token-Ends q b'=' two one) (λ r o. o)
  scan_case-Ends open_paren c p = ((refl, count_open-IsNested p.parens), omega arith)
  scan_case-Ends close_paren c p =
      >>=-Ends (λ s. Onward p (parser s)) (close_case p.parens p) _
        (close_case-Ends p.parens p refl) (λ q o. o)
  scan_case-Ends hash_sign c p =
      >>=-Ends (λ s. Onward p (parser s)) (peek_char p) _ (peek_char-Ends p)
        (λ d _.
          >>=-Ends (λ s. Onward p (parser s)) (peek_next_char p) _ (peek_next_char-Ends p)
            (λ e _. elim (Bool-cases (p.current_line == 1 && d == b'!' && e == b'/')) [
              | inl t ↦ rw t (then_again p (skip_line_comment p) (skip_line_comment-Ends p))
              | inr t ↦ rw t (Onward-refl p)
            ]))
  scan_case-Ends full_stop c p =
      >>=-Onward p (λ s. s.1) parser (match_char p b'.') _ (match_char-Ends p b'.') matched
    where
      matched :
          (s : Bool × Parser)
          → Ends
              (λ (t : Step). Onward s.1 (parser t))
              ((if s.0 then two_char_token s.1 b'.' dotdotdot dotdot else ok (make_token s.1 dot))
                >>= λ q. ok (done q))
      matched (true, q) =
          >>=-Ends (λ t. Onward q (parser t)) (two_char_token q b'.' dotdotdot dotdot) _
            (two_char_token-Ends q b'.' dotdotdot dotdot) (λ r o. o)
      matched (false, q) = Onward-refl q
  scan_case-Ends divide c p =
      >>=-Onward p (λ s. s.1) parser (match_char p b'/') _ (match_char-Ends p b'/') (λ s. slashed s)
    where
      starred :
          (s : Bool × Parser)
          → Ends
              (λ (t : Step). Onward s.1 (parser t))
              (if s.0
                then (skip_block_comment s.1 >>= λ q. ok (again q))
                else ok (done (make_token s.1 slash)))
      starred (true, q) = then_again q (skip_block_comment q) (skip_block_comment-Ends q)
      starred (false, q) = Onward-refl q

      slashed :
          (s : Bool × Parser)
          → Ends
              (λ (t : Step). Onward s.1 (parser t))
              (do
                (is_block, p'') ← (if s.0 then ok (false, s.1) else match_char s.1 b'*')
                (if s.0
                    then (skip_line_comment p'' >>= λ q. ok (again q))
                    else if is_block
                    then (skip_block_comment p'' >>= λ q. ok (again q))
                    else ok (done (make_token p'' slash))))
      slashed (true, q) = then_again q (skip_line_comment q) (skip_line_comment-Ends q)
      slashed (false, q) =
          >>=-Onward q (λ t. t.1) parser (match_char q b'*') _ (match_char-Ends q b'*')
            (λ t. starred t)
  scan_case-Ends new_line c p = Onward-refl p
  scan_case-Ends blank c p = then_again p _ (skip_all-Ends is_blank p)
  scan_case-Ends quote c p =
      >>=-Ends (λ s. Onward p (parser s)) (peek_char p) _ (peek_char-Ends p)
        (λ d _.
          >>=-Ends (λ s. Onward p (parser s)) (peek_next_char p) _ (peek_next_char-Ends p)
            (λ e _. elim (Bool-cases (d == b'"' && e == b'"')) [
              | inl t ↦ rw t (
                  >>=-Ends (λ s. Onward p (parser s)) (read_raw_string p) _ (read_raw_string-Ends p)
                    (λ q o. o))
              | inr t ↦ rw t (
                  >>=-Ends (λ s. Onward p (parser s)) (read_string p) _ (read_string-Ends p)
                    (λ q o. o))
            ]))
  scan_case-Ends underscore c p =
      >>=-Ends (λ s. Onward p (parser s)) (peek_char p) _ (peek_char-Ends p)
        (λ d _.
          >>=-Ends (λ s. Onward p (parser s))
            (read_name p (if d == b'_' then static_field else field) c) _
            (read_name-Ends p (if d == b'_' then static_field else field) c) (λ q o. o))
  scan_case-Ends zero_digit c p =
      >>=-Ends (λ s. Onward p (parser s)) (peek_char p) _ (peek_char-Ends p)
        (λ d _. elim (Bool-cases (d == b'x')) [
          | inl t ↦ rw t (
              >>=-Ends (λ s. Onward p (parser s)) (read_hex_number parse_hex parse_decimal p) _
                (read_hex_number-Ends parse_hex parse_decimal p) (λ q o. o))
          | inr t ↦ rw t (
              >>=-Ends (λ s. Onward p (parser s)) (read_number parse_hex parse_decimal p) _
                (read_number-Ends parse_hex parse_decimal p) (λ q o. o))
        ])
  scan_case-Ends letter c p =
      >>=-Ends (λ s. Onward p (parser s)) (read_name p name c) _ (read_name-Ends p name c)
        (λ q o. o)
  scan_case-Ends digit_char c p =
      >>=-Ends (λ s. Onward p (parser s)) (read_number parse_hex parse_decimal p) _
        (read_number-Ends parse_hex parse_decimal p) (λ q o. o)
  scan_case-Ends invalid c p = Onward-refl p

  scan_round-Ends :
      (p : Parser) → Ends (λ s. Forward p (parser s)) (scan_round parse_hex parse_decimal p)
  unfolding scan_round
  scan_round-Ends p =
      >>=-Ends (λ s. Forward p (parser s)) (next_char (start_token p)) _
        (next_char-Forward (start_token p))
        (λ (c, q) f.
          Ends-map (λ s. Forward p (parser s)) (scan_case parse_hex parse_decimal (case_of c) c q)
            (scan_case-Ends (case_of c) c q) (λ s o. Forward-trans p q (parser s) f o))

  scan_from-Ends :
      (fuel : ℕ) (p : Parser)
      → length p.rest < fuel
      → Ends (Scans p) (scan_from parse_hex parse_decimal fuel p)
  unfolding scan_from
  scan_from-Ends zero p h = absurd (omega arith)
  scan_from-Ends (suc fuel) p h = >>=-Ends (Scans p) (peek_char p) _ (peek_char-Ends p) (λ c _.
      elim (Bool-cases (c == 0)) [
        | inl t ↦ rw t (Onward-refl p, inl refl)
        | inr t ↦ rw t (
            >>=-Ends (Scans p) (scan_round parse_hex parse_decimal p) _ (scan_round-Ends p)
              (rounds fuel p h (scan_from-Ends fuel)))
      ])
    where
      rounds :
          (fuel : ℕ) (p : Parser)
          → length p.rest < suc fuel
          → ((q : Parser)
              → length q.rest < fuel
              → Ends (Scans q) (scan_from parse_hex parse_decimal fuel q))
          → (s : Step) → Forward p (parser s)
          → Ends
              (Scans p)
              (elim s [ again q ↦ scan_from parse_hex parse_decimal fuel q | done q ↦ ok q ])
      rounds fuel p h ih (done q) f = (Forward-Onward p q f, inr f.1)
      rounds fuel p h ih (again q) f =
          let less : length q.rest < length p.rest = f.1 in
          Ends-map (Scans p) (scan_from parse_hex parse_decimal fuel q)
            (ih q (omega (arith, less, h)))
            (λ r (o, on).
              let further = Forward-trans p q r f o in (Forward-Onward p r further, inr further.1))

  -- `nextToken` does not run out of fuel, and makes of the position what `Scans` says if it returns.
  pub next_token-Ends :
      (p : Parser) → Ends (λ (q : Parser). Scans p q) (next_token parse_hex parse_decimal p)
  unfolding next_token
  next_token-Ends p = elim (Bool-cases (is_eof p.next.type)) [
    | inl t ↦ rw t (Onward-refl p, inl (is_eof-eof p.next.type t))
    | inr t ↦ rw t (scan_from-Ends (suc (length p.rest)) (shifted p) (omega arith))
  ]
