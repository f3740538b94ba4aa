-- ===== src/Lexer/Quote/Literal.antt =====
-- wren_compiler.c, lines 1046 to 1235: string literals as `nextToken` reads them.
use rust_wren.Base.{
  ℕ, suc, ◌≡◌, ◌≢◌, refl, ap, ◌∙◌, List, [], ◌∷◌, ◌++◌, false, ◌&&◌, ◌||◌, ◌==◌, inl, inr, arith,
  length, Bool-cases, Option,
}
use rust_wren.Result.{ok}
use rust_wren.Lexer.Tokens.{string}
use rust_wren.Lexer.Cursor.{Parser, pass, peek, peek_after}
use rust_wren.Lexer.Strings.{make_string, read_string}
use rust_wren.Lexer.Scan.{
  quote, case_of, done, scan_case, start_token, scan_round, scan_from, is_eof, next_token,
}
use rust_wren.Lexer.Passed.{started, passed, next_char-pass, passed-pass, peek_char-pass}
use rust_wren.Lexer.Quote
use rust_wren.Lexer.Quote.{quote_byte, read_string_from-quote}

-- The next two characters, which are not both quotation marks.
abbrev NoRaw : List ℕ → Type 0
NoRaw source =
    (x : ℕ) × (y : ℕ) × (peek source ≡ ok x)
    × (peek_after source ≡ ok y)
    × ((x == b'"' && y == b'"') ≡ false)

quote_start : (bytes rest : List ℕ) → (y : ℕ) × (peek (Quote.quote bytes ++ b'"' ∷ rest) ≡ ok y)
unfolding Quote.quote quote_byte
quote_start [] rest = (b'"', refl)
quote_start (c ∷ bytes) rest = elim (Bool-cases (c == b'"' || c == b'\\' || c == b'%')) [
  | inl t ↦ (b'\\', rw t refl)
  | inr t ↦ elim (Bool-cases (c == 0)) [
    | inl z ↦ (b'\\', rw (t, z) refl)
    | inr z ↦ (c, rw (t, z) refl)
  ]
]

plain-NoRaw :
    (c y : ℕ) (rest : List ℕ)
    → (c == 0) ≡ false
    → (c == b'"') ≡ false
    → peek rest ≡ ok y
    → NoRaw (c ∷ rest)
plain-NoRaw c y rest z q e = (c, y, refl, rw z e, rw q refl)

quote-NoRaw :
    (bytes : List ℕ) (d : ℕ) (rest : List ℕ)
    → d ≢ b'"'
    → NoRaw (Quote.quote bytes ++ b'"' ∷ d ∷ rest)
unfolding Quote.quote quote_byte
quote-NoRaw [] d rest ne =
    let other : (d == b'"') ≡ false = ground arith in (b'"', d, refl, refl, rw other refl)
quote-NoRaw (c ∷ bytes) d rest ne = elim (Bool-cases (c == b'"' || c == b'\\' || c == b'%')) [
  | inl t ↦ (b'\\', c, rw t refl, rw t refl, refl)
  | inr t ↦ elim (Bool-cases (c == 0)) [
    | inl z ↦ (b'\\', b'0', rw (t, z) refl, rw (t, z) refl, refl)
    | inr z ↦
        let next = quote_start bytes (d ∷ rest) in
        rw (t, z) (plain-NoRaw c next.0 _ z (ground arith) next.1)
  ]
]

-- `readString` behind the opening quotation mark.
read_string-quote :
    (p : Parser) (bytes rest : List ℕ)
    → p.rest ≡ Quote.quote bytes ++ b'"' ∷ rest
    → read_string p ≡ ok (make_string (passed p (Quote.quote bytes ++ b'"' ∷ []) rest) bytes string)
unfolding read_string
read_string-quote p bytes rest e =
    rw (read_string_from-quote bytes (suc (length p.rest)) p [] rest e (omega arith)) refl

module _ (parse_hex parse_decimal : List ℕ → Option ℕ) where
  scan_case-quote :
      (p : Parser) (bytes : List ℕ) (d : ℕ) (rest : List ℕ)
      → p.rest ≡ Quote.quote bytes ++ b'"' ∷ d ∷ rest
      → d ≢ b'"'
      → scan_case parse_hex parse_decimal quote b'"' p
        ≡ ok
            (done (make_string (passed p (Quote.quote bytes ++ b'"' ∷ []) (d ∷ rest)) bytes string))
  unfolding scan_case
  scan_case-quote p bytes d rest e ne =
      let raw = quote-NoRaw bytes d rest ne in
      rw (ap peek e ∙ raw.2, ap peek_after e ∙ raw.3, raw.4, read_string-quote p bytes (d ∷ rest) e)
        refl

  scan_round-quote :
      (p : Parser) (bytes : List ℕ) (d : ℕ) (rest : List ℕ)
      → p.rest ≡ b'"' ∷ Quote.quote bytes ++ b'"' ∷ d ∷ rest
      → d ≢ b'"'
      → scan_round parse_hex parse_decimal p
        ≡ ok (
            done (
              make_string
                (passed (start_token p) (b'"' ∷ Quote.quote bytes ++ b'"' ∷ []) (d ∷ rest))
                bytes
                string))
  unfolding scan_round case_of
  scan_round-quote p bytes d rest e ne =
      let mid = Quote.quote bytes ++ b'"' ∷ d ∷ rest in
      let inside = pass (start_token p) b'"' mid in
      rw (next_char-pass (start_token p) b'"' mid e, scan_case-quote inside bytes d rest refl ne)
        (ap (λ (q : Parser). ok (done (make_string q bytes string)))
          (passed-pass (start_token p) b'"' mid (Quote.quote bytes ++ b'"' ∷ []) (d ∷ rest)))

  -- `nextToken` on a string literal in which quotation marks, backslashes, percent signs and null
  -- bytes are escaped, where the next token so far is not the end of the source and what follows the
  -- literal is no quotation mark: the parser is right behind the literal, the next token is a string
  -- with exactly those bytes, no error is reported, and the lines are counted.
  pub next_token-quote :
      (p : Parser) (bytes : List ℕ) (d : ℕ) (rest : List ℕ)
      → is_eof p.next.type ≡ false
      → p.rest ≡ b'"' ∷ Quote.quote bytes ++ b'"' ∷ d ∷ rest
      → d ≢ b'"'
      → next_token parse_hex parse_decimal p
        ≡ ok (
            make_string
              (passed (started p) (b'"' ∷ Quote.quote bytes ++ b'"' ∷ []) (d ∷ rest))
              bytes
              string)
  unfolding next_token scan_from
  next_token-quote p bytes d rest n e ne =
      let shifted = record p { previous = p.current; current = p.next } in
      rw (n, peek_char-pass shifted b'"' _ e, scan_round-quote shifted bytes d rest e ne) refl
