-- ===== src/Lexer/Names.antt =====
-- wren_compiler.c, lines 816 to 846 and 1046 to 1235: names and reserved words as `nextToken` reads
-- them.
use rust_wren.Base.{
  ℕ, zero, suc, ◌+◌, ◌-◌, ◌<◌, ◌≡◌, ◌≢◌, refl, ap, ap₂, ◌∙◌, sym, List, [], ◌∷◌, ◌++◌, Bool, true,
  false, ◌&&◌, ◌==◌, inl, inr, arith, length, Bool-cases, if◌then◌else◌, append-nil, append_assoc,
  Option, All, length-append,
}
use rust_wren.Bytes.{memcmp_eq, string_equals_cstring}
use rust_wren.Result.{ok, >>=-ok}
use rust_wren.Lexer.Tokens.{TokenType, Token, text, keywords, keyword_type, is_name, is_digit}
use rust_wren.Lexer.Tokens
use rust_wren.Lexer.Cursor.{Parser, pass, peek_char, make_token}
use rust_wren.Lexer.Words.{in_name, read_name_chars, read_name}
use rust_wren.Lexer.Scan.{
  letter, case_of, done, scan_case, start_token, scan_round, scan_from, is_eof, next_token,
}
use rust_wren.Lexer.Passed.{
  started, passed, turned, next_char-pass, passed-pass, passed-nil, peek_char-pass,
}

read_name_chars-passed :
    (cs : List ℕ) (fuel : ℕ) (p : Parser) (string : List ℕ) (d : ℕ) (rest : List ℕ)
    → All (λ (c : ℕ). in_name c ≡ true) cs
    → in_name d ≡ false
    → p.rest ≡ cs ++ d ∷ rest
    → length cs < fuel
    → read_name_chars fuel p string ≡ ok (string ++ cs, passed p cs (d ∷ rest))
unfolding read_name_chars
read_name_chars-passed cs zero p string d rest h n e less = absurd (omega arith)
read_name_chars-passed [] (suc fuel) p string d rest h n e less =
    >>=-ok (peek_char p) d _ (peek_char-pass p d rest e)
    ∙ rw n (
        ap₂ (λ (s : List ℕ) (q : Parser). ok (s, q)) (sym (append-nil string))
          (sym (passed-nil p (d ∷ rest) e)))
read_name_chars-passed (c ∷ cs) (suc fuel) p string d rest (is, h) n e less =
    let mid = cs ++ d ∷ rest in
    >>=-ok (peek_char p) c _ (peek_char-pass p c mid e)
    ∙ rw (is, next_char-pass p c mid e)
        (read_name_chars-passed cs fuel (pass p c mid) (string ++ c ∷ []) d rest h n refl
            (omega (arith, less))
          ∙ ap₂ (λ (s : List ℕ) (q : Parser). ok (s, q)) (append_assoc string (c ∷ []) cs)
              (passed-pass p c mid cs (d ∷ rest)))

-- The type of a word: that of the reserved word it is, or the given one.
unfoldable pub word_type : List (List ℕ × TokenType) → List ℕ → TokenType → TokenType
word_type [] word type = type
word_type ((reserved, keyword) ∷ words) word type =
    let rest = word_type words word type in
    if string_equals_cstring word reserved then keyword else rest

memcmp_eq-append :
    (word rest b : List ℕ)
    → memcmp_eq (length word) (word ++ rest) b ≡ memcmp_eq (length word) word b
unfolding memcmp_eq
memcmp_eq-append [] rest b = refl
memcmp_eq-append (c ∷ word) rest [] = refl
memcmp_eq-append (c ∷ word) rest (d ∷ b) =
    ap (λ (t : Bool). c == d && t) (memcmp_eq-append word rest b)

same_word :
    (word rest b : List ℕ)
    → (length word == length b && memcmp_eq (length word) (word ++ rest) b)
      ≡ string_equals_cstring word b
unfolding string_equals_cstring
same_word word rest b = elim (Bool-cases (length word == length b)) [
  | inl t ↦
      let same : length word ≡ length b = ground arith in
      rw t (memcmp_eq-append word rest b ∙ ap (λ (n : ℕ). memcmp_eq n word b) same)
  | inr t ↦ rw t refl
]

keyword_type-word_type :
    (words : List (List ℕ × TokenType)) (word rest : List ℕ) (type : TokenType)
    → keyword_type words (word ++ rest) (length word) type ≡ word_type words word type
unfolding keyword_type word_type
keyword_type-word_type [] word rest type = refl
keyword_type-word_type ((reserved, keyword) ∷ words) word rest type =
    rw (same_word word rest reserved, keyword_type-word_type words word rest type) refl

length-turned : (cs before : List ℕ) → length (turned cs before) ≡ length cs + length before
length-turned [] before = omega arith
length-turned (c ∷ cs) before = omega (arith, length-turned cs (c ∷ before))

-- The parser with a token for a word, of which it has read the last character.
abbrev pub make_word : Parser → List ℕ → TokenType → Parser
make_word p word type =
    make_token (record p { next = record p.next { value = text word } })
      (word_type keywords word type)

-- `readName` behind the first character.
read_name-word :
    (p : Parser) (type : TokenType) (c : ℕ) (cs : List ℕ) (d : ℕ) (rest : List ℕ)
    → All (λ (c : ℕ). in_name c ≡ true) cs
    → in_name d ≡ false
    → p.rest ≡ cs ++ d ∷ rest
    → p.token_text ≡ c ∷ cs ++ d ∷ rest
    → length p.before ≡ suc p.token_start
    → read_name p type c ≡ ok (make_word (passed p cs (d ∷ rest)) (c ∷ cs) type)
unfolding read_name
read_name-word p type c cs d rest h n e start from =
    let size : length (turned cs p.before) - p.token_start ≡ length (c ∷ cs) =
      omega (arith, length-turned cs p.before, from) in
    let found : keyword_type keywords p.token_text (length (turned cs p.before) - p.token_start)
          type
        ≡ word_type keywords (c ∷ cs) type =
      rw (start, size) (keyword_type-word_type keywords (c ∷ cs) (d ∷ rest) type) in
    rw
      (
        read_name_chars-passed cs (suc (length p.rest)) p (c ∷ []) d rest h n e
            (omega (arith, ap length e, length-append cs (d ∷ rest))),
        found,
      )
      refl

case_of-letter : (c : ℕ) → is_name c ≡ true → c ≢ b'_' → case_of c ≡ letter
unfolding case_of is_name
case_of-letter c h ne = ground arith

name-ne-zero : (c : ℕ) → is_name c ≡ true → (c == 0) ≡ false
unfolding is_name
name-ne-zero c h = ground arith

module _ (parse_hex parse_decimal : List ℕ → Option ℕ) where
  scan_round-word :
      (p : Parser) (c : ℕ) (cs : List ℕ) (d : ℕ) (rest : List ℕ)
      → p.rest ≡ c ∷ cs ++ d ∷ rest
      → is_name c ≡ true
      → c ≢ b'_'
      → All (λ (c : ℕ). in_name c ≡ true) cs
      → in_name d ≡ false
      → scan_round parse_hex parse_decimal p
        ≡ ok (done (make_word (passed (start_token p) (c ∷ cs) (d ∷ rest)) (c ∷ cs) Tokens.name))
  unfolding scan_round scan_case
  scan_round-word p c cs d rest e is ne h stop =
      let mid = cs ++ d ∷ rest in
      let q = pass (start_token p) c mid in
      rw
        (
          next_char-pass (start_token p) c mid e,
          case_of-letter c is ne,
          read_name-word q Tokens.name c cs d rest h stop refl e refl,
        )
        (ap (λ (r : Parser). ok (done (make_word r (c ∷ cs) Tokens.name)))
          (passed-pass (start_token p) c mid cs (d ∷ rest)))

  -- `nextToken` on a letter, with letters, digits and underscores behind it, where the next token so
  -- far is not the end of the source and the character behind them is none of these: the parser is
  -- right behind the word, the value of the next token is the whole word, its type is that of the
  -- reserved word with exactly this text and else that of a name, and no error is reported.
  pub next_token-word :
      (p : Parser) (c : ℕ) (cs : List ℕ) (d : ℕ) (rest : List ℕ)
      → is_eof p.next.type ≡ false
      → p.rest ≡ c ∷ cs ++ d ∷ rest
      → is_name c ≡ true
      → c ≢ b'_'
      → All (λ (c : ℕ). in_name c ≡ true) cs
      → in_name d ≡ false
      → next_token parse_hex parse_decimal p
        ≡ ok (make_word (passed (started p) (c ∷ cs) (d ∷ rest)) (c ∷ cs) Tokens.name)
  unfolding next_token scan_from
  next_token-word p c cs d rest n e is ne h stop =
      let shifted = record p { previous = p.current; current = p.next } in
      let nonzero : (c == 0) ≡ false = name-ne-zero c is in
      let mid = cs ++ d ∷ rest in
      rw n (
        >>=-ok (peek_char shifted) c _ (peek_char-pass shifted c mid e)
        ∙ rw (nonzero, scan_round-word shifted c cs d rest e is ne h stop) refl)
