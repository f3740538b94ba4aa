-- ===== src/Lexer/Hexadecimal.antt =====
-- wren_compiler.c, lines 730 to 781: hexadecimal literals.
use rust_wren.Base.{
  ℕ, zero, suc, ◌+◌, ◌<◌, ◌≡◌, refl, ap, ◌∙◌, sym, List, [], ◌∷◌, ◌++◌, true, ◌==◌, arith, length,
  length-append, if◌then◌else◌, Option, none, some, All,
}
use rust_wren.Result.{ok, >>=-ok}
use rust_wren.Lexer.Tokens.{hex_value}
use rust_wren.Lexer.Cursor.{Parser, pass, next_char, back}
use rust_wren.Lexer.Words.{read_hex_digit, skip_hex_digits, make_number, read_hex_number}
use rust_wren.Lexer.Passed.{passed, next_char-pass, passed-pass, passed-nil}

abbrev pub IsHex : ℕ → Type 0
IsHex c = (value : ℕ) × (hex_value c ≡ some value)

-- The parser in front of a character that it has read and taken back: a line break stays counted.
abbrev pub in_front : Parser → ℕ → Parser
in_front p c = record p { current_line = if c == b'\n' then p.current_line + 1 else p.current_line }

read_hex_digit-some :
    (p : Parser) (c value : ℕ) (rest : List ℕ)
    → hex_value c ≡ some value
    → p.rest ≡ c ∷ rest
    → read_hex_digit p ≡ ok (some value, pass p c rest)
unfolding read_hex_digit
read_hex_digit-some p c value rest h e =
    >>=-ok (next_char p) (c, pass p c rest) _ (next_char-pass p c rest e) ∙ rw h refl

read_hex_digit-none :
    (p : Parser) (c : ℕ) (rest : List ℕ)
    → hex_value c ≡ none
    → p.rest ≡ c ∷ rest
    → read_hex_digit p ≡ ok (none, in_front p c)
unfolding read_hex_digit back
read_hex_digit-none p c rest h e =
    >>=-ok (next_char p) (c, pass p c rest) _ (next_char-pass p c rest e)
    ∙ rw h (ap (λ (r : List ℕ). ok (none, record (in_front p c) { rest = r })) (sym e))

skip_hex_digits-passed :
    (cs : List ℕ) (fuel : ℕ) (p : Parser) (d : ℕ) (rest : List ℕ)
    → All IsHex cs
    → hex_value d ≡ none
    → p.rest ≡ cs ++ d ∷ rest
    → length cs < fuel
    → skip_hex_digits fuel p ≡ ok (in_front (passed p cs (d ∷ rest)) d)
unfolding skip_hex_digits
skip_hex_digits-passed cs zero p d rest h n e less = absurd (omega arith)
skip_hex_digits-passed [] (suc fuel) p d rest h n e less =
    >>=-ok (read_hex_digit p) (none, in_front p d) _ (read_hex_digit-none p d rest n e)
    ∙ ap (λ (q : Parser). ok (in_front q d)) (sym (passed-nil p (d ∷ rest) e))
skip_hex_digits-passed (c ∷ cs) (suc fuel) p d rest ((value, is), h) n e less =
    let mid = cs ++ d ∷ rest in
    >>=-ok (read_hex_digit p) (some value, pass p c mid) _ (read_hex_digit-some p c value mid is e)
    ∙ skip_hex_digits-passed cs fuel (pass p c mid) d rest h n refl (omega (arith, less))
    ∙ ap (λ (q : Parser). ok (in_front q d)) (passed-pass p c mid cs (d ∷ rest))

-- `readHexNumber` on any character, the `x`, hexadecimal digits and a character that is none: the
-- parser is right behind the digits with a token for a hexadecimal number, and the lines up to there
-- are counted, but a line break behind the digits is counted as well, although it is still to be
-- read.
pub read_hex_number-digits :
    (parse_hex parse_decimal : List ℕ → Option ℕ) (p : Parser) (x : ℕ) (cs : List ℕ) (d : ℕ)
    (rest : List ℕ)
    → All IsHex cs
    → hex_value d ≡ none
    → p.rest ≡ x ∷ cs ++ d ∷ rest
    → read_hex_number parse_hex parse_decimal p
      ≡ ok (make_number parse_hex parse_decimal (in_front (passed p (x ∷ cs) (d ∷ rest)) d) true)
unfolding read_hex_number
read_hex_number-digits parse_hex parse_decimal p x cs d rest h n e =
    let mid = cs ++ d ∷ rest in
    let q = pass p x mid in
    >>=-ok (next_char p) (x, q) _ (next_char-pass p x mid e)
    ∙ >>=-ok (skip_hex_digits (suc (length mid)) q) _ _ (
        skip_hex_digits-passed cs (suc (length mid)) q d rest h n refl
          (omega (arith, length-append cs (d ∷ rest))))
    ∙ ap (λ (r : Parser). ok (make_number parse_hex parse_decimal (in_front r d) true))
        (passed-pass p x mid cs (d ∷ rest))
