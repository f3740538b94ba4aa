-- ===== src/Lexer/Quote.antt =====
-- wren_compiler.c, lines 966 to 1044: string literals that stand for given bytes.
pub mod Literal
use rust_wren.Base.{
  ℕ, zero, suc, ◌+◌, ◌≤◌, ◌<◌, ◌≡◌, ◌≢◌, refl, ap, ap₂, ◌∙◌, sym, List, [], ◌∷◌, ◌++◌, Bool, true,
  false, ◌&&◌, ◌||◌, ◌==◌, inl, inr, arith, length, Bool-cases, if◌then◌else◌, append_assoc,
  append-nil, Option, none, some,
}
use rust_wren.Result.{Result, ok, ◌>>=◌}
use rust_wren.Lexer.Tokens.{TokenType, string}
use rust_wren.Lexer.Cursor.{Parser, next_char, pass}
use rust_wren.Lexer.Strings.{
  simple_escape, escape_by, read_escape, Round, ended, more, string_case, read_string_from,
  make_string, read_string,
}
use rust_wren.Lexer.Passed.{
  passed, next_char-pass, passed-pass, pass-passed, passed-nil, passed-append,
}

-- A byte as it can stand in a string literal.
unfoldable pub quote_byte : ℕ → List ℕ
quote_byte c =
    if c == b'"' || c == b'\\' || c == b'%'
    then b'\\' ∷ c ∷ []
    else if c == 0
    then b'\\' ∷ b'0' ∷ []
    else c ∷ []

-- Bytes as they can stand in a string literal.
unfoldable pub quote : List ℕ → List ℕ
quote [] = []
quote (c ∷ bytes) = quote_byte c ++ quote bytes

-- A round of the loop that goes on.
round-more :
    (fuel : ℕ) (p q r : Parser) (c : ℕ) (buffer written : List ℕ)
    → next_char p ≡ ok (c, q)
    → string_case c q buffer ≡ ok (more r written)
    → read_string_from (suc fuel) p buffer ≡ read_string_from fuel r written
unfolding read_string_from
round-more fuel p q r c buffer written e e' = rw (e, e') refl

-- A backslash and an escape for a byte.
escaped :
    (p : Parser) (c b : ℕ) (buffer rest : List ℕ)
    → p.rest ≡ c ∷ rest
    → simple_escape c ≡ some b
    → string_case b'\\' p buffer ≡ ok (more (pass p c rest) (buffer ++ b ∷ []))
unfolding string_case read_escape
escaped p c b buffer rest e s = rw (next_char-pass p c rest e, s) refl

round-escaped :
    (fuel : ℕ) (p : Parser) (c b : ℕ) (buffer rest : List ℕ)
    → p.rest ≡ b'\\' ∷ c ∷ rest
    → simple_escape c ≡ some b
    → read_string_from (suc fuel) p buffer
      ≡ read_string_from fuel (passed p (b'\\' ∷ c ∷ []) rest) (buffer ++ b ∷ [])
round-escaped fuel p c b buffer rest e s =
    let q = pass p b'\\' (c ∷ rest) in
    round-more fuel p q (pass q c rest) b'\\' buffer (buffer ++ b ∷ [])
      (next_char-pass p b'\\' (c ∷ rest) e) (escaped q c b buffer rest refl s)
    ∙ ap (λ (r : Parser). read_string_from fuel r (buffer ++ b ∷ []))
        (pass-passed q c rest ∙ passed-pass p b'\\' (c ∷ rest) (c ∷ []) rest)

-- The byte stands for itself.
plain :
    (p : Parser) (c : ℕ) (buffer : List ℕ)
    → (c == b'"' || c == b'\\' || c == b'%') ≡ false
    → (c == 0) ≡ false
    → string_case c p buffer ≡ ok (more p (buffer ++ c ∷ []))
unfolding string_case
plain p c buffer s z = ground arith

simple_escape-same :
    (c : ℕ) → (c == b'"' || c == b'\\' || c == b'%') ≡ true → simple_escape c ≡ some c
unfolding simple_escape
simple_escape-same c e = ground arith

round-byte :
    (fuel : ℕ) (p : Parser) (c : ℕ) (buffer rest : List ℕ)
    → p.rest ≡ quote_byte c ++ rest
    → read_string_from (suc fuel) p buffer
      ≡ read_string_from fuel (passed p (quote_byte c) rest) (buffer ++ c ∷ [])
unfolding quote_byte simple_escape
round-byte fuel p c buffer rest e = elim (Bool-cases (c == b'"' || c == b'\\' || c == b'%')) [
  | inl t ↦ rw t (round-escaped fuel p c c buffer rest (rw t at e) (simple_escape-same c t))
  | inr t ↦ elim (Bool-cases (c == 0)) [
    | inl z ↦
        let null : 0 ≡ c = ground arith in
        rw (t, z)
          (round-escaped fuel p b'0' 0 buffer rest (rw (t, z) at e) refl
            ∙ ap
                (λ (b : ℕ).
                  read_string_from fuel (passed p (b'\\' ∷ b'0' ∷ []) rest) (buffer ++ b ∷ []))
                null)
    | inr z ↦
        rw (t, z)
          (round-more fuel p (pass p c rest) (pass p c rest) c buffer (buffer ++ c ∷ [])
              (next_char-pass p c rest (rw (t, z) at e)) (plain (pass p c rest) c buffer t z)
            ∙ ap (λ (r : Parser). read_string_from fuel r (buffer ++ c ∷ []))
                (pass-passed p c rest))
  ]
]

quote_byte_length : (c : ℕ) (rest : List ℕ) → length rest < length (quote_byte c ++ rest)
unfolding quote_byte
quote_byte_length c rest = elim (Bool-cases (c == b'"' || c == b'\\' || c == b'%')) [
  | inl t ↦ rw t (omega arith)
  | inr t ↦ elim (Bool-cases (c == 0)) [
    | inl z ↦ rw (t, z) (omega arith)
    | inr z ↦ rw (t, z) (omega arith)
  ]
]

close : (p : Parser) (buffer : List ℕ) → string_case b'"' p buffer ≡ ok (ended p buffer string)
unfolding string_case
close p buffer = refl

round-ended :
    (fuel : ℕ) (p : Parser) (buffer rest : List ℕ)
    → p.rest ≡ b'"' ∷ rest
    → read_string_from (suc fuel) p buffer ≡ ok (passed p (b'"' ∷ []) rest, buffer, string)
unfolding read_string_from
round-ended fuel p buffer rest e =
    rw (next_char-pass p b'"' rest e, close (pass p b'"' rest) buffer)
      (ap (λ (q : Parser). ok (q, buffer, string)) (pass-passed p b'"' rest))

-- The loop up to the closing quotation mark.
read_string_from-quote :
    (bytes : List ℕ) (fuel : ℕ) (p : Parser) (buffer rest : List ℕ)
    → p.rest ≡ quote bytes ++ b'"' ∷ rest
    → length p.rest < fuel
    → read_string_from fuel p buffer
      ≡ ok (passed p (quote bytes ++ b'"' ∷ []) rest, buffer ++ bytes, string)
unfolding quote
read_string_from-quote bytes zero p buffer rest e h = absurd (omega arith)
read_string_from-quote [] (suc fuel) p buffer rest e h =
    rw (append-nil buffer) (round-ended fuel p buffer rest e)
read_string_from-quote (c ∷ bytes) (suc fuel) p buffer rest e h =
    let mid = quote bytes ++ b'"' ∷ rest in
    let q = passed p (quote_byte c) mid in
    let split : p.rest ≡ quote_byte c ++ mid =
      e ∙ append_assoc (quote_byte c) (quote bytes) (b'"' ∷ rest) in
    round-byte fuel p c buffer mid split
    ∙ read_string_from-quote bytes fuel q (buffer ++ c ∷ []) rest refl
        (omega (arith, quote_byte_length c mid, ap length split, h))
    ∙ ap₂ (λ (r : Parser) (b : List ℕ). ok (r, b, string))
        (passed-append p (quote_byte c) (quote bytes ++ b'"' ∷ []) mid rest
          ∙ ap (λ (cs : List ℕ). passed p cs rest)
              (sym (append_assoc (quote_byte c) (quote bytes) (b'"' ∷ []))))
        (append_assoc buffer (c ∷ []) bytes)
