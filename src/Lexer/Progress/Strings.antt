-- ===== src/Lexer/Progress/Strings.antt =====
-- wren_compiler.c, lines 848 to 1044: string literals.
use rust_wren.Base.{
  ℕ, zero, suc, ◌*◌, ◌^◌, ◌≤◌, ◌<◌, ◌≡◌, ◌≢◌, ap, List, [], ◌∷◌, ◌&&◌, ◌||◌, ◌==◌, inl, inr, arith,
  length, Bool-cases, Option, none, some, ltb,
}
use rust_wren.Result.{ok, ◌>>=◌, Ends, >>=-Ends, Ends-map}
use rust_wren.Utils.Utf8.{encode_num_bytes, encode}
use rust_wren.Lexer.Tokens.{TokenType}
use rust_wren.Lexer.Cursor.{
  Parser, lex_error, incomplete_escape, invalid_digit, unterminated_string, unterminated_raw_string,
  peek_char, peek_next_char, next_char, back,
}
use rust_wren.Lexer.Words.{next_two, read_hex_digit}
use rust_wren.Lexer.Strings.{
  max_interpolation_nesting, add_digit, read_hex_escape, encoded, read_unicode_escape,
  simple_escape, escape_by, read_escape, Round, ended, more, open_interpolation, string_case,
  read_string_from, read_string, Raw, start_raw, read_raw_from, read_raw_string,
}
use rust_wren.Lexer.Progress.{
  IsNested, Keeps, Onward, Forward, Keeps-refl, Keeps-trans, Onward-trans, Forward-Onward,
  >>=-Onward, peek_char-Ends, peek_next_char-Ends, next_char-Ends, next_char-parens, back-Ends,
}
use rust_wren.Lexer.Progress.Words.{next_two-Forward, read_hex_digit-Ends}

-- At most one character further back.
abbrev Near : Parser → Parser → Type 0
Near p q = Keeps p q × (length q.rest ≤ suc (length p.rest))

add_digit-Ends : (value digit : ℕ) → Ends (λ v. Unit {0}) (add_digit value digit)
add_digit-Ends value digit = elim (Bool-cases (ltb (value * 16) (2 ^ 31))) [
  | inl t ↦ rw t tt
  | inr t ↦ rw t tt
]

read_hex_escape-Ends :
    (digits value : ℕ) (p : Parser) → Ends (λ s. Near p s.1) (read_hex_escape digits value p)
unfolding read_hex_escape
read_hex_escape-Ends zero value p = (Keeps-refl p, omega arith)
read_hex_escape-Ends (suc digits) value p =
    >>=-Ends (λ s. Near p s.1) (peek_char p) _ (peek_char-Ends p)
      (λ c _. elim (Bool-cases (c == b'"' || c == 0)) [
        | inl t ↦ rw t (
            >>=-Ends (λ s. Near p s.1) (back (lex_error p incomplete_escape)) _
              (back-Ends (lex_error p incomplete_escape)) (λ q (k, e). (k, omega (arith, e))))
        | inr t ↦ rw t (
            >>=-Ends (λ s. Near p s.1) (read_hex_digit p) _ (read_hex_digit-Ends p)
              (digit p digits value (read_hex_escape-Ends digits)))
      ])
  where
    digit :
        (p : Parser) (digits value : ℕ)
        → ((value : ℕ) (q : Parser) → Ends (λ s. Near q s.1) (read_hex_escape digits value q))
        → (s : Option ℕ × Parser) → (Onward p s.1 × (s.0 ≢ none → length s.1.rest < length p.rest))
        → Ends
            (λ (r : ℕ × Parser). Near p r.1)
            (elim s.0 [
              | none ↦ ok (value, lex_error s.1 invalid_digit)
              | some d ↦ add_digit value d >>= λ v. read_hex_escape digits v s.1
            ])
    digit p digits value ih (none, q) ((k, le), less) = (k, omega (arith, le))
    digit p digits value ih (some d, q) ((k, le), less) =
        let shorter : length q.rest < length p.rest = less (λ e. cc) in
        >>=-Ends (λ s. Near p s.1) (add_digit value d) _ (add_digit-Ends value d)
          (λ v _.
            Ends-map (λ s. Near p s.1) (read_hex_escape digits v q) (ih v q)
              (λ s (k', le'). (Keeps-trans p q s.1 k k', omega (arith, shorter, le'))))

encoded-Ends : (n : ℕ) (written : Option (ℕ × List ℕ)) → Ends (λ b. Unit {0}) (encoded n written)
encoded-Ends zero written = tt
encoded-Ends (suc n) none = tt
encoded-Ends (suc n) (some (count, bytes)) = tt

read_unicode_escape-Ends :
    (p : Parser) (buffer : List ℕ) (digits : ℕ)
    → Ends (λ s. Near p s.1) (read_unicode_escape p buffer digits)
unfolding read_unicode_escape
read_unicode_escape-Ends p buffer digits =
    >>=-Ends (λ s. Near p s.1) (read_hex_escape digits 0 p) _ (read_hex_escape-Ends digits 0 p)
      (λ (v, q) near.
        >>=-Ends (λ s. Near p s.1) (encoded (encode_num_bytes v) (encode v)) _
          (encoded-Ends (encode_num_bytes v) (encode v)) (λ bytes _. near))

escape_by-Ends :
    (o : Option ℕ) (c : ℕ) (p : Parser) (buffer : List ℕ)
    → Ends (λ s. Near p s.1) (escape_by o c p buffer)
escape_by-Ends (some b) c p buffer = (Keeps-refl p, omega arith)
escape_by-Ends none c p buffer = elim (Bool-cases (c == b'u')) [
  | inl t ↦ rw t (read_unicode_escape-Ends p buffer 4)
  | inr t ↦ elim (Bool-cases (c == b'U')) [
    | inl u ↦ rw (t, u) (read_unicode_escape-Ends p buffer 8)
    | inr u ↦ elim (Bool-cases (c == b'x')) [
      | inl x ↦
          rw (t, u, x)
            (>>=-Ends (λ s. Near p s.1) (read_hex_escape 2 0 p) _ (read_hex_escape-Ends 2 0 p)
              (λ s near. near))
      | inr x ↦ rw (t, u, x) (Keeps-refl p, omega arith)
    ]
  ]
]

read_escape-Ends : (p : Parser) (buffer : List ℕ) → Ends (λ s. Onward p s.1) (read_escape p buffer)
unfolding read_escape
read_escape-Ends p buffer =
    >>=-Ends (λ s. Onward p s.1) (next_char p) _ (next_char-Ends p)
      (λ s (k, e).
        Ends-map (λ r. Onward p r.1) (escape_by (simple_escape s.0) s.0 s.1 buffer)
          (escape_by-Ends (simple_escape s.0) s.0 s.1 buffer)
          (λ r (k', le). (Keeps-trans p s.1 r.1 k k', omega (arith, e, le))))

-- A round ends the string, or moves on.
abbrev RoundEnds : Parser → Round → Type 0
RoundEnds p (ended q buffer type) = Onward p q
RoundEnds p (more q buffer) = Forward p q

pushed-IsNested :
    (p q : Parser)
    → length p.parens < max_interpolation_nesting
    → Keeps p q
    → q.parens ≡ p.parens
    → IsNested p.parens
    → IsNested (1 ∷ q.parens)
pushed-IsNested p q room k same nested =
    (omega (arith, ap length same, room), (omega arith, (k.1 nested).1))

open_interpolation-Ends :
    (p : Parser) (buffer : List ℕ)
    → length p.parens < max_interpolation_nesting
    → Ends (RoundEnds p) (open_interpolation p buffer)
unfolding open_interpolation
open_interpolation-Ends p buffer room =
    >>=-Ends (RoundEnds p) (next_char p) _ (next_char-parens p) (λ s h.
      let k : Keeps p s.1 = h.0.0 in
      let less : length s.1.rest < length p.rest = h.0.1 in
      let nested = pushed-IsNested p s.1 room k h.1 in
      elim (Bool-cases (s.0 == b'(')) [
        | inl t ↦ rw t ((k.0, nested), omega (arith, less))
        | inr t ↦ rw t ((k.0, nested), omega (arith, less))
      ])

string_case-Ends :
    (c : ℕ) (p q : Parser) (buffer : List ℕ)
    → Keeps p q
    → length p.rest ≡ suc (length q.rest)
    → Ends (RoundEnds p) (string_case c q buffer)
unfolding string_case
string_case-Ends c p q buffer k e = elim (Bool-cases (c == b'"')) [
  | inl t ↦ rw t (k, omega (arith, e))
  | inr t ↦ elim (Bool-cases (c == 0)) [
    | inl z ↦
        rw (t, z)
          (>>=-Ends (RoundEnds p) (back (lex_error q unterminated_string)) _
            (back-Ends (lex_error q unterminated_string))
            (λ r (k', e'). (Keeps-trans p q r k k', omega (arith, e, e'))))
    | inr z ↦ elim (Bool-cases (c == b'%' && ltb (length q.parens) max_interpolation_nesting)) [
      | inl o ↦
          let room : length q.parens < max_interpolation_nesting = ground arith in
          rw (t, z, o)
            (Ends-map (RoundEnds p) (open_interpolation q buffer)
              (open_interpolation-Ends q buffer room) (λ r h. round-after r h))
      | inr o ↦ elim (Bool-cases (c == b'%')) [
        | inl d ↦ rw (t, z, o, d) (k, omega (arith, e))
        | inr d ↦ elim (Bool-cases (c == b'\\')) [
          | inl b ↦
              rw (t, z, o, d, b)
                (>>=-Ends (RoundEnds p) (read_escape q buffer) _ (read_escape-Ends q buffer)
                  (λ r (k', le). (Keeps-trans p q r.1 k k', omega (arith, e, le))))
          | inr b ↦ rw (t, z, o, d, b) (k, omega (arith, e))
        ]
      ]
    ]
  ]
]
  where
    round-after : (r : Round) → RoundEnds q r → RoundEnds p r
    round-after (ended r b t) (k', le) = (Keeps-trans p q r k k', omega (arith, e, le))
    round-after (more r b) (k', less) = (Keeps-trans p q r k k', omega (arith, e, less))

read_string_from-Ends :
    (fuel : ℕ) (p : Parser) (buffer : List ℕ)
    → length p.rest < fuel
    → Ends (λ s. Onward p s.0) (read_string_from fuel p buffer)
unfolding read_string_from
read_string_from-Ends zero p buffer h = absurd (omega arith)
read_string_from-Ends (suc fuel) p buffer h =
    >>=-Ends (λ s. Onward p s.0) (next_char p) _ (next_char-Ends p)
      (λ (c, q) (k, e).
        >>=-Ends (λ s. Onward p s.0) (string_case c q buffer) _ (string_case-Ends c p q buffer k e)
          (rounds fuel p h (read_string_from-Ends fuel)))
  where
    rounds :
        (fuel : ℕ) (p : Parser)
        → length p.rest < suc fuel
        → ((q : Parser) (buffer : List ℕ)
            → length q.rest < fuel
            → Ends (λ s. Onward q s.0) (read_string_from fuel q buffer))
        → (r : Round) → RoundEnds p r
        → Ends
            (λ (s : Parser × List ℕ × TokenType). Onward p s.0)
            (elim r [
              | ended p'' buffer' type ↦ ok (p'', buffer', type)
              | more p'' buffer' ↦ read_string_from fuel p'' buffer'
            ])
    rounds fuel p h ih (ended r b t) o = o
    rounds fuel p h ih (more r b) (k, less) =
        Ends-map (λ s. Onward p s.0) (read_string_from fuel r b) (ih r b (omega (arith, less, h)))
          (λ s o. Onward-trans p r s.0 (k, omega (arith, less)) o)

pub read_string-Ends : (p : Parser) → Ends (Onward p) (read_string p)
unfolding read_string
read_string-Ends p =
    >>=-Ends (Onward p) (read_string_from (suc (length p.rest)) p []) _
      (read_string_from-Ends (suc (length p.rest)) p [] (omega arith)) (λ (q, buffer, type) o. o)

read_raw_from-Ends :
    (fuel : ℕ) (p : Parser) (r : Raw)
    → length p.rest < fuel
    → Ends (λ s. Onward p s.0) (read_raw_from fuel p r)
unfolding read_raw_from
read_raw_from-Ends zero p r h = absurd (omega arith)
read_raw_from-Ends (suc fuel) p r h =
    >>=-Ends (λ s. Onward p s.0) (next_char p) _ (next_char-Ends p)
      (λ (c, q) (k, e).
        >>=-Ends (λ s. Onward p s.0) (peek_char q) _ (peek_char-Ends q)
          (λ c1 _.
            >>=-Ends (λ s. Onward p s.0) (peek_next_char q) _ (peek_next_char-Ends q)
              (λ c2 _. elim (Bool-cases (c == b'"' && c1 == b'"' && c2 == b'"')) [
                | inl t ↦ rw t (k, omega (arith, e))
                | inr t ↦ elim (Bool-cases (c == 0 || c1 == 0 || c2 == 0)) [
                  | inl z ↦
                      rw (t, z)
                        (>>=-Ends (λ s. Onward p s.0) (back (lex_error q unterminated_raw_string)) _
                          (back-Ends (lex_error q unterminated_raw_string))
                          (λ q' (k', e'). (Keeps-trans p q q' k k', omega (arith, e, e'))))
                  | inr z ↦
                      rw (t, z)
                        (Ends-map (λ s. Onward p s.0) (read_raw_from fuel q _)
                          (read_raw_from-Ends fuel q _ (omega (arith, e, h)))
                          (λ s o. Onward-trans p q s.0 (k, omega (arith, e)) o))
                ]
              ])))

pub read_raw_string-Ends : (p : Parser) → Ends (Onward p) (read_raw_string p)
unfolding read_raw_string
read_raw_string-Ends p =
    >>=-Onward p (λ q. q) (λ q. q) (next_two p) _ (two p)
      (λ inside.
        >>=-Onward inside (λ s. s.0) (λ q. q)
          (read_raw_from (suc (length inside.rest)) inside start_raw) _
          (read_raw_from-Ends (suc (length inside.rest)) inside start_raw (omega arith))
          (λ (q, r). >>=-Ends (Onward q) (next_two q) _ (two q) (λ q' o. o)))
  where
    two : (p : Parser) → Ends (Onward p) (next_two p)
    two p = Ends-map (Onward p) (next_two p) (next_two-Forward p) (λ q f. Forward-Onward p q f)
