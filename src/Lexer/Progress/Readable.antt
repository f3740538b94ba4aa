-- ===== src/Lexer/Progress/Readable.antt =====
-- wren_compiler.c, lines 637 to 695: the steps of the lexer on a source that it does not leave. A part
-- that is safe returns, unless it runs out of fuel.
pub mod Words
pub mod Scan
use rust_wren.Base.{
  ℕ, zero, suc, ◌≡◌, ◌≢◌, refl, ap, List, [], ◌∷◌, Bool, true, false, not, ◌&&◌, ◌==◌, inl, inr,
  arith, length, Bool-cases, ◌∙◌,
}
use rust_wren.Result.{Result, ok, fault, ◌>>=◌, Safely, >>=-Safely, Safely-map}
use rust_wren.Lexer.Tokens.{TokenType}
use rust_wren.Lexer.Cursor.{
  Parser, peek, peek_after, peek_char, peek_next_char, advance, next_char, retreat, back,
  match_char, skip_while, two_char_token, skip_line_comment,
}

-- Three quotation marks, which begin a raw string.
abbrev pub Triple : ℕ → List ℕ → Type 0
Triple c [] = ⊥
Triple c (d ∷ []) = ⊥
Triple c (d ∷ e ∷ rest) = (c ≡ b'"') × (d ≡ b'"') × (e ≡ b'"')

-- The character behind a backslash is there and begins no escape in hexadecimal digits.
abbrev pub IsShort : ℕ → Type 0
IsShort d = (d ≢ 0) × (d ≢ b'x') × (d ≢ b'u') × (d ≢ b'U')

-- The rest of a source: bytes other than 0 and the terminator, a byte 0. There is no percent sign and
-- no backslash directly in front of the terminator, no backslash in front of `x`, `u` or `U`, and no
-- triple quotation mark.
abbrev pub Readable : List ℕ → Type 0
Readable [] = ⊥
Readable (c ∷ []) = c ≡ 0
Readable (c ∷ d ∷ rest) =
    (c ≢ 0)
    × (c ≡ b'\\' → IsShort d)
    × (c ≡ b'%' → d ≢ 0)
    × (¬ Triple c (d ∷ rest))
    × Readable (d ∷ rest)

-- What is behind a character.
abbrev pub behind : List ℕ → List ℕ
behind [] = []
behind (c ∷ rest) = rest

pub Readable-behind : (c : ℕ) (rest : List ℕ) → Readable (c ∷ rest) → c ≢ 0 → Readable rest
Readable-behind c [] h ne = absurd (ne h)
Readable-behind c (d ∷ rest) (nonzero, short, sign, triple, h) ne = h

pub Readable-IsShort : (c d : ℕ) (rest : List ℕ) → Readable (c ∷ d ∷ rest) → c ≡ b'\\' → IsShort d
Readable-IsShort c d rest (nonzero, short, sign, triple, h) = short

pub Readable-sign : (c d : ℕ) (rest : List ℕ) → Readable (c ∷ d ∷ rest) → c ≡ b'%' → d ≢ 0
Readable-sign c d rest (nonzero, short, sign, triple, h) = sign

pub peek-Safely :
    (rest : List ℕ) → Readable rest → Safely (λ c. c ≢ 0 → Readable (behind rest)) (peek rest)
peek-Safely [] h = absurd h
peek-Safely (c ∷ rest) h = λ ne. Readable-behind c rest h ne

pub peek_after-Safely :
    (rest : List ℕ)
    → Readable rest
    → Safely (λ d. d ≢ 0 → Readable (behind (behind rest))) (peek_after rest)
peek_after-Safely [] h = absurd h
peek_after-Safely (c ∷ rest) h = elim (Bool-cases (c == 0)) [
  | inl t ↦ rw t (λ ne. absurd (ne refl))
  | inr t ↦
      let nonzero : c ≢ 0 = ground arith in
      rw t (peek-Safely rest (Readable-behind c rest h nonzero))
]

pub peek_char-Safely :
    (p : Parser) → Readable p.rest → Safely (λ c. c ≢ 0 → Readable (behind p.rest)) (peek_char p)
peek_char-Safely p h = peek-Safely p.rest h

pub peek_next_char-Safely :
    (p : Parser)
    → Readable p.rest
    → Safely (λ d. d ≢ 0 → Readable (behind (behind p.rest))) (peek_next_char p)
peek_next_char-Safely p h = peek_after-Safely p.rest h

-- A character is passed.
abbrev pub Passes : Parser → ℕ × Parser → Type 0
Passes p (c, q) = (p.rest ≡ c ∷ q.rest) × (q.before ≡ c ∷ p.before)

advance-Safely :
    (p : Parser) (rest : List ℕ)
    → rest ≡ p.rest
    → Readable rest
    → Safely (λ s. Passes p s) (advance p rest)
advance-Safely p [] e h = absurd h
advance-Safely p (c ∷ rest) e h = (rw (← e) refl, refl)

pub next_char-Safely : (p : Parser) → Readable p.rest → Safely (λ s. Passes p s) (next_char p)
unfolding next_char
next_char-Safely p h = advance-Safely p p.rest refl h

-- A character that is known not to be the terminator.
pub next_char-Readable :
    (p : Parser)
    → Readable p.rest
    → Readable (behind p.rest)
    → Safely (λ s. Readable s.1.rest × (s.1.rest ≡ behind p.rest)) (next_char p)
next_char-Readable p h k =
    Safely-map (λ s. Readable s.1.rest × (s.1.rest ≡ behind p.rest)) (next_char p)
      (next_char-Safely p h)
      (λ (c, q) (e, b).
        let same : behind p.rest ≡ q.rest = ap behind e in (rw same at k, rw same refl))

pub next_char-rest :
    (p : Parser)
    → Readable p.rest
    → Readable (behind p.rest)
    → Safely (λ s. Readable s.1.rest) (next_char p)
next_char-rest p h k =
    Safely-map (λ s. Readable s.1.rest) (next_char p) (next_char-Readable p h k) (λ s r. r.0)

retreat-Safely :
    (p : Parser) (before : List ℕ) (c : ℕ) (earlier : List ℕ)
    → before ≡ c ∷ earlier
    → Safely (λ q. q.rest ≡ c ∷ p.rest) (retreat p before)
retreat-Safely p [] c earlier e = absurd cc
retreat-Safely p (d ∷ before) c earlier e = ap (λ (l : List ℕ). head_or l) e
  where
    head_or : List ℕ → List ℕ
    head_or [] = []
    head_or (x ∷ l) = x ∷ p.rest

-- Back to a character that was passed.
pub back-Readable :
    (p q : Parser) (c : ℕ)
    → Readable p.rest
    → p.rest ≡ c ∷ q.rest
    → q.before ≡ c ∷ p.before
    → Safely (λ r. Readable r.rest) (back q)
unfolding back
back-Readable p q c h e b =
    Safely-map (λ r. Readable r.rest) (retreat q q.before) (retreat-Safely q q.before c p.before b)
      (λ r same. let whole : p.rest ≡ r.rest = cc in rw whole at h)

-- A pass of a character other than the terminator.
pub match_char-Safely :
    (p : Parser) (c : ℕ)
    → c ≢ 0
    → Readable p.rest
    → Safely (λ s. Readable s.1.rest) (match_char p c)
unfolding match_char
match_char-Safely p c ne h =
    >>=-Safely (λ s. Readable s.1.rest) (peek_char p) _ (peek_char-Safely p h)
      (λ d k. elim (Bool-cases (d == c)) [
        | inl t ↦
            let nonzero : d ≢ 0 = ground arith in
            rw t (
              >>=-Safely (λ s. Readable s.1.rest) (next_char p) _ (next_char-rest p h (k nonzero))
                (λ s r. r))
        | inr t ↦ rw t h
      ])

pub skip_while-Safely :
    (test : ℕ → Bool) (fuel : ℕ) (p : Parser)
    → test 0 ≡ false
    → Readable p.rest
    → Safely (λ q. Readable q.rest) (skip_while test fuel p)
unfolding skip_while
skip_while-Safely test zero p ends h = tt
skip_while-Safely test (suc fuel) p ends h =
    >>=-Safely (λ q. Readable q.rest) (peek_char p) _ (peek_char-Safely p h)
      (λ c k. elim (Bool-cases (test c)) [
        | inl t ↦
            let nonzero : c ≢ 0 = λ e. absurd cc in
            rw t (
              >>=-Safely (λ q. Readable q.rest) (next_char p) _ (next_char-rest p h (k nonzero))
                (λ s r. skip_while-Safely test fuel s.1 ends r))
        | inr t ↦ rw t h
      ])

pub two_char_token-Safely :
    (p : Parser) (c : ℕ) (two one : TokenType)
    → c ≢ 0
    → Readable p.rest
    → Safely (λ q. Readable q.rest) (two_char_token p c two one)
unfolding two_char_token
two_char_token-Safely p c two one ne h =
    >>=-Safely (λ q. Readable q.rest) (match_char p c) _ (match_char-Safely p c ne h) (λ s r. r)

pub skip_line_comment-Safely :
    (p : Parser) → Readable p.rest → Safely (λ q. Readable q.rest) (skip_line_comment p)
unfolding skip_line_comment
skip_line_comment-Safely p h = skip_while-Safely _ (suc (length p.rest)) p refl h
