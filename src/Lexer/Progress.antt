-- ===== src/Lexer/Progress.antt =====
-- wren_compiler.c: the parser before and after a part of the lexer. A part that ends either gives a
-- parser or runs into undefined behaviour, but does not run out of fuel.
pub mod Words
pub mod Strings
pub mod Scan
pub mod Readable
use rust_wren.Base.{
  ℕ, zero, suc, ◌+◌, ◌≤◌, ◌<◌, ◌≡◌, refl, ap, ◌∙◌, List, [], ◌∷◌, Bool, true, false, ◌==◌, inl, inr,
  arith, All, length, Bool-cases, if◌then◌else◌,
}
use rust_wren.Result.{Result, ok, fault, ◌>>=◌, Ends, >>=-Ends, Ends-map}
use rust_wren.Lexer.Tokens.{TokenType}
use rust_wren.Lexer.Cursor.{
  Parser, peek, peek_after, peek_char, peek_next_char, advance, next_char, retreat, back,
  match_char, skip_while, make_token, two_char_token, skip_line_comment,
}
use rust_wren.Lexer.Strings.{max_interpolation_nesting}

-- The source, from what lies before a position and from there on.
abbrev pub whole : List ℕ → List ℕ → List ℕ
whole [] rest = rest
whole (c ∷ before) rest = whole before (c ∷ rest)

-- The stack of `parens`: it fits its array, and each entry is positive.
abbrev pub IsNested : List ℕ → Type 0
IsNested parens = (length parens ≤ max_interpolation_nesting) × All (λ (n : ℕ). 1 ≤ n) parens

-- The source is the same, and the stack of parentheses is kept in order.
abbrev pub Keeps : Parser → Parser → Type 0
Keeps p q =
    (whole q.before q.rest ≡ whole p.before p.rest) × (IsNested p.parens → IsNested q.parens)

-- Besides, the position is no further back.
abbrev pub Onward : Parser → Parser → Type 0
Onward p q = Keeps p q × (length q.rest ≤ length p.rest)

abbrev pub Forward : Parser → Parser → Type 0
Forward p q = Keeps p q × (length q.rest < length p.rest)

pub Keeps-refl : (p : Parser) → Keeps p p
Keeps-refl p = (refl, λ h. h)

pub Keeps-trans : (p q r : Parser) → Keeps p q → Keeps q r → Keeps p r
Keeps-trans p q r (same, nested) (same', nested') = (same' ∙ same, λ h. nested' (nested h))

pub Onward-refl : (p : Parser) → Onward p p
Onward-refl p = (Keeps-refl p, omega arith)

pub Onward-trans : (p q r : Parser) → Onward p q → Onward q r → Onward p r
Onward-trans p q r (k, le) (k', le') = (Keeps-trans p q r k k', omega (arith, le, le'))

pub Forward-Onward : (p q : Parser) → Forward p q → Onward p q
Forward-Onward p q (k, less) = (k, omega (arith, less))

pub Forward-trans : (p q r : Parser) → Forward p q → Onward q r → Forward p r
Forward-trans p q r (k, less) (k', le) = (Keeps-trans p q r k k', omega (arith, less, le))

-- A part of the lexer that starts where another one ended.
pub Ends-Onward :
    (p q : Parser) (r : Result Parser) → Onward p q → Ends (Onward q) r → Ends (Onward p) r
Ends-Onward p q r o h = Ends-map (Onward p) r h (λ s o'. Onward-trans p q s o o')

-- Two parts in a row, of which each is onward.
pub >>=-Onward :
    {A B : Type 0} (p : Parser) (at : A → Parser) (to : B → Parser) (first : Result A)
    (then_ : A → Result B)
    → Ends (λ a. Onward p (at a)) first
    → ((a : A) → Ends (λ b. Onward (at a) (to b)) (then_ a))
    → Ends (λ b. Onward p (to b)) (first >>= then_)
>>=-Onward p at to first then_ h k =
    >>=-Ends (λ b. Onward p (to b)) first then_ h
      (λ a o.
        Ends-map (λ b. Onward p (to b)) (then_ a) (k a) (λ b o'. Onward-trans p (at a) (to b) o o'))

pub peek-Ends : (rest : List ℕ) → Ends (λ c. Unit {0}) (peek rest)
peek-Ends [] = tt
peek-Ends (c ∷ rest) = tt

pub peek_after-Ends : (rest : List ℕ) → Ends (λ c. Unit {0}) (peek_after rest)
peek_after-Ends [] = tt
peek_after-Ends (c ∷ rest) = elim (Bool-cases (c == 0)) [
  | inl t ↦ rw t tt
  | inr t ↦ rw t (peek-Ends rest)
]

pub peek_char-Ends : (p : Parser) → Ends (λ c. Unit {0}) (peek_char p)
peek_char-Ends p = peek-Ends p.rest

pub peek_next_char-Ends : (p : Parser) → Ends (λ c. Unit {0}) (peek_next_char p)
peek_next_char-Ends p = peek_after-Ends p.rest

advance-Ends :
    (p : Parser) (rest : List ℕ)
    → rest ≡ p.rest
    → Ends (λ s. Keeps p s.1 × (length p.rest ≡ suc (length s.1.rest))) (advance p rest)
advance-Ends p [] e = tt
advance-Ends p (c ∷ rest) e = ((ap (whole p.before) e, λ h. h), rw (← e) refl)

pub next_char-Ends :
    (p : Parser) → Ends (λ s. Keeps p s.1 × (length p.rest ≡ suc (length s.1.rest))) (next_char p)
unfolding next_char
next_char-Ends p = advance-Ends p p.rest refl

pub next_char-Forward : (p : Parser) → Ends (λ s. Forward p s.1) (next_char p)
next_char-Forward p =
    Ends-map (λ s. Forward p s.1) (next_char p) (next_char-Ends p)
      (λ s (k, e). (k, omega (arith, e)))

retreat-Ends :
    (p : Parser) (before : List ℕ)
    → before ≡ p.before
    → Ends (λ q. Keeps p q × (length q.rest ≡ suc (length p.rest))) (retreat p before)
retreat-Ends p [] e = tt
retreat-Ends p (c ∷ before) e = ((ap (λ (b : List ℕ). whole b p.rest) e, λ h. h), refl)

pub back-Ends :
    (p : Parser) → Ends (λ q. Keeps p q × (length q.rest ≡ suc (length p.rest))) (back p)
unfolding back
back-Ends p = retreat-Ends p p.before refl

advance-parens :
    (p : Parser) (rest : List ℕ)
    → rest ≡ p.rest
    → Ends (λ s. Forward p s.1 × (s.1.parens ≡ p.parens)) (advance p rest)
advance-parens p [] e = tt
advance-parens p (c ∷ rest) e = (((ap (whole p.before) e, λ h. h), rw (← e) (omega arith)), refl)

pub next_char-parens :
    (p : Parser) → Ends (λ s. Forward p s.1 × (s.1.parens ≡ p.parens)) (next_char p)
unfolding next_char
next_char-parens p = advance-parens p p.rest refl

pub next_char-Onward : (p : Parser) → Ends (λ s. Onward p s.1) (next_char p)
next_char-Onward p =
    Ends-map (λ s. Onward p s.1) (next_char p) (next_char-Forward p) (λ s f. Forward-Onward p s.1 f)

pub match_char-Ends : (p : Parser) (c : ℕ) → Ends (λ s. Onward p s.1) (match_char p c)
unfolding match_char
match_char-Ends p c =
    >>=-Ends (λ s. Onward p s.1) (peek_char p) _ (peek_char-Ends p)
      (λ d _. elim (Bool-cases (d == c)) [
        | inl t ↦ rw t (
            >>=-Ends (λ s. Onward p s.1) (next_char p) _ (next_char-Forward p)
              (λ s f. Forward-Onward p s.1 f))
        | inr t ↦ rw t (Onward-refl p)
      ])

pub skip_while-Ends :
    (test : ℕ → Bool) (fuel : ℕ) (p : Parser)
    → length p.rest < fuel
    → Ends (Onward p) (skip_while test fuel p)
unfolding skip_while
skip_while-Ends test zero p h = absurd (omega arith)
skip_while-Ends test (suc fuel) p h = >>=-Ends (Onward p) (peek_char p) _ (peek_char-Ends p) (λ c _.
    elim (Bool-cases (test c)) [
      | inl t ↦ rw t (
          >>=-Ends (Onward p) (next_char p) _ (next_char-Forward p) (λ s f.
            let shorter : length s.1.rest < length p.rest = f.1 in
            Ends-Onward p s.1 (skip_while test fuel s.1) (Forward-Onward p s.1 f)
              (skip_while-Ends test fuel s.1 (omega (arith, shorter, h)))))
      | inr t ↦ rw t (Onward-refl p)
    ])

pub skip_all-Ends :
    (test : ℕ → Bool) (p : Parser) → Ends (Onward p) (skip_while test (suc (length p.rest)) p)
skip_all-Ends test p = skip_while-Ends test (suc (length p.rest)) p (omega arith)

pub two_char_token-Ends :
    (p : Parser) (c : ℕ) (two one : TokenType) → Ends (Onward p) (two_char_token p c two one)
unfolding two_char_token
two_char_token-Ends p c two one =
    >>=-Ends (Onward p) (match_char p c) _ (match_char-Ends p c) (λ s o. o)

pub skip_line_comment-Ends : (p : Parser) → Ends (Onward p) (skip_line_comment p)
unfolding skip_line_comment
skip_line_comment-Ends p = skip_all-Ends _ p
