-- ===== src/Lexer/Passed.antt =====
-- wren_compiler.c: the parser past a part of the source, for the lemmas on what the lexer reads.
use rust_wren.Base.{
  ℕ, ◌+◌, ◌≡◌, refl, ap, ap₂, sym, List, [], ◌∷◌, ◌++◌, ◌==◌, inl, inr, arith, Bool-cases,
  if◌then◌else◌,
}
use rust_wren.Result.{ok}
use rust_wren.Lexer.Scan.{start_token}
use rust_wren.Lexer.Cursor.{Parser, pass, advance, peek, next_char, peek_char}

-- How many line breaks there are.
unfoldable pub newlines : List ℕ → ℕ
newlines [] = 0
newlines (c ∷ cs) = (if c == b'\n' then 1 else 0) + newlines cs

-- A list turned around, in front of another one.
abbrev pub turned : List ℕ → List ℕ → List ℕ
turned [] before = before
turned (c ∷ cs) before = turned cs (c ∷ before)

-- The parser past the bytes `cs`, in front of `rest`.
abbrev pub passed : Parser → List ℕ → List ℕ → Parser
passed p cs rest = record p {
  before = turned cs p.before;
  rest = rest;
  current_line = p.current_line + newlines cs;
}

-- The parser where a token starts, with the tokens shifted.
abbrev pub started : Parser → Parser
started p = start_token (record p { previous = p.current; current = p.next })

pub next_char-pass :
    (p : Parser) (c : ℕ) (rest : List ℕ) → p.rest ≡ c ∷ rest → next_char p ≡ ok (c, pass p c rest)
unfolding next_char
next_char-pass p c rest e = ap (advance p) e

pub peek_char-pass : (p : Parser) (c : ℕ) (rest : List ℕ) → p.rest ≡ c ∷ rest → peek_char p ≡ ok c
peek_char-pass p c rest e = ap peek e

-- The parser with another position in the source and another line.
abbrev at : Parser → List ℕ → List ℕ → ℕ → Parser
at p before rest current_line = record p {
  before = before;
  rest = rest;
  current_line = current_line;
}

line_after :
    (n m : ℕ) (c : ℕ)
    → (if c == b'\n' then n + 1 else n) + m ≡ n + ((if c == b'\n' then 1 else 0) + m)
line_after n m c = elim (Bool-cases (c == b'\n')) [
  | inl t ↦ rw t (omega arith)
  | inr t ↦ rw t (omega arith)
]

pub passed-pass :
    (p : Parser) (c : ℕ) (mid cs rest : List ℕ)
    → passed (pass p c mid) cs rest ≡ passed p (c ∷ cs) rest
unfolding newlines
passed-pass p c mid cs rest =
    ap (at p (turned cs (c ∷ p.before)) rest) (line_after p.current_line (newlines cs) c)

pub pass-passed : (p : Parser) (c : ℕ) (rest : List ℕ) → pass p c rest ≡ passed p (c ∷ []) rest
unfolding newlines
pass-passed p c rest = elim (Bool-cases (c == b'\n')) [
  | inl t ↦ rw t refl
  | inr t ↦ rw t (ap (at p (c ∷ p.before) rest) (omega arith))
]

pub passed-nil : (p : Parser) (rest : List ℕ) → p.rest ≡ rest → passed p [] rest ≡ p
unfolding newlines
passed-nil p rest e = ap₂ (λ (r : List ℕ) (line : ℕ). at p p.before r line) (sym e) (omega arith)

turned-append : (a b before : List ℕ) → turned (a ++ b) before ≡ turned b (turned a before)
turned-append [] b before = refl
turned-append (c ∷ a) b before = turned-append a b (c ∷ before)

newlines-append : (a b : List ℕ) → newlines (a ++ b) ≡ newlines a + newlines b
unfolding newlines
newlines-append [] b = omega arith
newlines-append (c ∷ a) b = omega (arith, newlines-append a b)

pub passed-append :
    (p : Parser) (a b mid rest : List ℕ) → passed (passed p a mid) b rest ≡ passed p (a ++ b) rest
passed-append p a b mid rest =
    ap₂ (λ (before : List ℕ) (line : ℕ). at p before rest line) (sym (turned-append a b p.before))
      (omega (arith, newlines-append a b))
