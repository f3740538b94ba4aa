-- ===== src/Lexer/Comments.antt =====
-- wren_compiler.c, lines 697 to 728: which texts are block comments.
use rust_wren.Base.{
  ℕ, zero, suc, ◌+◌, ◌-◌, ◌≤◌, ◌≡◌, ◌≢◌, refl, ap, ◌∙◌, List, [], ◌∷◌, ◌++◌, Bool, false, ◌&&◌,
  ◌||◌, ◌==◌, arith, length, length-append, append_assoc,
}
use rust_wren.Result.{ok, >>=-ok}
use rust_wren.Lexer.Cursor.{Parser, pass, peek_char, peek_next_char, peek_after, next_char}
use rust_wren.Lexer.Words.{next_two, comment_case, comment_round, skip_comment, skip_block_comment}
use rust_wren.Lexer.Passed.{
  passed, next_char-pass, passed-pass, pass-passed, passed-append, peek_char-pass,
}

-- Two characters that begin or end a block comment.
unfoldable pub is_mark : ℕ → ℕ → Bool
is_mark c d = c == b'/' && d == b'*' || c == b'*' && d == b'/'

-- The text of a block comment behind its beginning: any characters but the null byte, and whole
-- comments, up to the first end that is not the one of a comment inside.
pub data Comment : List ℕ → Type 0 where
  close : Comment (b'*' ∷ b'/' ∷ [])
  nested : (a b : List ℕ) → Comment a → Comment b → Comment (b'/' ∷ b'*' ∷ a ++ b)
  char :
      (c d : ℕ) (cs : List ℕ)
      → c ≢ 0
      → is_mark c d ≡ false
      → Comment (d ∷ cs)
      → Comment (c ∷ d ∷ cs)

-- How often the loop goes round.
unfoldable rounds : (cs : List ℕ) → Comment cs → ℕ
rounds _ close = 1
rounds _ (nested a b k l) = 1 + (rounds a k + rounds b l)
rounds _ (char c d cs z m k) = 1 + rounds (d ∷ cs) k

rounds-length : (cs : List ℕ) (k : Comment cs) → rounds cs k ≤ length cs
unfolding rounds
rounds-length _ close = omega arith
rounds-length _ (nested a b k l) =
    omega (arith, rounds-length a k, rounds-length b l, length-append a b)
rounds-length _ (char c d cs z m k) = omega (arith, rounds-length (d ∷ cs) k)

next_two-passed :
    (p : Parser) (c d : ℕ) (rest : List ℕ)
    → p.rest ≡ c ∷ d ∷ rest
    → next_two p ≡ ok (passed p (c ∷ d ∷ []) rest)
next_two-passed p c d rest e =
    let q = pass p c (d ∷ rest) in
    >>=-ok (next_char p) (c, q) _ (next_char-pass p c (d ∷ rest) e)
    ∙ >>=-ok (next_char q) (d, pass q d rest) _ (next_char-pass q d rest refl)
    ∙ ap (λ (r : Parser). ok r) (pass-passed q d rest ∙ passed-pass p c (d ∷ rest) (d ∷ []) rest)

-- A round of the loop on two characters.
comment_round-case :
    (nesting : ℕ) (p : Parser) (c d : ℕ) (rest : List ℕ)
    → c ≢ 0
    → p.rest ≡ c ∷ d ∷ rest
    → comment_round nesting p ≡ comment_case c d nesting p
unfolding comment_round
comment_round-case nesting p c d rest ne e =
    let nonzero : (c == 0) ≡ false = ground arith in
    let after : peek_next_char p ≡ ok d = ap peek_after e ∙ rw nonzero refl in
    >>=-ok (peek_char p) c _ (peek_char-pass p c (d ∷ rest) e) ∙ >>=-ok (peek_next_char p) d _ after

comment_case-char :
    (nesting c d : ℕ) (p : Parser) (rest : List ℕ)
    → c ≢ 0
    → is_mark c d ≡ false
    → p.rest ≡ c ∷ d ∷ rest
    → comment_case c d nesting p ≡ ok (nesting, passed p (c ∷ []) (d ∷ rest))
unfolding comment_case is_mark
comment_case-char nesting c d p rest ne m e =
    let moved = next_char-pass p c (d ∷ rest) e in
    let nonzero : (c == 0) ≡ false = ground arith in
    let opens : (c == b'/' && d == b'*') ≡ false = ground arith in
    let closes : (c == b'*' && d == b'/') ≡ false = ground arith in
    rw (nonzero, opens, closes, moved)
      (ap (λ (r : Parser). ok (nesting, r)) (pass-passed p c (d ∷ rest)))

-- A round of the loop that goes on.
round-goes :
    (fuel n m : ℕ) (p q : Parser)
    → comment_round (suc n) p ≡ ok (m, q)
    → skip_comment (suc fuel) (suc n) p ≡ skip_comment fuel m q
unfolding skip_comment
round-goes fuel n m p q e = >>=-ok (comment_round (suc n) p) (m, q) _ e

closing-round :
    (n : ℕ) (p : Parser) (rest : List ℕ)
    → p.rest ≡ b'*' ∷ b'/' ∷ rest
    → comment_round (suc n) p ≡ ok (n, passed p (b'*' ∷ b'/' ∷ []) rest)
unfolding comment_case
closing-round n p rest e =
    comment_round-case (suc n) p b'*' b'/' rest (λ z. ground arith) e
    ∙ >>=-ok (next_two p) _ _ (next_two-passed p b'*' b'/' rest e)
    ∙ ap (λ (m : ℕ). ok (m, passed p (b'*' ∷ b'/' ∷ []) rest)) (omega arith)

opening-round :
    (n : ℕ) (p : Parser) (rest : List ℕ)
    → p.rest ≡ b'/' ∷ b'*' ∷ rest
    → comment_round (suc n) p ≡ ok (suc (suc n), passed p (b'/' ∷ b'*' ∷ []) rest)
unfolding comment_case
opening-round n p rest e =
    comment_round-case (suc n) p b'/' b'*' rest (λ z. ground arith) e
    ∙ >>=-ok (next_two p) _ _ (next_two-passed p b'/' b'*' rest e)
    ∙ ap (λ (m : ℕ). ok (m, passed p (b'/' ∷ b'*' ∷ []) rest)) (omega arith)

-- The loop goes past a comment, and is then one level less deep.
skip_comment-passed :
    (cs : List ℕ) (k : Comment cs) (total fuel n : ℕ) (p : Parser) (rest : List ℕ)
    → total ≡ rounds cs k + fuel
    → p.rest ≡ cs ++ rest
    → skip_comment total (suc n) p ≡ skip_comment fuel n (passed p cs rest)
unfolding rounds
skip_comment-passed _ close zero fuel n p rest t e = absurd (omega (arith, t))
skip_comment-passed _ close (suc total) fuel n p rest t e =
    round-goes total n n p (passed p (b'*' ∷ b'/' ∷ []) rest) (closing-round n p rest e)
    ∙ ap (λ (f : ℕ). skip_comment f n (passed p (b'*' ∷ b'/' ∷ []) rest)) (omega (arith, t))
skip_comment-passed _ (nested a b k l) zero fuel n p rest t e = absurd (omega (arith, t))
skip_comment-passed _ (nested a b k l) (suc total) fuel n p rest t e =
    let split : p.rest ≡ b'/' ∷ b'*' ∷ a ++ (b ++ rest) =
      e ∙ ap (λ (r : List ℕ). b'/' ∷ b'*' ∷ r) (append_assoc a b rest) in
    let q = passed p (b'/' ∷ b'*' ∷ []) (a ++ (b ++ rest)) in
    round-goes total n (suc (suc n)) p q (opening-round n p (a ++ (b ++ rest)) split)
    ∙ skip_comment-passed a k total (rounds b l + fuel) (suc n) q (b ++ rest) (omega (arith, t))
        refl
    ∙ skip_comment-passed b l (rounds b l + fuel) fuel n (passed q a (b ++ rest)) rest refl refl
    ∙ ap (skip_comment fuel n) (
        passed-append q a b (b ++ rest) rest
        ∙ passed-append p (b'/' ∷ b'*' ∷ []) (a ++ b) (a ++ (b ++ rest)) rest)
skip_comment-passed _ (char c d cs z m k) zero fuel n p rest t e = absurd (omega (arith, t))
skip_comment-passed _ (char c d cs z m k) (suc total) fuel n p rest t e =
    let q = passed p (c ∷ []) (d ∷ cs ++ rest) in
    round-goes total n (suc n) p q (
      comment_round-case (suc n) p c d (cs ++ rest) z e
      ∙ comment_case-char (suc n) c d p (cs ++ rest) z m e)
    ∙ skip_comment-passed (d ∷ cs) k total fuel n q rest (omega (arith, t)) refl
    ∙ ap (skip_comment fuel n) (passed-append p (c ∷ []) (d ∷ cs) (d ∷ cs ++ rest) rest)

-- `skipBlockComment` behind the beginning of a block comment, where the comment is one of the
-- grammar `Comment`, with any comments nested in it: the parser is right behind its end, the lines
-- are counted, and no error is reported.
pub skip_block_comment-Comment :
    (p : Parser) (cs rest : List ℕ)
    → Comment cs
    → p.rest ≡ cs ++ rest
    → skip_block_comment p ≡ ok (passed p cs rest)
unfolding skip_block_comment skip_comment
skip_block_comment-Comment p cs rest k e =
    skip_comment-passed cs k (suc (length p.rest)) (suc (length p.rest) - rounds cs k) 0 p rest
      (omega (arith, rounds-length cs k, ap length e, length-append cs rest)) e
