-- ===== src/Lexer/Tokens.antt =====
-- wren_compiler.c, lines 56 to 153 and 591 to 634: the types of tokens, the reserved words and the
-- classes of characters. A `char` is a byte; all tests of the lexer are on ASCII.
use rust_wren.Base.{
  ℕ, ◌+◌, ◌-◌, List, [], ◌∷◌, Bool, ◌&&◌, ◌||◌, leb, ◌==◌, if◌then◌else◌, length, Option, none,
  some,
}
use rust_wren.Bytes.{memcmp_eq}

pub data TokenType : Type 0 where
  left_paren right_paren left_bracket right_bracket left_brace right_brace : TokenType
  colon dot dotdot dotdotdot comma star slash percent hash plus minus ltlt gtgt : TokenType
  pipe pipepipe caret amp ampamp bang tilde question eq lt gt lteq gteq eqeq bangeq : TokenType
  break continue class construct else_ false_ for foreign if_ import as_ in_ is : TokenType
  null return static super this true_ var while : TokenType
  field static_field name number string interpolation line error eof : TokenType

-- The value of a literal; a number is the bits of its double.
pub data Literal : Type 0 where
  no_value : Literal
  text : List ℕ → Literal
  bits : ℕ → Literal

-- `start` is the distance from the beginning of the source.
pub record Token : Type 0 where
  pub type : TokenType
  pub start : ℕ
  pub length : ℕ
  pub line : ℕ
  pub value : Literal

-- `keywords`.
unfoldable pub keywords : List (List ℕ × TokenType)
keywords =
    ((b'b' ∷ b'r' ∷ b'e' ∷ b'a' ∷ b'k' ∷ []), break)
    ∷ ((b'c' ∷ b'o' ∷ b'n' ∷ b't' ∷ b'i' ∷ b'n' ∷ b'u' ∷ b'e' ∷ []), continue)
    ∷ ((b'c' ∷ b'l' ∷ b'a' ∷ b's' ∷ b's' ∷ []), class)
    ∷ ((b'c' ∷ b'o' ∷ b'n' ∷ b's' ∷ b't' ∷ b'r' ∷ b'u' ∷ b'c' ∷ b't' ∷ []), construct)
    ∷ ((b'e' ∷ b'l' ∷ b's' ∷ b'e' ∷ []), else_)
    ∷ ((b'f' ∷ b'a' ∷ b'l' ∷ b's' ∷ b'e' ∷ []), false_)
    ∷ ((b'f' ∷ b'o' ∷ b'r' ∷ []), for)
    ∷ ((b'f' ∷ b'o' ∷ b'r' ∷ b'e' ∷ b'i' ∷ b'g' ∷ b'n' ∷ []), foreign)
    ∷ ((b'i' ∷ b'f' ∷ []), if_)
    ∷ ((b'i' ∷ b'm' ∷ b'p' ∷ b'o' ∷ b'r' ∷ b't' ∷ []), import)
    ∷ ((b'a' ∷ b's' ∷ []), as_)
    ∷ ((b'i' ∷ b'n' ∷ []), in_)
    ∷ ((b'i' ∷ b's' ∷ []), is)
    ∷ ((b'n' ∷ b'u' ∷ b'l' ∷ b'l' ∷ []), null)
    ∷ ((b'r' ∷ b'e' ∷ b't' ∷ b'u' ∷ b'r' ∷ b'n' ∷ []), return)
    ∷ ((b's' ∷ b't' ∷ b'a' ∷ b't' ∷ b'i' ∷ b'c' ∷ []), static)
    ∷ ((b's' ∷ b'u' ∷ b'p' ∷ b'e' ∷ b'r' ∷ []), super)
    ∷ ((b't' ∷ b'h' ∷ b'i' ∷ b's' ∷ []), this)
    ∷ ((b't' ∷ b'r' ∷ b'u' ∷ b'e' ∷ []), true_)
    ∷ ((b'v' ∷ b'a' ∷ b'r' ∷ []), var)
    ∷ ((b'w' ∷ b'h' ∷ b'i' ∷ b'l' ∷ b'e' ∷ []), while)
    ∷ []

-- The search of `readName` in the table, for `size` bytes that begin `start`.
unfoldable pub keyword_type : List (List ℕ × TokenType) → List ℕ → ℕ → TokenType → TokenType
keyword_type [] start size type = type
keyword_type ((word, keyword) ∷ words) start size type =
    let rest = keyword_type words start size type in
    if size == length word && memcmp_eq size start word then keyword else rest

-- `isName` and `isDigit`.
unfoldable pub is_name : ℕ → Bool
is_name c = leb b'a' c && leb c b'z' || leb b'A' c && leb c b'Z' || c == b'_'

unfoldable pub is_digit : ℕ → Bool
is_digit c = leb b'0' c && leb c b'9'

-- The value of a hexadecimal digit in `readHexDigit`; `none` is -1.
unfoldable pub hex_value : ℕ → Option ℕ
hex_value c =
    if leb b'0' c && leb c b'9'
    then some (c - b'0')
    else if leb b'a' c && leb c b'f'
    then some (c - b'a' + 10)
    else if leb b'A' c && leb c b'F'
    then some (c - b'A' + 10)
    else none
