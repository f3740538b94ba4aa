-- ===== src/Bytes.antt =====
-- wren_value.h, lines 763 to 768: the comparison of a string with a sequence of bytes. A string is
-- the list of its bytes.
use rust_wren.Base.{
  ℕ, zero, suc, List, [], ◌∷◌, Bool, true, false, ◌&&◌, ◌==◌, length, ◌≡◌, refl, ◌↔◌, arith,
}

-- `memcmp(a, b, n) == 0`; a read past the end of either string makes it false.
unfoldable pub memcmp_eq : ℕ → List ℕ → List ℕ → Bool
memcmp_eq zero a b = true
memcmp_eq (suc n) [] b = false
memcmp_eq (suc n) (x ∷ a) [] = false
memcmp_eq (suc n) (x ∷ a) (y ∷ b) = x == y && memcmp_eq n a b

-- `wrenStringEqualsCString`.
unfoldable pub string_equals_cstring : List ℕ → List ℕ → Bool
unfolding memcmp_eq
string_equals_cstring a b = length a == length b && memcmp_eq (length b) a b

pub string_equals_cstring_iff : (a b : List ℕ) → (string_equals_cstring a b ≡ true) ↔ (a ≡ b)
unfolding string_equals_cstring
string_equals_cstring_iff [] [] = (λ _. refl, λ _. refl)
string_equals_cstring_iff [] (y ∷ b) = ground arith
string_equals_cstring_iff (x ∷ a) [] = ground arith
string_equals_cstring_iff (x ∷ a) (y ∷ b) = ground (arith, string_equals_cstring_iff a b)
