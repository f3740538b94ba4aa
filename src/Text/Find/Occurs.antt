-- ===== src/Text/Find/Occurs.antt =====
-- wren_value.c, lines 897 to 961: where a string occurs in another one.
use rust_wren.Base.{
  ℕ, zero, suc, ◌+◌, ◌≤◌, ◌<◌, ◌≡◌, ◌≢◌, refl, ap, ◌∙◌, sym, List, [], ◌∷◌, Bool, true, false, ◌&&◌,
  ◌==◌, inl, inr, arith, length, get_elem?, lt-of-get_elem?, drop, some, Bool-cases, ap₂,
}
use rust_wren.Bytes.{memcmp_eq}
use rust_wren.Text.Find.{matches}

-- The needle stands in the haystack at an index.
abbrev pub Occurs : List ℕ → List ℕ → ℕ → Type 0
Occurs haystack needle i =
    (k c : ℕ) → get_elem? needle k ≡ some c → get_elem? haystack (i + k) ≡ some c

get_elem?-drop : (xs : List ℕ) (i k : ℕ) → get_elem? (drop i xs) k ≡ get_elem? xs (i + k)
get_elem?-drop xs zero k = ap (get_elem? xs) (omega arith)
get_elem?-drop [] (suc i) k = refl
get_elem?-drop (x ∷ xs) (suc i) k = get_elem?-drop xs i k ∙ ap (get_elem? (x ∷ xs)) (succ i k)
  where
    succ : (i k : ℕ) → suc (i + k) ≡ suc i + k
    succ i k = omega arith

-- What `memcmp` compares.
ne-of_test : (a b : ℕ) → (a == b) ≡ false → a ≢ b
ne-of_test a b e = ground arith

memcmp_eq-agrees :
    (n : ℕ) (a b : List ℕ)
    → memcmp_eq n a b ≡ true
    → (k c : ℕ) → k < n
    → get_elem? b k ≡ some c
    → get_elem? a k ≡ some c
unfolding memcmp_eq
memcmp_eq-agrees zero a b e k c h g = absurd (omega (arith, h))
memcmp_eq-agrees (suc n) [] b e k c h g = cc
memcmp_eq-agrees (suc n) (x ∷ a) [] e k c h g = cc
memcmp_eq-agrees (suc n) (x ∷ a) (y ∷ b) e zero c h g =
    let same : x ≡ y = ground arith in ap (λ (z : ℕ). some z) same ∙ g
memcmp_eq-agrees (suc n) (x ∷ a) (y ∷ b) e (suc k) c h g =
    let rest : memcmp_eq n a b ≡ true = ground arith in
    memcmp_eq-agrees n a b rest k c (omega (arith, h)) g

memcmp_eq-of_agrees :
    (n : ℕ) (a b : List ℕ)
    → n ≤ length b
    → ((k c : ℕ) → k < n → get_elem? b k ≡ some c → get_elem? a k ≡ some c)
    → memcmp_eq n a b ≡ true
unfolding memcmp_eq
memcmp_eq-of_agrees zero a b h f = refl
memcmp_eq-of_agrees (suc n) a [] h f = absurd (omega (arith, h))
memcmp_eq-of_agrees (suc n) [] (y ∷ b) h f = cc (f 0 y (omega arith) refl)
memcmp_eq-of_agrees (suc n) (x ∷ a) (y ∷ b) h f =
    let first = f 0 y (omega arith) refl in
    let same : (x == y) ≡ true = ground (arith, first) in
    rw same (
      memcmp_eq-of_agrees n a b (omega (arith, h))
        (λ k c less g. f (suc k) c (omega (arith, less)) g))

-- The test of the loop finds exactly the occurrences.
module _ (haystack needle : List ℕ) (needle_end last c index : ℕ)
    (size : length needle ≡ suc needle_end) (is_last : get_elem? needle needle_end ≡ some last)
    (is_c : get_elem? haystack (index + needle_end) ≡ some c) where
  pub Occurs-of_matches :
      matches haystack needle needle_end last c index ≡ true → Occurs haystack needle index
  unfolding matches
  Occurs-of_matches e k d g =
      let same : last ≡ c = ground arith in
      let equal : memcmp_eq needle_end (drop index haystack) needle ≡ true = ground arith in
      elim (Bool-cases (k == needle_end)) [
        | inl t ↦
            let at_end : k ≡ needle_end = ground arith in
            let is : some last ≡ some d = sym is_last ∙ ap (get_elem? needle) (sym at_end) ∙ g in
            ap (λ (j : ℕ). get_elem? haystack (index + j)) at_end
            ∙ is_c
            ∙ ap (λ (z : ℕ). some z) (sym same)
            ∙ is
        | inr t ↦
            let before : k < needle_end =
              omega (arith, size, lt-of-get_elem? needle k d g, ne-of_test k needle_end t) in
            sym (get_elem?-drop haystack index k)
            ∙ memcmp_eq-agrees needle_end (drop index haystack) needle equal k d before g
      ]

  pub Occurs-not_matches :
      matches haystack needle needle_end last c index ≡ false → ¬ (Occurs haystack needle index)
  unfolding matches
  Occurs-not_matches e o =
      let at_end : some c ≡ some last = sym is_c ∙ o needle_end last is_last in
      let same : (last == c) ≡ true = ground (arith, at_end) in
      let equal : memcmp_eq needle_end (drop index haystack) needle ≡ true =
        memcmp_eq-of_agrees needle_end (drop index haystack) needle (omega (arith, size))
          (λ k d less g. get_elem?-drop haystack index k ∙ o k d g) in
      cc (ap₂ (λ (a b : Bool). a && b) same equal)
