-- ===== src/Text/Find/First.antt =====
-- wren_value.c, lines 897 to 961: what `wrenStringFind` finds.
use rust_wren.Base.{
  ℕ, zero, suc, ◌+◌, ◌-◌, ◌%◌, ◌^◌, ◌≤◌, ◌<◌, ◌≡◌, refl, ap, ◌∙◌, List, [], ◌∷◌, true, false, ◌==◌,
  ltb, leb, inl, inr, arith, length, get_elem?, get_elem?-of_lt, lt-of-get_elem?, take, some,
  Bool-cases, All, length-take,
}
use rust_wren.Result.{ok, >>=-ok}
use rust_wren.Text.Find.{not_found, read, default_shift, fill_shift, search_from, string_find}
use rust_wren.Text.Find.Occurs.{Occurs}
use rust_wren.Text.Find.Slide.{First, slide-First}
use rust_wren.Text.Find.Shift.{default_shift-Sound, fill_shift-Sound}

get_elem?-of_take :
    (n : ℕ) (xs : List ℕ) (k c : ℕ) → get_elem? (take n xs) k ≡ some c → get_elem? xs k ≡ some c
get_elem?-of_take zero xs k c g = cc
get_elem?-of_take (suc n) [] k c g = cc
get_elem?-of_take (suc n) (x ∷ xs) zero c g = g
get_elem?-of_take (suc n) (x ∷ xs) (suc k) c g = get_elem?-of_take n xs k c g

All-take : (n m : ℕ) (xs : List ℕ) → All (λ x. x < m) xs → All (λ x. x < m) (take n xs)
All-take zero m xs h = tt
All-take (suc n) m [] h = tt
All-take (suc n) m (x ∷ xs) (h, hs) = (h, All-take n m xs hs)

-- Past the end there is no occurrence of a needle that is not empty.
none_past :
    (haystack needle : List ℕ) (start : ℕ)
    → 1 ≤ length needle
    → length haystack < start + length needle
    → (j : ℕ) → start ≤ j
    → ¬ (Occurs haystack needle j)
none_past haystack needle start full past j from o =
    let end = get_elem?-of_lt needle (length needle - 1) (omega (arith, full)) in
    let inside =
      lt-of-get_elem? haystack (j + (length needle - 1)) end.0
        (o (length needle - 1) end.0 end.1) in
    omega (arith, inside, past, from, full)

search_from-First :
    (haystack needle : List ℕ) (start : ℕ)
    → All (λ c. c < 255) haystack
    → All (λ c. c < 255) needle
    → 1 ≤ length needle
    → start + length needle ≤ length haystack
    → length haystack < 2 ^ 32
    → (r : ℕ) × (search_from haystack needle start ≡ ok r) × First haystack needle start r
unfolding search_from
search_from-First haystack needle start small bytes full fits short =
    let end = length needle - 1 in
    let size : length needle ≡ suc end = omega (arith, full) in
    let table =
      fill_shift-Sound (take end needle) needle 0 end (default_shift (length needle))
        (All-take end 255 needle bytes) (omega (arith, length-take end needle))
        (λ k c g. ap (get_elem? needle) (from_zero k) ∙ get_elem?-of_take end needle k c g)
        (default_shift-Sound needle end (length needle) size) in
    let last = get_elem?-of_lt needle end (omega (arith, full)) in
    let range = (length haystack + 2 ^ 32 - length needle) % 2 ^ 32 in
    let space : range + suc end ≡ length haystack = omega (arith, fits, short, full) in
    let found =
      slide-First haystack needle table.0 end last.0 range size last.1 table.2 small space short
        (suc (length haystack)) start start (omega arith) (omega (arith, fits)) (omega arith)
        (λ j from below. absurd (omega (arith, from, below))) in
    (
      found.0,
      >>=-ok (fill_shift (take end needle) 0 end (default_shift (length needle))) table.0 _ table.1
          ∙ >>=-ok (read (get_elem? needle end)) last.0 _ (ap read last.1)
          ∙ found.1,
      found.2,
    )
  where
    from_zero : (k : ℕ) → 0 + k ≡ k
    from_zero k = omega arith

-- `wrenStringFind` on strings without the byte 0xff, which are together below 2 ^ 32 bytes long: it
-- reads and writes only inside of its arrays and ends, and it returns the first index, from the given
-- one on, at which the needle stands in the haystack, and UINT32_MAX where there is none.
pub string_find-First :
    (haystack needle : List ℕ) (start : ℕ)
    → All (λ c. c < 255) haystack
    → All (λ c. c < 255) needle
    → length haystack + length needle < 2 ^ 32
    → start < 2 ^ 32
    → (r : ℕ) × (string_find haystack needle start ≡ ok r) × First haystack needle start r
unfolding string_find
string_find-First haystack needle start small bytes short begin =
    elim (Bool-cases (length needle == 0)) [
      | inl t ↦
          let empty : length needle ≡ 0 = ground arith in
          rw (t, string_find)
            (
              start,
              refl,
              inl (
                omega arith,
                λ k c g. absurd (omega (arith, lt-of-get_elem? needle k c g, empty)),
                λ j from below. absurd (omega (arith, from, below)),
              ),
            )
      | inr t ↦
          let full : 1 ≤ length needle = ground arith in
          elim (Bool-cases (ltb (length haystack) ((start + length needle) % 2 ^ 32))) [
            | inl p ↦
                let past : length haystack < start + length needle = past_end p in
                rw (t, p, string_find)
                  (not_found, refl, inr (refl, none_past haystack needle start full past))
            | inr p ↦ elim (Bool-cases (leb (length haystack) start)) [
              | inl q ↦
                  let past : length haystack < start + length needle = ground arith in
                  rw (t, p, q, string_find)
                    (not_found, refl, inr (refl, none_past haystack needle start full past))
              | inr q ↦
                  let fits : start + length needle ≤ length haystack =
                    inside (length haystack) (length needle) start short p q in
                  rw (t, p, q, string_find)
                    (search_from-First haystack needle start small bytes full fits
                      (omega (arith, short)))
            ]
          ]
    ]
  where
    past_end : {n m : ℕ} → ltb n (m % 2 ^ 32) ≡ true → n < m
    past_end h = ground arith

    inside :
        (h n start : ℕ)
        → h + n < 2 ^ 32
        → ltb h ((start + n) % 2 ^ 32) ≡ false
        → leb h start ≡ false
        → start + n ≤ h
    inside h n start short p q = ground arith
