-- ===== src/Text/Find/Shift.antt =====
-- wren_value.c, lines 909 to 935: the shift table of `wrenStringFind`.
use rust_wren.Base.{
  ℕ, zero, suc, ◌+◌, ◌-◌, ◌≤◌, ◌<◌, ◌≡◌, ◌≢◌, refl, ap, ◌∙◌, sym, List, [], ◌∷◌, true, false, ◌==◌,
  ltb, inl, inr, arith, length, length-set, get_elem?, get_elem?-set_self, get_elem?-set_ne, set,
  replicate, length-replicate, some, Bool-cases, All, lt→ltb,
}
use rust_wren.Result.{ok}
use rust_wren.Text.Find.{fill_shift, default_shift}

-- How far the window goes on when its last character is `c`: at least one character, at most the
-- whole needle, and not past any of the first `n` characters of the needle that is `c`.
abbrev pub Shifts : List ℕ → ℕ → ℕ → ℕ → ℕ → Type 0
Shifts needle needle_end n c s =
    (1 ≤ s)
    × (s ≤ suc needle_end)
    × ((k : ℕ) → k < n → get_elem? needle k ≡ some c → s + k ≤ needle_end)

-- The table is right for the first `n` characters.
abbrev pub Sound : List ℕ → ℕ → List ℕ → ℕ → Type 0
Sound needle needle_end shift n =
    (length shift ≡ 255)
    × ((c : ℕ) → c < 255 → (s : ℕ) × (get_elem? shift c ≡ some s) × Shifts needle needle_end n c s)

get_elem?-replicate : (n x i : ℕ) → i < n → get_elem? (replicate n x) i ≡ some x
get_elem?-replicate zero x i h = absurd (omega (arith, h))
get_elem?-replicate (suc n) x zero h = refl
get_elem?-replicate (suc n) x (suc i) h = get_elem?-replicate n x i (omega (arith, h))

pub default_shift-Sound :
    (needle : List ℕ) (needle_end n : ℕ)
    → n ≡ suc needle_end
    → Sound needle needle_end (default_shift n) 0
default_shift-Sound needle needle_end n e = (
  length-replicate 255 n,
  λ c h. (
    n,
    get_elem?-replicate 255 n c h,
    (omega (arith, e), omega (arith, e), λ k less. absurd (omega (arith, less))),
  ),
)

-- One more character of the needle.
set-Sound :
    (needle : List ℕ) (needle_end : ℕ) (shift : List ℕ) (index c : ℕ)
    → index < needle_end
    → c < 255
    → get_elem? needle index ≡ some c
    → Sound needle needle_end shift index
    → Sound needle needle_end (set shift c (needle_end - index)) (index + 1)
set-Sound needle needle_end shift index c less small is (size, sound) = (
  length-set shift c (needle_end - index) ∙ size,
  λ d h. elim (Bool-cases (d == c)) [
    | inl t ↦
        let same : d ≡ c = ground arith in
        (
          needle_end - index,
          ap (get_elem? (set shift c (needle_end - index))) same
              ∙ get_elem?-set_self shift c (needle_end - index) (omega (arith, size, small)),
          (omega (arith, less), omega arith, λ k below g. omega (arith, below, less)),
        )
    | inr t ↦
        let other : c ≢ d = ground arith in
        let old = sound d h in
        (
          old.0,
          get_elem?-set_ne shift (needle_end - index) other ∙ old.1,
          (
            old.2.0,
            old.2.1,
            λ k below g. elim (Bool-cases (k == index)) [
              | inl i ↦
                  let here : k ≡ index = ground arith in
                  let is_d : some c ≡ some d = sym is ∙ ap (get_elem? needle) (sym here) ∙ g in
                  let c_d : c ≡ d = cc in absurd (other c_d)
              | inr i ↦ old.2.2 k (before k index below i) g
            ],
          ),
        )
  ],
)
  where
    before : (k index : ℕ) → k < index + 1 → (k == index) ≡ false → k < index
    before k index below e = ground arith

pub fill_shift-Sound :
    (cs needle : List ℕ) (index needle_end : ℕ) (shift : List ℕ)
    → All (λ c. c < 255) cs
    → index + length cs ≡ needle_end
    → ((k c : ℕ) → get_elem? cs k ≡ some c → get_elem? needle (index + k) ≡ some c)
    → Sound needle needle_end shift index
    → (table : List ℕ) × (fill_shift cs index needle_end shift ≡ ok table)
      × Sound needle needle_end table needle_end
unfolding fill_shift
fill_shift-Sound [] needle index needle_end shift small e from sound =
    (shift, refl, rw (all index needle_end e) at sound)
  where
    all : (index needle_end : ℕ) → index + 0 ≡ needle_end → index ≡ needle_end
    all index needle_end e = omega (arith, e)
fill_shift-Sound (c ∷ cs) needle index needle_end shift (small, rest) e from sound =
    let fits : ltb c (length shift) ≡ true =
      lt→ltb c (length shift) (omega (arith, small, sound.0)) in
    let here = ap (get_elem? needle) (first index) ∙ from 0 c refl in
    rw (fits, fill_shift)
      (fill_shift-Sound cs needle (index + 1) needle_end (set shift c (needle_end - index)) rest
        (omega (arith, e)) (λ k d g. ap (get_elem? needle) (next index k) ∙ from (suc k) d g)
        (set-Sound needle needle_end shift index c (omega (arith, e)) small here sound))
  where
    first : (index : ℕ) → index ≡ index + 0
    first index = omega arith

    next : (index k : ℕ) → index + 1 + k ≡ index + suc k
    next index k = omega arith
