-- ===== src/Text/Find/Slide.antt =====
-- wren_value.c, lines 897 to 961: the loop of `wrenStringFind`.
use rust_wren.Base.{
  ℕ, zero, suc, ◌+◌, ◌-◌, ◌^◌, ◌≤◌, ◌<◌, ◌≡◌, refl, ap, ◌∙◌, sym, List, [], ◌∷◌, ◌⊎◌, true, false,
  ◌==◌, ltb, leb, inl, inr, arith, length, get_elem?, get_elem?-of_lt, lt-of-get_elem?, some,
  Bool-cases, All, leb→le,
}
use rust_wren.Result.{ok, >>=-ok}
use rust_wren.Text.Find.{not_found, read, matches, slide}
use rust_wren.Text.Find.Occurs.{Occurs, Occurs-of_matches, Occurs-not_matches}
use rust_wren.Text.Find.Shift.{Shifts, Sound}

-- No occurrence from an index on, before another one.
abbrev pub NoneFrom : List ℕ → List ℕ → ℕ → ℕ → Type 0
NoneFrom haystack needle start end = (j : ℕ) → start ≤ j → j < end → ¬ (Occurs haystack needle j)

-- The first occurrence from an index on, or `UINT32_MAX` where there is none.
abbrev pub First : List ℕ → List ℕ → ℕ → ℕ → Type 0
First haystack needle start r =
    ((start ≤ r) × Occurs haystack needle r × NoneFrom haystack needle start r)
    ⊎ ((r ≡ not_found) × ((j : ℕ) → start ≤ j → ¬ (Occurs haystack needle j)))

All-get : (xs : List ℕ) (n i c : ℕ) → All (λ x. x < n) xs → get_elem? xs i ≡ some c → c < n
All-get [] n i c h g = cc
All-get (x ∷ xs) n zero c (h, hs) g = omega (arith, h, injected x c g)
  where
    injected : (x c : ℕ) → some x ≡ some c → x ≡ c
    injected x c e = cc
All-get (x ∷ xs) n (suc i) c (h, hs) g = All-get xs n i c hs g

module _ (haystack needle shift : List ℕ) (needle_end last range : ℕ)
    (size : length needle ≡ suc needle_end) (is_last : get_elem? needle needle_end ≡ some last)
    (sound : Sound needle needle_end shift needle_end) (bytes : All (λ c. c < 255) haystack)
    (space : range + suc needle_end ≡ length haystack) (short : length haystack < 2 ^ 32) where
  -- Behind the last window there is no occurrence.
  past_range : (j : ℕ) → range < j → ¬ (Occurs haystack needle j)
  past_range j h o =
      let inside = lt-of-get_elem? haystack (j + needle_end) last (o needle_end last is_last) in
      omega (arith, inside, space, h)

  -- The occurrences that the window skips.
  skipped :
      (index c s : ℕ)
      → get_elem? haystack (index + needle_end) ≡ some c
      → Shifts needle needle_end needle_end c s
      → NoneFrom haystack needle (index + 1) (index + s)
  skipped index c s is (positive, small, safe) j from below o =
      let k = index + needle_end - j in
      let inside : k < length needle = omega (arith, from, below, small, size) in
      let at_k = get_elem?-of_lt needle k inside in
      let spot : get_elem? haystack (index + needle_end) ≡ some at_k.0 =
        ap (get_elem? haystack) (spot_index index j s from below small) ∙ o k at_k.0 at_k.1 in
      let same : some at_k.0 ≡ some c = sym spot ∙ is in
      let bound = safe k (omega (arith, from, below)) (at_k.1 ∙ same) in
      omega (arith, bound, from, below, small)
    where
      spot_index :
          (index j s : ℕ)
          → index + 1 ≤ j
          → j < index + s
          → s ≤ suc needle_end
          → index + needle_end ≡ j + (index + needle_end - j)
      spot_index index j s from below small = omega (arith, from, below, small)

  past_or_before :
      (start index j : ℕ)
      → NoneFrom haystack needle start index
      → start ≤ j
      → range < index
      → ¬ (Occurs haystack needle j)
  past_or_before start index j before h past = elim (Bool-cases (ltb j index)) [
    | inl b ↦ before j h (ground arith)
    | inr b ↦ past_range j (ground arith)
  ]

  -- The rounds of the loop: the last one, one that finds a match, and one that goes on.
  slide_end :
      (fuel index : ℕ)
      → leb index range ≡ false
      → slide (suc fuel) haystack needle shift needle_end last range index ≡ ok not_found
  unfolding slide
  slide_end fuel index t = rw (t, slide) refl

  slide_found :
      (fuel index c : ℕ)
      → leb index range ≡ true
      → get_elem? haystack (index + needle_end) ≡ some c
      → matches haystack needle needle_end last c index ≡ true
      → slide (suc fuel) haystack needle shift needle_end last range index ≡ ok index
  unfolding slide
  slide_found fuel index c t is m =
      rw (t, slide)
        (>>=-ok (read (get_elem? haystack (index + needle_end))) c _ (ap read is) ∙ rw m refl)

  slide_on :
      (fuel index c s : ℕ)
      → leb index range ≡ true
      → get_elem? haystack (index + needle_end) ≡ some c
      → matches haystack needle needle_end last c index ≡ false
      → get_elem? shift c ≡ some s
      → index + s < 2 ^ 32
      → slide (suc fuel) haystack needle shift needle_end last range index
        ≡ slide fuel haystack needle shift needle_end last range (index + s)
  unfolding slide
  slide_on fuel index c s t is m at_c fits =
      rw (t, slide)
        (>>=-ok (read (get_elem? haystack (index + needle_end))) c _ (ap read is)
          ∙ rw m (
              >>=-ok (read (get_elem? shift c)) s _ (ap read at_c)
              ∙ ap (slide fuel haystack needle shift needle_end last range) (omega (arith, fits))))

  -- No occurrence up to the next window.
  skip_on :
      (start index c s : ℕ)
      → get_elem? haystack (index + needle_end) ≡ some c
      → matches haystack needle needle_end last c index ≡ false
      → Shifts needle needle_end needle_end c s
      → NoneFrom haystack needle start index
      → NoneFrom haystack needle start (index + s)
  skip_on start index c s is m shifts before j h below = elim (Bool-cases (ltb j index)) [
    | inl b ↦ before j h (ground arith)
    | inr b ↦ elim (Bool-cases (j == index)) [
      | inl e ↦
          let here : index ≡ j = ground arith in
          rw here at (Occurs-not_matches haystack needle needle_end last c index size is_last is m)
      | inr e ↦ skipped index c s is shifts j (after index j b e) below
    ]
  ]
    where
      after : (index j : ℕ) → ltb j index ≡ false → (j == index) ≡ false → index + 1 ≤ j
      after index j b e = ground arith

  pub slide-First :
      (fuel start index : ℕ)
      → start ≤ index
      → index ≤ length haystack
      → length haystack < fuel + index
      → NoneFrom haystack needle start index
      → (r : ℕ) × (slide fuel haystack needle shift needle_end last range index ≡ ok r)
        × First haystack needle start r
  slide-First zero start index from inside enough before = absurd (omega (arith, inside, enough))
  slide-First (suc fuel) start index from inside enough before =
      elim (Bool-cases (leb index range)) [
        | inr t ↦ (
          not_found,
          slide_end fuel index t,
          inr (refl, λ j h. past_or_before start index j before h (ground arith)),
        )
        | inl t ↦
            let window : index ≤ range = leb→le index range t in
            let here =
              get_elem?-of_lt haystack (index + needle_end) (omega (arith, window, space)) in
            let c = here.0 in
            elim (Bool-cases (matches haystack needle needle_end last c index)) [
              | inl m ↦ (
                index,
                slide_found fuel index c t here.1 m,
                inl (
                  from,
                  Occurs-of_matches haystack needle needle_end last c index size is_last here.1 m,
                  before,
                ),
              )
              | inr m ↦
                  let entry =
                    sound.1 c (All-get haystack 255 (index + needle_end) c bytes here.1) in
                  let s = entry.0 in
                  let positive : 1 ≤ s = entry.2.0 in
                  let small : s ≤ suc needle_end = entry.2.1 in
                  let rest =
                    slide-First fuel start (index + s) (omega (arith, from))
                      (omega (arith, window, small, space)) (omega (arith, enough, positive))
                      (skip_on start index c s here.1 m entry.2 before) in
                  (
                    rest.0,
                    slide_on fuel index c s t here.1 m entry.1
                          (omega (arith, window, small, space, short))
                        ∙ rest.1,
                    rest.2,
                  )
            ]
      ]
