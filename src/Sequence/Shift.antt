-- ===== src/Sequence/Shift.antt =====
-- wren_value.c, lines 313 to 361: the loops that shift the elements of a list.
use rust_wren.Base.{
  ℕ, zero, suc, ◌+◌, ◌≡◌, refl, ap, ap₂, ◌∙◌, sym, List, [], ◌∷◌, ◌++◌, true, false, ltb, lt→ltb,
  arith, length, length-append, get_elem?, set, append_assoc, Option, some, get_elem?-append_length,
}
use rust_wren.Sequence.{put, copy, shift_down, shift_up}

module _ {ℓ} {A : Type ℓ} where
  set_here :
      (xs ys : List (Option A)) (a v : Option A) → set (xs ++ a ∷ ys) (length xs) v ≡ xs ++ v ∷ ys
  set_here [] ys a v = refl
  set_here (x ∷ xs) ys a v = ap (λ (t : List (Option A)). x ∷ t) (set_here xs ys a v)

  pub put_here :
      (cells xs ys : List (Option A)) (a v : Option A) (i : ℕ)
      → cells ≡ xs ++ a ∷ ys
      → i ≡ length xs
      → put cells i v ≡ some (xs ++ v ∷ ys)
  unfolding put
  put_here cells xs ys a v i e at =
      let inside : ltb i (length cells) ≡ true =
        lt→ltb i (length cells) (omega (arith, at, ap length e, length-append xs (a ∷ ys))) in
      rw inside (
        ap (λ (t : List (Option A)). some t)
          (ap₂ (λ (t : List (Option A)) (k : ℕ). set t k v) e at ∙ set_here xs ys a v))

  pub get_here :
      (cells xs ys : List (Option A)) (a : Option A) (i : ℕ)
      → cells ≡ xs ++ a ∷ ys
      → i ≡ length xs
      → get_elem? cells i ≡ some a
  get_here cells xs ys a i e at =
      ap₂ (λ (t : List (Option A)) (k : ℕ). get_elem? t k) e at ∙ get_elem?-append_length xs ys a

  -- A copy to the next slot, and one to the slot before.
  copy_next :
      (xs ys : List (Option A)) (a b : Option A) (i : ℕ)
      → i ≡ length xs
      → copy (xs ++ a ∷ b ∷ ys) i (suc i) ≡ some (xs ++ a ∷ a ∷ ys)
  unfolding copy
  copy_next xs ys a b i at =
      rw (get_here (xs ++ a ∷ b ∷ ys) xs (b ∷ ys) a i refl at, copy)
        (put_here (xs ++ a ∷ b ∷ ys) (xs ++ a ∷ []) ys b a (suc i)
            (sym (append_assoc xs (a ∷ []) (b ∷ ys))) (omega (arith, at, length-append xs (a ∷ [])))
          ∙ ap (λ (t : List (Option A)). some t) (append_assoc xs (a ∷ []) (a ∷ ys)))

  copy_before :
      (xs ys : List (Option A)) (a b : Option A) (i : ℕ)
      → i ≡ length xs
      → copy (xs ++ a ∷ b ∷ ys) (i + 1) i ≡ some (xs ++ b ∷ b ∷ ys)
  unfolding copy
  copy_before xs ys a b i at =
      rw
        (
          get_here (xs ++ a ∷ b ∷ ys) (xs ++ a ∷ []) ys b (i + 1)
              (sym (append_assoc xs (a ∷ []) (b ∷ ys)))
              (omega (arith, at, length-append xs (a ∷ []))),
          copy,
        )
        (put_here (xs ++ a ∷ b ∷ ys) xs (b ∷ ys) a b i refl at)

  -- The last item of a list.
  split_last :
      (ys : List (Option A)) (n : ℕ)
      → length ys ≡ suc n
      → (front : List (Option A)) × (w : Option A) × (ys ≡ front ++ w ∷ []) × (length front ≡ n)
  split_last [] n e = absurd (omega (arith, e))
  split_last (y ∷ []) n e = ([], y, refl, omega (arith, e))
  split_last (y ∷ z ∷ ys) zero e = absurd (omega (arith, e))
  split_last (y ∷ z ∷ ys) (suc n) e =
      let (front, w, same, size) = split_last (z ∷ ys) n (omega (arith, e)) in
      (y ∷ front, w, ap (λ (t : List (Option A)). y ∷ t) same, ap suc size)

  -- The loop opens a slot at the index.
  pub shift_down-opens :
      (n i : ℕ) (xs ys free : List (Option A)) (y : Option A)
      → length ys ≡ n
      → i ≡ length xs + n
      → (z : Option A) × (shift_down (xs ++ (ys ++ y ∷ free)) (length xs) i
          ≡ some (xs ++ z ∷ (ys ++ free)))
  unfolding shift_down
  shift_down-opens zero zero xs [] free y size at = (y, refl)
  shift_down-opens zero (suc i) xs [] free y size at =
      let stop : ltb (length xs) (suc i) ≡ false = ground arith in (y, rw (stop, shift_down) refl)
  shift_down-opens zero i xs (x ∷ ys) free y size at = absurd (omega (arith, size))
  shift_down-opens (suc n) zero xs ys free y size at = absurd (omega (arith, at))
  shift_down-opens (suc n) (suc i) xs ys free y size at =
      let (front, w, same, fewer) = split_last ys n size in
      let (z, done) = shift_down-opens n i xs front (w ∷ free) w fewer (omega (arith, at)) in
      let goes : ltb (length xs) (suc i) ≡ true = lt→ltb (length xs) (suc i) (omega (arith, at)) in
      let split : xs ++ (ys ++ y ∷ free) ≡ xs ++ front ++ w ∷ y ∷ free =
        ap (λ (t : List (Option A)). xs ++ (t ++ y ∷ free)) same
        ∙ ap (λ (t : List (Option A)). xs ++ t) (append_assoc front (w ∷ []) (y ∷ free))
        ∙ sym (append_assoc xs front (w ∷ y ∷ free)) in
      let copied : copy (xs ++ (ys ++ y ∷ free)) i (suc i) ≡ some (xs ++ (front ++ w ∷ w ∷ free)) =
        ap (λ (t : List (Option A)). copy t i (suc i)) split
        ∙ copy_next (xs ++ front) free w y i (omega (arith, at, fewer, length-append xs front))
        ∙ ap (λ (t : List (Option A)). some t) (append_assoc xs front (w ∷ w ∷ free)) in
      let joined : front ++ w ∷ free ≡ ys ++ free =
        sym (ap (λ (t : List (Option A)). t ++ free) same ∙ append_assoc front (w ∷ []) free) in
      (
        z,
        rw (goes, copied, shift_down)
            (done ∙ ap (λ (t : List (Option A)). some (xs ++ z ∷ t)) joined),
      )

  -- The loop closes the slot at the index.
  pub shift_up-closes :
      (ys xs free : List (Option A)) (x : Option A) (i : ℕ)
      → i ≡ length xs
      → (z : Option A) × (shift_up (length ys) (xs ++ x ∷ (ys ++ free)) i
          ≡ some (xs ++ (ys ++ z ∷ free)))
  unfolding shift_up
  shift_up-closes [] xs free x i at = (x, refl)
  shift_up-closes (y ∷ ys) xs free x i at =
      let (z, done) =
        shift_up-closes ys (xs ++ y ∷ []) free y (i + 1)
          (omega (arith, at, length-append xs (y ∷ []))) in
      (
        z,
        rw (copy_before xs (ys ++ free) x y i at, shift_up)
            (ap (λ (t : List (Option A)). shift_up (length ys) t (i + 1))
                (sym (append_assoc xs (y ∷ []) (y ∷ (ys ++ free))))
              ∙ done
              ∙ ap (λ (t : List (Option A)). some t) (append_assoc xs (y ∷ []) (ys ++ z ∷ free))),
      )
