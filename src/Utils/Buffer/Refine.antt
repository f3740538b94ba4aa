-- ===== src/Utils/Buffer/Refine.antt =====
-- wren_utils.h: a buffer against the list of the items that were written to it.
use mathlib.Core.List.{append-nil, append_assoc, map-append}
use rust_wren.Base.{
  ℕ, zero, suc, ◌+◌, ◌-◌, ◌*◌, ◌^◌, ◌≤◌, ◌<◌, ◌≡◌, refl, sym, ap, ◌∙◌, List, [], ◌∷◌, ◌++◌, Option,
  none, some, length, set, take, replicate, map, ltb, ◌⊎◌, get_elem?, lt→ltb, arith, length-append,
  length-map, length-take, length-set, length-replicate, Bool-cases, inl, inr,
}
use rust_wren.Utils.PowerOf2.Bounds.{power_of_2_ceil_bounds}
use rust_wren.Utils.Buffer.{Buffer, reallocate, reserve, store, store_many, load, fill}

-- The first `count` cells hold the items in order, and the array has `capacity` cells.
pub record Represents {ℓ} {A : Type ℓ} (b : Buffer A) (items : List A) : Type ℓ where
  pub free : List (Option A)
  pub cells_eq : b.cells ≡ map some items ++ free
  pub count_eq : b.count ≡ length items
  pub capacity_eq : b.capacity ≡ length b.cells

module _ {ℓ} {A : Type ℓ} where
  take-append_le :
      (xs ys : List A) (n : ℕ) → length xs ≤ n → take n (xs ++ ys) ≡ xs ++ take (n - length xs) ys
  take-append_le [] ys n h = ap (λ k. take k ys) (omega arith)
  take-append_le (x ∷ xs) ys zero h = absurd (omega arith)
  take-append_le (x ∷ xs) ys (suc n) h =
      ap (λ t. x ∷ t)
        (take-append_le xs ys n (omega arith) ∙ ap (λ k. xs ++ take k ys) (omega arith))

  set-append :
      (xs ys : List A) (y v : A) (i : ℕ) → i ≡ length xs → set (xs ++ y ∷ ys) i v ≡ xs ++ v ∷ ys
  set-append [] ys y v i e = rw e
  set-append (x ∷ xs) ys y v i e = rw e (ap (λ t. x ∷ t) (set-append xs ys y v (length xs) refl))

  get_elem?-map_append :
      (xs : List A) (ys : List (Option A)) (i : ℕ) (x : A)
      → get_elem? xs i ≡ some x
      → get_elem? (map some xs ++ ys) i ≡ some (some x)
  get_elem?-map_append [] ys i x e = cc
  get_elem?-map_append (y ∷ xs) ys zero x e = ap some e
  get_elem?-map_append (y ∷ xs) ys (suc i) x e = get_elem?-map_append xs ys i x e

module _ {ℓ} {A : Type ℓ} where
  pub reallocate-Represents :
      (b : Buffer A) (items : List A) (m : ℕ)
      → Represents b items
      → length items ≤ m
      → Represents (record b { cells = reallocate b.cells m; capacity = m }) items
  unfolding reallocate
  reallocate-Represents b items m r h =
      let room : length (map some items) ≤ m = omega (arith, h, length-map items (λ a. some a)) in
      record {
        free = take (m - length (map some items)) r.free ++ replicate (m - length b.cells) none;
        cells_eq =
            ap (λ t. take m t ++ replicate (m - length b.cells) none) r.cells_eq
            ∙ ap (λ t. t ++ replicate (m - length b.cells) none)
                (take-append_le (map some items) r.free m room)
            ∙ append_assoc (map some items) _ _;
        count_eq = r.count_eq;
        capacity_eq = omega (
          arith,
          length-append (take m b.cells) (replicate (m - length b.cells) none),
          length-take m b.cells,
          length-replicate {A = Option A} (m - length b.cells) none,
        );
      }

  pub reserve-Represents :
      (b : Buffer A) (items : List A) (n : ℕ)
      → Represents b items
      → 1 ≤ n
      → length items + n ≤ 2 ^ 30
      → Represents (reserve b n) items × (length items + n ≤ (reserve b n).capacity)
  unfolding reserve
  reserve-Represents b items n r l h =
      let (k, power, enough, small) =
        power_of_2_ceil_bounds (b.count + n) (omega arith) (omega (arith, r.count_eq)) in
      elim (Bool-cases (ltb b.capacity (b.count + n))) [
        | inl e ↦ rw e (
          reallocate-Represents b items _ r (omega (arith, enough, r.count_eq)),
          omega (arith, r.count_eq),
        )
        | inr e ↦ rw e (r, ground arith)
      ]

  reserve-capacity :
      (b : Buffer A) (items : List A) (n : ℕ)
      → Represents b items
      → 1 ≤ n
      → length items + n ≤ 2 ^ 30
      → (b.capacity ≤ (reserve b n).capacity)
        × (((reserve b n).capacity ≡ b.capacity)
            ⊎ ((reserve b n).capacity < 2 * (length items + n)))
  unfolding reserve
  reserve-capacity b items n r l h =
      let (k, power, enough, small) =
        power_of_2_ceil_bounds (b.count + n) (omega arith) (omega (arith, r.count_eq)) in
      elim (Bool-cases (ltb b.capacity (b.count + n))) [
        | inl e ↦ rw e (ground arith, inr (omega (arith, r.count_eq)))
        | inr e ↦ rw e (omega arith, inl refl)
      ]

  pub store-Represents :
      (b : Buffer A) (items : List A) (x : A)
      → Represents b items
      → length items < b.capacity
      → (b' : Buffer A) × (store b x ≡ some b')
        × Represents b' (items ++ x ∷ [])
        × (b'.capacity ≡ b.capacity)
  unfolding store
  store-Represents b items x r h = go r.free r.cells_eq
    where
      here : b.count ≡ length (map some items)
      here = r.count_eq ∙ sym (length-map items (λ a. some a))

      go :
          (free : List (Option A))
          → b.cells ≡ map some items ++ free
          → (b' : Buffer A) × (store b x ≡ some b')
            × Represents b' (items ++ x ∷ [])
            × (b'.capacity ≡ b.capacity)
      go [] e = absurd (
          omega (
            arith,
            ap length e,
            r.capacity_eq,
            length-append (map some items) [],
            length-map items (λ a. some a),
          ))
      go (y ∷ free) e = (
        record b { cells = set b.cells b.count (some x); count = b.count + 1 },
        rw (lt→ltb b.count (length b.cells) (omega (arith, r.count_eq, r.capacity_eq))),
        record {
          free = free;
          cells_eq =
              ap (λ t. set t b.count (some x)) e
              ∙ set-append (map some items) free y (some x) b.count here
              ∙ sym (
                  ap (λ t. t ++ free) (map-append some items (x ∷ []))
                  ∙ append_assoc (map some items) (some x ∷ []) free);
          count_eq = omega (arith, r.count_eq, length-append items (x ∷ []));
          capacity_eq = r.capacity_eq ∙ sym (length-set b.cells b.count (some x));
        },
        refl,
      )

  store_many-Represents :
      (n : ℕ) (b : Buffer A) (items : List A) (x : A)
      → Represents b items
      → length items + n ≤ b.capacity
      → (b' : Buffer A) × (store_many b x n ≡ some b')
        × Represents b' (items ++ replicate n x)
        × (b'.capacity ≡ b.capacity)
  unfolding store_many
  store_many-Represents zero b items x r h = (b, refl, rw append-nil r, refl)
  store_many-Represents (suc n) b items x r h =
      let (b₁, done, r₁, same) = store-Represents b items x r (omega arith) in
      let (b', run, r', same') =
        store_many-Represents n b₁ (items ++ x ∷ []) x r₁
          (omega (arith, length-append items (x ∷ []))) in
      (b', rw (done, store_many) run, rw append_assoc at r', same' ∙ same)

  -- `wren##name##BufferFill` on a buffer that holds `items`, up to 2 ^ 30 of them together with the
  -- `n` new ones, never stores past its array. It leaves a buffer that holds `items` followed by
  -- `n` copies of the new item, in an array that is no smaller than before and, if it has grown,
  -- less than twice as large as what it holds.
  pub fill-Represents :
      (b : Buffer A) (items : List A) (x : A) (n : ℕ)
      → Represents b items
      → 1 ≤ n
      → length items + n ≤ 2 ^ 30
      → (b' : Buffer A) × (fill b x n ≡ some b')
        × Represents b' (items ++ replicate n x)
        × (b.capacity ≤ b'.capacity)
        × ((b'.capacity ≡ b.capacity) ⊎ (b'.capacity < 2 * (length items + n)))
  unfolding fill
  fill-Represents b items x n r l h =
      let (r₁, room) = reserve-Represents b items n r l h in
      let (b', run, r', same) = store_many-Represents n (reserve b n) items x r₁ room in
      let (grows, tight) = reserve-capacity b items n r l h in
      (b', run, r', rw same grows, rw same tight)

  pub load-Represents :
      (b : Buffer A) (items : List A) (i : ℕ) (x : A)
      → Represents b items
      → get_elem? items i ≡ some x
      → load b i ≡ some x
  unfolding load
  load-Represents b items i x r e =
      rw (ap (λ t. get_elem? t i) r.cells_eq ∙ get_elem?-map_append items r.free i x e, load)
