-- ===== src/Sequence/Refine.antt =====
-- wren_value.c, lines 304 to 361: lists against the sequences of their elements.
use mathlib.Core.List.{map-append}
use rust_wren.Base.{
  ℕ, ◌+◌, ◌-◌, ◌/◌, ◌^◌, ◌≤◌, ◌≡◌, refl, ap, ap₂, ◌∙◌, sym, List, [], ◌∷◌, ◌++◌, leb, arith, length,
  length-append, length-map, get_elem?, map, append_assoc, Option, some, inl, inr, Bool-cases,
}
use rust_wren.Utils.Buffer.{Buffer, fill, write}
use rust_wren.Utils.Buffer.Refine.{Represents, fill-Represents, reallocate-Represents}
use rust_wren.Sequence.{
  ◌>>=◌, put, shift_down, shift_up, list_insert, shrink_list, list_remove_at, grow_factor,
}
use rust_wren.Sequence.Shift.{put_here, get_here, shift_down-opens, shift_up-closes}

pub bind_some {ℓ κ} :
    {B : Type ℓ} {C : Type κ} (o : Option B) (b : B) (f : B → Option C)
    → o ≡ some b
    → (o >>= f) ≡ f b
bind_some o b f e = ap (λ (x : Option _). x >>= f) e

module _ {ℓ} {A : Type ℓ} where
  cells_split :
      (xs ys : List A) (rest : List (Option A))
      → map some (xs ++ ys) ++ rest ≡ map some xs ++ (map some ys ++ rest)
  cells_split xs ys rest =
      ap (λ (t : List (Option A)). t ++ rest) (map-append some xs ys)
      ∙ append_assoc (map some xs) (map some ys) rest

  -- `wrenListInsert` on a list of up to 2 ^ 30 elements with the new one, at any index up to its
  -- length: no store is out of bounds, and the list then holds the elements before the index, the
  -- value, and the elements from the index on.
  pub list_insert-Represents :
      (null : A) (list : Buffer A) (before behind : List A) (value : A)
      → Represents list (before ++ behind)
      → length (before ++ behind) + 1 ≤ 2 ^ 30
      → (list' : Buffer A) × (list_insert null list value (length before) ≡ some list')
        × Represents list' (before ++ value ∷ behind)
  unfolding list_insert write
  list_insert-Represents null list before behind value r h =
      let (b, run, r', grows, tight) =
        fill-Represents list (before ++ behind) null 1 r (omega arith) h in
      let count : b.count ≡ length before + length behind + 1 = omega (
        arith,
        r'.count_eq,
        length-append (before ++ behind) (null ∷ []),
        length-append before behind,
      ) in
      let cells : b.cells ≡ map some before ++ (map some behind ++ some null ∷ r'.free) =
        r'.cells_eq
        ∙ cells_split (before ++ behind) (null ∷ []) r'.free
        ∙ cells_split before behind (some null ∷ r'.free) in
      let (z, done) =
        shift_down-opens (length (map some behind)) (b.count - 1) (map some before)
          (map some behind) r'.free (some null) refl
          (omega
            (arith, count, length-map before (λ a. some a), length-map behind (λ a. some a))) in
      let opened = map some before ++ z ∷ (map some behind ++ r'.free) in
      let shifted : shift_down b.cells (length before) (b.count - 1) ≡ some opened =
        ap₂ (λ (t : List (Option A)) (k : ℕ). shift_down t k (b.count - 1)) cells
          (sym (length-map before (λ a. some a)))
        ∙ done in
      let final = map some before ++ some value ∷ (map some behind ++ r'.free) in
      let stored : put opened (length before) (some value) ≡ some final =
        put_here opened (map some before) (map some behind ++ r'.free) z (some value)
          (length before) refl (sym (length-map before (λ a. some a))) in
      (
        record b { cells = final },
        bind_some (fill list null 1) b _ run
            ∙ bind_some (shift_down b.cells (length before) (b.count - 1)) opened _ shifted
            ∙ bind_some (put opened (length before) (some value)) final _ stored,
        record {
          free = r'.free;
          cells_eq = sym (cells_split before (value ∷ behind) r'.free);
          count_eq = omega (arith, count, length-append before (value ∷ behind));
          capacity_eq = omega (
            arith,
            r'.capacity_eq,
            ap length cells,
            length-append (map some before) (map some behind ++ some null ∷ r'.free),
            length-append (map some behind) (some null ∷ r'.free),
            length-append (map some before) (some value ∷ (map some behind ++ r'.free)),
            length-append (map some behind) r'.free,
          );
        },
      )

  -- `wrenListRemoveAt` behind its loop.
  shrink_list-Represents :
      (b : Buffer A) (items : List A)
      → Represents (record b { count = b.count - 1 }) items
      → length items ≤ b.count
      → Represents (record (shrink_list b) { count = (shrink_list b).count - 1 }) items
        × ((shrink_list b).capacity ≤ b.capacity)
  unfolding shrink_list
  shrink_list-Represents b items r fits =
      elim (Bool-cases (leb b.count (b.capacity / grow_factor))) [
        | inl t ↦
            let room : length items ≤ b.capacity / grow_factor = ground arith in
            rw (t, shrink_list)
              (
                reallocate-Represents (record b { count = b.count - 1 }) items
                    (b.capacity / grow_factor) r room,
                omega arith,
              )
        | inr t ↦ rw (t, shrink_list) (r, omega arith)
      ]

  -- `wrenListRemoveAt` on a list, at the index of one of its elements: no access is out of bounds, it
  -- returns this element, and the list then holds the elements before and behind it, in an array that
  -- is no larger than before.
  pub list_remove_at-Represents :
      (list : Buffer A) (before : List A) (item : A) (behind : List A)
      → Represents list (before ++ item ∷ behind)
      → (list' : Buffer A) × (list_remove_at list (length before) ≡ some (item, list'))
        × Represents list' (before ++ behind)
        × (list'.capacity ≤ list.capacity)
  unfolding list_remove_at
  list_remove_at-Represents list before item behind r =
      let n = length before in
      let same : length (map some before) ≡ n = length-map before (λ a. some a) in
      let cells : list.cells ≡ map some before ++ some item ∷ (map some behind ++ r.free) =
        r.cells_eq ∙ cells_split before (item ∷ behind) r.free in
      let found : get_elem? list.cells n ≡ some (some item) =
        get_here list.cells (map some before) (map some behind ++ r.free) (some item) n cells
          (sym same) in
      let (z, done) =
        shift_up-closes (map some behind) (map some before) r.free (some item) n (sym same) in
      let rounds : list.count - 1 - n ≡ length (map some behind) = omega (
        arith,
        r.count_eq,
        length-append before (item ∷ behind),
        length-map behind (λ a. some a),
      ) in
      let closed = map some before ++ (map some behind ++ z ∷ r.free) in
      let shifted : shift_up (list.count - 1 - n) list.cells n ≡ some closed =
        ap₂ (λ (k : ℕ) (t : List (Option A)). shift_up k t n) rounds cells ∙ done in
      let b = record list { cells = closed } in
      let kept : Represents (record b { count = list.count - 1 }) (before ++ behind) = record {
        free = z ∷ r.free;
        cells_eq = sym (cells_split before behind (z ∷ r.free));
        count_eq =
            omega (
              arith,
              r.count_eq,
              length-append before (item ∷ behind),
              length-append before behind,
            );
        capacity_eq = omega (
          arith,
          r.capacity_eq,
          ap length cells,
          length-append (map some before) (some item ∷ (map some behind ++ r.free)),
          length-append (map some behind) r.free,
          length-append (map some before) (map some behind ++ z ∷ r.free),
          length-append (map some behind) (z ∷ r.free),
        );
      } in
      let shrunk = shrink_list-Represents b (before ++ behind) kept (
        omega
          (arith, r.count_eq, length-append before (item ∷ behind), length-append before behind)) in
      (
        record (shrink_list b) { count = (shrink_list b).count - 1 },
        bind_some (get_elem? list.cells n) (some item) _ found
            ∙ bind_some (shift_up (list.count - 1 - n) list.cells n) closed _ shifted,
        shrunk.0,
        shrunk.1,
      )
