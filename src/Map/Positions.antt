-- ===== src/Map/Positions.antt =====
-- The indices that `findEntry` goes through, as it wraps around at the end of the table.
use rust_wren.Base.{ℕ, ◌+◌, ◌-◌, ◌%◌, ◌<◌, ◌≡◌, arith, ltb, if◌then◌else◌, dec_lt}
use native.Mathlib.Nat.{mod-eq_of_lt, mod-eq-sub-mod}

-- The index `d` steps from `start` on, going round at the capacity.
abbrev pub at : ℕ → ℕ → ℕ → ℕ
at start capacity d = if ltb (start + d) capacity then start + d else start + d - capacity

pub at-lt :
    (start capacity d : ℕ) → start < capacity → d < capacity → at start capacity d < capacity
at-lt start capacity d h k = ground arith

pub at_zero : (start capacity : ℕ) → start < capacity → at start capacity 0 ≡ start
at_zero start capacity h = ground arith

pub at_suc :
    (start capacity d : ℕ)
    → start < capacity
    → d < capacity
    → (at start capacity d + 1) % capacity ≡ at start capacity (d + 1)
at_suc start capacity d h k = elim (dec_lt (start + d + 1) capacity) [
  | yes p ↦ ground (arith, mod-eq_of_lt {n = start + d + 1} {m = capacity} p)
  | no p ↦ elim (dec_lt (start + d) capacity) [
    | yes q ↦ ground (arith, mod-eq-sub-mod {n = start + d + 1} {m = capacity})
    | no q ↦ ground (arith, mod-eq_of_lt {n = start + d - capacity + 1} {m = capacity})
  ]
]

-- Every index is on the probe sequence.
pub steps_to :
    (start capacity i : ℕ)
    → start < capacity
    → i < capacity
    → (d : ℕ) × (d < capacity) × (at start capacity d ≡ i)
steps_to start capacity i h k = elim (dec_lt i start) [
  | yes p ↦ (i + capacity - start, omega arith, ground arith)
  | no p ↦ (i - start, omega arith, ground arith)
]
