-- ===== src/Tests/Fibers.antt =====
-- Runs of the upvalues of a fiber, and the theorems about them on these runs.
use rust_wren.Base.{ℕ, ◌≡◌, refl, [], ◌∷◌, some, arith}
use rust_wren.Fiber.{
  Fiber, capture_from, capture_upvalue, close_from, close_upvalues, find_open, find_closed,
  load_upvalue,
}
use rust_wren.Fiber.Sharing.{IsSorted}
use rust_wren.Fiber.Capture.{Captures, capture_upvalue-Captures}

-- Three slots; the upvalue 20 is open on slot 2 and the upvalue 10 on slot 0.
abbrev running : Fiber ℕ
running = record {
  stack = 5 ∷ 6 ∷ 7 ∷ [];
  open_upvalues = record { address = 20; slot = 2 } ∷ record { address = 10; slot = 0 } ∷ [];
  closed = [];
}

abbrev closed_at_one : Fiber ℕ
closed_at_one = record {
  stack = 5 ∷ 6 ∷ 7 ∷ [];
  open_upvalues = record { address = 10; slot = 0 } ∷ [];
  closed = (20, 7) ∷ [];
}

capture_again : (capture_upvalue running 0 30).0 ≡ 10
unfolding capture_upvalue capture_from
capture_again = refl

capture_new : (capture_upvalue running 1 30).0 ≡ 30
unfolding capture_upvalue capture_from
capture_new = refl

close_one_slot : close_upvalues running 1 ≡ some closed_at_one
unfolding close_upvalues close_from
close_one_slot = refl

load_closed : load_upvalue closed_at_one 20 ≡ some 7
unfolding load_upvalue find_open find_closed
load_closed = refl

running-IsSorted : IsSorted running.open_upvalues
running-IsSorted = (((omega arith, omega arith), tt), (tt, tt))

capture_upvalue-Captures_example :
    Captures running.open_upvalues
      (capture_upvalue running 1 30).1.open_upvalues
      1
      30
      (capture_upvalue running 1 30).0
capture_upvalue-Captures_example =
    capture_upvalue-Captures running 1 30 running-IsSorted (omega arith, (omega arith, tt))
