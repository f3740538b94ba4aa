-- ===== src/Fiber.antt =====
-- wren_vm.c, lines 244 to 307: the upvalues that closures share with the stack of a fiber. A slot of
-- the stack stands for a pointer to it. The list of open upvalues is a list, the topmost slot first;
-- an upvalue is known by its address, and `closed` holds the values of the closed ones, latest first.
pub mod Sharing
pub mod Capture
use rust_wren.Base.{ℕ, List, [], ◌∷◌, Option, none, some, ltb, leb, ◌==◌, if◌then◌else◌, get_elem?}

pub record OpenUpvalue : Type 0 where
  pub address : ℕ
  pub slot : ℕ

pub record Fiber {ℓ} (A : Type ℓ) : Type ℓ where
  pub stack : List A
  pub open_upvalues : List OpenUpvalue
  pub closed : List (ℕ × A)

-- The walk of `captureUpvalue`: the address of the upvalue, and the list with it. `fresh` is the
-- address that `wrenNewUpvalue` returns.
unfoldable pub capture_from : List OpenUpvalue → ℕ → ℕ → ℕ × List OpenUpvalue
capture_from [] local fresh = (fresh, record { address = fresh; slot = local } ∷ [])
capture_from (u ∷ us) local fresh =
    let rest = capture_from us local fresh in
    if ltb local u.slot
    then (rest.0, u ∷ rest.1)
    else if u.slot == local
    then (u.address, u ∷ us)
    else (fresh, record { address = fresh; slot = local } ∷ u ∷ us)

-- The slot of an open upvalue.
unfoldable pub find_open : List OpenUpvalue → ℕ → Option ℕ
find_open [] address = none
find_open (u ∷ us) address =
    let rest = find_open us address in if u.address == address then some u.slot else rest

module _ {ℓ} {A : Type ℓ} where
  -- `captureUpvalue`.
  unfoldable pub capture_upvalue : Fiber A → ℕ → ℕ → ℕ × Fiber A
  capture_upvalue fiber local fresh =
      let done = capture_from fiber.open_upvalues local fresh in
      (done.0, record fiber { open_upvalues = done.1 })

  -- `upvalue->closed = *upvalue->value` and the rest of the body of the loop of `closeUpvalues`.
  abbrev pub close_one : List (ℕ × A) → OpenUpvalue → Option A → Option (List (ℕ × A))
  close_one closed u none = none
  close_one closed u (some v) = some ((u.address, v) ∷ closed)

  -- The loop of `closeUpvalues`; `none` is a read outside of the stack.
  unfoldable pub close_from :
      List A → ℕ → List OpenUpvalue → List (ℕ × A) → Option (List OpenUpvalue × List (ℕ × A))
  close_from stack last [] closed = some ([], closed)
  close_from stack last (u ∷ us) closed =
      if leb last u.slot
      then elim (close_one closed u (get_elem? stack u.slot)) [
        | none ↦ none
        | some closed' ↦ close_from stack last us closed'
      ]
      else some (u ∷ us, closed)

  -- `closeUpvalues`.
  unfoldable pub close_upvalues : Fiber A → ℕ → Option (Fiber A)
  close_upvalues fiber last = elim (close_from fiber.stack last fiber.open_upvalues fiber.closed) [
    | none ↦ none
    | some (us, closed) ↦ some (record fiber { open_upvalues = us; closed = closed })
  ]

  unfoldable pub find_closed : List (ℕ × A) → ℕ → Option A
  find_closed [] address = none
  find_closed ((a, v) ∷ closed) address =
      let rest = find_closed closed address in if a == address then some v else rest

  -- `*upvalue->value`.
  abbrev pub value_at : List A → List (ℕ × A) → ℕ → Option ℕ → Option A
  value_at stack closed address none = find_closed closed address
  value_at stack closed address (some slot) = get_elem? stack slot

  unfoldable pub load_upvalue : Fiber A → ℕ → Option A
  load_upvalue fiber address =
      value_at fiber.stack fiber.closed address (find_open fiber.open_upvalues address)
