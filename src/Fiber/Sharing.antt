-- ===== src/Fiber/Sharing.antt =====
-- wren_vm.c, `closeUpvalues`, which moves values from the stack into their upvalues.
use rust_wren.Base.{
  ℕ, ◌<◌, ◌≡◌, ◌≢◌, refl, inl, inr, List, [], ◌∷◌, false, none, ◌==◌, All, Bool-cases, ==_iff,
}
use rust_wren.Fiber.{OpenUpvalue, Fiber, find_open}

-- The slots descend and the addresses differ.
abbrev pub IsSorted : List OpenUpvalue → Type 0
IsSorted [] = Unit
IsSorted (u ∷ us) =
    All (λ (w : OpenUpvalue). (w.slot < u.slot) × (w.address ≢ u.address)) us × IsSorted us

-- The open upvalues point into the stack.
abbrev pub IsWithin : ℕ → List OpenUpvalue → Type 0
IsWithin height us = All (λ (u : OpenUpvalue). u.slot < height) us

pub ==-other : (a b : ℕ) → a ≢ b → (a == b) ≡ false
==-other a b ne = elim (Bool-cases (a == b)) [ inl t ↦ absurd (ne ((==_iff a b).0 t)) | inr t ↦ t ]

pub find_open-other :
    (us : List OpenUpvalue) (address : ℕ)
    → All (λ (w : OpenUpvalue). w.address ≢ address) us
    → find_open us address ≡ none
unfolding find_open
find_open-other [] address h = refl
find_open-other (u ∷ us) address (ne, h) =
    rw (==-other u.address address ne, find_open-other us address h)

pub addresses_differ :
    (us : List OpenUpvalue) (u : OpenUpvalue)
    → All (λ (w : OpenUpvalue). (w.slot < u.slot) × (w.address ≢ u.address)) us
    → All (λ (w : OpenUpvalue). w.address ≢ u.address) us
addresses_differ [] u h = tt
addresses_differ (w ∷ us) u (h, hs) = (h.1, addresses_differ us u hs)
