-- ===== src/Fiber/Capture.antt =====
-- wren_vm.c, `captureUpvalue`.
use rust_wren.Base.{
  ℕ, ◌<◌, ◌≡◌, ◌≢◌, refl, sym, ap, ◌∙◌, ◌⊎◌, inl, inr, List, [], ◌∷◌, none, some, ltb, ◌==◌, All,
  arith, Bool-cases, ==_iff,
}
use rust_wren.Fiber.{OpenUpvalue, Fiber, capture_from, find_open, capture_upvalue}
use rust_wren.Fiber.Sharing.{IsSorted, ==-other, find_open-other, addresses_differ}

abbrev new_upvalue : ℕ → ℕ → OpenUpvalue
new_upvalue local fresh = record { address = fresh; slot = local }

find_open_self :
    (u : OpenUpvalue) (us : List OpenUpvalue) → find_open (u ∷ us) u.address ≡ some u.slot
unfolding find_open
find_open_self u us = rw ((==_iff u.address u.address).1 refl)

find_open-skip :
    (u : OpenUpvalue) (us : List OpenUpvalue) (address : ℕ)
    → u.address ≢ address
    → find_open (u ∷ us) address ≡ find_open us address
unfolding find_open
find_open-skip u us address ne = rw (==-other u.address address ne)

find_open-cons :
    (u : OpenUpvalue) (us us' : List OpenUpvalue) (address : ℕ)
    → find_open us' address ≡ find_open us address
    → find_open (u ∷ us') address ≡ find_open (u ∷ us) address
unfolding find_open
find_open-cons u us us' address e = elim (Bool-cases (u.address == address)) [
  | inl t ↦ rw t
  | inr t ↦ rw (t, e)
]

capture_from-All :
    (P : OpenUpvalue → Type 0) (us : List OpenUpvalue) (local fresh : ℕ)
    → All P us
    → P (new_upvalue local fresh)
    → All P (capture_from us local fresh).1
unfolding capture_from
capture_from-All P [] local fresh h p = (p, tt)
capture_from-All P (u ∷ us) local fresh (h, hs) p = elim (Bool-cases (ltb local u.slot)) [
  | inl t ↦ rw t (h, capture_from-All P us local fresh hs p)
  | inr t ↦ elim (Bool-cases (u.slot == local)) [
    | inl s ↦ rw (t, s) (h, hs)
    | inr s ↦ rw (t, s) (p, (h, hs))
  ]
]

-- What a capture gives: the list is in order, the address leads to the slot, every other address
-- leads where it led, and the list is as it was or the slot had no upvalue.
pub record Captures (us us' : List OpenUpvalue) (local fresh address : ℕ) : Type 0 where
  pub sorted : IsSorted us'
  pub leads : find_open us' address ≡ some local
  pub others : (other : ℕ) → other ≢ fresh → find_open us' other ≡ find_open us other
  pub shares :
      ((us' ≡ us) × (address ≢ fresh))
      ⊎ ((address ≡ fresh) × All (λ (u : OpenUpvalue). u.slot ≢ local) us)

not_captured :
    (us : List OpenUpvalue) (u : OpenUpvalue) (local : ℕ)
    → All (λ (w : OpenUpvalue). (w.slot < u.slot) × (w.address ≢ u.address)) us
    → u.slot < local
    → All (λ (w : OpenUpvalue). w.slot ≢ local) us
not_captured [] u local h less = tt
not_captured (w ∷ us) u local (h, hs) less =
    let below : w.slot < u.slot = h.0 in
    (omega (arith, below, less), not_captured us u local hs less)

lower-All :
    (us : List OpenUpvalue) (u : OpenUpvalue) (local fresh : ℕ)
    → All (λ (w : OpenUpvalue). (w.slot < u.slot) × (w.address ≢ u.address)) us
    → All (λ (w : OpenUpvalue). w.address ≢ fresh) us
    → u.slot < local
    → All (λ (w : OpenUpvalue). (w.slot < local) × (w.address ≢ fresh)) us
lower-All [] u local fresh h new less = tt
lower-All (w ∷ us) u local fresh (h, hs) (ne, new) less =
    let below : w.slot < u.slot = h.0 in
    ((omega (arith, below, less), ne), lower-All us u local fresh hs new less)

-- The walk goes on past an upvalue of a higher slot.
Captures-above :
    (u : OpenUpvalue) (us us' : List OpenUpvalue) (local fresh address : ℕ)
    → Captures us us' local fresh address
    → local < u.slot
    → All (λ (w : OpenUpvalue). (w.slot < u.slot) × (w.address ≢ u.address)) us'
    → Captures (u ∷ us) (u ∷ us') local fresh address
Captures-above u us us' local fresh address c less later =
    let gone = find_open-other us' u.address (addresses_differ us' u later) in
    let apart : u.address ≢ address = λ same.
      let both : find_open us' u.address ≡ some local = rw same c.leads in
      let impossible : none ≡ some local = sym gone ∙ both in cc in
    record {
      sorted = (later, c.sorted);
      leads = find_open-skip u us' address apart ∙ c.leads;
      others = λ other ne. find_open-cons u us us' other (c.others other ne);
      shares = elim c.shares [
        | inl (same, old) ↦ inl (ap (◌∷◌ u) same, old)
        | inr (fresh_one, none_there) ↦ inr (fresh_one, ((λ e. omega arith), none_there))
      ];
    }

Captures-here :
    (u : OpenUpvalue) (us : List OpenUpvalue) (local fresh : ℕ)
    → IsSorted (u ∷ us)
    → All (λ (w : OpenUpvalue). w.address ≢ fresh) (u ∷ us)
    → u.slot < local
    → Captures (u ∷ us) (new_upvalue local fresh ∷ u ∷ us) local fresh fresh
Captures-here u us local fresh (later, sorted) (differs, new) less = record {
  sorted = (((less, differs), lower-All us u local fresh later new less), (later, sorted));
  leads = find_open_self (new_upvalue local fresh) (u ∷ us);
  others = λ other ne. find_open-skip (new_upvalue local fresh) (u ∷ us) other (λ e. ne (sym e));
  shares = inr (refl, ((λ e. omega arith), not_captured us u local later less));
}

capture_from-Captures :
    (us : List OpenUpvalue) (local fresh : ℕ)
    → IsSorted us
    → All (λ (u : OpenUpvalue). u.address ≢ fresh) us
    → Captures us (capture_from us local fresh).1 local fresh (capture_from us local fresh).0
unfolding capture_from
capture_from-Captures [] local fresh sorted new = record {
  sorted = (tt, tt);
  leads = find_open_self (new_upvalue local fresh) [];
  others = λ other ne. find_open-skip (new_upvalue local fresh) [] other (λ e. ne (sym e));
  shares = inr (refl, tt);
}
capture_from-Captures (u ∷ us) local fresh (later, sorted) (differs, new) =
    elim (Bool-cases (ltb local u.slot)) [
      | inl t ↦
          let ih = capture_from-Captures us local fresh sorted new in
          let less : local < u.slot = ground arith in
          let later' =
            capture_from-All (λ (w : OpenUpvalue). (w.slot < u.slot) × (w.address ≢ u.address)) us
              local fresh later (less, λ e. differs (sym e)) in
          rw t (
            Captures-above u us (capture_from us local fresh).1 local fresh
              (capture_from us local fresh).0 ih less later')
      | inr t ↦ elim (Bool-cases (u.slot == local)) [
        | inl s ↦
            rw (t, s)
              (record {
                sorted = (later, sorted);
                leads = find_open_self u us ∙ ap some ((==_iff u.slot local).0 s);
                others = λ other ne. refl;
                shares = inl (refl, differs);
              })
        | inr s ↦
            let less : u.slot < local = ground arith in
            rw (t, s) (Captures-here u us local fresh (later, sorted) (differs, new) less)
      ]
    ]

-- Where the open upvalues descend and differ and the address of a new upvalue is unused,
-- `captureUpvalue` keeps the list in order and returns an address that leads to the local's slot;
-- no other address leads elsewhere than before. Either an upvalue that was there is shared and the
-- list is unchanged, or the address is the new one and no upvalue of the list had the slot.
pub capture_upvalue-Captures {ℓ} :
    {A : Type ℓ} (fiber : Fiber A) (local fresh : ℕ)
    → IsSorted fiber.open_upvalues
    → All (λ (u : OpenUpvalue). u.address ≢ fresh) fiber.open_upvalues
    → Captures fiber.open_upvalues
        (capture_upvalue fiber local fresh).1.open_upvalues
        local
        fresh
        (capture_upvalue fiber local fresh).0
unfolding capture_upvalue
capture_upvalue-Captures fiber local fresh sorted new =
    capture_from-Captures fiber.open_upvalues local fresh sorted new
