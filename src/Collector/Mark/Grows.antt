-- ===== src/Collector/Mark/Grows.antt =====
-- wren_value.c, lines 976 to 1011: what graying pointers does to the objects and to the gray stack.
use rust_wren.Base.{
  ℕ, suc, ◌≡◌, ◌≢◌, refl, ap, ◌∙◌, List, [], ◌∷◌, inl, inr, Bool, true, false, ◌==◌, arith,
  Bool-cases, Option, none, some,
}
use rust_wren.Collector.{Obj, find_object, darken}

-- An object with its mark taken away.
abbrev pub whiten : Obj → Obj
whiten o = record o { is_dark = false }

unfoldable pub whiten_all : List Obj → List Obj
whiten_all [] = []
whiten_all (o ∷ objects) = whiten o ∷ whiten_all objects

abbrev pub darkness : Option Obj → Bool
darkness none = false
darkness (some o) = o.is_dark

abbrev pub whitened : Option Obj → Option Obj
whitened none = none
whitened (some o) = some (whiten o)

abbrev darkened : Option Obj → Option Obj
darkened none = none
darkened (some o) = some (record o { is_dark = true })

-- The object at an address is marked.
abbrev pub marked : ℕ → List Obj → Bool
marked a objects = darkness (find_object a objects)

-- How many objects are not.
unfoldable pub whites : List Obj → ℕ
whites [] = 0
whites (o ∷ objects) = elim o.is_dark [ true ↦ whites objects | false ↦ suc (whites objects) ]

pub find_object-whiten_all :
    (a : ℕ) (objects : List Obj)
    → find_object a (whiten_all objects) ≡ whitened (find_object a objects)
unfolding find_object whiten_all
find_object-whiten_all a [] = refl
find_object-whiten_all a (o ∷ objects) = elim (Bool-cases (o.address == a)) [
  | inl t ↦ rw (t, find_object) refl
  | inr t ↦ rw (t, find_object) (find_object-whiten_all a objects)
]

pub whiten_all-darken :
    (a : ℕ) (objects : List Obj) → whiten_all (darken a objects) ≡ whiten_all objects
unfolding whiten_all darken
whiten_all-darken a [] = refl
whiten_all-darken a (o ∷ objects) = elim (Bool-cases (o.address == a)) [
  | inl t ↦ rw (t, darken) refl
  | inr t ↦ rw (t, darken) (ap (λ (r : List Obj). whiten o ∷ r) (whiten_all-darken a objects))
]

pub find_object-darken_self :
    (a : ℕ) (objects : List Obj)
    → find_object a (darken a objects) ≡ darkened (find_object a objects)
unfolding find_object darken
find_object-darken_self a [] = refl
find_object-darken_self a (o ∷ objects) = elim (Bool-cases (o.address == a)) [
  | inl t ↦ rw (t, darken, find_object) (rw (t, find_object) refl)
  | inr t ↦ rw (t, darken, find_object) (rw (t, find_object) (find_object-darken_self a objects))
]

pub find_object-darken_other :
    (a b : ℕ) (objects : List Obj)
    → a ≢ b
    → find_object b (darken a objects) ≡ find_object b objects
unfolding find_object darken
find_object-darken_other a b [] ne = refl
find_object-darken_other a b (o ∷ objects) ne = elim (Bool-cases (o.address == a)) [
  | inl t ↦
      let other : (o.address == b) ≡ false = ground arith in
      rw (t, darken) (rw (other, find_object) refl)
  | inr t ↦ elim (Bool-cases (o.address == b)) [
    | inl u ↦ rw (t, darken) (rw (u, find_object) refl)
    | inr u ↦ rw (t, darken) (rw (u, find_object) (find_object-darken_other a b objects ne))
  ]
]

pub whites-darken :
    (a : ℕ) (objects : List Obj) (o : Obj)
    → find_object a objects ≡ some o
    → o.is_dark ≡ false
    → whites objects ≡ suc (whites (darken a objects))
unfolding find_object darken whites
whites-darken a [] o e d = cc
whites-darken a (x ∷ objects) o e d = elim (Bool-cases (x.address == a)) [
  | inl t ↦
      let found : some x ≡ some o = rw (t, find_object) at e in
      let d' : x.is_dark ≡ false = ap darkness found ∙ d in rw (t, darken) (rw (d', whites) refl)
  | inr t ↦
      let rest = whites-darken a objects o (rw (t, find_object) at e) d in
      elim (Bool-cases x.is_dark) [
        | inl u ↦ rw (t, darken) (rw (u, whites) rest)
        | inr u ↦ rw (t, darken) (rw (u, whites) (ap suc rest))
      ]
]
