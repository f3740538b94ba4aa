-- ===== src/Collector/Sweep.antt =====
-- wren_vm.c, lines 177 to 195: which objects the loop over all objects frees, and which it keeps.
use rust_wren.Base.{
  In, ℕ, ◌≡◌, ◌↔◌, refl, ap, ◌∙◌, sym, List, [], ◌∷◌, ◌++◌, ◌⊎◌, inl, inr, Bool, true, false, ◌==◌,
  arith, Bool-cases, Option, none, some,
}
use rust_wren.Collector.{Pointer, Obj, find_object}
use rust_wren.Collector.Collect.{
  Freeing, is_foreign, is_some, is_there, finalize_foreign, free_obj, sweep,
}
use rust_wren.Collector.Mark.Grows.{whiten, whiten_all, whitened, darkness, find_object-whiten_all}

-- No two objects stand at one address.
abbrev pub IsDistinct : List Obj → Type 0
IsDistinct [] = Unit
IsDistinct (o ∷ objects) = (find_object o.address objects ≡ none) × IsDistinct objects

whitened-none : (x : Option Obj) → whitened x ≡ none → x ≡ none
whitened-none none e = refl
whitened-none (some o) e = cc

pub whiten_all-IsDistinct :
    (objects : List Obj) → IsDistinct (whiten_all objects) → IsDistinct objects
unfolding whiten_all
whiten_all-IsDistinct [] d = d
whiten_all-IsDistinct (o ∷ objects) (apart, d) = (
  whitened-none (find_object o.address objects)
      (sym (find_object-whiten_all o.address objects) ∙ apart),
  whiten_all-IsDistinct objects d,
)

-- What the loop leaves at an address where it found `x`.
abbrev pub survivor : Option Obj → Option Obj
survivor none = none
survivor (some o) = elim o.is_dark [ true ↦ some (whiten o) | false ↦ none ]

find_object-at :
    (a b : ℕ) (objects : List Obj)
    → (a == b) ≡ true
    → find_object a objects ≡ none
    → find_object b objects ≡ none
find_object-at a b objects t e =
    let same : a ≡ b = ground arith in ap (λ (x : ℕ). find_object x objects) (sym same) ∙ e

pub find_object-sweep :
    (b : ℕ) (kept objects : List Obj) (f : Freeing)
    → IsDistinct objects
    → find_object b (sweep kept objects f).0 ≡ survivor (find_object b objects)
unfolding sweep find_object
find_object-sweep b kept [] f d = refl
find_object-sweep b kept (o ∷ objects) f (apart, d) = elim (Bool-cases (o.address == b)) [
  | inl t ↦ elim (Bool-cases o.is_dark) [
    | inl u ↦ rw (u, sweep) (rw (t, find_object) refl)
    | inr u ↦
        let gone = find_object-at o.address b objects t apart in
        rw (u, sweep)
          (rw (t, find_object)
            (find_object-sweep b kept objects (free_obj (kept ++ o ∷ objects) f o) d
              ∙ ap survivor gone))
  ]
  | inr t ↦ elim (Bool-cases o.is_dark) [
    | inl u ↦
        rw (u, sweep) (rw (t, find_object) (find_object-sweep b (whiten o ∷ kept) objects f d))
    | inr u ↦
        rw (u, sweep)
          (rw (t, find_object)
            (find_object-sweep b kept objects (free_obj (kept ++ o ∷ objects) f o) d))
  ]
]

pub sweep-white :
    (kept objects : List Obj) (f : Freeing)
    → whiten_all (sweep kept objects f).0 ≡ (sweep kept objects f).0
unfolding sweep whiten_all
sweep-white kept [] f = refl
sweep-white kept (o ∷ objects) f = elim (Bool-cases o.is_dark) [
  | inl u ↦
      rw (u, sweep) (ap (λ (r : List Obj). whiten o ∷ r) (sweep-white (whiten o ∷ kept) objects f))
  | inr u ↦ rw (u, sweep) (sweep-white kept objects (free_obj (kept ++ o ∷ objects) f o))
]

pub sweep-IsDistinct :
    (kept objects : List Obj) (f : Freeing)
    → IsDistinct objects
    → IsDistinct (sweep kept objects f).0
unfolding sweep
sweep-IsDistinct kept [] f d = d
sweep-IsDistinct kept (o ∷ objects) f (apart, d) = elim (Bool-cases o.is_dark) [
  | inl u ↦
      rw (u, sweep)
        (
          find_object-sweep o.address (whiten o ∷ kept) objects f d ∙ ap survivor apart,
          sweep-IsDistinct (whiten o ∷ kept) objects f d,
        )
  | inr u ↦ rw (u, sweep) (sweep-IsDistinct kept objects (free_obj (kept ++ o ∷ objects) f o) d)
]

-- A foreign object without a mark stands at the address.
abbrev pub IsFreed : ℕ → List Obj → Type 0
IsFreed b objects =
    (o : Obj) × (find_object b objects ≡ some o)
    × (o.is_dark ≡ false)
    × (is_foreign o.contents ≡ true)

IsFreed-here :
    (b : ℕ) (o : Obj) (objects : List Obj)
    → b ≡ o.address
    → o.is_dark ≡ false
    → is_foreign o.contents ≡ true
    → IsFreed b (o ∷ objects)
unfolding find_object
IsFreed-here b o objects same u f =
    let t : (o.address == b) ≡ true = ground arith in (o, rw (t, find_object) refl, u, f)

IsFreed-later :
    (b : ℕ) (o : Obj) (objects : List Obj)
    → find_object o.address objects ≡ none
    → IsFreed b objects
    → IsFreed b (o ∷ objects)
unfolding find_object
IsFreed-later b o objects apart (o', e, u, f) = elim (Bool-cases (o.address == b)) [
  | inl t ↦ let gone = find_object-at o.address b objects t apart in cc (gone, e)
  | inr t ↦ (o', rw (t, find_object) e, u, f)
]

IsFreed-cases :
    (b : ℕ) (o : Obj) (objects : List Obj)
    → IsFreed b (o ∷ objects)
    → ((b ≡ o.address) × (o.is_dark ≡ false) × (is_foreign o.contents ≡ true)) ⊎ IsFreed b objects
unfolding find_object
IsFreed-cases b o objects (o', e, u, f) = elim (Bool-cases (o.address == b)) [
  | inl t ↦
      let found : some o ≡ some o' = rw (t, find_object) at e in
      inl (ground arith, ap darkness found ∙ u, ap foreign_found found ∙ f)
  | inr t ↦ inr (o', rw (t, find_object) at e, u, f)
]
  where
    foreign_found : Option Obj → Bool
    foreign_found none = false
    foreign_found (some x) = is_foreign x.contents

-- What has been finalized after an object has been freed.
In-free_obj :
    (b : ℕ) (heap : List Obj) (f : Freeing) (o : Obj)
    → In b (free_obj heap f o).finalized
      ↔ (In b f.finalized ⊎ ((b ≡ o.address) × (is_foreign o.contents ≡ true)))
unfolding free_obj finalize_foreign
In-free_obj b heap f o = elim (Bool-cases (is_foreign o.contents)) [
  | inl t ↦
      rw (t, free_obj)
        (
          λ i. elim i [ inl e ↦ inr (e, refl) | inr k ↦ inl k ],
          λ i. elim i [ inl k ↦ inr k | inr e ↦ inl e.0 ],
        )
  | inr t ↦ rw (t, free_obj) (λ i. inl i, λ i. elim i [ inl k ↦ k | inr e ↦ cc e.1 ])
]

pub sweep-finalized :
    (b : ℕ) (kept objects : List Obj) (f : Freeing)
    → IsDistinct objects
    → In b (sweep kept objects f).1.finalized ↔ (In b f.finalized ⊎ IsFreed b objects)
unfolding sweep find_object
sweep-finalized b kept [] f d = (λ i. inl i, λ i. elim i [ inl k ↦ k | inr (o, e, u, f) ↦ cc ])
sweep-finalized b kept (o ∷ objects) f (apart, d) = elim (Bool-cases o.is_dark) [
  | inl u ↦
      let rest = sweep-finalized b (whiten o ∷ kept) objects f d in
      (
        λ i. elim (rest.0 (rw (u, sweep) at i)) [
          | inl k ↦ inl k
          | inr freed ↦ inr (IsFreed-later b o objects apart freed)
        ],
        λ i.
            rw (u, sweep)
              (rest.1 (elim i [
                | inl k ↦ inl k
                | inr freed ↦ elim (IsFreed-cases b o objects freed) [
                  | inl here ↦ cc (u, here.1)
                  | inr later ↦ inr later
                ]
              ])),
      )
  | inr u ↦
      let rest = sweep-finalized b kept objects (free_obj (kept ++ o ∷ objects) f o) d in
      let one = In-free_obj b (kept ++ o ∷ objects) f o in
      (
        λ i. elim (rest.0 (rw (u, sweep) at i)) [
          | inl k ↦ elim (one.0 k) [
            | inl k' ↦ inl k'
            | inr e ↦ inr (IsFreed-here b o objects e.0 u e.1)
          ]
          | inr freed ↦ inr (IsFreed-later b o objects apart freed)
        ],
        λ i.
            rw (u, sweep)
              (rest.1 (elim i [
                | inl k ↦ inl (one.1 (inl k))
                | inr freed ↦ elim (IsFreed-cases b o objects freed) [
                  | inl here ↦ inl (one.1 (inr (here.0, here.2)))
                  | inr later ↦ inr later
                ]
              ])),
      )
]

-- The class of a foreign object stands further on in the list of all objects, which has the objects
-- that were created last at its head.
abbrev pub HasClasses : List Obj → Type 0
HasClasses [] = Unit
HasClasses (o ∷ objects) =
    (is_foreign o.contents ≡ true → is_there o.class_obj objects ≡ true) × HasClasses objects

is_there-cons :
    (p : Pointer) (o : Obj) (objects : List Obj)
    → is_there p objects ≡ true
    → is_there p (o ∷ objects) ≡ true
unfolding is_there find_object
is_there-cons none o objects e = e
is_there-cons (some a) o objects e = elim (Bool-cases (o.address == a)) [
  | inl t ↦
      let found : find_object a (o ∷ objects) ≡ some o = rw (t, find_object) refl in
      ap is_some found
  | inr t ↦
      let found : find_object a (o ∷ objects) ≡ find_object a objects = rw (t, find_object) refl in
      ap is_some found ∙ e
]

is_there-append :
    (p : Pointer) (kept objects : List Obj)
    → is_there p objects ≡ true
    → is_there p (kept ++ objects) ≡ true
is_there-append p [] objects e = e
is_there-append p (o ∷ kept) objects e =
    is_there-cons p o (kept ++ objects) (is_there-append p kept objects e)

free_obj-dangling :
    (kept objects : List Obj) (f : Freeing) (o : Obj)
    → (is_foreign o.contents ≡ true → is_there o.class_obj objects ≡ true)
    → (free_obj (kept ++ o ∷ objects) f o).dangling ≡ f.dangling
unfolding free_obj finalize_foreign
free_obj-dangling kept objects f o h = elim (Bool-cases (is_foreign o.contents)) [
  | inl t ↦
      let there =
        is_there-append o.class_obj kept (o ∷ objects)
          (is_there-cons o.class_obj o objects (h t)) in
      rw (t, free_obj) (rw there refl)
  | inr t ↦ rw (t, free_obj) refl
]

-- The finalizing of foreign objects reads no class that is gone.
pub sweep-dangling :
    (kept objects : List Obj) (f : Freeing)
    → HasClasses objects
    → (sweep kept objects f).1.dangling ≡ f.dangling
unfolding sweep
sweep-dangling kept [] f h = refl
sweep-dangling kept (o ∷ objects) f (h, rest) = elim (Bool-cases o.is_dark) [
  | inl u ↦ rw (u, sweep) (sweep-dangling (whiten o ∷ kept) objects f rest)
  | inr u ↦
      rw (u, sweep)
        (sweep-dangling kept objects (free_obj (kept ++ o ∷ objects) f o) rest
          ∙ free_obj-dangling kept objects f o h)
]

is_there-whiten_all :
    (p : Pointer) (objects : List Obj) → is_there p (whiten_all objects) ≡ is_there p objects
unfolding is_there
is_there-whiten_all none objects = refl
is_there-whiten_all (some a) objects =
    ap is_some (find_object-whiten_all a objects) ∙ go (find_object a objects)
  where
    go : (x : Option Obj) → is_some (whitened x) ≡ is_some x
    go none = refl
    go (some o) = refl

pub whiten_all-HasClasses :
    (objects : List Obj) → HasClasses (whiten_all objects) → HasClasses objects
unfolding whiten_all
whiten_all-HasClasses [] h = h
whiten_all-HasClasses (o ∷ objects) (h, rest) =
    (λ t. sym (is_there-whiten_all o.class_obj objects) ∙ h t, whiten_all-HasClasses objects rest)
