-- ===== src/Compiler/Declare.antt =====
-- wren_compiler.c, `addLocal` and `declareVariable` in a local scope.
use rust_wren.Base.{
  ℕ, zero, suc, ◌≤◌, ◌≡◌, ◌≢◌, refl, sym, ap, ◌∙◌, ◌⊎◌, inl, inr, List, [], ◌∷◌, ◌++◌, true, false,
  Option, none, some, arith, if◌then◌else◌, get_elem?, length, ◌==◌, ltb, ==_iff, Bool-cases,
  get_elem?-append_left, get_elem?-append_length, length-append,
}
use rust_wren.Base.Int.{ℤ, ltb_ℤ}
use rust_wren.Compiler.{
  Local, Compiler, Error, name_too_long, already_declared, too_many_locals, max_locals,
  max_variable_name, same_name, add_local, declared_at, find_declared, declare_found,
  declare_checked, declare_variable, resolve_at, resolve_from, resolve_local,
}
use rust_wren.Compiler.Locals.{same_name_iff}

abbrev pub new_local : Compiler → List ℕ → Local
new_local c name = record { name = name; depth = c.scope_depth; is_upvalue = false }

-- The error for a name that is too long, which stops nothing.
abbrev pub length_errors : List ℕ → List Error
length_errors name = if ltb max_variable_name (length name) then name_too_long ∷ [] else []

-- What `declareVariable` leaves, with the errors before its search. Without a slot there are as many
-- locals as there may be and nothing has changed. With a slot, the name now means the slot and every
-- other name means what it meant; the local is new and of the current scope, or it was there.
unfoldable pub Declares : List Error → Compiler → List ℕ → List Error × Option ℕ × Compiler → Type 0
Declares before c name (errors, none, c') =
    (length c.locals ≡ max_locals) × (c' ≡ c) × (errors ≡ before ++ too_many_locals ∷ [])
Declares before c name (errors, some slot, c') =
    (resolve_local c' name ≡ some slot)
    × ((other : List ℕ) → other ≢ name → resolve_local c' other ≡ resolve_local c other)
    × (((errors ≡ before)
          × (c'.locals ≡ c.locals ++ new_local c name ∷ [])
          × (c'.scope_depth ≡ c.scope_depth))
        ⊎ ((errors ≡ before ++ already_declared ∷ []) × (c' ≡ c)))

resolve_from-append :
    (ls : List Local) (l : Local) (name : List ℕ) (n : ℕ)
    → n ≤ length ls
    → resolve_from (ls ++ l ∷ []) name n ≡ resolve_from ls name n
unfolding resolve_from
resolve_from-append ls l name zero h = refl
resolve_from-append ls l name (suc n) h =
    let ih = resolve_from-append ls l name n (omega arith) in
    rw (get_elem?-append_left ls (l ∷ []) n (omega arith), ih)

resolve_from-snoc :
    (ls : List Local) (l : Local) (name : List ℕ)
    → resolve_from (ls ++ l ∷ []) name (length (ls ++ l ∷ []))
      ≡ (if same_name l name then some (length ls) else resolve_from ls name (length ls))
unfolding resolve_from
resolve_from-snoc ls l name =
    let long : length (ls ++ l ∷ []) ≡ suc (length ls) = omega (arith, length-append ls (l ∷ [])) in
    let before = resolve_from-append ls l name (length ls) (omega arith) in
    rw (long, get_elem?-append_length ls [] l, before)

declared_at-resolve :
    (o : Option Local) (depth : ℤ) (name : List ℕ) (n i : ℕ) (rest rest' : Option ℕ)
    → (rest ≡ some i → rest' ≡ some i)
    → declared_at o depth name n rest ≡ some i
    → resolve_at o name n rest' ≡ some i
declared_at-resolve none depth name n i rest rest' ih h = cc
declared_at-resolve (some l) depth name n i rest rest' ih h =
    elim (Bool-cases (ltb_ℤ l.depth depth)) [
      | inl t ↦ let impossible : none ≡ some i = rw t at h in cc
      | inr t ↦ elim (Bool-cases (same_name l name)) [
        | inl s ↦ rw s (rw (t, s) at h)
        | inr s ↦ rw s (ih (rw (t, s) at h))
      ]
    ]

find_declared-resolve :
    (ls : List Local) (depth : ℤ) (name : List ℕ) (n i : ℕ)
    → find_declared ls depth name n ≡ some i
    → resolve_from ls name n ≡ some i
unfolding find_declared resolve_from
find_declared-resolve ls depth name zero i h = cc
find_declared-resolve ls depth name (suc n) i h =
    declared_at-resolve (get_elem? ls n) depth name n i (find_declared ls depth name n)
      (resolve_from ls name n) (find_declared-resolve ls depth name n i) h

new_local-name : (c : Compiler) (name : List ℕ) → same_name (new_local c name) name ≡ true
new_local-name c name = (same_name_iff (new_local c name) name).1 refl

new_local-other :
    (c : Compiler) (name other : List ℕ) → other ≢ name → same_name (new_local c name) other ≡ false
new_local-other c name other ne = elim (Bool-cases (same_name (new_local c name) other)) [
  | inl t ↦ absurd (ne (sym ((same_name_iff (new_local c name) other).0 t)))
  | inr t ↦ t
]

declare_found-Declares :
    (c : Compiler) (name : List ℕ) (found : Option ℕ)
    → find_declared c.locals c.scope_depth name (length c.locals) ≡ found
    → Declares [] c name (declare_found c name found)
unfolding Declares add_local resolve_local
declare_found-Declares c name (some i) e = (
  find_declared-resolve c.locals c.scope_depth name (length c.locals) i e,
  λ other ne. refl,
  inr (refl, refl),
)
declare_found-Declares c name none e = elim (Bool-cases (length c.locals == max_locals)) [
  | inl t ↦ rw t ((==_iff _ _).0 t, refl, refl)
  | inr t ↦ rw t (
    resolve_from-snoc c.locals (new_local c name) name ∙ rw (new_local-name c name) refl,
    λ other ne.
        resolve_from-snoc c.locals (new_local c name) other
        ∙ rw (new_local-other c name other ne) refl,
    inl (refl, refl, refl),
  )
]

declare_checked-Declares :
    (c : Compiler) (name : List ℕ) → Declares [] c name (declare_checked c name)
unfolding declare_checked
declare_checked-Declares c name =
    declare_found-Declares c name (find_declared c.locals c.scope_depth name (length c.locals)) refl

Declares-after_error :
    (error : Error) (c : Compiler) (name : List ℕ) (r : List Error × Option ℕ × Compiler)
    → Declares [] c name r
    → Declares (error ∷ []) c name (error ∷ r.0, r.1, r.2)
unfolding Declares
Declares-after_error error c name (es, none, c') (full, same, e) = (full, same, ap (◌∷◌ error) e)
Declares-after_error error c name (es, some i, c') (means, others, inl (e, new, depth)) =
    (means, others, inl (ap (◌∷◌ error) e, new, depth))
Declares-after_error error c name (es, some i, c') (means, others, inr (e, same)) =
    (means, others, inr (ap (◌∷◌ error) e, same))

pub declare_variable-Declares :
    (c : Compiler) (name : List ℕ) → Declares (length_errors name) c name (declare_variable c name)
unfolding declare_variable
declare_variable-Declares c name = elim (Bool-cases (ltb max_variable_name (length name))) [
  | inl t ↦ rw t (
      Declares-after_error name_too_long c name (declare_checked c name)
        (declare_checked-Declares c name))
  | inr t ↦ rw t (declare_checked-Declares c name)
]
