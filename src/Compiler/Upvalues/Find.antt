-- ===== src/Compiler/Upvalues/Find.antt =====
-- wren_compiler.c, `findUpvalue`: what it returns, and what it leaves of the chain of compilers.
use rust_wren.Base.{
  ℕ, suc, ◌<◌, ◌≡◌, refl, ◌∙◌, inl, inr, List, [], ◌∷◌, Bool, true, false, if◌then◌else◌, Option,
  none, some, length, Bool-cases, lt-of-get_elem?,
}
use rust_wren.Compiler.{
  CompilerUpvalue, Compiler, resolve_local, add_upvalue, mark, at_boundary, Resolution,
  with_parents, capture, resolve_up, find_upvalue,
}
use rust_wren.Compiler.Upvalues.{
  Target, further, nearest, follow, lookup, IsLinkedTo, IsLinked, IsFull, Grown, Extends,
  grown_refl, Extends-refl, Extends-grown, follow_step,
}
use rust_wren.Compiler.Upvalues.Add.{the_upvalue, Added, add_upvalue-Added, mark-Extends}

-- The index that `findUpvalue` returns leads to the variable of the name, or the name has none.
unfoldable pub IsAnswer : List Compiler → List ℕ → Option ℕ → Compiler → List Compiler → Type 0
IsAnswer parents name none c' parents' = lookup parents name ≡ none
IsAnswer parents name (some i) c' parents' =
    (i < length c'.upvalues)
    × ((v : Target) × (lookup parents name ≡ some v) × (follow c' parents' i ≡ some v))

-- What `findUpvalue` does to a chain of compilers.
unfoldable pub Finds : Compiler → List Compiler → List ℕ → Option Resolution → Type 0
Finds c parents name none = IsFull (c ∷ parents)
Finds c parents name (some (answer, c', parents')) =
    IsAnswer parents name answer c' parents' × Extends c parents c' parents'

lookup_top : (name : List ℕ) → lookup [] name ≡ none
unfolding lookup
lookup_top name = refl

grown_weaken :
    (c c' : Compiler) (New New' : CompilerUpvalue → Type 0)
    → Grown c c' New
    → ((u : CompilerUpvalue) → New u → New' u)
    → Grown c c' New'
grown_weaken c c' New New' g f = record {
  old = g.old;
  new = λ i u e. elim (g.new i u e) [ inl before ↦ inl before | inr h ↦ inr (f u h) ];
  longer = g.longer;
  names = g.names;
  boundary = g.boundary;
}

lookup_boundary :
    (p : Compiler) (ps : List Compiler) (name : List ℕ)
    → at_boundary p name ≡ true
    → lookup (p ∷ ps) name ≡ none
unfolding lookup
lookup_boundary p ps name e = rw e

lookup_within :
    (p : Compiler) (ps : List Compiler) (name : List ℕ)
    → at_boundary p name ≡ false
    → lookup (p ∷ ps) name ≡ nearest (resolve_local p name) (lookup ps name)
unfolding lookup
lookup_within p ps name e = rw e

-- The new upvalue of a compiler whose enclosing compilers are done.
module _ (c p p' : Compiler) (ps ps' : List Compiler) (name : List ℕ) (is_local : Bool) (index : ℕ)
    (v : Target) (outer : Extends p ps p' ps') (linked : IsLinked c (p ∷ ps))
    (ok : IsLinkedTo p' (the_upvalue is_local index)) (meaning : lookup (p ∷ ps) name ≡ some v)
    (leads : (if is_local then some (0, index) else further (follow p' ps' index)) ≡ some v) where
  Added-Finds :
      (added : Option (ℕ × Compiler))
      → Added c (the_upvalue is_local index) added
      → Finds c (p ∷ ps) name (with_parents added (p' ∷ ps'))
  unfolding Finds IsAnswer Added IsFull
  Added-Finds none a = inl a
  Added-Finds (some (i, c')) (e, grown) = (
    (
      lt-of-get_elem? c'.upvalues i (the_upvalue is_local index) e,
      (v, meaning, follow_step c' p' ps' i (the_upvalue is_local index) e ∙ leads),
    ),
    Extends-grown c c' p p' ps ps' outer linked (
        grown_weaken c c' (λ u. u ≡ the_upvalue is_local index) (IsLinkedTo p') grown
          (λ u same. rw same ok)),
  )

-- The variable is no local of the enclosing compiler.
capture-Finds :
    (c p : Compiler) (ps : List Compiler) (name : List ℕ) (rest : Option Resolution)
    → IsLinked c (p ∷ ps)
    → lookup (p ∷ ps) name ≡ further (lookup ps name)
    → Finds p ps name rest
    → Finds c (p ∷ ps) name (capture c rest)
unfolding Finds IsAnswer IsFull
capture-Finds c p ps name none linked e full = inr full
capture-Finds c p ps name (some (none, p', ps')) linked e (nothing, outer) =
    (rw nothing at e, Extends-grown c c p p' ps ps' outer linked (grown_refl c (IsLinkedTo p')))
capture-Finds c p ps name (some (some i, p', ps')) linked e ((less, (v, meaning, leads)), outer) =
    Added-Finds c p p' ps ps' name false i (suc v.0, v.1) outer linked (λ _. less) (rw meaning at e)
      (rw leads) (add_upvalue c false i) (add_upvalue-Added c false i)

find_step :
    (c p : Compiler) (ps : List Compiler) (name : List ℕ)
    → at_boundary p name ≡ false
    → find_upvalue c (p ∷ ps) name
      ≡ resolve_up c p ps (resolve_local p name) (find_upvalue p ps name)
unfolding find_upvalue
find_step c p ps name e = rw e

find_top : (c : Compiler) (name : List ℕ) → find_upvalue c [] name ≡ some (none, c, [])
unfolding find_upvalue
find_top c name = refl

find_boundary :
    (c p : Compiler) (ps : List Compiler) (name : List ℕ)
    → at_boundary p name ≡ true
    → find_upvalue c (p ∷ ps) name ≡ some (none, c, p ∷ ps)
unfolding find_upvalue
find_boundary c p ps name e = rw e

resolve_up-Finds :
    (c p : Compiler) (ps : List Compiler) (name : List ℕ) (local : Option ℕ)
    (rest : Option Resolution)
    → IsLinked c (p ∷ ps)
    → lookup (p ∷ ps) name ≡ nearest local (lookup ps name)
    → Finds p ps name rest
    → Finds c (p ∷ ps) name (resolve_up c p ps local rest)
unfolding IsLinked
resolve_up-Finds c p ps name none rest linked e h = capture-Finds c p ps name rest linked e h
resolve_up-Finds c p ps name (some i) rest linked e h =
    Added-Finds c p (mark p i) ps ps name true i (0, i) (mark-Extends p ps i linked.1) linked
      (λ false_true. cc) e refl (add_upvalue c true i) (add_upvalue-Added c true i)

-- In a chain of compilers whose upvalues capture locals, or upvalues that exist, `findUpvalue`
-- returns -1 exactly when lexical scoping gives the name no variable of an enclosing function, and
-- otherwise the index of an upvalue that leads through the chain to that variable, unless some
-- compiler has no room for another upvalue; every earlier upvalue leads where it led and every name
-- means what it meant.
pub find_upvalue-Finds :
    (c : Compiler) (parents : List Compiler) (name : List ℕ)
    → IsLinked c parents
    → Finds c parents name (find_upvalue c parents name)
unfolding IsLinked Finds IsAnswer
find_upvalue-Finds c [] name linked =
    rw (find_top c name) (lookup_top name, Extends-refl c [] linked)
find_upvalue-Finds c (p ∷ ps) name linked = elim (Bool-cases (at_boundary p name)) [
  | inl e ↦
      rw (find_boundary c p ps name e) (lookup_boundary p ps name e, Extends-refl c (p ∷ ps) linked)
  | inr e ↦ rw (find_step c p ps name e) (
      resolve_up-Finds c p ps name (resolve_local p name) (find_upvalue p ps name) linked
        (lookup_within p ps name e) (find_upvalue-Finds p ps name linked.1))
]
