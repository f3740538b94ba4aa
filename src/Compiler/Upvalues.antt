-- ===== src/Compiler/Upvalues.antt =====
-- wren_compiler.c, `addUpvalue` and `findUpvalue`: what an upvalue index means, and what lexical
-- scoping gives a name.
pub mod Add
pub mod Find
use rust_wren.Base.{
  ℕ, zero, suc, ◌+◌, ◌≤◌, ◌<◌, ◌≡◌, refl, sym, ap, ◌∙◌, ◌⊎◌, inl, inr, List, [], ◌∷◌, ◌++◌, Bool,
  true, false, Option, none, some, arith, if◌then◌else◌, get_elem?, set, length, ◌==◌, ltb, ==_iff,
  bool_eq, bool_eq→≡, Bool-cases, Option-cases, get_elem?-append_left, get_elem?-append_length,
  get_elem?-snoc, length-append, length-set, lt-of-get_elem?, get_elem?-of_lt,
}
use rust_wren.Compiler.{
  Local, CompilerUpvalue, Compiler, max_upvalues, same_name, resolve_from, resolve_local, find_same,
  add_upvalue, mark, at_boundary, Resolution, with_parents, capture, find_upvalue,
}

-- A variable of an enclosing function: how many functions further out, and its slot there.
abbrev pub Target : Type 0
Target = ℕ × ℕ

abbrev pub further : Option Target → Option Target
further none = none
further (some (hops, slot)) = some (suc hops, slot)

-- The local of the enclosing function, or else what its own enclosing functions give.
abbrev pub nearest : Option ℕ → Option Target → Option Target
nearest none rest = further rest
nearest (some slot) rest = some (0, slot)

-- The variable that a closure sees through an upvalue of its function.
unfoldable pub follow : Compiler → List Compiler → ℕ → Option Target
follow c [] i = none
follow c (parent ∷ parents) i = elim (get_elem? c.upvalues i) [
  | none ↦ none
  | some u ↦
      let rest = follow parent parents u.index in
      if u.is_local then some (0, u.index) else further rest
]

-- Lexical scoping: the innermost enclosing function with a local of this name, up to a method.
unfoldable pub lookup : List Compiler → List ℕ → Option Target
lookup [] name = none
lookup (parent ∷ parents) name =
    let rest = lookup parents name in
    if at_boundary parent name then none else nearest (resolve_local parent name) rest

-- An upvalue that captures an upvalue of the enclosing function names one that exists.
abbrev pub IsLinkedTo : Compiler → CompilerUpvalue → Type 0
IsLinkedTo parent u = u.is_local ≡ false → u.index < length parent.upvalues

unfoldable pub IsLinked : Compiler → List Compiler → Type 0
IsLinked c [] = Unit
IsLinked c (parent ∷ parents) =
    ((i : ℕ) (u : CompilerUpvalue) → get_elem? c.upvalues i ≡ some u → IsLinkedTo parent u)
    × IsLinked parent parents

-- Some compiler of the chain has no room for an upvalue.
unfoldable pub IsFull : List Compiler → Type 0
IsFull [] = ⊥
IsFull (c ∷ cs) = (max_upvalues ≤ length c.upvalues) ⊎ IsFull cs

-- One compiler after a change that adds upvalues.
pub record Grown (c c' : Compiler) (New : CompilerUpvalue → Type 0) : Type 0 where
  pub old :
      (i : ℕ) (u : CompilerUpvalue)
      → get_elem? c.upvalues i ≡ some u
      → get_elem? c'.upvalues i ≡ some u
  pub new :
      (i : ℕ) (u : CompilerUpvalue)
      → get_elem? c'.upvalues i ≡ some u
      → (get_elem? c.upvalues i ≡ some u) ⊎ New u
  pub longer : length c.upvalues ≤ length c'.upvalues
  pub names : (name : List ℕ) → resolve_local c' name ≡ resolve_local c name
  pub boundary : (name : List ℕ) → at_boundary c' name ≡ at_boundary c name

-- A chain of compilers after a change: no upvalue leads elsewhere, and no name means anything else.
pub record Extends (c : Compiler) (parents : List Compiler) (c' : Compiler)
    (parents' : List Compiler) : Type 0 where
  pub linked : IsLinked c' parents'
  pub longer : length c.upvalues ≤ length c'.upvalues
  pub kept : (i : ℕ) → i < length c.upvalues → follow c' parents' i ≡ follow c parents i
  pub names : (name : List ℕ) → resolve_local c' name ≡ resolve_local c name
  pub boundary : (name : List ℕ) → at_boundary c' name ≡ at_boundary c name
  pub outer : (name : List ℕ) → lookup parents' name ≡ lookup parents name

pub grown_refl : (c : Compiler) (New : CompilerUpvalue → Type 0) → Grown c c New
grown_refl c New = record {
  old = λ i u e. e;
  new = λ i u e. inl e;
  longer = omega arith;
  names = λ name. refl;
  boundary = λ name. refl;
}

pub Extends-refl : (c : Compiler) (ps : List Compiler) → IsLinked c ps → Extends c ps c ps
Extends-refl c ps h = record {
  linked = h;
  longer = omega arith;
  kept = λ i less. refl;
  names = λ name. refl;
  boundary = λ name. refl;
  outer = λ name. refl;
}

lookup-cons :
    (p p' : Compiler) (ps ps' : List Compiler)
    → Extends p ps p' ps'
    → (name : List ℕ) → lookup (p' ∷ ps') name ≡ lookup (p ∷ ps) name
unfolding lookup
lookup-cons p p' ps ps' e name = rw (e.boundary name, e.names name, e.outer name)

pub follow_step :
    (c p : Compiler) (ps : List Compiler) (i : ℕ) (u : CompilerUpvalue)
    → get_elem? c.upvalues i ≡ some u
    → follow c (p ∷ ps) i
      ≡ (if u.is_local then some (0, u.index) else further (follow p ps u.index))
unfolding follow
follow_step c p ps i u e = rw (e, follow)

branch_congr :
    (u : CompilerUpvalue) (a b : Option Target)
    → (u.is_local ≡ false → a ≡ b)
    → (if u.is_local then some (0, u.index) else further a)
      ≡ (if u.is_local then some (0, u.index) else further b)
branch_congr u a b h = elim (Bool-cases u.is_local) [ inl e ↦ rw e | inr e ↦ rw (h e) ]

module _ (c c' p p' : Compiler) (ps ps' : List Compiler) (outer : Extends p ps p' ps') where
  follow_kept :
      (i : ℕ) (u : CompilerUpvalue)
      → get_elem? c.upvalues i ≡ some u
      → get_elem? c'.upvalues i ≡ some u
      → IsLinkedTo p u
      → follow c' (p' ∷ ps') i ≡ follow c (p ∷ ps) i
  follow_kept i u e e' h =
      follow_step c' p' ps' i u e'
      ∙ branch_congr u (follow p' ps' u.index) (follow p ps u.index)
          (λ local. outer.kept u.index (h local))
      ∙ sym (follow_step c p ps i u e)

  pub Extends-grown :
      IsLinked c (p ∷ ps) → Grown c c' (IsLinkedTo p') → Extends c (p ∷ ps) c' (p' ∷ ps')
  unfolding IsLinked
  Extends-grown h g = record {
    linked = (
      λ i u e. elim (g.new i u e) [
        | inl before ↦ λ local.
            let less : u.index < length p.upvalues = h.0 i u before local in
            omega (arith, less, outer.longer)
        | inr ok ↦ ok
      ],
      outer.linked,
    );
    longer = g.longer;
    kept = λ i less.
        let at = get_elem?-of_lt c.upvalues i less in
        follow_kept i at.0 at.1 (g.old i at.0 at.1) (h.0 i at.0 at.1);
    names = g.names;
    boundary = g.boundary;
    outer = lookup-cons p p' ps ps' outer;
  }
