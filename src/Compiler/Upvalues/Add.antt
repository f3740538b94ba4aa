-- ===== src/Compiler/Upvalues/Add.antt =====
-- wren_compiler.c, `addUpvalue` and the mark that `findUpvalue` puts on a captured local.
use rust_wren.Base.{
  get_elem?-set_self, get_elem?-set_ne, ℕ_discrete, ℕ, zero, suc, ◌+◌, ◌≤◌, ◌<◌, ◌≡◌, refl, sym, ap,
  ◌∙◌, inl, inr, List, [], ◌∷◌, ◌++◌, Bool, true, Option, none, some, arith, if◌then◌else◌,
  get_elem?, set, length, ◌==◌, ltb, ◌&&◌, bool_eq, bool_eq→≡, Bool-cases, get_elem?-append_left,
  get_elem?-append_length, get_elem?-snoc, length-append, length-set, lt-of-get_elem?,
}
use rust_wren.Compiler.{
  Local, CompilerUpvalue, Compiler, max_upvalues, same_name, resolve_from, resolve_local, find_same,
  add_upvalue, place, mark, mark_local, at_boundary,
}
use rust_wren.Compiler.Upvalues.{Grown, follow, Extends, IsLinked, grown_refl}

abbrev pub the_upvalue : Bool → ℕ → CompilerUpvalue
the_upvalue is_local index = record { is_local = is_local; index = index }

same_upvalue :
    (u : CompilerUpvalue) (is_local : Bool) (index : ℕ)
    → (u.index == index && bool_eq u.is_local is_local) ≡ true
    → u ≡ the_upvalue is_local index
same_upvalue u is_local index h =
    let e : u.index ≡ index = ground arith in
    let e' : bool_eq u.is_local is_local ≡ true = ground arith in
    λ i. record { is_local = bool_eq→≡ u.is_local is_local e' i; index = e i }

find_same_step :
    (u : CompilerUpvalue) (us : List CompilerUpvalue) (is_local : Bool) (index i : ℕ)
    → find_same (u ∷ us) is_local index i ≡ (
        if u.index == index && bool_eq u.is_local is_local
        then some i
        else find_same us is_local index (suc i))
unfolding find_same
find_same_step u us is_local index i = refl

find_same-found :
    (us : List CompilerUpvalue) (is_local : Bool) (index i j : ℕ)
    → find_same us is_local index i ≡ some j
    → (k : ℕ) × (j ≡ i + k) × (get_elem? us k ≡ some (the_upvalue is_local index))
unfolding find_same
find_same-found [] is_local index i j h = cc
find_same-found (u ∷ us) is_local index i j h =
    elim (Bool-cases (u.index == index && bool_eq u.is_local is_local)) [
      | inl t ↦
          let e : some i ≡ some j = rw t at h in
          let e' : i ≡ j = cc in (0, omega arith, ap some (same_upvalue u is_local index t))
      | inr t ↦
          let e : find_same us is_local index (suc i) ≡ some j = rw t at h in
          let rest = find_same-found us is_local index (suc i) j e in
          (suc rest.0, omega (arith, rest.1), rest.2)
    ]

-- What `addUpvalue` did: the index is that of the upvalue, and nothing else is added.
unfoldable pub Added : Compiler → CompilerUpvalue → Option (ℕ × Compiler) → Type 0
Added c u none = max_upvalues ≤ length c.upvalues
Added c u (some (i, c')) =
    (get_elem? c'.upvalues i ≡ some u) × Grown c c' (λ (v : CompilerUpvalue). v ≡ u)

pub boundary_congr :
    (c c' : Compiler)
    → c'.in_class ≡ c.in_class
    → (name : List ℕ) → at_boundary c' name ≡ at_boundary c name
unfolding at_boundary
boundary_congr c c' e [] = e
boundary_congr c c' e (x ∷ name) = rw e

appended-Grown :
    (c : Compiler) (u : CompilerUpvalue)
    → Grown c (record c { upvalues = c.upvalues ++ u ∷ [] }) (λ (v : CompilerUpvalue). v ≡ u)
unfolding resolve_local
appended-Grown c u = record {
  old = λ i v e. get_elem?-append_left c.upvalues (u ∷ []) i (lt-of-get_elem? c.upvalues i v e) ∙ e;
  new = λ i v e. elim (get_elem?-snoc c.upvalues u v i e) [ inl h ↦ inl h | inr h ↦ inr (sym h.1) ];
  longer = omega (arith, length-append c.upvalues (u ∷ []));
  names = λ name. refl;
  boundary = λ name. boundary_congr c (record c { upvalues = c.upvalues ++ u ∷ [] }) refl name;
}

place-Added :
    (c : Compiler) (is_local : Bool) (index : ℕ) (found : Option ℕ)
    → found ≡ find_same c.upvalues is_local index 0
    → Added c (the_upvalue is_local index) (place c (the_upvalue is_local index) found)
unfolding Added
place-Added c is_local index none e = elim (Bool-cases (ltb (length c.upvalues) max_upvalues)) [
  | inl t ↦ rw (t) (
    get_elem?-append_length c.upvalues [] (the_upvalue is_local index),
    appended-Grown c (the_upvalue is_local index),
  )
  | inr t ↦ rw (t) (ground arith)
]
place-Added c is_local index (some i) e =
    let h = find_same-found c.upvalues is_local index 0 i (sym e) in
    let same : h.0 ≡ i = omega (arith, h.1) in
    (rw same at h.2, grown_refl c (λ v. v ≡ the_upvalue is_local index))

pub add_upvalue-Added :
    (c : Compiler) (is_local : Bool) (index : ℕ)
    → Added c (the_upvalue is_local index) (add_upvalue c is_local index)
unfolding add_upvalue
add_upvalue-Added c is_local index =
    place-Added c is_local index (find_same c.upvalues is_local index 0) refl

-- A mark changes no name.
same_name-mark :
    (l : Local) (name : List ℕ) → same_name (record l { is_upvalue = true }) name ≡ same_name l name
unfolding same_name
same_name-mark l name = refl

resolve_from-set :
    (ls : List Local) (i : ℕ) (l : Local) (name : List ℕ) (n : ℕ)
    → get_elem? ls i ≡ some l
    → resolve_from (set ls i (record l { is_upvalue = true })) name n ≡ resolve_from ls name n
unfolding resolve_from
resolve_from-set ls i l name zero h = refl
resolve_from-set ls i l name (suc n) h =
    let ih = resolve_from-set ls i l name n h in
    elim (ℕ_discrete i n) [
      | yes e ↦
          let h' : get_elem? ls n ≡ some l = rw e at h in
          let less : n < length ls = lt-of-get_elem? ls n l h' in
          let here : get_elem? (set ls i (record l { is_upvalue = true })) n
              ≡ some (record l { is_upvalue = true }) =
            rw e (get_elem?-set_self ls n (record l { is_upvalue = true }) less) in
          rw (here, h', same_name-mark l name, ih)
      | no ne ↦ rw (get_elem?-set_ne ls (record l { is_upvalue = true }) ne, ih)
    ]

mark_local-names :
    (c : Compiler) (i : ℕ) (found : Option Local)
    → found ≡ get_elem? c.locals i
    → (name : List ℕ) → resolve_local (mark_local c i found) name ≡ resolve_local c name
unfolding resolve_local
mark_local-names c i none e name = refl
mark_local-names c i (some l) e name =
    rw (length-set c.locals i (record l { is_upvalue = true }))
      (resolve_from-set c.locals i l name (length c.locals) (sym e))

pub mark-names :
    (c : Compiler) (i : ℕ) (name : List ℕ) → resolve_local (mark c i) name ≡ resolve_local c name
unfolding mark
mark-names c i name = mark_local-names c i (get_elem? c.locals i) refl name

mark_local-upvalues :
    (c : Compiler) (i : ℕ) (found : Option Local) → (mark_local c i found).upvalues ≡ c.upvalues
mark_local-upvalues c i none = refl
mark_local-upvalues c i (some l) = refl

mark_local-in_class :
    (c : Compiler) (i : ℕ) (found : Option Local) → (mark_local c i found).in_class ≡ c.in_class
mark_local-in_class c i none = refl
mark_local-in_class c i (some l) = refl

mark-upvalues : (c : Compiler) (i : ℕ) → (mark c i).upvalues ≡ c.upvalues
unfolding mark
mark-upvalues c i = mark_local-upvalues c i (get_elem? c.locals i)

mark-in_class : (c : Compiler) (i : ℕ) → (mark c i).in_class ≡ c.in_class
unfolding mark
mark-in_class c i = mark_local-in_class c i (get_elem? c.locals i)

follow_congr :
    (c c' : Compiler) (ps : List Compiler) (i : ℕ)
    → c'.upvalues ≡ c.upvalues
    → follow c' ps i ≡ follow c ps i
unfolding follow
follow_congr c c' [] i e = refl
follow_congr c c' (p ∷ ps) i e = rw (e, follow)

IsLinked-congr :
    (c c' : Compiler) (ps : List Compiler)
    → c'.upvalues ≡ c.upvalues
    → IsLinked c ps
    → IsLinked c' ps
unfolding IsLinked
IsLinked-congr c c' [] e h = tt
IsLinked-congr c c' (p ∷ ps) e h = (λ i u get. h.0 i u (rw e at get), h.1)

-- Marking a local changes no upvalue and no name.
pub mark-Extends :
    (c : Compiler) (ps : List Compiler) (i : ℕ) → IsLinked c ps → Extends c ps (mark c i) ps
mark-Extends c ps i h = record {
  linked = IsLinked-congr c (mark c i) ps (mark-upvalues c i) h;
  longer = rw (mark-upvalues c i) (omega arith);
  kept = λ j less. follow_congr c (mark c i) ps j (mark-upvalues c i);
  names = mark-names c i;
  boundary = boundary_congr c (mark c i) (mark-in_class c i);
  outer = λ name. refl;
}
