-- ===== src/Compiler.antt =====
-- wren_compiler.c, lines 209 to 235, 320 to 378 and 1375 to 1641: the scopes of local variables and
-- the resolution of names to locals and upvalues. A compiler stands here with the fields that this
-- code reads or writes; `locals` and `upvalues` hold the entries in use, so their lengths are the
-- counts, and the chain of `parent` pointers is the list of the enclosing compilers, innermost first.
pub mod Upvalues
pub mod Locals
pub mod Declare
pub mod Scopes
pub mod Brackets
use rust_wren.Base.{
  ℕ, zero, suc, ◌+◌, ◌-◌, List, [], ◌∷◌, ◌++◌, Bool, true, false, ◌&&◌, not, Option, none, some,
  ltb, ◌==◌, if◌then◌else◌, get_elem?, set, length, take, bool_eq,
}
use rust_wren.Base.Int.{ℤ, pos, negsuc, ◌+ℤ◌, ltb_ℤ, sub_ℕ, pos_part, neg_part}
use rust_wren.Bytes.{memcmp_eq}

-- `Local`.
pub record Local : Type 0 where
  pub name : List ℕ
  pub depth : ℤ
  pub is_upvalue : Bool

pub record CompilerUpvalue : Type 0 where
  pub is_local : Bool
  pub index : ℕ

-- The instructions that leave a scope.
pub data Code : Type 0 where
  code_pop code_close_upvalue : Code

-- `in_class` is `enclosingClass != NULL`, and `code` is what has been emitted.
pub record Compiler : Type 0 where
  pub locals : List Local
  pub upvalues : List CompilerUpvalue
  pub scope_depth : ℤ
  pub num_slots : ℤ
  pub in_class : Bool
  pub code : List Code

pub data Error : Type 0 where
  name_too_long already_declared too_many_locals : Error

abbrev pub max_locals : ℕ
max_locals = 256

abbrev pub max_upvalues : ℕ
max_upvalues = 256

abbrev pub max_variable_name : ℕ
max_variable_name = 64

-- The comparison of a local's name with a name.
unfoldable pub same_name : Local → List ℕ → Bool
unfolding memcmp_eq
same_name local name = length local.name == length name && memcmp_eq (length name) name local.name

-- `addLocal`, where the array has room.
unfoldable pub add_local : Compiler → List ℕ → ℕ × Compiler
add_local c name =
    let local : Local = record { name = name; depth = c.scope_depth; is_upvalue = false } in
    (length c.locals, record c { locals = c.locals ++ local ∷ [] })

-- The body of the loop of `declareVariable` at a local, before the rest of the loop.
abbrev pub declared_at : Option Local → ℤ → List ℕ → ℕ → Option ℕ → Option ℕ
declared_at none depth name i rest = none
declared_at (some local) depth name i rest =
    if ltb_ℤ local.depth depth then none else if same_name local name then some i else rest

-- The loop of `declareVariable` over the locals below an index: the one of this name in the scope.
unfoldable pub find_declared : List Local → ℤ → List ℕ → ℕ → Option ℕ
find_declared locals depth name zero = none
find_declared locals depth name (suc i) =
    let rest = find_declared locals depth name i in
    declared_at (get_elem? locals i) depth name i rest

-- `declareVariable` in a local scope after the search.
abbrev pub declare_found : Compiler → List ℕ → Option ℕ → List Error × Option ℕ × Compiler
declare_found c name (some i) = (already_declared ∷ [], some i, c)
declare_found c name none =
    if length c.locals == max_locals
    then (too_many_locals ∷ [], none, c)
    else ([], some (add_local c name).0, (add_local c name).1)

-- `declareVariable` in a local scope after the check of the name's length.
unfoldable pub declare_checked : Compiler → List ℕ → List Error × Option ℕ × Compiler
declare_checked c name =
    declare_found c name (find_declared c.locals c.scope_depth name (length c.locals))

-- `declareVariable` where `scopeDepth` is not -1: the errors, the slot, or -1, and the compiler.
unfoldable pub declare_variable : Compiler → List ℕ → List Error × Option ℕ × Compiler
declare_variable c name =
    let rest = declare_checked c name in
    if ltb max_variable_name (length name) then (name_too_long ∷ rest.0, rest.1, rest.2) else rest

-- `pushScope`.
unfoldable pub push_scope : Compiler → Compiler
push_scope c = record c { scope_depth = c.scope_depth +ℤ pos 1 }

-- The instruction that discards a local.
abbrev pub pop_code : Local → Code
pop_code local = if local.is_upvalue then code_close_upvalue else code_pop

-- The body of the loop of `discardLocals` at a local, before the rest of the loop.
abbrev pub discard_at : Option Local → ℤ → ℕ → List Code × ℕ → List Code × ℕ
discard_at none depth i rest = ([], suc i)
discard_at (some local) depth i rest =
    if ltb_ℤ local.depth depth then ([], suc i) else (pop_code local ∷ rest.0, rest.1)

-- The loop of `discardLocals` at `local + 1`: the code, and `local + 1` at its end.
unfoldable pub discard_from : List Local → ℤ → ℕ → List Code × ℕ
discard_from locals depth zero = ([], zero)
discard_from locals depth (suc i) =
    let rest = discard_from locals depth i in discard_at (get_elem? locals i) depth i rest

-- `discardLocals`; `none` is a failed assertion.
unfoldable pub discard_locals : Compiler → ℤ → Option (ℕ × Compiler)
discard_locals c depth =
    let left = discard_from c.locals depth (length c.locals) in
    if ltb_ℤ (negsuc 0) c.scope_depth
    then some (length c.locals - left.1, record c { code = c.code ++ left.0 })
    else none

-- What `popScope` does after `discardLocals`.
abbrev pub close_scope : Option (ℕ × Compiler) → Option Compiler
close_scope none = none
close_scope (some (popped, c)) = some (record c {
  locals = take (length c.locals - popped) c.locals;
  num_slots = sub_ℕ (pos_part c.num_slots) (neg_part c.num_slots + popped);
  scope_depth = c.scope_depth +ℤ negsuc 0;
})

-- `popScope`.
unfoldable pub pop_scope : Compiler → Option Compiler
pop_scope c = close_scope (discard_locals c c.scope_depth)

-- The body of the loop of `resolveLocal` at a local, before the rest of the loop.
abbrev pub resolve_at : Option Local → List ℕ → ℕ → Option ℕ → Option ℕ
resolve_at none name i rest = none
resolve_at (some local) name i rest = if same_name local name then some i else rest

-- The loop of `resolveLocal` over the locals below an index.
unfoldable pub resolve_from : List Local → List ℕ → ℕ → Option ℕ
resolve_from locals name zero = none
resolve_from locals name (suc i) =
    let rest = resolve_from locals name i in resolve_at (get_elem? locals i) name i rest

-- `resolveLocal`; `none` is -1.
unfoldable pub resolve_local : Compiler → List ℕ → Option ℕ
resolve_local c name = resolve_from c.locals name (length c.locals)

-- The loop of `addUpvalue` from an index, over the upvalues that are left.
unfoldable pub find_same : List CompilerUpvalue → Bool → ℕ → ℕ → Option ℕ
find_same [] is_local index i = none
find_same (u ∷ us) is_local index i =
    let rest = find_same us is_local index (suc i) in
    if u.index == index && bool_eq u.is_local is_local then some i else rest

-- The end of `addUpvalue`: the index of the upvalue found, or a new one in the array.
abbrev pub place : Compiler → CompilerUpvalue → Option ℕ → Option (ℕ × Compiler)
place c upvalue (some i) = some (i, c)
place c upvalue none =
    if ltb (length c.upvalues) max_upvalues
    then some (length c.upvalues, record c { upvalues = c.upvalues ++ upvalue ∷ [] })
    else none

-- `addUpvalue`; `none` is a store past the end of the array.
unfoldable pub add_upvalue : Compiler → Bool → ℕ → Option (ℕ × Compiler)
add_upvalue c is_local index =
    let upvalue : CompilerUpvalue = record { is_local = is_local; index = index } in
    place c upvalue (find_same c.upvalues is_local index 0)

-- `compiler->parent->locals[local].isUpvalue = true`.
abbrev pub mark_local : Compiler → ℕ → Option Local → Compiler
mark_local c i none = c
mark_local c i (some local) = record c {
  locals = set c.locals i (record local { is_upvalue = true });
}

unfoldable pub mark : Compiler → ℕ → Compiler
mark c i = mark_local c i (get_elem? c.locals i)

-- `name[0] != '_' && compiler->parent->enclosingClass != NULL`.
unfoldable pub at_boundary : Compiler → List ℕ → Bool
at_boundary parent [] = parent.in_class
at_boundary parent (x ∷ name) = not (x == 95) && parent.in_class

-- What `findUpvalue` returns, with the compilers after it.
abbrev pub Resolution : Type 0
Resolution = Option ℕ × Compiler × List Compiler

-- The index that `addUpvalue` gave, with the enclosing compilers.
abbrev pub with_parents : Option (ℕ × Compiler) → List Compiler → Option Resolution
with_parents none parents = none
with_parents (some (i, c)) parents = some (some i, c, parents)

-- What follows the recursive call of `findUpvalue`.
abbrev pub capture : Compiler → Option Resolution → Option Resolution
capture c none = none
capture c (some (none, parent, parents)) = some (none, c, parent ∷ parents)
capture c (some (some i, parent, parents)) = with_parents (add_upvalue c false i) (parent ∷ parents)

-- What `findUpvalue` does with what `resolveLocal` found in the enclosing compiler.
abbrev pub resolve_up :
    Compiler → Compiler → List Compiler → Option ℕ → Option Resolution → Option Resolution
resolve_up c parent parents (some i) rest =
    with_parents (add_upvalue c true i) (mark parent i ∷ parents)
resolve_up c parent parents none rest = capture c rest

-- `findUpvalue`; `none` is a store past the end of the array of upvalues.
unfoldable pub find_upvalue : Compiler → List Compiler → List ℕ → Option Resolution
find_upvalue c [] name = some (none, c, [])
find_upvalue c (parent ∷ parents) name =
    let rest = find_upvalue parent parents name in
    if at_boundary parent name
    then some (none, c, parent ∷ parents)
    else resolve_up c parent parents (resolve_local parent name) rest
