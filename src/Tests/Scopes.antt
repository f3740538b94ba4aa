-- ===== src/Tests/Scopes.antt =====
-- Runs of the scopes and of the resolution of names, and the theorems about them on these runs.
use rust_wren.Base.{ℕ, ◌≡◌, refl, List, [], ◌∷◌, false, Option, none, some}
use rust_wren.Base.Int.{ℤ, pos}
use rust_wren.Compiler.{
  Local, Compiler, declare_variable, push_scope, pop_scope, resolve_local, find_upvalue,
  at_boundary, resolve_from, same_name, add_upvalue, find_same, declare_checked, find_declared,
  Resolution,
}
use rust_wren.Compiler.Upvalues.{IsLinked}
use rust_wren.Compiler.Upvalues.Find.{Finds, find_upvalue-Finds}
use rust_wren.Compiler.Locals.{IsLastBelow, resolve_local-IsLastBelow}
use rust_wren.Compiler.Brackets.{declare_all, pop_scope-declare_all}

-- The names a and b, a local of each, and three nested functions, of which the outermost has both.
abbrev name_a : List ℕ
name_a = 97 ∷ []

abbrev name_b : List ℕ
name_b = 98 ∷ []

abbrev local_at : ℤ → List ℕ → Local
local_at depth name = record { name = name; depth = depth; is_upvalue = false }

abbrev function : List Local → Compiler
function locals = record {
  locals = locals;
  upvalues = [];
  scope_depth = pos 0;
  num_slots = pos 0;
  in_class = false;
  code = [];
}

abbrev two_locals : Compiler
two_locals = function (local_at (pos 0) name_a ∷ local_at (pos 0) name_b ∷ [])

abbrev no_locals : Compiler
no_locals = function []

abbrev enclosing : List Compiler
enclosing = no_locals ∷ two_locals ∷ []

abbrev answer : Option Resolution → Option (Option ℕ)
answer none = none
answer (some r) = some r.0

find_b : answer (find_upvalue no_locals enclosing name_b) ≡ some (some 0)
unfolding find_upvalue at_boundary resolve_local resolve_from same_name add_upvalue find_same
find_b = refl

find_c : answer (find_upvalue no_locals enclosing (99 ∷ [])) ≡ some none
unfolding find_upvalue at_boundary resolve_local resolve_from same_name
find_c = refl

resolve_b : resolve_local two_locals name_b ≡ some 1
unfolding resolve_local resolve_from same_name
resolve_b = refl

declare_b : (declare_variable two_locals name_b).1 ≡ some 1
unfolding declare_variable declare_checked find_declared same_name
declare_b = refl

nothing-IsLinked : IsLinked no_locals enclosing
unfolding IsLinked
nothing-IsLinked = ((λ i u e. cc), ((λ i u e. cc), tt))

find_upvalue-Finds_example :
    Finds no_locals enclosing name_b (find_upvalue no_locals enclosing name_b)
find_upvalue-Finds_example = find_upvalue-Finds no_locals enclosing name_b nothing-IsLinked

resolve_local-IsLastBelow_example :
    IsLastBelow two_locals.locals name_b 2 (resolve_local two_locals name_b)
resolve_local-IsLastBelow_example = resolve_local-IsLastBelow two_locals name_b

pop_scope-declare_all_example :
    (c' : Compiler) × (pop_scope (declare_all (push_scope two_locals) (name_a ∷ name_a ∷ []))
      ≡ some c')
    × (c'.locals ≡ two_locals.locals)
    × (c'.scope_depth ≡ pos 0)
pop_scope-declare_all_example =
    pop_scope-declare_all two_locals (name_a ∷ name_a ∷ []) refl (refl, (refl, tt))
