-- ===== src/Compiler/Brackets.antt =====
-- wren_compiler.c: `pushScope`, declarations and `popScope` in a row.
use rust_wren.Base.{
  ℕ, zero, suc, ◌≡◌, refl, sym, ap, ◌∙◌, inl, inr, List, [], ◌∷◌, ◌++◌, true, false, Option, none,
  some, arith, rev, append_assoc, append-nil, All,
}
use rust_wren.Base.Int.{ℤ, pos, negsuc, ◌+ℤ◌, ltb_ℤ}
use rust_wren.Compiler.{Local, Compiler, Error, declare_variable, push_scope, pop_scope}
use rust_wren.Compiler.Declare.{Declares, declare_variable-Declares, new_local, length_errors}
use rust_wren.Compiler.Scopes.{IsOutside, IsInside, pop_scope_lem}

-- The compiler after declarations, the first name first.
unfoldable pub declare_all : Compiler → List (List ℕ) → Compiler
declare_all c [] = c
declare_all c (name ∷ names) = declare_all (declare_variable c name).2 names

-- The locals of a scope that is open: those around it, and its own, latest first.
pub record IsOpen (outer : List Local) (depth : ℤ) (c : Compiler) : Type 0 where
  pub inner : List Local
  pub locals : c.locals ≡ outer ++ rev inner
  pub inside : All (IsInside depth) inner
  pub scope : c.scope_depth ≡ depth

ltb_ℤ-self : (d : ℤ) → ltb_ℤ d d ≡ false
ltb_ℤ-self d = ground arith

declared-IsOpen :
    (outer : List Local) (depth : ℤ) (c : Compiler) (name : List ℕ) (before : List Error)
    (r : List Error × Option ℕ × Compiler)
    → IsOpen outer depth c
    → Declares before c name r
    → IsOpen outer depth r.2
unfolding Declares
declared-IsOpen outer depth c name before (es, none, c') o (full, same, e) = rw same o
declared-IsOpen outer depth c name before (es, some i, c') o (means, others, inr (e, same)) =
    rw same o
declared-IsOpen outer depth c name before (es, some i, c') o (means, others, inl (e, new, scope)) =
    record {
      inner = new_local c name ∷ o.inner;
      locals =
          new
          ∙ ap (λ (ls : List Local). ls ++ new_local c name ∷ []) o.locals
          ∙ append_assoc outer (rev o.inner) (new_local c name ∷ []);
      inside = (rw o.scope (ltb_ℤ-self depth), o.inside);
      scope = scope ∙ o.scope;
    }

declare_all-IsOpen :
    (outer : List Local) (depth : ℤ) (c : Compiler) (names : List (List ℕ))
    → IsOpen outer depth c
    → IsOpen outer depth (declare_all c names)
unfolding declare_all
declare_all-IsOpen outer depth c [] o = o
declare_all-IsOpen outer depth c (name ∷ names) o =
    declare_all-IsOpen outer depth (declare_variable c name).2 names (
      declared-IsOpen outer depth c name (length_errors name) (declare_variable c name) o
        (declare_variable-Declares c name))

depth_back : (d : ℤ) → (d +ℤ pos 1) +ℤ negsuc 0 ≡ d
depth_back (pos n) = ground arith
depth_back (negsuc zero) = refl
depth_back (negsuc (suc n)) = ground arith

depth_local : (d : ℤ) → ltb_ℤ d (negsuc 0) ≡ false → ltb_ℤ (negsuc 0) (d +ℤ pos 1) ≡ true
depth_local (pos n) h = ground arith
depth_local (negsuc zero) h = refl
depth_local (negsuc (suc n)) h = absurd (ground arith)

-- From a compiler whose locals all lie at its depth or further out, `pushScope`, any declarations
-- and `popScope` lead back to the same locals and the same depth, and no assertion fails.
pub pop_scope-declare_all :
    (c : Compiler) (names : List (List ℕ))
    → ltb_ℤ c.scope_depth (negsuc 0) ≡ false
    → All (IsOutside (c.scope_depth +ℤ pos 1)) c.locals
    → (c' : Compiler) × (pop_scope (declare_all (push_scope c) names) ≡ some c')
      × (c'.locals ≡ c.locals)
      × (c'.scope_depth ≡ c.scope_depth)
unfolding push_scope
pop_scope-declare_all c names at_least outside =
    let opened : IsOpen c.locals (c.scope_depth +ℤ pos 1) (push_scope c) = record {
      inner = [];
      locals = sym (append-nil c.locals);
      inside = tt;
      scope = refl;
    } in
    let d = declare_all (push_scope c) names in
    let o = declare_all-IsOpen c.locals (c.scope_depth +ℤ pos 1) (push_scope c) names opened in
    let out : All (IsOutside d.scope_depth) c.locals = rw o.scope outside in
    let inside : All (IsInside d.scope_depth) o.inner = rw o.scope o.inside in
    let local_scope : ltb_ℤ (negsuc 0) d.scope_depth ≡ true =
      rw o.scope (depth_local c.scope_depth at_least) in
    let back : d.scope_depth +ℤ negsuc 0 ≡ c.scope_depth = rw o.scope (depth_back c.scope_depth) in
    (_, pop_scope_lem d c.locals o.inner o.locals out inside local_scope, refl, back)
