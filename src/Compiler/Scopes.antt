-- ===== src/Compiler/Scopes.antt =====
-- wren_compiler.c, `discardLocals` and `popScope`.
use rust_wren.Base.{
  ℕ, zero, suc, ◌+◌, ◌-◌, ◌≤◌, ◌≡◌, refl, sym, ap, ◌∙◌, List, [], ◌∷◌, ◌++◌, map, true, false, some,
  arith, length, take, rev, append_assoc, take-append_length, append-nil, get_elem?-append_left,
  All, length-rev, get_elem?-append_length, length-append, get_elem?-of_lt, All-get_elem?,
}
use rust_wren.Base.Int.{ℤ, negsuc, ◌+ℤ◌, ltb_ℤ, sub_ℕ, pos_part, neg_part}
use rust_wren.Compiler.{
  Local, Compiler, pop_code, discard_from, discard_locals, close_scope, pop_scope,
}

-- The locals of the scopes around one of a depth, and those of the scope, latest first.
abbrev pub IsOutside : ℤ → Local → Type 0
IsOutside depth l = ltb_ℤ l.depth depth ≡ true

abbrev pub IsInside : ℤ → Local → Type 0
IsInside depth l = ltb_ℤ l.depth depth ≡ false

discard_from-outer :
    (outer extra : List Local) (depth : ℤ) (n : ℕ)
    → All (IsOutside depth) outer
    → n ≤ length outer
    → discard_from (outer ++ extra) depth n ≡ ([], n)
unfolding discard_from
discard_from-outer outer extra depth zero h less = refl
discard_from-outer outer extra depth (suc n) h less =
    let at = get_elem?-of_lt outer n (omega arith) in
    let out : ltb_ℤ at.0.depth depth ≡ true = All-get_elem? (IsOutside depth) outer n at.0 h at.1 in
    rw (get_elem?-append_left outer extra n (omega arith), at.1, out)

discard_from-inner :
    (outer inner extra : List Local) (depth : ℤ)
    → All (IsOutside depth) outer
    → All (IsInside depth) inner
    → discard_from ((outer ++ rev inner) ++ extra) depth (length (outer ++ rev inner))
      ≡ (map pop_code inner, length outer)
unfolding discard_from
discard_from-inner outer [] extra depth h h' =
    rw (append-nil outer) (discard_from-outer outer extra depth (length outer) h (omega arith))
discard_from-inner outer (l ∷ inner) extra depth h (inside, h') =
    let ih = discard_from-inner outer inner (l ∷ extra) depth h h' in
    let split : (outer ++ rev (l ∷ inner)) ++ extra ≡ (outer ++ rev inner) ++ (l ∷ extra) =
      ap (λ (ls : List Local). ls ++ extra) (sym (append_assoc outer (rev inner) (l ∷ [])))
      ∙ append_assoc (outer ++ rev inner) (l ∷ []) extra in
    let long : length (outer ++ rev (l ∷ inner)) ≡ suc (length (outer ++ rev inner)) = omega (
      arith,
      length-append outer (rev inner ++ l ∷ []),
      length-append (rev inner) (l ∷ []),
      length-append outer (rev inner),
    ) in
    rw (split, long, get_elem?-append_length (outer ++ rev inner) extra l, inside, ih)

module _ (c : Compiler) (outer inner : List Local) (locals : c.locals ≡ outer ++ rev inner)
    (outside : All (IsOutside c.scope_depth) outer) (inside : All (IsInside c.scope_depth) inner)
    (local_scope : ltb_ℤ (negsuc 0) c.scope_depth ≡ true) where
  discarded :
      discard_from c.locals c.scope_depth (length c.locals) ≡ (map pop_code inner, length outer)
  discarded =
      let all = discard_from-inner outer inner [] c.scope_depth outside inside in
      let all' : discard_from (outer ++ rev inner) c.scope_depth (length (outer ++ rev inner))
          ≡ (map pop_code inner, length outer) =
        rw (append-nil (outer ++ rev inner)) at all in
      rw locals all'

  local_count : length c.locals ≡ length outer + length inner
  local_count = omega (arith, ap length locals, length-append outer (rev inner), length-rev inner)

  discard_locals-inner :
      discard_locals c c.scope_depth
      ≡ some (length inner, record c { code = c.code ++ map pop_code inner })
  unfolding discard_locals
  discard_locals-inner =
      let popped : length c.locals - length outer ≡ length inner = omega (arith, local_count) in
      rw (discarded, local_scope, popped)

  kept_locals : take (length c.locals - length inner) c.locals ≡ outer
  kept_locals =
      let kept : length c.locals - length inner ≡ length outer = omega (arith, local_count) in
      rw (kept, locals) (take-append_length outer (rev inner))

  -- In a local scope whose locals are the last ones, `popScope` takes exactly them, emits for each,
  -- the latest first, a pop or, if a closure captured it, the instruction that closes its upvalue,
  -- frees as many slots and goes back one depth.
  pub pop_scope_lem :
      pop_scope c
      ≡ some (record c {
        locals = outer;
        code = c.code ++ map pop_code inner;
        num_slots = sub_ℕ (pos_part c.num_slots) (neg_part c.num_slots + length inner);
        scope_depth = c.scope_depth +ℤ negsuc 0;
      })
  unfolding pop_scope
  pop_scope_lem = ap close_scope discard_locals-inner ∙ rw kept_locals refl
