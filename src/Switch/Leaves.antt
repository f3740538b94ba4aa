-- ===== src/Switch/Leaves.antt =====
-- wren_core.c, lines 209 to 245: a fiber yields to the one that called it.
use rust_wren.Base.{
  ℕ, ◌≡◌, ◌≢◌, refl, ap, ◌∙◌, sym, List, [], ◌∷◌, inl, inr, In, get_elem?, set, get_elem?-set_ne,
  false, arith, none, some, Option-cases,
}
use rust_wren.Value.{null_val}
use rust_wren.Result.{ok, ◌>>=◌, >>=-ok}
use rust_wren.Switch.{Stored, value, Task, Machine, load, put_top, drop_top}
use rust_wren.Switch.Errors.{dispatch}
use rust_wren.Switch.Steps.{stored_at, unhook, fiber_yield, fiber_yield1}
use rust_wren.Switch.Chain.{
  Chain, IsStacked, IsClean, IsChained, Chain-head, Chain-frames, Chain-set_other, Chain-set_head,
  set-IsStacked, set-IsClean, get_elem?-set_there, load-ok, put_top-ok,
}
use rust_wren.Switch.Caught.{IsClean-set_other}
use rust_wren.Switch.Nested.{IsGoing, Nests, dispatch-IsGoing}

-- The fiber that called the one that runs gets a value and goes on.
abbrev pub Resumed : List Task → ℕ → Task → ℕ → Stored → Type 0
Resumed tasks a u' b v =
    (n : Task) × (n' : Task) × (load (set tasks a u') (some b) ≡ ok n)
    × (put_top n v ≡ ok n')
    × (h : IsChained (set (set tasks a u') b n') b) × (get_elem? (set (set tasks a u') b n') b
        ≡ some n')
    × (¬ In a (b ∷ h.path))

Chain-Resumed :
    (tasks : List Task) (a : ℕ) (path : List ℕ) (u u' : Task) (b : ℕ) (v : Stored)
    → Chain tasks a path
    → IsStacked tasks
    → IsClean tasks (a ∷ path)
    → get_elem? tasks a ≡ some u
    → u.caller ≡ some b
    → (u'.frames ≢ [] → u'.stack ≢ [])
    → Resumed tasks a u' b v
Chain-Resumed tasks a [] u u' b v (t, e, f, c, r) stacked clean eu cu k =
    let w : t ≡ u = cc in cc (ap (λ (x : Task). x.caller) w, c, cu)
Chain-Resumed tasks a (d ∷ rest) u u' b v (t, e, f, c, out, h) stacked clean eu cu k =
    let w : t ≡ u = cc in
    let same : some d ≡ some b = sym c ∙ ap (λ (x : Task). x.caller) w ∙ cu in
    let same' : d ≡ b = cc in rw⁻¹ same' (at_caller h out)
  where
    at_caller : Chain tasks d rest → ¬ In a (d ∷ rest) → Resumed tasks a u' d v
    at_caller h out =
        let tasks' = set tasks a u' in
        let h' = Chain-set_other tasks d a rest u' out h in
        let stacked' = set-IsStacked tasks a u' stacked k in
        let (n, en, fn) = Chain-head tasks' d rest h' in
        let (below, put) = put_top-ok n v (stacked' d n en fn) in
        let n' = record n { stack = v ∷ below } in
        let clean' = IsClean-set_other tasks a u' (d ∷ rest) out (λ x y i. clean x y (inr i)) in
        let chain = Chain-set_head tasks' d rest n n' en refl refl fn h' in
        (
          n,
          n',
          load-ok tasks' d n en,
          put,
          record {
            path = rest;
            chain = chain;
            stacked = set-IsStacked tasks' d n' stacked' (λ z y. ground arith);
            clean = set-IsClean tasks' d n' (d ∷ rest) clean' (clean' d n (inl refl) en);
          },
          get_elem?-set_there tasks' d n n' en,
          out,
        )

abbrev pub HasTwo : List Stored → Type 0
HasTwo stack = (v : Stored) × (w : Stored) × (rest : List Stored) × (stack ≡ v ∷ w ∷ rest)

pub dispatch-stopped : (vm : Machine) → vm.fiber ≡ none → Nests (dispatch vm)
unfolding dispatch
dispatch-stopped vm e = (record vm { running = false }, simp (e, dispatch), inl refl)

module _ (vm : Machine) (g : IsGoing vm) where
  pub found_ok : load vm.tasks (some g.place) ≡ ok g.task
  found_ok = load-ok vm.tasks g.place g.task g.found

  pub frames_lem : g.task.frames ≢ []
  frames_lem = Chain-frames vm.tasks g.place g.chained.path g.task g.chained.chain g.found

  pub resumed :
      (u' : Task) (b : ℕ) (v : Stored)
      → g.task.caller ≡ some b
      → (u'.frames ≢ [] → u'.stack ≢ [])
      → Resumed vm.tasks g.place u' b v
  resumed u' b v c k =
      Chain-Resumed vm.tasks g.place g.chained.path g.task u' b v g.chained.chain g.chained.stacked
        g.chained.clean g.found c k

  pub fiber_yield-Nests : Nests (fiber_yield vm g.place >>= dispatch)
  unfolding fiber_yield
  fiber_yield-Nests = elim (Option-cases g.task.caller) [
    | inl c ↦
        let tasks = set vm.tasks g.place (unhook g.task) in
        let vm' = record vm { tasks = tasks; fiber = none } in
        let (vm'', went, nested) = dispatch-stopped vm' refl in
        let run : fiber_yield vm g.place ≡ ok vm' = >>=-ok _ g.task _ found_ok ∙ simp c in
        (vm'', >>=-ok _ vm' dispatch run ∙ went, nested)
    | inr (b, c) ↦
        let u' = unhook g.task in
        let tasks = set vm.tasks g.place u' in
        let (n, n', l, p, h, en, out) =
          resumed u' b (value null_val) c (g.chained.stacked g.place g.task g.found) in
        let vm' = record vm { tasks = set tasks b n'; fiber = some b } in
        let g' : IsGoing vm' = record {
          place = b;
          task = n';
          current = refl;
          going = g.going;
          chained = h;
          found = en;
        } in
        let run : fiber_yield vm g.place ≡ ok vm' =
          >>=-ok _ g.task _ found_ok
          ∙ simp c (>>=-ok (load tasks (some b)) n _ l ∙ >>=-ok (put_top n _) n' _ p) in
        (vm', >>=-ok _ vm' dispatch run ∙ dispatch-IsGoing vm' g', inr g')
  ]

  pub fiber_yield1-Nests : HasTwo g.task.stack → Nests (fiber_yield1 vm g.place >>= dispatch)
  unfolding fiber_yield1 stored_at drop_top
  fiber_yield1-Nests (v, w, rest, e) = elim (Option-cases g.task.caller) [
    | inl c ↦
        let tasks = set vm.tasks g.place (unhook g.task) in
        let vm' = record vm { tasks = tasks; fiber = none } in
        let (vm'', went, nested) = dispatch-stopped vm' refl in
        let run : fiber_yield1 vm g.place ≡ ok vm' =
          >>=-ok _ g.task _ found_ok
          ∙ >>=-ok (stored_at g.task.stack 0) v _ (simp (e, stored_at))
          ∙ simp c in
        (vm'', >>=-ok _ vm' dispatch run ∙ went, nested)
    | inr (b, c) ↦
        let u' = unhook g.task in
        let tasks = set vm.tasks g.place u' in
        let (n, n', l, p, h, en, out) =
          resumed u' b v c (g.chained.stacked g.place g.task g.found) in
        let tasks' = set tasks b n' in
        let u'' = record u' { stack = w ∷ rest } in
        let far : g.place ≢ b = λ z. out (inl z) in
        let again : get_elem? tasks' g.place ≡ some u' =
          get_elem?-set_ne tasks n' (λ z. far (sym z))
          ∙ get_elem?-set_there vm.tasks g.place g.task u' g.found in
        let vm' = record vm { tasks = set tasks' g.place u''; fiber = some b } in
        let g' : IsGoing vm' = record {
          place = b;
          task = n';
          current = refl;
          going = g.going;
          chained = record {
            path = h.path;
            chain = Chain-set_other tasks' b g.place h.path u'' out h.chain;
            stacked = set-IsStacked tasks' g.place u'' h.stacked (λ z y. ground arith);
            clean = IsClean-set_other tasks' g.place u'' (b ∷ h.path) out h.clean;
          };
          found = get_elem?-set_ne tasks' u'' far ∙ en;
        } in
        let run : fiber_yield1 vm g.place ≡ ok vm' =
          >>=-ok _ g.task _ found_ok
          ∙ >>=-ok (stored_at g.task.stack 0) v _ (simp (e, stored_at))
          ∙ simp c (
              >>=-ok (load tasks (some b)) n _ l
              ∙ >>=-ok (put_top n v) n' _ p
              ∙ >>=-ok (load tasks' (some g.place)) u' _ (load-ok tasks' g.place u' again)
              ∙ >>=-ok (drop_top u') u'' _ (simp (e, drop_top))) in
        (vm', >>=-ok _ vm' dispatch run ∙ dispatch-IsGoing vm' g', inr g')
  ]
