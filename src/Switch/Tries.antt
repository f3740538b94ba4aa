-- ===== src/Switch/Tries.antt =====
-- wren_core.c, lines 140 to 207: the calls of fibers, with their arguments on the stack of the fiber
-- that runs.
use rust_wren.Base.{
  ℕ, ◌≡◌, refl, ◌∙◌, sym, List, ◌∷◌, ◌⊎◌, inl, inr, get_elem?, set, true, arith, none, some,
}
use rust_wren.Value.{obj}
use rust_wren.Result.{Result, ok, ◌>>=◌, >>=-ok}
use rust_wren.Switch.{Verb, try_verb, Stored, value, text, fiber_try, Task, Machine, load, drop_top}
use rust_wren.Switch.Errors.{dispatch}
use rust_wren.Switch.Steps.{
  stored_at, as_fiber, fiber_at, run_without, run_with, mark_try, fiber_tried, fiber_try1,
}
use rust_wren.Switch.Chain.{get_elem?-set_there, load-ok, Chain-frames}
use rust_wren.Switch.Calls.{Failed, Switched}
use rust_wren.Switch.Runs.{run_fiber-Ran}
use rust_wren.Switch.Nested.{IsGoing, Nests, dispatch-IsGoing, erring-Nests, head-IsChained}

-- The fiber at a place of a stack.
abbrev pub FiberOnTop : List Task → List Stored → Type 0
FiberOnTop tasks stack =
    (b : ℕ) × (t : Task) × (rest : List Stored) × (stack ≡ value (obj b) ∷ rest)
    × (get_elem? tasks b ≡ some t)

abbrev pub FiberBelow : List Task → List Stored → Type 0
FiberBelow tasks stack =
    (v : Stored) × (rest : List Stored) × (stack ≡ v ∷ rest) × FiberOnTop tasks rest

abbrev pub HasRun : ℕ → Machine → Type 0
HasRun a vm = Failed a vm ⊎ Switched vm

Switched-IsGoing : (vm : Machine) → Switched vm → IsGoing vm
Switched-IsGoing vm s = record {
  place = s.place;
  task = s.task;
  current = s.current;
  going = s.going;
  chained = s.chained;
  found = s.found;
}

pub dispatch-HasRun : (a : ℕ) (vm : Machine) → HasRun a vm → Nests (dispatch vm)
dispatch-HasRun a vm (inl f) =
    rw f.now (erring-Nests f.before a f.task (text f.error) f.chained f.found)
dispatch-HasRun a vm (inr s) = let g = Switched-IsGoing vm s in (vm, dispatch-IsGoing vm g, inr g)

mark_try-Failed : (a : ℕ) (vm : Machine) → Failed a vm → mark_try vm ≡ ok vm
unfolding mark_try
mark_try-Failed a vm f =
    let t = record f.task { error = text f.error } in
    rw f.now (
      >>=-ok (load (set f.before a t) (some a)) t _
        (load-ok (set f.before a t) a t (get_elem?-set_there f.before a f.task t f.found)))

mark_try-HasRun :
    (a : ℕ) (vm : Machine) → HasRun a vm → (vm' : Machine) × (mark_try vm ≡ ok vm') × HasRun a vm'
unfolding mark_try
mark_try-HasRun a vm (inl f) = (vm, mark_try-Failed a vm f, inl f)
mark_try-HasRun a vm (inr s) =
    let t = record s.task { state = fiber_try } in
    let clean = s.chained.clean s.place s.task (inl refl) s.found in
    let f = Chain-frames vm.tasks s.place s.chained.path s.task s.chained.chain s.found in
    (
      record vm { tasks = set vm.tasks s.place t },
      simp (s.current, load-ok vm.tasks s.place s.task s.found, clean, mark_try),
      inr (record {
        place = s.place;
        task = t;
        current = s.current;
        going = s.going;
        chained =
            head-IsChained vm.tasks s.place s.task t s.chained s.found refl (sym s.not_root) f
              (s.chained.stacked s.place s.task s.found f) clean;
        found = get_elem?-set_there vm.tasks s.place s.task t s.found;
        not_root = refl;
      }),
    )

module _ (vm : Machine) (g : IsGoing vm) where
  abbrev RunsAll : Result Machine → Type 0
  RunsAll r = (vm' : Machine) × (r ≡ ok vm') × HasRun g.place vm'

  run_without-HasRun :
      (verb : Verb) → FiberOnTop vm.tasks g.task.stack → RunsAll (run_without vm g.place true verb)
  unfolding run_without fiber_at stored_at as_fiber
  run_without-HasRun verb (b, t, rest, e, ht) =
      let (vm', run, r) =
        run_fiber-Ran vm g.place b t g.task none g.task.stack verb ht g.found refl
          (λ z. ground arith) g.current g.going g.chained in
      (
        vm',
        >>=-ok (load vm.tasks (some g.place)) g.task _ (load-ok vm.tasks g.place g.task g.found)
            ∙ >>=-ok (fiber_at g.task.stack 0) b _ (simp (e, fiber_at, stored_at, as_fiber))
            ∙ run,
        r,
      )

  run_with-HasRun :
      (verb : Verb) → FiberBelow vm.tasks g.task.stack → RunsAll (run_with vm g.place true verb)
  unfolding run_with fiber_at stored_at as_fiber drop_top
  run_with-HasRun verb (v, below, e, (b, t, rest, e', ht)) =
      let (vm', run, r) =
        run_fiber-Ran vm g.place b t g.task (some v) below verb ht g.found (simp (e, drop_top))
          (λ z. ground arith) g.current g.going g.chained in
      (
        vm',
        >>=-ok (load vm.tasks (some g.place)) g.task _ (load-ok vm.tasks g.place g.task g.found)
            ∙ >>=-ok (stored_at g.task.stack 0) v _ (simp (e, stored_at))
            ∙ >>=-ok (fiber_at g.task.stack 1) b _ (simp (e, e', fiber_at, stored_at, as_fiber))
            ∙ run,
        r,
      )

  -- A call and a try.
  pub run_without-Nests :
      (verb : Verb)
      → FiberOnTop vm.tasks g.task.stack
      → Nests (run_without vm g.place true verb >>= dispatch)
  run_without-Nests verb top =
      let (vm', run, r) = run_without-HasRun verb top in
      let (vm'', went, nested) = dispatch-HasRun g.place vm' r in
      (vm'', >>=-ok _ vm' dispatch run ∙ went, nested)

  pub run_with-Nests :
      (verb : Verb)
      → FiberBelow vm.tasks g.task.stack
      → Nests (run_with vm g.place true verb >>= dispatch)
  run_with-Nests verb below =
      let (vm', run, r) = run_with-HasRun verb below in
      let (vm'', went, nested) = dispatch-HasRun g.place vm' r in
      (vm'', >>=-ok _ vm' dispatch run ∙ went, nested)

  tried-Nests : (r : Result Machine) → RunsAll r → Nests ((r >>= mark_try) >>= dispatch)
  tried-Nests r (vm', run, h) =
      let (vm'', marked, h') = mark_try-HasRun g.place vm' h in
      let (vm''', went, nested) = dispatch-HasRun g.place vm'' h' in
      (
        vm''',
        >>=-ok (r >>= mark_try) vm'' dispatch (>>=-ok r vm' mark_try run ∙ marked) ∙ went,
        nested,
      )

  pub fiber_tried-Nests :
      FiberOnTop vm.tasks g.task.stack → Nests (fiber_tried vm g.place >>= dispatch)
  unfolding fiber_tried
  fiber_tried-Nests top = tried-Nests _ (run_without-HasRun try_verb top)

  pub fiber_try1-Nests :
      FiberBelow vm.tasks g.task.stack → Nests (fiber_try1 vm g.place >>= dispatch)
  unfolding fiber_try1
  fiber_try1-Nests below = tried-Nests _ (run_with-HasRun try_verb below)
