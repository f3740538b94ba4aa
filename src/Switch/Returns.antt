-- ===== src/Switch/Returns.antt =====
-- wren_core.c, lines 58 to 76, and wren_vm.c, lines 1200 to 1241: a function returns, and a fiber is
-- aborted or created.
use rust_wren.Base.{
  ◌-◌, ◌≡◌, refl, ◌∙◌, List, [], ◌∷◌, inl, inr, length, set, drop, leb, true, false, arith,
  Bool-cases, none, some, List-cases, Option-cases,
}
use rust_wren.Result.{>>=-ok}
use rust_wren.Switch.{Stored, Frame, Task, Machine, has_error, load, put_top, drop_top, set_error}
use rust_wren.Switch.Errors.{dispatch}
use rust_wren.Switch.Steps.{
  stored_at, fiber_suspend, fiber_abort, finish_fiber, return_below, return_from, work,
}
use rust_wren.Switch.Chain.{get_elem?-set_there, load-ok}
use rust_wren.Switch.Calls.{set_error-ok}
use rust_wren.Switch.Nested.{
  IsGoing, Nests, load_frame-IsGoing, machine, erring-Nests, head-IsGoing, head-IsChained,
}
use rust_wren.Switch.Leaves.{HasTwo, dispatch-stopped, found_ok, frames_lem, resumed}

-- A function returns with its result, and its slots start within the stack below it.
abbrev pub HasResult : Task → Type 0
HasResult u =
    (result : Stored) × (rest : List Stored) × (frame : Frame) × (below : List Frame) × (u.stack
      ≡ result ∷ rest)
    × (u.frames ≡ frame ∷ below)
    × (leb frame.stack_start (length rest) ≡ true)

module _ (vm : Machine) (g : IsGoing vm) where
  finish_fiber-Nests :
      (result : Stored) (rest : List Stored) → Nests (finish_fiber vm g.place g.task result rest)
  unfolding finish_fiber
  finish_fiber-Nests result rest = elim (Option-cases g.task.caller) [
    | inl c ↦
        let task' = record g.task { stack = result ∷ []; frames = [] } in
        (
          record vm { tasks = set vm.tasks g.place task'; running = false },
          simp (c, finish_fiber),
          inl refl,
        )
    | inr (b, c) ↦
        let u' = record g.task { stack = rest; frames = []; caller = none } in
        let tasks = set vm.tasks g.place u' in
        let (n, n', l, p, h, en, out) = resumed vm g u' b result c (λ k. absurd (k refl)) in
        let vm' = record vm { tasks = set tasks b n'; fiber = some b } in
        let g' : IsGoing vm' = record {
          place = b;
          task = n';
          current = refl;
          going = g.going;
          chained = h;
          found = en;
        } in
        (
          vm',
          simp (c, finish_fiber)
              (>>=-ok (load tasks (some b)) n _ l
                ∙ >>=-ok (put_top n result) n' _ p
                ∙ load_frame-IsGoing vm' b refl h),
          inr g',
        )
  ]

  pub return_from-Nests : HasResult g.task → Nests (return_from vm g.place)
  unfolding return_from return_below
  return_from-Nests (result, rest, frame, below, e, f, fits) = elim (List-cases below) [
    | inl z ↦
        let (vm', run, nested) = finish_fiber-Nests result rest in
        (
          vm',
          >>=-ok (load vm.tasks (some g.place)) g.task _ (found_ok vm g) ∙ simp (e, f, z) run,
          nested,
        )
    | inr (frame', below', z) ↦
        let t = record g.task {
          stack = result ∷ drop (length rest - frame.stack_start) rest;
          frames = frame' ∷ below';
        } in
        let vm' = record vm { tasks = set vm.tasks g.place t } in
        (
          vm',
          >>=-ok (load vm.tasks (some g.place)) g.task _ (found_ok vm g)
              ∙ simp (e, f, z, fits, return_below),
          inr (
              head-IsGoing vm g t refl refl (λ y. ground arith) (λ y. ground arith)
                (g.chained.clean g.place g.task (inl refl) g.found)),
        )
  ]

  pub work-Nests :
      (v : Stored) (stack : List Stored) (frame : Frame) (frames : List Frame)
      → Nests (work vm g.place v stack frame frames)
  unfolding work
  work-Nests v stack frame frames =
      let t = record g.task { stack = v ∷ stack; frames = frame ∷ frames } in
      (
        record vm { tasks = set vm.tasks g.place t },
        >>=-ok (load vm.tasks (some g.place)) g.task _ (found_ok vm g),
        inr (
            head-IsGoing vm g t refl refl (λ y. ground arith) (λ y. ground arith)
              (g.chained.clean g.place g.task (inl refl) g.found)),
      )

  pub fiber_suspend-Nests : Nests (dispatch (fiber_suspend vm))
  fiber_suspend-Nests = dispatch-stopped (fiber_suspend vm) refl

  -- The error that the fiber gets is given to the fibers that wait for it.
  pub failing :
      (error : Stored)
      → Nests
          (dispatch (record vm { tasks = set vm.tasks g.place (record g.task { error = error }) }))
  failing error =
      let same : record vm { tasks = set vm.tasks g.place (record g.task { error = error }) }
          ≡ machine vm.tasks g.place g.task error g.chained g.found =
        λ i. record {
          tasks = set vm.tasks g.place (record g.task { error = error });
          fiber = g.current i;
          running = g.going i;
        } in
      rw same (erring-Nests vm.tasks g.place g.task error g.chained g.found)

  pub fiber_abort-Nests : HasTwo g.task.stack → Nests (fiber_abort vm g.place)
  unfolding fiber_abort stored_at drop_top
  fiber_abort-Nests (v, w, rest, e) =
      let t = record g.task { error = v } in
      let vm₁ = record vm { tasks = set vm.tasks g.place t } in
      let there = get_elem?-set_there vm.tasks g.place g.task t g.found in
      let start =
        >>=-ok (load vm.tasks (some g.place)) g.task _ (found_ok vm g)
        ∙ >>=-ok (stored_at g.task.stack 0) v _ (simp (e, stored_at))
        ∙ >>=-ok (set_error vm g.place v) vm₁ _ (set_error-ok vm g.place g.task v g.found)
        ∙ >>=-ok (load vm₁.tasks (some g.place)) t _ (load-ok vm₁.tasks g.place t there) in
      elim (Bool-cases (has_error t)) [
        | inl z ↦ let (vm', went, nested) = failing v in (vm', start ∙ simp z went, nested)
        | inr z ↦
            let t' = record t { stack = w ∷ rest } in
            let h₁ =
              head-IsChained vm.tasks g.place g.task t g.chained g.found refl refl (frames_lem vm g)
                (g.chained.stacked g.place g.task g.found (frames_lem vm g)) z in
            let h₂ =
              head-IsChained vm₁.tasks g.place t t' h₁ there refl refl (frames_lem vm g)
                (λ y. ground arith) z in
            (
              record vm { tasks = set vm₁.tasks g.place t' },
              start ∙ simp z (>>=-ok (drop_top t) t' _ (simp (e, drop_top))),
              inr (record {
                place = g.place;
                task = t';
                current = g.current;
                going = g.going;
                chained = h₂;
                found = get_elem?-set_there vm₁.tasks g.place t t' there;
              }),
            )
      ]
