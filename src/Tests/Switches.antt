-- ===== src/Tests/Switches.antt =====
-- Fibers that call, try, transfer to and abort each other.
use rust_wren.Base.{
  ℕ, ◌≡◌, ◌≢◌, refl, ap, ◌∙◌, sym, All, All-get_elem?, List, [], ◌∷◌, ◌++◌, inl, inr, get_elem?,
  Bool, true, false, arith, Option, none, some,
}
use rust_wren.Value.{null_val, true_val, obj}
use rust_wren.Result.{Result, ok, fault, out_of_bounds, ◌>>=◌, Ends}
use rust_wren.Switch.{
  call_verb, already_called, finished, Stored, value, text, fiber_try, fiber_root, Frame, Task,
  Machine, has_error, load, put_top, drop_top, set_error, bind_argument, switch, switch_unfinished,
  call_checked, run_fiber,
}
use rust_wren.Switch.Errors.{give_error, unwind, runtime_error, load_frame, dispatch}
use rust_wren.Switch.Steps.{
  stored_at, as_fiber, fiber_at, run_without, run_with, mark_try, fiber_tried, fiber_abort,
  new_task, finish_fiber, return_below, return_from, Event, calls, tries, transfers, aborts,
  returns, works, work, step,
}
use rust_wren.Switch.Chain.{Chain, IsStacked}
use rust_wren.Switch.Nested.{IsGoing, IsNested}
use rust_wren.Switch.Correct.{step-IsNested}
use rust_wren.Switch.Ends.{runtime_error-Ends}
use rust_wren.Switch.Fate.{Fate, catcher, fallen}
use rust_wren.Switch.Gets.{runtime_error-Fate}

abbrev null : Stored
null = value null_val

abbrev fiber_at_place : ℕ → Stored
fiber_at_place a = value (obj a)

abbrev frame : Frame
frame = record { ip = 7; arity = 0; stack_start = 0 }

-- The root, with a fiber on its stack.
abbrev root : Task
root = record {
  stack = fiber_at_place 1 ∷ null ∷ [];
  frames = frame ∷ [];
  caller = none;
  error = null;
  state = fiber_root;
}

abbrev fresh : Task
fresh = new_task null 0

abbrev start : Machine
start = record { tasks = root ∷ fresh ∷ fresh ∷ fresh ∷ []; fiber = some 0; running = true }

abbrev HasStack : Task → Type 0
HasStack t = t.stack ≢ []

HasStack-IsStacked : (tasks : List Task) → All HasStack tasks → IsStacked tasks
HasStack-IsStacked tasks h x t e f = All-get_elem? HasStack tasks x t h e

start_going : IsGoing start
start_going = record {
  place = 0;
  task = root;
  current = refl;
  going = refl;
  chained = record {
    path = [];
    chain = (root, refl, λ z. ground arith, refl, refl);
    stacked =
        HasStack-IsStacked start.tasks
          (λ z. ground arith, (λ z. ground arith, (λ z. ground arith, (λ z. ground arith, tt))));
    clean = λ x t i e. elim i [ inl same ↦ first x t same e | inr k ↦ elim k [ ] ];
  };
  found = refl;
}
  where
    first : (x : ℕ) (t : Task) → x ≡ 0 → get_elem? start.tasks x ≡ some t → has_error t ≡ false
    first x t same e =
        let found : get_elem? start.tasks 0 ≡ some t = ap (get_elem? start.tasks) (sym same) ∙ e in
        let w : root ≡ t = cc in ap has_error (sym w)

step-IsNested_example : (vm' : Machine) × (step start tries ≡ ok vm') × IsNested vm'
unfolding start_going
step-IsNested_example = step-IsNested start start_going tries (1, fresh, null ∷ [], refl, refl)

-- The root tries a fiber, which calls another one, and that one fails.
abbrev failing : Task
failing = record fresh { caller = some 1; error = value true_val }

abbrev tried : Task
tried = record fresh { caller = some 0; state = fiber_try }

abbrev failed : Machine
failed = record { tasks = root ∷ tried ∷ failing ∷ []; fiber = some 2; running = true }

abbrev failed_path : List ℕ
failed_path = 1 ∷ 0 ∷ []

failed-Chain : Chain failed.tasks 2 failed_path
failed-Chain = (
  failing,
  refl,
  λ z. ground arith,
  refl,
  λ i. ground arith,
  (
    tried,
    refl,
    λ z. ground arith,
    refl,
    λ i. ground arith,
    (root, refl, λ z. ground arith, refl, refl),
  ),
)

runtime_error-Fate_example :
    (tasks' : List Task) × (runtime_error failed
      ≡ ok (record failed { tasks = tasks'; fiber = catcher failed.tasks 2 failed_path }))
    × Fate failed.tasks tasks' failing.error
        (fallen failed.tasks 2 failed_path)
        (catcher failed.tasks 2 failed_path)
runtime_error-Fate_example =
    runtime_error-Fate failed 2 failing failed_path refl refl failed-Chain (
      HasStack-IsStacked failed.tasks
        (λ z. ground arith, (λ z. ground arith, (λ z. ground arith, tt))))

-- Two fibers that call each other.
abbrev circle : Machine
circle = record {
  tasks = record failing { caller = some 1 } ∷ record failing { caller = some 0 } ∷ [];
  fiber = some 0;
  running = true;
}

runtime_error-Ends_example : Ends (λ _. Unit) (runtime_error circle)
runtime_error-Ends_example = runtime_error-Ends circle

abbrev run_all : Result Machine → List Event → Result Machine
run_all vm [] = vm
run_all vm (e ∷ events) = run_all (vm >>= λ (v : Machine). step v e) events

-- The fiber that runs puts values on its stack.
abbrev puts : Stored → Event
puts v = works v (null ∷ []) frame []

-- A fiber that is being tried calls another one, which transfers to a third one, which transfers back to
-- the first one; the first one returns, and the root transfers to the second one.
abbrev orphaned : List Event
orphaned =
    tries
    ∷ puts (fiber_at_place 2)
    ∷ calls
    ∷ puts (fiber_at_place 3)
    ∷ transfers
    ∷ puts (fiber_at_place 1)
    ∷ transfers
    ∷ puts null
    ∷ returns
    ∷ puts (fiber_at_place 2)
    ∷ transfers
    ∷ []

-- The second one fails: the error goes through the first one to its caller, which is null.
abort_orphan :
    run_all (ok start) (orphaned ++ puts (value true_val) ∷ aborts ∷ []) ≡ fault out_of_bounds
unfolding load put_top drop_top set_error bind_argument switch switch_unfinished call_checked
    run_fiber give_error unwind runtime_error load_frame dispatch stored_at as_fiber fiber_at
    run_without run_with mark_try fiber_tried fiber_abort finish_fiber return_below return_from work
    step
abort_orphan = refl

-- The second one returns to the first one, which has no frame left.
return_orphan : run_all (ok start) (orphaned ++ puts null ∷ returns ∷ []) ≡ fault out_of_bounds
unfolding load put_top drop_top set_error bind_argument switch switch_unfinished call_checked
    run_fiber give_error unwind runtime_error load_frame dispatch stored_at as_fiber fiber_at
    run_without run_with mark_try fiber_tried fiber_abort finish_fiber return_below return_from work
    step
return_orphan = refl

abbrev observed : Machine → Result (Option ℕ × Bool)
observed v = ok (v.fiber, v.running)

-- Before that, the root has run on, and nothing has failed.
orphan_running : run_all (ok start) (orphaned ++ puts null ∷ []) >>= observed ≡ ok (some 2, true)
unfolding load put_top drop_top set_error bind_argument switch switch_unfinished call_checked
    run_fiber give_error unwind runtime_error load_frame dispatch stored_at as_fiber fiber_at
    run_without run_with mark_try fiber_tried fiber_abort finish_fiber return_below return_from work
    step
orphan_running = refl

-- Calling a finished fiber hooks it to its caller, so the next call reports another error.
abbrev over : Task
over = record fresh { frames = [] }

abbrev with_over : Machine
with_over = record { tasks = root ∷ over ∷ []; fiber = some 0; running = true }

abbrev error_of : Machine → Result Stored
error_of vm = load vm.tasks (some 0) >>= λ (t : Task). ok t.error

call_finished_twice :
    (run_fiber with_over 0 1 true none call_verb >>= error_of ≡ ok (text (finished call_verb)))
    × (run_fiber with_over 0 1 true none call_verb
          >>= (λ (v : Machine). run_fiber v 0 1 true none call_verb)
          >>= error_of
        ≡ ok (text already_called))
unfolding load set_error switch_unfinished call_checked run_fiber
call_finished_twice = (refl, refl)
