-- ===== src/Switch/Steps.antt =====
-- wren_core.c, lines 58 to 245, and wren_vm.c, lines 1200 to 1241: the primitives on fibers, and the
-- return from a function.
use rust_wren.Base.{
  ℕ, ◌-◌, List, [], ◌∷◌, ◌++◌, length, get_elem?, set, drop, Bool, true, false, Option, none, some,
  leb, ltb, ◌⊎◌, inl, inr, if◌then◌else◌,
}
use rust_wren.Value.{null_val, obj}
use rust_wren.Result.{Result, ok, fault, out_of_bounds, unreachable, ◌>>=◌}
use rust_wren.Switch.{
  Verb, call_verb, transfer_verb, try_verb, Message, too_many_parameters, not_a_function, Stored,
  value, text, fiber_other, fiber_try, Frame, Task, Machine, has_error, load, put_top, drop_top,
  set_error, run_fiber,
}
use rust_wren.Switch.Errors.{load_frame, dispatch}

-- What stands at a place of a stack, and the fiber that stands there.
unfoldable pub stored_at : List Stored → ℕ → Result Stored
stored_at stack i = elim (get_elem? stack i) [ none ↦ fault out_of_bounds | some v ↦ ok v ]

unfoldable pub as_fiber : Stored → Result ℕ
as_fiber (value (obj a)) = ok a
as_fiber v = fault unreachable

unfoldable pub fiber_at : List Stored → ℕ → Result ℕ
fiber_at stack i = do v ← stored_at stack i; as_fiber v

-- `runFiber` with the arguments that stand on the stack of the fiber that is running.
unfoldable pub run_without : Machine → ℕ → Bool → Verb → Result Machine
run_without vm current is_call verb = do
  task ← load vm.tasks (some current)
  target ← fiber_at task.stack 0
  run_fiber vm current target is_call none verb

unfoldable pub run_with : Machine → ℕ → Bool → Verb → Result Machine
run_with vm current is_call verb = do
  task ← load vm.tasks (some current)
  v ← stored_at task.stack 0
  target ← fiber_at task.stack 1
  run_fiber vm current target is_call (some v) verb

-- `fiber_call` and `fiber_call1`.
abbrev pub fiber_call : Machine → ℕ → Result Machine
fiber_call vm current = run_without vm current true call_verb

abbrev pub fiber_call1 : Machine → ℕ → Result Machine
fiber_call1 vm current = run_with vm current true call_verb

-- `fiber_transfer` and `fiber_transfer1`.
abbrev pub fiber_transfer : Machine → ℕ → Result Machine
fiber_transfer vm current = run_without vm current false transfer_verb

abbrev pub fiber_transfer1 : Machine → ℕ → Result Machine
fiber_transfer1 vm current = run_with vm current false transfer_verb

-- `fiber_transferError`.
unfoldable pub fiber_transfer_error : Machine → ℕ → Result Machine
fiber_transfer_error vm current = do
  task ← load vm.tasks (some current)
  v ← stored_at task.stack 0
  vm' ← run_with vm current false transfer_verb
  elim vm'.fiber [ none ↦ fault out_of_bounds | some f ↦ set_error vm' f v ]

-- The end of `fiber_try` and `fiber_try1`: the fiber that runs now is being tried.
unfoldable pub mark_try : Machine → Result Machine
mark_try vm = elim vm.fiber [
  | none ↦ fault out_of_bounds
  | some f ↦ do
    task ← load vm.tasks (some f)
    ok (
        if has_error task
        then vm
        else record vm { tasks = set vm.tasks f (record task { state = fiber_try }) })
]

unfoldable pub fiber_tried : Machine → ℕ → Result Machine
fiber_tried vm current = do vm' ← run_without vm current true try_verb; mark_try vm'

unfoldable pub fiber_try1 : Machine → ℕ → Result Machine
fiber_try1 vm current = do vm' ← run_with vm current true try_verb; mark_try vm'

-- `fiber_suspend`.
abbrev pub fiber_suspend : Machine → Machine
fiber_suspend vm = record vm { fiber = none }

-- The fiber that yields is unhooked from the one that called it.
abbrev pub unhook : Task → Task
unhook task = record task { caller = none; state = fiber_other }

-- `fiber_yield`.
unfoldable pub fiber_yield : Machine → ℕ → Result Machine
fiber_yield vm current = do
  task ← load vm.tasks (some current)
  let tasks = set vm.tasks current (unhook task)
  elim task.caller [
    | none ↦ ok (record vm { tasks = tasks; fiber = none })
    | some c ↦ do
      next ← load tasks (some c)
      next' ← put_top next (value null_val)
      ok (record vm { tasks = set tasks c next'; fiber = some c })
  ]

-- `fiber_yield1`.
unfoldable pub fiber_yield1 : Machine → ℕ → Result Machine
fiber_yield1 vm current = do
  task ← load vm.tasks (some current)
  v ← stored_at task.stack 0
  let tasks = set vm.tasks current (unhook task)
  elim task.caller [
    | none ↦ ok (record vm { tasks = tasks; fiber = none })
    | some c ↦ do
      next ← load tasks (some c)
      next' ← put_top next v
      let tasks' = set tasks c next'
      task' ← load tasks' (some current)
      task'' ← drop_top task'
      ok (record vm { tasks = set tasks' current task''; fiber = some c })
  ]

-- `fiber_abort`, and what follows it: where it returns true, its arguments but one are dropped.
unfoldable pub fiber_abort : Machine → ℕ → Result Machine
fiber_abort vm current = do
  task ← load vm.tasks (some current)
  v ← stored_at task.stack 0
  vm' ← set_error vm current v
  task' ← load vm'.tasks (some current)
  elim (has_error task') [
    | true ↦ dispatch vm'
    | false ↦ do task'' ← drop_top task'; ok (record vm' { tasks = set vm'.tasks current task'' })
  ]

-- `wrenNewFiber` for a closure of a function with this arity, its stack and its first frame.
abbrev pub new_task : Stored → ℕ → Task
new_task closure arity = record {
  stack = closure ∷ [];
  frames = record { ip = 0; arity = arity; stack_start = 0 } ∷ [];
  caller = none;
  error = value null_val;
  state = fiber_other;
}

-- The checks of `fiber_new` on its argument, of which `function` is the arity; `none` is no closure.
unfoldable pub checked_arity : Option ℕ → Message ⊎ ℕ
checked_arity none = inl not_a_function
checked_arity (some arity) = if ltb 1 arity then inl too_many_parameters else inr arity

-- `fiber_new`, and what follows it.
unfoldable pub fiber_new : Machine → ℕ → Option ℕ → Result Machine
fiber_new vm current function = do
  task ← load vm.tasks (some current)
  closure ← stored_at task.stack 0
  elim (checked_arity function) [
    | inl message ↦ do vm' ← set_error vm current (text message); dispatch vm'
    | inr arity ↦ do
      task' ← drop_top task
      task'' ← put_top task' (value (obj (length vm.tasks)))
      ok (record vm { tasks = set vm.tasks current task'' ++ new_task closure arity ∷ [] })
  ]

-- `RETURN` where the function is the last one of its fiber.
unfoldable pub finish_fiber : Machine → ℕ → Task → Stored → List Stored → Result Machine
finish_fiber vm current task result rest = elim task.caller [
  | none ↦
      let task' = record task { stack = result ∷ []; frames = [] } in
      ok (record vm { tasks = set vm.tasks current task'; running = false })
  | some c ↦ do
    let task' = record task { stack = rest; frames = []; caller = none }
    let tasks = set vm.tasks current task'
    next ← load tasks (some c)
    next' ← put_top next result
    load_frame (record vm { tasks = set tasks c next'; fiber = some c })
]

-- `RETURN` to the function below.
unfoldable pub return_below :
    Machine → ℕ → Task → Stored → List Stored → Frame → List Frame → Result Machine
return_below vm current task result rest frame below =
    if leb frame.stack_start (length rest)
    then ok (record vm {
      tasks = set vm.tasks current (record task {
        stack = result ∷ drop (length rest - frame.stack_start) rest;
        frames = below;
      });
    })
    else fault out_of_bounds

-- `RETURN`, but for the upvalues that it closes.
unfoldable pub return_from : Machine → ℕ → Result Machine
return_from vm current = do
  task ← load vm.tasks (some current)
  elim task.stack [
    | [] ↦ fault out_of_bounds
    | result ∷ rest ↦ elim task.frames [
      | [] ↦ fault out_of_bounds
      | frame ∷ frames ↦ elim frames [
        | [] ↦ finish_fiber vm current task result rest
        | below ∷ frames' ↦ return_below vm current task result rest frame (below ∷ frames')
      ]
    ]
  ]

-- What the fiber that is running can do. `works` is whatever changes its stack and its frames and no
-- other fiber; both keep an item at least.
pub data Event : Type 0 where
  calls calls1 tries tries1 transfers transfers1 transfers_error : Event
  yields yields1 aborts suspends returns : Event
  creates : Option ℕ → Event
  works : Stored → List Stored → Frame → List Frame → Event

unfoldable pub work : Machine → ℕ → Stored → List Stored → Frame → List Frame → Result Machine
work vm current v stack frame frames = do
  task ← load vm.tasks (some current)
  let task' = record task { stack = v ∷ stack; frames = frame ∷ frames }
  ok (record vm { tasks = set vm.tasks current task' })

abbrev pub run_event : Machine → ℕ → Event → Result Machine
run_event vm current calls = fiber_call vm current >>= dispatch
run_event vm current calls1 = fiber_call1 vm current >>= dispatch
run_event vm current tries = fiber_tried vm current >>= dispatch
run_event vm current tries1 = fiber_try1 vm current >>= dispatch
run_event vm current transfers = fiber_transfer vm current >>= dispatch
run_event vm current transfers1 = fiber_transfer1 vm current >>= dispatch
run_event vm current transfers_error = fiber_transfer_error vm current >>= dispatch
run_event vm current yields = fiber_yield vm current >>= dispatch
run_event vm current yields1 = fiber_yield1 vm current >>= dispatch
run_event vm current aborts = fiber_abort vm current
run_event vm current suspends = dispatch (fiber_suspend vm)
run_event vm current returns = return_from vm current
run_event vm current (creates function) = fiber_new vm current function
run_event vm current (works v stack frame frames) = work vm current v stack frame frames

-- The interpreter goes on while it has not returned.
unfoldable pub step : Machine → Event → Result Machine
step vm e = elim vm.fiber [
  | none ↦ fault unreachable
  | some current ↦ if vm.running then run_event vm current e else fault unreachable
]
