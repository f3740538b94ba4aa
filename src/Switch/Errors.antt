-- ===== src/Switch/Errors.antt =====
-- wren_vm.c, lines 408 to 441, 886 to 896 and 1034 to 1050: what an error does to the fiber that
-- fails and to the ones that called it.
use rust_wren.Base.{
  ℕ, zero, suc, List, [], ◌∷◌, length, set, true, false, Option, none, some, if◌then◌else◌,
}
use rust_wren.Result.{Result, ok, fault, out_of_bounds, no_fuel, ◌>>=◌}
use rust_wren.Switch.{Stored, Task, Machine, has_error, is_try, load, put_top}

-- Gives the error to the fiber that tried: its place, and the fibers.
unfoldable pub give_error : List Task → Option ℕ → Stored → Result (Option ℕ × List Task)
give_error tasks caller error = elim caller [
  | none ↦ fault out_of_bounds
  | some c ↦ do
    task ← load tasks (some c)
    task' ← put_top task error
    ok (some c, set tasks c task')
]

-- The loop of `runtimeError` on fuel: the fiber that gets the error, if there is one, and the fibers.
-- The error of `vm->fiber` is `error` from the first round on.
unfoldable pub unwind : ℕ → List Task → Option ℕ → Stored → Result (Option ℕ × List Task)
unwind fuel tasks none error = ok (none, tasks)
unwind zero tasks (some c) error = fault no_fuel
unwind (suc fuel) tasks (some c) error = do
  task ← load tasks (some c)
  elim (is_try task.state) [
    | true ↦ give_error (set tasks c (record task { error = error })) task.caller error
    | false ↦
        unwind fuel (set tasks c (record task { error = error; caller = none })) task.caller error
  ]

-- `runtimeError`, with fuel for each fiber. It prints the stack trace of an error that no fiber gets.
unfoldable pub runtime_error : Machine → Result Machine
runtime_error vm = do
  task ← load vm.tasks vm.fiber
  (fiber, tasks) ← unwind (suc (length vm.tasks)) vm.tasks vm.fiber task.error
  ok (record vm { tasks = tasks; fiber = fiber })

-- `LOAD_FRAME`, where there is a fiber, or else the interpreter returns.
unfoldable pub load_frame : Machine → Result Machine
load_frame vm = elim vm.fiber [
  | none ↦ ok (record vm { running = false })
  | some f ↦ do
    task ← load vm.tasks (some f)
    elim task.frames [ [] ↦ fault out_of_bounds | frame ∷ frames ↦ ok vm ]
]

-- What the interpreter does after a primitive that returned false.
unfoldable pub dispatch : Machine → Result Machine
dispatch vm = elim vm.fiber [
  | none ↦ ok (record vm { running = false })
  | some f ↦ do
    task ← load vm.tasks (some f)
    vm' ← if has_error task then runtime_error vm else ok vm
    load_frame vm'
]
