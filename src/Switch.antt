-- ===== src/Switch.antt =====
-- wren_core.c, lines 58 to 249, and wren_vm.c, lines 408 to 441, 1038 to 1047 and 1200 to 1242: how
-- fibers call each other, yield, return and fail. A fiber is known by its place in the list of all
-- fibers. A stack is a list, its top first, and so are the frames. The `ip` of a frame is stored when
-- it changes, and what a fiber runs in between is any change of its stack and frames.
pub mod Errors
pub mod Steps
pub mod Chain
pub mod Caught
pub mod Calls
pub mod Runs
pub mod Nested
pub mod Tries
pub mod Leaves
pub mod Returns
pub mod Creates
pub mod Correct
pub mod Ends
pub mod Fate
pub mod Gets
use rust_wren.Base.{
  ℕ, zero, suc, ◌+◌, ◌-◌, List, [], ◌∷◌, ◌++◌, length, get_elem?, set, drop, Bool, true, false,
  ◌==◌, if◌then◌else◌, Option, none, some,
}
use rust_wren.Value.{Value, null_val, obj}
use rust_wren.Result.{Result, ok, fault, out_of_bounds, unreachable, no_fuel, ◌>>=◌}

pub data Verb : Type 0 where
  call_verb transfer_verb try_verb : Verb

-- The messages of the errors.
pub data Message : Type 0 where
  already_called root_called too_many_parameters not_a_function : Message
  aborted : Verb → Message
  finished : Verb → Message

-- What a slot of a stack holds: a value, or the string of a message.
pub data Stored : Type 0 where
  value : Value → Stored
  text : Message → Stored

pub data FiberState : Type 0 where
  fiber_try fiber_root fiber_other : FiberState

-- `arity` is that of the function of the frame's closure.
pub record Frame : Type 0 where
  pub ip : ℕ
  pub arity : ℕ
  pub stack_start : ℕ

pub record Task : Type 0 where
  pub stack : List Stored
  pub frames : List Frame
  pub caller : Option ℕ
  pub error : Stored
  pub state : FiberState

-- `fiber` is `vm->fiber`, and `running` is whether the interpreter has not returned.
pub record Machine : Type 0 where
  pub tasks : List Task
  pub fiber : Option ℕ
  pub running : Bool

-- `wrenHasError`.
abbrev pub has_error : Task → Bool
has_error task = elim task.error [
  | text m ↦ true
  | value v ↦ elim v [ null_val ↦ false | _ ↦ true ]
]

-- `fiber->state == FIBER_TRY` and `fiber->state == FIBER_ROOT`.
abbrev pub is_try : FiberState → Bool
is_try fiber_try = true
is_try fiber_root = false
is_try fiber_other = false

abbrev pub is_root : FiberState → Bool
is_root fiber_root = true
is_root fiber_try = false
is_root fiber_other = false

-- The fiber that a pointer refers to.
unfoldable pub load : List Task → Option ℕ → Result Task
load tasks none = fault out_of_bounds
load tasks (some a) = elim (get_elem? tasks a) [ none ↦ fault out_of_bounds | some t ↦ ok t ]

-- `stackTop[-1] = v`.
unfoldable pub put_top : Task → Stored → Result Task
put_top task v = elim task.stack [
  | [] ↦ fault out_of_bounds
  | x ∷ rest ↦ ok (record task { stack = v ∷ rest })
]

-- `stackTop--`.
unfoldable pub drop_top : Task → Result Task
drop_top task = elim task.stack [
  | [] ↦ fault out_of_bounds
  | x ∷ rest ↦ ok (record task { stack = rest })
]

-- Stores an error in the fiber that is running: `RETURN_ERROR`.
unfoldable pub set_error : Machine → ℕ → Stored → Result Machine
set_error vm current error = do
  task ← load vm.tasks (some current)
  ok (record vm { tasks = set vm.tasks current (record task { error = error }) })

-- What a fiber gets on its stack when it starts or resumes.
unfoldable pub bind_argument : Task → Stored → Result Task
bind_argument task v = elim task.frames [
  | [] ↦ put_top task v
  | frame ∷ below ↦ elim below [
    | _ ∷ _ ↦ put_top task v
    | [] ↦ elim (frame.ip == 0) [
      | false ↦ put_top task v
      | true ↦
          ok (elim (frame.arity == 1) [
            | true ↦ record task { stack = v ∷ task.stack }
            | false ↦ task
          ])
    ]
  ]
]

abbrev pub argument_or_null : Option Stored → Stored
argument_or_null none = value null_val
argument_or_null (some v) = v

-- `runFiber` from `if (hasValue)` on.
unfoldable pub switch : Machine → ℕ → ℕ → Option Stored → Result Machine
switch vm current target argument = do
  task ← load vm.tasks (some current)
  task' ← elim argument [ none ↦ ok task | some v ↦ drop_top task ]
  let tasks = set vm.tasks current task'
  next ← load tasks (some target)
  next' ← bind_argument next (argument_or_null argument)
  ok (record vm { tasks = set tasks target next'; fiber = some target })

-- `runFiber` from the check of the frames on.
unfoldable pub switch_unfinished : Machine → ℕ → ℕ → Option Stored → Verb → Task → Result Machine
switch_unfinished vm current target argument verb task = elim task.frames [
  | [] ↦ set_error vm current (text (finished verb))
  | frame ∷ frames ↦ switch vm current target argument
]

-- `runFiber`, where `isCall` is set.
unfoldable pub call_checked : Machine → ℕ → ℕ → Option Stored → Verb → Task → Result Machine
call_checked vm current target argument verb task = elim task.caller [
  | some c ↦ set_error vm current (text already_called)
  | none ↦ elim (is_root task.state) [
    | true ↦ set_error vm current (text root_called)
    | false ↦
        let vm' = record vm {
          tasks = set vm.tasks target (record task { caller = some current });
        } in
        switch_unfinished vm' current target argument verb task
  ]
]

-- `runFiber`.
unfoldable pub run_fiber : Machine → ℕ → ℕ → Bool → Option Stored → Verb → Result Machine
run_fiber vm current target is_call argument verb = do
  task ← load vm.tasks (some target)
  if has_error task
      then set_error vm current (text (aborted verb))
      else if is_call
      then call_checked vm current target argument verb task
      else switch_unfinished vm current target argument verb task
