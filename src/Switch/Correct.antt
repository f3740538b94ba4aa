-- ===== src/Switch/Correct.antt =====
-- wren_core.c, lines 58 to 245, and wren_vm.c, lines 408 to 441 and 1200 to 1241: fibers that call and
-- try each other, yield, return, fail or are aborted wait for each other down to the root.
use rust_wren.Base.{◌≡◌, List}
use rust_wren.Result.{ok}
use rust_wren.Switch.{call_verb, Task, Machine}
use rust_wren.Switch.Steps.{
  Event, calls, calls1, tries, tries1, transfers, transfers1, transfers_error, yields, yields1,
  aborts, suspends, returns, creates, works, run_event, step,
}
use rust_wren.Switch.Nested.{IsGoing, IsNested, Nests}
use rust_wren.Switch.Tries.{
  FiberOnTop, FiberBelow, run_without-Nests, run_with-Nests, fiber_tried-Nests, fiber_try1-Nests,
}
use rust_wren.Switch.Leaves.{HasTwo, fiber_yield-Nests, fiber_yield1-Nests}
use rust_wren.Switch.Returns.{
  HasResult, return_from-Nests, work-Nests, fiber_suspend-Nests, fiber_abort-Nests,
}
use rust_wren.Switch.Creates.{fiber_new-Nests}

-- The fiber that runs has the arguments of the event on its stack, and the event is no transfer.
abbrev pub Fits : List Task → Task → Event → Type 0
Fits tasks task calls = FiberOnTop tasks task.stack
Fits tasks task calls1 = FiberBelow tasks task.stack
Fits tasks task tries = FiberOnTop tasks task.stack
Fits tasks task tries1 = FiberBelow tasks task.stack
Fits tasks task transfers = ⊥
Fits tasks task transfers1 = ⊥
Fits tasks task transfers_error = ⊥
Fits tasks task yields = Unit
Fits tasks task yields1 = HasTwo task.stack
Fits tasks task aborts = HasTwo task.stack
Fits tasks task suspends = Unit
Fits tasks task returns = HasResult task
Fits tasks task (creates function) = HasTwo task.stack
Fits tasks task (works v stack frame frames) = Unit

run_event-Nests :
    (vm : Machine) (g : IsGoing vm) (e : Event)
    → Fits vm.tasks g.task e
    → Nests (run_event vm g.place e)
run_event-Nests vm g calls fits = run_without-Nests vm g call_verb fits
run_event-Nests vm g calls1 fits = run_with-Nests vm g call_verb fits
run_event-Nests vm g tries fits = fiber_tried-Nests vm g fits
run_event-Nests vm g tries1 fits = fiber_try1-Nests vm g fits
run_event-Nests vm g transfers fits = elim fits [ ]
run_event-Nests vm g transfers1 fits = elim fits [ ]
run_event-Nests vm g transfers_error fits = elim fits [ ]
run_event-Nests vm g yields fits = fiber_yield-Nests vm g
run_event-Nests vm g yields1 fits = fiber_yield1-Nests vm g fits
run_event-Nests vm g aborts fits = fiber_abort-Nests vm g fits
run_event-Nests vm g suspends fits = fiber_suspend-Nests vm g
run_event-Nests vm g returns fits = return_from-Nests vm g fits
run_event-Nests vm g (creates function) fits = fiber_new-Nests vm g function fits
run_event-Nests vm g (works v stack frame frames) fits = work-Nests vm g v stack frame frames

-- Where the fibers wait for each other down to the root, and the arguments of a primitive stand on the
-- stack of the fiber that runs, each of call, try, yield, suspend, abort, new and the return from a
-- function, and what a fiber does in between, follows no null pointer, reads nothing outside of a
-- stack or of the frames of a fiber, and ends its search for a fiber that gets an error. Afterwards
-- the interpreter has returned, or the fibers still wait for each other: from the fiber that runs on,
-- each one was called by the next one, none occurs twice, none has failed or finished, and the last
-- one is the root.
pub step-IsNested :
    (vm : Machine) (g : IsGoing vm) (e : Event)
    → Fits vm.tasks g.task e
    → (vm' : Machine) × (step vm e ≡ ok vm') × IsNested vm'
unfolding step
step-IsNested vm g e fits =
    let (vm', run, nested) = run_event-Nests vm g e fits in
    (vm', simp (g.current, g.going, step) run, nested)
