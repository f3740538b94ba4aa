-- ===== src/Switch/Ends.antt =====
-- wren_vm.c, lines 408 to 441: the search for a fiber that gets an error ends, however the fibers
-- refer to each other.
use rust_wren.Base.{
  ℕ, zero, suc, ◌<◌, refl, ap, List, inl, inr, length, get_elem?, set, arith, Bool-cases, Option,
  none, some, Option-cases,
}
use rust_wren.Result.{Result, ok, Ends, >>=-Ends}
use rust_wren.Switch.{Stored, Task, Machine, is_try, load, put_top}
use rust_wren.Switch.Errors.{give_error, unwind, runtime_error}
use rust_wren.Switch.Caught.{is_hooked, hooked, hooked-le, hooked-set, unwind-on, unwind-try}

abbrev Finishes : {A : Type 0} → Result A → Type 0
Finishes r = Ends (λ _. Unit) r

put_top-Finishes : (t : Task) (v : Stored) → Finishes (put_top t v)
unfolding put_top
put_top-Finishes t v = ground arith

load-Finishes : (tasks : List Task) (p : Option ℕ) → Finishes (load tasks p)
unfolding load
load-Finishes tasks none = tt
load-Finishes tasks (some a) = elim (Option-cases (get_elem? tasks a)) [
  | inl e ↦ rw (e, load) tt
  | inr (t, e) ↦ rw (e, load) tt
]

give_error-Finishes :
    (tasks : List Task) (p : Option ℕ) (v : Stored) → Finishes (give_error tasks p v)
unfolding give_error
give_error-Finishes tasks none v = tt
give_error-Finishes tasks (some c) v =
    >>=-Ends (λ _. Unit) (load tasks (some c)) _ (load-Finishes tasks (some c))
      (λ t _. >>=-Ends (λ _. Unit) (put_top t v) _ (put_top-Finishes t v) (λ t' _. tt))

unwind-Finishes :
    (fuel : ℕ) (tasks : List Task) (p : Option ℕ) (error : Stored)
    → hooked tasks < fuel
    → Finishes (unwind fuel tasks p error)
unfolding unwind load
unwind-Finishes fuel tasks none error enough = tt
unwind-Finishes zero tasks (some c) error enough = ground arith
unwind-Finishes (suc fuel) tasks (some c) error enough = elim (Option-cases (get_elem? tasks c)) [
  | inl e ↦ rw (e, load, unwind) tt
  | inr (t, e) ↦ elim (Bool-cases (is_try t.state)) [
    | inl s ↦
        rw (unwind-try fuel tasks c error t e s)
          (give_error-Finishes (set tasks c (record t { error = error })) t.caller error)
    | inr s ↦
        let t' = record t { error = error; caller = none } in
        rw (unwind-on fuel tasks c error t e s) (elim (Option-cases t.caller) [
          | inl z ↦ rw (z, unwind) tt
          | inr (d, z) ↦
              let drop = hooked-set tasks c t t' e (ap is_hooked z) refl in
              unwind-Finishes fuel (set tasks c t') t.caller error (omega arith)
        ])
  ]
]

-- The search of `runtimeError` through the fibers that called each other ends within one round for
-- each fiber and one more, for any fibers whatever, also where they call each other in a circle. It
-- returns, or it reads outside of a stack or through a null pointer.
pub runtime_error-Ends : (vm : Machine) → Ends (λ _. Unit) (runtime_error vm)
unfolding runtime_error
runtime_error-Ends vm =
    >>=-Ends (λ _. Unit) (load vm.tasks vm.fiber) _ (load-Finishes vm.tasks vm.fiber)
      (λ task _.
        >>=-Ends (λ _. Unit) (unwind (suc (length vm.tasks)) vm.tasks vm.fiber task.error)
          (λ (r : Option ℕ × List Task). ok (record vm { tasks = r.1; fiber = r.0 }))
          (unwind-Finishes (suc (length vm.tasks)) vm.tasks vm.fiber task.error
            (omega (arith, hooked-le vm.tasks)))
          (λ r _. tt))
