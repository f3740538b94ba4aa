-- ===== src/Switch/Runs.antt =====
-- wren_core.c, lines 86 to 138: `runFiber` fails in the fiber that calls, or it switches.
use rust_wren.Base.{
  ℕ, ◌≡◌, ◌≢◌, refl, ◌∙◌, sym, List, [], ◌⊎◌, inl, inr, get_elem?, set, get_elem?-set_ne, true,
  false, arith, Bool-cases, Option, none, some, List-cases, Option-cases,
}
use rust_wren.Result.{Result, ok, >>=-ok}
use rust_wren.Switch.{
  Verb, Message, aborted, finished, already_called, root_called, Stored, text, Task, Machine,
  has_error, is_root, load, drop_top, set_error, bind_argument, argument_or_null, switch,
  switch_unfinished, call_checked, run_fiber,
}
use rust_wren.Switch.Chain.{IsChained, get_elem?-set_there, load-ok}
use rust_wren.Switch.Calls.{
  Failed, Switched, set_error-Failed, bind_argument-ok, called_apart, refused-IsChained,
  switched-IsChained,
}

-- A call that finds the fiber and its arguments fails in the fiber that calls, or it adds the called
-- fiber to the chain. The argument, if there is one, is on top of the caller's stack.
module _ (vm : Machine) (a b : ℕ) (t u : Task) (argument : Option Stored) (stack : List Stored)
    (verb : Verb) (ht : get_elem? vm.tasks b ≡ some t) (hu : get_elem? vm.tasks a ≡ some u)
    (fits : elim argument as (λ x. Result Task) [ none ↦ ok u | some v ↦ drop_top u ]
      ≡ ok (record u { stack = stack }))
    (left : stack ≢ []) (current : vm.fiber ≡ some a) (going : vm.running ≡ true)
    (h : IsChained vm.tasks a) where
  switch-Switched :
      has_error t ≡ false
      → t.caller ≡ none
      → is_root t.state ≡ false
      → t.frames ≢ []
      → (vm' : Machine) × (switch
            (record vm { tasks = set vm.tasks b (record t { caller = some a }) })
            a
            b
            argument
          ≡ ok vm')
        × Switched vm'
  unfolding switch
  switch-Switched no_error uncalled not_root f =
      let t₁ = record t { caller = some a } in
      let tasks₁ = set vm.tasks b t₁ in
      let u' = record u { stack = stack } in
      let tasks₂ = set tasks₁ a u' in
      let ne : b ≢ a =
        λ e. called_apart vm.tasks a b t u h ht hu no_error uncalled not_root (inl e) in
      let here : get_elem? tasks₁ a ≡ some u = get_elem?-set_ne vm.tasks t₁ ne ∙ hu in
      let there : get_elem? tasks₂ b ≡ some t₁ =
        get_elem?-set_ne tasks₁ u' (λ e. ne (sym e)) ∙ get_elem?-set_there vm.tasks b t t₁ ht in
      let v = argument_or_null argument in
      let (stack', bound, left') = bind_argument-ok t₁ v (h.stacked b t ht f) in
      let t₂ = record t₁ { stack = stack' } in
      (
        record vm { tasks = set tasks₂ b t₂; fiber = some b },
        >>=-ok (load tasks₁ (some a)) u _ (load-ok tasks₁ a u here)
            ∙ >>=-ok _ u' _ fits
            ∙ >>=-ok (load tasks₂ (some b)) t₁ _ (load-ok tasks₂ b t₁ there)
            ∙ >>=-ok (bind_argument t₁ v) t₂ _ bound,
        record {
          place = b;
          task = t₂;
          current = refl;
          going = going;
          chained =
              switched-IsChained vm.tasks a b t u h ht hu no_error uncalled not_root stack stack'
                left left' f;
          found = get_elem?-set_there tasks₂ b t₁ t₂ there;
          not_root = not_root;
        },
      )

  abbrev pub Ran : Result Machine → Type 0
  Ran r = (vm' : Machine) × (r ≡ ok vm') × (Failed a vm' ⊎ Switched vm')

  failed_lem : (m : Message) → Ran (set_error vm a (text m))
  failed_lem m = let (vm', e, f) = set_error-Failed vm a u m hu current going h in (vm', e, inl f)

  unfinished-Ran :
      has_error t ≡ false
      → t.caller ≡ none
      → is_root t.state ≡ false
      → Ran (
          switch_unfinished
            (record vm { tasks = set vm.tasks b (record t { caller = some a }) })
            a
            b
            argument
            verb
            t)
  unfolding switch_unfinished
  unfinished-Ran no_error uncalled not_root = elim (List-cases t.frames) [
    | inl e ↦
        let t₁ = record t { caller = some a } in
        let vm₁ = record vm { tasks = set vm.tasks b t₁ } in
        let ne : b ≢ a =
          λ e. called_apart vm.tasks a b t u h ht hu no_error uncalled not_root (inl e) in
        let here : get_elem? vm₁.tasks a ≡ some u = get_elem?-set_ne vm.tasks t₁ ne ∙ hu in
        let refused = refused-IsChained vm.tasks a b t u h ht hu no_error uncalled not_root e in
        let (vm', run, f) = set_error-Failed vm₁ a u (finished verb) here current going refused in
        (vm', rw (e, switch_unfinished) run, inl f)
    | inr (frame, below, e) ↦
        let some_frame : t.frames ≢ [] = λ z. ground arith in
        let (vm', run, s) = switch-Switched no_error uncalled not_root some_frame in
        (vm', rw (e, switch_unfinished) run, inr s)
  ]

  call_checked-Ran : has_error t ≡ false → Ran (call_checked vm a b argument verb t)
  unfolding call_checked
  call_checked-Ran no_error = elim (Option-cases t.caller) [
    | inr (c, e) ↦
        let (vm', run, r) = failed_lem already_called in (vm', rw (e, call_checked) run, r)
    | inl e ↦ elim (Bool-cases (is_root t.state)) [
      | inl root ↦
          let (vm', run, r) = failed_lem root_called in (vm', simp (e, root, call_checked) run, r)
      | inr root ↦
          let (vm', run, r) = unfinished-Ran no_error e root in
          (vm', simp (e, root, call_checked) run, r)
    ]
  ]

  pub run_fiber-Ran : Ran (run_fiber vm a b true argument verb)
  unfolding run_fiber
  run_fiber-Ran = elim (Bool-cases (has_error t)) [
    | inl failed ↦
        let (vm', run, r) = failed_lem (aborted verb) in
        (
          vm',
          >>=-ok (load vm.tasks (some b)) t _ (load-ok vm.tasks b t ht) ∙ rw failed refl ∙ run,
          r,
        )
    | inr no_error ↦
        let (vm', run, r) = call_checked-Ran no_error in
        (
          vm',
          >>=-ok (load vm.tasks (some b)) t _ (load-ok vm.tasks b t ht) ∙ rw no_error refl ∙ run,
          r,
        )
  ]
