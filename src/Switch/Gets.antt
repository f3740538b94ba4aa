-- ===== src/Switch/Gets.antt =====
-- wren_vm.c, lines 408 to 441: which fibers an error fails, and which one gets it.
use rust_wren.Base.{
  ℕ, zero, suc, ◌<◌, ◌≡◌, ◌≢◌, refl, ap, ◌∙◌, sym, List, [], ◌∷◌, inl, inr, length, get_elem?, set,
  get_elem?-set_ne, Bool, false, arith, Bool-cases, Option, none, some, List-cases,
}
use rust_wren.Result.{ok, ◌>>=◌, >>=-ok}
use rust_wren.Switch.{Stored, Task, Machine, is_try, load, put_top}
use rust_wren.Switch.Errors.{give_error, unwind, runtime_error}
use rust_wren.Switch.Chain.{Chain, IsStacked, Chain-head, Chain-set_other, set-IsStacked, load-ok}
use rust_wren.Switch.Caught.{hooked-le, Chain-le, unwind-on, unwind-try, root-not_try}
use rust_wren.Switch.Fate.{
  Fate, catcher, fallen, tries_at, catcher-In, fallen-In, catcher-set, Fate-caught, Fate-on,
  Fate-eq, Fate-same,
}

-- The loop where the fiber `c` is being tried.
caught_run :
    (tasks : List Task) (c b : ℕ) (t n : Task) (error v : Stored) (rest : List Stored)
    → c ≢ b
    → get_elem? tasks b ≡ some n
    → n.stack ≡ v ∷ rest
    → give_error (set tasks c (record t { error = error })) (some b) error
      ≡ ok (
        some b,
        set (set tasks c (record t { error = error })) b (record n { stack = error ∷ rest }),
      )
unfolding give_error put_top
caught_run tasks c b t n error v rest ne en sn =
    let tasks₁ = set tasks c (record t { error = error }) in
    >>=-ok (load tasks₁ (some b)) n _ (load-ok tasks₁ b n (get_elem?-set_ne tasks _ ne ∙ en))
    ∙ >>=-ok (put_top n error) (record n { stack = error ∷ rest }) _ (simp (sn, put_top))

-- The fibers after the error, and the fiber that goes on, where the loop has enough fuel.
abbrev Unwinds : ℕ → List Task → ℕ → List ℕ → Stored → Type 0
Unwinds fuel tasks c path error =
    (tasks' : List Task) × (unwind fuel tasks (some c) error ≡ ok (catcher tasks c path, tasks'))
    × Fate tasks tasks' error (fallen tasks c path) (catcher tasks c path)

unwind-Fate :
    (fuel : ℕ) (tasks : List Task) (c : ℕ) (path : List ℕ) (error : Stored)
    → Chain tasks c path
    → IsStacked tasks
    → length path < fuel
    → Unwinds fuel tasks c path error
unfolding unwind
unwind-Fate zero tasks c path error h stacked enough = ground arith
unwind-Fate (suc fuel) tasks c [] error (t, e, f, k, root) stacked enough =
    let t' = record t { error = error; caller = none } in
    let tasks' = set tasks c t' in
    (
      tasks',
      unwind-on fuel tasks c error t e (root-not_try t.state root)
          ∙ ap (λ (p : Option ℕ). unwind fuel tasks' p error) k,
      Fate-on tasks tasks' c t t' error [] none e refl refl refl (λ i. i) (λ z. ground arith)
          (Fate-same tasks' error),
    )
unwind-Fate (suc fuel) tasks c (b ∷ rest) error (t, e, f, k, out, h) stacked enough =
    let tried : tries_at tasks c ≡ is_try t.state =
      ap (λ (o : Option Task). elim o as (λ y. Bool) [ none ↦ false | some u ↦ is_try u.state ])
        e in
    elim (Bool-cases (is_try t.state)) [
      | inl s ↦
          let now = tried ∙ s in
          let (n, en, fn) = Chain-head tasks b rest h in
          let ne : c ≢ b = λ z. out (inl z) in
          let next : catcher tasks c (b ∷ rest) ≡ some b = rw (now, catcher) refl in
          let down : fallen tasks c (b ∷ rest) ≡ c ∷ [] = rw (now, fallen) refl in
          elim (List-cases n.stack) [
            | inl z ↦ absurd (stacked b n en fn z)
            | inr (v, below, sn) ↦ (
              set (set tasks c (record t { error = error })) b (record n { stack = error ∷ below }),
              unwind-try fuel tasks c error t e s
                  ∙ ap
                      (λ (p : Option ℕ).
                        give_error (set tasks c (record t { error = error })) p error)
                      k
                  ∙ caught_run tasks c b t n error v below ne en sn
                  ∙ ap
                      (λ (p : Option ℕ). ok (
                        p,
                        set (set tasks c (record t { error = error })) b
                            (record n { stack = error ∷ below }),
                      ))
                      (sym next),
              Fate-eq tasks
                  (set (set tasks c (record t { error = error })) b
                    (record n { stack = error ∷ below }))
                  error (fallen tasks c (b ∷ rest)) (c ∷ []) (catcher tasks c (b ∷ rest)) (some b)
                  down next (Fate-caught tasks c b t n error v below ne e en sn),
            )
          ]
      | inr s ↦
          let now = tried ∙ s in
          let t' = record t { error = error; caller = none } in
          let tasks₁ = set tasks c t' in
          let (tasks', run, fate) =
            unwind-Fate fuel tasks₁ b rest error (Chain-set_other tasks b c rest t' out h)
              (set-IsStacked tasks c t' stacked (stacked c t e)) (omega arith) in
          let next : catcher tasks c (b ∷ rest) ≡ catcher tasks b rest = rw (now, catcher) refl in
          let down : fallen tasks c (b ∷ rest) ≡ c ∷ fallen tasks b rest = rw (now, fallen) refl in
          let (same, same') = catcher-set tasks c t' b rest out in
          (
            tasks',
            unwind-on fuel tasks c error t e s
                ∙ ap (λ (p : Option ℕ). unwind fuel tasks₁ p error) k
                ∙ run
                ∙ ap (λ (p : Option ℕ). ok (p, tasks')) (same ∙ sym next),
            Fate-eq tasks tasks' error (fallen tasks c (b ∷ rest)) (c ∷ fallen tasks b rest)
                (catcher tasks c (b ∷ rest)) (catcher tasks b rest) down next
                (Fate-on tasks tasks' c t t' error (fallen tasks b rest) (catcher tasks b rest) e
                  refl refl refl (λ i. out (fallen-In tasks b rest c i))
                  (λ z. out (inr (catcher-In tasks b rest c z)))
                  (Fate-eq tasks₁ tasks' error (fallen tasks b rest) (fallen tasks₁ b rest)
                    (catcher tasks b rest) (catcher tasks₁ b rest) (sym same') (sym same) fate)),
          )
    ]

-- An error in the fiber that runs, where the fibers wait for each other from it down to the root,
-- goes to the caller of the first fiber that is being tried. That caller goes on with the error on
-- top of its stack; the fibers up to the one that is being tried get the error and keep their stacks
-- and frames, and all others stay as they are. Where no fiber is being tried, all that wait get the
-- error, and no fiber goes on.
pub runtime_error-Fate :
    (vm : Machine) (a : ℕ) (t : Task) (path : List ℕ)
    → vm.fiber ≡ some a
    → get_elem? vm.tasks a ≡ some t
    → Chain vm.tasks a path
    → IsStacked vm.tasks
    → (tasks' : List Task) × (runtime_error vm
        ≡ ok (record vm { tasks = tasks'; fiber = catcher vm.tasks a path }))
      × Fate vm.tasks tasks' t.error (fallen vm.tasks a path) (catcher vm.tasks a path)
unfolding runtime_error
runtime_error-Fate vm a t path current e h stacked =
    let (tasks', run, fate) =
      unwind-Fate (suc (length vm.tasks)) vm.tasks a path t.error h stacked
        (omega (arith, Chain-le vm.tasks a path h, hooked-le vm.tasks)) in
    (
      tasks',
      ap
            (λ (p : Option ℕ). load vm.tasks p >>= λ task.
              unwind (suc (length vm.tasks)) vm.tasks p task.error >>= λ r.
              ok (record vm { tasks = r.1; fiber = r.0 }))
            current
          ∙ >>=-ok (load vm.tasks (some a)) t _ (load-ok vm.tasks a t e)
          ∙ >>=-ok (unwind (suc (length vm.tasks)) vm.tasks (some a) t.error)
              (catcher vm.tasks a path, tasks') _ run,
      fate,
    )
