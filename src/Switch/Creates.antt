-- ===== src/Switch/Creates.antt =====
-- wren_core.c, lines 58 to 69, and wren_value.c, lines 146 to 188: a fiber is created.
use rust_wren.Base.{
  ℕ, ◌≡◌, ◌≢◌, refl, ap, ◌∙◌, sym, List, [], ◌∷◌, ◌++◌, inl, inr, In, length, get_elem?, set,
  get_elem?-append_left, get_elem?-snoc, lt-of-get_elem?, false, arith, Option, some, ◌⊎◌,
}
use rust_wren.Value.{obj}
use rust_wren.Result.{>>=-ok}
use rust_wren.Switch.{
  Message, value, text, Task, Machine, has_error, load, put_top, drop_top, set_error,
}
use rust_wren.Switch.Steps.{stored_at, new_task, checked_arity, fiber_new}
use rust_wren.Switch.Chain.{Chain, IsChained, Chain-agree, get_elem?-set_there}
use rust_wren.Switch.Calls.{set_error-ok}
use rust_wren.Switch.Nested.{IsGoing, Nests, head-IsChained}
use rust_wren.Switch.Leaves.{HasTwo, found_ok, frames_lem}
use rust_wren.Switch.Returns.{failing}

Chain-there :
    (tasks : List Task) (a : ℕ) (path : List ℕ) (x : ℕ)
    → Chain tasks a path
    → In x (a ∷ path)
    → (t : Task) × (get_elem? tasks x ≡ some t)
Chain-there tasks a [] x (t, e, f, c, r) (inl i) = (t, ap (get_elem? tasks) i ∙ e)
Chain-there tasks a [] x h (inr i) = elim i [ ]
Chain-there tasks a (b ∷ rest) x (t, e, f, c, n, h) (inl i) = (t, ap (get_elem? tasks) i ∙ e)
Chain-there tasks a (b ∷ rest) x (t, e, f, c, n, h) (inr i) = Chain-there tasks b rest x h i

-- One more fiber does not change the chain.
snoc-IsChained :
    (tasks : List Task) (a : ℕ) (new : Task)
    → new.stack ≢ []
    → has_error new ≡ false
    → IsChained tasks a
    → IsChained (tasks ++ new ∷ []) a
snoc-IsChained tasks a new n clean h = record {
  path = h.path;
  chain =
      Chain-agree tasks (tasks ++ new ∷ []) a h.path
        (λ x i.
          let (t, e) = Chain-there tasks a h.path x h.chain i in
          get_elem?-append_left tasks (new ∷ []) x (lt-of-get_elem? tasks x t e))
        h.chain;
  stacked = λ x t e f. elim (get_elem?-snoc tasks new t x e) [
    | inl old ↦ h.stacked x t old f
    | inr last ↦ λ z. n (ap (λ (v : Task). v.stack) last.1 ∙ z)
  ];
  clean = λ x t i e. elim (get_elem?-snoc tasks new t x e) [
    | inl old ↦ h.clean x t i old
    | inr last ↦ ap has_error (sym last.1) ∙ clean
  ];
}

-- The argument is refused, or has an arity.
sum_cases :
    (result : Message ⊎ ℕ)
    → ((m : Message) × (result ≡ inl m)) ⊎ ((arity : ℕ) × (result ≡ inr arity))
sum_cases (inl m) = inl (m, refl)
sum_cases (inr arity) = inr (arity, refl)

module _ (vm : Machine) (g : IsGoing vm) where
  pub fiber_new-Nests :
      (function : Option ℕ) → HasTwo g.task.stack → Nests (fiber_new vm g.place function)
  unfolding fiber_new stored_at drop_top put_top
  fiber_new-Nests function (v, w, rest, e) =
      let start =
        >>=-ok (load vm.tasks (some g.place)) g.task _ (found_ok vm g)
        ∙ >>=-ok (stored_at g.task.stack 0) v _ (simp (e, stored_at)) in
      elim (sum_cases (checked_arity function)) [
        | inl (m, z) ↦
            let vm₁ = record vm {
              tasks = set vm.tasks g.place (record g.task { error = text m });
            } in
            let (vm', went, nested) = failing vm g (text m) in
            (
              vm',
              start
                  ∙ simp z (
                      >>=-ok (set_error vm g.place (text m)) vm₁ _
                        (set_error-ok vm g.place g.task (text m) g.found)
                      ∙ went),
              nested,
            )
        | inr (arity, z) ↦
            let t₁ = record g.task { stack = w ∷ rest } in
            let t₂ = record g.task { stack = value (obj (length vm.tasks)) ∷ rest } in
            let tasks = set vm.tasks g.place t₂ in
            let new = new_task v arity in
            let clean = g.chained.clean g.place g.task (inl refl) g.found in
            let there = get_elem?-set_there vm.tasks g.place g.task t₂ g.found in
            let h =
              head-IsChained vm.tasks g.place g.task t₂ g.chained g.found refl refl
                (frames_lem vm g) (λ y. ground arith) clean in
            (
              record vm { tasks = tasks ++ new ∷ [] },
              start ∙ simp z (>>=-ok (drop_top g.task) t₁ _ (simp (e, drop_top))),
              inr (record {
                place = g.place;
                task = t₂;
                current = g.current;
                going = g.going;
                chained = snoc-IsChained tasks g.place new (λ y. ground arith) refl h;
                found =
                    get_elem?-append_left tasks (new ∷ []) g.place
                      (lt-of-get_elem? tasks g.place t₂ there)
                    ∙ there;
              }),
            )
      ]
