-- ===== src/Switch/Calls.antt =====
-- wren_core.c, lines 78 to 138: a call fails in the fiber that calls, or it adds a fiber to the chain.
use rust_wren.Base.{
  ℕ, ◌≡◌, ◌≢◌, refl, ap, ◌∙◌, sym, List, [], ◌∷◌, inl, inr, In, get_elem?, set, get_elem?-set_ne,
  true, false, ◌==◌, arith, Bool-cases, none, some, List-cases,
}
use rust_wren.Result.{ok, >>=-ok}
use rust_wren.Switch.{
  Message, Stored, text, Task, Machine, has_error, is_root, load, put_top, set_error, bind_argument,
}
use rust_wren.Switch.Chain.{
  IsClean, IsChained, Chain-frames, Chain-set_other, Chain-set_head, Chain-out, set-IsStacked,
  set-IsClean, get_elem?-set_there, load-ok, put_top-ok,
}

-- The fiber that runs has got an error, where the fibers were chained before.
pub record Failed (a : ℕ) (vm : Machine) : Type 0 where
  pub before : List Task
  pub task : Task
  pub error : Message
  pub chained : IsChained before a
  pub found : get_elem? before a ≡ some task
  pub now : vm ≡ record {
    tasks = set before a (record task { error = text error });
    fiber = some a;
    running = true;
  }

-- Another fiber runs, which can be tried.
pub record Switched (vm : Machine) : Type 0 where
  pub place : ℕ
  pub task : Task
  pub current : vm.fiber ≡ some place
  pub going : vm.running ≡ true
  pub chained : IsChained vm.tasks place
  pub found : get_elem? vm.tasks place ≡ some task
  pub not_root : is_root task.state ≡ false

pub set_error-ok :
    (vm : Machine) (a : ℕ) (u : Task) (m : Stored)
    → get_elem? vm.tasks a ≡ some u
    → set_error vm a m ≡ ok (record vm { tasks = set vm.tasks a (record u { error = m }) })
unfolding set_error
set_error-ok vm a u m e = >>=-ok (load vm.tasks (some a)) u _ (load-ok vm.tasks a u e)

pub set_error-Failed :
    (vm : Machine) (a : ℕ) (u : Task) (m : Message)
    → get_elem? vm.tasks a ≡ some u
    → vm.fiber ≡ some a
    → vm.running ≡ true
    → IsChained vm.tasks a
    → (vm' : Machine) × (set_error vm a (text m) ≡ ok vm') × Failed a vm'
set_error-Failed vm a u m e f g h =
    let tasks = set vm.tasks a (record u { error = text m }) in
    (
      record vm { tasks = tasks },
      set_error-ok vm a u (text m) e,
      record {
        before = vm.tasks;
        task = u;
        error = m;
        chained = h;
        found = e;
        now = λ i. record { tasks = tasks; fiber = f i; running = g i };
      },
    )

pub bind_argument-ok :
    (t : Task) (v : Stored)
    → t.stack ≢ []
    → (stack : List Stored) × (bind_argument t v ≡ ok (record t { stack = stack })) × (stack ≢ [])
unfolding bind_argument
bind_argument-ok t v n = elim (List-cases t.frames) [
  | inl e ↦
      let (r, p) = put_top-ok t v n in
      (
        v ∷ r,
        (let q : bind_argument t v ≡ put_top t v = simp (e, bind_argument) in q ∙ p),
        λ z. ground arith,
      )
  | inr (frame, below, e) ↦ elim (List-cases below) [
    | inr (d, below', e') ↦
        let (r, p) = put_top-ok t v n in
        (
          v ∷ r,
          (let q : bind_argument t v ≡ put_top t v = simp (e, e', bind_argument) in q ∙ p),
          λ z. ground arith,
        )
    | inl e' ↦ elim (Bool-cases (frame.ip == 0)) [
      | inr z ↦
          let (r, p) = put_top-ok t v n in
          (
            v ∷ r,
            (let q : bind_argument t v ≡ put_top t v = simp (e, e', z, bind_argument) in q ∙ p),
            λ z. ground arith,
          )
      | inl z ↦ elim (Bool-cases (frame.arity == 1)) [
        | inl w ↦ (v ∷ t.stack, simp (e, e', z, w, bind_argument), λ z. ground arith)
        | inr w ↦
            let q : bind_argument t v ≡ ok t = simp (e, e', z, w, bind_argument) in (t.stack, q, n)
      ]
    ]
  ]
]

module _ (tasks : List Task) (a b : ℕ) (t u : Task) (h : IsChained tasks a)
    (ht : get_elem? tasks b ≡ some t) (hu : get_elem? tasks a ≡ some u)
    (no_error : has_error t ≡ false) (uncalled : t.caller ≡ none)
    (not_root : is_root t.state ≡ false) where
  pub called_apart : ¬ In b (a ∷ h.path)
  called_apart = Chain-out tasks a b h.path t ht uncalled not_root h.chain

  -- A finished fiber gets a caller before it is refused.
  pub refused-IsChained : t.frames ≡ [] → IsChained (set tasks b (record t { caller = some a })) a
  refused-IsChained f =
      let t' = record t { caller = some a } in
      record {
        path = h.path;
        chain = Chain-set_other tasks a b h.path t' called_apart h.chain;
        stacked = set-IsStacked tasks b t' h.stacked (λ k z. k f);
        clean = set-IsClean tasks b t' (a ∷ h.path) h.clean no_error;
      }

  -- The called fiber and the current one get their stacks.
  pub switched-IsChained :
      (stack stack' : List Stored)
      → stack ≢ []
      → stack' ≢ []
      → t.frames ≢ []
      → IsChained
          (set
            (set (set tasks b (record t { caller = some a })) a (record u { stack = stack }))
            b
            (record t { caller = some a; stack = stack' }))
          b
  switched-IsChained stack stack' n n' f =
      let t₁ = record t { caller = some a } in
      let t₂ = record t { caller = some a; stack = stack' } in
      let u' = record u { stack = stack } in
      let tasks₁ = set tasks b t₁ in
      let tasks₂ = set tasks₁ a u' in
      let ne : b ≢ a = λ e. called_apart (inl e) in
      let there : get_elem? tasks₂ b ≡ some t₁ =
        get_elem?-set_ne tasks₁ u' (λ e. ne (sym e)) ∙ get_elem?-set_there tasks b t t₁ ht in
      let here : get_elem? tasks₁ a ≡ some u = get_elem?-set_ne tasks t₁ ne ∙ hu in
      let chain₁ = Chain-set_other tasks a b h.path t₁ called_apart h.chain in
      let chain₂ =
        Chain-set_head tasks₁ a h.path u u' here refl refl
          (Chain-frames tasks a h.path u h.chain hu) chain₁ in
      let clean : IsClean tasks (b ∷ a ∷ h.path) = λ x v i e. elim i [
        | inl same ↦
            let at_b : get_elem? tasks x ≡ some t = ap (get_elem? tasks) same ∙ ht in
            let w : v ≡ t = cc in ap has_error w ∙ no_error
        | inr k ↦ h.clean x v k e
      ] in
      record {
        path = a ∷ h.path;
        chain = (
          t₂,
          get_elem?-set_there tasks₂ b t₁ t₂ there,
          f,
          refl,
          called_apart,
          Chain-set_other tasks₂ a b h.path t₂ called_apart chain₂,
        );
        stacked =
            set-IsStacked tasks₂ b t₂
              (set-IsStacked tasks₁ a u' (set-IsStacked tasks b t₁ h.stacked (h.stacked b t ht))
                (λ k. n))
              (λ k. n');
        clean =
            set-IsClean tasks₂ b t₂ (b ∷ a ∷ h.path)
              (set-IsClean tasks₁ a u' (b ∷ a ∷ h.path)
                (set-IsClean tasks b t₁ (b ∷ a ∷ h.path) clean no_error)
                (h.clean a u (inl refl) hu))
              no_error;
      }
