-- ===== src/Switch/Nested.antt =====
-- wren_vm.c, lines 1034 to 1050: what the interpreter does after a primitive on fibers.
use rust_wren.Base.{
  ℕ, suc, ◌≡◌, ◌≢◌, refl, ◌∙◌, List, [], ◌∷◌, ◌⊎◌, inl, inr, length, get_elem?, set, true, false,
  arith, Bool-cases, Option, some, List-cases,
}
use rust_wren.Result.{Result, ok, >>=-ok}
use rust_wren.Switch.{Stored, Task, Machine, has_error, is_root, load}
use rust_wren.Switch.Errors.{runtime_error, load_frame, dispatch}
use rust_wren.Switch.Chain.{
  Chain, IsStacked, IsChained, Chain-frames, Chain-apart, Chain-set_head, set-IsStacked,
  set-IsClean, get_elem?-set_there, load-ok, Chain-head,
}
use rust_wren.Switch.Caught.{IsCaught, unwind-IsCaught, Chain-le, hooked-le, IsClean-set_other}

-- The interpreter goes on with a fiber at the head of a chain.
pub record IsGoing (vm : Machine) : Type 0 where
  pub place : ℕ
  pub task : Task
  pub current : vm.fiber ≡ some place
  pub going : vm.running ≡ true
  pub chained : IsChained vm.tasks place
  pub found : get_elem? vm.tasks place ≡ some task

-- The interpreter has returned, or the fibers wait for each other.
abbrev pub IsNested : Machine → Type 0
IsNested vm = (vm.running ≡ false) ⊎ IsGoing vm

abbrev pub Nests : Result Machine → Type 0
Nests r = (vm : Machine) × (r ≡ ok vm) × IsNested vm

load_frame-at :
    (vm : Machine) (a : ℕ) (t : Task)
    → vm.fiber ≡ some a
    → get_elem? vm.tasks a ≡ some t
    → t.frames ≢ []
    → load_frame vm ≡ ok vm
unfolding load_frame
load_frame-at vm a t current e f = elim (List-cases t.frames) [
  | inl z ↦ absurd (f z)
  | inr (frame, below, z) ↦
      simp (current, load_frame)
        (>>=-ok (load vm.tasks (some a)) t _ (load-ok vm.tasks a t e) ∙ simp z)
]

pub load_frame-IsGoing :
    (vm : Machine) (a : ℕ) → vm.fiber ≡ some a → IsChained vm.tasks a → load_frame vm ≡ ok vm
load_frame-IsGoing vm a current h =
    let (t, e, f) = Chain-head vm.tasks a h.path h.chain in load_frame-at vm a t current e f

pub dispatch-IsGoing : (vm : Machine) → IsGoing vm → dispatch vm ≡ ok vm
unfolding dispatch
dispatch-IsGoing vm g =
    let clean = g.chained.clean g.place g.task (inl refl) g.found in
    simp (g.current, load-ok vm.tasks g.place g.task g.found, clean, dispatch)
      (load_frame-IsGoing vm g.place g.current g.chained)

-- The fiber that runs gets an error, or loses it.
module _ (tasks : List Task) (a : ℕ) (t : Task) (error : Stored) (h : IsChained tasks a)
    (e : get_elem? tasks a ≡ some t) where
  abbrev pub erring : Task
  erring = record t { error = error }

  abbrev pub machine : Machine
  machine = record { tasks = set tasks a erring; fiber = some a; running = true }

  erring-Chain : Chain machine.tasks a h.path
  erring-Chain =
      Chain-set_head tasks a h.path t erring e refl refl (Chain-frames tasks a h.path t h.chain e)
        h.chain

  erring-IsStacked : IsStacked machine.tasks
  erring-IsStacked = set-IsStacked tasks a erring h.stacked (h.stacked a t e)

  erring-found : get_elem? machine.tasks a ≡ some erring
  erring-found = get_elem?-set_there tasks a t erring e

  pub cleared-IsGoing : has_error erring ≡ false → IsGoing machine
  cleared-IsGoing clean = record {
    place = a;
    task = erring;
    current = refl;
    going = refl;
    chained = record {
      path = h.path;
      chain = erring-Chain;
      stacked = erring-IsStacked;
      clean = set-IsClean tasks a erring (a ∷ h.path) h.clean clean;
    };
    found = erring-found;
  }

  caught-Nests :
      (r : Option ℕ × List Task)
      → IsCaught r
      → Nests (load_frame (record machine { tasks = r.1; fiber = r.0 }))
  unfolding load_frame
  caught-Nests r (inl z) =
      (record machine { tasks = r.1; fiber = r.0; running = false }, simp (z, load_frame), inl refl)
  caught-Nests r (inr (b, z, k)) =
      let vm = record machine { tasks = r.1; fiber = r.0 } in
      let (u, eu, f) = Chain-head r.1 b k.path k.chain in
      (
        vm,
        load_frame-IsGoing vm b z k,
        inr (record { place = b; task = u; current = z; going = refl; chained = k; found = eu }),
      )

  pub erring-Nests : Nests (dispatch machine)
  unfolding dispatch runtime_error
  erring-Nests = elim (Bool-cases (has_error erring)) [
    | inr clean ↦ let g = cleared-IsGoing clean in (machine, dispatch-IsGoing machine g, inr g)
    | inl failed ↦
        let (r, run, caught) =
          unwind-IsCaught (suc (length machine.tasks)) machine.tasks a h.path error erring-Chain
            erring-IsStacked
            (IsClean-set_other tasks a erring h.path (Chain-apart tasks a h.path h.chain)
              (λ x u i. h.clean x u (inr i)))
            (omega
              (arith, Chain-le machine.tasks a h.path erring-Chain, hooked-le machine.tasks)) in
        let (vm, went, nested) = caught-Nests r caught in
        (
          vm,
          simp (load-ok machine.tasks a erring erring-found, failed, run, dispatch, runtime_error)
              went,
          nested,
        )
  ]

-- The fiber that runs changes, but not who called it.
pub head-IsChained :
    (tasks : List Task) (a : ℕ) (t t' : Task) (h : IsChained tasks a)
    → get_elem? tasks a ≡ some t
    → t'.caller ≡ t.caller
    → is_root t'.state ≡ is_root t.state
    → t'.frames ≢ []
    → t'.stack ≢ []
    → has_error t' ≡ false
    → IsChained (set tasks a t') a
head-IsChained tasks a t t' h e same root f n clean = record {
  path = h.path;
  chain = Chain-set_head tasks a h.path t t' e same root f h.chain;
  stacked = set-IsStacked tasks a t' h.stacked (λ k. n);
  clean = set-IsClean tasks a t' (a ∷ h.path) h.clean clean;
}

pub head-IsGoing :
    (vm : Machine) (g : IsGoing vm) (t : Task)
    → t.caller ≡ g.task.caller
    → is_root t.state ≡ is_root g.task.state
    → t.frames ≢ []
    → t.stack ≢ []
    → has_error t ≡ false
    → IsGoing (record vm { tasks = set vm.tasks g.place t })
head-IsGoing vm g t same root f n clean = record {
  place = g.place;
  task = t;
  current = g.current;
  going = g.going;
  chained = head-IsChained vm.tasks g.place g.task t g.chained g.found same root f n clean;
  found = get_elem?-set_there vm.tasks g.place g.task t g.found;
}
