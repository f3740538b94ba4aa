-- ===== src/Collector/Mark/Reach.antt =====
-- wren_value.c, lines 1216 to 1224: the loop that blackens the gray objects ends, and marks what can be
-- reached from the roots.
use rust_wren.Base.{
  In, ℕ, zero, suc, ◌+◌, ◌<◌, ◌≡◌, refl, ap, ◌∙◌, sym, List, [], ◌∷◌, ◌⊎◌, inl, inr, length, true,
  arith, Option, none, some, List-cases,
}
use rust_wren.Collector.{Pointer, Obj, Vm, Sizes, find_object}
use rust_wren.Collector.Mark.{blacken_contents, blacken_found, blacken_popped, blacken_objects}
use rust_wren.Collector.Mark.Pointers.{pointers, root_pointers, Grays}
use rust_wren.Collector.Mark.Blackens.{blacken_contents-Grays}
use rust_wren.Collector.Mark.Grows.{
  whiten, whiten_all, whitened, darkness, marked, whites, find_object-whiten_all,
}
use rust_wren.Collector.Mark.Grown.{Grown, gray_objs-Grown, IsThere, whiten_all-IsThere}

-- The addresses that the pointers of objects lead to.
pub data Reachable (objects : List Obj) (roots : List Pointer) : ℕ → Type 0 where
  root : (a : ℕ) → In (some a) roots → Reachable objects roots a
  field :
      (a b : ℕ) (o : Obj)
      → Reachable objects roots a
      → find_object a objects ≡ some o
      → In (some b) (pointers o.class_obj o.contents)
      → Reachable objects roots b

pub Grays-Grown : (vm vm' : Vm) (ps : List Pointer) → Grays vm ps vm' → Grown vm ps vm'
Grays-Grown vm vm' ps (n, e) =
    let g = gray_objs-Grown vm ps in
    rw e (record {
      shape = g.shape;
      finalized = g.finalized;
      roots = g.roots;
      kept = g.kept;
      fresh = g.fresh;
      stays = g.stays;
      grayed = g.grayed;
      reached = g.reached;
      count = g.count;
      safe = g.safe;
    })

marked-IsThere : (a : ℕ) (objects : List Obj) → marked a objects ≡ true → IsThere a objects
marked-IsThere a objects m = go (find_object a objects) refl m
  where
    go :
        (x : Option Obj)
        → find_object a objects ≡ x
        → darkness x ≡ true
        → (o : Obj) × (find_object a objects ≡ some o)
    go none e d = ground arith
    go (some o) e d = (o, e)

-- What holds between two rounds: `objects` are the objects before, all of them white.
pub record Tracing (objects : List Obj) (roots : List Pointer) (start : Vm) (vm : Vm) : Type 0 where
  pub shape : whiten_all vm.first ≡ objects
  pub finalized : vm.finalized ≡ start.finalized
  pub same_roots : root_pointers vm ≡ root_pointers start
  pub dangling : vm.dangling ≡ start.dangling
  pub sound : (b : ℕ) → marked b vm.first ≡ true → Reachable objects roots b
  pub grays : (b : ℕ) → In b vm.gray → marked b vm.first ≡ true
  pub rooted : (b : ℕ) → In (some b) roots → marked b vm.first ≡ true
  pub closed :
      (u : ℕ) (o : Obj)
      → find_object u objects ≡ some o
      → marked u vm.first ≡ true
      → In u vm.gray
        ⊎ ((b : ℕ) → In (some b) (pointers o.class_obj o.contents) → marked b vm.first ≡ true)

module _ (objects : List Obj) (roots : List Pointer) where
  -- An object and what stood there before differ in the mark only.
  found_before :
      (a : ℕ) (first : List Obj) (o : Obj)
      → whiten_all first ≡ objects
      → find_object a first ≡ some o
      → find_object a objects ≡ some (whiten o)
  found_before a first o same e =
      ap (find_object a) (sym same) ∙ find_object-whiten_all a first ∙ ap whitened e

  IsThere-white :
      (a : ℕ) (first : List Obj)
      → whiten_all first ≡ objects
      → whiten_all objects ≡ objects
      → IsThere a objects
      → IsThere a first
  IsThere-white a first same white t = whiten_all-IsThere a objects first (same ∙ sym white) t

-- The pointers of the object that has been found.
abbrev held : Option Obj → List Pointer
held none = []
held (some o) = pointers o.class_obj o.contents

module _ (sizes : Sizes) (objects : List Obj) (roots : List Pointer) (start : Vm) where
  -- A round that pops the object `o`.
  traced :
      (vm w : Vm) (a : ℕ) (gray : List ℕ) (o : Obj)
      → whiten_all objects ≡ objects
      → ((b : ℕ) → Reachable objects roots b → IsThere b objects)
      → Tracing objects roots start vm
      → vm.gray ≡ a ∷ gray
      → find_object a vm.first ≡ some o
      → Grown (record vm { gray = gray }) (pointers o.class_obj o.contents) w
      → Tracing objects roots start w
  traced vm w a gray o white there t popped e g =
      let ps = pointers o.class_obj o.contents in
      let dark = t.grays a (rw popped (inl refl)) in
      let before = found_before objects roots a vm.first o t.shape e in
      let reach : (b : ℕ) → In (some b) ps → Reachable objects roots b =
        λ b i. Reachable.field a b (whiten o) (t.sound a dark) before i in
      let here : (b : ℕ) → In (some b) ps → IsThere b vm.first =
        λ b i. IsThere-white objects roots b vm.first t.shape white (there b (reach b i)) in
      record {
        shape = g.shape ∙ t.shape;
        finalized = g.finalized ∙ t.finalized;
        same_roots = g.roots ∙ t.same_roots;
        dangling = g.safe here ∙ t.dangling;
        sound = λ b m. elim (g.fresh b m) [ inl m' ↦ t.sound b m' | inr (i, k) ↦ reach b k ];
        grays = λ b i. elim (g.grayed b i) [
          | inl i' ↦ g.kept b (t.grays b (rw popped (inr i')))
          | inr m ↦ m
        ];
        rooted = λ b i. g.kept b (t.rooted b i);
        closed = λ u o' e' m. elim (g.fresh u m) [
          | inr (i, k) ↦ inl i
          | inl m' ↦ elim (t.closed u o' e' m') [
            | inr all ↦ inr (λ b i. g.kept b (all b i))
            | inl i ↦ elim (rw popped at i) [
              | inr below ↦ inl (g.stays u below)
              | inl same ↦
                  let alike : pointers o'.class_obj o'.contents ≡ ps =
                    ap held (sym e' ∙ ap (λ (x : ℕ). find_object x objects) same ∙ before) in
                  inr (λ b i. let k = rw alike at i in g.reached b k (here b k))
            ]
          ]
        ];
      }

  round_lem :
      (vm : Vm) (a : ℕ) (gray : List ℕ)
      → whiten_all objects ≡ objects
      → ((b : ℕ) → Reachable objects roots b → IsThere b objects)
      → Tracing objects roots start vm
      → vm.gray ≡ a ∷ gray
      → Tracing objects roots start (blacken_popped sizes vm a gray)
        × (whites vm.first + length vm.gray
            ≡ suc (
                whites (blacken_popped sizes vm a gray).first
                + length (blacken_popped sizes vm a gray).gray))
  unfolding blacken_popped blacken_found
  round_lem vm a gray white there t popped =
      let (o, e) = marked-IsThere a vm.first (t.grays a (rw popped (inl refl))) in
      let v = record vm { gray = gray } in
      let w = blacken_contents sizes v o.class_obj o.contents in
      let g =
        Grays-Grown v w (pointers o.class_obj o.contents)
          (blacken_contents-Grays sizes v o.class_obj o.contents) in
      rw (e, blacken_found)
        (traced vm w a gray o white there t popped e g, omega (arith, g.count, ap length popped))

  -- The loop ends where it has fuel for every object that is white or gray.
  pub blacken_objects-Tracing :
      (fuel : ℕ) (vm : Vm)
      → whiten_all objects ≡ objects
      → ((b : ℕ) → Reachable objects roots b → IsThere b objects)
      → Tracing objects roots start vm
      → whites vm.first + length vm.gray < fuel
      → (vm' : Vm) × (blacken_objects sizes fuel vm ≡ some vm')
        × Tracing objects roots start vm'
        × (vm'.gray ≡ [])
  unfolding blacken_objects
  blacken_objects-Tracing zero vm white there t enough = ground arith
  blacken_objects-Tracing (suc fuel) vm white there t enough = elim (List-cases vm.gray) [
    | inl empty ↦ (vm, simp (empty, blacken_objects), t, empty)
    | inr (a, gray, popped) ↦
        let (t', drop) = round_lem vm a gray white there t popped in
        let (vm', run, traced_end, empty) =
          blacken_objects-Tracing fuel (blacken_popped sizes vm a gray) white there t'
            (omega arith) in
        (vm', rw (popped, blacken_objects) run, traced_end, empty)
  ]

module _ (objects : List Obj) (roots : List Pointer) (start : Vm) where
  -- At the end what is marked is what can be reached.
  pub Reachable-marked :
      (vm : Vm)
      → ((b : ℕ) → Reachable objects roots b → IsThere b objects)
      → Tracing objects roots start vm
      → vm.gray ≡ []
      → (b : ℕ) → Reachable objects roots b
      → marked b vm.first ≡ true
  Reachable-marked vm there t empty b (Reachable.root _ i) = t.rooted b i
  Reachable-marked vm there t empty b (Reachable.field a _ o r e i) =
      let m = Reachable-marked vm there t empty a r in
      elim (t.closed a o e m) [ inl k ↦ elim (rw empty at k) [ ] | inr all ↦ all b i ]
