-- ===== src/Collector/Traced.antt =====
-- wren_vm.c, lines 145 to 175: from the roots on, the blackening ends.
use rust_wren.Base.{
  In, ℕ, suc, ◌+◌, ◌<◌, ◌≤◌, ◌≡◌, refl, ap, ◌∙◌, sym, List, [], ◌∷◌, inl, inr, length, false, arith,
  Bool-cases, Option, none, some,
}
use rust_wren.Collector.{Obj, Vm, Sizes, find_object}
use rust_wren.Collector.Mark.{blacken_objects}
use rust_wren.Collector.Mark.Pointers.{root_pointers, with_bytes}
use rust_wren.Collector.Mark.Blackens.{gray_roots-Grays}
use rust_wren.Collector.Mark.Grows.{
  whiten_all, whitened, darkness, marked, whites, find_object-whiten_all,
}
use rust_wren.Collector.Mark.Grown.{Grown, IsThere}
use rust_wren.Collector.Mark.Reach.{Reachable, Tracing, Grays-Grown, blacken_objects-Tracing}
use rust_wren.Collector.Collect.{gray_roots}
use rust_wren.Collector.Sweep.{IsDistinct}

-- The address can be reached from what the collector starts with.
abbrev pub IsReachable : Vm → ℕ → Type 0
IsReachable vm a = Reachable vm.first (root_pointers vm) a

-- Between two collections no object is marked, the gray stack is empty, no two objects stand at one
-- address, and an object stands where a pointer that the collector follows leads to.
pub record IsCollectable (vm : Vm) : Type 0 where
  pub white : whiten_all vm.first ≡ vm.first
  pub no_gray : vm.gray ≡ []
  pub distinct : IsDistinct vm.first
  pub there : (b : ℕ) → IsReachable vm b → IsThere b vm.first

whites-le : (objects : List Obj) → whites objects ≤ length objects
unfolding whites
whites-le [] = omega arith
whites-le (o ∷ objects) = elim (Bool-cases o.is_dark) [
  | inl t ↦ rw (t, whites) (omega (arith, whites-le objects))
  | inr t ↦ rw (t, whites) (omega (arith, whites-le objects))
]

white-unmarked :
    (a : ℕ) (objects : List Obj) → whiten_all objects ≡ objects → marked a objects ≡ false
white-unmarked a objects white =
    ap (λ (r : List Obj). marked a r) (sym white)
    ∙ ap darkness (find_object-whiten_all a objects)
    ∙ go (find_object a objects)
  where
    go : (x : Option Obj) → darkness (whitened x) ≡ false
    go none = refl
    go (some o) = refl

module _ (sizes : Sizes) (vm : Vm) where
  -- After the roots have been grayed.
  gray_roots-Tracing :
      IsCollectable vm
      → Tracing vm.first (root_pointers vm) vm (gray_roots sizes vm)
        × (whites (gray_roots sizes vm).first + length (gray_roots sizes vm).gray
            < suc (length vm.first))
  gray_roots-Tracing h =
      let v = gray_roots sizes vm in
      let roots = root_pointers vm in
      let g : Grown (with_bytes 0 vm) roots v =
        Grays-Grown (with_bytes 0 vm) v roots (gray_roots-Grays sizes vm) in
      let unmarked : (b : ℕ) → marked b vm.first ≡ false = λ b. white-unmarked b vm.first h.white in
      let here : (b : ℕ) → In (some b) roots → IsThere b vm.first =
        λ b i. h.there b (Reachable.root b i) in
      (
        record {
          shape = g.shape ∙ h.white;
          finalized = g.finalized;
          same_roots = g.roots;
          dangling = g.safe here;
          sound = λ b m. elim (g.fresh b m) [
            | inl m' ↦ cc (m', unmarked b)
            | inr (i, k) ↦ Reachable.root b k
          ];
          grays = λ b i. elim (g.grayed b i) [ inl k ↦ elim (rw h.no_gray at k) [ ] | inr m ↦ m ];
          rooted = λ b i. g.reached b i (here b i);
          closed =
              λ u o e m. elim (g.fresh u m) [ inl m' ↦ cc (m', unmarked u) | inr (i, k) ↦ inl i ];
        },
        omega (arith, g.count, ap length h.no_gray, whites-le vm.first),
      )

  -- The blackening ends, with the reachable objects marked.
  pub marks :
      IsCollectable vm
      → (vm' : Vm) × (blacken_objects sizes (suc (length vm.first)) (gray_roots sizes vm)
          ≡ some vm')
        × Tracing vm.first (root_pointers vm) vm vm'
        × (vm'.gray ≡ [])
  marks h =
      let (t, enough) = gray_roots-Tracing h in
      blacken_objects-Tracing sizes vm.first (root_pointers vm) vm (suc (length vm.first))
        (gray_roots sizes vm) h.white h.there t enough
