-- ===== src/Collector/Mark/Grown.antt =====
-- wren_value.c, lines 976 to 1011: what a loop that grays pointers keeps, and what it adds.
use rust_wren.Base.{
  In, ℕ, ◌+◌, ◌≡◌, refl, ap, ◌∙◌, sym, List, [], ◌∷◌, ◌⊎◌, inl, inr, length, true, false, ◌==◌,
  arith, Bool-cases, Option, none, some,
}
use rust_wren.Collector.{Pointer, Obj, Vm, find_object, darken}
use rust_wren.Collector.Mark.{gray_found, gray_obj, gray_objs, push_gray}
use rust_wren.Collector.Mark.Pointers.{root_pointers}
use rust_wren.Collector.Mark.Grows.{
  whiten, whiten_all, darkness, whitened, marked, whites, find_object-whiten_all, whiten_all-darken,
  find_object-darken_self, find_object-darken_other, whites-darken,
}

abbrev pub IsThere : ℕ → List Obj → Type 0
IsThere a objects = (o : Obj) × (find_object a objects ≡ some o)

-- Two lists that differ in marks only have the same addresses.
pub whiten_all-IsThere :
    (a : ℕ) (objects objects' : List Obj)
    → whiten_all objects' ≡ whiten_all objects
    → IsThere a objects
    → IsThere a objects'
whiten_all-IsThere a objects objects' same (o, e) =
    let found : whitened (find_object a objects') ≡ some (whiten o) =
      sym (find_object-whiten_all a objects')
      ∙ ap (find_object a) same
      ∙ find_object-whiten_all a objects
      ∙ ap whitened e in
    go (find_object a objects') found
  where
    go : (x : Option Obj) → whitened x ≡ some (whiten o) → (o' : Obj) × (x ≡ some o')
    go none w = cc
    go (some o') w = (o', refl)

pub record Grown (vm : Vm) (ps : List Pointer) (vm' : Vm) : Type 0 where
  pub shape : whiten_all vm'.first ≡ whiten_all vm.first
  pub finalized : vm'.finalized ≡ vm.finalized
  pub roots : root_pointers vm' ≡ root_pointers vm
  pub kept : (b : ℕ) → marked b vm.first ≡ true → marked b vm'.first ≡ true
  pub fresh :
      (b : ℕ)
      → marked b vm'.first ≡ true
      → (marked b vm.first ≡ true) ⊎ (In b vm'.gray × In (some b) ps)
  pub stays : (b : ℕ) → In b vm.gray → In b vm'.gray
  pub grayed : (b : ℕ) → In b vm'.gray → In b vm.gray ⊎ (marked b vm'.first ≡ true)
  pub reached : (b : ℕ) → In (some b) ps → IsThere b vm.first → marked b vm'.first ≡ true
  pub count : whites vm'.first + length vm'.gray ≡ whites vm.first + length vm.gray
  pub safe : ((b : ℕ) → In (some b) ps → IsThere b vm.first) → vm'.dangling ≡ vm.dangling

Grown-same : (vm : Vm) → Grown vm [] vm
Grown-same vm = record {
  shape = refl;
  finalized = refl;
  roots = refl;
  kept = λ b m. m;
  fresh = λ b m. inl m;
  stays = λ b i. i;
  grayed = λ b i. inl i;
  reached = λ b i t. ground arith;
  count = refl;
  safe = λ h. refl;
}

Grown-cons :
    (vm vm' vm'' : Vm) (p : Pointer) (ps : List Pointer)
    → Grown vm (p ∷ []) vm'
    → Grown vm' ps vm''
    → Grown vm (p ∷ ps) vm''
Grown-cons vm vm' vm'' p ps g h = record {
  shape = h.shape ∙ g.shape;
  finalized = h.finalized ∙ g.finalized;
  roots = h.roots ∙ g.roots;
  kept = λ b m. h.kept b (g.kept b m);
  fresh = λ b m. elim (h.fresh b m) [
    | inr (i, k) ↦ inr (i, inr k)
    | inl m' ↦ elim (g.fresh b m') [
      | inl m'' ↦ inl m''
      | inr (i, k) ↦
          inr (h.stays b i, elim k [ inl e ↦ inl e | inr none_left ↦ inr (elim none_left [ ]) ])
    ]
  ];
  stays = λ b i. h.stays b (g.stays b i);
  grayed = λ b i. elim (h.grayed b i) [
    | inr m ↦ inr m
    | inl i' ↦ elim (g.grayed b i') [ inl i'' ↦ inl i'' | inr m ↦ inr (h.kept b m) ]
  ];
  reached = λ b i t. elim i [
    | inl e ↦ h.kept b (g.reached b (inl e) t)
    | inr k ↦ h.reached b k (whiten_all-IsThere b vm.first vm'.first g.shape t)
  ];
  count = h.count ∙ g.count;
  safe = λ there.
      let here : (b : ℕ) → In (some b) ps → IsThere b vm'.first =
        λ b i. whiten_all-IsThere b vm.first vm'.first g.shape (there b (inr i)) in
      let here₁ : (b : ℕ) → In (some b) (p ∷ []) → IsThere b vm.first =
        λ b i. there b (elim i [ inl e ↦ inl e | inr none_left ↦ elim none_left [ ] ]) in
      h.safe here ∙ g.safe here₁;
}

the_one : (a b : ℕ) → In (some b) (some a ∷ []) → b ≡ a
the_one a b (inl e) = ground arith
the_one a b (inr none_left) = elim none_left [ ]

-- The marks after an object has been darkened.
marked-darken_self :
    (a : ℕ) (objects : List Obj) (o : Obj)
    → find_object a objects ≡ some o
    → marked a (darken a objects) ≡ true
marked-darken_self a objects o e = rw (find_object-darken_self a objects, e) refl

marked-darken :
    (a b : ℕ) (objects : List Obj) → (b ≡ a) ⊎ (marked b (darken a objects) ≡ marked b objects)
marked-darken a b objects = elim (Bool-cases (b == a)) [
  | inl t ↦ inl (ground arith)
  | inr t ↦ inr (ap darkness (find_object-darken_other a b objects (ground arith)))
]

-- An object that is not there, is dark already, or is white.
Grown-absent :
    (vm : Vm) (a : ℕ)
    → find_object a vm.first ≡ none
    → Grown vm (some a ∷ []) (record vm { dangling = vm.dangling + 1 })
Grown-absent vm a e = record {
  shape = refl;
  finalized = refl;
  roots = refl;
  kept = λ b m. m;
  fresh = λ b m. inl m;
  stays = λ b i. i;
  grayed = λ b i. inl i;
  reached = λ b i t. let (o, f) = t in cc (e, f, the_one a b i);
  count = refl;
  safe = λ there. let (o, f) = there a (inl refl) in cc (e, f);
}

Grown-dark :
    (vm : Vm) (a : ℕ) (o : Obj)
    → find_object a vm.first ≡ some o
    → o.is_dark ≡ true
    → Grown vm (some a ∷ []) vm
Grown-dark vm a o e d = record {
  shape = refl;
  finalized = refl;
  roots = refl;
  kept = λ b m. m;
  fresh = λ b m. inl m;
  stays = λ b i. i;
  grayed = λ b i. inl i;
  reached = λ b i t. rw (the_one a b i, e) d;
  count = refl;
  safe = λ there. refl;
}

Grown-white :
    (vm : Vm) (a : ℕ) (o : Obj)
    → find_object a vm.first ≡ some o
    → o.is_dark ≡ false
    → Grown vm (some a ∷ []) (push_gray (record vm { first = darken a vm.first }) a)
Grown-white vm a o e d = record {
  shape = whiten_all-darken a vm.first;
  finalized = refl;
  roots = refl;
  kept = λ b m. elim (marked-darken a b vm.first) [
    | inl same ↦ rw same (marked-darken_self a vm.first o e)
    | inr other ↦ other ∙ m
  ];
  fresh = λ b m. elim (marked-darken a b vm.first) [
    | inl same ↦ inr (inl same, inl (ap some same))
    | inr other ↦ inl (sym other ∙ m)
  ];
  stays = λ b i. inr i;
  grayed = λ b i. elim i [
    | inl same ↦ inr (rw same (marked-darken_self a vm.first o e))
    | inr below ↦ inl below
  ];
  reached = λ b i t. rw (the_one a b i) (marked-darken_self a vm.first o e);
  count = omega (arith, whites-darken a vm.first o e d);
  safe = λ there. refl;
}

gray_found-Grown :
    (vm : Vm) (a : ℕ) (x : Option Obj)
    → find_object a vm.first ≡ x
    → Grown vm (some a ∷ []) (gray_found vm a x)
unfolding gray_found
gray_found-Grown vm a none e = Grown-absent vm a e
gray_found-Grown vm a (some o) e = elim (Bool-cases o.is_dark) [
  | inl t ↦ rw (t, gray_found) (Grown-dark vm a o e t)
  | inr t ↦ rw (t, gray_found) (Grown-white vm a o e t)
]

gray_obj-Grown : (vm : Vm) (p : Pointer) → Grown vm (p ∷ []) (gray_obj vm p)
unfolding gray_obj
gray_obj-Grown vm none = record {
  shape = refl;
  finalized = refl;
  roots = refl;
  kept = λ b m. m;
  fresh = λ b m. inl m;
  stays = λ b i. i;
  grayed = λ b i. inl i;
  reached = λ b i t. elim i [ inl e ↦ ground arith | inr k ↦ elim k [ ] ];
  count = refl;
  safe = λ h. refl;
}
gray_obj-Grown vm (some a) = gray_found-Grown vm a (find_object a vm.first) refl

pub gray_objs-Grown : (vm : Vm) (ps : List Pointer) → Grown vm ps (gray_objs vm ps)
unfolding gray_objs
gray_objs-Grown vm [] = Grown-same vm
gray_objs-Grown vm (p ∷ ps) =
    Grown-cons vm (gray_obj vm p) (gray_objs (gray_obj vm p) ps) p ps (gray_obj-Grown vm p)
      (gray_objs-Grown (gray_obj vm p) ps)
