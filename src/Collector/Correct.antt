-- ===== src/Collector/Correct.antt =====
-- wren_vm.c, lines 126 to 242: a collection frees what cannot be reached, and nothing else.
use rust_wren.Base.{
  In, ltb, ◌&&◌, ◌-◌, ◌%◌, ◌^◌, ℕ, ◌+◌, ◌<◌, ◌≡◌, ◌↔◌, refl, ap, ◌∙◌, sym, List, [], ◌⊎◌, inl, inr,
  Bool, true, false, arith, Bool-cases, Option, none, some,
}
use rust_wren.Collector.{Obj, Vm, Sizes, find_object}
use rust_wren.Collector.Mark.Pointers.{root_pointers, with_bytes}
use rust_wren.Collector.Mark.Grows.{whiten, whitened, darkness, marked, find_object-whiten_all}
use rust_wren.Collector.Mark.Reach.{Reachable, Tracing, Reachable-marked}
use rust_wren.Collector.Collect.{Freeing, is_foreign, sweep_all, collect_garbage, reallocate_bytes}
use rust_wren.Collector.Traced.{IsReachable, IsCollectable, marks}
use rust_wren.Collector.Sweep.{
  IsDistinct, IsFreed, survivor, find_object-sweep, sweep-white, sweep-IsDistinct, sweep-finalized,
  whiten_all-IsDistinct, HasClasses, sweep-dangling, whiten_all-HasClasses,
}

-- A foreign object stands at the address.
abbrev pub IsForeignAt : ℕ → List Obj → Type 0
IsForeignAt b objects =
    (o : Obj) × (find_object b objects ≡ some o) × (is_foreign o.contents ≡ true)

-- What a collection promises: the objects that can be reached stay as they are, the other ones are
-- gone, the foreign ones among them are finalized, and no pointer without an object is followed.
pub record Collected (vm vm' : Vm) : Type 0 where
  pub keeps : (b : ℕ) → IsReachable vm b → find_object b vm'.first ≡ find_object b vm.first
  pub frees : (b : ℕ) → ¬ IsReachable vm b → find_object b vm'.first ≡ none
  pub finalizes :
      (b : ℕ)
      → In b vm'.finalized ↔ (In b vm.finalized ⊎ ((¬ IsReachable vm b) × IsForeignAt b vm.first))
  pub roots : root_pointers vm' ≡ root_pointers vm
  pub dangling : vm'.dangling ≡ vm.dangling
  pub next : IsCollectable vm'

In-subst : {A : Type 0} (x : A) (xs ys : List A) → xs ≡ ys → In x xs → In x ys
In-subst x xs ys e i = rw⁻¹ e i

survivor-marked : (x : Option Obj) → darkness x ≡ true → survivor x ≡ whitened x
survivor-marked none d = refl
survivor-marked (some o) d = rw (d, survivor) refl

survivor-unmarked : (x : Option Obj) → darkness x ≡ false → survivor x ≡ none
survivor-unmarked none d = refl
survivor-unmarked (some o) d = rw (d, survivor) refl

module _ (vm vm₁ : Vm) (h : IsCollectable vm) (t : Tracing vm.first (root_pointers vm) vm vm₁)
    (empty : vm₁.gray ≡ []) where
  abbrev freeing : Freeing
  freeing = record { finalized = vm₁.finalized; dangling = vm₁.dangling }

  before : (b : ℕ) → find_object b vm.first ≡ whitened (find_object b vm₁.first)
  before b = ap (find_object b) (sym t.shape) ∙ find_object-whiten_all b vm₁.first

  distinct : IsDistinct vm₁.first
  distinct = whiten_all-IsDistinct vm₁.first (rw t.shape h.distinct)

  swept : (b : ℕ) → find_object b (sweep_all vm₁).first ≡ survivor (find_object b vm₁.first)
  unfolding sweep_all
  swept b = find_object-sweep b [] vm₁.first freeing distinct

  dark : (b : ℕ) → IsReachable vm b → marked b vm₁.first ≡ true
  dark b r = Reachable-marked vm.first (root_pointers vm) vm vm₁ h.there t empty b r

  unmarked : (b : ℕ) → ¬ IsReachable vm b → marked b vm₁.first ≡ false
  unmarked b far = elim (Bool-cases (marked b vm₁.first)) [
    | inl m ↦ elim (far (t.sound b m)) [ ]
    | inr m ↦ m
  ]

  kept_lem :
      (b : ℕ) → IsReachable vm b → find_object b (sweep_all vm₁).first ≡ find_object b vm.first
  kept_lem b r = swept b ∙ survivor-marked (find_object b vm₁.first) (dark b r) ∙ sym (before b)

  freed_lem : (b : ℕ) → ¬ IsReachable vm b → find_object b (sweep_all vm₁).first ≡ none
  freed_lem b far = swept b ∙ survivor-unmarked (find_object b vm₁.first) (unmarked b far)

  foreign_before : (b : ℕ) → IsFreed b vm₁.first → (¬ IsReachable vm b) × IsForeignAt b vm.first
  foreign_before b (o, e, u, f) =
      (λ r. cc (dark b r, ap darkness e, u), (whiten o, before b ∙ ap whitened e, f))

  foreign_after : (b : ℕ) → (¬ IsReachable vm b) × IsForeignAt b vm.first → IsFreed b vm₁.first
  foreign_after b (far, (o, e, f)) = go (find_object b vm₁.first) refl
    where
      foreign_found : Option Obj → Bool
      foreign_found none = false
      foreign_found (some x) = is_foreign x.contents

      go : (x : Option Obj) → find_object b vm₁.first ≡ x → IsFreed b vm₁.first
      go none e' = cc (before b, e, e')
      go (some o') e' =
          let same : some o ≡ some (whiten o') = sym e ∙ before b ∙ ap whitened e' in
          (o', e', sym (ap darkness e') ∙ unmarked b far, sym (ap foreign_found same) ∙ f)

  freed-finalized :
      (b : ℕ)
      → In b (sweep_all vm₁).finalized
        ↔ (In b vm.finalized ⊎ ((¬ IsReachable vm b) × IsForeignAt b vm.first))
  unfolding sweep_all
  freed-finalized b =
      let s = sweep-finalized b [] vm₁.first freeing distinct in
      (
        λ i. elim (s.0 i) [
          | inl k ↦ inl (rw t.finalized at k)
          | inr freed ↦ inr (foreign_before b freed)
        ],
        λ i. s.1 (elim i [ inl k ↦ inl (rw t.finalized k) | inr far ↦ inr (foreign_after b far) ]),
      )

  -- What can be reached afterwards could be reached before.
  IsReachable-before : (b : ℕ) → IsReachable (sweep_all vm₁) b → IsReachable vm b
  unfolding sweep_all
  IsReachable-before b (Reachable.root _ i) =
      Reachable.root b
        (In-subst (some b) (root_pointers (sweep_all vm₁)) (root_pointers vm) t.same_roots i)
  IsReachable-before b (Reachable.field a _ o r e i) =
      let r' = IsReachable-before a r in Reachable.field a b o r' (sym (kept_lem a r') ∙ e) i

  sweep_all-IsCollectable : IsCollectable (sweep_all vm₁)
  unfolding sweep_all
  sweep_all-IsCollectable = record {
    white = sweep-white [] vm₁.first freeing;
    no_gray = empty;
    distinct = sweep-IsDistinct [] vm₁.first freeing distinct;
    there = λ b r.
        let r' = IsReachable-before b r in let (o, e) = h.there b r' in (o, kept_lem b r' ∙ e);
  }

  sweep_all-Collected : HasClasses vm.first → Collected vm (sweep_all vm₁)
  unfolding sweep_all
  sweep_all-Collected classes = record {
    keeps = kept_lem;
    frees = freed_lem;
    finalizes = freed-finalized;
    roots = t.same_roots;
    dangling =
        sweep-dangling [] vm₁.first freeing (whiten_all-HasClasses vm₁.first (rw t.shape classes))
        ∙ t.dangling;
    next = sweep_all-IsCollectable;
  }

-- A collection ends within a round for each object. It keeps every object that can be reached as it
-- was, frees the other ones, calls wrenFinalizeForeign for the foreign objects among these and for no
-- other object, keeps the roots, and follows no pointer to a place without an object, neither while it
-- marks nor to the class of an object that it finalizes. Afterwards, as before, no object is marked,
-- the gray stack is empty, no two objects stand at one address, and an object stands at every address
-- that can be reached. Before the collection the class of each foreign object stands further on in
-- the list of all objects; the collection does not follow the pointer to it, so this need not hold
-- afterwards.
pub collect_garbage-Collected :
    (sizes : Sizes) (vm : Vm)
    → IsCollectable vm
    → HasClasses vm.first
    → (vm' : Vm) × (collect_garbage sizes vm ≡ some vm') × Collected vm vm'
unfolding collect_garbage
collect_garbage-Collected sizes vm h classes =
    let (vm₁, run, t, empty) = marks sizes vm h in
    (sweep_all vm₁, simp (run, collect_garbage), sweep_all-Collected vm vm₁ h t empty classes)

-- The bytes that count as allocated after a call of `wrenReallocate`, of a `size_t`.
abbrev pub bytes_after : Vm → ℕ → ℕ → ℕ
bytes_after vm old_size new_size =
    (vm.bytes_allocated + new_size + 2 ^ 64 - old_size % 2 ^ 64) % 2 ^ 64

-- More memory is asked for than is allowed before the next collection.
abbrev pub IsDue : Vm → ℕ → ℕ → Type 0
IsDue vm old_size new_size = (0 < new_size) × (vm.next_gc < bytes_after vm old_size new_size)

&&-ltb : (new limit n : ℕ) → (ltb 0 new && ltb limit n) ≡ true → (0 < new) × (limit < n)
&&-ltb new limit n t = ground arith

ltb-not_both : (new limit n : ℕ) → (ltb 0 new && ltb limit n) ≡ false → ¬ ((0 < new) × (limit < n))
ltb-not_both new limit n t (a, b) = ground arith

-- Allocating, growing, shrinking or freeing memory ends. Where memory is asked for and the bytes that
-- count as allocated, modulo 2 ^ 64, then exceed the limit for the next collection, it is a collection,
-- with all that a collection promises: it keeps the objects that can be reached and frees the other
-- ones. Otherwise, and so always where memory is freed, only the bytes change. Afterwards the heap is
-- ready for the next collection, but for the classes of foreign objects, if it was ready before and
-- the class of each foreign object stood further on in the list of all objects.
pub reallocate_bytes-keeps :
    (sizes : Sizes) (vm : Vm) (old_size new_size : ℕ)
    → IsCollectable vm
    → HasClasses vm.first
    → (vm' : Vm) × (reallocate_bytes sizes vm old_size new_size ≡ some vm')
      × ((IsDue vm old_size new_size × Collected vm vm')
          ⊎ ((¬ IsDue vm old_size new_size)
              × (vm' ≡ with_bytes (bytes_after vm old_size new_size) vm)))
      × IsCollectable vm'
unfolding reallocate_bytes
reallocate_bytes-keeps sizes vm old_size new_size h classes =
    let n = bytes_after vm old_size new_size in
    let vm₁ = with_bytes n vm in
    let h₁ : IsCollectable vm₁ = record {
      white = h.white;
      no_gray = h.no_gray;
      distinct = h.distinct;
      there = h.there;
    } in
    elim (Bool-cases (ltb 0 new_size && ltb vm.next_gc n)) [
      | inl t ↦
          let (vm', run, c) = collect_garbage-Collected sizes vm₁ h₁ classes in
          let c' : Collected vm vm' = record {
            keeps = c.keeps;
            frees = c.frees;
            finalizes = c.finalizes;
            roots = c.roots;
            dangling = c.dangling;
            next = c.next;
          } in
          (vm', rw (t, reallocate_bytes) run, inl (&&-ltb new_size vm.next_gc n t, c'), c.next)
      | inr t ↦
          (vm₁, rw (t, reallocate_bytes) refl, inr (ltb-not_both new_size vm.next_gc n t, refl), h₁)
    ]
