-- ===== src/Tests/Collectors.antt =====
-- The garbage collector on a small heap.
use rust_wren.Base.{
  In, ℕ, ◌≡◌, refl, ap, ◌∙◌, sym, List, [], ◌∷◌, inl, inr, ◌⊎◌, Bool, true, false, ◌&&◌, ◌==◌,
  arith, Bool-cases, Option, none, some,
}
use rust_wren.Value.{num, obj, null_val, undefined}
use rust_wren.Collector.{
  Pointer, block_method, other_method, Contents, class_contents, closure_contents, fiber_contents,
  fn_contents, foreign_contents, instance_contents, map_contents, module_contents, string_contents,
  upvalue_contents, Obj, Vm, Sizes, find_object, darken,
}
use rust_wren.Collector.Mark.Pointers.{with_bytes, pointers, root_pointers}
use rust_wren.Collector.Mark.Grows.{whiten_all}
use rust_wren.Collector.Mark.Grown.{IsThere}
use rust_wren.Collector.Mark.Reach.{Reachable}
use rust_wren.Collector.Collect.{
  gray_roots, is_there, finalize_foreign, free_obj, sweep, sweep_all, collect_garbage,
  reallocate_bytes,
}
use rust_wren.Collector.Mark.{
  gray_found, gray_obj, gray_objs, gray_buffer, blacken_symbol_table, gray_methods, blacken_class,
  blacken_closure, blacken_fiber, blacken_fn, blacken_instance, gray_entries, blacken_map,
  blacken_module, blacken_contents, blacken_found, blacken_popped, blacken_objects, mark_compiler,
}
use rust_wren.Collector.Sweep.{HasClasses}
use rust_wren.Collector.Traced.{IsCollectable}
use rust_wren.Collector.Correct.{
  IsDue, bytes_after, Collected, collect_garbage-Collected, reallocate_bytes-keeps,
}

abbrev sizes : Sizes
sizes = record {
  class_size = 88;
  closure_size = 32;
  fiber_size = 104;
  fn_size = 88;
  instance_size = 24;
  list_size = 40;
  map_size = 40;
  module_size = 64;
  range_size = 48;
  string_size = 32;
  upvalue_size = 48;
  method_size = 16;
  pointer_size = 8;
  frame_size = 24;
  value_size = 8;
  byte_size = 1;
  int_size = 4;
  entry_size = 16;
}

abbrev white : ℕ → Pointer → Contents → Obj
white address class_obj contents = record {
  address = address;
  is_dark = false;
  class_obj = class_obj;
  contents = contents;
}

-- A module with a variable that an instance is in, which refers to itself, a fiber that runs a
-- closure, whose upvalue holds a foreign object, and another foreign object that nothing refers to.
abbrev objects : List Obj
objects =
    white 11 (some 10) foreign_contents
    ∷ white 12 none (fiber_contents (some 6 ∷ []) 4 (obj 3 ∷ num 0 ∷ []) 8 (8 ∷ []) none null_val)
    ∷ white 9 (some 10) foreign_contents
    ∷ white 8 none (upvalue_contents (obj 9))
    ∷ white 7 none (fn_contents (obj 4 ∷ num 1 ∷ []) 4 16)
    ∷ white 6 none (closure_contents (some 7) (some 8 ∷ []))
    ∷ white 5 none
        (class_contents none (other_method ∷ block_method (some 6) ∷ []) 2 (some 4) null_val)
    ∷ white 4 none (string_contents 5)
    ∷ white 3 (some 5) (instance_contents (obj 3 ∷ null_val ∷ []))
    ∷ white 2 none (module_contents (obj 3 ∷ []) (some 4 ∷ []) 2 none)
    ∷ white 1 none (
        map_contents (
          record { key = null_val; value = obj 2 }
          ∷ record { key = undefined; value = obj 99 }
          ∷ []))
    ∷ white 10 none (class_contents none [] 0 none null_val)
    ∷ []

abbrev vm : Vm
vm = record {
  first = objects;
  gray = [];
  gray_capacity = 4;
  bytes_allocated = 1000;
  next_gc = 1000;
  min_heap_size = 100;
  heap_growth_percent = 50;
  modules = some 1;
  temp_roots = [];
  fiber = some 12;
  handles = obj 4 ∷ [];
  compiler = none;
  method_names = some 4 ∷ [];
  method_names_capacity = 2;
  dangling = 0;
  finalized = [];
}

-- Whether an object stands where the pointers lead to.
abbrev all_there : List Obj → List Pointer → Bool
all_there os [] = true
all_there os (none ∷ ps) = all_there os ps
all_there os (some a ∷ ps) = elim (find_object a os) [ none ↦ false | some o ↦ all_there os ps ]

abbrev contents_there : List Obj → List Obj → Bool
contents_there os [] = true
contents_there os (o ∷ rest) =
    all_there os (pointers o.class_obj o.contents) && contents_there os rest

all_there_lem :
    (os : List Obj) (ps : List Pointer) (b : ℕ)
    → all_there os ps ≡ true
    → In (some b) ps
    → IsThere b os
all_there_lem os [] b t i = elim i [ ]
all_there_lem os (none ∷ ps) b t (inl e) = cc
all_there_lem os (none ∷ ps) b t (inr i) = all_there_lem os ps b t i
all_there_lem os (some a ∷ ps) b t i =
    go (find_object a os) refl (λ u k. all_there_lem os ps b u k) i t
  where
    go :
        (x : Option Obj)
        → find_object a os ≡ x
        → (all_there os ps ≡ true → In (some b) ps → IsThere b os)
        → In (some b) (some a ∷ ps)
        → elim x as (λ y. Bool) [ none ↦ false | some o ↦ all_there os ps ] ≡ true
        → IsThere b os
    go none e later i' t' = cc
    go (some o) e later (inl same) t' =
        let w : b ≡ a = ground arith in (o, ap (λ (x : ℕ). find_object x os) w ∙ e)
    go (some o) e later (inr i') t' = later t' i'

abbrev held : Option Obj → List Pointer
held none = []
held (some o) = pointers o.class_obj o.contents

&&-true : {a b : Bool} → (a && b) ≡ true → (a ≡ true) × (b ≡ true)
&&-true {a = true} {b} t = (refl, t)
&&-true {a = false} {b} t = cc

contents_there_lem :
    (os rest : List Obj) (a : ℕ) (o : Obj)
    → contents_there os rest ≡ true
    → find_object a rest ≡ some o
    → all_there os (pointers o.class_obj o.contents) ≡ true
unfolding find_object
contents_there_lem os [] a o t e = cc
contents_there_lem os (x ∷ rest) a o t e = elim (Bool-cases (x.address == a)) [
  | inl u ↦
      let found : some x ≡ some o = rw (u, find_object) at e in
      ap (λ (x' : Option Obj). all_there os (held x')) (sym found) ∙ (&&-true t).0
  | inr u ↦ contents_there_lem os rest a o ((&&-true t).1) (rw (u, find_object) at e)
]

Reachable-IsThere :
    (os : List Obj) (ps : List Pointer)
    → all_there os ps ≡ true
    → contents_there os os ≡ true
    → (b : ℕ) → Reachable os ps b
    → IsThere b os
Reachable-IsThere os ps t u b (Reachable.root _ i) = all_there_lem os ps b t i
Reachable-IsThere os ps t u b (Reachable.field a _ o r e i) =
    all_there_lem os (pointers o.class_obj o.contents) b (contents_there_lem os os a o u e) i

vm-IsCollectable : IsCollectable vm
unfolding find_object whiten_all pointers
vm-IsCollectable = record {
  white = refl;
  no_gray = refl;
  distinct = (
    refl,
    (refl, (refl, (refl, (refl, (refl, (refl, (refl, (refl, (refl, (refl, (refl, tt))))))))))),
  );
  there = Reachable-IsThere objects (root_pointers vm) refl refl;
}

-- The classes of the foreign objects stand behind them.
vm-HasClasses : HasClasses vm.first
unfolding is_there find_object
vm-HasClasses = (
  λ t. refl,
  (
    λ t. cc,
    (
      λ t. refl,
      (
        λ t. cc,
        (λ t. cc, (λ t. cc, (λ t. cc, (λ t. cc, (λ t. cc, (λ t. cc, (λ t. cc, (λ t. cc, tt)))))))),
      ),
    ),
  ),
)

collect_garbage-Collected_example :
    (vm' : Vm) × (collect_garbage sizes vm ≡ some vm') × Collected vm vm'
collect_garbage-Collected_example =
    collect_garbage-Collected sizes vm vm-IsCollectable vm-HasClasses

abbrev larger : ℕ
larger = 16

reallocate_bytes-keeps_example :
    (vm' : Vm) × (reallocate_bytes sizes vm 8 larger ≡ some vm')
    × ((IsDue vm 8 larger × Collected vm vm')
        ⊎ ((¬ IsDue vm 8 larger) × (vm' ≡ with_bytes (bytes_after vm 8 larger) vm)))
    × IsCollectable vm'
reallocate_bytes-keeps_example =
    reallocate_bytes-keeps sizes vm 8 larger vm-IsCollectable vm-HasClasses

abbrev addresses : List Obj → List ℕ
addresses [] = []
addresses (o ∷ os) = o.address ∷ addresses os

abbrev outcome : Option Vm → List ℕ × List ℕ × ℕ × ℕ
outcome none = ([], [], 0, 0)
outcome (some v) = (addresses v.first, v.finalized, v.bytes_allocated, v.next_gc)

-- The upvalue keeps a foreign object, and the class of this object is freed.
foreign_class_freed :
    outcome (collect_garbage sizes vm)
    ≡ (12 ∷ 9 ∷ 8 ∷ 7 ∷ 6 ∷ 5 ∷ 4 ∷ 3 ∷ 2 ∷ 1 ∷ [], 11 ∷ [], 918, 1377)
unfolding find_object darken gray_found gray_obj gray_objs gray_buffer blacken_symbol_table
    gray_methods blacken_class blacken_closure blacken_fiber blacken_fn blacken_instance
    gray_entries blacken_map blacken_module blacken_contents blacken_found blacken_popped
    blacken_objects mark_compiler collect_garbage gray_roots sweep_all sweep free_obj
    finalize_foreign is_there
foreign_class_freed = refl

-- The next collection, after the fiber that runs has dropped what refers to the foreign object, calls
-- `wrenFinalizeForeign` for it, which reads the class that is gone.
abbrev collect_again : Option Vm → Option Vm
collect_again none = none
collect_again (some v) = collect_garbage sizes (record v { modules = none; fiber = none })

abbrev reads : Option Vm → List ℕ × ℕ
reads none = ([], 0)
reads (some v) = (v.finalized, v.dangling)

foreign_class_read : reads (collect_again (collect_garbage sizes vm)) ≡ (9 ∷ 11 ∷ [], 1)
unfolding find_object darken gray_found gray_obj gray_objs gray_buffer blacken_symbol_table
    gray_methods blacken_class blacken_closure blacken_fiber blacken_fn blacken_instance
    gray_entries blacken_map blacken_module blacken_contents blacken_found blacken_popped
    blacken_objects mark_compiler collect_garbage gray_roots sweep_all sweep free_obj
    finalize_foreign is_there
foreign_class_read = refl
