-- ===== src/Collector/Collect.antt =====
-- wren_vm.c, lines 126 to 242, and wren_value.c, lines 1226 to 1285: the collection and the
-- allocation of memory.
use rust_wren.Base.{
  ℕ, suc, ◌+◌, ◌-◌, ◌*◌, ◌/◌, ◌%◌, ◌^◌, List, [], ◌∷◌, ◌++◌, length, Bool, true, false, Option,
  none, some, ltb, ◌&&◌, if◌then◌else◌,
}
use rust_wren.Collector.{Pointer, find_object, Contents, foreign_contents, Obj, Vm, Sizes}
use rust_wren.Collector.Mark.{
  gray_obj, gray_objs, gray_buffer, blacken_symbol_table, mark_compiler, blacken_objects,
}

abbrev pub is_foreign : Contents → Bool
is_foreign foreign_contents = true
is_foreign contents = false

-- What freeing objects adds to: the foreign objects that `wrenFinalizeForeign` has been called for, and
-- the accesses to a pointer at which no object stands.
pub record Freeing : Type 0 where
  pub finalized : List ℕ
  pub dangling : ℕ

abbrev pub is_some : Option Obj → Bool
is_some none = false
is_some (some o) = true

-- Whether an object stands at a pointer.
unfoldable pub is_there : Pointer → List Obj → Bool
is_there none heap = false
is_there (some a) heap = is_some (find_object a heap)

-- `wrenFinalizeForeign`, where `heap` is the objects that have not been freed. It reads the methods of
-- the object's class; the symbol of the finalizer is there since the class has been bound.
unfoldable pub finalize_foreign : List Obj → Freeing → Obj → Freeing
finalize_foreign heap f o = record {
  finalized = o.address ∷ f.finalized;
  dangling = if is_there o.class_obj heap then f.dangling else f.dangling + 1;
}

-- `wrenFreeObj`: the memory that it gives back is not counted.
unfoldable pub free_obj : List Obj → Freeing → Obj → Freeing
free_obj heap f o = if is_foreign o.contents then finalize_foreign heap f o else f

-- The loop of `wrenCollectGarbage` over the list of all objects, of which `kept` have been passed and
-- stay: the objects that stay of the others, and what freeing the rest adds.
unfoldable pub sweep : List Obj → List Obj → Freeing → List Obj × Freeing
sweep kept [] f = ([], f)
sweep kept (o ∷ objects) f = elim o.is_dark [
  | false ↦ sweep kept objects (free_obj (kept ++ o ∷ objects) f o)
  | true ↦
      let rest = sweep (record o { is_dark = false } ∷ kept) objects f in
      (record o { is_dark = false } ∷ rest.0, rest.1)
]

-- `vm->nextGC` after a collection.
abbrev pub next_gc_after : Vm → ℕ
next_gc_after vm =
    let grown = vm.bytes_allocated * vm.heap_growth_percent % 2 ^ 64 / 100 in
    let next = (vm.bytes_allocated + grown) % 2 ^ 64 in
    if ltb next vm.min_heap_size then vm.min_heap_size else next

unfoldable pub sweep_all : Vm → Vm
sweep_all vm =
    let swept = sweep [] vm.first (record { finalized = vm.finalized; dangling = vm.dangling }) in
    record vm {
      first = swept.0;
      finalized = swept.1.finalized;
      dangling = swept.1.dangling;
      next_gc = next_gc_after vm;
    }

module _ (sizes : Sizes) where
  -- What `wrenCollectGarbage` grays before it blackens.
  unfoldable pub gray_roots : Vm → Vm
  gray_roots vm =
      let vm₁ = gray_obj (record vm { bytes_allocated = 0 }) vm.modules in
      let vm₂ = gray_obj (gray_objs vm₁ vm.temp_roots) vm.fiber in
      let vm₃ = gray_buffer vm₂ vm.handles in
      let vm₄ = mark_compiler sizes vm₃ vm.compiler in
      blacken_symbol_table sizes vm₄ vm.method_names vm.method_names_capacity

  -- `wrenCollectGarbage`, with fuel for each object; `none` is the end of the fuel.
  unfoldable pub collect_garbage : Vm → Option Vm
  collect_garbage vm = elim (blacken_objects sizes (suc (length vm.first)) (gray_roots vm)) [
    | none ↦ none
    | some vm' ↦ some (sweep_all vm')
  ]

  -- `wrenReallocate`, as far as it counts memory and collects.
  unfoldable pub reallocate_bytes : Vm → ℕ → ℕ → Option Vm
  reallocate_bytes vm old_size new_size =
      let vm' = record vm {
        bytes_allocated = (vm.bytes_allocated + new_size + 2 ^ 64 - old_size % 2 ^ 64) % 2 ^ 64;
      } in
      if ltb 0 new_size && ltb vm'.next_gc vm'.bytes_allocated
      then collect_garbage vm'
      else some vm'
