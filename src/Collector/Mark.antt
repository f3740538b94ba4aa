-- ===== src/Collector/Mark.antt =====
-- wren_value.c, lines 976 to 1224, wren_utils.c, lines 56 to 65, and wren_compiler.c, lines 3900 to
-- 3931: graying and blackening.
pub mod Pointers
pub mod Blackens
pub mod Grows
pub mod Grown
pub mod Reach
use rust_wren.Base.{
  ℕ, zero, suc, ◌+◌, ◌*◌, ◌%◌, ◌^◌, List, [], ◌∷◌, length, map, Bool, true, false, Option, none,
  some, leb, if◌then◌else◌,
}
use rust_wren.Value.{Value, is_undefined}
use rust_wren.Map.{Entry}
use rust_wren.Collector.{
  Pointer, Method, block_method, other_method, Contents, class_contents, closure_contents,
  fiber_contents, fn_contents, foreign_contents, instance_contents, list_contents, map_contents,
  module_contents, range_contents, string_contents, upvalue_contents, Obj, ClassInfo, CompilerRoots,
  Compiling, Vm, Sizes, find_object, darken, pointer_of,
}

-- The gray stack grows where it is full.
abbrev pub push_gray : Vm → ℕ → Vm
push_gray vm a = record vm {
  gray = a ∷ vm.gray;
  gray_capacity =
      if leb vm.gray_capacity (length vm.gray) then length vm.gray * 2 else vm.gray_capacity;
}

-- The object at an address, if there is one, is grayed unless it is dark.
unfoldable pub gray_found : Vm → ℕ → Option Obj → Vm
gray_found vm a none = record vm { dangling = vm.dangling + 1 }
gray_found vm a (some o) = elim o.is_dark [
  | true ↦ vm
  | false ↦ push_gray (record vm { first = darken a vm.first }) a
]

-- `wrenGrayObj`.
unfoldable pub gray_obj : Vm → Pointer → Vm
gray_obj vm none = vm
gray_obj vm (some a) = gray_found vm a (find_object a vm.first)

-- `wrenGrayValue`.
abbrev pub gray_value : Vm → Value → Vm
gray_value vm v = gray_obj vm (pointer_of v)

-- A loop that grays pointers, and `wrenGrayBuffer`.
unfoldable pub gray_objs : Vm → List Pointer → Vm
gray_objs vm [] = vm
gray_objs vm (p ∷ pointers) = gray_objs (gray_obj vm p) pointers

unfoldable pub gray_buffer : Vm → List Value → Vm
gray_buffer vm [] = vm
gray_buffer vm (v ∷ values) = gray_buffer (gray_value vm v) values

-- `vm->bytesAllocated += n`, of a `size_t`.
abbrev pub add_bytes : ℕ → Vm → Vm
add_bytes n vm = record vm { bytes_allocated = (vm.bytes_allocated + n) % 2 ^ 64 }

module _ (sizes : Sizes) where
  -- `wrenBlackenSymbolTable`.
  unfoldable pub blacken_symbol_table : Vm → List Pointer → ℕ → Vm
  blacken_symbol_table vm names capacity =
      add_bytes (capacity * sizes.pointer_size) (gray_objs vm names)

  -- The loop of `blackenClass` over the methods.
  unfoldable pub gray_methods : Vm → List Method → Vm
  gray_methods vm [] = vm
  gray_methods vm (block_method closure ∷ methods) = gray_methods (gray_obj vm closure) methods
  gray_methods vm (other_method ∷ methods) = gray_methods vm methods

  -- `blackenClass`.
  unfoldable pub blacken_class : Vm → Pointer → Pointer → List Method → ℕ → Pointer → Value → Vm
  blacken_class vm metaclass superclass methods methods_capacity name attributes =
      let vm₁ = gray_obj (gray_obj vm metaclass) superclass in
      let vm₂ = gray_obj (gray_methods vm₁ methods) name in
      let vm₃ = gray_value vm₂ attributes in
      add_bytes (methods_capacity * sizes.method_size) (add_bytes sizes.class_size vm₃)

  -- `blackenClosure`.
  unfoldable pub blacken_closure : Vm → Pointer → List Pointer → Vm
  blacken_closure vm fn upvalues =
      add_bytes (sizes.pointer_size * length upvalues)
        (add_bytes sizes.closure_size (gray_objs (gray_obj vm fn) upvalues))

  -- `blackenFiber`.
  unfoldable pub blacken_fiber :
      Vm → List Pointer → ℕ → List Value → ℕ → List ℕ → Pointer → Value → Vm
  blacken_fiber vm frames frame_capacity stack stack_capacity open_upvalues caller error =
      let vm₁ = gray_buffer (gray_objs vm frames) stack in
      let vm₂ = gray_objs vm₁ (map some open_upvalues) in
      let vm₃ = gray_value (gray_obj vm₂ caller) error in
      add_bytes (stack_capacity * sizes.value_size)
        (add_bytes (frame_capacity * sizes.frame_size) (add_bytes sizes.fiber_size vm₃))

  -- `blackenFn`.
  unfoldable pub blacken_fn : Vm → List Value → ℕ → ℕ → Vm
  blacken_fn vm constants constants_capacity code_capacity =
      add_bytes (sizes.int_size * code_capacity) (
        add_bytes (sizes.value_size * constants_capacity) (
          add_bytes (sizes.byte_size * code_capacity)
            (add_bytes sizes.fn_size (gray_buffer vm constants))))

  -- `blackenInstance`.
  unfoldable pub blacken_instance : Vm → Pointer → List Value → Vm
  blacken_instance vm class_obj fields =
      add_bytes (sizes.value_size * length fields)
        (add_bytes sizes.instance_size (gray_buffer (gray_obj vm class_obj) fields))

  -- `blackenList`.
  unfoldable pub blacken_list : Vm → List Value → ℕ → Vm
  blacken_list vm elements elements_capacity =
      add_bytes (sizes.value_size * elements_capacity)
        (add_bytes sizes.list_size (gray_buffer vm elements))

  -- The loop of `blackenMap`.
  unfoldable pub gray_entries : Vm → List Entry → Vm
  gray_entries vm [] = vm
  gray_entries vm (e ∷ entries) = elim (is_undefined e.key) [
    | true ↦ gray_entries vm entries
    | false ↦ gray_entries (gray_value (gray_value vm e.key) e.value) entries
  ]

  -- `blackenMap`.
  unfoldable pub blacken_map : Vm → List Entry → Vm
  blacken_map vm entries =
      add_bytes (sizes.entry_size * length entries)
        (add_bytes sizes.map_size (gray_entries vm entries))

  -- `blackenModule`.
  unfoldable pub blacken_module : Vm → List Value → List Pointer → ℕ → Pointer → Vm
  blacken_module vm variables variable_names names_capacity name =
      let vm₁ = blacken_symbol_table (gray_buffer vm variables) variable_names names_capacity in
      add_bytes sizes.module_size (gray_obj vm₁ name)

  -- `blackenObject`, with `blackenForeign`, `blackenRange`, `blackenString` and `blackenUpvalue`.
  unfoldable pub blacken_contents : Vm → Pointer → Contents → Vm
  blacken_contents vm class_obj
        (class_contents superclass methods methods_capacity name attributes) =
      blacken_class vm class_obj superclass methods methods_capacity name attributes
  blacken_contents vm class_obj (closure_contents fn upvalues) = blacken_closure vm fn upvalues
  blacken_contents vm class_obj
        (fiber_contents frames frame_capacity stack stack_capacity open_upvalues caller error) =
      blacken_fiber vm frames frame_capacity stack stack_capacity open_upvalues caller error
  blacken_contents vm class_obj (fn_contents constants constants_capacity code_capacity) =
      blacken_fn vm constants constants_capacity code_capacity
  blacken_contents vm class_obj foreign_contents = vm
  blacken_contents vm class_obj (instance_contents fields) = blacken_instance vm class_obj fields
  blacken_contents vm class_obj (list_contents elements elements_capacity) =
      blacken_list vm elements elements_capacity
  blacken_contents vm class_obj (map_contents entries) = blacken_map vm entries
  blacken_contents vm class_obj (module_contents variables variable_names names_capacity name) =
      blacken_module vm variables variable_names names_capacity name
  blacken_contents vm class_obj range_contents = add_bytes sizes.range_size vm
  blacken_contents vm class_obj (string_contents length) =
      add_bytes (sizes.string_size + length + 1) vm
  blacken_contents vm class_obj (upvalue_contents closed) =
      add_bytes sizes.upvalue_size (gray_value vm closed)

  unfoldable pub blacken_found : Vm → Option Obj → Vm
  blacken_found vm none = record vm { dangling = vm.dangling + 1 }
  blacken_found vm (some o) = blacken_contents vm o.class_obj o.contents

  -- A round of the loop of `wrenBlackenObjects` on the object that it pops.
  unfoldable pub blacken_popped : Vm → ℕ → List ℕ → Vm
  blacken_popped vm a gray = blacken_found (record vm { gray = gray }) (find_object a vm.first)

  -- `wrenBlackenObjects`, on fuel; `none` is the end of the fuel.
  unfoldable pub blacken_objects : ℕ → Vm → Option Vm
  blacken_objects zero vm = none
  blacken_objects (suc fuel) vm = elim vm.gray [
    | [] ↦ some vm
    | a ∷ gray ↦ blacken_objects fuel (blacken_popped vm a gray)
  ]

  -- What `wrenMarkCompiler` grays for a class.
  unfoldable pub mark_class_info : Vm → Option ClassInfo → Vm
  mark_class_info vm none = vm
  mark_class_info vm (some info) =
      let vm' = blacken_symbol_table vm info.fields info.fields_capacity in
      gray_obj (gray_obj vm' info.method_attributes) info.class_attributes

  -- Its loop over the compilers.
  unfoldable pub mark_compilers : Vm → List CompilerRoots → Vm
  mark_compilers vm [] = vm
  mark_compilers vm (c ∷ compilers) =
      let vm' = gray_obj (gray_obj (gray_obj vm c.fn) c.constants) c.attributes in
      mark_compilers (mark_class_info vm' c.enclosing_class) compilers

  -- `wrenMarkCompiler`, where there is one.
  unfoldable pub mark_compiler : Vm → Option Compiling → Vm
  mark_compiler vm none = vm
  mark_compiler vm (some c) = mark_compilers (gray_buffer vm c.parser_values) c.compilers
