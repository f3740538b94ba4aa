-- ===== src/Collector/Mark/Pointers.antt =====
-- wren_value.c, lines 1013 to 1188: the pointers that blackening an object grays.
use rust_wren.Base.{
  ℕ, ◌≡◌, refl, ap, ◌∙◌, List, [], ◌∷◌, ◌++◌, map, true, false, Option, none, some, Bool-cases, inl,
  inr,
}
use rust_wren.Value.{Value, is_undefined}
use rust_wren.Map.{Entry}
use rust_wren.Collector.{
  Pointer, Method, block_method, other_method, Contents, class_contents, closure_contents,
  fiber_contents, fn_contents, foreign_contents, instance_contents, list_contents, map_contents,
  module_contents, range_contents, string_contents, upvalue_contents, Obj, ClassInfo, CompilerRoots,
  Compiling, Vm, Sizes, find_object, pointer_of,
}
use rust_wren.Collector.Mark.{
  gray_found, gray_obj, gray_objs, gray_buffer, gray_methods, gray_entries,
}

abbrev pub method_pointers : List Method → List Pointer
method_pointers [] = []
method_pointers (block_method closure ∷ methods) = closure ∷ method_pointers methods
method_pointers (other_method ∷ methods) = method_pointers methods

abbrev pub values_pointers : List Value → List Pointer
values_pointers [] = []
values_pointers (v ∷ values) = pointer_of v ∷ values_pointers values

abbrev pub entry_pointers : List Entry → List Pointer
entry_pointers [] = []
entry_pointers (e ∷ entries) = elim (is_undefined e.key) [
  | true ↦ entry_pointers entries
  | false ↦ pointer_of e.key ∷ pointer_of e.value ∷ entry_pointers entries
]

-- The pointers that an object with a class holds, as far as the collector follows them.
unfoldable pub pointers : Pointer → Contents → List Pointer
pointers class_obj (class_contents superclass methods capacity name attributes) =
    class_obj ∷ superclass ∷ (method_pointers methods ++ name ∷ pointer_of attributes ∷ [])
pointers class_obj (closure_contents fn upvalues) = fn ∷ upvalues
pointers class_obj
      (fiber_contents frames frame_capacity stack stack_capacity captured caller error) =
    frames ++ (values_pointers stack ++ (map some captured ++ caller ∷ pointer_of error ∷ []))
pointers class_obj (fn_contents constants capacity code_capacity) = values_pointers constants
pointers class_obj foreign_contents = []
pointers class_obj (instance_contents fields) = class_obj ∷ values_pointers fields
pointers class_obj (list_contents elements capacity) = values_pointers elements
pointers class_obj (map_contents entries) = entry_pointers entries
pointers class_obj (module_contents variables names capacity name) =
    values_pointers variables ++ (names ++ name ∷ [])
pointers class_obj range_contents = []
pointers class_obj (string_contents length) = []
pointers class_obj (upvalue_contents closed) = pointer_of closed ∷ []

-- What the collector grays for the compilers.
abbrev pub class_info_pointers : Option ClassInfo → List Pointer
class_info_pointers none = []
class_info_pointers (some info) = info.fields ++ info.method_attributes ∷ info.class_attributes ∷ []

abbrev pub compilers_pointers : List CompilerRoots → List Pointer
compilers_pointers [] = []
compilers_pointers (c ∷ compilers) =
    c.fn
    ∷ c.constants
    ∷ c.attributes
    ∷ (class_info_pointers c.enclosing_class ++ compilers_pointers compilers)

abbrev pub compiling_pointers : Option Compiling → List Pointer
compiling_pointers none = []
compiling_pointers (some c) = values_pointers c.parser_values ++ compilers_pointers c.compilers

-- What the collector grays first: `wrenCollectGarbage`.
abbrev pub root_pointers : Vm → List Pointer
root_pointers vm =
    vm.modules
    ∷ (vm.temp_roots
        ++ vm.fiber
          ∷ (values_pointers vm.handles ++ (compiling_pointers vm.compiler ++ vm.method_names)))

-- The machine with another count of bytes.
abbrev pub with_bytes : ℕ → Vm → Vm
with_bytes n vm = record vm { bytes_allocated = n }

-- A machine is another one where these pointers have been grayed, but for the count of bytes.
abbrev pub Grays : Vm → List Pointer → Vm → Type 0
Grays vm ps vm' = (n : ℕ) × (vm' ≡ with_bytes n (gray_objs vm ps))

gray_found-with_bytes :
    (n : ℕ) (vm : Vm) (a : ℕ) (found : Option Obj)
    → gray_found (with_bytes n vm) a found ≡ with_bytes n (gray_found vm a found)
unfolding gray_found
gray_found-with_bytes n vm a none = refl
gray_found-with_bytes n vm a (some o) = elim (Bool-cases o.is_dark) [
  | inl t ↦ rw t refl
  | inr t ↦ rw t refl
]

gray_obj-with_bytes :
    (n : ℕ) (vm : Vm) (p : Pointer) → gray_obj (with_bytes n vm) p ≡ with_bytes n (gray_obj vm p)
unfolding gray_obj
gray_obj-with_bytes n vm none = refl
gray_obj-with_bytes n vm (some a) = gray_found-with_bytes n vm a (find_object a vm.first)

gray_objs-with_bytes :
    (n : ℕ) (vm : Vm) (ps : List Pointer)
    → gray_objs (with_bytes n vm) ps ≡ with_bytes n (gray_objs vm ps)
unfolding gray_objs
gray_objs-with_bytes n vm [] = refl
gray_objs-with_bytes n vm (p ∷ ps) =
    ap (λ (v : Vm). gray_objs v ps) (gray_obj-with_bytes n vm p)
    ∙ gray_objs-with_bytes n (gray_obj vm p) ps

pub gray_objs-append :
    (vm : Vm) (ps qs : List Pointer) → gray_objs (gray_objs vm ps) qs ≡ gray_objs vm (ps ++ qs)
unfolding gray_objs
gray_objs-append vm [] qs = refl
gray_objs-append vm (p ∷ ps) qs = gray_objs-append (gray_obj vm p) ps qs

pub Grays-eq : (vm vm' : Vm) (ps : List Pointer) → vm' ≡ gray_objs vm ps → Grays vm ps vm'
Grays-eq vm vm' ps e = ((gray_objs vm ps).bytes_allocated, e)

pub Grays-trans :
    (vm vm' vm'' : Vm) (ps qs : List Pointer)
    → Grays vm ps vm'
    → Grays vm' qs vm''
    → Grays vm (ps ++ qs) vm''
Grays-trans vm vm' vm'' ps qs (n, e) (m, e') = (
  m,
  e'
      ∙ ap (λ (v : Vm). with_bytes m (gray_objs v qs)) e
      ∙ ap (with_bytes m) (gray_objs-with_bytes n (gray_objs vm ps) qs)
      ∙ ap (with_bytes m) (gray_objs-append vm ps qs),
)

pub Grays-bytes :
    (vm vm' : Vm) (ps : List Pointer) (n : ℕ) → Grays vm ps vm' → Grays vm ps (with_bytes n vm')
Grays-bytes vm vm' ps n (m, e) = (n, ap (with_bytes n) e)

pub Grays-add :
    (vm vm' : Vm) (ps : List Pointer) (n : ℕ)
    → vm' ≡ gray_objs vm ps
    → Grays vm ps (with_bytes n vm')
Grays-add vm vm' ps n e = Grays-bytes vm vm' ps n (Grays-eq vm vm' ps e)

pub gray_buffer-objs :
    (vm : Vm) (vs : List Value) → gray_buffer vm vs ≡ gray_objs vm (values_pointers vs)
unfolding gray_buffer gray_objs
gray_buffer-objs vm [] = refl
gray_buffer-objs vm (v ∷ vs) = gray_buffer-objs (gray_obj vm (pointer_of v)) vs

pub gray_methods-objs :
    (sizes : Sizes) (vm : Vm) (methods : List Method)
    → gray_methods sizes vm methods ≡ gray_objs vm (method_pointers methods)
unfolding gray_methods gray_objs
gray_methods-objs sizes vm [] = refl
gray_methods-objs sizes vm (block_method c ∷ methods) =
    gray_methods-objs sizes (gray_obj vm c) methods
gray_methods-objs sizes vm (other_method ∷ methods) = gray_methods-objs sizes vm methods

pub gray_entries-objs :
    (sizes : Sizes) (vm : Vm) (entries : List Entry)
    → gray_entries sizes vm entries ≡ gray_objs vm (entry_pointers entries)
unfolding gray_entries gray_objs
gray_entries-objs sizes vm [] = refl
gray_entries-objs sizes vm (e ∷ entries) = elim (Bool-cases (is_undefined e.key)) [
  | inl t ↦ rw (t, gray_entries, entry_pointers) (gray_entries-objs sizes vm entries)
  | inr t ↦
      rw (t, gray_entries, entry_pointers)
        (gray_entries-objs sizes (gray_obj (gray_obj vm (pointer_of e.key)) (pointer_of e.value))
          entries)
]
