-- ===== src/Collector/Mark/Blackens.antt =====
-- wren_value.c, lines 1013 to 1214, wren_compiler.c, lines 3900 to 3931, and wren_vm.c, lines 145 to
-- 171: blackening an object grays its pointers, and the collector grays its roots.
use rust_wren.Base.{ℕ, ◌≡◌, refl, ap, ◌∙◌, List, [], ◌∷◌, ◌++◌, map, Option, none, some}
use rust_wren.Value.{Value}
use rust_wren.Collector.{
  Pointer, Method, Contents, class_contents, closure_contents, fiber_contents, fn_contents,
  foreign_contents, instance_contents, list_contents, map_contents, module_contents, range_contents,
  string_contents, upvalue_contents, ClassInfo, CompilerRoots, Compiling, Vm, Sizes, pointer_of,
}
use rust_wren.Collector.Collect.{gray_roots}
use rust_wren.Collector.Mark.{
  gray_obj, gray_objs, gray_buffer, blacken_symbol_table, gray_methods, blacken_class,
  blacken_closure, blacken_fiber, blacken_fn, blacken_instance, blacken_list, blacken_map,
  blacken_module, blacken_contents, mark_class_info, mark_compilers, mark_compiler,
}
use rust_wren.Collector.Mark.Pointers.{
  method_pointers, values_pointers, entry_pointers, pointers, class_info_pointers,
  compilers_pointers, compiling_pointers, root_pointers, with_bytes, Grays, Grays-eq, Grays-trans,
  Grays-bytes, gray_objs-append, gray_buffer-objs, gray_methods-objs, gray_entries-objs, Grays-add,
}

module _ (sizes : Sizes) (vm : Vm) where
  blacken_class-Grays :
      (metaclass superclass : Pointer) (methods : List Method) (capacity : ℕ) (name : Pointer)
      (attributes : Value)
      → Grays vm
          (metaclass ∷ superclass ∷ (method_pointers methods ++ name ∷ pointer_of attributes ∷ []))
          (blacken_class sizes vm metaclass superclass methods capacity name attributes)
  unfolding blacken_class gray_objs
  blacken_class-Grays metaclass superclass methods capacity name attributes =
      let vm₁ = gray_obj (gray_obj vm metaclass) superclass in
      let last = name ∷ pointer_of attributes ∷ [] in
      let e : gray_objs (gray_methods sizes vm₁ methods) last
          ≡ gray_objs vm₁ (method_pointers methods ++ last) =
        ap (λ (v : Vm). gray_objs v last) (gray_methods-objs sizes vm₁ methods)
        ∙ gray_objs-append vm₁ (method_pointers methods) last in
      Grays-add vm _ (metaclass ∷ superclass ∷ (method_pointers methods ++ last)) _ e

  blacken_closure-Grays :
      (fn : Pointer) (upvalues : List Pointer)
      → Grays vm (fn ∷ upvalues) (blacken_closure sizes vm fn upvalues)
  unfolding blacken_closure gray_objs
  blacken_closure-Grays fn upvalues =
      Grays-add vm (gray_objs (gray_obj vm fn) upvalues) (fn ∷ upvalues) _ refl

  blacken_fiber-Grays :
      (frames : List Pointer) (frame_capacity : ℕ) (stack : List Value) (stack_capacity : ℕ)
      (captured : List ℕ) (caller : Pointer) (error : Value)
      → Grays vm
          (frames
            ++ (values_pointers stack ++ (map some captured ++ caller ∷ pointer_of error ∷ [])))
          (blacken_fiber sizes vm frames frame_capacity stack stack_capacity captured caller error)
  unfolding blacken_fiber gray_objs
  blacken_fiber-Grays frames frame_capacity stack stack_capacity captured caller error =
      let last = caller ∷ pointer_of error ∷ [] in
      let vm₁ = gray_objs vm frames in
      let e : gray_objs (gray_objs (gray_buffer vm₁ stack) (map some captured)) last
          ≡ gray_objs vm (frames ++ (values_pointers stack ++ (map some captured ++ last))) =
        gray_objs-append (gray_buffer vm₁ stack) (map some captured) last
        ∙ ap (λ (v : Vm). gray_objs v (map some captured ++ last)) (gray_buffer-objs vm₁ stack)
        ∙ gray_objs-append vm₁ (values_pointers stack) (map some captured ++ last)
        ∙ gray_objs-append vm frames (values_pointers stack ++ (map some captured ++ last)) in
      Grays-add vm _ (frames ++ (values_pointers stack ++ (map some captured ++ last))) _ e

  pub blacken_symbol_table-Grays :
      (names : List Pointer) (capacity : ℕ)
      → Grays vm names (blacken_symbol_table sizes vm names capacity)
  unfolding blacken_symbol_table
  blacken_symbol_table-Grays names capacity = Grays-add vm (gray_objs vm names) names _ refl

module _ (sizes : Sizes) where
  blacken_module-Grays :
      (vm : Vm) (variables : List Value) (names : List Pointer) (capacity : ℕ) (name : Pointer)
      → Grays vm
          (values_pointers variables ++ (names ++ name ∷ []))
          (blacken_module sizes vm variables names capacity name)
  unfolding blacken_module gray_objs
  blacken_module-Grays vm variables names capacity name =
      let vm₁ = gray_buffer vm variables in
      let vm₂ = blacken_symbol_table sizes vm₁ names capacity in
      Grays-bytes vm (gray_obj vm₂ name) (values_pointers variables ++ (names ++ name ∷ [])) _ (
        Grays-trans vm vm₁ (gray_obj vm₂ name) (values_pointers variables) (names ++ name ∷ [])
          (Grays-eq vm vm₁ (values_pointers variables) (gray_buffer-objs vm variables))
          (Grays-trans vm₁ vm₂ (gray_obj vm₂ name) names (name ∷ [])
            (blacken_symbol_table-Grays sizes vm₁ names capacity)
            (Grays-eq vm₂ (gray_obj vm₂ name) (name ∷ []) refl)))

  -- Blackening an object grays its pointers.
  pub blacken_contents-Grays :
      (vm : Vm) (class_obj : Pointer) (k : Contents)
      → Grays vm (pointers class_obj k) (blacken_contents sizes vm class_obj k)
  unfolding blacken_contents pointers gray_objs blacken_fn blacken_instance blacken_list blacken_map
  blacken_contents-Grays vm c (class_contents superclass methods capacity name attributes) =
      blacken_class-Grays sizes vm c superclass methods capacity name attributes
  blacken_contents-Grays vm c (closure_contents fn upvalues) =
      blacken_closure-Grays sizes vm fn upvalues
  blacken_contents-Grays vm c (fiber_contents frames m stack n captured caller error) =
      blacken_fiber-Grays sizes vm frames m stack n captured caller error
  blacken_contents-Grays vm c (fn_contents constants m n) =
      Grays-add vm _ (values_pointers constants) _ (gray_buffer-objs vm constants)
  blacken_contents-Grays vm c foreign_contents = Grays-eq vm vm [] refl
  blacken_contents-Grays vm c (instance_contents fields) =
      Grays-add vm _ (c ∷ values_pointers fields) _ (gray_buffer-objs (gray_obj vm c) fields)
  blacken_contents-Grays vm c (list_contents elements n) =
      Grays-add vm _ (values_pointers elements) _ (gray_buffer-objs vm elements)
  blacken_contents-Grays vm c (map_contents entries) =
      Grays-add vm _ (entry_pointers entries) _ (gray_entries-objs sizes vm entries)
  blacken_contents-Grays vm c (module_contents variables names n name) =
      blacken_module-Grays vm variables names n name
  blacken_contents-Grays vm c range_contents = Grays-add vm vm [] _ refl
  blacken_contents-Grays vm c (string_contents length) = Grays-add vm vm [] _ refl
  blacken_contents-Grays vm c (upvalue_contents closed) =
      Grays-add vm (gray_obj vm (pointer_of closed)) (pointer_of closed ∷ []) _ refl

  mark_class_info-Grays :
      (vm : Vm) (info : Option ClassInfo)
      → Grays vm (class_info_pointers info) (mark_class_info sizes vm info)
  unfolding mark_class_info gray_objs
  mark_class_info-Grays vm none = Grays-eq vm vm [] refl
  mark_class_info-Grays vm (some info) =
      let last = info.method_attributes ∷ info.class_attributes ∷ [] in
      let vm₁ = blacken_symbol_table sizes vm info.fields info.fields_capacity in
      Grays-trans vm vm₁ (mark_class_info sizes vm (some info)) info.fields last
        (blacken_symbol_table-Grays sizes vm info.fields info.fields_capacity)
        (Grays-eq vm₁ (mark_class_info sizes vm (some info)) last refl)

  mark_compilers-Grays :
      (vm : Vm) (compilers : List CompilerRoots)
      → Grays vm (compilers_pointers compilers) (mark_compilers sizes vm compilers)
  unfolding mark_compilers gray_objs
  mark_compilers-Grays vm [] = Grays-eq vm vm [] refl
  mark_compilers-Grays vm (c ∷ compilers) =
      let first = c.fn ∷ c.constants ∷ c.attributes ∷ [] in
      let vm₁ = gray_objs vm first in
      let vm₂ = mark_class_info sizes vm₁ c.enclosing_class in
      let vm₃ = mark_compilers sizes vm₂ compilers in
      Grays-trans vm vm₁ vm₃ first
        (class_info_pointers c.enclosing_class ++ compilers_pointers compilers)
        (Grays-eq vm vm₁ first refl)
        (Grays-trans vm₁ vm₂ vm₃ (class_info_pointers c.enclosing_class)
          (compilers_pointers compilers) (mark_class_info-Grays vm₁ c.enclosing_class)
          (mark_compilers-Grays vm₂ compilers))

  -- Marking the compilers grays what they hold.
  pub mark_compiler-Grays :
      (vm : Vm) (c : Option Compiling) → Grays vm (compiling_pointers c) (mark_compiler sizes vm c)
  unfolding mark_compiler gray_objs
  mark_compiler-Grays vm none = Grays-eq vm vm [] refl
  mark_compiler-Grays vm (some c) =
      let vm₁ = gray_buffer vm c.parser_values in
      Grays-trans vm vm₁ (mark_compilers sizes vm₁ c.compilers) (values_pointers c.parser_values)
        (compilers_pointers c.compilers)
        (Grays-eq vm vm₁ (values_pointers c.parser_values) (gray_buffer-objs vm c.parser_values))
        (mark_compilers-Grays vm₁ c.compilers)

  -- Before it blackens, the collector grays the roots.
  pub gray_roots-Grays :
      (vm : Vm) → Grays (with_bytes 0 vm) (root_pointers vm) (gray_roots sizes vm)
  unfolding gray_roots gray_objs
  gray_roots-Grays vm =
      let vm₁ = gray_obj (with_bytes 0 vm) vm.modules in
      let vm₂ = gray_objs vm₁ vm.temp_roots in
      let vm₃ = gray_obj vm₂ vm.fiber in
      let vm₄ = gray_buffer vm₃ vm.handles in
      let vm₅ = mark_compiler sizes vm₄ vm.compiler in
      let vm₆ = blacken_symbol_table sizes vm₅ vm.method_names vm.method_names_capacity in
      let last = compiling_pointers vm.compiler ++ vm.method_names in
      let handles = values_pointers vm.handles ++ last in
      Grays-trans (with_bytes 0 vm) vm₁ vm₆ (vm.modules ∷ []) (vm.temp_roots ++ vm.fiber ∷ handles)
        (Grays-eq (with_bytes 0 vm) vm₁ (vm.modules ∷ []) refl)
        (Grays-trans vm₁ vm₂ vm₆ vm.temp_roots (vm.fiber ∷ handles)
          (Grays-eq vm₁ vm₂ vm.temp_roots refl)
          (Grays-trans vm₂ vm₃ vm₆ (vm.fiber ∷ []) handles (Grays-eq vm₂ vm₃ (vm.fiber ∷ []) refl) (
            Grays-trans vm₃ vm₄ vm₆ (values_pointers vm.handles) last
              (Grays-eq vm₃ vm₄ (values_pointers vm.handles) (gray_buffer-objs vm₃ vm.handles))
              (Grays-trans vm₄ vm₅ vm₆ (compiling_pointers vm.compiler) vm.method_names
                (mark_compiler-Grays vm₄ vm.compiler)
                (blacken_symbol_table-Grays sizes vm₅ vm.method_names vm.method_names_capacity)))))
