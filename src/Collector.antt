-- ===== src/Collector.antt =====
-- wren_value.h, wren_value.c, lines 976 to 1285, and wren_vm.c, lines 126 to 242: the objects that the
-- garbage collector traverses and what it keeps of the virtual machine. An object is known by its
-- address, and the list of all objects is `first`. An array whose length another object gives
-- (fn->numUpvalues, classObj->numFields) is a list of that length, the stack of a fiber is its part
-- below stackTop, and the list of open upvalues is a list.
pub mod Mark
pub mod Collect
pub mod Sweep
pub mod Traced
pub mod Correct
use rust_wren.Base.{ℕ, List, [], ◌∷◌, ◌++◌, map, Bool, Option, none, some, true, false, ◌==◌}
use rust_wren.Value.{Value, undefined, null_val, false_val, true_val, num, obj, is_undefined}
use rust_wren.Map.{Entry}

-- `NULL` is `none`.
abbrev pub Pointer : Type 0
Pointer = Option ℕ

-- A method of a class, as far as it refers to an object.
pub data Method : Type 0 where
  block_method : Pointer → Method
  other_method : Method

-- What an object holds behind its header, with the capacities of its arrays.
pub data Contents : Type 0 where
  class_contents :
      (superclass : Pointer) (methods : List Method) (methods_capacity : ℕ) (name : Pointer)
      (attributes : Value)
      → Contents
  closure_contents : (fn : Pointer) (upvalues : List Pointer) → Contents
  fiber_contents :
      (frames : List Pointer) (frame_capacity : ℕ) (stack : List Value) (stack_capacity : ℕ)
      (open_upvalues : List ℕ) (caller : Pointer) (error : Value)
      → Contents
  fn_contents : (constants : List Value) (constants_capacity : ℕ) (code_capacity : ℕ) → Contents
  foreign_contents : Contents
  instance_contents : (fields : List Value) → Contents
  list_contents : (elements : List Value) (elements_capacity : ℕ) → Contents
  map_contents : (entries : List Entry) → Contents
  module_contents :
      (variables : List Value) (variable_names : List Pointer) (names_capacity : ℕ) (name : Pointer)
      → Contents
  range_contents : Contents
  string_contents : (length : ℕ) → Contents
  upvalue_contents : (closed : Value) → Contents

pub record Obj : Type 0 where
  pub address : ℕ
  pub is_dark : Bool
  pub class_obj : Pointer
  pub contents : Contents

-- The compilers that are at work, the innermost one first. The tables of the fields of a class are
-- lists of strings.
pub record ClassInfo : Type 0 where
  pub fields : List Pointer
  pub fields_capacity : ℕ
  pub method_attributes : Pointer
  pub class_attributes : Pointer

pub record CompilerRoots : Type 0 where
  pub fn : Pointer
  pub constants : Pointer
  pub attributes : Pointer
  pub enclosing_class : Option ClassInfo

-- `parser_values` are those of the current, the previous and the next token.
pub record Compiling : Type 0 where
  pub parser_values : List Value
  pub compilers : List CompilerRoots

-- `gray` is the stack of gray objects, its top first. `dangling` counts the accesses to a pointer at
-- which no object stands, which C leaves undefined, and `finalized` is the foreign objects that
-- `wrenFinalizeForeign` has been called for, the last one first.
pub record Vm : Type 0 where
  pub first : List Obj
  pub gray : List ℕ
  pub gray_capacity : ℕ
  pub bytes_allocated : ℕ
  pub next_gc : ℕ
  pub min_heap_size : ℕ
  pub heap_growth_percent : ℕ
  pub modules : Pointer
  pub temp_roots : List Pointer
  pub fiber : Pointer
  pub handles : List Value
  pub compiler : Option Compiling
  pub method_names : List Pointer
  pub method_names_capacity : ℕ
  pub dangling : ℕ
  pub finalized : List ℕ

-- `sizeof` of the structures, and of the cells of arrays.
pub record Sizes : Type 0 where
  pub class_size : ℕ
  pub closure_size : ℕ
  pub fiber_size : ℕ
  pub fn_size : ℕ
  pub instance_size : ℕ
  pub list_size : ℕ
  pub map_size : ℕ
  pub module_size : ℕ
  pub range_size : ℕ
  pub string_size : ℕ
  pub upvalue_size : ℕ
  pub method_size : ℕ
  pub pointer_size : ℕ
  pub frame_size : ℕ
  pub value_size : ℕ
  pub byte_size : ℕ
  pub int_size : ℕ
  pub entry_size : ℕ

-- The object at an address.
unfoldable pub find_object : ℕ → List Obj → Option Obj
find_object a [] = none
find_object a (o ∷ objects) = elim (o.address == a) [
  | true ↦ some o
  | false ↦ find_object a objects
]

-- `obj->isDark = true`.
unfoldable pub darken : ℕ → List Obj → List Obj
darken a [] = []
darken a (o ∷ objects) = elim (o.address == a) [
  | true ↦ record o { is_dark = true } ∷ objects
  | false ↦ o ∷ darken a objects
]

-- The object that a value refers to.
abbrev pub pointer_of : Value → Pointer
pointer_of (obj a) = some a
pointer_of undefined = none
pointer_of null_val = none
pointer_of false_val = none
pointer_of true_val = none
pointer_of (num n) = none
