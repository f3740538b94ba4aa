-- ===== src/Utils.antt =====
-- wren_utils.c: the reusable helpers of the virtual machine.
pub mod Utf8
pub mod PowerOf2
pub mod Buffer
pub mod SymbolTable
pub mod Index
