-- ===== src/Text.antt =====
-- wren_value.c, lines 737 to 961: operations on strings.
pub mod Find
pub mod Points
