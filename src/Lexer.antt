-- ===== src/Lexer.antt =====
-- wren_compiler.c, lines 56 to 206 and 591 to 1235: the lexer.
pub mod Tokens
pub mod Cursor
pub mod Words
pub mod Strings
pub mod Scan
pub mod Progress
pub mod Passed
pub mod Quote
pub mod Names
pub mod Comments
pub mod Hexadecimal
