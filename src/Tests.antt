-- ===== src/Tests.antt =====
-- Runs of the definitions at fixed inputs, and the theorems at inputs that meet their hypotheses.
mod Utils
mod Values
mod Maps
mod Scopes
mod Fibers
mod Lexers
mod Texts
mod Sequences
mod Emits
mod Collectors
mod Switches
