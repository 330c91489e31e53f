-- ===== src/Tests.antt =====
-- Runs of the model on concrete inputs, and the theorems at inputs that meet their hypotheses.
mod Full
mod Undefined
mod Main
mod Elf
mod Symtab
mod Pass1
mod CRules
mod Layout
mod Emit
mod Compressed
