-- ===== src/Lib.antt =====
-- A verification library for the RISC-V assembler (Assembler/).
--
-- The program reads assembly text, and assembles it in two passes. In pass 1 (pass1.c, called from
-- the grammar assembler.y) each statement appends entries to a buffer, the intermediate
-- representation (ir.c), and labels go into a symbol table (symtab.c). In pass 2 (pass2.c) the
-- buffer is laid out: addresses are assigned and, with the C extension and automatic compression
-- on, instructions get a 16-bit form (c_rules.c) while their displacements allow it. Then the
-- entries are walked in order: labels are resolved, instructions encoded and the bytes handed to the
-- sink (out.c), which writes a raw image or collects two sections for an ELF file. main.c reads the
-- options and calls the passes; pass.c holds the section, the program counters and the target that
-- the passes share.
--
-- Where each part is modelled, the sources in Assembler/src and Assembler/include:
--   Ir        ir.h, section.h, ir.c: Entry and its enumerations (Ir/Entry, Ir/Opcode), the
--             appends and marks (Ir/Buffer), the buffer's growth (Ir/Capacity), and what holds of
--             every entry (Ir/WellFormed)
--   Pass      pass.c, pass.h: the shared state and alignment
--   Encode    pass2.c: the two encoding tables (Encode/Table, Encode/CTable), the 32-bit encoders
--             (Encode/Full), the 16-bit encoders (Encode/Compressed); Encode/Isa is the manual's
--             reading of a 32-bit word, which the encoders are compared with; the layouts of
--             16-bit forms stand with the lemmas of their encoders
--   CRules    c_rules.c: the rules for 16-bit forms; CRules/Meaning is the manual's expansion
--   Layout    pass2.c, from pass2_node_size_now to pass2_relayout_and_validate
--   Symtab    symtab.c: the primes of its sizes (Symtab/Primes), the chains (Symtab/Nodes), the
--             placing of keys (Symtab/Buckets), the resize (Symtab/Resize), and the operations
--             against a map (Symtab/Methods, Symtab/Calls)
--   Pass1     pass1.c, and the actions of assembler.y for labels and directives
--   Out       out.c: the sink's writes; Out/Elf, the file that out_finish writes: its structures
--             (Out/Elf/Headers), write_at (Out/Elf/Write), its offsets (Out/Elf/Planned, with
--             Out/Elf/Offsets and Out/Elf/Disjoint), and a loader that reads it (Out/Elf/Image, Out/Elf/Load)
--   Main      main.c: the options (Main/Arguments), the output's name (Main/Names) and the whole run
--             (Main/Whole)
--   Emit      pass2.c, from resolve_label and require_for_op to pass2_run; Emit/Image is what
--             stands in the file for an entry, described apart from the code that writes it
--   Base      what all of them share; Tests, runs at concrete inputs
--
-- A definition has the name of the C function it translates, and takes the globals that the
-- function reads as arguments: Arch is the target, Emit the variables of pass2.c, Out those of
-- out.c. A function that changes state returns the new state, with its verdict first where it has
-- one. `none` is an exit with an error. The buffer is the list of its entries.
--
-- Numbers: registers, addresses and words are native natural numbers; uint32_t arithmetic is
-- written out with `% 2 ^ 32`. int and int64_t values are integers (Base/Int), and a cast of one to
-- an unsigned type goes through its bit pattern (Base/Word). Overflow of signed arithmetic, which C
-- leaves undefined, does not occur in the range of 64 bits. A label is the list of its bytes.
-- `char` is signed, and `long` and `size_t` have 64 bits.
--
-- Loops over the buffer are recursion on the list. The rounds of the layout are counted down as in
-- the source; more rounds than there are compressed choices are enough, since every round but the
-- last drops one. The loop that writes zeros to a raw image takes as many turns as there are zeros,
-- which is enough, since each turn writes one at least. The search for a prime from n on has n! + 2
-- turns, since a prime divisor of n! + 1 is not below n. insert_sym and resize_symtab call each other
-- two levels deep at most.
--
-- Arguments that stand for other code: `fwrite` is the C library's, with ftello and fseeko where
-- the ELF file is written (Stdio), `sqrt` its square root, cut to an `int`, and `search_sym` the
-- look-up of the symbol table, whose `int` is below 0 for a label that is missing (Symtab has its
-- definition). The parser is a sequence of actions; with the files that open it is a field of
-- World.
--
-- Not modelled: messages on stderr, memory exhaustion and the freeing of memory; the lexer and
-- the grammar's rules, which are inputs of flex and bison; the summary of the entries that pass 1
-- prints. The load factor of the symbol table is tested as 2 * count >= size, which the division
-- of floats decides alike for sizes below 2^24; sizes stay within an `int`.
mod Base
pub mod Ir
pub mod Pass
pub mod Encode
pub mod CRules
pub mod Layout
pub mod Out
pub mod Emit
pub mod Symtab
pub mod Pass1
pub mod Main
mod Tests
