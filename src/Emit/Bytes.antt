-- ===== src/Emit/Bytes.antt =====
-- The bytes that `pass2_run` leaves in the two sections of an ELF file.
use assembler_project.Base.{ℕ, ◌≡◌, Bool, true, List, ◌++◌, All}
use assembler_project.Base.Int.{ℤ}
use assembler_project.Emit.{Emit}
use assembler_project.Emit.Image.{HasCode}
use assembler_project.Ir.Entry.{Entry, Label, Section}
use assembler_project.Ir.WellFormed.{WellFormed}
use assembler_project.Out.{Out}
use assembler_project.Out.Buffers.{buffer}
use assembler_project.Pass.{Arch}

-- A run that succeeds, which it does only with `P`, appends `bytes sect` to the buffer of each
-- section.
abbrev Leaves : Type 0 → (Section → List ℕ) → Emit → Bool × Emit → Type 0
Leaves P bytes s r =
    r.0 ≡ true → P × ((sect : Section) → buffer sect r.1.out ≡ buffer sect s.out ++ bytes sect)

-- Every instruction among the entries has a code.
abbrev pub AllCoded : Arch → (Label → ℤ) → List Entry → Type 0
AllCoded a search_sym es = All (λ e. HasCode a search_sym e.kind e) es
