-- ===== src/CRules/Sound/Outcome.antt =====
-- What it takes for a rule to be sound.
use assembler_project.Base.{◌≡◌, refl, Bool, true, false, Option, none, some, if◌then◌else◌}
use assembler_project.CRules.{◌or_else◌}
use assembler_project.CRules.Meaning.{IsSound}
use assembler_project.Ir.Entry.{Entry, Choice}
use mathlib.Core.Path.{subst}
use mathlib.Core.Option.{some-injective}

-- Every choice that a result holds is sound for `n`.
abbrev pub Yields : Entry → Option Choice → Type 0
Yields n o = (ch : Choice) → o ≡ some ch → IsSound n ch

pub stored : (n : Entry) (c : Choice) → IsSound n c → Yields n (some c)
stored n c sound ch h = subst (IsSound n) (some-injective c ch h) sound

pub branch :
    (n : Entry) (test : Bool) (x y : Option Choice)
    → (test ≡ true → Yields n x)
    → (test ≡ false → Yields n y)
    → Yields n (if test then x else y)
branch n true x y left right = left refl
branch n false x y left right = right refl

-- What a rule stores past its guards, and what it goes on with there.
pub within :
    (n : Entry) (guard : Bool) (o : Option Choice)
    → (guard ≡ false → Yields n o)
    → Yields n (if guard then none else o)
within n guard o keep = branch n guard none o (λ _ ch h. cc) keep

pub past :
    (n : Entry) (guard : Bool) (c : Choice)
    → (guard ≡ false → IsSound n c)
    → Yields n (if guard then none else some c)
past n guard c keep = within n guard (some c) (λ t. stored n c (keep t))

pub or_else-Yields :
    (n : Entry) (c d : Option Choice) → Yields n c → Yields n d → Yields n (c or_else d)
or_else-Yields n none d left right = right
or_else-Yields n (some c) d left right = left
