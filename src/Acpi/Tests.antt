-- ===== src/Acpi/Tests.antt =====
-- A memory in which the root table has a null entry and one for a table "A".
use bootstrap.Prelude.{ℕ, ◌≡◌, List, [], ◌∷◌, refl, some, ◌==◌, if◌then◌else◌, true}
use bootstrap.Acpi.{Sdt, find_head, entries, init}
use bootstrap.Acpi.Lookup.{FirstFrom, find_head-First}
use bootstrap.Acpi.Selection.{Selected, init-Selected}

-- The bytes at some addresses.
abbrev byte : List (ℕ × ℕ) → ℕ → ℕ
byte [] n = 0
byte (c ∷ cs) n = let rest = byte cs n in if c.0 == n then c.1 else rest

-- The root table at 256 has 48 bytes, and its second and third entries are for a table of 9 bytes at
-- 512; the pointer structure of revision 0 stands at 1024.
abbrev memory : ℕ → ℕ
memory = byte (
    (260, 48)
    ∷ (265, 204)
    ∷ (297, 2)
    ∷ (301, 2)
    ∷ (512, 65)
    ∷ (516, 9)
    ∷ (520, 182)
    ∷ (1024, 82)
    ∷ (1025, 83)
    ∷ (1026, 68)
    ∷ (1027, 32)
    ∷ (1028, 80)
    ∷ (1029, 84)
    ∷ (1030, 82)
    ∷ (1031, 32)
    ∷ (1032, 224)
    ∷ (1041, 1)
    ∷ [])

abbrev root : Sdt
root = record { xsdt = 0; rsdt = 256 }

find_head_found : find_head memory root (65 ∷ []) ≡ some 512
unfolding find_head bootstrap.Prelude.le_value bootstrap.Acpi.bytes_at
find_head_found = refl

find_head-First_example :
    FirstFrom memory root (65 ∷ []) 0 (entries memory root) (find_head memory root (65 ∷ []))
find_head-First_example = find_head-First memory root (65 ∷ [])

abbrev fresh : Sdt
fresh = record { xsdt = 0; rsdt = 0 }

init_selects : init memory 1024 fresh ≡ (true, root)
unfolding init bootstrap.Prelude.le_value bootstrap.Acpi.bytes_at
init_selects = refl

init-Selected_example : Selected memory 1024 fresh (init memory 1024 fresh)
init-Selected_example = init-Selected memory 1024 fresh
