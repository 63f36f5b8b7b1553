-- ===== src/IsaParser.antt =====
-- class Isa_parser of server/src/ARCH-riscv/isa_parser.h: the extensions of a RISC-V ISA string.
pub mod Progress
mod Tests
use bootstrap.Prelude.{
  ℕ, zero, suc, Bool, true, false, ◌&&◌, ◌||◌, not, List, [], ◌∷◌, Result, ok, err, out_of_fuel,
  leb, ◌==◌, if◌then◌else◌,
}

-- `isalpha` and `isdigit` of the C library, in the C locale.
abbrev pub isalpha : ℕ → Bool
isalpha c = (leb 65 c && leb c 90) || (leb 97 c && leb c 122)

abbrev pub isdigit : ℕ → Bool
isdigit c = leb 48 c && leb c 57

-- The cursor: the character before it and the text from it on. At the start of the string the
-- former is an underscore, which the parser treats alike.
pub record Cursor : Type 0 where
  pub before : ℕ
  pub text : List ℕ

-- The parser: the cursor, the extension found last, and whether there was an error.
pub record IsaParser : Type 0 where
  pub cur : Cursor
  pub ext : List ℕ
  pub has_err : Bool

-- the constructor
unfoldable pub parser : List ℕ → IsaParser
parser isa = record { cur = record { before = 95; text = isa }; ext = []; has_err = false }

-- A loop that steps over characters of a kind, and the characters that it steps over.
unfoldable pub skip : (ℕ → Bool) → ℕ → List ℕ → Cursor
skip p before [] = record { before = before; text = [] }
skip p before (c ∷ cs) =
    let rest = skip p c cs in if p c then rest else record { before = before; text = c ∷ cs }

unfoldable pub prefix : (ℕ → Bool) → List ℕ → List ℕ
prefix p [] = []
prefix p (c ∷ cs) = let rest = prefix p cs in if p c then c ∷ rest else []

-- The minor version, behind a letter p of either case.
unfoldable pub skip_minor : ℕ → List ℕ → Cursor
unfolding skip
skip_minor before [] = record { before = before; text = [] }
skip_minor before (c ∷ cs) =
    let rest = skip isdigit c cs in
    if (c == 80) || (c == 112) then rest else record { before = before; text = c ∷ cs }

-- `skip_version`
unfoldable pub skip_version : ℕ → List ℕ → Cursor
unfolding skip skip_minor
skip_version before [] = record { before = before; text = [] }
skip_version before (c ∷ cs) =
    let major = skip isdigit c cs in
    let rest = skip_minor major.before major.text in
    if isdigit c then rest else record { before = before; text = c ∷ cs }

-- An extension was found: the end of `next_ext`.
unfoldable pub found : List ℕ → Cursor → Bool → Bool × IsaParser
unfolding skip_version
found ext cur has_err =
    (true, record { cur = skip_version cur.before cur.text; ext = ext; has_err = has_err })

-- The letters that begin an extension of several letters: s, S, z, Z, x and X.
abbrev pub multi_letter : ℕ → Bool
multi_letter c = (c == 115) || (c == 83) || (c == 122) || (c == 90) || (c == 120) || (c == 88)

-- Whether an s is the invalid extension su of old versions of QEMU, and the text is behind the s.
unfoldable pub invalid_su : ℕ → ℕ → List ℕ → Bool
invalid_su before c [] = false
invalid_su before c (u ∷ cs) = (c == 115) && not (before == 95) && (u == 117)

abbrev pub drop_one : List ℕ → List ℕ
drop_one [] = []
drop_one (u ∷ us) = us

-- `next_ext`. A round passes at least one character, so more rounds than there are characters are
-- enough.
unfoldable pub next_ext : ℕ → ℕ → List ℕ → Bool → Result (Bool × IsaParser)
unfolding found skip prefix invalid_su
next_ext zero before text has_err = err out_of_fuel
next_ext (suc fuel) before [] has_err =
    ok (false, record { cur = record { before = before; text = [] }; ext = []; has_err = has_err })
next_ext (suc fuel) before (c ∷ cs) has_err =
    let skipped = next_ext fuel c cs (has_err || not (c == 95)) in
    let after_su = next_ext fuel 117 (drop_one cs) has_err in
    if invalid_su before c cs
    then after_su
    else if multi_letter c
    then ok (found (c ∷ prefix isalpha cs) (skip isalpha c cs) has_err)
    else if isalpha c
    then ok (found (c ∷ []) (record { before = c; text = cs }) has_err)
    else skipped
