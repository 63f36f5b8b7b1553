-- ===== src/KernelOptions/JdbCmd.antt =====
-- What `kcmdline_parse` writes into memory.
use bootstrap.Prelude.{
  ℕ, ◌+◌, ◌≤◌, ◌<◌, ◌≡◌, ◌⊎◌, Option, none, some, List, [], ◌∷◌, ◌==◌, if◌then◌else◌, take,
}
use bootstrap.BootModules.Mbi.Texts.{HasText}
use bootstrap.KernelOptions.{UnsignedOpt}

-- The characters in front of the first space.
unfoldable pub word : List ℕ → List ℕ
word [] = []
word (c ∷ cs) = let rest = c ∷ word cs in if c == 32 then [] else rest

-- An address in front of a field or behind it.
abbrev Beside : ℕ → ℕ → ℕ → Type 0
Beside at size x = (x < at) ⊎ (at + size ≤ x)

-- The field for the commands after the call for the options at an address: they are the option's
-- value up to a space, cut to 127 characters, with a null character, and the field is as before
-- without such an option. Of the other bytes only the flags and the four numbers may change.
pub record HasJdbCmd (lko : ℕ) (value : Option (List ℕ)) (bytes bytes' : ℕ → ℕ) : Type 0 where
  pub commands :
      (text : List ℕ) → value ≡ some text → HasText bytes' (lko + 80) (take 127 (word text))
  pub unset : value ≡ none → (x : ℕ) → lko + 80 ≤ x → x < lko + 208 → bytes' x ≡ bytes x
  pub others : (x : ℕ) → Beside (lko + 8) 12 x → Beside (lko + 80) 136 x → bytes' x ≡ bytes x

module _ (strtol : List ℕ → ℕ) (lko : ℕ) where
  -- The fields of numbers: beside the flags, or behind the commands.
  abbrev IsNumber : UnsignedOpt → Type 0
  IsNumber opt = ((8 ≤ opt.offset) × (opt.offset ≤ 16)) ⊎ ((208 ≤ opt.offset) × (opt.offset ≤ 212))

  abbrev AllNumbers : List UnsignedOpt → Type 0
  AllNumbers [] = Unit
  AllNumbers (opt ∷ opts) = IsNumber opt × AllNumbers opts
