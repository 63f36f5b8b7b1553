-- ===== src/Prelude/Results.antt =====
-- The outcome of code that may stop the machine: a failed `assert`, a call of `panic`, or, for a
-- loop of the model alone, fuel that ran out.
use mathlib.Core.Path.{◌≡◌, refl}
use mathlib.Core.Bool.{Bool, true, false}

pub data Error : Type 0 where
  assertion : Error
  region_overflow : Error
  region_overlap : Error
  too_many_modules : Error
  module_outside_ram : Error
  module_overlap : Error
  no_memory : Error
  above_4g : Error
  bad_option : Error
  bad_elf : Error
  bad_relocation : Error
  no_kernel_info : Error
  no_kernel_options : Error
  binary_outside_memory : Error
  outside_buffer : Error
  no_region : Error
  empty_module : Error
  bad_decompression : Error
  division_by_zero : Error
  out_of_fuel : Error

pub data Result {ℓ} (A : Type ℓ) : Type ℓ where
  err : Error → Result A
  ok : A → Result A

-- `assert (test)`, or `if (! test) panic (...)`.
abbrev pub guard : Bool → Error → Result (Unit {0})
guard false why = err why
guard true why = ok tt

infixl 5 ◌>>=◌
abbrev pub ◌>>=◌ {ℓ κ} : {A : Type ℓ} {B : Type κ} → Result A → (A → Result B) → Result B
err why >>= next = err why
ok x >>= next = next x

-- The parts of a chain that went well.
pub >>=-eq-ok {ℓ κ} :
    {A : Type ℓ} {B : Type κ} (first : Result A) (next : A → Result B) {y : B}
    → (first >>= next) ≡ ok y
    → (x : A) × (first ≡ ok x) × (next x ≡ ok y)
>>=-eq-ok (err why) next h = cc
>>=-eq-ok (ok x) next h = (x, refl, h)

-- A statement before others.
infixl 5 ◌>>◌
abbrev pub ◌>>◌ {ℓ} : {B : Type ℓ} → Result (Unit {0}) → Result B → Result B
check >> others = check >>= λ _. others

pub ok-injective {ℓ} : {A : Type ℓ} {x y : A} → ok x ≡ ok y → y ≡ x
ok-injective e = cc
