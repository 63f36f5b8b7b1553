-- ===== src/BootModules/Mbi/Tests.antt =====
-- Two modules, the second of which is a base module, and an internal module.
use bootstrap.Prelude.{ℕ, zero, suc, ◌+◌, ◌≡◌, refl, List, [], ◌∷◌, ◌==◌, if◌then◌else◌}
use bootstrap.BootModules.{ModInfo}
use bootstrap.BootModules.Mbi.{MbiLayout, MbiStores, InternalModule, put_string, fill_mbi}

abbrev layout : MbiLayout
layout = record { info_size = 32; mod_size = 32; flag_mask = 255; flag_unspec = 0 }

abbrev modules : List ModInfo
modules =
    record { start = 65536; size = 100; size_uncompressed = 100; flags = 0 }
    ∷ record { start = 69632; size = 200; size_uncompressed = 200; flags = 1 }
    ∷ []

abbrev cmdline : ℕ → List ℕ
cmdline zero = 97 ∷ 98 ∷ []
cmdline (suc n) = 99 ∷ []

abbrev extra : List InternalModule
extra = record { cmdline = 100 ∷ []; start = 4096; end = 8192 } ∷ []

-- One cell for each field.
abbrev set : ℕ → ℕ → ℕ → (ℕ → ℕ) → ℕ → ℕ
set off at v bytes x = if x == at + off then v else bytes x

abbrev stores : MbiStores
stores = record {
  set_mods_count = set 0;
  mods_count = λ at bytes. bytes at;
  set_mods_addr = set 8;
  set_cmdline = set 24;
  set_mod_start = set 8;
  set_mod_end = set 16;
  set_flags = set 0;
}

-- The internal module has the third entry, and is counted.
third_start : (fill_mbi layout stores cmdline modules extra 1048576 (λ x. 7)).bytes 1048680 ≡ 4096
unfolding fill_mbi put_string
third_start = refl

counted : (fill_mbi layout stores cmdline modules extra 1048576 (λ x. 7)).bytes 1048576 ≡ 3
unfolding fill_mbi put_string
counted = refl
