-- ===== src/KernelInfo/Tests.antt =====
-- The descriptors of two RAM regions, and those of a region in the first KiB.
use bootstrap.Prelude.{ℕ, ◌≡◌, refl, true, false, List, [], ◌∷◌, arith}
use bootstrap.Align.Sample.{sample, sample-IsAlign}
use bootstrap.Region.{Region, boot}
use bootstrap.RegionList.Order.{covered}
use bootstrap.KernelInfo.{ram_desc, ram_descs}
use bootstrap.KernelInfo.Descriptors.{described, Roomy, ram_descs-covered}

abbrev plain : ℕ → ℕ → Region
plain b e = record { begin = b; end = e; name = 0; type = boot; sub_type = 0; eager = false }

abbrev ram : List Region
ram = plain 0x1200 0x3fff ∷ plain 0x8000 0xf0ff ∷ []

ram_descs-covered_example : covered ram 0x3000 ≡ true
unfolding described ram_descs ram_desc Roomy
ram_descs-covered_example =
    ram_descs-covered sample sample-IsAlign ram 0 0x3000
      (omega arith, omega arith, omega arith, (omega arith, omega arith, omega arith, tt))
      (omega arith, omega arith, (omega arith, omega arith, tt)) refl
