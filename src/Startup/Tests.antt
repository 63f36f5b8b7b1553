-- ===== src/Startup/Tests.antt =====
-- Command lines and memories on which the theorems about startup.cc apply.
use bootstrap.Prelude.{
  ℕ, ◌≡◌, ◌-◌, ◌^◌, ◌↔◌, refl, true, false, ◌&&◌, not, leb, List, [], ◌∷◌, some, none, ok, err,
  out_of_fuel, arith, drop, ◌+◌, length,
}
use bootstrap.Region.{Region, boot}
use bootstrap.RegionList.Order.{covered}
use bootstrap.Startup.{starts_with, strstr, at_word, check_arg, fill_mem}
use bootstrap.Align.Sample.{sample}
use bootstrap.RegionList.{RegionList}
use bootstrap.Startup.Layout.{add_kmem_area_on_ram}
use bootstrap.Startup.Kmem.{add_kmem_area_on_ram_hangs}
use bootstrap.Startup.ElfLoad.{ElfTypes, ProgramHeader, SectionInfo}
use bootstrap.Startup.CommandLine.{
  check_arg_hangs, check_arg_finds, IsFirst, AtWord, check_arg-none,
}
use bootstrap.Startup.FillMem.{Bounded, Partial, Filled, fill_mem-Filled}

-- "-m=", "a -m=1" and "a-m=1"
abbrev arg : List ℕ
arg = 45 ∷ 109 ∷ 61 ∷ []

abbrev apart : List ℕ
apart = 97 ∷ 32 ∷ 45 ∷ 109 ∷ 61 ∷ 49 ∷ []

abbrev joined : List ℕ
joined = 97 ∷ 45 ∷ 109 ∷ 61 ∷ 49 ∷ []

check_arg_finds_example :
    (check_arg 1 (some apart) arg ≡ ok (some 5))
    ↔ ((k : ℕ) × (5 ≡ k + length arg) × IsFirst apart arg k × AtWord apart k)
check_arg_finds_example = check_arg_finds 0 apart arg 5

check_arg_hangs_example : check_arg 1000 (some joined) arg ≡ err out_of_fuel
unfolding strstr starts_with at_word
check_arg_hangs_example = check_arg_hangs 1000 joined arg 1 refl refl

check_arg-none_example :
    (check_arg 1 (some joined) apart ≡ ok none)
    ↔ ((j : ℕ) → starts_with (drop j joined) apart ≡ false)
check_arg-none_example = check_arg-none 0 joined apart

abbrev plain : ℕ → ℕ → Region
plain b e = record { begin = b; end = e; name = 0; type = boot; sub_type = 0; eager = false }

abbrev ram : List Region
ram = plain 0x1000 0x3fff ∷ plain 0x8000 0xffff ∷ []

abbrev regions : List Region
regions = plain 0x2000 0x2fff ∷ plain 0x3800 0x87ff ∷ []

fill_mem-Filled_example :
    Filled 0xaa
      (λ x. covered ram x && leb x 0xbfff && not (covered regions x))
      (λ x. 0)
      (fill_mem ram regions 0xbfff 0xaa (λ x. 0))
unfolding Bounded Partial
fill_mem-Filled_example =
    fill_mem-Filled ram regions 0 0xbfff 0xaa (λ x. 0)
      (omega arith, omega arith, omega arith, (omega arith, omega arith, omega arith, tt))
      (omega arith, omega arith, omega arith, (omega arith, omega arith, omega arith, tt))
      (omega arith, (omega arith, tt)) (omega arith, (omega arith, tt))

abbrev kernel_area : Region
kernel_area = record {
  begin = 8193;
  end = 12287;
  name = 0;
  type = boot;
  sub_type = 0;
  eager = false;
}

abbrev wanted : Region
wanted = record { begin = 8192; end = 16383; name = 0; type = boot; sub_type = 0; eager = false }

abbrev occupied : RegionList
occupied = record {
  regs = kernel_area ∷ [];
  max = 4;
  name = 0;
  max_combined_size = 2 ^ 64 - 1;
  address_limit = 2 ^ 64 - 1;
  combined_size = 4095;
}

add_kmem_area_on_ram_hangs_example :
    add_kmem_area_on_ram sample 7 20 occupied wanted ≡ err out_of_fuel
add_kmem_area_on_ram_hangs_example =
    add_kmem_area_on_ram_hangs sample 7 20 occupied kernel_area [] wanted refl (omega arith)
      (omega arith, omega arith) refl refl

abbrev elf_types : ElfTypes
elf_types = record {
  pt_load = 1;
  pt_dynamic = 2;
  l4_kip = 100;
  l4_kopt = 101;
  mod_reg = 9;
  boot_temporary = 1;
  section_ro = 1;
  section_w = 2;
  section_x = 4;
}

abbrev text_header : ProgramHeader
text_header = record {
  p_type = 1;
  p_offset = 4096;
  p_paddr = 20480;
  p_filesz = 100;
  p_memsz = 4096;
  p_align = 4096;
  writable = false;
  executable = true;
}

abbrev no_section : SectionInfo
no_section = record {
  start = 2 ^ 64 - 1;
  end = 0;
  align = 1;
  has_dynamic = false;
  needs_relocation = false;
}
