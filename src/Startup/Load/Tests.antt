-- ===== src/Startup/Load/Tests.antt =====
-- A binary with two segments behind each other, the second of which has no bytes in the file.
use bootstrap.Prelude.{ℕ, ◌≡◌, [], ◌∷◌, some, ok, true, false, refl, inl, arith, word_max}
use bootstrap.Region.{Region, point, root}
use bootstrap.RegionList.{find, find_container}
use bootstrap.Startup.ElfLoad.{ProgramHeader, BootModule, ElfTypes, exec_load_elf}
use bootstrap.Startup.Load.{Loaded, read_exec}
use bootstrap.Startup.Load.Segment.{IsPlaced}
use bootstrap.Startup.Load.Segments.{AllLoaded, exec_load_elf-AllLoaded}

abbrev types : ElfTypes
types = record {
  pt_load = 1;
  pt_dynamic = 2;
  l4_kip = 100;
  l4_kopt = 101;
  mod_reg = 9;
  boot_temporary = 1;
  section_ro = 1;
  section_w = 2;
  section_x = 4;
}

abbrev segment : ℕ → ℕ → ℕ → ℕ → ProgramHeader
segment offset paddr filesz memsz = record {
  p_type = 1;
  p_offset = offset;
  p_paddr = paddr;
  p_filesz = filesz;
  p_memsz = memsz;
  p_align = 4096;
  writable = false;
  executable = true;
}

abbrev binary : BootModule
binary = record {
  start = 65536;
  end = 65792;
  name = 3;
  has_magic = true;
  has_arch = true;
  entry = 4096;
  headers = segment 64 4096 100 128 ∷ segment 164 8192 0 64 ∷ [];
  reloc = false;
}

abbrev area : Region
area = record { begin = 0; end = 1048575; name = 0; type = root; sub_type = 0; eager = false }

abbrev initial : Loaded
initial = record {
  bytes = λ x. x;
  list = record {
    regs = area ∷ [];
    max = 4;
    name = 0;
    max_combined_size = word_max;
    address_limit = word_max;
    combined_size = 1048576;
  };
}

first-IsPlaced :
    IsPlaced types (area ∷ []) (area ∷ []) 0 binary (area ∷ []) (segment 64 4096 100 128)
unfolding find_container find point
first-IsPlaced = record {
  fits = omega arith;
  in_memory = omega arith;
  in_file = omega arith;
  file_fits = omega arith;
  apart = inl (omega arith);
  in_sysalloc = refl;
  in_ram = refl;
  in_region = refl;
}

second-IsPlaced :
    IsPlaced types (area ∷ []) (area ∷ []) 0 binary (area ∷ []) (segment 164 8192 0 64)
unfolding find_container find point
second-IsPlaced = record {
  fits = omega arith;
  in_memory = omega arith;
  in_file = omega arith;
  file_fits = omega arith;
  apart = inl (omega arith);
  in_sysalloc = refl;
  in_ram = refl;
  in_region = refl;
}

exec_load_elf-AllLoaded_example :
    (s' : Loaded) × (exec_load_elf (read_exec types (area ∷ []) (area ∷ []) 0 binary) initial binary
      ≡ ok (some 0, s'))
    × AllLoaded types (area ∷ []) (area ∷ []) 0 binary initial s' binary.headers
exec_load_elf-AllLoaded_example =
    exec_load_elf-AllLoaded types (area ∷ []) (area ∷ []) 0 binary refl refl refl initial
      (λ e. first-IsPlaced, (λ e. second-IsPlaced, tt))
      (λ e. (λ e'. inl (omega arith), tt), (λ e. tt, tt))
