-- ===== src/Boot32/Bootstrap.antt =====
-- boot_kernel.c of boot32: what is reserved before the 64-bit part is loaded.
use bootstrap.Prelude.{
  ℕ, zero, suc, ◌+◌, ◌-◌, ◌*◌, ◌^◌, ◌%◌, ◌&&◌, List, [], ◌∷◌, Result, ok, ◌>>=◌, ltb, if◌then◌else◌,
  add_word, length, take,
}
use bootstrap.Align.{Align}
use bootstrap.Boot32.Reservations.{Area, reservation_add, sub_32, add_32}
use bootstrap.Boot32.MmAlloc.{AddrRange, MemoryMap, MmAllocState, mm_alloc_init}
use bootstrap.Boot32.LoadElf.{Elf, reserve_elf, load_elf}

-- A module of the Multiboot information with the length of its command line.
pub record MbModule : Type 0 where
  pub begin : ℕ
  pub end : ℕ
  pub cmdline : ℕ
  pub cmdline_length : ℕ

-- The Multiboot information as it is read here: its address and size, the command line, the array
-- of the modules, `mem_upper` and the memory map.
pub record MbInfo32 : Type 0 where
  pub address : ℕ
  pub info_size : ℕ
  pub cmdline : ℕ
  pub cmdline_length : ℕ
  pub mods_addr : ℕ
  pub mod_size : ℕ
  pub modules : List MbModule
  pub mem_upper : ℕ
  pub ranges : List AddrRange

-- `find_upper_mem`, from a maximum on.
unfoldable pub upper_mem : List AddrRange → ℕ → ℕ
upper_mem [] top = top
upper_mem (m ∷ ms) top =
    let next = upper_mem ms (add_word m.addr m.size) in
    let skip = upper_mem ms top in if ltb top (add_word m.addr m.size) && m.ram then next else skip

-- The loop of `reserve_mbi`.
unfoldable pub reserve_modules : Align → List MbModule → List Area → Result (List Area)
reserve_modules a [] reserved = ok reserved
reserve_modules a (m ∷ ms) reserved =
    reservation_add a m.cmdline (add_32 m.cmdline_length 1) reserved
    >>= reservation_add a m.begin (sub_32 m.end m.begin)
    >>= reserve_modules a ms

unfoldable pub reserve_mbi : Align → MbInfo32 → List Area → Result (List Area)
unfolding reserve_modules
reserve_mbi a i reserved =
    reservation_add a i.address i.info_size reserved
    >>= reservation_add a i.cmdline (add_32 i.cmdline_length 1)
    >>= reservation_add a i.mods_addr (length i.modules * i.mod_size % 2 ^ 32)
    >>= reserve_modules a i.modules

-- The binaries of the first three modules, at their final places.
unfoldable pub reserve_elfs : Align → List Elf → List Area → Result (List Area)
reserve_elfs a [] reserved = ok reserved
reserve_elfs a (e ∷ es) reserved = reserve_elf a e reserved >>= reserve_elfs a es

-- The reservations of `bootstrap`: the image, the null page, the trampoline page, the binaries
-- and the boot information.
unfoldable pub reserve_boot :
    Align → (image_start image_end : ℕ) → List Elf → MbInfo32 → Result (List Area)
unfolding reserve_mbi reserve_elfs
reserve_boot a image_start image_end elfs i =
    reservation_add a image_start (sub_32 image_end image_start) []
    >>= reservation_add a 0 4096
    >>= reservation_add a 4096 4096
    >>= reserve_elfs a (take 3 elfs)
    >>= reserve_mbi a i

-- `mem_upper` as `bootstrap` computes it, without the limit.
abbrev pub memory_top : ℕ → ℕ → ℕ
memory_top mem_upper zero = 1024 * (1024 + mem_upper) % 2 ^ 32
memory_top mem_upper (suc top) = suc top

-- `round_superpage`
abbrev pub round_superpage : ℕ → ℕ
round_superpage x = add_word x (2 ^ 21 - 1) - add_word x (2 ^ 21 - 1) % 2 ^ 21

-- The memory that is mapped before the 64-bit part runs, at most 4 GiB.
unfoldable pub mapped_memory : MbInfo32 → ℕ
unfolding upper_mem
mapped_memory i =
    let top = memory_top i.mem_upper (upper_mem i.ranges 0) in
    round_superpage (if ltb (4 * 2 ^ 30) top then 4 * 2 ^ 30 else top)

-- `bootstrap` up to the jump: the entry point, the memory and the size of the mapping.
unfoldable pub boot_32 :
    Align
    → MemoryMap
    → (image_start image_end fuel : ℕ) → List Elf
    → MbInfo32
    → Elf
    → MmAllocState
    → (ℕ → ℕ)
    → Result (ℕ × (ℕ → ℕ) × ℕ)
unfolding reserve_boot mapped_memory
boot_32 a m image_start image_end fuel elfs i kernel s bytes =
    reserve_boot a image_start image_end elfs i >>= λ reserved.
    load_elf m reserved fuel kernel (mm_alloc_init s) bytes >>= λ r. ok (r.0, r.1, mapped_memory i)
