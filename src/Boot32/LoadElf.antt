-- ===== src/Boot32/LoadElf.antt =====
-- load_elf.c of boot32: the 64-bit part is loaded and, where its place is taken, relocated.
pub mod Usable
use bootstrap.Prelude.{
  ℕ, zero, suc, ◌+◌, ◌-◌, ◌*◌, ◌/◌, ◌^◌, ◌%◌, Bool, true, false, ◌&&◌, ◌||◌, not, Option, none,
  some, List, [], ◌∷◌, Result, ok, err, guard, ◌>>=◌, ◌>>◌, ltb, leb, ◌==◌, if◌then◌else◌, bit_and,
  word_max, add_word, sub_word, bad_elf, bad_relocation, no_memory, above_4g,
}
use bootstrap.Align.{Align}
use bootstrap.Boot32.Reservations.{
  Area, is_range_in_4g, overlaps_reservation, reservation_add, sub_32,
}
use bootstrap.Boot32.MmAlloc.{MemoryMap, MmAllocState, mm_alloc_alloc}

-- The fields of `Elf64_Phdr` that the loader reads; `load` is the test for `PT_LOAD`.
pub record Phdr : Type 0 where
  pub load : Bool
  pub offset : ℕ
  pub paddr : ℕ
  pub filesz : ℕ
  pub memsz : ℕ
  pub align : ℕ

-- `Elf64_Rela`; `relative` is the test of its type for `R_X86_64_RELATIVE`.
pub record Rela : Type 0 where
  pub offset : ℕ
  pub addend : ℕ
  pub relative : Bool

-- A section by its type: the entries of a `SHT_RELA` section, a `SHT_REL` section, or another one.
pub data Section : Type 0 where
  rela : List Rela → Section
  rel : Section
  other_section : Section

-- An ELF binary in memory. The three tests are those of `sanity_elf`.
pub record Elf : Type 0 where
  pub base : ℕ
  pub magic : Bool
  pub class_64 : Bool
  pub x86_64 : Bool
  pub entry : ℕ
  pub phdrs : List Phdr
  pub sections : List Section

-- `usable_range`
abbrev pub usable_range : ℕ → ℕ → List Area → Bool
usable_range start size reserved =
    is_range_in_4g start size
    && (overlaps_reservation (start % 2 ^ 32) (size % 2 ^ 32) reserved == 0)

abbrev pub sanity_elf : Elf → Result (Unit {0})
sanity_elf e = guard e.magic bad_elf >> (guard e.class_64 bad_elf >> guard e.x86_64 bad_elf)

-- The loop of `reserve_elf`.
unfoldable pub reserve_phdrs : Align → List Phdr → List Area → Result (List Area)
reserve_phdrs a [] reserved = ok reserved
reserve_phdrs a (ph ∷ phs) reserved =
    let skip = reserve_phdrs a phs reserved in
    let add =
      reservation_add a (ph.paddr % 2 ^ 32) (ph.memsz % 2 ^ 32) reserved >>= reserve_phdrs a phs in
    if ph.load then add else skip

unfoldable pub reserve_elf : Align → Elf → List Area → Result (List Area)
unfolding reserve_phdrs
reserve_elf a e reserved = sanity_elf e >> reserve_phdrs a e.phdrs reserved

-- What the first loop of `load_elf` finds out.
pub record Extent : Type 0 where
  pub min_addr : ℕ
  pub max_addr : ℕ
  pub max_align : ℕ
  pub need_reloc : Bool

-- A round of it.
abbrev pub widen : List Area → Phdr → Extent → Extent
widen reserved ph x = record {
  min_addr = if ltb ph.paddr x.min_addr then ph.paddr else x.min_addr;
  max_addr =
      if ltb x.max_addr (add_word ph.paddr ph.memsz)
      then add_word ph.paddr ph.memsz
      else x.max_addr;
  max_align = if ltb x.max_align ph.align && ltb 1 ph.align then ph.align % 2 ^ 32 else x.max_align;
  need_reloc = x.need_reloc || not (usable_range ph.paddr ph.memsz reserved);
}

unfoldable pub scan_phdrs : List Area → List Phdr → Extent → Extent
scan_phdrs reserved [] x = x
scan_phdrs reserved (ph ∷ phs) x =
    let skip = scan_phdrs reserved phs x in
    let next = scan_phdrs reserved phs (widen reserved ph x) in if ph.load then next else skip

abbrev pub no_extent : Extent
no_extent = record { min_addr = word_max; max_addr = 0; max_align = 0; need_reloc = false }

-- `min_addr &= ~(max_align - 1)`; the mask has 32 bits.
abbrev pub align_down : ℕ → ℕ → ℕ
align_down addr align = bit_and addr (2 ^ 32 - 1 - sub_32 align 1)

-- The null pointer stops the machine; else the offset `reloc`.
abbrev pub reloc_offset : ℕ → Option ℕ → Result ℕ
reloc_offset min_addr none = err no_memory
reloc_offset min_addr (some base) = ok (sub_word base min_addr)

-- The offset by which the binary is moved, and the state of the allocator.
unfoldable pub place_elf :
    MemoryMap → List Area → ℕ → Extent → MmAllocState → Result (ℕ × MmAllocState)
place_elf m reserved fuel x s =
    let min_addr = align_down x.min_addr x.max_align in
    let move = mm_alloc_alloc m reserved fuel (sub_word x.max_addr min_addr % 2 ^ 32) s >>= λ r.
    reloc_offset min_addr r.0 >>= λ reloc. ok (reloc, r.1) in
    if x.need_reloc then move else ok (0, s)

-- `memcpy` and `memset`.
abbrev pub copy_bytes : ℕ → ℕ → ℕ → (ℕ → ℕ) → ℕ → ℕ
copy_bytes dst src n bytes x =
    if leb dst x && ltb x (dst + n) then bytes (src + (x - dst)) else bytes x

abbrev pub zero_bytes : ℕ → ℕ → (ℕ → ℕ) → ℕ → ℕ
zero_bytes dst n bytes x = if leb dst x && ltb x (dst + n) then 0 else bytes x

-- A segment put at its place; `target` has 32 bits.
abbrev pub load_segment : ℕ → ℕ → Phdr → (ℕ → ℕ) → ℕ → ℕ
load_segment base reloc ph bytes =
    let target = add_word ph.paddr reloc % 2 ^ 32 in
    let copied = copy_bytes target (base + ph.offset) ph.filesz bytes in
    if ltb ph.filesz ph.memsz
    then zero_bytes (target + ph.filesz) (ph.memsz - ph.filesz) copied
    else copied

-- The second loop of `load_elf`.
unfoldable pub load_segments : ℕ → ℕ → List Phdr → (ℕ → ℕ) → Result (ℕ → ℕ)
load_segments base reloc [] bytes = ok bytes
load_segments base reloc (ph ∷ phs) bytes =
    let skip = load_segments base reloc phs bytes in
    let next = load_segments base reloc phs (load_segment base reloc ph bytes) in
    if ph.load then guard (is_range_in_4g base ph.offset) above_4g >> next else skip

-- An aligned word stored, the lowest byte first.
abbrev pub store_64 : ℕ → ℕ → (ℕ → ℕ) → ℕ → ℕ
store_64 addr v bytes x =
    if leb addr x && ltb x (addr + 8) then v / 256 ^ (x - addr) % 256 else bytes x

-- `relocate_rela_entry`
unfoldable pub relocate_rela_entry : Rela → ℕ → (ℕ → ℕ) → Result (ℕ → ℕ)
relocate_rela_entry r offset bytes =
    guard r.relative bad_relocation
    >> ok (store_64 (add_word r.offset offset % 2 ^ 32) (add_word r.addend offset) bytes)

unfoldable pub relocate_entries : List Rela → ℕ → (ℕ → ℕ) → Result (ℕ → ℕ)
relocate_entries [] offset bytes = ok bytes
relocate_entries (r ∷ rs) offset bytes =
    relocate_rela_entry r offset bytes >>= relocate_entries rs offset

-- The third loop, over the sections.
unfoldable pub relocate_sections : List Section → ℕ → (ℕ → ℕ) → Result (ℕ → ℕ)
relocate_sections [] offset bytes = ok bytes
relocate_sections (rela rs ∷ ss) offset bytes =
    relocate_entries rs offset bytes >>= relocate_sections ss offset
relocate_sections (rel ∷ ss) offset bytes = err bad_relocation
relocate_sections (other_section ∷ ss) offset bytes = relocate_sections ss offset bytes

-- The relocation is left out where the binary stays at its place.
abbrev pub relocate_if : ℕ → List Section → (ℕ → ℕ) → Result (ℕ → ℕ)
relocate_if zero ss bytes = ok bytes
relocate_if (suc reloc) ss bytes = relocate_sections ss (suc reloc) bytes

-- `load_elf`: the entry point, of 32 bits, the memory and the state of the allocator.
unfoldable pub load_elf :
    MemoryMap → List Area → ℕ → Elf → MmAllocState → (ℕ → ℕ) → Result (ℕ × (ℕ → ℕ) × MmAllocState)
load_elf m reserved fuel e s bytes =
    sanity_elf e
    >> (place_elf m reserved fuel (scan_phdrs reserved e.phdrs no_extent) s >>= λ r.
        load_segments e.base r.0 e.phdrs bytes >>= λ loaded.
        relocate_if r.0 e.sections loaded >>= λ relocated.
        ok (add_word e.entry r.0 % 2 ^ 32, relocated, r.1))
