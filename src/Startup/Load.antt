-- ===== src/Startup/Load.antt =====
-- startup.cc: the segments of a binary are copied to their places, and the region of the module is
-- freed.
pub mod Segment
pub mod Segments
mod Tests
use bootstrap.Prelude.{
  ℕ, ◌+◌, ◌-◌, ◌%◌, Bool, true, false, ◌&&◌, ◌||◌, not, Option, none, some, List, [], ◌∷◌, Result,
  ok, err, ◌>>=◌, ltb, leb, ◌==◌, if◌then◌else◌, add_word, sub_word, binary_outside_memory,
  no_region,
}
use bootstrap.Align.{Align, round_page}
use bootstrap.Region.{Region, sized, point, overlaps}
use bootstrap.RegionList.{RegionList, find, find_container, replace_first, sub}
use bootstrap.AlignedCopy.{store, memcpy_aligned}
use bootstrap.Startup.ElfLoad.{
  ProgramHeader, BootModule, ElfTypes, exec_load_elf, is_some, done_or_panic,
}

-- The bytes of the memory, in which physical addresses are pointers, and the regions.
pub record Loaded : Type 0 where
  pub bytes : ℕ → ℕ
  pub list : RegionList

-- The copy of the bytes of the file: `memcpy` of the C library, or `memcpy_aligned` where both
-- addresses are those of words.
unfoldable pub copy_file : ℕ → ℕ → ℕ → (ℕ → ℕ) → ℕ → ℕ
unfolding store memcpy_aligned
copy_file dst src n bytes =
    if not (src % 8 == 0) || not (dst % 8 == 0)
    then store n dst src bytes
    else memcpy_aligned dst src n bytes

-- The `memset` of the rest of the segment.
unfoldable pub clear_rest : ℕ → ℕ → ℕ → (ℕ → ℕ) → ℕ → ℕ
clear_rest dst filesz memsz bytes x =
    if ltb filesz memsz && (leb (dst + filesz) x && ltb x (dst + memsz)) then 0 else bytes x

-- The name of the region that was found is set.
unfoldable pub rename_region : ℕ → ℕ → List Region → List Region
rename_region addr name =
    replace_first (λ c. overlaps c (point addr)) (λ c. record c { name = name } ∷ [])

abbrev pub name_or_panic : ℕ → ℕ → Loaded → (ℕ → ℕ) → Option Region → Result (ℕ × Loaded)
name_or_panic addr name s bytes none = err no_region
name_or_panic addr name s bytes (some f) = ok (
  0,
  record { bytes = bytes; list = record s.list { regs = rename_region addr name s.list.regs } },
)

-- `l4_exec_read_exec`; caches are left out. A pointer to a segment in the file is a word.
unfoldable pub read_exec :
    ElfTypes
    → List Region
    → List Region
    → ℕ
    → BootModule
    → Loaded
    → ProgramHeader
    → Result (ℕ × Loaded)
unfolding copy_file clear_rest rename_region
read_exec t sysalloc ram offset m s ph =
    let dst = add_word ph.p_paddr offset in
    let bytes =
      clear_rest dst ph.p_filesz ph.p_memsz
        (copy_file dst (add_word m.start ph.p_offset) ph.p_filesz s.bytes) in
    let load = sized dst ph.p_memsz >>= λ r.
    if not (is_some (find_container sysalloc r)) || not (is_some (find_container ram r))
    then err binary_outside_memory
    else name_or_panic dst m.name s bytes (find s.list.regs (point dst)) in
    if ph.p_memsz == 0 then ok (0, s) else if not (ph.p_type == t.pt_load) then ok (0, s) else load

-- `load_elf_module`: the module's region is taken from the regions, to the end of its last page or,
-- if that fails, to its own end.
abbrev pub free_module : Align → BootModule → RegionList → Result RegionList
free_module a m l = sized m.start (sub_word (round_page a m.end) m.start) >>= sub a l >>= λ r.
    let again = sized m.start (sub_word m.end m.start) >>= sub a r.1 >>= λ r'. ok r'.1 in
    if r.0 then ok r.1 else again

unfoldable pub load_elf_module :
    Align → ElfTypes → List Region → List Region → BootModule → ℕ → Loaded → Result (ℕ × Loaded)
unfolding exec_load_elf read_exec sub
load_elf_module a t sysalloc ram m offset s =
    exec_load_elf (read_exec t sysalloc ram offset m) s m >>= done_or_panic >>= λ s'.
    free_module a m s'.list >>= λ l.
    ok (add_word m.entry offset, record { bytes = s'.bytes; list = l })
