-- ===== src/Startup/ElfLoad.antt =====
-- exec.cc, and the callbacks of startup.cc that it calls for the program headers.
use bootstrap.Prelude.{
  ℕ, zero, suc, ◌-◌, ◌^◌, Bool, true, false, ◌&&◌, ◌||◌, not, Option, none, some, List, [], ◌∷◌,
  Result, ok, err, ◌>>=◌, ltb, leb, ◌==◌, if◌then◌else◌, word_max, add_word, sub_word, min, max,
  bit_and, bit_or, region_overlap, bad_elf, no_memory, module_outside_ram,
}
use bootstrap.Align.{Align}
use bootstrap.Region.{
  Region, RegionType, sized, start_size, overlaps, contains, boot, root, kernel, type_code,
}
use bootstrap.RegionList.{RegionList, find, find_container, add}

-- The fields of `ElfW(Phdr)` that are read; the type is a number, and the flags are those for
-- writing and executing.
pub record ProgramHeader : Type 0 where
  pub p_type : ℕ
  pub p_offset : ℕ
  pub p_paddr : ℕ
  pub p_filesz : ℕ
  pub p_memsz : ℕ
  pub p_align : ℕ
  pub writable : Bool
  pub executable : Bool

-- A boot module with an ELF binary: the tests of its magic number and its architecture, which are
-- external, and its headers. `name` stands for `m.cmdline`, or for the text for a module without.
pub record BootModule : Type 0 where
  pub start : ℕ
  pub end : ℕ
  pub name : ℕ
  pub has_magic : Bool
  pub has_arch : Bool
  pub entry : ℕ
  pub headers : List ProgramHeader
  pub reloc : Bool

-- The loop of `exec_load_elf`, whose state is what the handler changes; headers of type 0 are
-- skipped, and the first result but 0 is returned.
unfoldable pub exec_headers :
    {S : Type 0} → (S → ProgramHeader → Result (ℕ × S)) → List ProgramHeader → S → Result (ℕ × S)
exec_headers handler [] s = ok (0, s)
exec_headers handler (ph ∷ phs) s =
    let skip = exec_headers handler phs s in
    let next = handler s ph >>= λ r.
    let rest = exec_headers handler phs r.1 in if r.0 == 0 then rest else ok r in
    if ph.p_type == 0 then skip else next

-- `exec_load_elf`: none for the result -1, with the state unchanged.
unfoldable pub exec_load_elf :
    {S : Type 0} → (S → ProgramHeader → Result (ℕ × S)) → S → BootModule → Result (Option ℕ × S)
unfolding exec_headers
exec_load_elf handler s m =
    let run = exec_headers handler m.headers s >>= λ r. ok (some r.0, r.1) in
    if not m.has_magic then ok (none, s) else if not m.has_arch then ok (none, s) else run

-- `Hdr_info` as it is filled in.
pub record HdrInfo : Type 0 where
  pub hdr_type : ℕ
  pub start : ℕ
  pub size : ℕ
  pub file_ofs : ℕ

-- `l4_exec_find_hdr`
unfoldable pub find_hdr : HdrInfo → ProgramHeader → Result (ℕ × HdrInfo)
find_hdr hdr ph =
    if hdr.hdr_type == ph.p_type
    then ok (
      1,
      record {
        hdr_type = hdr.hdr_type;
        start = ph.p_paddr;
        size = ph.p_memsz;
        file_ofs = ph.p_offset;
      },
    )
    else ok (0, hdr)

-- `Section_info`
pub record SectionInfo : Type 0 where
  pub start : ℕ
  pub end : ℕ
  pub align : ℕ
  pub has_dynamic : Bool
  pub needs_relocation : Bool

-- The constants of the ELF header files, and the number of the name of module regions.
pub record ElfTypes : Type 0 where
  pub pt_load : ℕ
  pub pt_dynamic : ℕ
  pub l4_kip : ℕ
  pub l4_kopt : ℕ
  pub mod_reg : ℕ
  pub boot_temporary : ℕ
  pub section_ro : ℕ
  pub section_w : ℕ
  pub section_x : ℕ

abbrev pub is_some : {A : Type 0} → Option A → Bool
is_some none = false
is_some (some x) = true

-- A result other than 0 stops the machine.
abbrev pub done_or_panic : {S : Type 0} → Option ℕ × S → Result S
done_or_panic (none, s) = err bad_elf
done_or_panic (some zero, s) = ok s
done_or_panic (some (suc n), s) = err bad_elf

module _ (a : Align) (t : ElfTypes) where
  -- `find_region_overlap`
  unfoldable pub find_region_overlap : List Region → Region → Option Region
  find_region_overlap [] n = none
  find_region_overlap (r ∷ rs) n =
      let rest = find_region_overlap rs n in
      if overlaps r n
        && not (r.name == t.mod_reg)
        && not ((type_code r.type == type_code boot) && (r.sub_type == t.boot_temporary))
      then some r
      else rest

  -- Whether a segment cannot stay where it is linked to.
  abbrev pub misplaced : List Region → List Region → List Region → Region → Bool
  misplaced ram sysalloc regions r =
      not (is_some (find_container sysalloc r))
      || (not (is_some (find_container ram r)) || is_some (find_region_overlap regions r))

  abbrev pub with_dynamic : SectionInfo → Bool → SectionInfo
  with_dynamic info dynamic = record {
    start = info.start;
    end = info.end;
    align = info.align;
    has_dynamic = info.has_dynamic || dynamic;
    needs_relocation = info.needs_relocation;
  }

  -- `l4_exec_gather_info`
  unfoldable pub gather_info :
      List Region
      → List Region
      → List Region
      → SectionInfo
      → ProgramHeader
      → Result (ℕ × SectionInfo)
  unfolding find_region_overlap
  gather_info ram sysalloc regions info ph =
      let next = with_dynamic info (ph.p_type == t.pt_dynamic) in
      let load = sized ph.p_paddr ph.p_memsz >>= λ r. ok (
        0,
        record {
          start = min info.start ph.p_paddr;
          end = max info.end (sub_word (add_word ph.p_paddr ph.p_memsz) 1);
          align = max info.align ph.p_align;
          has_dynamic = next.has_dynamic;
          needs_relocation = info.needs_relocation || misplaced ram sysalloc regions r;
        },
      ) in
      if ph.p_memsz == 0
      then ok (0, info)
      else if not (ph.p_type == t.pt_load)
      then ok (0, next)
      else load

  abbrev pub rights : ProgramHeader → ℕ
  rights ph =
      bit_or (bit_or t.section_ro (if ph.writable then t.section_w else 0))
        (if ph.executable then t.section_x else 0)

  -- The end of `l4_exec_add_region`, at the area for the start that was found.
  abbrev pub add_within : RegionList → Region → Option Region → Result (ℕ × RegionList)
  add_within l n none = err module_outside_ram
  add_within l n (some r) =
      if contains r n then (add a l n true >>= λ l'. ok (0, l')) else err module_outside_ram

  abbrev pub add_checked :
      List Region → RegionList → Region → Option Region → Result (ℕ × RegionList)
  add_checked sysalloc l n none = add_within l n (find sysalloc n)
  add_checked sysalloc l n (some r) = err region_overlap

  -- `l4_exec_add_region`, for the type of `Elf_info` and its offset.
  unfoldable pub add_region :
      List Region → RegionType → ℕ → ℕ → RegionList → ProgramHeader → Result (ℕ × RegionList)
  unfolding find_region_overlap
  add_region sysalloc type offset name l ph =
      let subtype = if type_code type == type_code root then rights ph else 0 in
      let new =
        start_size (add_word ph.p_paddr offset) ph.p_memsz name type subtype
          (not (type_code type == type_code kernel))
        >>= λ n. add_checked sysalloc l n (find_region_overlap l.regs n) in
      if ph.p_memsz == 0 then ok (0, l) else if not (ph.p_type == t.pt_load) then ok (0, l) else new

  -- `add_elf_regions`: the search for a place is the memory manager's `find_free_ram`, with the
  -- size, the lowest address and the logarithm of the alignment; `behind` is the address from
  -- which the kernel is placed.
  abbrev pub align_shift : ℕ → ℕ → ℕ
  align_shift zero align = 0
  align_shift (suc n) align =
      let rest = align_shift n align in if leb (2 ^ suc n) align then suc n else rest

  abbrev pub addr_or_panic : ℕ → Result ℕ
  addr_or_panic zero = err no_memory
  addr_or_panic (suc x) = ok (suc x)

  unfoldable pub elf_offset : (ℕ → ℕ → ℕ → Result ℕ) → ℕ → RegionType → ℕ → SectionInfo → Result ℕ
  elf_offset find_free_ram behind type min_align si =
      let align = max si.align min_align in
      let start = bit_and si.start (word_max - sub_word align 1) in
      let n = add_word (sub_word si.end start) 1 in
      let low = if type_code type == type_code kernel then behind else 0 in
      let place = find_free_ram n low (align_shift 63 align) >>= λ first.
      (if first == 0 then find_free_ram n 0 (align_shift 63 align) else ok first) >>= λ addr.
      addr_or_panic addr >>= λ to. ok (sub_word to start) in
      if si.needs_relocation && si.has_dynamic && ltb si.start si.end then place else ok 0

  unfoldable pub add_elf_regions :
      (ℕ → ℕ → ℕ → Result ℕ)
      → ℕ
      → List Region
      → List Region
      → RegionType
      → ℕ
      → BootModule
      → RegionList
      → Result (ℕ × RegionList)
  unfolding gather_info add_region elf_offset
  add_elf_regions find_free_ram behind ram sysalloc type min_align m l =
      exec_load_elf (gather_info ram sysalloc l.regs)
        (record {
          start = word_max;
          end = 0;
          align = 1;
          has_dynamic = false;
          needs_relocation = m.reloc;
        })
        m
      >>= done_or_panic
      >>= elf_offset find_free_ram behind type min_align
      >>= λ offset.
          exec_load_elf (add_region sysalloc type offset m.name) l m >>= done_or_panic >>= λ l'.
          ok (offset, l')
