-- ===== src/Startup/Gather.antt =====
-- What `add_elf_regions` knows of a binary after its first walk over the headers.
use bootstrap.Prelude.{
  ◌+◌, ◌-◌, ◌^◌, ◌≤◌, ◌<◌, ◌≡◌, Bool, true, false, ◌&&◌, not, List, [], ◌∷◌, ◌==◌,
}
use bootstrap.Align.{Align}
use bootstrap.Region.{Region, no_mem}
use bootstrap.Startup.ElfLoad.{ProgramHeader, SectionInfo, ElfTypes, misplaced}

module _ (a : Align) (t : ElfTypes) (ram sysalloc regions : List Region) where
  -- A header of a segment that is loaded.
  abbrev pub loads : ProgramHeader → Bool
  loads ph = not (ph.p_memsz == 0) && (ph.p_type == t.pt_load)

  abbrev pub segment_region : ProgramHeader → Region
  segment_region ph = record {
    begin = ph.p_paddr;
    end = ph.p_paddr + ph.p_memsz - 1;
    name = 0;
    type = no_mem;
    sub_type = 0;
    eager = false;
  }

  -- The segment lies between start and end, the alignment is at least its own, and if no relocation
  -- is needed, it can stay where it is linked to.
  pub record Gathered (info : SectionInfo) (ph : ProgramHeader) : Type 0 where
    pub low : info.start ≤ ph.p_paddr
    pub high : ph.p_paddr + ph.p_memsz ≤ info.end + 1
    pub align : ph.p_align ≤ info.align
    pub stays :
        info.needs_relocation ≡ false
        → misplaced a t ram sysalloc regions (segment_region ph) ≡ false

  abbrev pub AllGathered : SectionInfo → List ProgramHeader → Type 0
  AllGathered info [] = Unit
  AllGathered info (ph ∷ phs) = (loads ph ≡ true → Gathered info ph) × AllGathered info phs

  -- No segment reaches the end of the address space, and the type of those that are loaded is not 0.
  abbrev pub AllFit : List ProgramHeader → Type 0
  AllFit [] = Unit
  AllFit (ph ∷ phs) = (ph.p_paddr + ph.p_memsz < 2 ^ 64) × AllFit phs

  pub record Wider (x y : SectionInfo) : Type 0 where
    pub low : y.start ≤ x.start
    pub high : x.end ≤ y.end
    pub align : x.align ≤ y.align
    pub stays : y.needs_relocation ≡ false → x.needs_relocation ≡ false
