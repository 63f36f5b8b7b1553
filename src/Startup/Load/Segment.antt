-- ===== src/Startup/Load/Segment.antt =====
-- One segment is copied from the file to its place.
use bootstrap.Prelude.{
  ℕ, ◌+◌, ◌-◌, ◌%◌, ◌^◌, ◌≤◌, ◌<◌, ◌≡◌, ◌⊎◌, inl, inr, refl, ap, Bool, true, false, ◌&&◌, ◌||◌, not,
  List, [], ◌∷◌, ok, ◌==◌, Bool-cases, Option-cases, arith, add_word, le→leb, lt→ltb,
}
use mathlib.Core.Path.{subst}
use bootstrap.Region.{Region, sized, point, no_mem}
use bootstrap.RegionList.{find, find_container, replace_first}
use bootstrap.AlignedCopy.{store}
use bootstrap.AlignedCopy.Copies.{Apart, Copied, memcpy_aligned-Copied}
use bootstrap.Startup.ElfLoad.{ProgramHeader, BootModule, ElfTypes, is_some}
use bootstrap.Startup.Load.{Loaded, copy_file, clear_rest, rename_region, read_exec}

store-Copied : (d s n : ℕ) (bytes : ℕ → ℕ) → Copied d s n bytes (store n d s bytes)
unfolding store
store-Copied d s n bytes = record {
  inside = λ k h.
      let back : d + k - d + s ≡ s + k = omega arith in
      rw (le→leb d (d + k) (omega arith), lt→ltb (d + k) (d + n) (omega (arith, h)))
        (ap bytes back);
  outside = λ x h. ground (arith, h);
}

copy_file-Copied :
    (d s n : ℕ) (bytes : ℕ → ℕ) → Apart d s n → Copied d s n bytes (copy_file d s n bytes)
unfolding copy_file
copy_file-Copied d s n bytes a = elim (Bool-cases (not (s % 8 == 0) || not (d % 8 == 0))) [
  | inl e ↦ rw (e) (store-Copied d s n bytes)
  | inr e ↦ rw (e) (memcpy_aligned-Copied d s n bytes a)
]

-- What loading a segment does to the memory: the bytes of the file, then zeros, and nothing else.
pub record Filled (dst src filesz memsz : ℕ) (bytes bytes' : ℕ → ℕ) : Type 0 where
  pub file : (k : ℕ) → k < filesz → bytes' (dst + k) ≡ bytes (src + k)
  pub zeros : (k : ℕ) → filesz ≤ k → k < memsz → bytes' (dst + k) ≡ 0
  pub others : (x : ℕ) → (x < dst) ⊎ (dst + memsz ≤ x) → bytes' x ≡ bytes x

segment-Filled :
    (d s n m : ℕ) (bytes : ℕ → ℕ)
    → n ≤ m
    → Apart d s n
    → Filled d s n m bytes (clear_rest d n m (copy_file d s n bytes))
unfolding clear_rest
segment-Filled d s n m bytes h a = record {
  file = λ k l. ground (arith, l, c.inside k l);
  zeros = λ k l u. ground (arith, l, u);
  others = λ x o. ground (arith, o, h, outside x o);
}
  where
    c : Copied d s n bytes (copy_file d s n bytes)
    c = copy_file-Copied d s n bytes a

    outside : (x : ℕ) → (x < d) ⊎ (d + m ≤ x) → copy_file d s n bytes x ≡ bytes x
    outside x (inl l) = c.outside x (inl l)
    outside x (inr l) = c.outside x (inr (omega (arith, l, h)))

-- A region that is renamed is found as before.
rename-find :
    (addr name : ℕ) (regs : List Region) (o : Region)
    → is_some (find (rename_region addr name regs) o) ≡ is_some (find regs o)
unfolding rename_region find replace_first
rename-find addr name [] o = refl
rename-find addr name (r ∷ rs) o = ground (arith, rename-find addr name rs o)

sized_place :
    (b n : ℕ)
    → b + n < 2 ^ 64
    → 0 < n
    → sized b n
      ≡ ok (record {
        begin = b;
        end = b + n - 1;
        name = 0;
        type = no_mem;
        sub_type = 0;
        eager = false;
      })
unfolding sized
sized_place b n h k = ground arith

module _ (t : ElfTypes) (sysalloc ram : List Region) (offset : ℕ) (m : BootModule) where
  -- The address to which a segment is loaded.
  abbrev pub target : ProgramHeader → ℕ
  target ph = add_word ph.p_paddr offset

  abbrev pub to_load : ProgramHeader → Bool
  to_load ph = not (ph.p_memsz == 0) && (ph.p_type == t.pt_load)

  abbrev pub target_region : ProgramHeader → Region
  target_region ph = record {
    begin = target ph;
    end = target ph + ph.p_memsz - 1;
    name = 0;
    type = no_mem;
    sub_type = 0;
    eager = false;
  }

  -- The segment lies in the file and in front of the end of the address space, its place in RAM and
  -- in the area for the start, behind or in front of the file, and a region begins there or earlier.
  pub record IsPlaced (regs : List Region) (ph : ProgramHeader) : Type 0 where
    pub fits : target ph + ph.p_memsz < 2 ^ 64
    pub in_memory : ph.p_filesz ≤ ph.p_memsz
    pub in_file : m.start + (ph.p_offset + ph.p_filesz) ≤ m.end
    pub file_fits : m.end < 2 ^ 64
    pub apart : (target ph + ph.p_memsz ≤ m.start) ⊎ (m.end ≤ target ph)
    pub in_sysalloc : is_some (find_container sysalloc (target_region ph)) ≡ true
    pub in_ram : is_some (find_container ram (target_region ph)) ≡ true
    pub in_region : is_some (find regs (point (target ph))) ≡ true

  pub read_exec-Filled :
      (s : Loaded) (ph : ProgramHeader)
      → to_load ph ≡ true
      → IsPlaced s.list.regs ph
      → (s' : Loaded) × (read_exec t sysalloc ram offset m s ph ≡ ok (0, s'))
        × Filled (target ph) (m.start + ph.p_offset) ph.p_filesz ph.p_memsz s.bytes s'.bytes
        × ((o : Region) → is_some (find s'.list.regs o) ≡ is_some (find s.list.regs o))
  unfolding read_exec Apart
  read_exec-Filled s ph l p = elim (Option-cases (find s.list.regs (point (target ph)))) [
    | inl e ↦ absurd (cc (p.in_region, ap is_some e))
    | inr (f, e) ↦ (
      record {
        bytes = filled;
        list = record s.list { regs = rename_region (target ph) m.name s.list.regs };
      },
      rw
          (
            some_bytes,
            is_load,
            sized_place (target ph) ph.p_memsz p.fits size,
            p.in_sysalloc,
            p.in_ram,
            e,
          )
          refl,
      subst (λ src. Filled (target ph) src ph.p_filesz ph.p_memsz s.bytes filled) from
          (segment-Filled (target ph) (add_word m.start ph.p_offset) ph.p_filesz ph.p_memsz s.bytes
            p.in_memory (apart p.apart)),
      rename-find (target ph) m.name s.list.regs,
    )
  ]
    where
      filled : ℕ → ℕ
      filled =
          clear_rest (target ph) ph.p_filesz ph.p_memsz
            (copy_file (target ph) (add_word m.start ph.p_offset) ph.p_filesz s.bytes)

      some_bytes : (ph.p_memsz == 0) ≡ false
      some_bytes = ground (arith, l)

      size : 0 < ph.p_memsz
      size = ground (arith, some_bytes)

      is_load : (ph.p_type == t.pt_load) ≡ true
      is_load = ground (arith, l)

      from : add_word m.start ph.p_offset ≡ m.start + ph.p_offset
      from = omega (arith, p.in_file, p.file_fits)

      apart :
          (target ph + ph.p_memsz ≤ m.start) ⊎ (m.end ≤ target ph)
          → Apart (target ph) (add_word m.start ph.p_offset) ph.p_filesz
      apart (inl h) = inl (omega (arith, h, from, p.in_memory))
      apart (inr h) = inr (omega (arith, h, from, p.in_file))
