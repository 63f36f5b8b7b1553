-- ===== src/Boot32/LoadElf/Usable.antt =====
-- Where load_elf.c puts the segments.
use bootstrap.Prelude.{
  ℕ, zero, suc, ◌+◌, ◌/◌, ◌^◌, ◌%◌, ◌≤◌, ◌<◌, ◌≡◌, ◌⊎◌, true, false, List, [], ◌∷◌, arith, Result,
  ok, err, no_memory, add_word, bit_and,
}
use Prim.Native.Nat.{digits, bit_and-bitwise, min}
use bootstrap.Boot32.Reservations.{Area, overlaps_reservation}
use bootstrap.Boot32.Reservations.Overlap.{Apart}
use bootstrap.Boot32.MmAlloc.{MemoryMap, MmAllocState}
use bootstrap.Boot32.LoadElf.{Phdr, Extent, usable_range}

-- A statement on every segment to load.
abbrev pub Segments : (Phdr → Type 0) → List Phdr → Type 0
Segments P [] = Unit
Segments P (ph ∷ phs) = (ph.load ≡ true → P ph) × Segments P phs

-- The segment does not reach the end of the address space.
abbrev pub NoWrap : Phdr → Type 0
NoWrap ph = ph.paddr + ph.memsz < 2 ^ 64

-- What is known of a segment after the scan.
record Covered (reserved : List Area) (x : Extent) (ph : Phdr) : Type 0 where
  low : x.min_addr ≤ ph.paddr
  high : ph.paddr + ph.memsz ≤ x.max_addr
  free : x.need_reloc ≡ false → usable_range ph.paddr ph.memsz reserved ≡ true

record Grown (x y : Extent) : Type 0 where
  low : y.min_addr ≤ x.min_addr
  high : x.max_addr ≤ y.max_addr
  need : y.need_reloc ≡ false → x.need_reloc ≡ false

-- The segment, moved by an offset, lies below 4 GiB.
abbrev pub Below : ℕ → Phdr → Type 0
Below reloc ph = add_word ph.paddr reloc + ph.memsz ≤ 2 ^ 32

-- It passes the test for reservations.
abbrev pub Passes : List Area → ℕ → Phdr → Type 0
Passes reserved reloc ph =
    overlaps_reservation (add_word ph.paddr reloc % 2 ^ 32) (ph.memsz % 2 ^ 32) reserved ≡ 0

-- It lies below 4 GiB and passes the test, and if it does not end exactly at 4 GiB, where the test
-- computes the end 0, it has no reserved byte.
pub record UsableAt (reserved : List Area) (reloc : ℕ) (ph : Phdr) : Type 0 where
  pub below : Below reloc ph
  pub passes : Passes reserved reloc ph
  pub free :
      add_word ph.paddr reloc + ph.memsz < 2 ^ 32
      → Apart (add_word ph.paddr reloc) ph.memsz reserved

digits_le : (n a b : ℕ) → digits (λ y. 0) min n a b ≤ a
digits_le zero a b = omega arith
digits_le (suc n) zero b = omega arith
digits_le (suc n) (suc a) b = omega (arith, digits_le n (suc a / 2) (b / 2))

pub bit_and_le : (a b : ℕ) → bit_and a b ≤ a
bit_and_le a b = omega (arith, bit_and-bitwise a b, digits_le a a b)

-- No range of RAM below 4 GiB reaches that limit.
abbrev pub EndsBelow : MemoryMap → Type 0
EndsBelow m = (i : ℕ) → ((m.entry i).addr + (m.entry i).size < 2 ^ 32) ⊎ (2 ^ 32 < (m.entry i).addr)

-- What is known once a binary has got its place: the null pointer stops the machine, and otherwise
-- every segment is usable there.
pub data Placed (reserved : List Area) (phs : List Phdr) : Result (ℕ × MmAllocState) → Type 0 where
  refused : Placed reserved phs (err no_memory)
  placed :
      (reloc : ℕ) (s : MmAllocState)
      → Segments (UsableAt reserved reloc) phs
      → Placed reserved phs (ok (reloc, s))
