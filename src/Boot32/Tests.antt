-- ===== src/Boot32/Tests.antt =====
-- A small memory map with reservations.
use bootstrap.Prelude.{
  ℕ, zero, suc, ◌≤◌, ◌+◌, ◌^◌, ◌≡◌, ◌≢◌, refl, [], ◌∷◌, none, false, true, ok, arith, Option, ◌<◌,
  List,
}
use bootstrap.Align.Sample.{sample, sample-IsAlign}
use bootstrap.Boot32.Reservations.{
  Area, overlaps_reservation, new_entry, join_entry, reservation_add,
}
use bootstrap.Boot32.Reservations.Kept.{Keeps, reservation_add-Keeps, join_entry_loses}
use bootstrap.Boot32.MmAlloc.{AddrRange, MemoryMap, MmAllocState, mm_alloc_alloc}
use bootstrap.Boot32.MmAlloc.Loop.{Outcome, Fresh}
use bootstrap.Boot32.MmAlloc.Placed.{mm_alloc_alloc-Outcome}
use bootstrap.Boot32.MmAlloc.Search.{IsMap}
use bootstrap.Boot32.LoadElf.{Phdr}
use bootstrap.Boot32.LoadElf.Usable.{Placed}

abbrev area : Area
area = record { start = 8192; size = 4096 }

abbrev image : Area
image = record { start = 32768; size = 8192 }

abbrev map_entry : ℕ → AddrRange
map_entry zero = record { addr = 4096; size = 65536; ram = true }
map_entry (suc n) = record { addr = 4294967297; size = 0; ram = false }

abbrev map : MemoryMap
map = record { count = 1; entry = map_entry }

map-IsMap : IsMap map
map-IsMap = record { fits = fits; low = low; behind = behind }
  where
    fits : (i : ℕ) → (map.entry i).addr + (map.entry i).size + 2 ^ 32 < 2 ^ 64
    fits zero = omega arith
    fits (suc i) = omega arith

    low : (i : ℕ) → 2 ^ 32 ≤ (map.entry i).size → 0 < (map.entry i).addr
    low zero h = omega arith
    low (suc i) h = omega arith

    behind : (i : ℕ) → 1 ≤ i → (map.entry i).ram ≡ false
    behind zero h = absurd (omega arith)
    behind (suc i) h = refl

abbrev fresh : MmAllocState
fresh = record { range = none; used = 0 }

mm_alloc_alloc-Outcome_example :
    (res : Option ℕ) × (s' : MmAllocState) × (mm_alloc_alloc map (area ∷ []) 5 4096 fresh
      ≡ ok (res, s'))
    × Outcome map map-IsMap 4096 (omega arith) (omega arith) (area ∷ []) res s'
    × Fresh map map-IsMap 4096 (omega arith) (omega arith) none 0 res s'
mm_alloc_alloc-Outcome_example =
    mm_alloc_alloc-Outcome map map-IsMap 4096 (omega arith) (omega arith) (area ∷ [])
      ((omega arith, omega arith), tt) 5 fresh (omega arith) tt

abbrev segment : Phdr
segment = record {
  load = true;
  offset = 0;
  paddr = 32768;
  filesz = 100;
  memsz = 4096;
  align = 4096;
}

reservation_add-Keeps_example :
    (rs' : List Area) × (reservation_add sample 12300 4000 (area ∷ []) ≡ ok rs')
    × Keeps 12300 4000 (area ∷ []) rs'
reservation_add-Keeps_example =
    reservation_add-Keeps sample sample-IsAlign 12300 4000 (area ∷ []) (omega arith) (omega arith)
      ((omega arith, omega arith), tt) (omega arith) (refl, tt)

join_entry_loses_example :
    (overlaps_reservation 12287 1 (area ∷ []) ≢ 0)
    × (overlaps_reservation 12287 1
          (new_entry 4096 4096 (area ∷ []) (join_entry 4096 4096 (area ∷ [])))
        ≡ 0)
unfolding overlaps_reservation
join_entry_loses_example =
    join_entry_loses 4096 4096 area [] (omega arith) (omega arith) (omega arith) refl refl
