-- ===== src/Memory/Tests.antt =====
-- Runs of the searches of struct Memory, and the theorem about `find_free_ram` at a memory.
use bootstrap.Prelude.{ℕ, ◌≡◌, refl, none, [], ◌∷◌, ok, arith, false}
use bootstrap.Align.Sample.{sample, sample-IsAlign}
use bootstrap.Region.{Region, boot, sized, range, intersect, set_begin, set_end}
use bootstrap.RegionList.{find, find_rev, find_free, find_free_rev}
use bootstrap.Memory.{
  Memory, validated, find_free_ram, find_free_ram_rev, search_ram, search_one, search_area,
  search_up, search_part, search_ram_rev, search_one_rev, search_area_rev, search_down,
  search_part_rev,
}
use bootstrap.Memory.Place.{First}
use bootstrap.Memory.FindFreeRam.{InRam, find_free_ram-First}

abbrev plain : ℕ → ℕ → Region
plain b e = record { begin = b; end = e; name = 0; type = boot; sub_type = 0; eager = false }

abbrev memory : Memory
memory = record {
  ram = plain 0x1000 0x3fff ∷ plain 0x8000 0xffff ∷ [];
  sysalloc = plain 0x2000 0xbfff ∷ [];
  regions = plain 0x2800 0x8fff ∷ [];
  validate = none;
}

find_free_ram_runs : find_free_ram sample memory 0x1800 12 0 0xffff_ffff 0 ≡ ok 0x9000
unfolding find_free_ram search_ram search_one search_area search_up search_part find_free find sized
    range intersect set_begin validated
find_free_ram_runs = refl

find_free_ram_rev_runs : find_free_ram_rev sample memory 0x1800 12 0 0xffff_ffff 0 ≡ ok 0xa000
unfolding find_free_ram_rev search_ram_rev search_one_rev search_area_rev search_down
    search_part_rev find_free_rev find_rev find sized range intersect set_end validated
find_free_ram_rev_runs = refl

find_free_ram-First_example :
    (res : ℕ) × (find_free_ram sample memory 0x1800 12 0 0xffff_ffff 0 ≡ ok res)
    × First (InRam memory memory.ram 0x2000 12 8 0xffff_ffff) res
find_free_ram-First_example =
    find_free_ram-First sample sample-IsAlign memory 0x1800 12 0xffff_ffff 0 0 refl (omega arith)
      (omega arith) (omega arith) (omega arith) (omega arith) (omega arith)
