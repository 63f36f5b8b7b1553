-- ===== src/Paging/Tests.antt =====
-- A mapping of three pages in empty tables.
use bootstrap.Prelude.{ℕ, ◌+◌, ◌*◌, ◌%◌, ◌^◌, ◌≡◌, refl, ◌⊎◌, ok, false, true, arith}
use bootstrap.Paging.{CpuInfo, Walk, ptab_map_range, ptab_map_level}
use bootstrap.Paging.Steps.{Advanced}
use bootstrap.Paging.Levels.{ptab_map_range-Advanced}
use bootstrap.Paging.Leaves.{IsFree, Mapped, ptab_map_level-Mapped}

abbrev cpu : CpuInfo
cpu = record { pse = true; pdpe_1gb = false }

abbrev tables : ℕ → ℕ
tables n = 1048576 + 4096 * n

abbrev empty : ℕ → ℕ
empty x = 0

ptab_map_range-Advanced_example :
    (w' : Walk) × (ptab_map_range cpu tables 6 8 4096 5000 9096 10000 empty 0 ≡ ok w')
    × Advanced (record { la = 4096; pa = 8192; size = 12288; entries = empty; tables = 0 }) w'
    × ((w'.size ≡ 0) ⊎ (w'.la % 2 ^ 48 ≡ 0))
ptab_map_range-Advanced_example =
    ptab_map_range-Advanced cpu tables 6 8 4096 5000 9096 10000 empty 0 (omega arith) (omega arith)
      (omega arith)

-- The last three pages of a table.
abbrev walk : Walk
walk = record { la = 2084864; pa = 8192; size = 12288; entries = empty; tables = 0 }

walk-IsFree : IsFree cpu tables 6 4096 509 3 walk
walk-IsFree = record {
  la_page = refl;
  pa_page = refl;
  size = refl;
  la_room = omega arith;
  pa_room = omega arith;
  at = refl;
  inside = omega arith;
  free = λ i h. refl;
}

ptab_map_level-Mapped_example :
    (w' : Walk) × (ptab_map_level cpu tables 6 4 0 4096 walk ≡ ok w')
    × Mapped cpu tables 6 4096 509 3 walk w'
ptab_map_level-Mapped_example =
    ptab_map_level-Mapped cpu tables 6 4 4096 509 2 walk (omega arith) walk-IsFree
