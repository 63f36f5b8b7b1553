-- ===== src/Uncompress/Tests.antt =====
-- Two allocations of eight bytes in a fresh buffer.
use bootstrap.Prelude.{◌≤◌, ◌<◌, ◌+◌, refl, arith}
use bootstrap.Uncompress.{malloc, alloc_size}
use bootstrap.Uncompress.Malloc.{malloc_overlaps}

malloc_overlaps_example : (0 ≤ 7) × (7 < 0 + 8)
unfolding malloc alloc_size
malloc_overlaps_example = malloc_overlaps 8 8 0 7 7 14 0 (omega arith) refl refl
