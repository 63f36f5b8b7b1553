-- ===== src/Uncompress/Malloc.antt =====
-- What `malloc` does instead of rounding sizes up.
use bootstrap.Prelude.{ℕ, ◌+◌, ◌≤◌, ◌<◌, ◌≡◌, some, arith}
use bootstrap.Uncompress.{alloc_size, malloc}

-- Two allocations in turn, of eight bytes or more the first and of any size the second, that both
-- succeed overlap: the second block begins within the first.
pub malloc_overlaps :
    (first second p q r s free_ptr : ℕ)
    → 8 ≤ first
    → malloc first free_ptr ≡ (some p, r)
    → malloc second r ≡ (some q, s)
    → (p ≤ q) × (q < p + first)
unfolding malloc alloc_size
malloc_overlaps first second p q r s free_ptr h e f = ground (arith, e, f)
