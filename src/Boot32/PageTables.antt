-- ===== src/Boot32/PageTables.antt =====
-- `ptab_alloc` and `base_paging_init` in boot_cpu.c of boot32.
use bootstrap.Prelude.{
  ℕ, zero, suc, ◌+◌, ◌-◌, ◌*◌, ◌%◌, ◌^◌, ◌≤◌, ◌≡◌, refl, ap, ◌∙◌, Result, ok, guard, ◌>>=◌, ◌>>◌,
  leb, le→leb, no_memory, arith, Option, none, some,
}
use bootstrap.Boot32.Reservations.{add_32}

-- `pdirs`, none before the first call.
abbrev pub first_pdir : ℕ → ℕ
first_pdir pool = add_32 pool 4095 - add_32 pool 4095 % 4096

abbrev pub pool_size : ℕ
pool_size = 6 * 4096

abbrev pub current_pdir : ℕ → Option ℕ → ℕ
current_pdir pool none = first_pdir pool
current_pdir pool (some pdirs) = pdirs

-- A call at a value of `pdirs`.
abbrev alloc_at : ℕ → ℕ → Result (ℕ × Option ℕ)
alloc_at pool pdirs =
    guard (leb pdirs (add_32 pool pool_size)) no_memory >> ok (pdirs, some (add_32 pdirs 4096))

-- `ptab_alloc`: the page and the new `pdirs`. The pool is filled with zeros at the first call.
unfoldable pub pool_alloc : ℕ → Option ℕ → Result (ℕ × Option ℕ)
pool_alloc pool pdirs = alloc_at pool (current_pdir pool pdirs)

-- A number of calls in turn: the pages that they return, as a number of the last.
unfoldable pub pool_allocs : ℕ → ℕ → Option ℕ → Result (ℕ × Option ℕ)
unfolding pool_alloc
pool_allocs zero pool pdirs = pool_alloc pool pdirs
pool_allocs (suc n) pool pdirs = pool_alloc pool pdirs >>= λ r. pool_allocs n pool r.1

page_eq :
    {a b c d : ℕ}
    → a ≡ b
    → c ≡ d
    → ◌≡◌ {A = Result (ℕ × Option ℕ)} (ok (a, some c)) (ok (b, some d))
page_eq e f = cc

module _ (pool : ℕ) (a : pool % 4096 ≡ 0) (w : pool + 8 * 4096 ≤ 2 ^ 32) where
  pool_alloc-eq-ok :
      (p : ℕ) → p ≤ pool + pool_size → pool_alloc pool (some p) ≡ ok (p, some (p + 4096))
  unfolding pool_alloc
  pool_alloc-eq-ok p h =
      let low : add_32 pool pool_size ≡ pool + pool_size = omega arith in
      let next : add_32 p 4096 ≡ p + 4096 = omega (arith, h) in
      rw (low, le→leb p (pool + pool_size) h, next) refl

  pool_allocs-eq-ok :
      (n p : ℕ)
      → p + n * 4096 ≤ pool + pool_size
      → pool_allocs n pool (some p) ≡ ok (p + n * 4096, some (p + n * 4096 + 4096))
  unfolding pool_allocs
  pool_allocs-eq-ok zero p h =
      pool_alloc-eq-ok p (omega (arith, h)) ∙ page_eq (omega arith) (omega arith)
  pool_allocs-eq-ok (suc n) p h =
      rw (pool_alloc-eq-ok p (omega (arith, h)))
        (pool_allocs-eq-ok n (p + 4096) (omega (arith, h)) ∙ page_eq (omega arith) (omega arith))

-- The first call begins at the start of an aligned pool.
first_call :
    (pool n : ℕ) → first_pdir pool ≡ pool → pool_allocs n pool none ≡ pool_allocs n pool (some pool)
unfolding pool_allocs pool_alloc
first_call pool zero e = ap (alloc_at pool) e
first_call pool (suc n) e = ap (λ p. alloc_at pool p >>= λ r. pool_allocs n pool r.1) e

-- For an aligned pool with room behind it below 4 GiB: the first seven calls all succeed and
-- return pages that follow each other, although the pool has six: the last one lies behind it.
pool_allocs_overruns :
    (pool n : ℕ)
    → pool % 4096 ≡ 0
    → pool + 8 * 4096 ≤ 2 ^ 32
    → n ≤ 6
    → pool_allocs n pool none ≡ ok (pool + n * 4096, some (pool + n * 4096 + 4096))
pool_allocs_overruns pool n a w h =
    first_call pool n aligned ∙ pool_allocs-eq-ok pool a w n pool (omega (arith, h))
  where
    aligned : first_pdir pool ≡ pool
    aligned = omega (arith, a, w)
