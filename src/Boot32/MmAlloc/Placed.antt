-- ===== src/Boot32/MmAlloc/Placed.antt =====
-- What `mm_alloc_alloc` returns.
use bootstrap.Prelude.{
  ℕ, ◌+◌, ◌-◌, ◌*◌, ◌^◌, ◌≤◌, ◌<◌, ◌≡◌, refl, inl, inr, List, arith, ◌==◌, length, Bool-cases,
  Option, none, some, ok, ◌>>=◌,
}
use native.Mathlib.Nat.{mul-le-mul_right}
use bootstrap.Boot32.Reservations.{Area}
use bootstrap.Boot32.Reservations.Overlap.{Bounded, behind-le}
use bootstrap.Boot32.MmAlloc.{
  MemoryMap, MmAllocState, next_from, next_ram_range, alloc_loop, mm_alloc_alloc,
  range_in_4g_for_size,
}
use bootstrap.Boot32.MmAlloc.Search.{IsMap, StateInRange, Fits-here, next_from-Fits}
use bootstrap.Boot32.MmAlloc.Loop.{
  Outcome, Fresh, Fresh-later, Fresh-first, rounds, alloc_loop-none, alloc_loop-Outcome,
}

module _ (m : MemoryMap) (im : IsMap m) (size : ℕ) (s : 0 < size) (sw : size < 2 ^ 32) where
  rounds-all :
      (reserved : List Area) (i p : ℕ)
      → rounds m im size s sw reserved i p < (m.count + 1) * (length reserved + 1)
  rounds-all reserved i p =
      let step : (m.count - i) * (length reserved + 1) ≤ m.count * (length reserved + 1) =
        mul-le-mul_right (length reserved + 1) (omega arith) in
      grind (arith, behind-le reserved p, step)

  abbrev at_start : Option ℕ → MmAllocState
  at_start range = record { range = range; used = 0 }

  -- The rounds that begin with the search for a range.
  next_ram_range-Outcome :
      (reserved : List Area) (b : Bounded reserved) (fuel i : ℕ)
      → (m.count + 1) * (length reserved + 1) < fuel
      → (res : Option ℕ) × (s' : MmAllocState) × (((next_from m (m.count + 1) size i
              >>= (λ r. ok (at_start r)))
            >>= alloc_loop m reserved fuel size)
          ≡ ok (res, s'))
        × Outcome m im size s sw reserved res s'
        × ((k used : ℕ) → k < i → Fresh m im size s sw (some k) used res s')
        × ((used : ℕ) → Fresh m im size s sw none used res s')
  next_ram_range-Outcome reserved b fuel i h =
      elim (next_from-Fits m im size s sw (m.count + 1) i (omega arith) (omega arith)) [
        | inl n ↦ (
          none,
          record { range = none; used = 0 },
          rw (n) (alloc_loop-none m im size s sw reserved fuel 0 (omega (arith, h))),
          refl,
          λ k used lt. tt,
          λ used. tt,
        )
        | inr (j, le, n, g) ↦
            let (res, s', r, o, fr) =
              alloc_loop-Outcome m im size s sw reserved b fuel j 0 g
                (omega (arith, h, rounds-all reserved j ((m.entry j).addr + 0))) in
            (
              res,
              s',
              rw (n) r,
              o,
              λ k used lt. Fresh-later m im size s sw k j used res s' (omega (arith, lt, le)) fr,
              λ used. Fresh-first m im size s sw j used res s' fr,
            )
      ]

  mm_alloc_from :
      (reserved : List Area) (b : Bounded reserved) (fuel : ℕ) (range : Option ℕ) (used : ℕ)
      → (m.count + 1) * (length reserved + 1) < fuel
      → StateInRange range m used
      → (res : Option ℕ) × (s' : MmAllocState) × (mm_alloc_alloc m reserved fuel size
            (record { range = range; used = used })
          ≡ ok (res, s'))
        × Outcome m im size s sw reserved res s'
        × Fresh m im size s sw range used res s'
  unfolding mm_alloc_alloc next_ram_range
  mm_alloc_from reserved b fuel none used h is = elim (Bool-cases (0 == m.count)) [
    | inl z ↦ (
      none,
      record { range = none; used = 0 },
      rw (z) (alloc_loop-none m im size s sw reserved fuel 0 (omega (arith, h))),
      refl,
      tt,
    )
    | inr z ↦
        let (res, s', r, o, later, first) = next_ram_range-Outcome reserved b fuel 0 h in
        (res, s', rw (z) r, o, first used)
  ]
  mm_alloc_from reserved b fuel (some i) used h is =
      elim (Bool-cases (range_in_4g_for_size m i used size)) [
        | inl f ↦
            let (res, s', r, o, fr) =
              alloc_loop-Outcome m im size s sw reserved b fuel i used
                (Fits-here m im size s sw i used is.in_map is.ram is.inside
                  (grind (arith, is.inside, is.below, im.low i)) f)
                (omega (arith, h, rounds-all reserved i ((m.entry i).addr + used))) in
            (res, s', rw (f) r, o, fr)
        | inr f ↦
            let (res, s', r, o, later, first) = next_ram_range-Outcome reserved b fuel (i + 1) h in
            (res, s', rw (f) r, o, later i used (omega arith))
      ]

-- `mm_alloc_alloc` returns, for a size above 0 and below 4 GiB: the null pointer, or the address of
-- memory that lies in a range of RAM of the map, below 4 GiB, and passes the test for reservations,
-- so that what is used of this range then ends behind it. It lies behind what was used of the range
-- before, and no range in front of the one chosen before is taken. The range chosen before is RAM of
-- the map, and what is used of it lies in it and below 4 GiB; a range from 0 on has less than
-- 4 GiB. The entries of the map must not reach the end of the address space, what lies behind the
-- map must not look like RAM, the reservations end below 4 GiB, and the fuel is above the number of
-- entries times that of the reservations, plus one each.
pub mm_alloc_alloc-Outcome :
    (m : MemoryMap) (im : IsMap m) (size : ℕ) (s : 0 < size) (sw : size < 2 ^ 32)
    (reserved : List Area) (b : Bounded reserved) (fuel : ℕ) (st : MmAllocState)
    → (m.count + 1) * (length reserved + 1) < fuel
    → StateInRange st.range m st.used
    → (res : Option ℕ) × (s' : MmAllocState) × (mm_alloc_alloc m reserved fuel size st
        ≡ ok (res, s'))
      × Outcome m im size s sw reserved res s'
      × Fresh m im size s sw st.range st.used res s'
mm_alloc_alloc-Outcome m im size s sw reserved b fuel st h is =
    mm_alloc_from m im size s sw reserved b fuel st.range st.used h is
