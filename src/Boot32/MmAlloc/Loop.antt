-- ===== src/Boot32/MmAlloc/Loop.antt =====
-- The loop of `mm_alloc_alloc`, which leaves out the reservations.
use bootstrap.Prelude.{
  ℕ, zero, suc, ◌+◌, ◌-◌, ◌*◌, ◌^◌, ◌%◌, ◌≤◌, ◌<◌, ◌≡◌, refl, ap, ◌⊎◌, inl, inr, false, List, arith,
  leb, ◌==◌, ◌||◌, not, length, Bool-cases, Option, none, some, ok, sub_word,
}
use native.Mathlib.Nat.{mul-le-mul_right}
use bootstrap.Boot32.Reservations.{Area, overlaps_reservation, add_32}
use bootstrap.Boot32.Reservations.Overlap.{Bounded, behind, behind-le, overlap-behind}
use bootstrap.Boot32.MmAlloc.{
  MemoryMap, MmAllocState, next_ram_range, alloc_loop, range_in_4g_for_size,
}
use bootstrap.Boot32.MmAlloc.Search.{IsMap, InRange, Fits, Fits-here, next_from-Fits}

zero-or-suc : (n : ℕ) → (n ≡ 0) ⊎ ((k : ℕ) × (n ≡ suc k))
zero-or-suc zero = inl refl
zero-or-suc (suc k) = inr (k, refl)

module _ (m : MemoryMap) (im : IsMap m) (size : ℕ) (s : 0 < size) (sw : size < 2 ^ 32) where
  -- The null pointer, or the address of memory that is RAM of the map below 4 GiB and passes the
  -- test for reservations; what is used of the range then ends behind it.
  abbrev pub Outcome : List Area → Option ℕ → MmAllocState → Type 0
  Outcome reserved none s' = s'.range ≡ none
  Outcome reserved (some p) s' =
      (i : ℕ) × (s'.range ≡ some i)
      × ((m.entry i).addr + s'.used ≡ (p + size))
      × (InRange m i s'.used × (overlaps_reservation p size reserved ≡ 0))

  -- The memory lies behind all that was handed out before from its range, and the ranges are taken in
  -- the order of the map: nothing is handed out again.
  abbrev pub Fresh : Option ℕ → ℕ → Option ℕ → MmAllocState → Type 0
  Fresh range used none s' = Unit
  Fresh none used (some p) s' = (k : ℕ) × (s'.range ≡ some k) × ((m.entry k).addr ≤ p)
  Fresh (some i) used (some p) s' =
      (k : ℕ) × (s'.range ≡ some k)
      × ((m.entry k).addr ≤ p)
      × (i ≤ k)
      × (i ≡ k → (m.entry k).addr + used ≤ p)

  pub Fresh-later :
      (i j used : ℕ) (res : Option ℕ) (s' : MmAllocState)
      → i < j
      → Fresh (some j) 0 res s'
      → Fresh (some i) used res s'
  Fresh-later i j used none s' lt f = tt
  Fresh-later i j used (some p) s' lt (k, r, a, le, b) =
      (k, r, a, omega (arith, lt, le), λ e. absurd (omega (arith, e, lt, le)))

  Fresh-more :
      (i used used' : ℕ) (res : Option ℕ) (s' : MmAllocState)
      → used ≤ used'
      → Fresh (some i) used' res s'
      → Fresh (some i) used res s'
  Fresh-more i used used' none s' h f = tt
  Fresh-more i used used' (some p) s' h (k, r, a, le, b) = (k, r, a, le, λ e. omega (arith, h, b e))

  pub Fresh-first :
      (j used : ℕ) (res : Option ℕ) (s' : MmAllocState)
      → Fresh (some j) 0 res s'
      → Fresh none used res s'
  Fresh-first j used none s' f = tt
  Fresh-first j used (some p) s' (k, r, a, le, b) = (k, r, a)

  -- A measure of the rounds that are left.
  abbrev pub rounds : List Area → ℕ → ℕ → ℕ
  rounds reserved i p = (m.count - i) * (length reserved + 1) + behind reserved p

  rounds-next :
      (reserved : List Area) (i j p q : ℕ)
      → i < j
      → i < m.count
      → rounds reserved j q < rounds reserved i p
  rounds-next reserved i j p q h k =
      let step : (suc (m.count - j)) * (length reserved + 1)
          ≤ (m.count - i) * (length reserved + 1) =
        mul-le-mul_right (length reserved + 1) (omega arith) in
      grind (arith, behind-le reserved q, step)

  pub alloc_loop-none :
      (reserved : List Area) (fuel used : ℕ)
      → 0 < fuel
      → alloc_loop m reserved fuel size (record { range = none; used = used })
        ≡ ok (none, record { range = none; used = used })
  unfolding alloc_loop
  alloc_loop-none reserved zero used h = absurd (omega arith)
  alloc_loop-none reserved (suc fuel) used h = refl

  pub alloc_loop-Outcome :
      (reserved : List Area) (b : Bounded reserved) (fuel i used : ℕ)
      → Fits m im size s sw i used
      → rounds reserved i ((m.entry i).addr + used) < fuel
      → (res : Option ℕ) × (s' : MmAllocState) × (alloc_loop m reserved fuel size
            (record { range = some i; used = used })
          ≡ ok (res, s'))
        × Outcome reserved res s'
        × Fresh (some i) used res s'
  unfolding alloc_loop next_ram_range
  alloc_loop-Outcome reserved b zero i used f h = absurd (omega arith)
  alloc_loop-Outcome reserved b (suc fuel) i used f h = elim (zero-or-suc overlap) [
    | inl e ↦ (
      some p,
      record { range = some i; used = add_32 used size },
      rw (e) refl,
      (i, refl, omega (arith, sum_is, at), (in_range, e)),
      (i, refl, omega (arith, at), omega arith, λ e'. omega (arith, at)),
    )
    | inr (q, e) ↦
        let (above, w, fewer) = overlap-behind p size reserved q b e in
        elim (Bool-cases (
          leb (m.entry i).size (suc q - (m.entry i).addr)
          || not (range_in_4g_for_size m i (suc q - (m.entry i).addr) size))) [
            | inl full ↦
                elim (next_from-Fits m im size s sw (m.count + 1) (i + 1) (omega arith)
                  (omega arith)) [
                    | inl n ↦ (
                      none,
                      record { range = none; used = 0 },
                      rw (e, nonzero q, used_is q w above, full, n)
                          (alloc_loop-none reserved fuel 0 (omega (arith, h, fewer, here))),
                      refl,
                      tt,
                    )
                    | inr (j, le, n, g) ↦
                        let (res, s', r, o, fr) = alloc_loop-Outcome reserved b fuel j 0 g (
                          omega (
                            arith,
                            h,
                            rounds-next reserved i j ((m.entry i).addr + used)
                                ((m.entry j).addr + 0) (omega arith) f.0.in_map,
                          )) in
                        (
                          res,
                          s',
                          rw (e, nonzero q, used_is q w above, full, n) r,
                          o,
                          Fresh-later i j used res s' (omega arith) fr,
                        )
                  ]
            | inr more ↦
                let (res, s', r, o, fr) =
                  alloc_loop-Outcome reserved b fuel i (suc q - (m.entry i).addr)
                    (fits_again q w more) (omega (arith, h, fewer, here, there q above)) in
                (
                  res,
                  s',
                  rw (e, nonzero q, used_is q w above, more) r,
                  o,
                  Fresh-more i used (suc q - (m.entry i).addr) res s' (omega (arith, at, above)) fr,
                )
          ]
  ]
    where
      p : ℕ
      p = add_32 ((m.entry i).addr % 2 ^ 32) used

      overlap : ℕ
      overlap = overlaps_reservation p size reserved

      at : p ≡ (m.entry i).addr + used
      at = omega (arith, f.1, s)

      here : behind reserved p ≡ behind reserved ((m.entry i).addr + used)
      here = ap (behind reserved) at

      there :
          (q : ℕ)
          → p < suc q
          → behind reserved ((m.entry i).addr + (suc q - (m.entry i).addr))
            ≡ behind reserved (suc q)
      there q above = ap (behind reserved) (omega (arith, at))

      sum_is : add_32 used size ≡ used + size
      sum_is = grind (arith, f.1, im.low i)

      in_range : InRange m i (add_32 used size)
      in_range = record {
        in_map = f.0.in_map;
        ram = f.0.ram;
        inside = omega (arith, sum_is, f.1);
        below = omega (arith, sum_is, f.1);
      }

      nonzero : (q : ℕ) → (suc q == 0) ≡ false
      nonzero q = ground arith

      used_is :
          (q : ℕ)
          → suc q < 2 ^ 32
          → p < suc q
          → sub_word (suc q) (m.entry i).addr % 2 ^ 32 ≡ suc q - (m.entry i).addr
      used_is q w above = omega (arith, at)

      fits_again :
          (q : ℕ)
          → suc q < 2 ^ 32
          → (leb (m.entry i).size (suc q - (m.entry i).addr)
              || not (range_in_4g_for_size m i (suc q - (m.entry i).addr) size))
            ≡ false
          → Fits m im size s sw i (suc q - (m.entry i).addr)
      fits_again q w more =
          Fits-here m im size s sw i (suc q - (m.entry i).addr) f.0.in_map f.0.ram (ground arith)
            (omega arith) (ground arith)
