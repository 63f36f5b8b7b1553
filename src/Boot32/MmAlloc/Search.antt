-- ===== src/Boot32/MmAlloc/Search.antt =====
-- `next_ram_range`: the search of the memory map for a range with room.
use bootstrap.Prelude.{
  ℕ, zero, suc, ◌+◌, ◌^◌, ◌≤◌, ◌<◌, ◌≡◌, refl, ◌⊎◌, inl, inr, true, false, arith, ltb, leb, ◌&&◌,
  Bool-cases, Option, none, some, ok,
}
use bootstrap.Boot32.MmAlloc.{MemoryMap, next_from, range_in_4g_for_size}

-- No range reaches the end of the address space, and what lies behind the map does not look like
-- RAM; a range from 0 on is smaller than 4 GiB.
pub record IsMap (m : MemoryMap) : Type 0 where
  pub fits : (i : ℕ) → (m.entry i).addr + (m.entry i).size + 2 ^ 32 < 2 ^ 64
  pub low : (i : ℕ) → 2 ^ 32 ≤ (m.entry i).size → 0 < (m.entry i).addr
  pub behind : (i : ℕ) → m.count ≤ i → (m.entry i).ram ≡ false

-- The range from which memory is taken is RAM of the map, and what is used of it lies in it and
-- below 4 GiB.
pub record InRange (m : MemoryMap) (i used : ℕ) : Type 0 where
  pub in_map : i < m.count
  pub ram : (m.entry i).ram ≡ true
  pub inside : used ≤ (m.entry i).size
  pub below : (m.entry i).addr + used ≤ 2 ^ 32

-- No range is chosen yet, or one as above.
abbrev pub StateInRange : Option ℕ → MemoryMap → ℕ → Type 0
StateInRange none m used = Unit
StateInRange (some i) m used = InRange m i used

module _ (m : MemoryMap) (im : IsMap m) (size : ℕ) (s : 0 < size) (sw : size < 2 ^ 32) where
  -- A range with room for the size below 4 GiB.
  abbrev pub Fits : ℕ → ℕ → Type 0
  Fits i used =
      InRange m i used
      × ((used + size ≤ (m.entry i).size) × ((m.entry i).addr + used + size ≤ 2 ^ 32))

  pub Fits-here :
      (i used : ℕ)
      → i < m.count
      → (m.entry i).ram ≡ true
      → used ≤ (m.entry i).size
      → used < 2 ^ 32
      → range_in_4g_for_size m i used size ≡ true
      → Fits i used
  Fits-here i used c r u w h =
      let room : used + size ≤ (m.entry i).size = ground (arith, im.fits i) in
      let low : (m.entry i).addr + used + size ≤ 2 ^ 32 = ground (arith, im.fits i) in
      (record { in_map = c; ram = r; inside = u; below = omega (arith, low) }, (room, low))

  -- The search for the next range ends: it finds a later range that fits, or there is none.
  pub next_from-Fits :
      (fuel i : ℕ)
      → m.count < fuel + i
      → 0 < fuel
      → (next_from m fuel size i ≡ ok none)
        ⊎ ((j : ℕ) × (i ≤ j) × (next_from m fuel size i ≡ ok (some j)) × Fits j 0)
  unfolding next_from
  next_from-Fits zero i f g = absurd (omega arith)
  next_from-Fits (suc fuel) i f g = elim (Bool-cases ((m.entry i).ram)) [
    | inl r ↦ elim (Bool-cases (range_in_4g_for_size m i 0 size)) [
      | inl h ↦
          inr (
            i,
            omega arith,
            rw (r, h) refl,
            Fits-here i 0 (inside r) r (omega arith) (omega arith) h,
          )
      | inr h ↦ rest (λ k. next_from-Fits fuel (i + 1) (omega arith) (omega arith)) (rw (r, h) refl)
    ]
    | inr r ↦ rest (λ k. next_from-Fits fuel (i + 1) (omega arith) (omega arith)) (rw (r) refl)
  ]
    where
      inside : (m.entry i).ram ≡ true → i < m.count
      inside r = elim (Bool-cases (leb m.count i)) [
        | inl h ↦ absurd (ground (arith, im.behind i))
        | inr h ↦ ground arith
      ]

      rest :
          (i + 1 < m.count
            → (next_from m fuel size (i + 1) ≡ ok none)
              ⊎ ((j : ℕ) × (i + 1 ≤ j) × (next_from m fuel size (i + 1) ≡ ok (some j)) × Fits j 0))
          → ((m.entry i).ram && range_in_4g_for_size m i 0 size) ≡ false
          → (next_from m (suc fuel) size i ≡ ok none)
            ⊎ ((j : ℕ) × (i ≤ j) × (next_from m (suc fuel) size i ≡ ok (some j)) × Fits j 0)
      rest ih e = elim (Bool-cases (ltb (i + 1) m.count)) [
        | inl k ↦ elim (ih (ground arith)) [
          | inl n ↦ inl (rw (e, k) n)
          | inr (j, le, n, q) ↦ inr (j, omega arith, rw (e, k) n, q)
        ]
        | inr k ↦ inl (rw (e, k) refl)
      ]
