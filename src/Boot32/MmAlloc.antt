-- ===== src/Boot32/MmAlloc.antt =====
-- mm_alloc.c of boot32: memory from the ranges of the Multiboot memory map.
pub mod Loop
pub mod Placed
pub mod Search
use bootstrap.Prelude.{
  ℕ, zero, suc, ◌+◌, ◌-◌, ◌^◌, ◌%◌, Bool, true, false, ◌&&◌, ◌||◌, not, Option, none, some, List,
  Result, ok, err, ◌>>=◌, ltb, leb, ◌==◌, if◌then◌else◌, out_of_fuel, add_word, sub_word,
}
use bootstrap.Boot32.Reservations.{Area, overlaps_reservation, add_32}

-- An entry of the memory map; `ram` is the test for `MB_ART_MEMORY`.
pub record AddrRange : Type 0 where
  pub addr : ℕ
  pub size : ℕ
  pub ram : Bool

-- The memory map of the Multiboot information. The external functions for its first and its next
-- entry count the entries; memory behind the map is read as an entry too.
pub record MemoryMap : Type 0 where
  pub count : ℕ
  pub entry : ℕ → AddrRange

-- `mm_alloc_state`
pub record MmAllocState : Type 0 where
  pub range : Option ℕ
  pub used : ℕ

-- `mm_alloc_init`
unfoldable pub mm_alloc_init : MmAllocState → MmAllocState
mm_alloc_init s = record { range = none; used = s.used }

module _ (m : MemoryMap) where
  -- `mm_alloc_range_in_map`
  abbrev pub range_in_map : ℕ → Bool
  range_in_map i = ltb i m.count

  -- `range_in_4G_for_size`, whose sums have 64 bits.
  abbrev pub range_in_4g_for_size : ℕ → ℕ → ℕ → Bool
  range_in_4g_for_size i used size =
      leb size (sub_word (m.entry i).size used)
      && leb (add_word (add_word (m.entry i).addr used) size) (2 ^ 32)

  -- The loop of `next_ram_range`, from an entry on.
  unfoldable pub next_from : ℕ → ℕ → ℕ → Result (Option ℕ)
  next_from zero size i = err out_of_fuel
  next_from (suc fuel) size i =
      let rest = next_from fuel size (i + 1) in
      if (m.entry i).ram && range_in_4g_for_size i 0 size
      then ok (some i)
      else if range_in_map (i + 1)
      then rest
      else ok none

  -- The entry at which the loop begins.
  abbrev pub first_or_next : Option ℕ → Option ℕ
  first_or_next none = if 0 == m.count then none else some 0
  first_or_next (some i) = some (i + 1)

  abbrev pub next_or_none : ℕ → ℕ → Option ℕ → Result (Option ℕ)
  next_or_none fuel size none = ok none
  next_or_none fuel size (some i) = next_from fuel size i

  -- `next_ram_range`
  unfoldable pub next_ram_range : ℕ → ℕ → MmAllocState → Result MmAllocState
  unfolding next_from
  next_ram_range fuel size s = next_or_none fuel size (first_or_next s.range) >>= λ range.
      ok (record { range = range; used = 0 })

  -- Whether `mm_alloc_alloc` begins with the next range.
  abbrev pub range_full : Option ℕ → ℕ → ℕ → Bool
  range_full none used size = true
  range_full (some i) used size = not (range_in_4g_for_size i used size)

  module _ (reserved : List Area) where
    -- The loop of `mm_alloc_alloc`, in the range `i`; `go` is the next round in the range that is
    -- then selected.
    abbrev pub alloc_step :
        ℕ
        → ℕ
        → (MmAllocState → Result (Option ℕ × MmAllocState))
        → ℕ
        → ℕ
        → Result (Option ℕ × MmAllocState)
    alloc_step fuel size go i used =
        let result = add_32 ((m.entry i).addr % 2 ^ 32) used in
        let overlap = overlaps_reservation result size reserved in
        let used' = sub_word overlap (m.entry i).addr % 2 ^ 32 in
        let stay : MmAllocState = record { range = some i; used = used' } in
        let next = next_ram_range fuel size stay >>= go in
        let again = go stay in
        if overlap == 0
        then ok (some result, record { range = some i; used = add_32 used size })
        else if leb (m.entry i).size used' || not (range_in_4g_for_size i used' size)
        then next
        else again

    abbrev pub alloc_in :
        ℕ
        → ℕ
        → (MmAllocState → Result (Option ℕ × MmAllocState))
        → Option ℕ
        → ℕ
        → Result (Option ℕ × MmAllocState)
    alloc_in fuel size go none used = ok (none, record { range = none; used = used })
    alloc_in fuel size go (some i) used = alloc_step fuel size go i used

    unfoldable pub alloc_loop : ℕ → ℕ → MmAllocState → Result (Option ℕ × MmAllocState)
    alloc_loop zero size s = err out_of_fuel
    alloc_loop (suc fuel) size s = alloc_in (m.count + 1) size (alloc_loop fuel size) s.range s.used

    -- `mm_alloc_alloc`: the address, or none for the null pointer, and the new state.
    unfoldable pub mm_alloc_alloc : ℕ → ℕ → MmAllocState → Result (Option ℕ × MmAllocState)
    unfolding alloc_loop
    mm_alloc_alloc fuel size s =
        let next = next_ram_range (m.count + 1) size s >>= alloc_loop fuel size in
        let here = alloc_loop fuel size s in if range_full s.range s.used size then next else here
