-- ===== src/BootModules/Whole.antt =====
-- `Boot_modules::move_modules`: the search for a place, the sort and the three loops.
use bootstrap.Prelude.{
  ℕ, ◌+◌, ◌≤◌, ◌<◌, ◌^◌, ◌≡◌, refl, ap, ◌∙◌, ◌⊎◌, inl, inr, false, none, List, [], ok, err,
  no_memory, arith, length, ◌==◌, if◌then◌else◌, ltb, word_max, max, power_pos,
}
use bootstrap.Align.{Align, IsAlign}
use bootstrap.RegionList.{remove_if}
use bootstrap.RegionList.Order.{Above, AllRanges-Above, find-none_iff}
use bootstrap.RegionList.FindFree.{span, Low}
use bootstrap.Memory.{Memory, find_free_ram}
use bootstrap.Memory.Place.{covered-fits_in, end-fits_in}
use bootstrap.RegionList.Remove.{Above-remove_if, Low-remove_if, length-remove_if}
use bootstrap.Memory.FindFreeRam.{InRam, find_free_ram-First}
use bootstrap.BootModules.{Machine, sort_from, relocate, move_modules}
use bootstrap.BootModules.Moves.{page}
use bootstrap.BootModules.Chain.{Chain, Moved, total}
use bootstrap.BootModules.Room.{HasRoom}
use bootstrap.BootModules.MoveReturns.{HasRoom-less}
use bootstrap.BootModules.Relocate.{relocate_returns}
use bootstrap.BootModules.Sorted.{Rising, count, sort_from-Rising}
use bootstrap.BootModules.Image.{
  IsImage, all_pages, calc_modules_size-pages, Chain-Rising, total-sort, length-sort,
}

module _ (a : Align) (al : IsAlign a) (reg : ℕ) where
  -- The machine without the regions of the modules, and the memory that is searched.
  abbrev pub cleared : Machine → Machine
  cleared s = record s {
    list = record s.list { regs = remove_if (λ r. r.name == reg) s.list.regs };
  }

  abbrev pub searched : Machine → Memory
  searched s = record {
    ram = s.ram;
    sysalloc = s.sysalloc;
    regions = (cleared s).list.regs;
    validate = s.validate;
  }

  -- The size that is sought.
  abbrev pub sought : Machine → ℕ
  sought s = a.round_size (all_pages a s.mods) a.page_shift

  -- The places for the modules from an address on.
  abbrev pub IsTarget : Machine → ℕ → ℕ → Type 0
  IsTarget s modaddr = InRam (searched s) s.ram (sought s) a.page_shift (max modaddr 8) word_max

  move_modules_none :
      (s : Machine) (modaddr : ℕ)
      → all_pages a s.mods < 2 ^ 64
      → find_free_ram a (searched s) (all_pages a s.mods) a.page_shift modaddr word_max 0xffff_ffff
        ≡ ok 0
      → move_modules a reg s modaddr ≡ err no_memory
  unfolding move_modules
  move_modules_none s modaddr w p = rw (calc_modules_size-pages a reg s.mods w, p) refl

  move_modules_then :
      (s s' : Machine) (modaddr to : ℕ) (sorter : List ℕ)
      → all_pages a s.mods < 2 ^ 64
      → find_free_ram a (searched s) (all_pages a s.mods) a.page_shift modaddr word_max 0xffff_ffff
        ≡ ok to
      → 0 < to
      → sort_from s.mods (length s.mods) 0 [] ≡ ok sorter
      → relocate a reg sorter to (cleared s) ≡ ok s'
      → move_modules a reg s modaddr ≡ ok s'
  unfolding move_modules
  move_modules_then s s' modaddr to sorter w p z q e =
      rw (calc_modules_size-pages a reg s.mods w, p, some_place, q) e
    where
      some_place : (to == 0) ≡ false
      some_place = ground (arith, z)

  cleared_room :
      (s : Machine) (n bytes : ℕ) → HasRoom s.list n bytes → HasRoom (cleared s).list n bytes
  cleared_room s n bytes h = record {
    unlimited = record { address = h.unlimited.address; combined = h.unlimited.combined };
    sorted = Above-remove_if (λ r. r.name == reg) 0 s.list.regs h.sorted;
    slots = omega (arith, h.slots, length-remove_if (λ r. r.name == reg) s.list.regs);
    account = h.account;
  }

  -- A machine without a callback, with at most 256 modules that share no page and in all have two bytes
  -- or more in whole pages, with lists in order and away from the end of the address space, and with
  -- room for the modules in the region list.
  pub record Ready (s : Machine) : Type 0 where
    pub unvalidated : s.validate ≡ none
    pub image : IsImage a s.mods
    pub few : length s.mods ≤ 256
    pub bytes : 1 < sought s
    pub fits : all_pages a s.mods + page a ≤ 2 ^ 64
    pub ram_sorted : Above 0 s.ram
    pub sysalloc_sorted : Above 0 s.sysalloc
    pub ram_low : Low (page a + sought s) s.ram
    pub list_low : Low (page a + sought s) s.list.regs
    pub room : HasRoom s.list (length s.mods) (all_pages a s.mods)

  -- The modules in the order of their addresses, each of them once.
  pub record IsSorter (s : Machine) (sorter : List ℕ) : Type 0 where
    pub rising : Rising s.mods 0 sorter
    pub once : (j : ℕ) → count j sorter ≡ (if ltb j (length s.mods) then 1 else 0)

  -- The three loops at a place that the search found.
  moves_to :
      (s : Machine) (modaddr to : ℕ) (sorter : List ℕ)
      → Ready s
      → IsTarget s modaddr to
      → sort_from s.mods (length s.mods) 0 [] ≡ ok sorter
      → IsSorter s sorter
      → (s' : Machine) × (relocate a reg sorter to (cleared s) ≡ ok s')
        × Moved a s.bytes s.mods s' sorter to
  moves_to s modaddr to sorter h t q sorted =
      let (s', e, moved, outside) =
        relocate_returns a al reg sorter to (cleared s) chain t.place.aligned
          (omega (arith, pages_all, le, end-fits_in s.ram _ to (sought s) h.ram_low t.present))
          (HasRoom-less a reg (cleared s).list _ _ _ _
            (omega (arith, length-sort a s.mods sorter q)) (omega (arith, pages_all))
            (cleared_room s _ _ h.room))
          (λ x ge lt.
            covered-fits_in s.ram to (sought s) x t.present ge (omega (arith, lt, pages_all, le)))
          (λ x ge lt.
            (find-none_iff (cleared s).list.regs (span to (sought s))
                (AllRanges-Above 0 (cleared s).list.regs (cleared_room s _ _ h.room).sorted)
                (omega (arith, h.bytes))).0
              t.place.free x (ground (arith, ge, lt, pages_all, le))) in
      (s', e, moved)
    where
      le : all_pages a s.mods ≤ sought s
      le = al.le_round (all_pages a s.mods) a.page_shift h.fits

      pages_all : total a s.mods sorter ≡ all_pages a s.mods
      pages_all = total-sort a s.mods sorter q

      chain : Chain a s.mods 0 sorter (2 ^ 64)
      chain =
          Chain-Rising a s.mods 0 0 sorter h.image al sorted.rising
            (λ j. ground (arith, sorted.once j)) (λ j lt. ground (arith, sorted.once j, lt))
            (λ j lt. omega arith) (omega arith)

  sorts :
      (s : Machine)
      → Ready s
      → (sorter : List ℕ) × (sort_from s.mods (length s.mods) 0 [] ≡ ok sorter) × IsSorter s sorter
  unfolding Rising count
  sorts s h =
      let (sorter, q, rising, counts) =
        sort_from-Rising s.mods (length s.mods) 0 [] (omega (arith, h.few)) tt in
      (sorter, q, record { rising = rising; once = λ j. ground (arith, counts j) })

  -- Without a callback, for at most 256 modules that have bytes, share no page and in all fit into the
  -- address space and take up more than one byte in whole pages, with lists in order and away from the
  -- end of the address space, room for the modules in a region list without limits, and a word for the
  -- least address: `move_modules` stops with the error for lack of memory, and then no place fits; or
  -- it returns, and then the modules lie one behind the other in the order of their addresses, each
  -- once and with the bytes that it had, from the lowest place on that is aligned, in RAM and in
  -- `sysalloc`, and overlaps no region but those of the modules.
  pub move_modules-Outcome :
      (s : Machine) (modaddr : ℕ)
      → Ready s
      → modaddr ≤ word_max
      → ((move_modules a reg s modaddr ≡ err no_memory) × ((q : ℕ) → ¬ IsTarget s modaddr q))
        ⊎ ((s' : Machine) × (to : ℕ) × (sorter : List ℕ) × (move_modules a reg s modaddr ≡ ok s')
            × IsTarget s modaddr to
            × ((q : ℕ) → IsTarget s modaddr q → to ≤ q)
            × IsSorter s sorter
            × Moved a s.bytes s.mods s' sorter to)
  move_modules-Outcome s modaddr h w =
      let (to, p, first) =
        find_free_ram-First a al (searched s) (all_pages a s.mods) a.page_shift word_max modaddr
          0xffff_ffff h.unvalidated h.bytes h.ram_sorted h.sysalloc_sorted h.ram_low
          (Low-remove_if (λ r. r.name == reg) _ s.list.regs h.list_low) (omega (arith, w)) in
      let (sorter, q, sorted) = sorts s h in
      elim first [
        | inl (t, least) ↦
            let (s', e, moved) = moves_to s modaddr to sorter h t q sorted in
            inr (
              s',
              to,
              sorter,
              move_modules_then s s' modaddr to sorter room p (omega (arith, t.place.above)) q e,
              t,
              least,
              sorted,
              moved,
            )
        | inr (z, no_place) ↦ inl (move_modules_none s modaddr room (p ∙ ap ok z), no_place)
      ]
    where
      room : all_pages a s.mods < 2 ^ 64
      room = omega (arith, h.fits, power_pos a.page_shift)
