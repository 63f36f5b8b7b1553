-- ===== src/Memory.antt =====
-- struct Memory of server/src/memory.h and memory.cc: free places in RAM.
pub mod Place
pub mod Search
pub mod FindFreeRam
mod Tests
use bootstrap.Prelude.{
  ℕ, zero, suc, ◌+◌, Bool, true, false, ◌&&◌, ◌||◌, not, Option, none, some, List, [], ◌∷◌, Result,
  ok, err, ◌>>=◌, out_of_fuel, ltb, leb, ◌==◌, if◌then◌else◌, add_word, sub_word, length, min, max,
}
use mathlib.Core.List.{reverse}
use bootstrap.Align.{Align}
use bootstrap.Region.{Region, range, intersect, set_begin, set_end}
use bootstrap.RegionList.{find, find_rev, find_free, find_free_rev}

-- `validate` is a function pointer: `none` for null. It may narrow the area, and says whether it
-- can be used.
pub record Memory : Type 0 where
  pub ram : List Region
  pub sysalloc : List Region
  pub regions : List Region
  pub validate : Option (Region → ℕ → Bool × Region)

-- The test `!validate || validate(&search_area, node)`, and the area after it.
unfoldable pub validated : Option (Region → ℕ → Bool × Region) → Region → ℕ → Bool × Region
validated none area node = (true, area)
validated (some f) area node = f area node

-- Returning an address that was found, or going on.
abbrev pub found_or : ℕ → Result ℕ → Result ℕ
found_or to rest = elim (to == 0) [ true ↦ rest | false ↦ ok to ]

module _ (a : Align) (m : Memory) (size align : ℕ) where
  -- The rest of a round of the inner loop of `find_free_ram`, once a part of `sysalloc` is found.
  -- `go` is the next round.
  unfoldable pub search_part : Region → (Region → Result ℕ) → Region → Result ℕ
  search_part area go part = find_free a m.regions part size align >>= λ to.
      if not (to == 0)
      then ok to
      else if ltb area.end (add_word part.end 1) || ltb (add_word part.end 1) part.end
      then ok 0
      else (set_begin area (add_word part.end 1) >>= go)

  abbrev pub search_found : Region → (Region → Result ℕ) → Option Region → Result ℕ
  search_found area go none = ok 0
  search_found area go (some r) = intersect r area >>= search_part area go

  -- The inner loop of `find_free_ram`. The fuel counts its rounds; 0 stands for leaving the loop.
  unfoldable pub search_up : ℕ → Region → Result ℕ
  search_up zero area = err out_of_fuel
  search_up (suc fuel) area = search_found area (λ rest. search_up fuel rest) (find m.sysalloc area)

  -- The search in one RAM region, unless the callback refuses it. `rest` is what the loop returns if
  -- nothing is found there.
  unfoldable pub search_area : Bool → Region → Result ℕ → Result ℕ
  search_area false area rest = rest
  search_area true area rest = search_up (suc (length m.sysalloc)) area >>= λ to. found_or to rest

  -- A round of the outer loop of `find_free_ram`; `lo` is its variable `min`, and `go` the rounds
  -- that follow.
  unfoldable pub search_one : ℕ → ℕ → (ℕ → Result ℕ) → Region → ℕ → Result ℕ
  search_one max_addr node go rr lo = elim (leb rr.end lo || leb max_addr rr.begin) [
    | true ↦ go lo
    | false ↦ range (max rr.begin lo) (min rr.end max_addr) >>= λ whole.
        let (usable, area) = validated m.validate whole node in
        search_area usable area (go (max rr.begin lo))
  ]

  -- The outer loop, over the RAM regions that are left.
  unfoldable pub search_ram : ℕ → ℕ → List Region → ℕ → Result ℕ
  search_ram max_addr node [] lo = ok 0
  search_ram max_addr node (rr ∷ rs) lo =
      search_one max_addr node (λ lo'. search_ram max_addr node rs lo') rr lo

  -- `Memory::find_free_ram`; `sizeof (unsigned long)` is 8.
  unfoldable pub find_free_ram : ℕ → ℕ → ℕ → Result ℕ
  find_free_ram min_addr max_addr node = search_ram max_addr node m.ram (max min_addr 8)

  -- The inner loop of `find_free_ram_rev`, in the same parts.
  unfoldable pub search_part_rev : Region → (Region → Result ℕ) → Region → Result ℕ
  search_part_rev area go part = find_free_rev a m.regions part size align >>= λ to.
      if not (to == 0)
      then ok to
      else if ltb (sub_word part.begin 1) area.begin
      then ok 0
      else (set_end area (sub_word part.begin 1) >>= go)

  abbrev pub search_found_rev : Region → (Region → Result ℕ) → Option Region → Result ℕ
  search_found_rev area go none = ok 0
  search_found_rev area go (some r) = intersect r area >>= search_part_rev area go

  unfoldable pub search_down : ℕ → Region → Result ℕ
  search_down zero area = err out_of_fuel
  search_down (suc fuel) area =
      search_found_rev area (λ rest. search_down fuel rest) (find_rev m.sysalloc area)

  unfoldable pub search_area_rev : Bool → Region → Result ℕ → Result ℕ
  search_area_rev false area rest = rest
  search_area_rev true area rest =
      search_down (suc (length m.sysalloc)) area >>= λ to. found_or to rest

  -- The outer loop of `find_free_ram_rev`, over the RAM regions from the last to the first; `hi` is
  -- its variable `max`, which it lowers.
  unfoldable pub search_one_rev : ℕ → ℕ → (ℕ → Result ℕ) → Region → ℕ → Result ℕ
  search_one_rev min_addr node go rr hi = elim (leb rr.end min_addr || leb hi rr.begin) [
    | true ↦ go hi
    | false ↦ range (max rr.begin min_addr) (min rr.end hi) >>= λ whole.
        let (usable, area) = validated m.validate whole node in
        search_area_rev usable area (go (min rr.end hi))
  ]

  unfoldable pub search_ram_rev : ℕ → ℕ → List Region → ℕ → Result ℕ
  search_ram_rev min_addr node [] hi = ok 0
  search_ram_rev min_addr node (rr ∷ rs) hi =
      search_one_rev min_addr node (λ hi'. search_ram_rev min_addr node rs hi') rr hi

  -- `Memory::find_free_ram_rev`
  unfoldable pub find_free_ram_rev : ℕ → ℕ → ℕ → Result ℕ
  find_free_ram_rev min_addr max_addr node =
      search_ram_rev (max min_addr 8) node (reverse m.ram) max_addr
