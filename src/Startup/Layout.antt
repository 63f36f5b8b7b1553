-- ===== src/Startup/Layout.antt =====
-- startup.cc: the command line options that set up the lists of RAM, of memory for the start, and
-- of memory for the kernel.
use bootstrap.Prelude.{
  ℕ, zero, suc, ◌*◌, ◌^◌, ◌%◌, Bool, true, false, ◌||◌, not, Option, none, some, List, [], ◌∷◌,
  Result, ok, err, ◌>>=◌, ltb, leb, ◌==◌, if◌then◌else◌, drop, word_max, add_word, sub_word,
  out_of_fuel, bad_option,
}
use bootstrap.Align.{Align}
use bootstrap.Region.{
  Region, region, sized, start_size, overlaps, intersect, set_begin, no_mem, kmem,
}
use bootstrap.RegionList.{RegionList, find, add, optimize}
use bootstrap.Startup.{check_arg, isspace}

-- The character at a pointer; the terminating zero at the end.
abbrev pub char_at : List ℕ → ℕ
char_at [] = 0
char_at (c ∷ cs) = c

-- `strtoul` of the C library: the value for a text and a base, and the text behind the number.
module _ (strtoul : List ℕ → ℕ → ℕ × List ℕ) where
  -- `get_memory_max_size`
  unfoldable pub get_memory_max_size : ℕ → Option (List ℕ) → Result ℕ
  get_memory_max_size fuel cmdline =
      check_arg fuel cmdline (45 ∷ 109 ∷ 97 ∷ 120 ∷ 109 ∷ 101 ∷ 109 ∷ 61 ∷ []) >>= λ found.
      ok (max_size cmdline found)
    where
      max_size : Option (List ℕ) → Option ℕ → ℕ
      max_size none at = word_max
      max_size (some text) none = word_max
      max_size (some text) (some at) = (strtoul (drop at text) 10).0 * 2 ^ 20 % 2 ^ 64

  -- The switch of `parse_memvalue`: the shift for a suffix, or none.
  abbrev pub suffix_shift : ℕ → Option ℕ
  suffix_shift c =
      if c == 71
      then some 30
      else if c == 77
      then some 20
      else if (c == 107) || (c == 75)
      then some 10
      else none

  abbrev pub scaled : ℕ → List ℕ → Option ℕ → ℕ × List ℕ
  scaled val ep none = (val, ep)
  scaled val ep (some bits) = (val * 2 ^ bits % 2 ^ 64, drop 1 ep)

  -- `parse_memvalue`: the value and the text behind it, or none for `false`.
  unfoldable pub parse_memvalue : List ℕ → Option (ℕ × List ℕ)
  parse_memvalue s =
      let r = strtoul s 0 in
      if r.0 == word_max then none else some (scaled r.0 r.1 (suffix_shift (char_at r.1)))

  -- The parts of `parse_mem_layout` behind the size, and behind the offset.
  abbrev pub layout_end : ℕ → Option (ℕ × List ℕ) → Option (ℕ × ℕ)
  layout_end size none = none
  layout_end size (some (offset, ep)) =
      if (char_at ep == 0) || isspace (char_at ep) then some (size, offset) else none

  abbrev pub layout_offset : Option (ℕ × List ℕ) → Option (ℕ × ℕ)
  layout_offset none = none
  layout_offset (some (size, ep)) =
      let rest = layout_end size (parse_memvalue (drop 1 ep)) in
      if size == 0 then none else if char_at ep == 64 then rest else none

  -- `parse_mem_layout`: size and offset, or none for `false`.
  unfoldable pub parse_mem_layout : List ℕ → Option (ℕ × ℕ)
  unfolding parse_memvalue
  parse_mem_layout s = layout_offset (parse_memvalue s)

  -- The loops over the occurrences of an option: `arg_fuel` is for each search, `use` what is done
  -- with the size and the offset. Whether there was one, and the last state.
  abbrev pub layout_or_panic : Option (ℕ × ℕ) → Result (ℕ × ℕ)
  layout_or_panic none = err bad_option
  layout_or_panic (some l) = ok l

  abbrev pub option_step :
      {S : Type 0}
      → (ℕ → ℕ → S → Result S)
      → (List ℕ → S → Result (Bool × S))
      → List ℕ
      → S
      → Option ℕ
      → Result (Bool × S)
  option_step act go s state none = ok (false, state)
  option_step act go s state (some at) = layout_or_panic (parse_mem_layout (drop at s)) >>= λ l.
      act l.0 l.1 state >>= λ state'. go (drop at s) state' >>= λ r. ok (true, r.1)

  unfoldable pub each_option :
      {S : Type 0} → ℕ → ℕ → List ℕ → (ℕ → ℕ → S → Result S) → List ℕ → S → Result (Bool × S)
  each_option zero arg_fuel arg act s state = err out_of_fuel
  each_option (suc fuel) arg_fuel arg act s state =
      check_arg arg_fuel (some s) arg
      >>= option_step act (each_option fuel arg_fuel arg act) s state

  module _ (a : Align) (fuel : ℕ) where
    -- A round of `setup_memory_map`; the number stands for the name ".ram".
    abbrev pub add_ram : ℕ → ℕ → ℕ → RegionList → Result RegionList
    add_ram name size offset ram =
        start_size offset size name no_mem 0 false >>= λ r. add a ram r false

    -- `setup_memory_map`; the platform's own map is external to the file.
    unfoldable pub setup_memory_map :
        (RegionList → Result RegionList) → ℕ → List ℕ → RegionList → Result RegionList
    setup_memory_map platform name cmdline ram =
        each_option fuel fuel (45 ∷ 109 ∷ 101 ∷ 109 ∷ 61 ∷ []) (add_ram name) cmdline ram >>= λ r.
        if r.0 then ok r.1 else platform r.1

    -- A round of `setup_sysalloc_map`: areas outside of RAM are skipped.
    abbrev pub add_if_ram : Option Region → Region → RegionList → Result RegionList
    add_if_ram none r sysalloc = ok sysalloc
    add_if_ram (some m) r sysalloc = add a sysalloc r false

    abbrev pub add_sysalloc : List Region → ℕ → ℕ → RegionList → Result RegionList
    add_sysalloc ram size offset sysalloc =
        sized offset size >>= λ r. add_if_ram (find ram r) r sysalloc

    -- Its end, for whether there was an option.
    abbrev pub finish_sysalloc : Bool → RegionList → List Region → Result RegionList
    finish_sysalloc false l rs = region 0 word_max 0 no_mem 0 false >>= λ r. add a l r false
    finish_sysalloc true l [] = err bad_option
    finish_sysalloc true l (r ∷ rs) = optimize a (r ∷ rs) >>= λ rs'. ok (record l { regs = rs' })

    unfoldable pub setup_sysalloc_map : List Region → List ℕ → RegionList → Result RegionList
    setup_sysalloc_map ram cmdline sysalloc =
        each_option fuel fuel (45 ∷ 115 ∷ 121 ∷ 115 ∷ 97 ∷ 108 ∷ 108 ∷ 111 ∷ 99 ∷ 61 ∷ [])
          (add_sysalloc ram) cmdline sysalloc
        >>= λ r. finish_sysalloc r.0 r.1 r.1.regs

-- The loop of `add_kmem_area_on_ram` over the regions from a cursor on. The regions are changed
-- while it runs, and it begins anew; `go` is that next round, with `added` set.
module _ (a : Align) (name : ℕ) where
  abbrev pub kmem_region : ℕ → ℕ → Result Region
  kmem_region b e = region b e name kmem 0 false

  abbrev pub kmem_rest : RegionList → Region → Result (Bool × RegionList)
  kmem_rest l r_add =
      kmem_region r_add.begin r_add.end >>= λ r. add a l r false >>= λ l'. ok (true, l')

  unfoldable pub kmem_loop :
      (RegionList → Region → Result (Bool × RegionList))
      → RegionList
      → Bool
      → List Region
      → Region
      → Result (Bool × RegionList)
  kmem_loop go l added [] r_add = kmem_rest l r_add
  kmem_loop go l added (r ∷ rs) r_add =
      let next = kmem_loop go l added rs r_add in
      let before = kmem_region r_add.begin (sub_word r.begin 1) >>= λ k.
      add a l k false >>= λ l'. go l' r_add in
      let behind = set_begin r_add (add_word r.end 1) >>= kmem_loop go l added rs in
      if not (overlaps r_add r)
      then next
      else if ltb r_add.begin r.begin
      then before
      else if leb r_add.end r.end
      then ok (added, l)
      else behind

  -- The rounds from the first region on, and `add_kmem_area_on_ram`.
  unfoldable pub kmem_rounds : ℕ → Bool → RegionList → Region → Result (Bool × RegionList)
  unfolding kmem_loop
  kmem_rounds zero added l r_add = err out_of_fuel
  kmem_rounds (suc fuel) added l r_add = kmem_loop (kmem_rounds fuel true) l added l.regs r_add

  unfoldable pub add_kmem_area_on_ram : ℕ → RegionList → Region → Result (Bool × RegionList)
  unfolding kmem_rounds
  add_kmem_area_on_ram fuel l r_add = kmem_rounds fuel false l r_add

  -- The loop of `setup_kmem_areas` over RAM, for one option.
  unfoldable pub kmem_on_ram :
      ℕ → List Region → Region → Bool × RegionList → Result (Bool × RegionList)
  unfolding add_kmem_area_on_ram
  kmem_on_ram fuel [] r_kmem s = ok s
  kmem_on_ram fuel (m ∷ ms) r_kmem s =
      let skip = kmem_on_ram fuel ms r_kmem s in
      let use_it = intersect r_kmem m >>= λ part.
      add_kmem_area_on_ram fuel s.1 part >>= λ r. kmem_on_ram fuel ms r_kmem (s.0 || r.0, r.1) in
      if overlaps r_kmem m then use_it else skip

  -- `setup_kmem_areas`: whether areas were added, and the regions.
  unfoldable pub setup_kmem_areas :
      (List ℕ → ℕ → ℕ × List ℕ) → ℕ → List Region → List ℕ → RegionList → Result (Bool × RegionList)
  unfolding kmem_on_ram
  setup_kmem_areas strtoul fuel ram cmdline l =
      each_option strtoul fuel fuel (45 ∷ 107 ∷ 109 ∷ 101 ∷ 109 ∷ 97 ∷ 114 ∷ 101 ∷ 97 ∷ 61 ∷ [])
        (λ size offset s. sized offset size >>= λ r. kmem_on_ram fuel ram r s) cmdline (false, l)
      >>= λ r. ok r.1
