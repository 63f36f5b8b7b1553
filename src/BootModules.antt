-- ===== src/BootModules.antt =====
-- boot_modules.cc in server/src: placing and moving the boot modules of an image.
pub mod Sorted
pub mod Moves
pub mod Chain
pub mod Backwards
pub mod Forwards
pub mod Relocate
pub mod Room
pub mod MoveReturns
pub mod Returns
pub mod Split
pub mod Image
pub mod Whole
pub mod Mbi
pub mod Compressed
mod Tests
use bootstrap.Prelude.{
  ℕ, zero, suc, ◌+◌, ◌-◌, ◌%◌, Bool, true, false, ◌&&◌, not, Option, none, some, List, [], ◌∷◌,
  ◌++◌, Result, ok, err, ◌>>=◌, ◌>>◌, guard, ltb, leb, ◌==◌, if◌then◌else◌, add_word, sub_word,
  length, word_max, module_outside_ram, module_overlap, too_many_modules, no_memory,
}
use bootstrap.Align.{Align, round_page}
use bootstrap.Region.{Region, RegionType, boot, root, start_size, point}
use bootstrap.RegionList.{RegionList, find, find_container, remove_if, optimize, add, sub}
use bootstrap.Memory.{Memory, find_free_ram}

-- `class Mod_info`: where the module lies, its sizes, its flags.
pub record ModInfo : Type 0 where
  pub start : ℕ
  pub size : ℕ
  pub size_uncompressed : ℕ
  pub flags : ℕ

-- The machine: the bytes at the physical addresses, the modules of `mod_header` by their index, and
-- `mem_manager`, of which `list` is the region list `regions`.
pub record Machine : Type 0 where
  pub bytes : ℕ → ℕ
  pub mods : List ModInfo
  pub ram : List Region
  pub sysalloc : List Region
  pub list : RegionList
  pub validate : Option (Region → ℕ → Bool × Region)

-- `mods ()[index]`. An index is below `num_mods ()` wherever the code uses one.
unfoldable pub mod_at : List ModInfo → ℕ → ModInfo
mod_at [] i = record { start = 0; size = 0; size_uncompressed = 0; flags = 0 }
mod_at (m ∷ ms) zero = m
mod_at (m ∷ ms) (suc i) = mod_at ms i

-- `mods ()[index]->start (dest)`
unfoldable pub set_start : List ModInfo → ℕ → ℕ → List ModInfo
set_start [] i dest = []
set_start (m ∷ ms) zero dest = record m { start = dest } ∷ ms
set_start (m ∷ ms) (suc i) dest = m ∷ set_start ms i dest

-- The `memmove` of a module, and the `memset` of the bytes behind it up to an address.
unfoldable pub moved : (ℕ → ℕ) → ℕ → ℕ → ℕ → ℕ → ℕ → ℕ
moved bytes dest src size fill x =
    if leb dest x && ltb x (dest + size)
    then bytes (x - dest + src)
    else if leb (dest + size) x && ltb x fill
    then 0
    else bytes x

-- The search of `mod_insert_sorted` for the place: in front of the first entry that compares greater.
unfoldable pub insert_before : (ℕ → ℕ → Bool) → ℕ → List ℕ → List ℕ
insert_before cmp v [] = v ∷ []
insert_before cmp v (i ∷ is) = if cmp v i then v ∷ i ∷ is else i ∷ insert_before cmp v is

-- `mod_insert_sorted`. The list is `mod_sorter` up to `mod_sorter_end`.
unfoldable pub mod_insert_sorted : (ℕ → ℕ → Bool) → ℕ → List ℕ → Result (List ℕ)
unfolding insert_before
mod_insert_sorted cmp v sorter =
    guard (ltb (length sorter) 256) too_many_modules >> ok (insert_before cmp v sorter)

-- `Mbi_mod_cmp`
abbrev pub mod_before : List ModInfo → ℕ → ℕ → Bool
mod_before mods l r = ltb (mod_at mods l).start (mod_at mods r).start

-- The loop of `move_modules` that sorts the modules from an index on, of which `n` are left.
unfoldable pub sort_from : List ModInfo → ℕ → ℕ → List ℕ → Result (List ℕ)
unfolding mod_insert_sorted
sort_from mods zero i sorter = ok sorter
sort_from mods (suc n) i sorter =
    mod_insert_sorted (mod_before mods) i sorter >>= sort_from mods n (suc i)

module _ (a : Align) (mod_reg : ℕ) where
  -- `Boot_modules::mod_region`
  unfoldable pub mod_region : ℕ → ℕ → ℕ → Result Region
  unfolding start_size
  mod_region index start size = start_size start size mod_reg boot index false

  -- `calc_modules_size` of the modules from an index on, up to `max`.
  unfoldable pub calc_modules_size : List ModInfo → ℕ → ℕ
  calc_modules_size [] p2align = 0
  calc_modules_size (m ∷ ms) p2align =
      add_word (a.round_size m.size p2align) (calc_modules_size ms p2align)

  -- The two checks of a destination: what contains it in RAM, and what overlaps it in `regions`.
  abbrev pub unless_misplaced : Option Region → Option Region → Result Machine → Result Machine
  unless_misplaced none overlap rest = err module_outside_ram
  unless_misplaced (some r) (some overlap) rest = err module_overlap
  unless_misplaced (some r) none rest = rest

  -- `Boot_modules::_move_module`, without what it prints. The memory is written through the
  -- translation of the platform, under which addresses keep their place in the page.
  unfoldable pub move_module_to : Machine → ℕ → ℕ → ℕ → ℕ → RegionType → ℕ → Result Machine
  unfolding start_size add find moved point find_container
  move_module_to s dest src size name type subtype =
      let placed = start_size dest size name type subtype false >>= λ r. add a s.list r false in
      if src == dest
      then (placed >>= λ l. ok (record s { list = l }))
      else unless_misplaced (find_container s.ram (point dest)) (find s.list.regs (point dest)) (
          placed >>= λ l.
          ok (record s {
            bytes = moved s.bytes dest src size (round_page a (dest + size));
            list = l;
          }))

  -- `Boot_modules_image_mode::move_module`
  unfoldable pub move_module : Machine → ℕ → ℕ → Result Machine
  unfolding move_module_to mod_at set_start
  move_module s index dest =
      let m = mod_at s.mods index in
      move_module_to s dest m.start m.size mod_reg root 0 >>= λ s'.
      ok (record s' { mods = set_start s'.mods index dest })

  -- The first loop of `move_modules` after the sort: the modules before `end_fwd`, the cursor, and
  -- the modules from `end_fwd` on.
  unfoldable pub split_forward : List ModInfo → ℕ → List ℕ → List ℕ × ℕ × List ℕ
  unfolding mod_at
  split_forward mods cursor [] = ([], cursor, [])
  split_forward mods cursor (i ∷ is) =
      let rest = split_forward mods (add_word cursor (round_page a (mod_at mods i).size)) is in
      if ltb cursor (mod_at mods i).start
      then ([], cursor, i ∷ is)
      else (i ∷ rest.0, rest.1, rest.2)

  -- The second loop, from the last module before `end_fwd` down to the first: `end_fwd_addr` and the
  -- machine after it.
  unfoldable pub move_forwards : List ℕ → ℕ → Machine → Result (ℕ × Machine)
  unfolding move_module mod_at
  move_forwards [] addr s = ok (addr, s)
  move_forwards (i ∷ is) addr s = move_forwards is addr s >>= λ at.
      let dest = sub_word at.0 (round_page a (mod_at at.1.mods i).size) in
      move_module at.1 i dest >>= λ s'. ok (dest, s')

  -- The third loop.
  unfoldable pub move_backwards : List ℕ → ℕ → Machine → Result Machine
  unfolding move_module mod_at
  move_backwards [] cursor s = ok s
  move_backwards (i ∷ is) cursor s = move_module s i cursor >>= λ s'.
      move_backwards is (add_word cursor (round_page a (mod_at s.mods i).size)) s'

  -- The three loops.
  unfoldable pub relocate : List ℕ → ℕ → Machine → Result Machine
  unfolding split_forward move_forwards move_backwards
  relocate sorter to s =
      let (fwd, cursor, bwd) = split_forward s.mods to sorter in
      move_forwards fwd cursor s >>= λ at. move_backwards bwd cursor at.1

  -- `Boot_modules::move_modules`, on an empty sorter.
  unfoldable pub move_modules : Machine → ℕ → Result Machine
  unfolding remove_if calc_modules_size find_free_ram sort_from relocate
  move_modules s modaddr =
      let s0 : Machine = record s {
        list = record s.list { regs = remove_if (λ r. r.name == mod_reg) s.list.regs };
      } in
      let memory : Memory = record {
        ram = s.ram;
        sysalloc = s.sysalloc;
        regions = s0.list.regs;
        validate = s.validate;
      } in
      find_free_ram a memory (calc_modules_size s.mods a.page_shift) a.page_shift modaddr word_max
        0xffff_ffff
      >>= λ to.
          guard (not (to == 0)) no_memory
          >> (sort_from s.mods (length s.mods) 0 [] >>= λ sorter. relocate sorter to s0)

  -- `Boot_modules::merge_mod_regions`; `rwx` is `Region::Root_section_rwx`, a constant of the kernel
  -- headers.
  unfoldable pub mark_modules : ℕ → List Region → List Region
  mark_modules rwx [] = []
  mark_modules rwx (r ∷ rs) =
      let r' = if r.name == mod_reg then record r { sub_type = rwx } else r in
      r' ∷ mark_modules rwx rs

  unfoldable pub merge_mod_regions : ℕ → RegionList → Result RegionList
  unfolding mark_modules optimize
  merge_mod_regions rwx l =
      optimize a (mark_modules rwx l.regs) >>= λ rs. ok (record l { regs = rs })

  -- `drop_mod_region`: the first region of the module with an index goes.
  unfoldable pub drop_mod_region : ℕ → List Region → List Region
  drop_mod_region index [] = []
  drop_mod_region index (r ∷ rs) =
      let rest = drop_mod_region index rs in
      if (r.name == mod_reg) && (r.sub_type == index) then rs else r ∷ rest

  -- `Boot_modules_image_mode::init_mod_regions`, of the modules from an index on; and with the region
  -- of the header, which lies between two addresses.
  unfoldable pub init_from : List ModInfo → ℕ → RegionList → Result RegionList
  unfolding mod_region add
  init_from [] index l = ok l
  init_from (m ∷ ms) index l =
      mod_region (index % 256) m.start m.size >>= λ r. add a l r false >>= init_from ms (suc index)

  unfoldable pub init_mod_regions : ℕ → ℕ → ℕ → List ModInfo → RegionList → Result RegionList
  unfolding init_from start_size add
  init_mod_regions header payload header_name mods l =
      start_size header payload header_name boot 0 false >>= λ r.
      add a l r false >>= init_from mods 0

  -- `Boot_modules_image_mode::finalize_mod_regions`
  unfoldable pub finalize_mod_regions : ℕ → ℕ → ℕ → RegionList → Result RegionList
  unfolding start_size sub
  finalize_mod_regions header payload header_name l =
      start_size header payload header_name boot 0 false >>= λ r. sub a l r >>= λ done. ok done.1
