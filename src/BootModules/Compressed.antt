-- ===== src/BootModules/Compressed.antt =====
-- boot_modules.cc: the modules of an image with compression are unpacked, and the information for
-- the root task is built.
pub mod Round
pub mod Search
pub mod Unpack
mod Tests
use bootstrap.Prelude.{
  ℕ, zero, suc, ◌+◌, ◌-◌, ◌%◌, Bool, true, false, ◌&&◌, ◌||◌, not, Option, none, some, List, [],
  ◌∷◌, Result, ok, err, ◌>>=◌, ◌>>◌, guard, ltb, leb, ◌==◌, if◌then◌else◌, add_word, sub_word,
  length, word_max, assertion, module_outside_ram, no_memory, bad_decompression,
}
use bootstrap.Align.{Align, round_page, trunc_page}
use bootstrap.Region.{Region, RegionType, boot, root, start_size, sized, overlaps}
use bootstrap.RegionList.{RegionList, find, find_container, remove_if, add}
use bootstrap.Memory.{Memory, find_free_ram, find_free_ram_rev}
use bootstrap.Uncompress.{Zlib, decompress}
use bootstrap.BootModules.{
  ModInfo, Machine, mod_at, set_start, moved, mod_insert_sorted, mod_before, drop_mod_region,
  move_module, move_modules, merge_mod_regions,
}
use bootstrap.BootModules.Mbi.{
  MbiLayout, InternalModule, Filling, is_base_module, check_sizes, mbi_size, fill_mbi,
}

-- What zlib does with a module: its answers, and the memory after it has written to a destination.
pub record Unpacker : Type 0 where
  pub zlib : ModInfo → Zlib
  pub output : ModInfo → ℕ → (ℕ → ℕ) → ℕ → ℕ

-- `Mod_info::compressed`
abbrev pub compressed : ModInfo → Bool
compressed m = not (m.size == m.size_uncompressed)

-- `mods ()[index]->start (dest)` and `size (size_uncompressed ())`
unfoldable pub set_unpacked : List ModInfo → ℕ → ℕ → List ModInfo
set_unpacked [] i dest = []
set_unpacked (m ∷ ms) zero dest = record m { start = dest; size = m.size_uncompressed } ∷ ms
set_unpacked (m ∷ ms) (suc i) dest = m ∷ set_unpacked ms i dest

-- The variables of the loop that looks for a place at the compressed modules.
pub record Places : Type 0 where
  pub rpos : ℕ
  pub lpos : ℕ
  pub rdest : ℕ
  pub ldest : ℕ

module _ (a : Align) (mod_reg : ℕ) (u : Unpacker) (c : MbiLayout) where
  abbrev pub memory_of : Machine → Memory
  memory_of s = record {
    ram = s.ram;
    sysalloc = s.sysalloc;
    regions = s.list.regs;
    validate = s.validate;
  }

  -- `find_free_ram` with the defaults of its other arguments.
  abbrev pub free_ram : Machine → ℕ → ℕ → Result ℕ
  free_ram s n lo = find_free_ram a (memory_of s) n a.page_shift lo word_max 0xffff_ffff

  -- `Mod_info::region (true, type)`
  abbrev pub page_region : ModInfo → ℕ → RegionType → Result Region
  page_region m index type =
      start_size m.start (round_page a m.size) mod_reg type (index % 256) false

  abbrev pub replace_mod_region : ModInfo → ℕ → RegionType → RegionList → Result RegionList
  replace_mod_region m index type l = page_region m index type >>= λ r.
      add a (record l { regs = drop_mod_region a mod_reg index l.regs }) r false

  -- The check of what `decompress` returned, and the rest of `decompress_mod`.
  abbrev pub unpacked : Machine → ℕ → ℕ → Option ℕ → Result Machine
  unpacked s index dest none = err bad_decompression
  unpacked s index dest (some image) =
      let m = mod_at s.mods index in
      let mods = set_unpacked s.mods index dest in
      guard (image == dest) bad_decompression
      >> (replace_mod_region (mod_at mods index) index boot s.list >>= λ l.
          ok (record s { bytes = u.output m dest s.bytes; mods = mods; list = l }))

  -- `decompress_mod`
  unfoldable pub decompress_mod : Machine → ℕ → ℕ → Result Machine
  unfolding decompress set_unpacked
  decompress_mod s index dest =
      let m = mod_at s.mods index in
      guard (not (dest == 0)) no_memory
      >> (sized dest m.size_uncompressed >>= λ r. elim (find_container s.ram r) [
        | none ↦ err module_outside_ram
        | some o ↦ unpacked s index dest (decompress (u.zlib m) dest)
      ])

  -- `Boot_modules_image_mode::module`, with the module as it is then.
  unfoldable pub get_module : Machine → ℕ → Bool → Result (ModInfo × Machine)
  unfolding decompress_mod
  get_module s index uncompress =
      let m = mod_at s.mods index in
      let unpack =
        find_free_ram_rev a (memory_of s) (round_page a m.size_uncompressed) a.page_shift 0 word_max
          0xffff_ffff
        >>= λ to. decompress_mod s index to >>= λ s'. ok (mod_at s'.mods index, s') in
      if uncompress && compressed m then unpack else ok (m, s)

  -- `decomp_move_mod`
  unfoldable pub decomp_move_mod : Machine → ℕ → ℕ → Result Machine
  unfolding decompress_mod
  decomp_move_mod s index destbuf =
      let m = mod_at s.mods index in
      let mods = set_start s.mods index destbuf in
      let move = replace_mod_region (mod_at mods index) index root s.list >>= λ l. ok (record s {
        bytes = moved s.bytes destbuf m.start m.size_uncompressed (destbuf + m.size_uncompressed);
        mods = mods;
        list = l;
      }) in
      if compressed m then decompress_mod s index destbuf else move

  -- The first loop of `decompress_mods`: the modules that are not base modules are sorted in.
  unfoldable pub sort_others : List ModInfo → List ModInfo → ℕ → List ℕ → Result (List ℕ)
  sort_others mods [] index sorter = ok sorter
  sort_others mods (m ∷ ms) index sorter =
      (if is_base_module c m then ok sorter else mod_insert_sorted (mod_before mods) index sorter)
      >>= sort_others mods ms (suc index)

  -- The place behind the modules moves up so that a module is unpacked behind its compressed bytes.
  abbrev pub shift_right : ℕ → Places → Places
  shift_right mend p =
      let delta = sub_word (round_page a mend) p.rpos in
      if ltb p.rpos mend
      then record p { rpos = add_word p.rpos delta; rdest = add_word p.rdest delta }
      else p

  -- The place in front of them moves down so that a module is unpacked in front of its compressed
  -- bytes.
  abbrev pub shift_left : ℕ → ℕ → Places → Places
  shift_left mstart n p =
      let delta = round_page a (sub_word (add_word p.lpos n) mstart) in
      if not (p.ldest == 0) && ltb mstart (add_word p.lpos n)
      then (if ltb delta p.ldest
          then record p { lpos = sub_word p.lpos delta; ldest = sub_word p.ldest delta }
          else record p { ldest = 0 })
      else p

  abbrev pub advance : ℕ → Places → Places
  advance n p = record p { rpos = add_word p.rpos n; lpos = add_word p.lpos n }

  abbrev pub place_module : ModInfo → Places → Places
  place_module m p =
      advance (round_page a m.size_uncompressed)
        (shift_left m.start m.size_uncompressed (shift_right (add_word m.start m.size) p))

  -- The loop, on the places.
  unfoldable pub place_modules : List ModInfo → Places → Places
  place_modules [] p = p
  place_modules (m ∷ ms) p = place_modules ms (if is_base_module c m then p else place_module m p)

  -- The loop, on the regions. The lambda has a copy of the module, so `index ()` of the copy is not the
  -- index of the module: `stray` is what it returns.
  unfoldable pub drop_regions : (ℕ → ℕ) → List ModInfo → ℕ → List Region → List Region
  drop_regions stray [] index regs = regs
  drop_regions stray (m ∷ ms) index regs = drop_regions stray ms (suc index) (
      if is_base_module c m
      then regs
      else remove_if (λ r. (r.name == mod_reg) && (r.sub_type == stray index)) regs)
