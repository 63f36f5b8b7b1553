-- ===== src/BootModules/Compressed/Unpack.antt =====
-- The rest of `decompress_mods`, and `construct_mbi`.
use bootstrap.Prelude.{
  ℕ, suc, ◌+◌, Bool, true, false, ◌&&◌, ◌||◌, not, Option, none, some, List, [], ◌∷◌, Result, ok,
  ◌>>=◌, ◌>>◌, guard, ltb, leb, ◌==◌, if◌then◌else◌, add_word, sub_word, length, assertion,
  no_memory,
}
use bootstrap.Align.{Align, round_page, trunc_page}
use bootstrap.Region.{Region, root, start_size, sized, overlaps}
use bootstrap.RegionList.{find, find_container, add}
use bootstrap.BootModules.{ModInfo, Machine, mod_at, move_module, move_modules, merge_mod_regions}
use bootstrap.BootModules.Mbi.{
  MbiLayout, MbiStores, InternalModule, Filling, is_base_module, check_sizes, mbi_size, fill_mbi,
}
use bootstrap.BootModules.Compressed.{
  Unpacker, Places, place_modules, sort_others, drop_regions, free_ram, decomp_move_mod,
}

module _ (a : Align) (mod_reg : ℕ) (u : Unpacker) (c : MbiLayout) where
  -- The two loops that unpack: from the last module down, and from the first up.
  unfoldable pub unpack_forwards : List ℕ → ℕ → Machine → Result Machine
  unfolding decomp_move_mod
  unpack_forwards [] destbuf s = ok s
  unpack_forwards (i ∷ is) destbuf s =
      let dest_size = round_page a (mod_at s.mods i).size_uncompressed in
      let next =
        decomp_move_mod a mod_reg u c s i destbuf
        >>= unpack_forwards is (add_word destbuf dest_size) in
      if is_base_module c (mod_at s.mods i) then unpack_forwards is destbuf s else next

  unfoldable pub unpack_backwards : List ℕ → ℕ → Machine → Result (ℕ × Machine)
  unfolding decomp_move_mod
  unpack_backwards [] destbuf s = ok (destbuf, s)
  unpack_backwards (i ∷ is) destbuf s = unpack_backwards is destbuf s >>= λ at.
      let dest = sub_word at.0 (round_page a (mod_at at.1.mods i).size_uncompressed) in
      let next = decomp_move_mod a mod_reg u c at.1 i dest >>= λ s'. ok (dest, s') in
      if is_base_module c (mod_at at.1.mods i) then ok at else next

  -- Whether a place is free RAM.
  abbrev pub free_at : Machine → ℕ → ℕ → Result Bool
  free_at s at n = sized at n >>= λ r. ok (both (find_container s.ram r) (find s.list.regs r))
    where
      both : Option Region → Option Region → Bool
      both none o = false
      both (some m) none = true
      both (some m) (some o) = false

  -- The choice of the place: whether to unpack forwards, and the address.
  abbrev pub choose_behind : Machine → ℕ → ℕ → Result (Bool × ℕ)
  choose_behind s rdest total = free_at s rdest total >>= λ free.
      let other = free_ram a mod_reg u c s total rdest >>= λ to. ok (false, to) in
      if free then ok (false, rdest) else other

  abbrev pub choose_place : Machine → Places → ℕ → Result (Bool × ℕ)
  choose_place s p total = free_at s p.ldest total >>= λ free.
      if not (p.ldest == 0) && free then ok (true, p.ldest) else choose_behind s p.rdest total

  -- `mod_sorter[0]`, which is 0 in an empty sorter.
  abbrev pub first_sorted : List ℕ → ℕ
  first_sorted [] = 0
  first_sorted (i ∷ is) = i

  abbrev pub first_places : ModInfo → Places
  first_places m0 =
      let rdest = round_page a (add_word m0.start m0.size) in
      let ldest = trunc_page a (sub_word m0.start m0.size_uncompressed) in
      record { rpos = rdest; lpos = ldest; rdest = rdest; ldest = ldest }

  abbrev pub unpack_at : List ℕ → ℕ → Bool × ℕ → Machine → Result Machine
  unpack_at sorter total (true, destbuf) s = unpack_forwards sorter destbuf s
  unpack_at sorter total (false, destbuf) s =
      unpack_backwards sorter (add_word destbuf total) s >>= λ at. ok at.1

  -- The last loop: base modules that overlap with something else are moved away.
  unfoldable pub in_the_way : List Region → Region → Bool
  in_the_way [] mr = false
  in_the_way (r ∷ rs) mr = (overlaps r mr && not (r.name == mod_reg)) || in_the_way rs mr

  unfoldable pub move_base : List ModInfo → ℕ → Machine → Result Machine
  unfolding in_the_way move_module
  move_base [] index s = ok s
  move_base (m ∷ ms) index s =
      let skip = move_base ms (suc index) s in
      let away = free_ram a mod_reg u c s m.size 0 >>= λ to.
      guard (not (to == 0)) no_memory
      >> (move_module a mod_reg s index to >>= move_base ms (suc index)) in
      let check = sized m.start m.size >>= λ mr. if in_the_way s.list.regs mr then away else skip in
      if is_base_module c m then check else skip

  -- `decompress_mods`
  unfoldable pub decompress_mods : (ℕ → ℕ) → ℕ → ℕ → Machine → Result Machine
  unfolding sort_others place_modules drop_regions unpack_forwards unpack_backwards move_base
  decompress_mods stray total mod_addr s =
      guard (ltb 3 (length s.mods)) assertion
      >> (sort_others a mod_reg u c s.mods s.mods 0 [] >>= λ sorter.
          let first = first_places (mod_at s.mods (first_sorted sorter)) in
          free_ram a mod_reg u c s total mod_addr >>= λ destbuf.
          let places = place_modules a mod_reg u c s.mods first in
          let dropped : Machine = record s {
            list = record s.list { regs = drop_regions a mod_reg u c stray s.mods 0 s.list.regs };
          } in
          let found : Bool × ℕ → Result ((Bool × ℕ) × Machine) = λ at. ok (at, dropped) in
          let search = choose_place dropped places total >>= found in
          (if (destbuf == 0) || ltb first.rdest destbuf then search else ok ((true, destbuf), s))
          >>= λ chosen.
              guard (not (chosen.0.1 == 0)) no_memory
              >> (unpack_at sorter total chosen.0 chosen.1 >>= λ s'. move_base s'.mods 0 s'))

  -- The sum in the first loop of `construct_mbi`.
  unfoldable pub total_size : List ModInfo → ℕ
  total_size [] = 0
  total_size (m ∷ ms) =
      if is_base_module c m
      then total_size ms
      else add_word (round_page a m.size_uncompressed) (total_size ms)

  -- `construct_mbi`; the configuration says whether there is compression. The names are that of the
  -- region of the information, and `rwx` is `Region::Root_section_rwx`.
  unfoldable pub construct_mbi :
      (compress : Bool) (stray : ℕ → ℕ) (rwx mbi_name : ℕ) (cmdline : ℕ → List ℕ) (st : MbiStores)
      → List InternalModule
      → ℕ
      → Machine
      → Result (ℕ × Filling × Machine)
  unfolding check_sizes total_size decompress_mods move_modules merge_mod_regions mbi_size fill_mbi
  construct_mbi compress stray rwx mbi_name cmdline st internal mod_addr s =
      let place =
        if not compress
        then move_modules a mod_reg s mod_addr
        else if ltb 3 (length s.mods)
        then decompress_mods stray (total_size s.mods) mod_addr s
        else ok s in
      check_sizes c s.mods
      >> (place >>= λ s1. merge_mod_regions a mod_reg rwx s1.list >>= λ l.
          guard (leb 1 (length s1.mods + length internal)) assertion
          >> (let s2 : Machine = record s1 { list = l } in
              let full = round_page a (mbi_size c cmdline s2.mods internal) in
              free_ram a mod_reg u c s2 full mod_addr >>= λ mbi.
              guard (not (mbi == 0)) no_memory
              >> (start_size mbi full mbi_name root rwx false >>= λ r.
                  add a s2.list r false >>= λ l'. ok (
                    mbi,
                    fill_mbi c st cmdline s2.mods internal mbi s2.bytes,
                    record s2 { list = l' },
                  ))))
