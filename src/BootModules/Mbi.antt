-- ===== src/BootModules/Mbi.antt =====
-- boot_modules.cc: the Multiboot information for the kernel's root task, with the modules and their
-- command lines.
pub mod Texts
pub mod Loops
pub mod Fill
mod Tests
use bootstrap.Prelude.{
  ℕ, zero, suc, ◌+◌, ◌-◌, ◌*◌, ◌/◌, ◌%◌, Bool, true, false, ◌&&◌, ◌||◌, not, List, [], ◌∷◌, ◌++◌,
  Result, ok, err, ◌>>=◌, ◌>>◌, guard, ltb, leb, ◌==◌, if◌then◌else◌, add_word, length, bit_and,
  empty_module,
}
use bootstrap.BootModules.{ModInfo}

-- The constants of the Multiboot header: the sizes of the structures for the information and for a
-- module, the mask of the flags, and the flags of an internal module.
pub record MbiLayout : Type 0 where
  pub info_size : ℕ
  pub mod_size : ℕ
  pub flag_mask : ℕ
  pub flag_unspec : ℕ

-- The stores to the fields of these structures, and the load of the number of modules, each at the
-- address of the structure.
pub record MbiStores : Type 0 where
  pub set_mods_count : ℕ → ℕ → (ℕ → ℕ) → ℕ → ℕ
  pub mods_count : ℕ → (ℕ → ℕ) → ℕ
  pub set_mods_addr : ℕ → ℕ → (ℕ → ℕ) → ℕ → ℕ
  pub set_cmdline : ℕ → ℕ → (ℕ → ℕ) → ℕ → ℕ
  pub set_mod_start : ℕ → ℕ → (ℕ → ℕ) → ℕ → ℕ
  pub set_mod_end : ℕ → ℕ → (ℕ → ℕ) → ℕ → ℕ
  pub set_flags : ℕ → ℕ → (ℕ → ℕ) → ℕ → ℕ

-- `Internal_module_base`, with the addresses that its `set_region` stores.
pub record InternalModule : Type 0 where
  pub cmdline : List ℕ
  pub start : ℕ
  pub end : ℕ

-- `cnt`, `mbi_strs`, and the memory.
pub record Filling : Type 0 where
  pub cnt : ℕ
  pub strs : ℕ
  pub bytes : ℕ → ℕ

-- `round_wordsize`, for words of eight bytes.
abbrev pub round_wordsize : ℕ → ℕ
round_wordsize s = add_word s 7 / 8 * 8

-- The `memcpy` of a text with its null character.
unfoldable pub put_string : List ℕ → ℕ → (ℕ → ℕ) → ℕ → ℕ
put_string [] at bytes x = if x == at then 0 else bytes x
put_string (c ∷ cs) at bytes x = put_string cs (at + 1) (λ y. if y == at then c else bytes y) x

abbrev pub text_size : List ℕ → ℕ
text_size text = round_wordsize (length text + 1)

module _ (c : MbiLayout) where
  -- `Mod_info::is_base_module`
  abbrev pub is_base_module : ModInfo → Bool
  is_base_module m = ltb 0 (bit_and m.flags c.flag_mask) && leb (bit_and m.flags c.flag_mask) 3

  -- The two loops for `mbi_size`.
  unfoldable pub texts_size : (ℕ → List ℕ) → List ModInfo → ℕ → ℕ
  texts_size cmdline [] index = 0
  texts_size cmdline (m ∷ ms) index =
      add_word (text_size (cmdline index)) (texts_size cmdline ms (suc index))

  unfoldable pub internal_size : List InternalModule → ℕ
  internal_size [] = 0
  internal_size (m ∷ ms) = add_word (text_size m.cmdline) (internal_size ms)

  unfoldable pub mbi_size : (ℕ → List ℕ) → List ModInfo → List InternalModule → ℕ
  unfolding texts_size internal_size
  mbi_size cmdline mods internal =
      let count = length mods + length internal in
      add_word (add_word (add_word c.info_size (c.mod_size * count)) (texts_size cmdline mods 0))
        (internal_size internal)

  -- The first loop of `construct_mbi`: no module is empty.
  unfoldable pub check_sizes : List ModInfo → Result (Unit {0})
  check_sizes [] = ok tt
  check_sizes (m ∷ ms) = guard (not (m.size == 0)) empty_module >> check_sizes ms

module _ (c : MbiLayout) (st : MbiStores) where
  -- The stores for an entry at an address, with the copy of its text, and the step of `mbi_strs`.
  abbrev pub add_entry : ℕ → List ℕ → ℕ → ℕ → ℕ → Filling → Filling
  add_entry at text start end flags s = record {
    cnt = s.cnt + 1;
    strs = add_word s.strs (text_size text);
    bytes = st.set_flags at flags (
        st.set_mod_end at end
          (st.set_mod_start at start (put_string text s.strs (st.set_cmdline at s.strs s.bytes))));
  }

  -- The address of an entry.
  abbrev pub mod_addr : ℕ → ℕ → ℕ
  mod_addr mbi i = add_word (add_word mbi c.info_size) (c.mod_size * i)

  -- The body of the loop for a module.
  abbrev pub add_module : ℕ → List ℕ → ModInfo → Filling → Filling
  add_module mbi text m s =
      add_entry (mod_addr mbi s.cnt) text m.start (add_word m.start m.size)
        (bit_and m.flags c.flag_mask) s

  -- A run of the loop over the modules from an index on: the first is for the base modules, the
  -- second for the others. The command line of a module is a text.
  unfoldable pub fill_run : ℕ → Bool → (ℕ → List ℕ) → List ModInfo → ℕ → Filling → Filling
  fill_run mbi base cmdline [] index s = s
  fill_run mbi base cmdline (m ∷ ms) index s = fill_run mbi base cmdline ms (suc index) (
      if (base && not (is_base_module c m)) || (not base && is_base_module c m)
      then s
      else add_module mbi (cmdline index) m s)

  -- `set` for an internal module, whose entry is the next one after `mods_count`.
  abbrev pub add_internal : ℕ → InternalModule → Filling → Filling
  add_internal mbi m s =
      let n = st.mods_count mbi s.bytes in
      add_entry (mod_addr mbi n) m.cmdline m.start m.end c.flag_unspec
        (record { cnt = s.cnt; strs = s.strs; bytes = st.set_mods_count mbi (n + 1) s.bytes })

  -- The loop over the internal modules.
  unfoldable pub fill_internal : ℕ → List InternalModule → Filling → Filling
  fill_internal mbi [] s = s
  fill_internal mbi (m ∷ ms) s = fill_internal mbi ms (add_internal mbi m s)

  -- The state in front of these loops: the information is cleared, and its first fields are set.
  abbrev pub start_of : (ℕ → List ℕ) → List ModInfo → List InternalModule → ℕ → (ℕ → ℕ) → Filling
  start_of cmdline mods internal mbi bytes =
      let cleared : ℕ → ℕ =
        λ x. if leb mbi x && ltb x (mbi + mbi_size c cmdline mods internal) then 0 else bytes x in
      record {
        cnt = 0;
        strs = mod_addr mbi (length mods + length internal);
        bytes = st.set_mods_addr mbi (mod_addr mbi 0) (st.set_mods_count mbi (length mods) cleared);
      }

  -- `construct_mbi` from the `memset` on; the information stands at an address.
  unfoldable pub fill_mbi :
      (ℕ → List ℕ) → List ModInfo → List InternalModule → ℕ → (ℕ → ℕ) → Filling
  unfolding fill_run fill_internal
  fill_mbi cmdline mods internal mbi bytes = fill_internal mbi internal (
      fill_run mbi false cmdline mods 0
        (fill_run mbi true cmdline mods 0 (start_of cmdline mods internal mbi bytes)))
