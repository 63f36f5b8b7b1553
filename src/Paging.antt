-- ===== src/Paging.antt =====
-- ARCH-amd64/paging.c in server/src: a range of memory is mapped in page tables of four levels.
pub mod Steps
pub mod Levels
pub mod Leaves
mod Tests
use bootstrap.Prelude.{
  ℕ, zero, suc, ◌+◌, ◌-◌, ◌*◌, ◌/◌, ◌%◌, ◌^◌, Bool, true, false, ◌&&◌, ◌||◌, not, Result, ok, err,
  guard, ◌>>=◌, ◌>>◌, ltb, leb, ◌==◌, if◌then◌else◌, add_word, sub_word, bit_and, bit_or, assertion,
  out_of_fuel,
}

-- `ptab_shift`, `ptab_size` and `ptab_mask`
abbrev pub ptab_shift : ℕ → ℕ
ptab_shift level = 12 + level * 9

abbrev pub ptab_size : ℕ → ℕ
ptab_size level = 2 ^ ptab_shift level

-- `find_ptabe`: the address of an entry of a table.
abbrev pub find_ptabe : ℕ → ℕ → ℕ → ℕ
find_ptabe ptab level la = ptab + 8 * (la / ptab_size level % 512)

abbrev pub is_ptab_aligned : ℕ → ℕ → Bool
is_ptab_aligned level addr = addr % ptab_size level == 0

-- The features of the CPU that `allow_leaf` asks for.
pub record CpuInfo : Type 0 where
  pub pse : Bool
  pub pdpe_1gb : Bool

unfoldable pub allow_leaf : CpuInfo → ℕ → Bool
allow_leaf cpu zero = true
allow_leaf cpu (suc zero) = cpu.pse
allow_leaf cpu (suc (suc zero)) = cpu.pdpe_1gb
allow_leaf cpu (suc (suc (suc level))) = false

abbrev pub ptab_ps : ℕ
ptab_ps = 128

unfoldable pub leaf_bit : ℕ → ℕ
leaf_bit zero = 0
leaf_bit (suc zero) = ptab_ps
leaf_bit (suc (suc zero)) = ptab_ps
leaf_bit (suc (suc (suc level))) = 0

-- `*ptabe & PTAB_VALID`
abbrev pub is_valid : ℕ → Bool
is_valid e = not (bit_and e 1 == 0)

unfoldable pub is_leaf : ℕ → ℕ → Bool
unfolding leaf_bit
is_leaf level e = (level == 0) || not (bit_and e (leaf_bit level) == 0)

-- `PTAB_PFN`
abbrev pub ptab_pfn : ℕ
ptab_pfn = 2 ^ 52 - 4096

-- What `ptab_map_level` reads and changes: the range that is left, the entries by their addresses,
-- and how many tables have been allocated.
pub record Walk : Type 0 where
  pub la : ℕ
  pub pa : ℕ
  pub size : ℕ
  pub entries : ℕ → ℕ
  pub tables : ℕ

-- An entry stored.
abbrev pub set_entry : ℕ → ℕ → (ℕ → ℕ) → ℕ → ℕ
set_entry at e entries x = if x == at then e else entries x

-- A page of zeros.
abbrev pub clear_table : ℕ → (ℕ → ℕ) → ℕ → ℕ
clear_table at entries x = if leb at x && ltb x (at + 4096) then 0 else entries x

-- `ptab_alloc` is external to the file: the parameter gives the address of each allocated table,
-- which is filled with zeros.
module _ (cpu : CpuInfo) (ptab_alloc : ℕ → ℕ) (mapping_bits : ℕ) where
  -- The first part of a round: the walk with a leaf in a free entry, if possible.
  abbrev pub map_leaf : ℕ → ℕ → Walk → Walk
  map_leaf level ptabe w =
      let e = bit_or (bit_or (bit_or w.pa 1) mapping_bits) (leaf_bit level) in
      let fits =
        not (is_valid (w.entries ptabe))
        && is_ptab_aligned level w.la
        && is_ptab_aligned level w.pa
        && leb (ptab_size level) w.size in
      record {
        la = w.la;
        pa = w.pa;
        size = w.size;
        entries = if fits then set_entry ptabe e w.entries else w.entries;
        tables = w.tables;
      }

  -- The step behind a leaf.
  abbrev pub after_leaf : ℕ → Walk → Walk
  after_leaf level w = record {
    la = add_word w.la (ptab_size level);
    pa = add_word w.pa (ptab_size level);
    size = w.size - (if leb (ptab_size level) w.size then ptab_size level else w.size);
    entries = w.entries;
    tables = w.tables;
  }

  -- The table of the next level in a free entry.
  abbrev pub map_table : ℕ → Walk → Walk
  map_table ptabe w =
      let table = ptab_alloc w.tables in
      let e = bit_or (bit_or (bit_and table ptab_pfn) 1) mapping_bits in
      record {
        la = w.la;
        pa = w.pa;
        size = w.size;
        entries =
            if is_valid (w.entries ptabe)
            then w.entries
            else set_entry ptabe e (clear_table table w.entries);
        tables = if is_valid (w.entries ptabe) then w.tables else w.tables + 1;
      }

  -- The rest of a round; `below` maps in the next level, whose table is passed in 32 bits.
  abbrev pub descend : (ℕ → Walk → Result Walk) → ℕ → ℕ → Walk → Result Walk
  descend below level ptabe w =
      guard (ltb 0 level) assertion
      >> below (bit_and ((map_table ptabe w).entries ptabe) ptab_pfn % 2 ^ 32) (map_table ptabe w)

  -- The body of the loop of `ptab_map_level`.
  unfoldable pub map_round : (ℕ → Walk → Result Walk) → ℕ → ℕ → Walk → Result Walk
  unfolding allow_leaf is_leaf
  map_round below level ptab w =
      let ptabe = find_ptabe ptab level w.la in
      let tried = if allow_leaf cpu level then map_leaf level ptabe w else w in
      let e = tried.entries ptabe in
      if allow_leaf cpu level && is_valid e && is_leaf level e
      then ok (after_leaf level tried)
      else descend below level ptabe tried

  -- The loop.
  unfoldable pub map_rounds : (ℕ → Walk → Result Walk) → ℕ → ℕ → ℕ → Walk → Result Walk
  map_rounds below zero level ptab w = err out_of_fuel
  map_rounds below (suc fuel) level ptab w = map_round below level ptab w >>= λ w'.
      let rest = map_rounds below fuel level ptab w' in
      if ltb 0 w'.size && not (is_ptab_aligned (level + 1) w'.la) then rest else ok w'

  -- `ptab_map_level`
  unfoldable pub ptab_map_level : ℕ → ℕ → ℕ → Walk → Result Walk
  ptab_map_level fuel zero ptab w = map_rounds (λ p v. err assertion) fuel 0 ptab w
  ptab_map_level fuel (suc level) ptab w =
      map_rounds (ptab_map_level fuel level) fuel (suc level) ptab w

  -- `trunc_page` and `round_page` of paging.h
  abbrev pub trunc_page : ℕ → ℕ
  trunc_page x = x - x % 4096

  abbrev pub round_page : ℕ → ℕ
  round_page x = trunc_page (add_word x 4095)

  -- `ptab_map_range`
  unfoldable pub ptab_map_range : ℕ → ℕ → ℕ → ℕ → ℕ → (ℕ → ℕ) → ℕ → Result Walk
  ptab_map_range fuel pml4 la pa size entries tables =
      guard (ltb 0 size) assertion
      >> (guard (ltb la (sub_word (add_word la size) 1)) assertion
          >> ptab_map_level fuel 3 pml4 (record {
            la = trunc_page la;
            pa = trunc_page pa;
            size = round_page (add_word (sub_word la (trunc_page la)) size);
            entries = entries;
            tables = tables;
          }))
