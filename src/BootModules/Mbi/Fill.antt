-- ===== src/BootModules/Mbi/Fill.antt =====
-- `construct_mbi` fills the information.
use bootstrap.Prelude.{ℕ, ◌+◌, ◌*◌, ◌^◌, ◌<◌, ◌≡◌, true, false, List, length, arith}
use bootstrap.BootModules.{ModInfo}
use bootstrap.BootModules.Mbi.{
  MbiLayout, MbiStores, InternalModule, Filling, fill_run, mbi_size, start_of, fill_mbi,
}
use bootstrap.BootModules.Mbi.Loops.{
  total, AllShort, internal_texts, run_texts, fill_run-strs, fill_internal-strs, texts_size-total,
  internal_size-total,
}

module _ (c : MbiLayout) (cmdline : ℕ → List ℕ) (mods : List ModInfo)
    (internal : List InternalModule) where
  -- Where the texts begin, for the address of the information.
  abbrev pub texts_at : ℕ → ℕ
  texts_at mbi = mbi + c.info_size + c.mod_size * (length mods + length internal)

  -- The bytes of all texts.
  abbrev pub all_texts : ℕ
  all_texts =
      total (run_texts c true cmdline mods 0)
      + total (run_texts c false cmdline mods 0)
      + total (internal_texts c internal)

  -- All texts are short, and the information fits in front of the end of the address space.
  pub record Fits (mbi : ℕ) : Type 0 where
    pub base : AllShort (run_texts c true cmdline mods 0)
    pub other : AllShort (run_texts c false cmdline mods 0)
    pub internals : AllShort (internal_texts c internal)
    pub room : texts_at mbi + all_texts < 2 ^ 64

  mbi_size-total :
      (mbi : ℕ) → Fits mbi → mbi_size c cmdline mods internal + mbi ≡ texts_at mbi + all_texts
  unfolding mbi_size
  mbi_size-total mbi f = omega (
    arith,
    f.room,
    texts_size-total c cmdline mods 0 f.base f.other (omega (arith, f.room)),
    internal_size-total c internal f.internals (omega (arith, f.room)),
  )

  -- The cursor for the command lines begins behind the entries of all modules, the internal ones
  -- included, and ends exactly at the end of the information: the size that `construct_mbi`
  -- allocates is the one that filling takes up. The information fits in front of the end of the
  -- address space, and the command lines are shorter than 4 GiB; the stores may be any.
  pub fill_mbi-strs :
      (st : MbiStores) (mbi : ℕ) (bytes : ℕ → ℕ)
      → Fits mbi
      → ((fill_mbi c st cmdline mods internal mbi bytes).strs
          ≡ mbi + mbi_size c cmdline mods internal)
        × (texts_at mbi + all_texts ≡ mbi + mbi_size c cmdline mods internal)
  unfolding fill_mbi
  fill_mbi-strs st mbi bytes f =
      let size = mbi_size-total mbi f in
      (
        omega (
          arith,
          f.room,
          size,
          fill_internal-strs c st mbi internal
              (fill_run c st mbi false cmdline mods 0 (fill_run c st mbi true cmdline mods 0 start))
              f.internals (omega (arith, f.room, other, base)),
          other,
          base,
        ),
        omega (arith, size),
      )
    where
      start : Filling
      start = start_of c st cmdline mods internal mbi bytes

      base :
          (fill_run c st mbi true cmdline mods 0 start).strs
          ≡ texts_at mbi + total (run_texts c true cmdline mods 0)
      base = omega (
        arith,
        f.room,
        fill_run-strs c st mbi true cmdline mods 0 start f.base (omega (arith, f.room)),
      )

      other :
          (fill_run c st mbi false cmdline mods 0
            (fill_run c st mbi true cmdline mods 0 start)).strs
          ≡ texts_at mbi
            + total (run_texts c true cmdline mods 0)
            + total (run_texts c false cmdline mods 0)
      other = omega (
        arith,
        f.room,
        base,
        fill_run-strs c st mbi false cmdline mods 0 (fill_run c st mbi true cmdline mods 0 start)
            f.other (omega (arith, f.room, base)),
      )
