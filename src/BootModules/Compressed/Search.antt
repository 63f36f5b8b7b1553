-- ===== src/BootModules/Compressed/Search.antt =====
-- The places that the search of `decompress_mods` finds.
use bootstrap.Prelude.{
  ℕ, ◌+◌, ◌^◌, ◌≤◌, ◌≡◌, ◌⊎◌, inl, inr, sym, true, false, List, [], ◌∷◌, arith, if◌then◌else◌,
  Bool-cases, add_word, sub_word, power_pos,
}
use mathlib.Core.Path.{subst}
use bootstrap.Align.{Align, IsAlign, round_page}
use bootstrap.BootModules.{ModInfo}
use bootstrap.BootModules.Mbi.{MbiLayout, is_base_module}
use bootstrap.BootModules.Compressed.{Unpacker, Places, place_module, place_modules}
use bootstrap.BootModules.Compressed.Unpack.{first_places}
use bootstrap.BootModules.Compressed.Round.{pages, Fits, At, Stepped, round-Stepped}

module _ (a : Align) (al : IsAlign a) (mod_reg : ℕ) (u : Unpacker) (c : MbiLayout) where
  unfoldable pub all_pages : List ModInfo → ℕ
  all_pages [] = 0
  all_pages (m ∷ ms) =
      if is_base_module c m then all_pages ms else pages a al mod_reg u c m + all_pages ms

  abbrev pub AllFit : ℕ → List ModInfo → Type 0
  AllFit limit [] = Unit
  AllFit limit (m ∷ ms) = Fits a al mod_reg u c limit m × AllFit limit ms

  -- Behind so many bytes of unpacked modules, each module that is unpacked from the right place on
  -- begins behind its compressed bytes, and each that is unpacked from the left place on ends in
  -- front of them.
  abbrev pub RightOf : ℕ → ℕ → List ModInfo → Type 0
  RightOf at offset [] = Unit
  RightOf at offset (m ∷ ms) =
      if is_base_module c m
      then RightOf at offset ms
      else (m.start + m.size ≤ at + offset) × RightOf at (offset + pages a al mod_reg u c m) ms

  abbrev pub LeftOf : ℕ → ℕ → List ModInfo → Type 0
  LeftOf at offset [] = Unit
  LeftOf at offset (m ∷ ms) =
      if is_base_module c m
      then LeftOf at offset ms
      else (at + (offset + m.size_uncompressed) ≤ m.start)
        × LeftOf at (offset + pages a al mod_reg u c m) ms

  -- What the search finds: places of both kinds, of which the left one may be none.
  pub record Clear (offset : ℕ) (ms : List ModInfo) (p q : Places) : Type 0 where
    pub up : p.rdest ≤ q.rdest
    pub down : q.ldest ≤ p.ldest
    pub right : RightOf q.rdest offset ms
    pub left : (q.ldest ≡ 0) ⊎ LeftOf q.ldest offset ms

  Clear-skip :
      (offset : ℕ) (m : ModInfo) (ms : List ModInfo) (p q : Places)
      → is_base_module c m ≡ true
      → Clear offset ms p q
      → Clear offset (m ∷ ms) p q
  Clear-skip offset m ms p q e k = record {
    up = k.up;
    down = k.down;
    right = rw (e) k.right;
    left = rw (e) k.left;
  }

  Clear-step :
      (limit offset : ℕ) (m : ModInfo) (ms : List ModInfo) (p q r : Places)
      → is_base_module c m ≡ false
      → Stepped a al mod_reg u c limit offset m p q
      → Clear (offset + pages a al mod_reg u c m) ms q r
      → Clear offset (m ∷ ms) p r
  Clear-step limit offset m ms p q r e s k = record {
    up = omega (arith, s.up, k.up);
    down = omega (arith, s.down, k.down);
    right = rw (e) (omega (arith, s.behind, k.up), k.right);
    left = rw (e) (front s.front k.left);
  }
    where
      front :
          (q.ldest ≡ 0) ⊎ (q.ldest + (offset + m.size_uncompressed) ≤ m.start)
          → (r.ldest ≡ 0) ⊎ LeftOf r.ldest (offset + pages a al mod_reg u c m) ms
          → (r.ldest ≡ 0)
            ⊎ ((r.ldest + (offset + m.size_uncompressed) ≤ m.start)
                × LeftOf r.ldest (offset + pages a al mod_reg u c m) ms)
      front (inl n) l = inl (omega (arith, n, k.down))
      front (inr b) (inl n) = inl n
      front (inr b) (inr l) = inr (omega (arith, b, k.down), l)

  pub place_modules-Clear :
      (limit : ℕ) (ms : List ModInfo) (offset : ℕ) (p : Places)
      → AllFit limit ms
      → limit + (offset + all_pages ms) + 2 ^ a.page_shift ≤ 2 ^ 64
      → At a al mod_reg u c limit offset p
      → Clear offset ms p (place_modules a mod_reg u c ms p)
  unfolding place_modules all_pages
  place_modules-Clear limit [] offset p f =
      λ h x. record { up = omega arith; down = omega arith; right = tt; left = inr tt }
  place_modules-Clear limit (m ∷ ms) offset p f = elim (Bool-cases (is_base_module c m)) [
    | inl e ↦ rw (e) (λ h x.
        Clear-skip offset m ms p (place_modules a mod_reg u c ms p) e
          (place_modules-Clear limit ms offset p f.1 h x))
    | inr e ↦ rw (e) (λ h x.
        let q = place_module a mod_reg u c m p in
        let s = round-Stepped a al mod_reg u c limit offset m f.0 (omega (arith, h)) p x in
        Clear-step limit offset m ms p q (place_modules a mod_reg u c ms q) e s (
          place_modules-Clear limit ms (offset + pages a al mod_reg u c m) q f.1 (omega (arith, h))
            s.at))
  ]

  -- The places at which `decompress_mods` may unpack: from the right one on, each module but the
  -- base modules begins behind its compressed bytes, and from the left one on, if there is one, each
  -- ends in front of them; the modules follow each other in their order, each in whole pages. All
  -- modules can be rounded to pages, and the unpacked ones fit behind each of these places in front
  -- of the end of the address space.
  pub first_places-Clear :
      (limit : ℕ) (ms : List ModInfo) (m0 : ModInfo)
      → AllFit limit ms
      → Fits a al mod_reg u c limit m0
      → m0.size_uncompressed ≤ m0.start
      → limit + all_pages ms + 2 ^ a.page_shift ≤ 2 ^ 64
      → Clear 0 ms
          (first_places a mod_reg u c m0)
          (place_modules a mod_reg u c ms (first_places a mod_reg u c m0))
  first_places-Clear limit ms m0 f g s h =
      place_modules-Clear limit ms 0 (first_places a mod_reg u c m0) f (omega (arith, h)) (record {
        right = omega arith;
        left = inr (omega arith);
        right_le =
            let same : add_word m0.start m0.size ≡ m0.start + m0.size =
              omega (arith, g.end, power_pos a.page_shift) in
            subst (λ e. round_page a e ≤ limit) (sym same) g.rounded;
        left_le = omega (
          arith,
          al.trunc_le (sub_word m0.start m0.size_uncompressed) a.page_shift,
          al.le_round (m0.start + m0.size) a.page_shift g.end,
          s,
          g.end,
          g.rounded,
        );
      })
