-- ===== src/BootModules/Split.antt =====
-- The first loop of `move_modules`: which modules go up and which go down.
use native.Mathlib.Nat.{mod-eq_of_lt}
use bootstrap.Prelude.{
  ℕ, ◌+◌, ◌%◌, ◌^◌, ◌≤◌, ◌≡◌, refl, inl, inr, List, [], ◌∷◌, arith, ltb, Bool-cases, length,
  add_word, power_pos,
}
use bootstrap.Align.{Align, IsAlign, round_page}
use bootstrap.BootModules.{ModInfo, Machine, mod_at, split_forward}
use bootstrap.BootModules.Moves.{page, pages, next_multiple}
use bootstrap.BootModules.Chain.{Chain, Moved, total, Upwards}

module _ (a : Align) (al : IsAlign a) (reg : ℕ) where
  -- What the first loop returns: modules that go up to a cursor, and modules that start behind it.
  pub record Split (mods : List ModInfo) (is : List ℕ) (lo hi c : ℕ) (fwd : List ℕ) (cursor : ℕ)
      (bwd : List ℕ) : Type 0 where
    pub mid : ℕ
    pub lower : Chain a mods lo fwd mid
    pub upper : Chain a mods mid bwd hi
    pub up : Upwards a mods c fwd cursor
    pub down : cursor ≤ mid
    pub aligned : cursor % page a ≡ 0
    pub lengths : length fwd + length bwd ≡ length is
    pub totals : total a mods fwd + total a mods bwd ≡ total a mods is
    pub fits : cursor + total a mods bwd + page a ≤ 2 ^ 64
    pub joined :
        (bytes : ℕ → ℕ) (s : Machine)
        → Moved a bytes mods s fwd c
        → Moved a bytes mods s bwd cursor
        → Moved a bytes mods s is c

  Split-cons :
      (mods : List ModInfo) (i : ℕ) (is : List ℕ) (lo hi c cursor : ℕ) (fwd bwd : List ℕ)
      → Chain a mods lo (i ∷ is) hi
      → (mod_at mods i).start ≤ c
      → Split mods is
          ((mod_at mods i).start + pages a (mod_at mods i))
          hi
          (c + pages a (mod_at mods i))
          fwd
          cursor
          bwd
      → Split mods (i ∷ is) lo hi c (i ∷ fwd) cursor bwd
  unfolding Chain Upwards Moved total
  Split-cons mods i is lo hi c cursor fwd bwd (le, z, w, ch) le' sp = record {
    mid = sp.mid;
    lower = (le, z, w, sp.lower);
    upper = sp.upper;
    up = (le', sp.up);
    down = sp.down;
    aligned = sp.aligned;
    lengths = omega (arith, sp.lengths);
    totals = omega (arith, sp.totals);
    fits = sp.fits;
    joined = λ bytes s (here, kept, f) b. (here, kept, sp.joined bytes s f b);
  }

  pub split_forward_lem :
      (mods : List ModInfo) (is : List ℕ) (lo hi c : ℕ)
      → Chain a mods lo is hi
      → c % page a ≡ 0
      → c + total a mods is ≤ hi
      → c + total a mods is + page a ≤ 2 ^ 64
      → Split mods is lo hi c
          (split_forward a reg mods c is).0
          (split_forward a reg mods c is).1
          (split_forward a reg mods c is).2
  unfolding split_forward Chain total Upwards Moved
  split_forward_lem mods [] lo hi c ch m h w = record {
    mid = hi;
    lower = ch;
    upper = omega arith;
    up = refl;
    down = omega (arith, h);
    aligned = m;
    lengths = omega arith;
    totals = omega arith;
    fits = w;
    joined = λ bytes s f b. tt;
  }
  split_forward_lem mods (i ∷ is) lo hi c (le, z, w, ch) m h fits =
      elim (Bool-cases (ltb c (mod_at mods i).start)) [
        | inl lt ↦ rw lt (record {
          mid = (mod_at mods i).start;
          lower = le;
          upper = (omega arith, z, w, ch);
          up = refl;
          down = ground (arith, lt);
          aligned = m;
          lengths = omega arith;
          totals = omega arith;
          fits = fits;
          joined = λ bytes s f b. b;
        })
        | inr ge ↦
            rw (ge, cursor)
              (Split-cons mods i is lo hi c _ _ _ (le, z, w, ch) (ground (arith, ge))
                (split_forward_lem mods is ((mod_at mods i).start + pages a (mod_at mods i)) hi
                  (c + pages a (mod_at mods i)) ch (next_multiple a al c (mod_at mods i).size m w)
                  (omega (arith, h)) (omega (arith, fits))))
      ]
    where
      cursor : add_word c (round_page a (mod_at mods i).size) ≡ c + pages a (mod_at mods i)
      cursor = mod-eq_of_lt (omega (arith, fits, power_pos a.page_shift))
