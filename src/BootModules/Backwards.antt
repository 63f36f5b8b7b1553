-- ===== src/BootModules/Backwards.antt =====
-- The third loop of `move_modules` moves every module and overwrites none before it is moved.
use native.Mathlib.Nat.{mod-eq_of_lt}
use bootstrap.Prelude.{
  ℕ, ◌+◌, ◌%◌, ◌^◌, ◌≤◌, ◌<◌, ◌≡◌, sym, ap, ◌∙◌, List, [], ◌∷◌, ok, arith, >>=-eq-ok, power_pos,
}
use bootstrap.Align.{Align, IsAlign}
use bootstrap.BootModules.{ModInfo, Machine, mod_at, move_module, move_backwards}
use bootstrap.BootModules.Moves.{
  Move, page, pages, Agree_of_Move, placed_at, move_module-Move, next_multiple,
}
use bootstrap.BootModules.Chain.{
  Chain, Agree, Moved, total, Chain-Agree, total-Agree, Moved_earlier,
}

module _ (a : Align) (al : IsAlign a) (reg : ℕ) where
  -- What the third loop does to modules between `lo` and `hi`.
  pub record Backwards (s : Machine) (is : List ℕ) (lo c : ℕ) (s' : Machine) : Type 0 where
    pub moved : Moved a s.bytes s.mods s' is c
    pub below : (x : ℕ) → x < c → s'.bytes x ≡ s.bytes x
    pub others : (j : ℕ) → (mod_at s.mods j).start < lo → mod_at s'.mods j ≡ mod_at s.mods j

  Backwards-step :
      (s s1 s' : Machine) (i : ℕ) (is : List ℕ) (lo hi c : ℕ)
      → Chain a s.mods lo (i ∷ is) hi
      → c ≤ lo
      → Move a al s i c s1
      → (Agree a s.mods s1.mods ((mod_at s.mods i).start + pages a (mod_at s.mods i))
          → Chain a s1.mods ((mod_at s.mods i).start + pages a (mod_at s.mods i)) is hi
          → Backwards s1 is
              ((mod_at s.mods i).start + pages a (mod_at s.mods i))
              (c + pages a (mod_at s.mods i))
              s')
      → Backwards s (i ∷ is) lo c s'
  unfolding Chain Moved Agree
  Backwards-step s s1 s' i is lo hi c (le, z, w, ch) low mv later = record {
    moved = (
      rest.others i
            (omega (arith, ap (λ n. n.start) (placed_at a al s s1 i c mv z), low, le, z, room))
          ∙ placed_at a al s s1 i c mv z,
      λ k lt. rest.below (c + k) (omega (arith, lt, room)) ∙ mv.kept k lt,
      Moved_earlier a s.bytes s1.bytes s.mods s1.mods s' is top hi (c + pages a m) ch agree
          (λ x h. mv.behind x (omega (arith, h, le, low))) rest.moved,
    );
    below = λ x lt. rest.below x (omega (arith, lt)) ∙ mv.below x lt;
    others =
        λ j lt. rest.others j (omega (arith, ap (λ n. n.start) (stays j lt), lt, le)) ∙ stays j lt;
  }
    where
      m : ModInfo
      m = mod_at s.mods i

      top : ℕ
      top = m.start + pages a m

      stays : (j : ℕ) → (mod_at s.mods j).start < lo → mod_at s1.mods j ≡ mod_at s.mods j
      stays j lt = Agree_of_Move a al s s1 i c j mv (omega (arith, lt, le))

      room : m.size ≤ pages a m
      room = al.le_round m.size a.page_shift w

      agree : Agree a s.mods s1.mods top
      agree j h = Agree_of_Move a al s s1 i c j mv (omega (arith, h, z, room))

      rest : Backwards s1 is top (c + pages a m) s'
      rest = later agree (Chain-Agree a s.mods s1.mods is top hi ch agree)

  pub backwards_lem :
      (is : List ℕ) (lo hi c : ℕ) (s s' : Machine)
      → Chain a s.mods lo is hi
      → c ≤ lo
      → c % page a ≡ 0
      → c + total a s.mods is + page a ≤ 2 ^ 64
      → move_backwards a reg is c s ≡ ok s'
      → Backwards s is lo c s'
  unfolding move_backwards Chain total Moved
  backwards_lem [] lo hi c s s' ch low m fits e = record {
    moved = tt;
    below = λ x lt. ap (λ t. t.bytes x) left;
    others = λ j lt. ap (λ t. mod_at t.mods j) left;
  }
    where
      left : s' ≡ s
      left = cc
  backwards_lem (i ∷ is) lo hi c s s' (le, z, w, ch) low m fits e =
      let (s1, p, q) = >>=-eq-ok (move_module a reg s i c) _ e in
      let mv : Move a al s i c s1 =
        move_module-Move a al reg i c s s1 m (omega (arith, fits)) w p in
      Backwards-step s s1 s' i is lo hi c (le, z, w, ch) low mv
        (λ ag ch'.
          backwards_lem is ((mod_at s.mods i).start + pages a (mod_at s.mods i)) hi
            (c + pages a (mod_at s.mods i)) s1 s' ch' (omega (arith, low, le))
            (next_multiple a al c (mod_at s.mods i).size m w)
            (omega (arith, fits, total-Agree a s.mods s1.mods is _ hi ch ag))
            (ap (λ d. move_backwards a reg is d s1)
                (sym (mod-eq_of_lt (omega (arith, fits, power_pos a.page_shift))))
              ∙ q))
