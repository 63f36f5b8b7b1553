-- ===== src/BootModules/Forwards.antt =====
-- The second loop of `move_modules` moves every module and overwrites none before it is moved.

use bootstrap.Prelude.{
  ℕ, ◌+◌, ◌%◌, ◌^◌, ◌≤◌, ◌<◌, ◌≡◌, ◌≢◌, ◌⊎◌, sym, ap, ◌∙◌, inl, inr, List, [], ◌∷◌, ok, arith,
  >>=-eq-ok, ok-injective, ◌>>=◌, sub_word, power_pos,
}
use bootstrap.Align.{Align, IsAlign, round_page}
use bootstrap.BootModules.{ModInfo, Machine, mod_at, move_module, move_forwards}
use bootstrap.BootModules.Moves.{
  Move, page, pages, placed_at, moves_one, move_module-Move, next_multiple,
}
use bootstrap.BootModules.Chain.{
  Chain, Agree, Moved, total, Upwards, Upwards-le, Chain-le, Moved_later,
}

module _ (a : Align) (al : IsAlign a) (reg : ℕ) where
  -- What the second loop does to modules between `lo` and `hi`, from `addr` down to `c`.
  pub record Forwards (s : Machine) (is : List ℕ) (lo hi c addr : ℕ) (s' : Machine) : Type 0 where
    pub moved : Moved a s.bytes s.mods s' is c
    pub below : (x : ℕ) → x < c → s'.bytes x ≡ s.bytes x
    pub behind : (x : ℕ) → addr ≤ x → s'.bytes x ≡ s.bytes x
    pub others :
        (j : ℕ)
        → ((mod_at s.mods j).start < lo) ⊎ (hi ≤ (mod_at s.mods j).start)
        → mod_at s'.mods j ≡ mod_at s.mods j

  Forwards-step :
      (s s1 s' : Machine) (i : ℕ) (is : List ℕ) (lo hi c addr : ℕ)
      → Chain a s.mods lo (i ∷ is) hi
      → Upwards a s.mods c (i ∷ is) addr
      → Forwards s is
          ((mod_at s.mods i).start + pages a (mod_at s.mods i))
          hi
          (c + pages a (mod_at s.mods i))
          addr
          s1
      → mod_at s1.mods i ≡ mod_at s.mods i
      → Move a al s1 i c s'
      → Forwards s (i ∷ is) lo hi c addr s'
  unfolding Chain Moved Agree Upwards
  Forwards-step s s1 s' i is lo hi c addr (le, z, w, ch) (up, ups) f same mv = record {
    moved = (
      placed_at a al s1 s' i c mv (omega (arith, z, sizes)) ∙ ap at_c same,
      λ k lt.
          mv.kept k (omega (arith, lt, sizes))
          ∙ ap (λ n. s1.bytes (n.start + k)) same
          ∙ f.below (m.start + k) (omega (arith, up, lt, room)),
      Moved_later a al s.bytes s.mods s1 s' is top hi (c + pages a m)
          (c + pages a m + total a s.mods is) ch (omega arith)
          (λ j h. moves_one a al s1 s' i c j mv (apart j (omega (arith, h, z, room))))
          (λ x h lt. mv.behind x (omega (arith, h, paged))) f.moved,
    );
    below = λ x lt. mv.below x lt ∙ f.below x (omega (arith, lt));
    behind = λ x h. mv.behind x (omega (arith, h, paged, end)) ∙ f.behind x h;
    others = λ j away.
        moves_one a al s1 s' i c j mv
          (apart j (ground (arith, away, le, z, room, Chain-le a s.mods is top hi ch)))
        ∙ f.others j (wider j away);
  }
    where
      m : ModInfo
      m = mod_at s.mods i

      top : ℕ
      top = m.start + pages a m

      at_c : ModInfo → ModInfo
      at_c n = record n { start = c }

      room : m.size ≤ pages a m
      room = al.le_round m.size a.page_shift w

      sizes : (mod_at s1.mods i).size ≡ m.size
      sizes = ap (λ n. n.size) same

      paged : pages a (mod_at s1.mods i) ≡ pages a m
      paged = ap (λ n. pages a n) same

      end : addr ≡ c + pages a m + total a s.mods is
      end = Upwards-le a s.mods is (c + pages a m) addr ups

      apart : (j : ℕ) → (mod_at s.mods j).start ≢ m.start → j ≢ i
      apart j ne e = ne (ap (λ k. (mod_at s.mods k).start) e)

      wider :
          (j : ℕ)
          → ((mod_at s.mods j).start < lo) ⊎ (hi ≤ (mod_at s.mods j).start)
          → ((mod_at s.mods j).start < top) ⊎ (hi ≤ (mod_at s.mods j).start)
      wider j (inl lt) = inl (omega (arith, lt, le))
      wider j (inr h) = inr h

  -- The cursor in front of a module that it has not reached yet.
  pub cursor_back :
      (s : Machine) (at : ℕ × Machine) (i c : ℕ)
      → mod_at at.1.mods i ≡ mod_at s.mods i
      → at.0 ≡ c + pages a (mod_at s.mods i)
      → c + pages a (mod_at s.mods i) + page a ≤ 2 ^ 64
      → sub_word at.0 (round_page a (mod_at at.1.mods i).size) ≡ c
  cursor_back s at i c same cursor fits =
      omega (arith, ap (λ n. pages a n) same, cursor, fits, power_pos a.page_shift)

  Forwards-last :
      (i : ℕ) (is : List ℕ) (lo hi c addr : ℕ) (s : Machine) (at1 at : ℕ × Machine)
      → Chain a s.mods lo (i ∷ is) hi
      → Upwards a s.mods c (i ∷ is) addr
      → c % page a ≡ 0
      → addr + page a ≤ 2 ^ 64
      → at1.0 ≡ c + pages a (mod_at s.mods i)
      → Forwards s is
          ((mod_at s.mods i).start + pages a (mod_at s.mods i))
          hi
          (c + pages a (mod_at s.mods i))
          addr
          at1.1
      → (move_module a reg at1.1 i (sub_word at1.0 (round_page a (mod_at at1.1.mods i).size))
          >>= λ s'. ok (sub_word at1.0 (round_page a (mod_at at1.1.mods i).size), s'))
        ≡ ok at
      → (at.0 ≡ c) × Forwards s (i ∷ is) lo hi c addr at.1
  unfolding Chain Upwards
  Forwards-last i is lo hi c addr s at1 at (le, z, w, ch) (up, ups) m fits cursor f e =
      let (s2, p, q) =
        >>=-eq-ok
          (move_module a reg at1.1 i (sub_word at1.0 (round_page a (mod_at at1.1.mods i).size))) _
          e in
      let moves : move_module a reg at1.1 i c ≡ ok s2 =
        ap (λ d. move_module a reg at1.1 i d) (sym dest) ∙ p in
      let mv : Move a al at1.1 i c s2 =
        move_module-Move a al reg i c at1.1 s2 m
          (omega (arith, ap (λ n. pages a n) same, end, fits))
          (omega (arith, ap (λ n. n.size) same, w)) moves in
      let left : at ≡ (sub_word at1.0 (round_page a (mod_at at1.1.mods i).size), s2) =
        ok-injective q in
      (
        ap (λ t. t.0) left ∙ dest,
        rw left (Forwards-step s at1.1 s2 i is lo hi c addr (le, z, w, ch) (up, ups) f same mv),
      )
    where
      same : mod_at at1.1.mods i ≡ mod_at s.mods i
      same = f.others i (inl (omega (arith, z, al.le_round (mod_at s.mods i).size a.page_shift w)))

      end : addr ≡ c + pages a (mod_at s.mods i) + total a s.mods is
      end = Upwards-le a s.mods is (c + pages a (mod_at s.mods i)) addr ups

      dest : sub_word at1.0 (round_page a (mod_at at1.1.mods i).size) ≡ c
      dest = cursor_back s at1 i c same cursor (omega (arith, end, fits))

  pub forwards_lem :
      (is : List ℕ) (lo hi c addr : ℕ) (s : Machine) (at : ℕ × Machine)
      → Chain a s.mods lo is hi
      → Upwards a s.mods c is addr
      → c % page a ≡ 0
      → addr + page a ≤ 2 ^ 64
      → move_forwards a reg is addr s ≡ ok at
      → (at.0 ≡ c) × Forwards s is lo hi c addr at.1
  unfolding move_forwards Chain Upwards Moved
  forwards_lem [] lo hi c addr s at ch up m fits e = (
    ap (λ t. t.0) left ∙ sym up,
    record {
      moved = tt;
      below = λ x lt. ap (λ t. t.1.bytes x) left;
      behind = λ x h. ap (λ t. t.1.bytes x) left;
      others = λ j away. ap (λ t. mod_at t.1.mods j) left;
    },
  )
    where
      left : at ≡ (addr, s)
      left = ok-injective e
  forwards_lem (i ∷ is) lo hi c addr s at (le, z, w, ch) (up, ups) m fits e =
      let (at1, p, q) = >>=-eq-ok (move_forwards a reg is addr s) _ e in
      let (cursor, f) =
        forwards_lem is ((mod_at s.mods i).start + pages a (mod_at s.mods i)) hi
          (c + pages a (mod_at s.mods i)) addr s at1 ch ups
          (next_multiple a al c (mod_at s.mods i).size m w) fits p in
      Forwards-last i is lo hi c addr s at1 at (le, z, w, ch) (up, ups) m fits cursor f q
