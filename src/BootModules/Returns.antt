-- ===== src/BootModules/Returns.antt =====
-- When the loops of `move_modules` return: the modules fit into RAM that is free.
use native.Mathlib.Nat.{mod-eq_of_lt}
use bootstrap.Prelude.{
  ℕ, ◌+◌, ◌≤◌, ◌<◌, ◌^◌, ◌%◌, ◌≡◌, refl, ap, inl, inr, ◌∙◌, true, List, [], ◌∷◌, ok, arith, length,
  power_pos, add_word, sub_word, add_word,
}
use bootstrap.Align.{Align, IsAlign, round_page}
use bootstrap.RegionList.Order.{covered}
use bootstrap.BootModules.{ModInfo, Machine, mod_at, move_module, move_forwards, move_backwards}
use bootstrap.BootModules.Moves.{Move, page, pages, Agree_of_Move, move_module-Move, next_multiple}
use bootstrap.BootModules.Chain.{Chain, Agree, Upwards, Upwards-le, Chain-Agree, total, total-Agree}
use bootstrap.BootModules.Forwards.{forwards_lem, cursor_back}
use bootstrap.BootModules.Room.{HasRoom}
use bootstrap.BootModules.MoveReturns.{Free, Kept, HasRoom-less, one_move}

module _ (a : Align) (reg : ℕ) where
  forwards_then :
      (is : List ℕ) (i addr c : ℕ) (s s' : Machine) (at : ℕ × Machine)
      → move_forwards a reg is addr s ≡ ok at
      → sub_word at.0 (round_page a (mod_at at.1.mods i).size) ≡ c
      → move_module a reg at.1 i c ≡ ok s'
      → move_forwards a reg (i ∷ is) addr s ≡ ok (c, s')
  unfolding move_forwards
  forwards_then is i addr c s s' at p dest q = rw (p, dest, q) refl

  module _ (al : IsAlign a) where
    -- For modules in order, which all go up, on room for them and pages that are free and in RAM,
    -- the second loop returns.
    pub forwards_returns :
        (is : List ℕ) (lo hi c addr n left : ℕ) (s : Machine)
        → Chain a s.mods lo is hi
        → Upwards a s.mods c is addr
        → c % page a ≡ 0
        → addr + page a ≤ 2 ^ 64
        → HasRoom s.list (length is + n) (total a s.mods is + left)
        → ((x : ℕ) → c ≤ x → x < addr → covered s.ram x ≡ true)
        → Free a reg s.list c addr
        → (at : ℕ × Machine) × (move_forwards a reg is addr s ≡ ok at)
          × Kept a reg s at.1 c addr n left
    unfolding move_forwards Chain Upwards total
    forwards_returns [] lo hi c addr n left s ch up m fits h present free = (
      (addr, s),
      refl,
      record {
        ram = refl;
        room = HasRoom-less a reg s.list _ n _ left (omega arith) (omega arith) h;
        outside = λ x out. refl;
      },
    )
    forwards_returns (i ∷ is) lo hi c addr n left s (le, z, w, ch) (up, ups) m fits h present free =
        let (at1, p, k1) =
          forwards_returns is top hi (c + pages a here) addr (n + 1) (pages a here + left) s ch ups
            next fits (HasRoom-less a reg s.list _ _ _ _ (omega arith) (omega arith) h)
            (λ x ge lt. present x (omega (arith, ge)) lt)
            (λ x ge lt. free x (omega (arith, ge)) lt) in
        let (cursor, f) =
          forwards_lem a al reg is top hi (c + pages a here) addr s at1 ch ups next fits p in
        let same : mod_at at1.1.mods i ≡ here = f.others i (inl (omega (arith, z, room))) in
        let dest : sub_word at1.0 (round_page a (mod_at at1.1.mods i).size) ≡ c =
          cursor_back a al reg s at1 i c same cursor (omega (arith, end, fits)) in
        let (s2, q, k2) =
          one_move a reg al at1.1 here i c n left same k1.room
            (ap (λ r. covered r c) k1.ram ∙ present c (omega arith) (omega (arith, end, z, room))) z
            w (omega (arith, end, fits))
            (λ x ge lt. k1.outside x (inl lt) ∙ free x ge (omega (arith, lt, end))) in
        (
          (c, s2),
          forwards_then is i addr c s s2 at1 p dest q,
          record {
            ram = k2.ram ∙ k1.ram;
            room = k2.room;
            outside = λ x out.
                k2.outside x (ground (arith, out, end, z, room))
                ∙ k1.outside x (ground (arith, out));
          },
        )
      where
        here : ModInfo
        here = mod_at s.mods i

        top : ℕ
        top = here.start + pages a here

        room : here.size ≤ pages a here
        room = al.le_round here.size a.page_shift w

        next : (c + pages a here) % page a ≡ 0
        next = next_multiple a al c here.size m w

        end : addr ≡ c + pages a here + total a s.mods is
        end = Upwards-le a s.mods is (c + pages a here) addr ups

    backwards_then :
        (is : List ℕ) (i c : ℕ) (s s1 s' : Machine)
        → c + pages a (mod_at s.mods i) < 2 ^ 64
        → move_module a reg s i c ≡ ok s1
        → move_backwards a reg is (c + pages a (mod_at s.mods i)) s1 ≡ ok s'
        → move_backwards a reg (i ∷ is) c s ≡ ok s'
    unfolding move_backwards
    backwards_then is i c s s1 s' fits p q =
        let sum : add_word c (pages a (mod_at s.mods i)) ≡ c + pages a (mod_at s.mods i) =
          mod-eq_of_lt fits in
        rw (p, sum) q

    -- The same of the third loop and modules that all go down.
    pub backwards_returns :
        (is : List ℕ) (lo hi c n left : ℕ) (s : Machine)
        → Chain a s.mods lo is hi
        → c ≤ lo
        → c % page a ≡ 0
        → c + total a s.mods is + page a ≤ 2 ^ 64
        → HasRoom s.list (length is + n) (total a s.mods is + left)
        → ((x : ℕ) → c ≤ x → x < c + total a s.mods is → covered s.ram x ≡ true)
        → Free a reg s.list c (c + total a s.mods is)
        → (s' : Machine) × (move_backwards a reg is c s ≡ ok s')
          × Kept a reg s s' c (c + total a s.mods is) n left
    unfolding move_backwards Chain total Agree
    backwards_returns [] lo hi c n left s ch low m fits h present free = (
      s,
      refl,
      record {
        ram = refl;
        room = HasRoom-less a reg s.list _ n _ left (omega arith) (omega arith) h;
        outside = λ x out. refl;
      },
    )
    backwards_returns (i ∷ is) lo hi c n left s (le, z, w, ch) low m fits h present free =
        let (s1, p, k1) =
          one_move a reg al s here i c (length is + n) (total a s.mods is + left) refl
            (HasRoom-less a reg s.list _ _ _ _ (omega arith) (omega arith) h)
            (present c (omega arith) (omega (arith, z, room))) z w (omega (arith, fits))
            (λ x ge lt. free x ge (omega (arith, lt))) in
        let mv : Move a al s i c s1 =
          move_module-Move a al reg i c s s1 m (omega (arith, fits)) w p in
        let agree : Agree a s.mods s1.mods top =
          λ j ge. Agree_of_Move a al s s1 i c j mv (omega (arith, ge, z, room)) in
        let same : total a s1.mods is ≡ total a s.mods is =
          total-Agree a s.mods s1.mods is top hi ch agree in
        let (s2, q, k2) =
          backwards_returns is top hi (c + pages a here) n left s1
            (Chain-Agree a s.mods s1.mods is top hi ch agree) (omega (arith, low, le))
            (next_multiple a al c here.size m w) (omega (arith, fits, same))
            (HasRoom-less a reg s1.list _ _ _ _ (omega arith) (omega (arith, same)) k1.room)
            (λ x ge lt.
              ap (λ r. covered r x) k1.ram
              ∙ present x (omega (arith, ge)) (omega (arith, lt, same)))
            (λ x ge lt.
              k1.outside x (inr ge) ∙ free x (omega (arith, ge)) (omega (arith, lt, same))) in
        (
          s2,
          backwards_then is i c s s1 s2 (omega (arith, fits, power_pos a.page_shift)) p q,
          record {
            ram = k2.ram ∙ k1.ram;
            room = k2.room;
            outside = λ x out.
                k2.outside x (ground (arith, out, same)) ∙ k1.outside x (ground (arith, out));
          },
        )
      where
        here : ModInfo
        here = mod_at s.mods i

        top : ℕ
        top = here.start + pages a here

        room : here.size ≤ pages a here
        room = al.le_round here.size a.page_shift w
