-- ===== src/BootModules/MoveReturns.antt =====
-- When `move_module` returns: the module fits into RAM that is free.

use bootstrap.Prelude.{
  ℕ, ◌+◌, ◌≤◌, ◌<◌, ◌^◌, ◌≡◌, refl, ap, ◌⊎◌, inl, inr, ◌∙◌, none, some, true, false, List, [], ◌∷◌,
  ok, arith, ◌==◌, Bool-cases, power_pos,
}
use bootstrap.Align.{Align, IsAlign, round_page}
use bootstrap.Region.{Region, root, point, contains}
use bootstrap.RegionList.{RegionList, find, find_container}
use bootstrap.RegionList.Order.{AllRanges-Above, covered, find-none_iff}
use bootstrap.BootModules.{ModInfo, Machine, mod_at, moved, set_start, move_module_to, move_module}
use bootstrap.BootModules.Moves.{page, pages}
use bootstrap.BootModules.Room.{HasRoom, Added, place_room}

-- A covered byte has a region that contains it.
container_of_covered :
    (rs : List Region) (x : ℕ)
    → covered rs x ≡ true
    → (r : Region) × (find_container rs (point x) ≡ some r)
unfolding find_container point
container_of_covered [] x e = cc
container_of_covered (c ∷ rs) x e = elim (Bool-cases (contains c (point x))) [
  | inl t ↦ (c, rw t refl)
  | inr t ↦ rw (t, find_container) (container_of_covered rs x (ground (arith, e, t)))
]

find-point :
    (l : RegionList) (dest bytes n left : ℕ)
    → HasRoom l n left
    → covered l.regs dest ≡ false
    → find l.regs (point dest) ≡ none
unfolding point
find-point l dest bytes n left h free =
    (find-none_iff l.regs (point dest) (AllRanges-Above 0 l.regs h.sorted) (omega arith)).1
      (λ x hx. let at : x ≡ dest = ground (arith, hx) in ap (λ y. covered l.regs y) at ∙ free)

module _ (a : Align) (reg : ℕ) where
  -- No byte between two addresses is covered.
  abbrev pub Free : RegionList → ℕ → ℕ → Type 0
  Free l lo hi = (x : ℕ) → lo ≤ x → x < hi → covered l.regs x ≡ false

  move_module_to_returns :
      (s : Machine) (dest src bytes n left : ℕ)
      → HasRoom s.list (n + 1) (bytes + left)
      → covered s.ram dest ≡ true
      → 0 < bytes
      → dest + bytes < 2 ^ 64
      → Free s.list dest (dest + bytes)
      → (s' : Machine) × (move_module_to a reg s dest src bytes reg root 0 ≡ ok s')
        × (s'.ram ≡ s.ram)
        × Added s.list s'.list dest bytes n left
  unfolding move_module_to
  move_module_to_returns s dest src bytes n left h present z w free =
      let (l', placed, added) = place_room a s.list dest bytes reg root 0 n left h w z free in
      let (r, container) = container_of_covered s.ram dest present in
      elim (Bool-cases (src == dest)) [
        | inl here ↦ (record s { list = l' }, rw (here, placed) refl, refl, added)
        | inr away ↦ (
          record s {
            bytes = moved s.bytes dest src bytes (round_page a (dest + bytes));
            list = l';
          },
          rw
              (
                away,
                container,
                find-point s.list dest bytes (n + 1) (bytes + left) h
                    (free dest (omega arith) (omega (arith, z))),
                placed,
              )
              refl,
          refl,
          added,
        )
      ]

  -- What the loops of `move_modules` leave, of which the destinations lie between two addresses.
  pub record Kept (s s' : Machine) (lo hi n left : ℕ) : Type 0 where
    pub ram : s'.ram ≡ s.ram
    pub room : HasRoom s'.list n left
    pub outside : (x : ℕ) → (x < lo) ⊎ (hi ≤ x) → covered s'.list.regs x ≡ covered s.list.regs x

  move_module_returns :
      (s : Machine) (i dest n left : ℕ)
      → HasRoom s.list (n + 1) ((mod_at s.mods i).size + left)
      → covered s.ram dest ≡ true
      → 0 < (mod_at s.mods i).size
      → dest + (mod_at s.mods i).size < 2 ^ 64
      → Free s.list dest (dest + (mod_at s.mods i).size)
      → (s' : Machine) × (move_module a reg s i dest ≡ ok s')
        × Kept s s' dest (dest + (mod_at s.mods i).size) n left
  unfolding move_module
  move_module_returns s i dest n left h present z w free =
      let (s1, runs, ram, added) =
        move_module_to_returns s dest (mod_at s.mods i).start (mod_at s.mods i).size n left h
          present z w free in
      (
        record s1 { mods = set_start s1.mods i dest },
        rw runs refl,
        record { ram = ram; room = added.room; outside = added.outside },
      )

  -- Room for more is room for less.
  pub HasRoom-less :
      (l : RegionList) (n k bytes less : ℕ)
      → k ≤ n
      → less ≤ bytes
      → HasRoom l n bytes
      → HasRoom l k less
  HasRoom-less l n k bytes less fewer le h = record {
    unlimited = h.unlimited;
    sorted = h.sorted;
    slots = omega (arith, h.slots, fewer);
    account = omega (arith, h.account, le);
  }

  module _ (al : IsAlign a) where
    -- One move of a module to a multiple of the page size, where its pages are free.
    pub one_move :
        (s : Machine) (m : ModInfo) (i dest n left : ℕ)
        → mod_at s.mods i ≡ m
        → HasRoom s.list (n + 1) (pages a m + left)
        → covered s.ram dest ≡ true
        → 0 < m.size
        → m.size + page a ≤ 2 ^ 64
        → dest + pages a m + page a ≤ 2 ^ 64
        → Free s.list dest (dest + pages a m)
        → (s' : Machine) × (move_module a reg s i dest ≡ ok s')
          × Kept s s' dest (dest + pages a m) n left
    one_move s m i dest n left same h present z w fits free =
        let (s', runs, kept) =
          move_module_returns s i dest n left
            (HasRoom-less s.list (n + 1) (n + 1) (pages a m + left) _ (omega arith)
              (omega (arith, room, sizes)) h)
            present (omega (arith, z, sizes))
            (omega (arith, fits, room, sizes, power_pos a.page_shift))
            (λ x ge lt. free x ge (omega (arith, lt, room, sizes))) in
        (
          s',
          runs,
          record {
            ram = kept.ram;
            room = kept.room;
            outside = λ x out. kept.outside x (ground (arith, out, room, sizes));
          },
        )
      where
        room : m.size ≤ pages a m
        room = al.le_round m.size a.page_shift w

        sizes : (mod_at s.mods i).size ≡ m.size
        sizes = ap (λ k. k.size) same
