-- ===== src/BootModules/Relocate.antt =====
-- The three loops of `move_modules` together.

use bootstrap.Prelude.{
  ℕ, ◌+◌, ◌%◌, ◌^◌, ◌≤◌, ◌<◌, ◌≡◌, inr, List, ok, arith, ◌>>=◌, length, ap, ◌∙◌, ◌⊎◌, true,
  >>=-eq-ok,
}
use bootstrap.Align.{Align, IsAlign}
use bootstrap.BootModules.{Machine, move_forwards, move_backwards, split_forward, relocate}
use bootstrap.BootModules.Moves.{page}
use bootstrap.BootModules.Chain.{
  Chain, Agree, Moved, total, Upwards-le, Chain-Agree, total-Agree, Moved_earlier, Moved_below,
}
use bootstrap.BootModules.Split.{Split, split_forward_lem}
use bootstrap.BootModules.Room.{HasRoom}
use bootstrap.RegionList.Order.{covered}
use bootstrap.BootModules.MoveReturns.{Free, Kept, HasRoom-less}
use bootstrap.BootModules.Returns.{forwards_returns, backwards_returns}
use bootstrap.BootModules.Backwards.{Backwards, backwards_lem}
use bootstrap.BootModules.Forwards.{Forwards, forwards_lem}

module _ (a : Align) (al : IsAlign a) (reg : ℕ) where
  both_loops :
      (sorter : List ℕ) (to : ℕ) (s s' : Machine) (fwd : List ℕ) (cursor : ℕ) (bwd : List ℕ)
      (at : ℕ × Machine)
      → to % page a ≡ 0
      → Split a al reg s.mods sorter 0 (2 ^ 64) to fwd cursor bwd
      → move_forwards a reg fwd cursor s ≡ ok at
      → move_backwards a reg bwd cursor at.1 ≡ ok s'
      → Moved a s.bytes s.mods s' sorter to
  unfolding Agree
  both_loops sorter to s s' fwd cursor bwd at m sp p q =
      let f : Forwards a al reg s fwd 0 sp.mid to cursor at.1 =
        (forwards_lem a al reg fwd 0 sp.mid to cursor s at sp.lower sp.up m (omega (arith, sp.fits))
          p).1 in
      let agree : Agree a s.mods at.1.mods sp.mid = λ j h. f.others j (inr h) in
      let b : Backwards a al reg at.1 bwd sp.mid cursor s' =
        backwards_lem a al reg bwd sp.mid (2 ^ 64) cursor at.1 s'
          (Chain-Agree a s.mods at.1.mods bwd sp.mid (2 ^ 64) sp.upper agree) sp.down sp.aligned
          (omega
            (arith, sp.fits, total-Agree a s.mods at.1.mods bwd sp.mid (2 ^ 64) sp.upper agree))
          q in
      sp.joined s.bytes s'
        (Moved_below a al s.bytes s.mods at.1 s' fwd 0 sp.mid to cursor sp.lower
          (omega (arith, Upwards-le a s.mods fwd to cursor sp.up))
          (λ j lt. b.others j (omega (arith, lt, sp.down))) b.below f.moved)
        (Moved_earlier a s.bytes at.1.bytes s.mods at.1.mods s' bwd sp.mid (2 ^ 64) cursor sp.upper
          agree (λ x h. f.behind x (omega (arith, h, sp.down))) b.moved)

  -- For modules in order, each with its last page to itself, and a page-aligned target from which on
  -- the pages of all of them fit into the address space: if the three loops of `move_modules` return,
  -- then the modules lie one behind the other from the target on, each with the bytes that it had.
  pub relocate-Moved :
      (sorter : List ℕ) (to : ℕ) (s s' : Machine)
      → Chain a s.mods 0 sorter (2 ^ 64)
      → to % page a ≡ 0
      → to + total a s.mods sorter + page a ≤ 2 ^ 64
      → relocate a reg sorter to s ≡ ok s'
      → Moved a s.bytes s.mods s' sorter to
  unfolding relocate
  relocate-Moved sorter to s s' ch m w e =
      let sp : Split a al reg s.mods sorter 0 (2 ^ 64) to (split_forward a reg s.mods to sorter).0
          (split_forward a reg s.mods to sorter).1 (split_forward a reg s.mods to sorter).2 =
        split_forward_lem a al reg s.mods sorter 0 (2 ^ 64) to ch m (omega (arith, w)) w in
      let (at, p, q) =
        >>=-eq-ok
          (move_forwards a reg (split_forward a reg s.mods to sorter).0
            (split_forward a reg s.mods to sorter).1 s)
          _ e in
      both_loops sorter to s s' _ _ _ at m sp p q

  -- The second and the third loop return where the pages from the target on are free RAM.
  loops_return :
      (sorter : List ℕ) (to cursor : ℕ) (s : Machine) (fwd bwd : List ℕ)
      → to % page a ≡ 0
      → Split a al reg s.mods sorter 0 (2 ^ 64) to fwd cursor bwd
      → HasRoom s.list (length sorter) (total a s.mods sorter)
      → ((x : ℕ) → to ≤ x → x < to + total a s.mods sorter → covered s.ram x ≡ true)
      → Free a reg s.list to (to + total a s.mods sorter)
      → (s' : Machine) × ((move_forwards a reg fwd cursor s >>= λ at.
            move_backwards a reg bwd cursor at.1)
          ≡ ok s')
        × Kept a reg s s' to (to + total a s.mods sorter) 0 0
  unfolding Agree
  loops_return sorter to cursor s fwd bwd m sp h present free =
      let end : cursor ≡ to + total a s.mods fwd = Upwards-le a s.mods fwd to cursor sp.up in
      let (at, p, k1) =
        forwards_returns a reg al fwd 0 sp.mid to cursor (length bwd) (total a s.mods bwd) s
          sp.lower sp.up m (omega (arith, sp.fits))
          (HasRoom-less a reg s.list _ _ _ _ (omega (arith, sp.lengths)) (omega (arith, sp.totals))
            h)
          (λ x ge lt. present x ge (omega (arith, lt, end, sp.totals)))
          (λ x ge lt. free x ge (omega (arith, lt, end, sp.totals))) in
      let f : Forwards a al reg s fwd 0 sp.mid to cursor at.1 =
        (forwards_lem a al reg fwd 0 sp.mid to cursor s at sp.lower sp.up m (omega (arith, sp.fits))
          p).1 in
      let agree : Agree a s.mods at.1.mods sp.mid = λ j ge. f.others j (inr ge) in
      let same : total a at.1.mods bwd ≡ total a s.mods bwd =
        total-Agree a s.mods at.1.mods bwd sp.mid (2 ^ 64) sp.upper agree in
      let (s', q, k2) =
        backwards_returns a reg al bwd sp.mid (2 ^ 64) cursor 0 0 at.1
          (Chain-Agree a s.mods at.1.mods bwd sp.mid (2 ^ 64) sp.upper agree) sp.down sp.aligned
          (omega (arith, sp.fits, same))
          (HasRoom-less a reg at.1.list _ _ _ _ (omega arith) (omega (arith, same)) k1.room)
          (λ x ge lt.
            ap (λ r. covered r x) k1.ram
            ∙ present x (omega (arith, ge, end)) (omega (arith, lt, same, end, sp.totals)))
          (λ x ge lt.
            k1.outside x (inr ge)
            ∙ free x (omega (arith, ge, end)) (omega (arith, lt, same, end, sp.totals))) in
      (
        s',
        rw p q,
        record {
          ram = k2.ram ∙ k1.ram;
          room = k2.room;
          outside = λ x out.
              k2.outside x (ground (arith, out, same, end, sp.totals))
              ∙ k1.outside x (ground (arith, out, end, sp.totals));
        },
      )

  -- With RAM from the target on that no region of the list covers, and room in the list, the three
  -- loops return, and then the modules lie there with their bytes.
  pub relocate_returns :
      (sorter : List ℕ) (to : ℕ) (s : Machine)
      → Chain a s.mods 0 sorter (2 ^ 64)
      → to % page a ≡ 0
      → to + total a s.mods sorter + page a ≤ 2 ^ 64
      → HasRoom s.list (length sorter) (total a s.mods sorter)
      → ((x : ℕ) → to ≤ x → x < to + total a s.mods sorter → covered s.ram x ≡ true)
      → Free a reg s.list to (to + total a s.mods sorter)
      → (s' : Machine) × (relocate a reg sorter to s ≡ ok s')
        × Moved a s.bytes s.mods s' sorter to
        × ((x : ℕ)
            → (x < to) ⊎ (to + total a s.mods sorter ≤ x)
            → covered s'.list.regs x ≡ covered s.list.regs x)
  unfolding relocate
  relocate_returns sorter to s ch m w h present free =
      let sp : Split a al reg s.mods sorter 0 (2 ^ 64) to (split_forward a reg s.mods to sorter).0
          (split_forward a reg s.mods to sorter).1 (split_forward a reg s.mods to sorter).2 =
        split_forward_lem a al reg s.mods sorter 0 (2 ^ 64) to ch m (omega (arith, w)) w in
      let (s', e, k) = loops_return sorter to _ s _ _ m sp h present free in
      (s', e, relocate-Moved sorter to s s' ch m w e, k.outside)
