-- ===== src/BootModules/Chain.antt =====
-- Modules in order, and modules that were moved behind one another.

use bootstrap.Prelude.{ℕ, ◌+◌, ◌^◌, ◌≤◌, ◌<◌, ◌≡◌, refl, sym, ap, ◌∙◌, List, [], ◌∷◌, arith}
use bootstrap.Align.{Align, IsAlign}
use bootstrap.BootModules.{ModInfo, Machine, mod_at}
use bootstrap.BootModules.Moves.{page, pages}

module _ (a : Align) where
  -- The modules of a list of indices lie between two addresses, in order, each with its last page to
  -- itself.
  unfoldable pub Chain : List ModInfo → ℕ → List ℕ → ℕ → Type 0
  Chain mods lo [] hi = lo ≤ hi
  Chain mods lo (i ∷ is) hi =
      (lo ≤ (mod_at mods i).start)
      × (0 < (mod_at mods i).size)
      × ((mod_at mods i).size + page a ≤ 2 ^ 64)
      × Chain mods ((mod_at mods i).start + pages a (mod_at mods i)) is hi

  -- The pages of the modules of a list.
  unfoldable pub total : List ModInfo → List ℕ → ℕ
  total mods [] = 0
  total mods (i ∷ is) = pages a (mod_at mods i) + total mods is

  -- The modules of a list lie one behind the other from an address on, with the bytes that they had.
  unfoldable pub Moved : (ℕ → ℕ) → List ModInfo → Machine → List ℕ → ℕ → Type 0
  Moved bytes mods s [] c = Unit {0}
  Moved bytes mods s (i ∷ is) c =
      (mod_at s.mods i ≡ record (mod_at mods i) { start = c })
      × ((k : ℕ) → k < (mod_at mods i).size → s.bytes (c + k) ≡ bytes ((mod_at mods i).start + k))
      × Moved bytes mods s is (c + pages a (mod_at mods i))

  -- Behind a cursor every module of a list gets to its own position or a higher one.
  unfoldable pub Upwards : List ModInfo → ℕ → List ℕ → ℕ → Type 0
  Upwards mods c [] addr = c ≡ addr
  Upwards mods c (i ∷ is) addr =
      ((mod_at mods i).start ≤ c) × Upwards mods (c + pages a (mod_at mods i)) is addr

  pub Upwards-le :
      (mods : List ModInfo) (is : List ℕ) (c addr : ℕ)
      → Upwards mods c is addr
      → addr ≡ c + total mods is
  unfolding Upwards total
  Upwards-le mods [] c addr u = omega (arith, u)
  Upwards-le mods (i ∷ is) c addr (le, u) =
      omega (arith, Upwards-le mods is (c + pages a (mod_at mods i)) addr u)

  pub Chain-le : (mods : List ModInfo) (is : List ℕ) (lo hi : ℕ) → Chain mods lo is hi → lo ≤ hi
  unfolding Chain
  Chain-le mods [] lo hi ch = ch
  Chain-le mods (i ∷ is) lo hi (le, z, w, ch) =
      omega (arith, le, Chain-le mods is ((mod_at mods i).start + pages a (mod_at mods i)) hi ch)

  -- Modules that lie from an address on are at the same position in both lists.
  unfoldable pub Agree : List ModInfo → List ModInfo → ℕ → Type 0
  Agree mods mods' lo = (j : ℕ) → lo ≤ (mod_at mods j).start → mod_at mods' j ≡ mod_at mods j

  pub Chain-Agree :
      (mods mods' : List ModInfo) (is : List ℕ) (lo hi : ℕ)
      → Chain mods lo is hi
      → Agree mods mods' lo
      → Chain mods' lo is hi
  unfolding Chain Agree
  Chain-Agree mods mods' [] lo hi ch ag = ch
  Chain-Agree mods mods' (i ∷ is) lo hi (le, z, w, ch) ag = rw (ag i le) (
    le,
    z,
    w,
    Chain-Agree mods mods' is ((mod_at mods i).start + pages a (mod_at mods i)) hi ch
        (λ j h. ag j (omega (arith, h, le))),
  )

  pub total-Agree :
      (mods mods' : List ModInfo) (is : List ℕ) (lo hi : ℕ)
      → Chain mods lo is hi
      → Agree mods mods' lo
      → total mods' is ≡ total mods is
  unfolding Chain Agree total
  total-Agree mods mods' [] lo hi ch ag = refl
  total-Agree mods mods' (i ∷ is) lo hi (le, z, w, ch) ag = omega (
    arith,
    ap (λ m. pages a m) (ag i le),
    total-Agree mods mods' is ((mod_at mods i).start + pages a (mod_at mods i)) hi ch
        (λ j h. ag j (omega (arith, h, le))),
  )

  -- The sources of a list that is moved may be read in an earlier machine.
  pub Moved_earlier :
      (bytes bytes' : ℕ → ℕ) (mods mods' : List ModInfo) (s : Machine) (is : List ℕ) (lo hi c : ℕ)
      → Chain mods lo is hi
      → Agree mods mods' lo
      → ((x : ℕ) → lo ≤ x → bytes' x ≡ bytes x)
      → Moved bytes' mods' s is c
      → Moved bytes mods s is c
  unfolding Chain Agree Moved
  Moved_earlier bytes bytes' mods mods' s [] lo hi c ch ag same mv = tt
  Moved_earlier bytes bytes' mods mods' s (i ∷ is) lo hi c (le, z, w, ch) ag same mv =
      let (at, kept, rest) = here in
      (
        at,
        λ k lt. kept k lt ∙ same ((mod_at mods i).start + k) (omega (arith, le)),
        Moved_earlier bytes bytes' mods mods' s is ((mod_at mods i).start + pages a (mod_at mods i))
            hi (c + pages a (mod_at mods i)) ch (λ j h. ag j (omega (arith, h, le)))
            (λ x h. same x (omega (arith, h, le))) rest,
      )
    where
      here :
          (mod_at s.mods i ≡ record (mod_at mods i) { start = c })
          × ((k : ℕ)
              → k < (mod_at mods i).size
              → s.bytes (c + k) ≡ bytes' ((mod_at mods i).start + k))
          × Moved bytes' mods' s is (c + pages a (mod_at mods i))
      here = rw (sym (ag i le)) mv

  module _ (al : IsAlign a) where
    -- What is moved stays so where later moves touch other modules and other bytes.
    pub Moved_later :
        (bytes : ℕ → ℕ) (mods : List ModInfo) (s s' : Machine) (is : List ℕ) (lo hi c top : ℕ)
        → Chain mods lo is hi
        → c + total mods is ≤ top
        → ((j : ℕ) → lo ≤ (mod_at mods j).start → mod_at s'.mods j ≡ mod_at s.mods j)
        → ((x : ℕ) → c ≤ x → x < top → s'.bytes x ≡ s.bytes x)
        → Moved bytes mods s is c
        → Moved bytes mods s' is c
    unfolding Chain Moved total
    Moved_later bytes mods s s' [] lo hi c top ch fits ag same mv = tt
    Moved_later bytes mods s s' (i ∷ is) lo hi c top (le, z, w, ch) fits ag same (at, kept, rest) =
        (
          ag i le ∙ at,
          λ k lt. same (c + k) (omega arith) (omega (arith, fits, lt, room)) ∙ kept k lt,
          Moved_later bytes mods s s' is ((mod_at mods i).start + pages a (mod_at mods i)) hi
              (c + pages a (mod_at mods i)) top ch (omega (arith, fits))
              (λ j h. ag j (omega (arith, h, le))) (λ x h. same x (omega (arith, h))) rest,
        )
      where
        room : (mod_at mods i).size ≤ pages a (mod_at mods i)
        room = al.le_round (mod_at mods i).size a.page_shift w

    -- What is moved stays so where later moves only touch what lies behind it.
    pub Moved_below :
        (bytes : ℕ → ℕ) (mods : List ModInfo) (s s' : Machine) (is : List ℕ) (lo hi c top : ℕ)
        → Chain mods lo is hi
        → c + total mods is ≤ top
        → ((j : ℕ) → (mod_at s.mods j).start < top → mod_at s'.mods j ≡ mod_at s.mods j)
        → ((x : ℕ) → x < top → s'.bytes x ≡ s.bytes x)
        → Moved bytes mods s is c
        → Moved bytes mods s' is c
    unfolding Chain Moved total
    Moved_below bytes mods s s' [] lo hi c top ch fits ag same mv = tt
    Moved_below bytes mods s s' (i ∷ is) lo hi c top (le, z, w, ch) fits ag same (at, kept, rest) =
        (
          ag i (omega (arith, ap (λ m. m.start) at, fits, z, room)) ∙ at,
          λ k lt. same (c + k) (omega (arith, fits, lt, room)) ∙ kept k lt,
          Moved_below bytes mods s s' is ((mod_at mods i).start + pages a (mod_at mods i)) hi
              (c + pages a (mod_at mods i)) top ch (omega (arith, fits)) ag same rest,
        )
      where
        room : (mod_at mods i).size ≤ pages a (mod_at mods i)
        room = al.le_round (mod_at mods i).size a.page_shift w
