-- ===== src/DeviceTree/Translate.antt =====
-- `Node::translate_reg` of server/src/dt.cc: addresses on a bus and addresses of the processor.
use mathlib.Core.Path.{subst}
use native.Mathlib.Nat.{div-add-mod}
use bootstrap.Prelude.{
  ℕ, zero, suc, ◌+◌, ◌-◌, ◌*◌, ◌%◌, ◌<◌, ◌^◌, ◌≡◌, refl, sym, ap, ◌∙◌, inl, inr, true, false,
  Option, none, some, List, [], ◌∷◌, Result, ok, arith, ltb, ◌==◌, Bool-cases, ==→eq, ok-injective,
  length,
}
use bootstrap.DeviceTree.{
  Fdt, scan, array_valid, sum_cells, elements, get_addr_size_cells, translate_loop,
  translate_ranges, translate_cells, translate_from, translate_reg,
}
use bootstrap.DeviceTree.Preorder.{IsPreorder}
use bootstrap.DeviceTree.ParentCache.{parent_node-eq}
use bootstrap.DeviceTree.Mapping.{range_at, Maps, root, same, inside, IsTree, translate_loop-Looped}

module _ (fdt : Fdt) where
  -- An answer that the reference confirms.
  record Answer (size bus addr : ℕ) (r : Result (Option ℕ)) : Type 0 where
    found : Option ℕ
    returns : r ≡ ok found
    maps : (x : ℕ) → found ≡ some x → Maps fdt size bus addr x

  Answer-none : (size bus addr : ℕ) → Answer size bus addr (ok none)
  Answer-none size bus addr = record { found = none; returns = refl; maps = λ x q. absurd cc }

  Answer-eq :
      (size bus addr : ℕ) (r r' : Result (Option ℕ))
      → r ≡ r'
      → Answer size bus addr r'
      → Answer size bus addr r
  Answer-eq size bus addr r r' e a = record {
    found = a.found;
    returns = e ∙ a.returns;
    maps = a.maps;
  }

  -- A list whose length is a multiple of which there is none is empty.
  empty_of_elements :
      (sizes prop : List ℕ)
      → length prop % sum_cells sizes ≡ 0
      → elements sizes prop ≡ 0
      → prop ≡ []
  unfolding elements
  empty_of_elements sizes [] m e = refl
  empty_of_elements sizes (c ∷ cs) m e = absurd (
      omega (
        arith,
        div-add-mod (suc (length cs)) (sum_cells sizes),
        m,
        ap (λ q. sum_cells sizes * q) e,
      ))

  -- The rest of `translate_reg` at a bus, from the answers of the call for its parent.
  module _ (tree : IsTree fdt) (size bus addr : ℕ) (h : addr + size < 2 ^ 64)
      (go : ℕ → Result (Option ℕ))
      (later : (x : ℕ) → x + size < 2 ^ 64 → Answer size (fdt.parent_offset bus) x (go x)) where
    loop-Answer :
        (cells above : ℕ × ℕ) (prop : List ℕ)
        → get_addr_size_cells fdt bus ≡ some cells
        → get_addr_size_cells fdt (fdt.parent_offset bus) ≡ some above
        → fdt.ranges bus ≡ some prop
        → Answer size bus addr (
            translate_loop fdt
              (cells.0 ∷ above.0 ∷ cells.1 ∷ [])
              prop
              size
              go
              addr
              (elements (cells.0 ∷ above.0 ∷ cells.1 ∷ []) prop)
              0)
    loop-Answer cells above prop p q r =
        let (o, e, looped) =
          translate_loop-Looped fdt sizes prop size addr (elements sizes prop) 0 go refl h
            (omega arith) (λ j lt. tree.words bus cells above prop j p q r lt)
            (λ x lt. ((later x lt).found, (later x lt).returns)) in
        record {
          found = o;
          returns = e;
          maps = λ x s.
              let (i, lt, holds, at) = looped.hit x s in
              let y : ℕ = addr - (range_at sizes prop i).child + (range_at sizes prop i).parent in
              let fits : y + size < 2 ^ 64 =
                omega (arith, holds, tree.words bus cells above prop i p q r lt) in
              inside bus addr x cells above prop i p q r lt holds
                ((later y fits).maps x (ok-injective (sym at ∙ (later y fits).returns)));
        }
      where
        sizes : List ℕ
        sizes = cells.0 ∷ above.0 ∷ cells.1 ∷ []

    identity : fdt.ranges bus ≡ some [] → Answer size bus addr (ok (some addr))
    identity e = record {
      found = some addr;
      returns = refl;
      maps = λ x s.
          let at : addr ≡ x = ground (arith, s) in
          subst (λ y. Maps fdt size bus addr y) at
            (same bus addr addr e
              (subst (λ b. Maps fdt size b addr addr) (sym (tree.flat bus e)) (root addr)));
    }

    ranges-Answer :
        (cells above : ℕ × ℕ) (r : Option (List ℕ))
        → get_addr_size_cells fdt bus ≡ some cells
        → get_addr_size_cells fdt (fdt.parent_offset bus) ≡ some above
        → fdt.ranges bus ≡ r
        → Answer size bus addr
            (translate_ranges fdt (cells.0 ∷ above.0 ∷ cells.1 ∷ []) r go addr size)
    unfolding translate_ranges array_valid sum_cells
    ranges-Answer cells above none p q r = Answer-none size bus addr
    ranges-Answer cells above (some prop) p q r = elim (Bool-cases (length prop % sum == 0)) [
      | inr odd ↦
          Answer-eq size bus addr _ (ok none) (rw (some_cells, odd) refl)
            (Answer-none size bus addr)
      | inl even ↦ elim (Bool-cases (elements sizes prop == 0)) [
        | inl nothing ↦
            Answer-eq size bus addr _ (ok (some addr)) (rw (some_cells, even, nothing) refl) (
              identity (
                r
                ∙ ap some (
                    empty_of_elements sizes prop (==→eq (length prop % sum) 0 even)
                      (==→eq (elements sizes prop) 0 nothing))))
        | inr something ↦
            Answer-eq size bus addr _ _ (rw (some_cells, even, something) refl)
              (loop-Answer cells above prop p q r)
      ]
    ]
      where
        sizes : List ℕ
        sizes = cells.0 ∷ above.0 ∷ cells.1 ∷ []

        sum : ℕ
        sum = cells.0 + (above.0 + (cells.1 + 0))

        some_cells : ltb 0 sum ≡ true
        some_cells = ground (arith, tree.cells bus cells above p q)

    cells-Answer :
        (c a : Option (ℕ × ℕ))
        → get_addr_size_cells fdt bus ≡ c
        → get_addr_size_cells fdt (fdt.parent_offset bus) ≡ a
        → Answer size bus addr (translate_cells fdt c a bus go addr size)
    unfolding translate_cells
    cells-Answer none a p q = Answer-none size bus addr
    cells-Answer (some cells) none p q = Answer-none size bus addr
    cells-Answer (some cells) (some above) p q = ranges-Answer cells above (fdt.ranges bus) p q refl

  module _ (stack : ℕ → ℕ) (pre : IsPreorder fdt) (tree : IsTree fdt) (size : ℕ) where
    translate_round :
        (fuel bus addr : ℕ)
        → (bus == 0) ≡ false
        → translate_from fdt (scan fdt stack) (suc fuel) bus addr size
          ≡ translate_cells fdt
              (get_addr_size_cells fdt bus)
              (get_addr_size_cells fdt (fdt.parent_offset bus))
              bus
              (λ x. translate_from fdt (scan fdt stack) fuel (fdt.parent_offset bus) x size)
              addr
              size
    unfolding translate_from
    translate_round fuel bus addr e =
        rw (e, parent_node-eq fdt stack bus pre (ground (arith, e))) refl

    at_root : (bus addr : ℕ) → bus ≡ 0 → Answer size bus addr (ok (some addr))
    at_root bus addr e = record {
      found = some addr;
      returns = refl;
      maps = λ x s.
          let at : addr ≡ x = ground (arith, s) in
          subst (λ y. Maps fdt size bus addr y) at
            (subst (λ b. Maps fdt size b addr addr) (sym e) (root addr));
    }

    translate_from-Answer :
        (fuel bus addr : ℕ)
        → bus < fuel
        → addr + size < 2 ^ 64
        → Answer size bus addr (translate_from fdt (scan fdt stack) fuel bus addr size)
    unfolding translate_from
    translate_from-Answer zero bus addr f h = absurd (omega (arith, f))
    translate_from-Answer (suc fuel) bus addr f h = elim (Bool-cases (bus == 0)) [
      | inl at ↦
          Answer-eq size bus addr _ (ok (some addr)) (rw at refl)
            (at_root bus addr (==→eq bus 0 at))
      | inr away ↦ Answer-eq size bus addr _ _ (translate_round fuel bus addr away) (
          cells-Answer tree size bus addr h
            (λ x. translate_from fdt (scan fdt stack) fuel (fdt.parent_offset bus) x size)
            (λ x lt.
              translate_from-Answer fuel (fdt.parent_offset bus) x
                (omega (arith, f, tree.lower bus (ground (arith, away)))) lt)
            _ _ refl refl)
    ]

    -- If libfdt answers as documented, the bytes do not reach the end of the address space, every
    -- element of `ranges` has a cell and is a range of words, and only nodes below the root have
    -- `ranges` without elements: `translate_reg` returns, and an address that it returns is one to
    -- which the buses on the way to the root map the bytes.
    pub translate_reg-Maps :
        (bus addr : ℕ)
        → addr + size < 2 ^ 64
        → (o : Option ℕ) × (translate_reg fdt (scan fdt stack) bus addr size ≡ ok o)
          × ((x : ℕ) → o ≡ some x → Maps fdt size bus addr x)
    unfolding translate_reg
    translate_reg-Maps bus addr h =
        let a : Answer size bus addr (translate_from fdt (scan fdt stack) (suc bus) bus addr size) =
          translate_from-Answer (suc bus) bus addr (omega arith) h in
        (a.found, a.returns, a.maps)
