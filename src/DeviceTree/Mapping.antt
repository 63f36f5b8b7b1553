-- ===== src/DeviceTree/Mapping.antt =====
-- What the property `ranges` of server/src/dt.h means: the mapping of a bus, and one loop over its
-- elements.

use bootstrap.Prelude.{
  ℕ, zero, suc, ◌+◌, ◌-◌, ◌≤◌, ◌<◌, ◌^◌, ◌≡◌, refl, sym, ap, ◌∙◌, inl, inr, Option, none, some,
  List, [], ◌∷◌, Result, ok, arith, Option-cases, length,
}
use bootstrap.DeviceTree.{
  Fdt, Range, array_get, array_value, elements, get_range, range_matches, range_translate,
  get_addr_size_cells, translated, translate_loop,
}

-- An element of `ranges`.
unfoldable pub range_at : List ℕ → List ℕ → ℕ → Range
range_at sizes prop i = record {
  child = array_value sizes prop i 0;
  parent = array_value sizes prop i 1;
  length = array_value sizes prop i 2;
}

-- The bytes lie in the range, counted without a wrap-around.
abbrev pub Holds : Range → ℕ → ℕ → Type 0
Holds r addr size = (r.child ≤ addr) × (addr + size ≤ r.child + r.length)

-- A range of words.
abbrev pub IsWords : Range → Type 0
IsWords r = (r.child + r.length < 2 ^ 64) × (r.parent + r.length < 2 ^ 64)

range_translate-Holds :
    (r : Range) (addr size : ℕ)
    → IsWords r
    → addr + size < 2 ^ 64
    → Holds r addr size
    → range_translate r addr size ≡ some (addr - r.child + r.parent)
unfolding range_translate range_matches
range_translate-Holds r addr size w h (ge, le) = ground (arith, ge, le, w, h)

Holds-range_translate :
    (r : Range) (addr size x : ℕ)
    → IsWords r
    → addr + size < 2 ^ 64
    → range_translate r addr size ≡ some x
    → Holds r addr size × (x ≡ addr - r.child + r.parent)
unfolding range_translate range_matches
Holds-range_translate r addr size x w h e = ground (arith, e, w, h)

-- The reference: how the buses from a node up to the root map an address. A bus without elements in
-- `ranges` maps every address to itself.
pub data Maps (fdt : Fdt) (size : ℕ) : ℕ → ℕ → ℕ → Type 0 where
  root : (addr : ℕ) → Maps fdt size 0 addr addr
  same :
      (bus addr result : ℕ)
      → fdt.ranges bus ≡ some []
      → Maps fdt size (fdt.parent_offset bus) addr result
      → Maps fdt size bus addr result
  inside :
      (bus addr result : ℕ) (cells above : ℕ × ℕ) (prop : List ℕ) (i : ℕ)
      → get_addr_size_cells fdt bus ≡ some cells
      → get_addr_size_cells fdt (fdt.parent_offset bus) ≡ some above
      → fdt.ranges bus ≡ some prop
      → i < elements (cells.0 ∷ above.0 ∷ cells.1 ∷ []) prop
      → Holds (range_at (cells.0 ∷ above.0 ∷ cells.1 ∷ []) prop i) addr size
      → Maps fdt size
          (fdt.parent_offset bus)
          (addr
            - (range_at (cells.0 ∷ above.0 ∷ cells.1 ∷ []) prop i).child
            + (range_at (cells.0 ∷ above.0 ∷ cells.1 ∷ []) prop i).parent)
          result
      → Maps fdt size bus addr result

-- Parents lie in front of their nodes, every element has a cell, all ranges are words, and `ranges`
-- without elements occurs in nodes below the root only.
pub record IsTree (fdt : Fdt) : Type 0 where
  pub lower : (bus : ℕ) → 0 < bus → fdt.parent_offset bus < bus
  pub cells :
      (bus : ℕ) (cells above : ℕ × ℕ)
      → get_addr_size_cells fdt bus ≡ some cells
      → get_addr_size_cells fdt (fdt.parent_offset bus) ≡ some above
      → 0 < cells.0 + above.0 + cells.1
  pub words :
      (bus : ℕ) (cells above : ℕ × ℕ) (prop : List ℕ) (i : ℕ)
      → get_addr_size_cells fdt bus ≡ some cells
      → get_addr_size_cells fdt (fdt.parent_offset bus) ≡ some above
      → fdt.ranges bus ≡ some prop
      → i < elements (cells.0 ∷ above.0 ∷ cells.1 ∷ []) prop
      → IsWords (range_at (cells.0 ∷ above.0 ∷ cells.1 ∷ []) prop i)
  pub flat : (bus : ℕ) → fdt.ranges bus ≡ some [] → fdt.parent_offset bus ≡ 0

-- The loop over the elements: it returns what the call for the parent returns for an element that
-- holds the bytes.
pub record Looped (sizes prop : List ℕ) (size addr : ℕ) (go : ℕ → Result (Option ℕ)) (o : Option ℕ)
    : Type 0 where
  pub hit :
      (x : ℕ)
      → o ≡ some x
      → (i : ℕ) × (i < elements sizes prop)
        × Holds (range_at sizes prop i) addr size
        × (go (addr - (range_at sizes prop i).child + (range_at sizes prop i).parent) ≡ ok (some x))

module _ (fdt : Fdt) where
  get_range-range_at :
      (sizes prop : List ℕ) (i : ℕ)
      → length sizes ≡ 3
      → i < elements sizes prop
      → get_range fdt sizes prop i ≡ ok (range_at sizes prop i)
  unfolding get_range array_get range_at
  get_range-range_at sizes prop i three lt = ground (arith, three, lt)

  loop_round :
      (sizes prop : List ℕ) (size addr n i : ℕ) (go : ℕ → Result (Option ℕ))
      → length sizes ≡ 3
      → i < elements sizes prop
      → translate_loop fdt sizes prop size go addr (suc n) i
        ≡ translated fdt
            (range_translate (range_at sizes prop i) addr size)
            go
            (translate_loop fdt sizes prop size go addr n (suc i))
  unfolding translate_loop
  loop_round sizes prop size addr n i go three lt =
      rw (get_range-range_at sizes prop i three lt) refl

  pub translate_loop-Looped :
      (sizes prop : List ℕ) (size addr n i : ℕ) (go : ℕ → Result (Option ℕ))
      → length sizes ≡ 3
      → addr + size < 2 ^ 64
      → i + n ≡ elements sizes prop
      → ((j : ℕ) → j < elements sizes prop → IsWords (range_at sizes prop j))
      → ((x : ℕ) → x + size < 2 ^ 64 → (o : Option ℕ) × (go x ≡ ok o))
      → (o : Option ℕ) × (translate_loop fdt sizes prop size go addr n i ≡ ok o)
        × Looped sizes prop size addr go o
  unfolding translate_loop
  translate_loop-Looped sizes prop size addr zero i go three h e w total =
      (none, refl, record { hit = λ x q. absurd cc })
  translate_loop-Looped sizes prop size addr (suc n) i go three h e w total =
      elim (Option-cases (range_translate (range_at sizes prop i) addr size)) [
        | inl miss ↦
            let (o, runs, looped) =
              translate_loop-Looped sizes prop size addr n (suc i) go three h (omega (arith, e)) w
                total in
            (o, round ∙ ap (λ t. translated fdt t go rest) miss ∙ runs, looped)
        | inr (x, hit) ↦
            let (holds, at) =
              Holds-range_translate (range_at sizes prop i) addr size x (w i (omega (arith, e))) h
                hit in
            let (o, runs) = total x (omega (arith, at, holds, w i (omega (arith, e)))) in
            (
              o,
              round ∙ ap (λ t. translated fdt t go rest) hit ∙ runs,
              record { hit = λ y q. (i, omega (arith, e), holds, ap go (sym at) ∙ runs ∙ ap ok q) },
            )
      ]
    where
      rest : Result (Option ℕ)
      rest = translate_loop fdt sizes prop size go addr n (suc i)

      round :
          translate_loop fdt sizes prop size go addr (suc n) i
          ≡ translated fdt (range_translate (range_at sizes prop i) addr size) go rest
      round = loop_round sizes prop size addr n i go three (omega (arith, e))
