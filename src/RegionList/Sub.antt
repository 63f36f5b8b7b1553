-- ===== src/RegionList/Sub.antt =====
-- `Region_list::sub`: cutting a range out of the region that contains it.
use bootstrap.Prelude.{
  ℕ, ◌+◌, ◌-◌, ◌≤◌, ◌<◌, ◌^◌, ◌≡◌, refl, ◌∙◌, ap, ◌⊎◌, inl, inr, true, false, ◌&&◌, not, [], ◌∷◌,
  some, ok, arith, word_max, leb, ◌==◌, Bool-cases, length, sub_word, add_word, tests, ◌%◌,
}
use bootstrap.Align.{Align}
use bootstrap.Region.{Region, holds, set_begin, set_end, size, IsRange}
use bootstrap.RegionList.{
  RegionList, find_container, sub, sub_from, add_nolimitcheck, add, limit_address, limit_size,
}
use bootstrap.RegionList.Order.{Above, covered}
use bootstrap.RegionList.Insert.{place}
use bootstrap.RegionList.Add.{IsUnlimited, add_unlimited, add_nolimitcheck_free}
use bootstrap.RegionList.Punch.{
  punch, replace-punch, container-contains, head_of, tail_of, Above-punch, covered-punch, to_head,
  length-to_head, Above-to_head, find-to_head, place-to_head, covered-to_head, covered_of_container,
}

module _ (a : Align) (l : RegionList) (r c : Region) where
  -- What the list must allow for the second part of a region that is cut in two.
  pub record CanSplit : Type 0 where
    pub unlimited : IsUnlimited l
    pub room : length l.regs < l.max
    pub accounted : l.combined_size < word_max
    pub account : l.combined_size + (c.end - r.end) < 2 ^ 64
    pub tail_long : r.end + 1 < c.end

  module _ (v : Above 0 l.regs) (k : IsRange r) (e : find_container l.regs r ≡ some c) where
    fits : (c.begin ≤ r.begin) × (r.end ≤ c.end) × (c.end < 2 ^ 64)
    fits = container-contains 0 l.regs r c v e

    -- Inside its container: the head stays in place and the tail is added.
    sub_inside :
        (l' : RegionList)
        → c.begin < r.begin
        → r.end < c.end
        → add a (record l { regs = to_head r c l.regs }) (tail_of c r) false ≡ ok l'
        → sub_from a l r c ≡ ok (true, l')
    unfolding sub_from set_begin set_end
    sub_inside l' h g added = simp (starts, ends, wrap_begin, wrap_end, first, second, added)
      where
        wrap_begin : add_word r.end 1 ≡ r.end + 1
        wrap_begin = omega (arith, fits)

        wrap_end : sub_word r.begin 1 ≡ r.begin - 1
        wrap_end = omega arith

        starts : (c.begin == r.begin) ≡ false
        starts = ground arith

        ends : (c.end == r.end) ≡ false
        ends = ground arith

        first : leb (r.end + 1) c.end ≡ true
        first = omega (tests, fits)

        second : leb c.begin (r.begin - 1) ≡ true
        second = omega (tests, fits)

    sub_split :
        c.begin < r.begin
        → r.end < c.end
        → CanSplit
        → sub_from a l r c
          ≡ ok (
            true,
            record l { regs = punch l.regs r; combined_size = l.combined_size + (c.end - r.end) },
          )
    unfolding size
    sub_split h g s = sub_inside _ h g added
      where
        sized : size (tail_of c r) ≡ c.end - r.end
        sized = omega (arith, fits)

        account :
            (l.combined_size + size (tail_of c r)) % 2 ^ 64 ≡ l.combined_size + (c.end - r.end)
        account = rw sized (omega (arith, s.account))

        start : RegionList
        start = record l { regs = to_head r c l.regs }

        finish :
            record start {
              regs = place start.regs (tail_of c r);
              combined_size = (l.combined_size + size (tail_of c r)) % 2 ^ 64;
            }
            ≡ record l { regs = punch l.regs r; combined_size = l.combined_size + (c.end - r.end) }
        finish = λ i. record l {
          regs = place-to_head r c k.0 h g 0 l.regs v e i;
          combined_size = account i;
        }

        added :
            add a start (tail_of c r) false
            ≡ ok (record l {
              regs = punch l.regs r;
              combined_size = l.combined_size + (c.end - r.end);
            })
        added =
            add_unlimited a start (tail_of c r) false
              (record { address = s.unlimited.address; combined = s.unlimited.combined })
              (omega (arith, fits), fits.2) s.tail_long s.accounted (rw sized s.account)
            ∙ add_nolimitcheck_free a start (tail_of c r) false
                (Above-to_head r c k.0 h g 0 l.regs v e) (omega (arith, fits), fits.2) s.tail_long
                (rw (length-to_head r c k.0 h g l.regs) s.room)
                (find-to_head r c k.0 h g 0 l.regs v e)
            ∙ ap ok finish

    -- A range at an edge of its container is cut off in place.
    sub_edge :
        (c.begin ≡ r.begin) ⊎ (c.end ≡ r.end)
        → sub_from a l r c ≡ ok (true, record l { regs = punch l.regs r })
    unfolding sub_from set_begin set_end
    sub_edge h = elim (Bool-cases (c.begin == r.begin)) [
      | inl b ↦ elim (Bool-cases (c.end == r.end)) [
        | inl f ↦ simp (b, f, replace-punch l.regs [] r c e (λ rest. simp (b, f)))
        | inr f ↦ simp (
          b,
          f,
          next (ground (arith, fits)),
          before_end (ground (arith, fits)),
          replace-punch l.regs (tail_of c r ∷ []) r c e (λ rest. simp (b, f)),
        )
      ]
      | inr b ↦
          let f : (c.end == r.end) ≡ true = ground arith in
          simp (
            b,
            f,
            previous (ground (arith, fits)),
            after_begin (ground (arith, fits)),
            replace-punch l.regs (head_of c r ∷ []) r c e (λ rest. simp (b, f)),
          )
    ]
      where
        next : r.end < c.end → add_word r.end 1 ≡ r.end + 1
        next g = omega (arith, fits)

        before_end : r.end < c.end → leb (r.end + 1) c.end ≡ true
        before_end g = omega tests

        previous : c.begin < r.begin → sub_word r.begin 1 ≡ r.begin - 1
        previous g = omega arith

        after_begin : c.begin < r.begin → leb c.begin (r.begin - 1) ≡ true
        after_begin g = omega tests

    -- What a split or a cut at an edge leaves is the reference.
    sub_from-punch :
        (c.begin ≡ r.begin) ⊎ (c.end ≡ r.end) ⊎ CanSplit
        → (l' : RegionList) × (sub_from a l r c ≡ ok (true, l')) × (l'.regs ≡ punch l.regs r)
    sub_from-punch (inl h) = (_, sub_edge (inl h), refl)
    sub_from-punch (inr (inl h)) = (_, sub_edge (inr h), refl)
    sub_from-punch (inr (inr s)) = elim (Bool-cases (c.begin == r.begin)) [
      | inl b ↦ (_, sub_edge (inl (ground arith)), refl)
      | inr b ↦ (_, sub_split (ground (arith, fits)) (omega (arith, s.tail_long)) s, refl)
    ]

    -- In a list in order, for a range with a container: if the range begins or ends with the container,
    -- or the container can be split (it goes on by at least two bytes, in a list without limits with
    -- room for one more region), `sub` succeeds, the list stays in order, and exactly the bytes of the
    -- range are given up.
    pub sub_cuts :
        (c.begin ≡ r.begin) ⊎ (c.end ≡ r.end) ⊎ CanSplit
        → (l' : RegionList) × (sub a l r ≡ ok (true, l'))
          × Above 0 l'.regs
          × ((x : ℕ) → covered l'.regs x ≡ (covered l.regs x && not (holds r x)))
    unfolding sub
    sub_cuts h =
        let (l', p, q) = sub_from-punch h in
        (
          l',
          rw (e, sub) p,
          rw q (Above-punch 0 l.regs r v k.0),
          λ x. rw q (covered-punch 0 l.regs r c x v k e),
        )

    -- In a list without limits whose account is not full, where the range begins inside its container
    -- and ends one byte before it, `sub` succeeds and that byte is no longer covered.
    sub_loses_byte :
        c.begin < r.begin
        → c.end ≡ r.end + 1
        → IsUnlimited l
        → l.combined_size < word_max
        → (l' : RegionList) × (sub a l r ≡ ok (true, l'))
          × (covered l.regs c.end ≡ true)
          × (covered l'.regs c.end ≡ false)
    unfolding sub add limit_address limit_size add_nolimitcheck size
    sub_loses_byte h g u b = (
      record l { regs = to_head r c l.regs },
      rw (e, sub) (sub_inside _ h (omega arith) (ground (arith, fits))),
      covered_of_container r c k.0 h (omega arith) l.regs c.end e (ground (arith, fits)),
      rw (covered-to_head r c k.0 h (omega arith) 0 l.regs c.end v e) (ground (arith, fits)),
    )
