-- ===== src/RegionList/FindFreeRev.antt =====
-- `Region_list::find_free_rev`: the last free place in a search area, and where it goes wrong.
use bootstrap.Prelude.{
  ℕ, zero, suc, ◌+◌, ◌-◌, ◌≤◌, ◌<◌, ◌^◌, ◌≡◌, refl, ◌⊎◌, inl, inr, false, List, [], ◌∷◌, none, some,
  ok, err, assertion, arith, leb, ltb, if◌then◌else◌, Bool-cases, Option-cases, length, sub_word,
}
use bootstrap.Align.{Align, IsAlign}
use bootstrap.Region.{Region, sized}
use bootstrap.RegionList.{find, find_free_rev, find_free_rev_from, take_or_go}
use bootstrap.RegionList.Order.{find-overlaps}
use bootstrap.RegionList.FindFree.{IsFit, span, sized-eq-span, find-none-all, multiple-le}

-- How many regions begin at an address or in front of it.
abbrev earlier : List Region → ℕ → ℕ
earlier [] s = 0
earlier (r ∷ rs) s = (if leb r.begin s then 1 else 0) + earlier rs s

earlier-le-length : (rs : List Region) (s : ℕ) → earlier rs s ≤ length rs
earlier-le-length [] s = omega arith
earlier-le-length (r ∷ rs) s = ground (arith, earlier-le-length rs s)

earlier_mono : (rs : List Region) (s t : ℕ) → t ≤ s → earlier rs t ≤ earlier rs s
earlier_mono [] s t h = omega arith
earlier_mono (r ∷ rs) s t h = ground (arith, earlier_mono rs s t)

earlier-lt :
    (rs : List Region) (o z : Region) (s t : ℕ)
    → find rs o ≡ some z
    → z.begin ≤ s
    → t < z.begin
    → earlier rs t < earlier rs s
unfolding find
earlier-lt [] o z s t e h k = cc
earlier-lt (r ∷ rs) o z s t e h k = ground (arith, earlier-lt rs o z s t, earlier_mono rs s t)

-- Every region leaves room in front of it for a place of some size.
abbrev pub High : ℕ → List Region → Type 0
High n [] = Unit
High n (r ∷ rs) = (n ≤ r.begin) × High n rs

High-find : (n : ℕ) (rs : List Region) (o z : Region) → High n rs → find rs o ≡ some z → n ≤ z.begin
unfolding find
High-find n [] o z h e = cc
High-find n (r ∷ rs) o z h e = ground (arith, High-find n rs o z h.1)

-- The highest fit, or 0 if there is none.
abbrev pub LastFit : List Region → Region → ℕ → ℕ → ℕ → Type 0
LastFit rs search size align res =
    (IsFit rs search size align res × ((q : ℕ) → IsFit rs search size align q → q ≤ res))
    ⊎ ((res ≡ 0) × ((q : ℕ) → ¬ IsFit rs search size align q))

module _ (a : Align) (al : IsAlign a) (rs : List Region) (search : Region) (size align : ℕ) where
  -- No fit ends behind the begin of a region that overlaps the last place to try.
  fit-below :
      (z : Region) (place q : ℕ)
      → 0 < size
      → find rs (span place size) ≡ some z
      → q ≤ place
      → IsFit rs search size align q
      → q + size ≤ z.begin
  fit-below z place q s e h f = ground (
    arith,
    find-none-all rs (span place size) (span q size) z e f.free,
    find-overlaps rs (span place size) z e,
  )

  fit-le-trunc : (x q : ℕ) → q ≤ x → IsFit rs search size align q → q ≤ a.trunc_size x align
  fit-le-trunc x q h f =
      multiple-le (2 ^ align) q (a.trunc_size x align) f.aligned (al.trunc_multiple x align)
        (omega (arith, al.lt_trunc x align))

  find_free_rev_from-LastFit :
      (fuel end : ℕ)
      → 0 < size
      → High size rs
      → earlier rs end < fuel
      → size ≤ end + 1
      → end < 2 ^ 64
      → end ≤ search.end
      → ((q : ℕ) → IsFit rs search size align q → q + size ≤ end + 1)
      → (res : ℕ) × (find_free_rev_from a fuel rs search.begin size align end ≡ ok res)
        × LastFit rs search size align res
  unfolding find_free_rev_from
  find_free_rev_from-LastFit zero end s high f w b le inv = absurd (omega arith)
  find_free_rev_from-LastFit (suc fuel) end s high f w b le inv =
      rw wrap_size (elim (Bool-cases (ltb end' search.begin)) [
        | inl out ↦ (0, rw out, inr (refl, λ q fit. ground (arith, last q fit, fit.above)))
        | inr fits ↦ elim (Option-cases (find rs (span end' size))) [
          | inl free ↦ (end', rw (fits, as_span, free, take_or_go), inl (fit free fits, last))
          | inr (z, e) ↦
              let (res, p, o) =
                find_free_rev_from-LastFit fuel (z.begin - 1) s high (fewer z e) (room z e)
                  (small z e) (below z e) (λ q f. fit_rest z e q f) in
              (res, rw (fits, as_span, e, take_or_go, wrap z e) p, o)
        ]
      ])
    where
      end' : ℕ
      end' = a.trunc_size (end + 1 - size) align

      wrap_size : sub_word end (sub_word size 1) ≡ end + 1 - size
      wrap_size = omega arith

      end_le : end' + size ≤ end + 1
      end_le = omega (arith, al.trunc_le (end + 1 - size) align)

      as_span : sized end' size ≡ ok (span end' size)
      as_span = sized-eq-span end' size s (omega (arith, end_le))

      last : (q : ℕ) → IsFit rs search size align q → q ≤ end'
      last q fit = fit-le-trunc (end + 1 - size) q (omega (arith, inv q fit)) fit

      fit :
          find rs (span end' size) ≡ none
          → ltb end' search.begin ≡ false
          → IsFit rs search size align end'
      fit free fits = record {
        aligned = al.trunc_multiple (end + 1 - size) align;
        above = ground arith;
        inside = omega (arith, end_le);
        free = free;
      }

      front : (z : Region) → find rs (span end' size) ≡ some z → z.begin ≤ end
      front z e = ground (arith, find-overlaps rs (span end' size) z e, end_le)

      behind : (z : Region) → find rs (span end' size) ≡ some z → size ≤ z.begin
      behind z e = High-find size rs (span end' size) z high e

      room : (z : Region) → find rs (span end' size) ≡ some z → size ≤ z.begin - 1 + 1
      room z e = omega (arith, behind z e)

      fewer : (z : Region) → find rs (span end' size) ≡ some z → earlier rs (z.begin - 1) < fuel
      fewer z e = omega (
        arith,
        earlier-lt rs (span end' size) z end (z.begin - 1) e (front z e)
            (omega (arith, behind z e)),
      )

      small : (z : Region) → find rs (span end' size) ≡ some z → z.begin - 1 < 2 ^ 64
      small z e = omega (arith, front z e)

      below : (z : Region) → find rs (span end' size) ≡ some z → z.begin - 1 ≤ search.end
      below z e = omega (arith, front z e)

      fit_rest :
          (z : Region)
          → find rs (span end' size) ≡ some z
          → (q : ℕ) → IsFit rs search size align q
          → q + size ≤ z.begin - 1 + 1
      fit_rest z e q f = omega (arith, fit-below z end' q s e (last q f) f, behind z e)

      wrap : (z : Region) → find rs (span end' size) ≡ some z → sub_word z.begin 1 ≡ z.begin - 1
      wrap z e = omega (arith, front z e, behind z e)

-- `find_free_rev` returns, and what it returns is the highest aligned place for the rounded size in
-- the search area that overlaps no region, or 0 if there is none, provided that the area is not
-- smaller than the size and the regions begin no lower than the size, so that no address wraps
-- around.
pub find_free_rev-LastFit :
    (a : Align) (al : IsAlign a) (rs : List Region) (search : Region) (size align : ℕ)
    → 0 < a.round_size size align
    → High (a.round_size size align) rs
    → a.round_size size align ≤ search.end + 1
    → search.end < 2 ^ 64
    → (res : ℕ) × (find_free_rev a rs search size align ≡ ok res)
      × LastFit rs search (a.round_size size align) align res
unfolding find_free_rev
find_free_rev-LastFit a al rs search size align s high w b =
    find_free_rev_from-LastFit a al rs search (a.round_size size align) align (suc (length rs))
      search.end s high (omega (arith, earlier-le-length rs search.end)) w b (omega arith)
      (λ q fit. fit.inside)

-- A search area that ends below the size makes the address wrap around, and the machine stops on an
-- assertion instead of reporting that nothing is free.
find_free_rev_underflow :
    (a : Align) (al : IsAlign a) (rs : List Region) (search : Region) (size align : ℕ)
    → search.begin ≤ search.end
    → 2 ^ align ≤ search.end + 1
    → search.end + 1 < a.round_size size align
    → a.round_size size align ≤ 2 ^ 63
    → find_free_rev a rs search size align ≡ err assertion
unfolding find_free_rev find_free_rev_from sized
find_free_rev_underflow a al rs search size align b m h w = ground (
  arith,
  al.trunc_le (sub_word search.end (sub_word (a.round_size size align) 1)) align,
  al.lt_trunc (sub_word search.end (sub_word (a.round_size size align) 1)) align,
)
