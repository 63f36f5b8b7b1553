-- ===== src/Memory/Search.antt =====
-- The inner loop of `Memory::find_free_ram`: the first place in an area that `sysalloc` allows.
use bootstrap.Prelude.{
  ℕ, zero, suc, ◌+◌, ◌≤◌, ◌<◌, ◌^◌, ◌≡◌, refl, ◌⊎◌, inl, inr, true, false, ◌||◌, not, none, some,
  Result, ok, arith, leb, ltb, ◌==◌, if◌then◌else◌, Bool-cases, Option-cases, add_word, min, max,
  ◌>>=◌,
}
use bootstrap.Align.{Align, IsAlign}
use bootstrap.Region.{Region, intersect, set_begin, overlaps}
use bootstrap.RegionList.{find}
use bootstrap.RegionList.Order.{Above, find-overlaps}
use bootstrap.RegionList.FindFree.{span, later, later-lt, Low, IsFit, FirstFit, find_free-FirstFit}
use bootstrap.Memory.{Memory, search_part, search_found, search_up}
use bootstrap.Memory.Place.{
  fits_in-find, fits_in_of_find-none, fits_in_of_contains, find-range, IsPlace, First,
}

module _ (a : Align) (al : IsAlign a) (m : Memory) (size align : ℕ) where
  abbrev rounded : ℕ
  rounded = a.round_size size align

  abbrev spare : ℕ
  spare = 2 ^ align + rounded

  -- The part of an area that a region of `sysalloc` allows.
  abbrev part_of : Region → Region → Region
  part_of r area = record {
    begin = max r.begin area.begin;
    end = min r.end area.end;
    name = r.name;
    type = r.type;
    sub_type = r.sub_type;
    eager = false;
  }

  intersect_lem :
      (r area : Region)
      → r.begin ≤ r.end
      → area.begin ≤ area.end
      → overlaps r area ≡ true
      → intersect r area ≡ ok (part_of r area)
  unfolding intersect
  intersect_lem r area h k e = ground arith

  abbrev InArea : Region → ℕ → Type 0
  InArea area = IsPlace m rounded align area.begin area.end

  -- A fit in the part is a place in the area, and a place in the area is a fit in the part or lies
  -- behind the region.
  place_of_fit :
      (r area : Region) (q : ℕ)
      → 0 < rounded
      → find m.sysalloc area ≡ some r
      → IsFit m.regions (part_of r area) rounded align q
      → InArea area q
  place_of_fit r area q s e f = record {
    aligned = f.aligned;
    above = omega (arith, f.above);
    inside = omega (arith, f.inside);
    allowed =
        fits_in_of_contains m.sysalloc area (span q rounded) r e
          (ground (arith, f.above, f.inside));
    free = f.free;
  }

  split_place :
      (r area : Region) (q : ℕ)
      → 0 < rounded
      → Above 0 m.sysalloc
      → find m.sysalloc area ≡ some r
      → InArea area q
      → IsFit m.regions (part_of r area) rounded align q ⊎ (r.end < q)
  split_place r area q s v e p =
      elim (fits_in-find 0 m.sysalloc area (span q rounded) r v e p.above (omega (arith, s))
        (omega (arith, p.inside, s)) p.allowed) [
          | inl c ↦ inl (record {
            aligned = p.aligned;
            above = ground (arith, p.above);
            inside = ground (arith, p.inside, s);
            free = p.free;
          })
          | inr b ↦ inr b
        ]

  no_place : (area : Region) (q : ℕ) → 0 < rounded → find m.sysalloc area ≡ none → ¬ InArea area q
  no_place area q s e p =
      ground (
        arith,
        fits_in_of_find-none m.sysalloc area (span q rounded) e,
        p.above,
        p.inside,
        p.allowed,
      )

  -- The area behind a region.
  abbrev behind : Region → Region → Region
  behind r area = record area { begin = r.end + 1 }

  place_behind : (r area : Region) (q : ℕ) → r.end < q → InArea area q → InArea (behind r area) q
  place_behind r area q l p = record {
    aligned = p.aligned;
    above = omega arith;
    inside = p.inside;
    allowed = p.allowed;
    free = p.free;
  }

  place_before :
      (r area : Region) (q : ℕ) → area.begin ≤ r.end → InArea (behind r area) q → InArea area q
  place_before r area q b p = record {
    aligned = p.aligned;
    above = omega (arith, p.above);
    inside = p.inside;
    allowed = p.allowed;
    free = p.free;
  }

  -- Without a fit in the part, the places in the area lie behind the region.
  place_narrow :
      (r area : Region) (q : ℕ)
      → 0 < rounded
      → Above 0 m.sysalloc
      → find m.sysalloc area ≡ some r
      → ((q : ℕ) → ¬ IsFit m.regions (part_of r area) rounded align q)
      → InArea area q
      → InArea (behind r area) q
  place_narrow r area q s v e no_fit p = elim (split_place r area q s v e p) [
    | inl f ↦ absurd (no_fit q f)
    | inr l ↦ place_behind r area q l p
  ]

  First-behind :
      (r area : Region) (res : ℕ)
      → area.begin ≤ r.end
      → ((q : ℕ) → InArea area q → InArea (behind r area) q)
      → First (InArea (behind r area)) res
      → First (InArea area) res
  First-behind r area res b narrow (inl (p, least)) =
      inl (place_before r area res b p, λ q place. least q (narrow q place))
  First-behind r area res b narrow (inr (z, no_place')) = inr (z, λ q p. no_place' q (narrow q p))

  -- At the end of the area the loop is left.
  First-last :
      (r area : Region)
      → 0 < rounded
      → area.end ≤ r.end
      → ((q : ℕ) → InArea area q → InArea (behind r area) q)
      → First (InArea area) 0
  First-last r area s b narrow = inr (refl, λ q p. omega (arith, (narrow q p).above, p.inside, s))

  -- A round of the loop, from what the rounds after it return.
  search_found-First :
      (go : Region → Result ℕ) (r area : Region)
      → 0 < rounded
      → Above 0 m.sysalloc
      → Low spare m.regions
      → find m.sysalloc area ≡ some r
      → 0 < area.begin
      → area.begin ≤ area.end
      → area.end + 1 + spare ≤ 2 ^ 64
      → (r.end < area.end
          → (res : ℕ) × (go (behind r area) ≡ ok res) × First (InArea (behind r area)) res)
      → (res : ℕ) × (search_found a m size align area go (some r) ≡ ok res)
        × First (InArea area) res
  unfolding search_part set_begin
  search_found-First go r area s v low e z k w ih =
      let (to, p, fit) =
        find_free-FirstFit a al m.regions (part_of r area) size align s low
          (omega (arith, meets)) in
      rw intersects (rw (p, search_part) (rest to fit))
    where
      bounds : (r.begin ≤ r.end) × (r.end < 2 ^ 64)
      bounds = find-range 0 m.sysalloc area r v e

      meets : (area.begin ≤ r.end) × (r.begin ≤ area.end)
      meets = ground (arith, find-overlaps m.sysalloc area r e)

      intersects : intersect r area ≡ ok (part_of r area)
      intersects = intersect_lem r area bounds.0 k (find-overlaps m.sysalloc area r e)

      wrap : add_word (min r.end area.end) 1 ≡ min r.end area.end + 1
      wrap = omega (arith, w)

      after : ℕ → Result ℕ
      after to =
          if not (to == 0)
          then ok to
          else if ltb area.end (add_word (min r.end area.end) 1)
              || ltb (add_word (min r.end area.end) 1) (min r.end area.end)
          then ok 0
          else (set_begin area (add_word (min r.end area.end) 1) >>= go)

      rest :
          (to : ℕ)
          → FirstFit m.regions (part_of r area) rounded align to
          → (res : ℕ) × (after to ≡ ok res) × First (InArea area) res
      rest to (inl (fit, least)) = (
        to,
        ground (arith, fit.above),
        inl (
          place_of_fit r area to s e fit,
          λ q p. elim (split_place r area q s v e p) [
            | inl f ↦ least q f
            | inr l ↦ omega (arith, fit.inside)
          ],
        ),
      )
      rest to (inr (t, no_fit)) =
          let narrow : (q : ℕ) → InArea area q → InArea (behind r area) q =
            λ q. place_narrow r area q s v e no_fit in
          elim (Bool-cases (leb area.end r.end)) [
            | inl l ↦ (0, ground (arith, wrap), First-last r area s (ground arith) narrow)
            | inr l ↦
                let (res, o, f) = ih (ground arith) in
                (res, ground (arith, wrap, o), First-behind r area res meets.0 narrow f)
          ]

  pub search_up-First :
      (fuel : ℕ) (area : Region)
      → 0 < rounded
      → Above 0 m.sysalloc
      → Low spare m.regions
      → later m.sysalloc area.begin < fuel
      → 0 < area.begin
      → area.begin ≤ area.end
      → area.end + 1 + spare ≤ 2 ^ 64
      → (res : ℕ) × (search_up a m size align fuel area ≡ ok res) × First (InArea area) res
  unfolding search_up
  search_up-First zero area s v low f z k w = absurd (omega arith)
  search_up-First (suc fuel) area s v low f z k w = elim (Option-cases (find m.sysalloc area)) [
    | inl e ↦ (0, rw e, inr (refl, λ q. no_place area q s e))
    | inr (r, e) ↦ rw e (
        search_found-First (λ rest. search_up a m size align fuel rest) r area s v low e z k w
          (λ (b : r.end < area.end).
            search_up-First fuel (behind r area) s v low (fewer r e) (omega arith) (omega arith) w))
  ]
    where
      fewer : (r : Region) → find m.sysalloc area ≡ some r → later m.sysalloc (r.end + 1) < fuel
      fewer r e = omega (
        arith,
        later-lt m.sysalloc area r area.begin (r.end + 1) e
            (ground (arith, find-overlaps m.sysalloc area r e)) (omega arith),
      )
