-- ===== src/Memory/FindFreeRam.antt =====
-- `Memory::find_free_ram` without a callback: the first place in RAM that `sysalloc` allows.
use bootstrap.Prelude.{
  ℕ, suc, ◌+◌, ◌≤◌, ◌<◌, ◌^◌, ◌≡◌, refl, ◌⊎◌, inl, inr, true, false, ◌||◌, List, [], ◌∷◌, none,
  Result, ok, arith, leb, Bool-cases, length, min, max, ap,
}
use bootstrap.Align.{Align, IsAlign}
use bootstrap.Region.{Region, range, no_mem, contains}
use bootstrap.RegionList.Order.{Above}
use bootstrap.RegionList.FindFree.{span, later-le-length, Low}
use bootstrap.Memory.{
  Memory, search_ram, find_free_ram, search_one, search_area, found_or, validated,
}
use bootstrap.Memory.Place.{fits_in, fits_in-lower, IsPlace, First}
use bootstrap.Memory.Search.{search_up-First}

-- A place, between two addresses, that lies in one region of RAM besides.
pub record InRam (m : Memory) (ram : List Region) (size align lo hi q : ℕ) : Type 0 where
  pub place : IsPlace m size align lo hi q
  pub present : fits_in ram (span q size) ≡ true

validated_null :
    (m : Memory) (area : Region) (node : ℕ)
    → m.validate ≡ none
    → validated m.validate area node ≡ (true, area)
unfolding validated
validated_null m area node h = rw (ap (λ f. validated f area node) h)

found_or_zero : (to : ℕ) (rest : Result ℕ) → to ≡ 0 → found_or to rest ≡ rest
found_or_zero to rest h = ground arith

module _ (a : Align) (al : IsAlign a) (m : Memory) (size align hi : ℕ) where
  abbrev pub rounded : ℕ
  rounded = a.round_size size align

  abbrev pub spare : ℕ
  spare = 2 ^ align + rounded

  abbrev Fits : List Region → ℕ → ℕ → Type 0
  Fits rs lo = InRam m rs rounded align lo hi

  -- The area that is searched in one RAM region.
  abbrev whole : Region → ℕ → Region
  whole rr lo = record {
    begin = max rr.begin lo;
    end = min rr.end hi;
    name = 0;
    type = no_mem;
    sub_type = 0;
    eager = false;
  }

  abbrev InWhole : Region → ℕ → ℕ → Type 0
  InWhole rr lo = IsPlace m rounded align (max rr.begin lo) (min rr.end hi)

  range-whole :
      (rr : Region) (lo : ℕ)
      → max rr.begin lo ≤ min rr.end hi
      → range (max rr.begin lo) (min rr.end hi) ≡ ok (whole rr lo)
  unfolding range
  range-whole rr lo h = ground arith

  -- A fit in a list is one in the area of its first region, or one in the rest of the list.
  split_fit :
      (b : ℕ) (rr : Region) (rs : List Region) (lo q : ℕ)
      → 0 < rounded
      → Above b (rr ∷ rs)
      → Fits (rr ∷ rs) lo q
      → InWhole rr lo q ⊎ (Fits rs lo q × (rr.end < q))
  split_fit b rr rs lo q s v f = elim (Bool-cases (contains rr (span q rounded))) [
    | inl c ↦ inl (record {
      aligned = f.place.aligned;
      above = ground (arith, f.place.above);
      inside = ground (arith, f.place.inside, s);
      allowed = f.place.allowed;
      free = f.place.free;
    })
    | inr c ↦
        let there : fits_in rs (span q rounded) ≡ true = ground (arith, f.present) in
        inr (
          record { place = f.place; present = there },
          omega (arith, fits_in-lower (rr.end + 1) rs (span q rounded) v.3 there),
        )
  ]

  fit_of_whole :
      (rr : Region) (rs : List Region) (lo q : ℕ)
      → 0 < rounded
      → InWhole rr lo q
      → Fits (rr ∷ rs) lo q
  fit_of_whole rr rs lo q s p = record {
    place = record {
      aligned = p.aligned;
      above = omega (arith, p.above);
      inside = omega (arith, p.inside);
      allowed = p.allowed;
      free = p.free;
    };
    present = ground (arith, p.above, p.inside);
  }

  raise : (rs : List Region) (lo lo' q : ℕ) → lo' ≤ q → Fits rs lo q → Fits rs lo' q
  raise rs lo lo' q h f = record {
    place = record {
      aligned = f.place.aligned;
      above = h;
      inside = f.place.inside;
      allowed = f.place.allowed;
      free = f.place.free;
    };
    present = f.present;
  }

  cons_fit : (rr : Region) (rs : List Region) (lo q : ℕ) → Fits rs lo q → Fits (rr ∷ rs) lo q
  cons_fit rr rs lo q f = record { place = f.place; present = ground (arith, f.present) }

  -- The rest of the list decides, if nothing fits in the first region.
  First-rest :
      (b : ℕ) (rr : Region) (rs : List Region) (lo lo' res : ℕ)
      → 0 < rounded
      → Above b (rr ∷ rs)
      → lo ≤ lo'
      → ((q : ℕ) → InWhole rr lo q → ⊥)
      → ((q : ℕ) → Fits rs lo q → lo' ≤ q)
      → First (Fits rs lo') res
      → First (Fits (rr ∷ rs) lo) res
  First-rest b rr rs lo lo' res s v h no_place up (inl (p, least)) = inl (
    cons_fit rr rs lo res (raise rs lo' lo res (omega (arith, p.place.above)) p),
    λ q f. elim (split_fit b rr rs lo q s v f) [
      | inl w ↦ absurd (no_place q w)
      | inr (f', _) ↦ least q (raise rs lo lo' q (up q f') f')
    ],
  )
  First-rest b rr rs lo lo' res s v h no_place up (inr (z, no_fit)) = inr (
    z,
    λ q f. elim (split_fit b rr rs lo q s v f) [
      | inl w ↦ no_place q w
      | inr (f', _) ↦ no_fit q (raise rs lo lo' q (up q f') f')
    ],
  )

  First-here :
      (b : ℕ) (rr : Region) (rs : List Region) (lo res : ℕ)
      → 0 < rounded
      → Above b (rr ∷ rs)
      → InWhole rr lo res
      → ((q : ℕ) → InWhole rr lo q → res ≤ q)
      → First (Fits (rr ∷ rs) lo) res
  First-here b rr rs lo res s v p least = inl (
    fit_of_whole rr rs lo res s p,
    λ q f. elim (split_fit b rr rs lo q s v f) [
      | inl w ↦ least q w
      | inr (_, l) ↦ omega (arith, p.inside, s)
    ],
  )

  -- A place of two bytes or more does not lie in a region that the loop skips.
  skipped :
      (rr : Region) (lo q : ℕ)
      → 1 < rounded
      → (leb rr.end lo || leb hi rr.begin) ≡ true
      → ¬ InWhole rr lo q
  skipped rr lo q s e p = ground (arith, p.above, p.inside)

  -- A round of the outer loop, from what the rounds after it return.
  search_one-First :
      (b node : ℕ) (go : ℕ → Result ℕ) (rr : Region) (rs : List Region) (lo : ℕ)
      → m.validate ≡ none
      → 1 < rounded
      → Above 0 m.sysalloc
      → Low spare m.regions
      → Above b (rr ∷ rs)
      → rr.end + 1 + spare ≤ 2 ^ 64
      → 0 < lo
      → lo ≤ hi
      → ((lo' : ℕ) → lo ≤ lo' → lo' ≤ hi → (res : ℕ) × (go lo' ≡ ok res) × First (Fits rs lo') res)
      → (res : ℕ) × (search_one a m size align hi node go rr lo ≡ ok res)
        × First (Fits (rr ∷ rs) lo) res
  unfolding search_one search_area
  search_one-First b node go rr rs lo nv s v low vr lr z h ih =
      elim (Bool-cases (leb rr.end lo || leb hi rr.begin)) [
        | inl skip ↦
            let (res, p, f) = ih lo (omega arith) h in
            (
              res,
              rw (skip, search_one) p,
              First-rest b rr rs lo lo res (omega arith) vr (omega arith)
                  (λ q. skipped rr lo q s skip) (λ q f. f.place.above) f,
            )
        | inr enter ↦
            let fits : max rr.begin lo ≤ min rr.end hi = ground arith in
            let (to, p, f) =
              search_up-First a al m size align (suc (length m.sysalloc)) (whole rr lo)
                (omega arith) v low (omega (arith, later-le-length m.sysalloc (max rr.begin lo)))
                (omega arith) fits (omega arith) in
            rw (enter, search_one)
              (rw (range-whole rr lo fits, validated_null m (whole rr lo) node nv, search_area, p)
                (rest fits to f))
      ]
    where
      rest :
          max rr.begin lo ≤ min rr.end hi
          → (to : ℕ) → First (InWhole rr lo) to
          → (res : ℕ) × (found_or to (go (max rr.begin lo)) ≡ ok res)
            × First (Fits (rr ∷ rs) lo) res
      rest fits to (inl (p, least)) =
          (to, ground (arith, p.above), First-here b rr rs lo to (omega arith) vr p least)
      rest fits to (inr (t, no_place)) =
          let (res, p, f) = ih (max rr.begin lo) (omega arith) (omega arith) in
          (
            res,
            rw (found_or_zero to _ t) p,
            First-rest b rr rs lo (max rr.begin lo) res (omega arith) vr (omega arith) no_place
                (λ q f.
                  omega (arith, fits_in-lower (rr.end + 1) rs (span q rounded) vr.3 f.present))
                f,
          )

  search_ram-First :
      (b node : ℕ) (rs : List Region) (lo : ℕ)
      → m.validate ≡ none
      → 1 < rounded
      → Above 0 m.sysalloc
      → Low spare m.regions
      → Above b rs
      → Low spare rs
      → 0 < lo
      → lo ≤ hi
      → (res : ℕ) × (search_ram a m size align hi node rs lo ≡ ok res) × First (Fits rs lo) res
  unfolding search_ram
  search_ram-First b node [] lo nv s v low vr lr z h = (0, refl, inr (refl, λ q f. cc (f.present)))
  search_ram-First b node (rr ∷ rs) lo nv s v low vr lr z h =
      search_one-First b node (λ lo'. search_ram a m size align hi node rs lo') rr rs lo nv s v low
        vr lr.0 z h
        (λ lo' up below.
          search_ram-First (rr.end + 1) node rs lo' nv s v low vr.3 lr.1 (omega arith) below)

  -- Without a callback `find_free_ram` returns, and what it returns is the lowest aligned place for
  -- the rounded size, from `min_addr` and 8 to `hi`, that lies in one region of RAM and one of
  -- `sysalloc` and overlaps no region in use, or 0 if there is none; the lists are in order, the
  -- size is two bytes or more, and no address wraps around.
  pub find_free_ram-First :
      (min_addr node : ℕ)
      → m.validate ≡ none
      → 1 < rounded
      → Above 0 m.ram
      → Above 0 m.sysalloc
      → Low spare m.ram
      → Low spare m.regions
      → max min_addr 8 ≤ hi
      → (res : ℕ) × (find_free_ram a m size align min_addr hi node ≡ ok res)
        × First (InRam m m.ram rounded align (max min_addr 8) hi) res
  unfolding find_free_ram
  find_free_ram-First min_addr node nv s vr v lr low h =
      search_ram-First 0 node m.ram (max min_addr 8) nv s v low vr lr (omega arith) h
