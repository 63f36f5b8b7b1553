-- ===== src/Boot32/Reservations/Overlap.antt =====
-- `overlaps_reservation`: what it says of the map, and what `reservation_add` loses.
use bootstrap.Prelude.{
  ℕ, suc, ◌+◌, ◌^◌, ◌≤◌, ◌<◌, ◌≡◌, refl, ◌⊎◌, inl, inr, false, List, [], ◌∷◌, arith, ltb, ◌&&◌,
  if◌then◌else◌, length, Bool-cases,
}
use bootstrap.Boot32.Reservations.{Area, overlaps_reservation, area_end, add_32}

-- Every entry ends below 4 GiB and is not empty.
abbrev pub Bounded : List Area → Type 0
Bounded [] = Unit
Bounded (r ∷ rs) = ((0 < r.size) × (r.start + r.size < 2 ^ 32)) × Bounded rs

-- No byte of a range is reserved.
abbrev pub Apart : ℕ → ℕ → List Area → Type 0
Apart p n [] = Unit
Apart p n (r ∷ rs) = ((r.start + r.size ≤ p) ⊎ (p + n ≤ r.start)) × Apart p n rs

-- A range that ends below 4 GiB and passes the test has no reserved byte.
pub overlaps_reservation-Apart :
    (p n : ℕ) (rs : List Area)
    → Bounded rs
    → p + n < 2 ^ 32
    → overlaps_reservation p n rs ≡ 0
    → Apart p n rs
unfolding overlaps_reservation
overlaps_reservation-Apart p n [] b w e = tt
overlaps_reservation-Apart p n (r ∷ rs) b w e =
    elim (Bool-cases (ltb r.start (add_32 p n) && ltb p (area_end r))) [
      | inl h ↦ absurd (ground arith)
      | inr h ↦ (side h, overlaps_reservation-Apart p n rs b.1 w (ground arith))
    ]
  where
    side :
        (ltb r.start (add_32 p n) && ltb p (area_end r)) ≡ false
        → (r.start + r.size ≤ p) ⊎ (p + n ≤ r.start)
    side h = elim (Bool-cases (ltb p (r.start + r.size))) [
      | inl q ↦ inr (ground arith)
      | inr q ↦ inl (ground arith)
    ]

-- How many entries end behind an address.
abbrev pub behind : List Area → ℕ → ℕ
behind [] p = 0
behind (r ∷ rs) p = (if ltb p (r.start + r.size) then 1 else 0) + behind rs p

pub behind-le : (rs : List Area) (p : ℕ) → behind rs p ≤ length rs
behind-le [] p = omega arith
behind-le (r ∷ rs) p = ground (arith, behind-le rs p)

behind_mono : (rs : List Area) (p q : ℕ) → p ≤ q → behind rs q ≤ behind rs p
behind_mono [] p q h = omega arith
behind_mono (r ∷ rs) p q h = ground (arith, behind_mono rs p q)

-- An overlap that is found ends behind the range's start, and fewer entries end behind it.
pub overlap-behind :
    (p n : ℕ) (rs : List Area) (q : ℕ)
    → Bounded rs
    → overlaps_reservation p n rs ≡ suc q
    → (p < suc q) × (suc q < 2 ^ 32) × (behind rs (suc q) < behind rs p)
unfolding overlaps_reservation
overlap-behind p n [] q b e = absurd (omega arith)
overlap-behind p n (r ∷ rs) q b e =
    elim (Bool-cases (ltb r.start (add_32 p n) && ltb p (area_end r))) [
      | inl h ↦ (ground arith, ground arith, ground (arith, behind_mono rs p (suc q)))
      | inr h ↦
          let (x, y, z) = overlap-behind p n rs q b.1 (ground arith) in (x, y, ground (arith, z, x))
    ]

-- A part of a range without a reserved byte passes the test.
pub Apart-overlaps_reservation :
    (p n q k : ℕ) (rs : List Area)
    → Bounded rs
    → p + n < 2 ^ 32
    → Apart p n rs
    → p ≤ q
    → q + k ≤ p + n
    → overlaps_reservation q k rs ≡ 0
unfolding overlaps_reservation
Apart-overlaps_reservation p n q k [] b w x le h = refl
Apart-overlaps_reservation p n q k (r ∷ rs) b w x le h =
    ground (arith, Apart-overlaps_reservation p n q k rs b.1 w x.1 le h, x.0)
