-- ===== src/Memory/Place.antt =====
-- Places in memory: what lies in one region of a list, and in no region of another.
use bootstrap.Prelude.{
  ℕ, ◌+◌, ◌≤◌, ◌<◌, ◌%◌, ◌^◌, ◌≡◌, refl, ◌⊎◌, inl, inr, Bool-cases, Bool, true, false, ◌||◌, List,
  [], ◌∷◌, none, some, arith,
}
use bootstrap.Region.{Region, contains}
use bootstrap.RegionList.{find}
use bootstrap.RegionList.Order.{Above, covered}
use bootstrap.RegionList.FindFree.{span, Low}
use bootstrap.Memory.{Memory}

-- Whether one region of a list contains another region.
abbrev pub fits_in : List Region → Region → Bool
fits_in [] o = false
fits_in (r ∷ rs) o = contains r o || fits_in rs o

pub fits_in-lower :
    (lo : ℕ) (rs : List Region) (o : Region) → Above lo rs → fits_in rs o ≡ true → lo ≤ o.begin
fits_in-lower lo [] o v e = cc
fits_in-lower lo (r ∷ rs) o v e = ground (arith, fits_in-lower (r.end + 1) rs o v.3)

-- What lies in an area and in a list lies in the first region that overlaps the area, or behind it.
pub fits_in-find :
    (lo : ℕ) (rs : List Region) (area o r : Region)
    → Above lo rs
    → find rs area ≡ some r
    → area.begin ≤ o.begin
    → o.begin ≤ o.end
    → o.end ≤ area.end
    → fits_in rs o ≡ true
    → (contains r o ≡ true) ⊎ (r.end < o.begin)
unfolding find
fits_in-find lo [] area o r v e b k h f = cc
fits_in-find lo (x ∷ rs) area o r v e b k h f =
    ground (arith, fits_in-find (x.end + 1) rs area o r v.3, fits_in-lower (x.end + 1) rs o v.3)

pub fits_in_of_find-none :
    (rs : List Region) (area o : Region)
    → find rs area ≡ none
    → area.begin ≤ o.begin
    → o.begin ≤ o.end
    → o.end ≤ area.end
    → fits_in rs o ≡ false
unfolding find
fits_in_of_find-none [] area o e b k h = refl
fits_in_of_find-none (x ∷ rs) area o e b k h = ground (arith, fits_in_of_find-none rs area o)

pub fits_in_of_contains :
    (rs : List Region) (area o r : Region)
    → find rs area ≡ some r
    → contains r o ≡ true
    → fits_in rs o ≡ true
unfolding find
fits_in_of_contains [] area o r e h = cc
fits_in_of_contains (x ∷ rs) area o r e h = ground (arith, fits_in_of_contains rs area o r)

pub find-range :
    (lo : ℕ) (rs : List Region) (o r : Region)
    → Above lo rs
    → find rs o ≡ some r
    → (r.begin ≤ r.end) × (r.end < 2 ^ 64)
unfolding find
find-range lo [] o r v e = cc
find-range lo (x ∷ rs) o r v e = ground (arith, find-range (x.end + 1) rs o r v.3)

-- A place in RAM is covered to its last byte, and its end leaves the room of the region behind it.
pub covered-fits_in :
    (rs : List Region) (q size x : ℕ)
    → fits_in rs (span q size) ≡ true
    → q ≤ x
    → x < q + size
    → covered rs x ≡ true
covered-fits_in [] q size x f ge lt = cc
covered-fits_in (r ∷ rs) q size x f ge lt = elim (Bool-cases (contains r (span q size))) [
  | inl t ↦ ground (arith, t, ge, lt)
  | inr t ↦ ground (arith, covered-fits_in rs q size x, t, f, ge, lt)
]

pub end-fits_in :
    (rs : List Region) (n q size : ℕ)
    → Low n rs
    → fits_in rs (span q size) ≡ true
    → q + size + n ≤ 2 ^ 64
end-fits_in [] n q size v f = cc
end-fits_in (r ∷ rs) n q size v f = elim (Bool-cases (contains r (span q size))) [
  | inl t ↦ ground (arith, t, v.0)
  | inr t ↦ ground (arith, end-fits_in rs n q size v.1, t, f)
]

-- An aligned place between two addresses that lies in one region of `sysalloc` and overlaps none
-- of the regions in use.
pub record IsPlace (m : Memory) (size align lo hi q : ℕ) : Type 0 where
  pub aligned : q % 2 ^ align ≡ 0
  pub above : lo ≤ q
  pub inside : q + size ≤ hi + 1
  pub allowed : fits_in m.sysalloc (span q size) ≡ true
  pub free : find m.regions (span q size) ≡ none

-- The first of the places that satisfy a predicate, or 0 if there is none.
abbrev pub First {ℓ} : (ℕ → Type ℓ) → ℕ → Type ℓ
First P res = (P res × ((q : ℕ) → P q → res ≤ q)) ⊎ ((res ≡ 0) × ((q : ℕ) → ¬ P q))
