-- ===== src/RegionList/Order.antt =====
-- The order that `add_nolimitcheck` keeps in class Region_list, and what the searches find in it.
use bootstrap.Prelude.{
  ℕ, ◌+◌, ◌≤◌, ◌<◌, ◌^◌, ◌≡◌, refl, ◌↔◌, inl, inr, Bool, true, false, ◌||◌, none, some, List, [],
  ◌∷◌, arith, Bool-cases, max,
}
use bootstrap.Region.{Region, overlaps, holds}
use bootstrap.RegionList.{find}

-- Ascending and disjoint ranges of words, the first of them not below an address.
abbrev pub Above : ℕ → List Region → Type 0
Above lo [] = Unit
Above lo (r ∷ rs) = (lo ≤ r.begin) × (r.begin ≤ r.end) × (r.end < 2 ^ 64) × Above (r.end + 1) rs

abbrev pub IsSorted : List Region → Type 0
IsSorted rs = Above 0 rs

-- Ranges of words, in any order.
abbrev pub AllRanges : List Region → Type 0
AllRanges [] = Unit
AllRanges (r ∷ rs) = (r.begin ≤ r.end) × (r.end < 2 ^ 64) × AllRanges rs

-- Whether some region holds the byte at an address.
abbrev pub covered : List Region → ℕ → Bool
covered [] x = false
covered (r ∷ rs) x = holds r x || covered rs x

pub Above-mono : (lo hi : ℕ) (rs : List Region) → lo ≤ hi → Above hi rs → Above lo rs
Above-mono lo hi [] h v = tt
Above-mono lo hi (r ∷ rs) h v = (omega arith, v.1, v.2, v.3)

pub AllRanges-Above : (lo : ℕ) (rs : List Region) → Above lo rs → AllRanges rs
AllRanges-Above lo [] v = tt
AllRanges-Above lo (r ∷ rs) v = (v.1, v.2, AllRanges-Above (r.end + 1) rs v.3)

-- No byte below the bound is covered.
pub covered-below : (lo x : ℕ) (rs : List Region) → Above lo rs → x < lo → covered rs x ≡ false
covered-below lo x [] v h = refl
covered-below lo x (r ∷ rs) v h = ground (arith, covered-below (r.end + 1) x rs v.3)

-- What `find` returns overlaps.
pub find-overlaps : (rs : List Region) (o z : Region) → find rs o ≡ some z → overlaps z o ≡ true
unfolding find
find-overlaps [] o z e = cc
find-overlaps (c ∷ rs) o z e = ground (arith, find-overlaps rs o z)

covered_of_find-none :
    (rs : List Region) (o : Region) (x : ℕ)
    → find rs o ≡ none
    → holds o x ≡ true
    → covered rs x ≡ false
unfolding find
covered_of_find-none [] o x e h = refl
covered_of_find-none (c ∷ rs) o x e h = ground (arith, covered_of_find-none rs o x)

-- A byte of an overlap.
abbrev common : Region → Region → ℕ
common c o = max c.begin o.begin

holds-common :
    (c o : Region)
    → c.begin ≤ c.end
    → o.begin ≤ o.end
    → overlaps c o ≡ true
    → (holds c (common c o) ≡ true) × (holds o (common c o) ≡ true)
holds-common c o h k e = ground arith

find-none_of_uncovered :
    (rs : List Region) (o : Region)
    → AllRanges rs
    → o.begin ≤ o.end
    → ((x : ℕ) → holds o x ≡ true → covered rs x ≡ false)
    → find rs o ≡ none
unfolding find
find-none_of_uncovered [] o v k h = refl
find-none_of_uncovered (c ∷ rs) o v k h = elim (Bool-cases (overlaps c o)) [
  | inl hit ↦ ground (arith, h (common c o), holds-common c o v.0 k hit)
  | inr miss ↦ rw (miss, find) (find-none_of_uncovered rs o v.2 k (λ x hx. ground (arith, h x hx)))
]

-- `find` returns nothing exactly if no byte of the sought region lies in a region of the list.
pub find-none_iff :
    (rs : List Region) (o : Region)
    → AllRanges rs
    → o.begin ≤ o.end
    → (find rs o ≡ none) ↔ ((x : ℕ) → holds o x ≡ true → covered rs x ≡ false)
find-none_iff rs o v k = (λ e x. covered_of_find-none rs o x e, find-none_of_uncovered rs o v k)
