-- ===== src/RegionList/Optimize.antt =====
-- `Region_list::optimize`: merging neighbours of one kind.
use bootstrap.Prelude.{
  ℕ, ◌+◌, ◌*◌, ◌≤◌, ◌<◌, ◌^◌, ◌≡◌, ◌⊎◌, Bool, true, false, ◌||◌, List, [], ◌∷◌, Option, none, some,
  if◌then◌else◌, ◌==◌, length,
}
use bootstrap.Align.{Align, IsAlign, round_page, trunc_page}
use bootstrap.Region.{Region, type_code, holds}
use bootstrap.RegionList.Order.{Above, covered}

-- Whether an address is the first or the last byte of a region.
abbrev pub begins : List Region → ℕ → Bool
begins [] x = false
begins (r ∷ rs) x = r.begin == x || begins rs x

abbrev pub ends : List Region → ℕ → Bool
ends [] x = false
ends (r ∷ rs) x = r.end == x || ends rs x

-- A byte between two regions that are less than two pages apart.
abbrev pub InGap : Align → List Region → ℕ → Type 0
InGap a rs x =
    (y : ℕ) × (z : ℕ) × (ends rs y ≡ true)
    × (begins rs z ≡ true)
    × (y < x)
    × (x < z)
    × (z < y + 2 * 2 ^ a.page_shift)

-- What `optimize` compares of two regions beside their ranges.
abbrev pub kind_of : Region → ℕ × ℕ × ℕ × Bool
kind_of r = (type_code r.type, r.sub_type, r.name, r.eager)

-- The kind of the region that holds an address.
abbrev pub kind_at : List Region → ℕ → Option (ℕ × ℕ × ℕ × Bool)
kind_at [] x = none
kind_at (r ∷ rs) x = if holds r x then some (kind_of r) else kind_at rs x

-- No neighbours are left that `optimize` merges: of one kind, and on the same or on adjacent pages.
abbrev pub Separate : Align → List Region → Type 0
Separate a [] = Unit
Separate a (r ∷ []) = Unit
Separate a (r ∷ n ∷ rs) =
    ((kind_of r ≡ kind_of n) → round_page a r.end < trunc_page a n.begin) × Separate a (n ∷ rs)

pub record Merged (a : Align) (lo : ℕ) (old new : List Region) : Type 0 where
  pub order : Above lo new
  pub shorter : length new ≤ length old
  pub kept : (x : ℕ) → covered old x ≡ true → covered new x ≡ true
  pub kinds : (x : ℕ) (k : ℕ × ℕ × ℕ × Bool) → kind_at old x ≡ some k → kind_at new x ≡ some k
  pub added : (x : ℕ) → covered new x ≡ true → (covered old x ≡ true) ⊎ InGap a old x

module _ (a : Align) (al : IsAlign a) where
  -- The list begins with a region that has the begin and the kind of another.
  abbrev Starts : Region → List Region → Type 0
  Starts c [] = ⊥
  Starts c (d ∷ ds) = (d.begin ≡ c.begin) × (kind_of d ≡ kind_of c)
