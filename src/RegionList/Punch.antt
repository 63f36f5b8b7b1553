-- ===== src/RegionList/Punch.antt =====
-- What `Region_list::sub` is to leave of a list: its reference, and the list while it runs.
use bootstrap.Prelude.{
  ℕ, ◌+◌, ◌-◌, ◌≤◌, ◌<◌, ◌^◌, ◌≡◌, refl, ap, inl, inr, true, false, ◌&&◌, not, List, [], ◌∷◌, ◌++◌,
  none, some, arith, leb, ◌==◌, if◌then◌else◌, Bool-cases, length,
}
use bootstrap.Region.{Region, contains, holds, IsRange}
use bootstrap.RegionList.{find, find_container, replace_first}
use bootstrap.RegionList.Order.{Above, Above-mono, covered}
use bootstrap.RegionList.Insert.{place}

-- What is left of a region in front of and behind a range that it contains.
abbrev pub head_of : Region → Region → Region
head_of c r = record c { end = r.begin - 1 }

abbrev pub tail_of : Region → Region → Region
tail_of c r = record c { begin = r.end + 1 }

abbrev pub with_tail : Region → Region → List Region → List Region
with_tail c r rs = if c.end == r.end then rs else tail_of c r ∷ rs

abbrev pub with_rest : Region → Region → List Region → List Region
with_rest c r rs = if c.begin == r.begin then with_tail c r rs else head_of c r ∷ with_tail c r rs

-- The reference: the first region that contains the range is replaced by what is left of it.
unfoldable pub punch : List Region → Region → List Region
punch [] r = []
punch (c ∷ rs) r = if contains c r then with_rest c r rs else c ∷ punch rs r

-- The container of a range lies above the bound of its list.
container-lower :
    (lo : ℕ) (rs : List Region) (r c : Region)
    → Above lo rs
    → find_container rs r ≡ some c
    → lo ≤ r.begin
unfolding find_container
container-lower lo [] r c v e = cc
container-lower lo (x ∷ rs) r c v e = ground (arith, container-lower (x.end + 1) rs r c v.3)

pub container-contains :
    (lo : ℕ) (rs : List Region) (r c : Region)
    → Above lo rs
    → find_container rs r ≡ some c
    → (c.begin ≤ r.begin) × (r.end ≤ c.end) × (c.end < 2 ^ 64)
unfolding find_container
container-contains lo [] r c v e = cc
container-contains lo (x ∷ rs) r c v e = ground (arith, container-contains (x.end + 1) rs r c v.3)

Above-with_tail :
    (c r : Region) (rs : List Region)
    → r.begin ≤ r.end
    → r.end ≤ c.end
    → c.end < 2 ^ 64
    → Above (c.end + 1) rs
    → Above (r.end + 1) (with_tail c r rs)
Above-with_tail c r rs h k w v = elim (Bool-cases (c.end == r.end)) [
  | inl e ↦ rw e (Above-mono (r.end + 1) (c.end + 1) rs (omega arith) v)
  | inr e ↦ rw e (ground arith, ground arith, w, v)
]

Above-with_rest :
    (lo : ℕ) (c r : Region) (rs : List Region)
    → Above lo (c ∷ rs)
    → r.begin ≤ r.end
    → contains c r ≡ true
    → Above lo (with_rest c r rs)
Above-with_rest lo c r rs v h k =
    let tail = Above-with_tail c r rs h (ground arith) v.2 v.3 in
    elim (Bool-cases (c.begin == r.begin)) [
      | inl e ↦ rw e (Above-mono lo (r.end + 1) (with_tail c r rs) (ground arith) tail)
      | inr e ↦ rw e (
        v.0,
        ground arith,
        ground arith,
        Above-mono (r.begin - 1 + 1) (r.end + 1) (with_tail c r rs) (omega arith) tail,
      )
    ]

-- Cutting keeps the order.
pub Above-punch :
    (lo : ℕ) (rs : List Region) (r : Region) → Above lo rs → r.begin ≤ r.end → Above lo (punch rs r)
unfolding punch
Above-punch lo [] r v k = tt
Above-punch lo (x ∷ rs) r v k = elim (Bool-cases (contains x r)) [
  | inl e ↦ rw e (Above-with_rest lo x r rs v k e)
  | inr e ↦ rw e (v.0, v.1, v.2, Above-punch (x.end + 1) rs r v.3 k)
]

uncovered-below : (lo x : ℕ) (rs : List Region) → Above lo rs → x < lo → covered rs x ≡ false
uncovered-below lo x [] v h = refl
uncovered-below lo x (r ∷ rs) v h = ground (arith, uncovered-below (r.end + 1) x rs v.3)

-- The bytes of the range, and no others, are given up.
pub covered-punch :
    (lo : ℕ) (rs : List Region) (r c : Region) (x : ℕ)
    → Above lo rs
    → IsRange r
    → find_container rs r ≡ some c
    → covered (punch rs r) x ≡ (covered rs x && not (holds r x))
unfolding punch find_container
covered-punch lo [] r c x v k e = refl
covered-punch lo (y ∷ rs) r c x v k e = ground (
  arith,
  covered-punch (y.end + 1) rs r c x v.3 k,
  container-lower (y.end + 1) rs r c v.3,
  uncovered-below (y.end + 1) x rs v.3,
)

-- Writing through the pointer to the container is `punch`, if what is written is what is left.
pub replace-punch :
    (rs new : List Region) (r c : Region)
    → find_container rs r ≡ some c
    → ((rest : List Region) → new ++ rest ≡ with_rest c r rest)
    → replace_first (λ x. contains x r) (λ _. new) rs ≡ punch rs r
unfolding punch find_container replace_first
replace-punch [] new r c e h = refl
replace-punch (x ∷ rs) new r c e h = elim (Bool-cases (contains x r)) [
  | inl t ↦ rw t (ground (arith, h rs))
  | inr t ↦ rw t (ap (◌∷◌ x) (replace-punch rs new r c (ground arith) h))
]

find-none_below :
    (lo : ℕ) (rs : List Region) (o : Region) → Above lo rs → o.end < lo → find rs o ≡ none
unfolding find
find-none_below lo [] o v h = refl
find-none_below lo (x ∷ rs) o v h = ground (arith, find-none_below (x.end + 1) rs o v.3)

place_below :
    (lo : ℕ) (rs : List Region) (o : Region)
    → Above lo rs
    → o.begin ≤ o.end
    → o.end < lo
    → place rs o ≡ o ∷ rs
unfolding place
place_below lo [] o v k h = refl
place_below lo (x ∷ rs) o v k h = ground arith

abbrev pub to_head : Region → Region → List Region → List Region
to_head r c = replace_first (λ x. contains x r) (λ _. head_of c r ∷ [])

-- In the middle of its container: first the container is cut to its head, then the tail is added.
module _ (r c : Region) (h : r.begin ≤ r.end) (low : c.begin < r.begin) (high : r.end < c.end) where
  pub length-to_head : (rs : List Region) → length (to_head r c rs) ≡ length rs
  unfolding replace_first
  length-to_head [] = refl
  length-to_head (x ∷ rs) = ground (arith, length-to_head rs)

  pub Above-to_head :
      (lo : ℕ) (rs : List Region)
      → Above lo rs
      → find_container rs r ≡ some c
      → Above lo (to_head r c rs)
  unfolding replace_first find_container
  Above-to_head lo [] v e = tt
  Above-to_head lo (x ∷ rs) v e = elim (Bool-cases (contains x r)) [
    | inl t ↦ rw t (
      ground arith,
      omega arith,
      ground arith,
      Above-mono (r.begin - 1 + 1) (x.end + 1) rs (ground arith) v.3,
    )
    | inr t ↦ rw t (v.0, v.1, v.2, Above-to_head (x.end + 1) rs v.3 (ground arith))
  ]

  pub find-to_head :
      (lo : ℕ) (rs : List Region)
      → Above lo rs
      → find_container rs r ≡ some c
      → find (to_head r c rs) (tail_of c r) ≡ none
  unfolding replace_first find_container find
  find-to_head lo [] v e = refl
  find-to_head lo (x ∷ rs) v e = ground (
    arith,
    find-to_head (x.end + 1) rs v.3,
    container-lower (x.end + 1) rs r c v.3,
    find-none_below (x.end + 1) rs (tail_of c r) v.3,
  )

  pub place-to_head :
      (lo : ℕ) (rs : List Region)
      → Above lo rs
      → find_container rs r ≡ some c
      → place (to_head r c rs) (tail_of c r) ≡ punch rs r
  unfolding replace_first find_container place punch
  place-to_head lo [] v e = cc
  place-to_head lo (x ∷ rs) v e = ground (
    arith,
    place-to_head (x.end + 1) rs v.3,
    container-lower (x.end + 1) rs r c v.3,
    place_below (x.end + 1) rs (tail_of c r) v.3,
  )

  -- Between the two writes the bytes from the range on are given up.
  pub covered-to_head :
      (lo : ℕ) (rs : List Region) (x : ℕ)
      → Above lo rs
      → find_container rs r ≡ some c
      → covered (to_head r c rs) x ≡ (covered rs x && not (leb r.begin x && leb x c.end))
  unfolding replace_first find_container
  covered-to_head lo [] x v e = refl
  covered-to_head lo (y ∷ rs) x v e = ground (
    arith,
    covered-to_head (y.end + 1) rs x v.3,
    container-lower (y.end + 1) rs r c v.3,
    uncovered-below (y.end + 1) x rs v.3,
  )

  pub covered_of_container :
      (rs : List Region) (x : ℕ)
      → find_container rs r ≡ some c
      → holds c x ≡ true
      → covered rs x ≡ true
  unfolding find_container
  covered_of_container [] x e k = cc
  covered_of_container (y ∷ rs) x e k = ground (arith, covered_of_container rs x)
