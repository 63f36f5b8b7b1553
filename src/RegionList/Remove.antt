-- ===== src/RegionList/Remove.antt =====
-- `Region_list::remove_if`: what it keeps of the order.
use bootstrap.Prelude.{ℕ, ◌+◌, ◌≤◌, Bool, inl, inr, List, [], ◌∷◌, arith, length, Bool-cases}
use bootstrap.Region.{Region}
use bootstrap.RegionList.{remove_if}
use bootstrap.RegionList.Order.{Above, Above-mono}
use bootstrap.RegionList.FindFree.{Low}

-- What `remove_if` keeps.
pub Above-remove_if :
    (p : Region → Bool) (lo : ℕ) (rs : List Region) → Above lo rs → Above lo (remove_if p rs)
unfolding remove_if
Above-remove_if p lo [] v = tt
Above-remove_if p lo (r ∷ rs) v = elim (Bool-cases (p r)) [
  | inl t ↦
      rw t (Above-remove_if p lo rs (Above-mono lo (r.end + 1) rs (omega (arith, v.0, v.1)) v.3))
  | inr t ↦ rw t (v.0, v.1, v.2, Above-remove_if p (r.end + 1) rs v.3)
]

pub Low-remove_if :
    (p : Region → Bool) (n : ℕ) (rs : List Region) → Low n rs → Low n (remove_if p rs)
unfolding remove_if
Low-remove_if p n [] v = tt
Low-remove_if p n (r ∷ rs) v = elim (Bool-cases (p r)) [
  | inl t ↦ rw t (Low-remove_if p n rs v.1)
  | inr t ↦ rw t (v.0, Low-remove_if p n rs v.1)
]

pub length-remove_if : (p : Region → Bool) (rs : List Region) → length (remove_if p rs) ≤ length rs
unfolding remove_if
length-remove_if p [] = omega arith
length-remove_if p (r ∷ rs) = elim (Bool-cases (p r)) [
  | inl t ↦ rw t (omega (arith, length-remove_if p rs))
  | inr t ↦ rw t (omega (arith, length-remove_if p rs))
]
