-- ===== src/RegionList/Insert.antt =====
-- Where `Region_list::add_nolimitcheck` puts a region: sorted insertion, on every branch.
use bootstrap.Prelude.{
  ℕ, ◌+◌, ◌≤◌, ◌<◌, ◌≡◌, refl, ◌∙◌, ◌≢◌, Bool, true, false, ◌||◌, none, some, List, [], ◌∷◌, ◌++◌,
  ok, err, region_overlap, arith, if◌then◌else◌, Bool-cases, inl, inr, length,
}
use bootstrap.Region.{Region, before, holds, IsRange}
use bootstrap.RegionList.{find, insert, insert_loop, goes_last}
use bootstrap.RegionList.Order.{Above, covered}

-- The reference: a region goes in front of the first one that it lies before.
unfoldable pub place : List Region → Region → List Region
place [] r = r ∷ []
place (x ∷ rs) r = if before x r then x ∷ place rs r else r ∷ x ∷ rs

-- If the last region of a list in order lies before another one, all of them do.
lt_of_goes_last :
    (lo : ℕ) (rs : List Region) (r : Region)
    → Above lo rs
    → goes_last rs r ≡ true
    → rs ≢ []
    → lo < r.begin
unfolding goes_last
lt_of_goes_last lo [] r v g ne = absurd (ne refl)
lt_of_goes_last lo (x ∷ []) r v g ne = ground arith
lt_of_goes_last lo (x ∷ y ∷ rs) r v g ne =
    ground (arith, lt_of_goes_last (x.end + 1) (y ∷ rs) r v.3 g)

-- Appending, where the last region lies before the new one, is no special case of the result.
insert_loop_of_goes_last :
    (lo : ℕ) (rs : List Region) (r : Region) (m : Bool)
    → Above lo rs
    → goes_last rs r ≡ true
    → insert_loop rs r m ≡ ok (rs ++ r ∷ [])
unfolding insert_loop goes_last
insert_loop_of_goes_last lo [] r m v g = refl
insert_loop_of_goes_last lo (x ∷ []) r m v g = ground arith
insert_loop_of_goes_last lo (x ∷ y ∷ rs) r m v g = ground (
  arith,
  lt_of_goes_last (x.end + 1) (y ∷ rs) r v.3 g (λ e. cc),
  insert_loop_of_goes_last (x.end + 1) (y ∷ rs) r m v.3 g,
)

-- The special case of appending changes nothing.
insert-eq-loop :
    (lo : ℕ) (rs : List Region) (r : Region) (m : Bool)
    → Above lo rs
    → insert rs r m ≡ insert_loop rs r m
unfolding insert
insert-eq-loop lo rs r m v = elim (Bool-cases (goes_last rs r)) [
  | inl g ↦ rw (g, insert_loop_of_goes_last lo rs r m v g)
  | inr g ↦ rw g
]

insert_loop-eq-place :
    (rs : List Region) (r : Region) (m : Bool)
    → find rs r ≡ none
    → insert_loop rs r m ≡ ok (place rs r)
unfolding insert_loop find place
insert_loop-eq-place [] r m e = refl
insert_loop-eq-place (x ∷ rs) r m e = ground (arith, insert_loop-eq-place rs r m)

-- What overlaps a region of a list does not end below its bound.
find-lower :
    (lo : ℕ) (rs : List Region) (r z : Region) → Above lo rs → find rs r ≡ some z → lo ≤ r.end
unfolding find
find-lower lo [] r z v e = cc
find-lower lo (x ∷ rs) r z v e = ground (arith, find-lower (x.end + 1) rs r z v.3)

insert_loop-overlap :
    (lo : ℕ) (rs : List Region) (r z : Region)
    → Above lo rs
    → find rs r ≡ some z
    → insert_loop rs r false ≡ err region_overlap
unfolding insert_loop find
insert_loop-overlap lo [] r z v e = cc
insert_loop-overlap lo (x ∷ rs) r z v e =
    ground (arith, insert_loop-overlap (x.end + 1) rs r z v.3, find-lower (x.end + 1) rs r z v.3)

Above-place :
    (lo : ℕ) (rs : List Region) (r : Region)
    → Above lo rs
    → lo ≤ r.begin
    → IsRange r
    → find rs r ≡ none
    → Above lo (place rs r)
unfolding place find
Above-place lo [] r v h k e = ground arith
Above-place lo (x ∷ rs) r v h k e = ground (arith, Above-place (x.end + 1) rs r v.3)

pub covered-place :
    (rs : List Region) (r : Region) (x : ℕ) → covered (place rs r) x ≡ (holds r x || covered rs x)
unfolding place
covered-place [] r x = refl
covered-place (y ∷ rs) r x = ground (arith, covered-place rs r x)

pub length-place : (rs : List Region) (r : Region) → length (place rs r) ≡ length rs + 1
unfolding place
length-place [] r = omega arith
length-place (x ∷ rs) r = ground (arith, length-place rs r)

-- A region that overlaps none is inserted, and the list stays in order.
pub insert_free :
    (rs : List Region) (r : Region) (m : Bool)
    → Above 0 rs
    → IsRange r
    → find rs r ≡ none
    → (insert rs r m ≡ ok (place rs r)) × Above 0 (place rs r)
insert_free rs r m v k e = (
  insert-eq-loop 0 rs r m v ∙ insert_loop-eq-place rs r m e,
  Above-place 0 rs r v (omega arith) k e,
)

-- One that overlaps stops the machine, unless overlaps are allowed.
pub insert_overlap :
    (rs : List Region) (r z : Region)
    → Above 0 rs
    → find rs r ≡ some z
    → insert rs r false ≡ err region_overlap
insert_overlap rs r z v e = insert-eq-loop 0 rs r false v ∙ insert_loop-overlap 0 rs r z v e
