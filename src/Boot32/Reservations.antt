-- ===== src/Boot32/Reservations.antt =====
-- support.c of boot32: the map of reserved memory. `unsigned long` has 32 bits there.
pub mod Overlap
pub mod Kept
use bootstrap.Prelude.{
  ℕ, zero, suc, ◌+◌, ◌-◌, ◌^◌, ◌%◌, Bool, true, false, ◌&&◌, Option, none, some, List, [], ◌∷◌,
  ◌++◌, Result, ok, err, guard, ◌>>◌, ltb, leb, ◌==◌, if◌then◌else◌, length, above_4g,
}
use bootstrap.Align.{Align, round_page, trunc_page}

-- `is_range_in_4g`
unfoldable pub is_range_in_4g : ℕ → ℕ → Bool
is_range_in_4g start size = leb size (2 ^ 32) && leb start (2 ^ 32 - size)

-- Sums and differences of `unsigned long`.
abbrev pub add_32 : ℕ → ℕ → ℕ
add_32 a b = (a + b) % 2 ^ 32

abbrev pub sub_32 : ℕ → ℕ → ℕ
sub_32 a b = (a + 2 ^ 32 - b) % 2 ^ 32

pub record Area : Type 0 where
  pub start : ℕ
  pub size : ℕ

abbrev pub area_end : Area → ℕ
area_end r = add_32 r.start r.size

abbrev pub max_reservations : ℕ
max_reservations = 16

-- An entry in front of those that the loop has changed, if it has.
abbrev pub prepend : Area → Option (List Area) → Option (List Area)
prepend r none = none
prepend r (some rs) = some (r ∷ rs)

-- The loop of `reservation_add` over the entries: the entries at its return, or none if no entry
-- took the area.
unfoldable pub join_entry : ℕ → ℕ → List Area → Option (List Area)
join_entry start size [] = none
join_entry start size (r ∷ rs) =
    let rest = prepend r (join_entry start size rs) in
    if leb r.start start && leb (add_32 start size) (area_end r)
    then some (r ∷ rs)
    else if area_end r == start
    then some (record { start = r.start; size = add_32 r.size size } ∷ rs)
    else if r.start == add_32 start size
    then some (record { start = start; size = r.size } ∷ rs)
    else rest

-- The last entry made to hold the area too.
abbrev pub extend_entry : ℕ → ℕ → Area → Area
extend_entry start size e =
    let begin = if ltb start e.start then start else e.start in
    record {
      start = begin;
      size =
          if ltb (add_32 begin e.size) (add_32 start size)
          then sub_32 (add_32 start size) begin
          else e.size;
    }

unfoldable pub extend_last : ℕ → ℕ → List Area → List Area
extend_last start size [] = []
extend_last start size (e ∷ []) = extend_entry start size e ∷ []
extend_last start size (e ∷ r ∷ rs) = e ∷ extend_last start size (r ∷ rs)

-- The rest of `reservation_add`, at the outcome of the loop.
abbrev pub new_entry : ℕ → ℕ → List Area → Option (List Area) → List Area
new_entry start size rs (some joined) = joined
new_entry start size rs none =
    if ltb (length rs) max_reservations
    then rs ++ (record { start = start; size = size } ∷ [])
    else extend_last start size rs

-- `reservation_add`
unfoldable pub reservation_add : Align → ℕ → ℕ → List Area → Result (List Area)
unfolding is_range_in_4g join_entry extend_last
reservation_add a start size rs =
    let begin = trunc_page a start in
    let whole = round_page a (add_32 (sub_32 start begin) size) % 2 ^ 32 in
    guard (is_range_in_4g begin whole) above_4g
    >> ok (new_entry begin whole rs (join_entry begin whole rs))

-- `overlaps_reservation`
unfoldable pub overlaps_reservation : ℕ → ℕ → List Area → ℕ
overlaps_reservation start size [] = 0
overlaps_reservation start size (r ∷ rs) =
    let rest = overlaps_reservation start size rs in
    if ltb r.start (add_32 start size) && ltb start (area_end r) then area_end r else rest
