-- ===== src/RegionList.antt =====
-- class Region_list of server/src/region.h and region.cc: a bounded array of regions.
pub mod Order
pub mod Insert
pub mod Optimize
pub mod Add
pub mod Punch
pub mod Sub
pub mod FindFree
pub mod FindFreeRev
pub mod Remove
mod Tests
use bootstrap.Prelude.{
  ℕ, zero, suc, ◌+◌, Bool, true, false, ◌&&◌, not, Option, none, some, List, [], ◌∷◌, ◌++◌, Result,
  ok, err, ◌>>=◌, ◌>>◌, guard, region_overflow, region_overlap, out_of_fuel, ltb, leb, ◌==◌,
  if◌then◌else◌, add_word, sub_word, length,
}
use bootstrap.Align.{Align, round_page, trunc_page}
use bootstrap.Region.{
  Region, type_code, sized, set_begin, set_end, size, before, overlaps, contains, invalid,
}

-- `_reg` to `_end` is the list of regions; `max` is the length of the backing store.
pub record RegionList : Type 0 where
  pub regs : List Region
  pub max : ℕ
  pub name : ℕ
  pub max_combined_size : ℕ
  pub address_limit : ℕ
  pub combined_size : ℕ

-- `Region_list::init`
unfoldable pub init : ℕ → ℕ → ℕ → ℕ → RegionList
init size name max_combined_size address_limit = record {
  regs = [];
  max = size;
  name = name;
  max_combined_size = max_combined_size;
  address_limit = address_limit;
  combined_size = 0;
}

-- `Region_list::find`: the first region that overlaps.
unfoldable pub find : List Region → Region → Option Region
find [] o = none
find (c ∷ rs) o = if overlaps c o then some c else find rs o

-- `Region_list::find_rev`: the last region that overlaps.
unfoldable pub find_rev : List Region → Region → Option Region
find_rev [] o = none
find_rev (c ∷ rs) o = elim (find_rev rs o) [
  | none ↦ if overlaps c o then some c else none
  | some r ↦ some r
]

-- `Region_list::contains`: the first region that contains.
unfoldable pub find_container : List Region → Region → Option Region
find_container [] o = none
find_container (c ∷ rs) o = if contains c o then some c else find_container rs o

-- `Region_list::remove`, of the region at an index.
unfoldable pub remove : List Region → ℕ → List Region
remove [] i = []
remove (r ∷ rs) zero = rs
remove (r ∷ rs) (suc i) = r ∷ remove rs i

-- `Region_list::remove_if`: the loop, on the regions from the cursor on.
unfoldable pub remove_if : (Region → Bool) → List Region → List Region
remove_if p [] = []
remove_if p (r ∷ rs) = let rest = remove_if p rs in if p r then rest else r ∷ rest

-- Writing through the pointer that a search returned: the first region that passes the test is
-- replaced.
unfoldable pub replace_first : (Region → Bool) → (Region → List Region) → List Region → List Region
replace_first p f [] = []
replace_first p f (r ∷ rs) = if p r then f r ++ rs else r ∷ replace_first p f rs

abbrev pub same_flag : Bool → Bool → Bool
same_flag true b = b
same_flag false b = not b

-- The search of `add_nolimitcheck` for the place of a region that does not go to the end.
unfoldable pub insert_loop : List Region → Region → Bool → Result (List Region)
insert_loop [] region may_overlap = ok (region ∷ [])
insert_loop (r ∷ rs) region may_overlap = elim (before r region) [
  | true ↦ insert_loop rs region may_overlap >>= λ rs'. ok (r ∷ rs')
  | false ↦
      if not may_overlap && not (before region r) then err region_overlap else ok (region ∷ r ∷ rs)
]

-- Whether the last region lies before the new one, or there is none.
unfoldable pub goes_last : List Region → Region → Bool
goes_last [] region = true
goes_last (r ∷ []) region = before r region
goes_last (r ∷ x ∷ rs) region = goes_last (x ∷ rs) region

-- The second part of `add_nolimitcheck`, with its special case of appending.
unfoldable pub insert : List Region → Region → Bool → Result (List Region)
unfolding insert_loop goes_last
insert rs region may_overlap =
    if goes_last rs region then ok (rs ++ region ∷ []) else insert_loop rs region may_overlap

-- Whether `optimize` merges two neighbours.
abbrev pub mergeable : Align → Region → Region → Bool
mergeable a c n =
    (type_code n.type == type_code c.type)
    && (n.sub_type == c.sub_type)
    && (n.name == c.name)
    && same_flag n.eager c.eager
    && leb (trunc_page a n.begin) (round_page a c.end)

-- The two limits of `Region_list::add`, each of which drops the region, cuts it, or leaves it.
unfoldable pub limit_address : RegionList → Region → Result (Option Region)
unfolding set_end
limit_address l mem =
    if ltb l.address_limit mem.begin
    then ok none
    else if ltb l.address_limit mem.end
    then (set_end mem (sub_word l.address_limit 1) >>= λ mem'. ok (some mem'))
    else ok (some mem)

unfoldable pub limit_size : RegionList → Region → Result (Option Region)
unfolding set_end
limit_size l mem =
    if leb l.max_combined_size l.combined_size
    then ok none
    else if ltb l.max_combined_size (add_word l.combined_size (size mem))
    then (set_end mem
          (sub_word (sub_word (add_word mem.begin l.max_combined_size) l.combined_size) 1)
        >>= λ mem'. ok (some mem'))
    else ok (some mem)

-- The end of a round of `find_free` and `find_free_rev`: the place is free, or the loop goes on
-- beside the region that is in the way.
pub take_or_go : ℕ → (Region → Result ℕ) → Option Region → Result ℕ
take_or_go place go none = ok place
take_or_go place go (some z) = go z

module _ (a : Align) where
  -- The loop of `Region_list::optimize`, from its cursor `c` on.
  unfoldable pub optimize_from : Region → List Region → Result (List Region)
  optimize_from c [] = ok (c ∷ [])
  optimize_from c (n ∷ rs) = elim (mergeable a c n) [
    | true ↦ set_end c n.end >>= λ c'. optimize_from c' rs
    | false ↦ optimize_from n rs >>= λ rs'. ok (c ∷ rs')
  ]

  -- `Region_list::optimize`
  unfoldable pub optimize : List Region → Result (List Region)
  unfolding optimize_from
  optimize [] = ok []
  optimize (c ∷ rs) = optimize_from c rs

  -- The overflow check of `add_nolimitcheck`.
  unfoldable pub make_room : RegionList → Result RegionList
  unfolding optimize
  make_room l =
      if leb l.max (length l.regs)
      then (optimize l.regs >>= λ rs.
          if leb l.max (length rs) then err region_overflow else ok (record l { regs = rs }))
      else ok l

  -- `Region_list::add_nolimitcheck`
  unfoldable pub add_nolimitcheck : RegionList → Region → Bool → Result RegionList
  unfolding make_room insert
  add_nolimitcheck l region may_overlap =
      if region.begin == region.end
      then ok l
      else make_room l >>= λ l'. insert l'.regs region may_overlap >>= λ rs.
          ok (record l' { regs = rs; combined_size = add_word l'.combined_size (size region) })

  abbrev pub add_limited : RegionList → Bool → Option Region → Result RegionList
  add_limited l may_overlap none = ok l
  add_limited l may_overlap (some mem) = add_nolimitcheck l mem may_overlap

  abbrev pub add_placed : RegionList → Bool → Option Region → Result RegionList
  add_placed l may_overlap none = ok l
  add_placed l may_overlap (some mem) = limit_size l mem >>= add_limited l may_overlap

  -- `Region_list::add`
  unfoldable pub add : RegionList → Region → Bool → Result RegionList
  unfolding limit_address limit_size add_nolimitcheck
  add l region may_overlap =
      if invalid region then ok l else limit_address l region >>= add_placed l may_overlap

  -- `Region_list::sub`, once the container `c` is found.
  unfoldable pub sub_from : RegionList → Region → Region → Result (Bool × RegionList)
  unfolding replace_first set_begin set_end add
  sub_from l r c =
      if (c.begin == r.begin) && (c.end == r.end)
      then ok (true, record l { regs = put [] })
      else if c.begin == r.begin
      then (set_begin c (add_word r.end 1) >>= λ c'. ok (true, record l { regs = put (c' ∷ []) }))
      else if c.end == r.end
      then (set_end c (sub_word r.begin 1) >>= λ c'. ok (true, record l { regs = put (c' ∷ []) }))
      else set_begin c (add_word r.end 1) >>= λ tail. set_end c (sub_word r.begin 1) >>= λ c'.
          add (record l { regs = put (c' ∷ []) }) tail false >>= λ l'. ok (true, l')
    where
      put : List Region → List Region
      put new = replace_first (λ x. contains x r) (λ _. new) l.regs

  -- `Region_list::sub`
  unfoldable pub sub : RegionList → Region → Result (Bool × RegionList)
  unfolding sub_from find_container
  sub l r = elim (find_container l.regs r) [ none ↦ ok (false, l) | some c ↦ sub_from l r c ]

  -- The loop of `Region_list::find_free`. The fuel counts its rounds.
  unfoldable pub find_free_from : ℕ → List Region → ℕ → ℕ → ℕ → ℕ → Result ℕ
  unfolding take_or_go
  find_free_from zero rs end size align start = err out_of_fuel
  find_free_from (suc fuel) rs end size align start =
      let start' = a.round_size start align in
      let rest = sized start' size >>= λ o.
      take_or_go start' (λ z. find_free_from fuel rs end size align (add_word z.end 1))
        (find rs o) in
      if ltb end (sub_word (add_word start' size) 1) then ok 0 else rest

  -- `Region_list::find_free`. A round for each region, and one more, are enough.
  unfoldable pub find_free : List Region → Region → ℕ → ℕ → Result ℕ
  unfolding find_free_from
  find_free rs search size align =
      find_free_from (suc (length rs)) rs search.end (a.round_size size align) align search.begin

  -- The loop of `Region_list::find_free_rev`.
  unfoldable pub find_free_rev_from : ℕ → List Region → ℕ → ℕ → ℕ → ℕ → Result ℕ
  unfolding take_or_go
  find_free_rev_from zero rs start size align end = err out_of_fuel
  find_free_rev_from (suc fuel) rs start size align end =
      let end' = a.trunc_size (sub_word end (sub_word size 1)) align in
      let rest = sized end' size >>= λ o.
      take_or_go end' (λ z. find_free_rev_from fuel rs start size align (sub_word z.begin 1))
        (find rs o) in
      if ltb end' start then ok 0 else rest

  -- `Region_list::find_free_rev`
  unfoldable pub find_free_rev : List Region → Region → ℕ → ℕ → Result ℕ
  unfolding find_free_rev_from
  find_free_rev rs search size align =
      find_free_rev_from (suc (length rs)) rs search.begin (a.round_size size align) align
        search.end
