-- ===== src/Region.antt =====
-- class Region of server/src/region.h: a named and typed range of addresses, its last byte included.
use bootstrap.Prelude.{
  ℕ, ◌≤◌, ◌<◌, ◌^◌, Bool, false, ◌&&◌, not, Result, ok, ◌>>◌, guard, assertion, ltb, leb, ◌==◌,
  if◌then◌else◌, add_word, sub_word,
}

-- `Region::Type`
pub data RegionType : Type 0 where
  no_mem kernel sigma0 boot root arch ram_dont_use info kmem : RegionType

-- The value of the enumerator, which is what `_t` stores and what comparisons read.
abbrev pub type_code : RegionType → ℕ
type_code no_mem = 0
type_code kernel = 1
type_code sigma0 = 2
type_code boot = 3
type_code root = 4
type_code arch = 5
type_code ram_dont_use = 6
type_code info = 7
type_code kmem = 8

-- A name is compared as a pointer: it is the address of its text, 0 for none. A subtype is the
-- byte that is stored.
pub record Region : Type 0 where
  pub begin : ℕ
  pub end : ℕ
  pub name : ℕ
  pub type : RegionType
  pub sub_type : ℕ
  pub eager : Bool

-- `Region (unsigned long begin)`
unfoldable pub point : ℕ → Region
point a = record { begin = a; end = a; name = 0; type = no_mem; sub_type = 0; eager = false }

-- `Region (begin, end, name, type, sub, eager)`
unfoldable pub region : ℕ → ℕ → ℕ → RegionType → ℕ → Bool → Result Region
region b e name t sub eager = do
  guard (leb b e) assertion
  ok (record { begin = b; end = e; name = name; type = t; sub_type = sub; eager = eager })

-- `Region (begin, end)`, with the defaults of the other arguments.
unfoldable pub range : ℕ → ℕ → Result Region
unfolding region
range b e = region b e 0 no_mem 0 false

-- `Region::start_size`
unfoldable pub start_size : ℕ → ℕ → ℕ → RegionType → ℕ → Bool → Result Region
unfolding region
start_size b size name t sub eager = do
  guard (ltb 0 size) assertion
  region b (sub_word (add_word b size) 1) name t sub eager

-- `Region::start_size (begin, size)`
unfoldable pub sized : ℕ → ℕ → Result Region
unfolding start_size
sized b size = start_size b size 0 no_mem 0 false

-- the setters `begin (unsigned long)` and `end (unsigned long)`
unfoldable pub set_begin : Region → ℕ → Result Region
set_begin r b = do guard (leb b r.end) assertion; ok (record r { begin = b })

unfoldable pub set_end : Region → ℕ → Result Region
set_end r e = do guard (leb r.begin e) assertion; ok (record r { end = e })

unfoldable pub size : Region → ℕ
size r = add_word (sub_word r.end r.begin) 1

-- `operator <`
abbrev pub before : Region → Region → Bool
before r o = ltb r.end o.begin

abbrev pub overlaps : Region → Region → Bool
overlaps r o = not (before r o) && not (before o r)

abbrev pub contains : Region → Region → Bool
contains r o = leb r.begin o.begin && leb o.end r.end

unfoldable pub intersect : Region → Region → Result Region
unfolding region point
intersect r o =
    if not (overlaps r o)
    then ok (point 0)
    else region (if ltb o.begin r.begin then r.begin else o.begin)
        (if ltb r.end o.end then r.end else o.end) r.name r.type r.sub_type false

abbrev pub invalid : Region → Bool
invalid r = (r.begin == 0) && (r.end == 0)

-- The class invariant that the assertions keep, on words.
abbrev pub IsRange : Region → Type 0
IsRange r = (r.begin ≤ r.end) × (r.end < 2 ^ 64)

-- Whether the region holds the byte at an address.
abbrev pub holds : Region → ℕ → Bool
holds r a = leb r.begin a && leb a r.end
