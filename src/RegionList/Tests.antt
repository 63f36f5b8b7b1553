-- ===== src/RegionList/Tests.antt =====
-- Runs of the functions of class Region_list, and the theorems about them at concrete lists.
use bootstrap.Prelude.{
  ℕ, ◌≤◌, ◌≡◌, refl, inr, ◌↔◌, true, false, ◌&&◌, ◌||◌, not, List, [], ◌∷◌, none, ok, err,
  region_overlap, arith, word_max,
}
use bootstrap.Align.Sample.{sample, sample-IsAlign}
use bootstrap.Region.{Region, kernel, boot, holds, sized, set_end, size}
use bootstrap.RegionList.{
  RegionList, find, find_container, add, sub, optimize, find_free, find_free_rev, insert, make_room,
}
use bootstrap.RegionList.Order.{Above, covered, find-none_iff}
use bootstrap.RegionList.Add.{add_covers, add_overlap, combined-add}
use bootstrap.RegionList.Sub.{sub_cuts}
use bootstrap.RegionList.FindFree.{FirstFit, find_free-FirstFit}
use bootstrap.RegionList.FindFreeRev.{LastFit, find_free_rev-LastFit}

abbrev low_region : Region
low_region = record {
  begin = 0x4000;
  end = 0x4fff;
  name = 1;
  type = kernel;
  sub_type = 0;
  eager = false;
}

abbrev high_region : Region
high_region = record {
  begin = 0x6000;
  end = 0x7fff;
  name = 2;
  type = boot;
  sub_type = 0;
  eager = false;
}

abbrev between : Region
between = record {
  begin = 0x5000;
  end = 0x5fff;
  name = 1;
  type = kernel;
  sub_type = 0;
  eager = false;
}

abbrev area : Region
area = record { begin = 0x4000; end = 0xffff; name = 0; type = boot; sub_type = 0; eager = false }

abbrev inside : Region
inside = record { begin = 0x6800; end = 0x6fff; name = 0; type = boot; sub_type = 0; eager = false }

abbrev two_regions : List Region
two_regions = low_region ∷ high_region ∷ []

abbrev a_list : RegionList
a_list = record {
  regs = two_regions;
  max = 8;
  name = 9;
  max_combined_size = word_max;
  address_limit = word_max;
  combined_size = 0x3000;
}

find_free_runs : find_free sample two_regions area 0x1800 12 ≡ ok 0x8000
unfolding find_free sized find
find_free_runs = refl

find_free_rev_runs : find_free_rev sample two_regions area 0x1800 12 ≡ ok 0xe000
unfolding find_free_rev sized find
find_free_rev_runs = refl

optimize_runs :
    optimize sample (low_region ∷ between ∷ high_region ∷ [])
    ≡ ok (record low_region { end = 0x5fff } ∷ high_region ∷ [])
unfolding optimize set_end
optimize_runs = refl

find-none_iff_example :
    (find two_regions between ≡ none)
    ↔ ((x : ℕ) → holds between x ≡ true → covered two_regions x ≡ false)
find-none_iff_example = find-none_iff two_regions between (omega arith) (omega arith)

add_covers_example :
    (l' : RegionList) × (add sample a_list between false ≡ ok l')
    × Above 0 l'.regs
    × ((x : ℕ) → covered l'.regs x ≡ (holds between x || covered two_regions x))
unfolding find size
add_covers_example =
    add_covers sample a_list between false (omega arith) (omega arith) (omega arith) (omega arith)
      (omega arith) (omega arith) (omega arith) refl

add_overlap_example : add sample a_list inside false ≡ err region_overlap
unfolding find size
add_overlap_example =
    add_overlap sample a_list inside high_region (omega arith) (omega arith) (omega arith)
      (omega arith) (omega arith) (omega arith) (omega arith) refl

sub_cuts_example :
    (l' : RegionList) × (sub sample a_list inside ≡ ok (true, l'))
    × Above 0 l'.regs
    × ((x : ℕ) → covered l'.regs x ≡ (covered two_regions x && not (holds inside x)))
unfolding find_container
sub_cuts_example =
    sub_cuts sample a_list inside high_region (omega arith) (omega arith) refl
      (inr (inr (omega arith)))

find_free-FirstFit_example :
    (res : ℕ) × (find_free sample two_regions area 0x1800 12 ≡ ok res)
    × FirstFit two_regions area 0x2000 12 res
find_free-FirstFit_example =
    find_free-FirstFit sample sample-IsAlign two_regions area 0x1800 12 (omega arith) (omega arith)
      (omega arith)

find_free_rev-LastFit_example :
    (res : ℕ) × (find_free_rev sample two_regions area 0x1800 12 ≡ ok res)
    × LastFit two_regions area 0x2000 12 res
find_free_rev-LastFit_example =
    find_free_rev-LastFit sample sample-IsAlign two_regions area 0x1800 12 (omega arith)
      (omega arith) (omega arith) (omega arith)

-- 0x800 bytes are left below the limit.
abbrev limited : RegionList
limited = record a_list { max_combined_size = 0x3800 }

abbrev filled : RegionList
filled = record limited {
  regs = low_region ∷ record between { end = 0x57ff } ∷ high_region ∷ [];
  combined_size = 0x3800;
}

combined-add_example : 0x3800 ≤ filled.max_combined_size
unfolding add insert make_room set_end size
combined-add_example =
    combined-add sample limited filled between false (omega arith) (omega arith) (omega arith)
      (omega arith) (omega arith) (omega arith) refl

abbrev nearly_all : Region
nearly_all = record high_region { begin = 0x6100; end = 0x7ffe }
