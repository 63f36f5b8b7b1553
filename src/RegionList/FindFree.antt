-- ===== src/RegionList/FindFree.antt =====
-- `Region_list::find_free`: the first free place in a search area.
use bootstrap.Prelude.{
  ℕ, zero, suc, ◌+◌, ◌-◌, ◌≤◌, ◌<◌, ◌%◌, ◌^◌, ◌≡◌, refl, ◌⊎◌, inl, inr, false, List, [], ◌∷◌, none,
  some, ok, arith, leb, ltb, if◌then◌else◌, Bool-cases, Option-cases, length, add_word, sub_word,
}
use bootstrap.Align.{Align, IsAlign}
use bootstrap.Region.{Region, sized, overlaps, no_mem}
use bootstrap.RegionList.{find, find_free, find_free_from, take_or_go}
use bootstrap.RegionList.Order.{find-overlaps}

-- `Region::start_size (q, size)`
abbrev pub span : ℕ → ℕ → Region
span q size = record {
  begin = q;
  end = q + size - 1;
  name = 0;
  type = no_mem;
  sub_type = 0;
  eager = false;
}

pub sized-eq-span : (q size : ℕ) → 0 < size → q + size ≤ 2 ^ 64 → sized q size ≡ ok (span q size)
unfolding sized
sized-eq-span q size h k = ground arith

-- What overlaps no region of a list does not overlap the one found.
pub find-none-all :
    (rs : List Region) (o o' z : Region)
    → find rs o ≡ some z
    → find rs o' ≡ none
    → overlaps z o' ≡ false
unfolding find
find-none-all [] o o' z e k = cc
find-none-all (c ∷ rs) o o' z e k = ground (arith, find-none-all rs o o' z)

-- How many regions end at an address or behind it.
abbrev pub later : List Region → ℕ → ℕ
later [] s = 0
later (r ∷ rs) s = (if leb s r.end then 1 else 0) + later rs s

pub later-le-length : (rs : List Region) (s : ℕ) → later rs s ≤ length rs
later-le-length [] s = omega arith
later-le-length (r ∷ rs) s = ground (arith, later-le-length rs s)

later_mono : (rs : List Region) (s t : ℕ) → s ≤ t → later rs t ≤ later rs s
later_mono [] s t h = omega arith
later_mono (r ∷ rs) s t h = ground (arith, later_mono rs s t)

pub later-lt :
    (rs : List Region) (o z : Region) (s t : ℕ)
    → find rs o ≡ some z
    → s ≤ z.end
    → z.end < t
    → later rs t < later rs s
unfolding find
later-lt [] o z s t e h k = cc
later-lt (r ∷ rs) o z s t e h k = ground (arith, later-lt rs o z s t, later_mono rs s t)

-- Every region leaves room behind it for an aligned place without a wrap-around.
abbrev pub Low : ℕ → List Region → Type 0
Low n [] = Unit
Low n (r ∷ rs) = (r.end + 1 + n ≤ 2 ^ 64) × Low n rs

pub Low-find :
    (n : ℕ) (rs : List Region) (o z : Region)
    → Low n rs
    → find rs o ≡ some z
    → z.end + 1 + n ≤ 2 ^ 64
unfolding find
Low-find n [] o z h e = cc
Low-find n (r ∷ rs) o z h e = ground (arith, Low-find n rs o z h.1)

-- Between two multiples there is a whole step.
pub multiple-le : (m r q : ℕ) → r % m ≡ 0 → q % m ≡ 0 → r < q + m → r ≤ q
multiple-le m r q h k l = grind arith

-- An aligned place of the given size inside the search area that overlaps no region.
pub record IsFit (rs : List Region) (search : Region) (size align q : ℕ) : Type 0 where
  pub aligned : q % 2 ^ align ≡ 0
  pub above : search.begin ≤ q
  pub inside : q + size ≤ search.end + 1
  pub free : find rs (span q size) ≡ none

-- The first such place, or 0 if there is none.
abbrev pub FirstFit : List Region → Region → ℕ → ℕ → ℕ → Type 0
FirstFit rs search size align res =
    (IsFit rs search size align res × ((q : ℕ) → IsFit rs search size align q → res ≤ q))
    ⊎ ((res ≡ 0) × ((q : ℕ) → ¬ IsFit rs search size align q))

module _ (a : Align) (al : IsAlign a) (rs : List Region) (search : Region) (size align : ℕ) where
  -- No fit begins at or before the end of a region that overlaps the first place to try.
  fit-above :
      (z : Region) (start q : ℕ)
      → 0 < size
      → find rs (span start size) ≡ some z
      → start ≤ q
      → IsFit rs search size align q
      → z.end + 1 ≤ q
  fit-above z start q s e h f = ground (
    arith,
    find-none-all rs (span start size) (span q size) z e f.free,
    find-overlaps rs (span start size) z e,
  )

  round-le-fit :
      (start q : ℕ)
      → start + 2 ^ align ≤ 2 ^ 64
      → start ≤ q
      → IsFit rs search size align q
      → a.round_size start align ≤ q
  round-le-fit start q w h f =
      multiple-le (2 ^ align) (a.round_size start align) q (al.round_multiple start align w)
        f.aligned (omega (arith, al.round_lt start align w))

  find_free_from-FirstFit :
      (fuel start : ℕ)
      → 0 < size
      → Low (2 ^ align + size) rs
      → later rs start < fuel
      → start + 2 ^ align + size ≤ 2 ^ 64
      → search.begin ≤ start
      → ((q : ℕ) → IsFit rs search size align q → start ≤ q)
      → (res : ℕ) × (find_free_from a fuel rs search.end size align start ≡ ok res)
        × FirstFit rs search size align res
  unfolding find_free_from
  find_free_from-FirstFit zero start s low f w b inv = absurd (omega arith)
  find_free_from-FirstFit (suc fuel) start s low f w b inv =
      elim (Bool-cases (ltb search.end (sub_word (add_word start' size) 1))) [
        | inl out ↦
            (0, rw out, inr (refl, λ q fit. ground (arith, first q fit, start_lt, fit.inside)))
        | inr fits ↦ elim (Option-cases (find rs (span start' size))) [
          | inl free ↦ (start', rw (fits, as_span, free, take_or_go), inl (fit free fits, first))
          | inr (z, e) ↦
              let (res, p, o) =
                find_free_from-FirstFit fuel (z.end + 1) s low (fewer z e) (room z e) (below z e)
                  (λ q fit. fit-above z start' q s e (first q fit) fit) in
              (res, rw (fits, as_span, e, take_or_go, wrap z e) p, o)
        ]
      ]
    where
      start' : ℕ
      start' = a.round_size start align

      start_ge : start ≤ start'
      start_ge = al.le_round start align (omega arith)

      start_lt : start' < start + 2 ^ align
      start_lt = al.round_lt start align (omega arith)

      as_span : sized start' size ≡ ok (span start' size)
      as_span = sized-eq-span start' size s (omega (arith, start_lt))

      first : (q : ℕ) → IsFit rs search size align q → start' ≤ q
      first q fit = round-le-fit start q (omega arith) (inv q fit) fit

      fit :
          find rs (span start' size) ≡ none
          → ltb search.end (sub_word (add_word start' size) 1) ≡ false
          → IsFit rs search size align start'
      fit free fits = record {
        aligned = al.round_multiple start align (omega arith);
        above = omega (arith, start_ge);
        inside = ground (arith, start_lt);
        free = free;
      }

      past : (z : Region) → find rs (span start' size) ≡ some z → start ≤ z.end
      past z e = ground (arith, find-overlaps rs (span start' size) z e, start_ge)

      fewer : (z : Region) → find rs (span start' size) ≡ some z → later rs (z.end + 1) < fuel
      fewer z e =
          omega
            (arith, later-lt rs (span start' size) z start (z.end + 1) e (past z e) (omega arith))

      room :
          (z : Region) → find rs (span start' size) ≡ some z → z.end + 1 + 2 ^ align + size ≤ 2 ^ 64
      room z e = omega (arith, Low-find (2 ^ align + size) rs (span start' size) z low e)

      below : (z : Region) → find rs (span start' size) ≡ some z → search.begin ≤ z.end + 1
      below z e = omega (arith, past z e)

      wrap : (z : Region) → find rs (span start' size) ≡ some z → add_word z.end 1 ≡ z.end + 1
      wrap z e = omega (arith, room z e)

-- `find_free` returns, and what it returns is the lowest aligned place for the rounded size in the
-- search area that overlaps no region, or 0 if there is none, provided that the regions and the
-- area leave room behind them, so that no address wraps around.
pub find_free-FirstFit :
    (a : Align) (al : IsAlign a) (rs : List Region) (search : Region) (size align : ℕ)
    → 0 < a.round_size size align
    → Low (2 ^ align + a.round_size size align) rs
    → search.begin + 2 ^ align + a.round_size size align ≤ 2 ^ 64
    → (res : ℕ) × (find_free a rs search size align ≡ ok res)
      × FirstFit rs search (a.round_size size align) align res
unfolding find_free
find_free-FirstFit a al rs search size align s low w =
    find_free_from-FirstFit a al rs search (a.round_size size align) align (suc (length rs))
      search.begin s low (omega (arith, later-le-length rs search.begin)) w (omega arith)
      (λ q fit. fit.above)
