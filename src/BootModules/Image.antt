-- ===== src/BootModules/Image.antt =====
-- The modules of an image before `move_modules`: their sizes, and their order once they are sorted.
use native.Mathlib.Nat.{mod-eq_of_lt}
use bootstrap.Prelude.{
  ℕ, zero, suc, ◌+◌, ◌≤◌, ◌<◌, ◌^◌, ◌≡◌, ◌≢◌, refl, ap, ◌∙◌, ◌⊎◌, inl, inr, List, [], ◌∷◌, ok,
  arith, length, Bool-cases, ◌==◌, ==→eq, add_word, >>=-eq-ok, ok-injective,
}
use bootstrap.Align.{Align, IsAlign}
use bootstrap.BootModules.{
  ModInfo, mod_at, mod_before, insert_before, mod_insert_sorted, sort_from, calc_modules_size,
}
use bootstrap.BootModules.Moves.{page, pages}
use bootstrap.BootModules.Chain.{Chain, total}
use bootstrap.BootModules.Sorted.{Rising, count, length-insert}

module _ (a : Align) where
  -- The pages of all modules.
  unfoldable pub all_pages : List ModInfo → ℕ
  all_pages [] = 0
  all_pages (m ∷ ms) = pages a m + all_pages ms

  -- The modules have bytes, end in the address space, and share no page.
  pub record IsImage (mods : List ModInfo) : Type 0 where
    pub size_pos : (i : ℕ) → i < length mods → 0 < (mod_at mods i).size
    pub size_le : (i : ℕ) → i < length mods → (mod_at mods i).size + page a ≤ 2 ^ 64
    pub end_le :
        (i : ℕ) → i < length mods → (mod_at mods i).start + pages a (mod_at mods i) ≤ 2 ^ 64
    pub apart :
        (i j : ℕ)
        → i < length mods
        → j < length mods
        → i ≢ j
        → ((mod_at mods i).start + pages a (mod_at mods i) ≤ (mod_at mods j).start)
          ⊎ ((mod_at mods j).start + pages a (mod_at mods j) ≤ (mod_at mods i).start)

  pub calc_modules_size-pages :
      (reg : ℕ) (ms : List ModInfo)
      → all_pages ms < 2 ^ 64
      → calc_modules_size a reg ms a.page_shift ≡ all_pages ms
  unfolding calc_modules_size all_pages
  calc_modules_size-pages reg [] h = refl
  calc_modules_size-pages reg (m ∷ ms) h =
      ap (λ n. add_word (pages a m) n) (calc_modules_size-pages reg ms (omega (arith, h)))
      ∙ mod-eq_of_lt h

  module _ (mods : List ModInfo) where
    -- The pages of some modules from an index on.
    unfoldable pages_from : ℕ → ℕ → ℕ
    pages_from zero i = 0
    pages_from (suc n) i = pages a (mod_at mods i) + pages_from n (suc i)

    total-insert :
        (v : ℕ) (is : List ℕ)
        → total a mods (insert_before (mod_before mods) v is)
          ≡ pages a (mod_at mods v) + total a mods is
    unfolding total insert_before
    total-insert v [] = refl
    total-insert v (i ∷ is) = elim (Bool-cases (mod_before mods v i)) [
      | inl lt ↦ rw lt refl
      | inr ge ↦ rw ge (omega (arith, total-insert v is))
    ]

    total-sort_from :
        (n i : ℕ) (sorter out : List ℕ)
        → sort_from mods n i sorter ≡ ok out
        → total a mods out ≡ total a mods sorter + pages_from n i
    unfolding sort_from mod_insert_sorted pages_from
    total-sort_from zero i sorter out e = omega (arith, ap (λ l. total a mods l) (ok-injective e))
    total-sort_from (suc n) i sorter out e =
        let (mid, p, q) = >>=-eq-ok (mod_insert_sorted (mod_before mods) i sorter) _ e in
        let inserted : mid ≡ insert_before (mod_before mods) i sorter = ground (arith, p) in
        omega (
          arith,
          total-sort_from n (suc i) mid out q,
          ap (λ l. total a mods l) inserted,
          total-insert i sorter,
        )

    length-sort_from :
        (n i : ℕ) (sorter out : List ℕ)
        → sort_from mods n i sorter ≡ ok out
        → length out ≡ length sorter + n
    unfolding sort_from mod_insert_sorted
    length-sort_from zero i sorter out e = omega (arith, ap length (ok-injective e))
    length-sort_from (suc n) i sorter out e =
        let (mid, p, q) = >>=-eq-ok (mod_insert_sorted (mod_before mods) i sorter) _ e in
        let inserted : mid ≡ insert_before (mod_before mods) i sorter = ground (arith, p) in
        omega (
          arith,
          length-sort_from n (suc i) mid out q,
          ap length inserted,
          length-insert mods i sorter,
        )

  pages_from-cons :
      (m : ModInfo) (ms : List ModInfo) (n i : ℕ)
      → pages_from (m ∷ ms) n (suc i) ≡ pages_from ms n i
  unfolding pages_from mod_at
  pages_from-cons m ms zero i = refl
  pages_from-cons m ms (suc n) i =
      ap (λ k. pages a (mod_at ms i) + k) (pages_from-cons m ms n (suc i))

  pages_from-all : (ms : List ModInfo) → pages_from ms (length ms) 0 ≡ all_pages ms
  unfolding pages_from all_pages mod_at
  pages_from-all [] = refl
  pages_from-all (m ∷ ms) =
      ap (λ k. pages a m + k) (pages_from-cons m ms (length ms) 0 ∙ pages_from-all ms)

  Rising-le :
      (mods : List ModInfo) (lo j : ℕ) (is : List ℕ)
      → Rising mods lo is
      → 0 < count j is
      → lo ≤ (mod_at mods j).start
  unfolding Rising count
  Rising-le mods lo j [] r h = absurd (omega (arith, h))
  Rising-le mods lo j (i ∷ is) (le, r) h = elim (Bool-cases (i == j)) [
    | inl e ↦ let at : i ≡ j = ==→eq i j e in omega (arith, le, ap (λ k. (mod_at mods k).start) at)
    | inr ne ↦
        omega (arith, le, Rising-le mods (mod_at mods i).start j is r (ground (arith, h, ne)))
  ]

  -- Of two modules of an image the one that starts later starts behind the other.
  behind :
      (mods : List ModInfo) (i j : ℕ)
      → IsImage mods
      → IsAlign a
      → i < length mods
      → j < length mods
      → i ≢ j
      → (mod_at mods i).start ≤ (mod_at mods j).start
      → (mod_at mods i).start + pages a (mod_at mods i) ≤ (mod_at mods j).start
  behind mods i j img al hi hj ne le = elim (img.apart i j hi hj ne) [
    | inl apart ↦ apart
    | inr apart ↦ absurd (
        omega (
          arith,
          apart,
          le,
          img.size_pos j hj,
          al.le_round (mod_at mods j).size a.page_shift (img.size_le j hj),
        ))
  ]

  -- The sorted modules of an image lie in order.
  pub Chain-Rising :
      (mods : List ModInfo) (lo lo' : ℕ) (is : List ℕ)
      → IsImage mods
      → IsAlign a
      → Rising mods lo' is
      → ((j : ℕ) → count j is ≤ 1)
      → ((j : ℕ) → 0 < count j is → j < length mods)
      → ((j : ℕ) → 0 < count j is → lo ≤ (mod_at mods j).start)
      → lo ≤ 2 ^ 64
      → Chain a mods lo is (2 ^ 64)
  unfolding Chain Rising count
  Chain-Rising mods lo lo' [] img al r once known above w = w
  Chain-Rising mods lo lo' (i ∷ is) img al (le, r) once known above w = (
    above i here,
    img.size_pos i (known i here),
    img.size_le i (known i here),
    Chain-Rising mods ((mod_at mods i).start + pages a (mod_at mods i)) (mod_at mods i).start is img
        al r (λ j. omega (arith, once j)) (λ j h. known j (omega (arith, h)))
        (λ j h.
          behind mods i j img al (known i here) (known j (omega (arith, h)))
            (λ e. clash j (ap (λ k. count k is) e) h)
            (Rising-le mods (mod_at mods i).start j is r h))
        (img.end_le i (known i here)),
  )
    where
      here : 0 < count i (i ∷ is)
      here = ground arith

      clash : (j : ℕ) → count i is ≡ count j is → 0 < count j is → ⊥
      clash j e h = ground (arith, once i, e, h)

  -- Sorting all modules keeps their pages.
  pub total-sort :
      (mods : List ModInfo) (out : List ℕ)
      → sort_from mods (length mods) 0 [] ≡ ok out
      → total a mods out ≡ all_pages mods
  unfolding total
  total-sort mods out e =
      omega (arith, total-sort_from mods (length mods) 0 [] out e, pages_from-all mods)

  pub length-sort :
      (mods : List ModInfo) (out : List ℕ)
      → sort_from mods (length mods) 0 [] ≡ ok out
      → length out ≡ length mods
  length-sort mods out e = omega (arith, length-sort_from mods (length mods) 0 [] out e)
