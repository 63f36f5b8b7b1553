-- ===== src/BootModules/Sorted.antt =====
-- `mod_insert_sorted` and the loop of `move_modules` that sorts the modules by their addresses.
use bootstrap.Prelude.{
  ℕ, zero, suc, ◌+◌, ◌≤◌, ◌≡◌, refl, inl, inr, true, ◌&&◌, List, [], ◌∷◌, ok, arith, tests, leb,
  ltb, ◌==◌, if◌then◌else◌, Bool-cases, length,
}
use bootstrap.BootModules.{ModInfo, mod_at, mod_before, insert_before, mod_insert_sorted, sort_from}

-- The addresses of the modules of a list rise from an address on.
unfoldable pub Rising : List ModInfo → ℕ → List ℕ → Type 0
Rising mods lo [] = Unit {0}
Rising mods lo (i ∷ is) = (lo ≤ (mod_at mods i).start) × Rising mods (mod_at mods i).start is

-- How often an index is in a list.
unfoldable pub count : ℕ → List ℕ → ℕ
count j [] = 0
count j (i ∷ is) = (if i == j then 1 else 0) + count j is

module _ (mods : List ModInfo) where
  Rising-insert :
      (v lo : ℕ) (is : List ℕ)
      → lo ≤ (mod_at mods v).start
      → Rising mods lo is
      → Rising mods lo (insert_before (mod_before mods) v is)
  unfolding Rising insert_before
  Rising-insert v lo [] h r = (h, tt)
  Rising-insert v lo (i ∷ is) h (le, r) =
      elim (Bool-cases (ltb (mod_at mods v).start (mod_at mods i).start)) [
        | inl lt ↦ rw lt (h, (ground (arith, lt), r))
        | inr ge ↦ rw ge (le, Rising-insert v (mod_at mods i).start is (ground (arith, ge)) r)
      ]

  count-insert :
      (v j : ℕ) (is : List ℕ)
      → count j (insert_before (mod_before mods) v is) ≡ (if v == j then 1 else 0) + count j is
  unfolding count insert_before
  count-insert v j [] = refl
  count-insert v j (i ∷ is) = elim (Bool-cases (mod_before mods v i)) [
    | inl lt ↦ rw lt refl
    | inr ge ↦ rw ge (omega (arith, count-insert v j is))
  ]

  pub length-insert :
      (v : ℕ) (is : List ℕ) → length (insert_before (mod_before mods) v is) ≡ suc (length is)
  unfolding insert_before
  length-insert v [] = refl
  length-insert v (i ∷ is) = elim (Bool-cases (mod_before mods v i)) [
    | inl lt ↦ rw lt refl
    | inr ge ↦ rw ge (omega (arith, length-insert v is))
  ]

  -- If the sorter has room for the modules from an index on, sorting them in ends without a panic, a
  -- sorter that was in the order of the addresses stays so, and each of these modules is in it once
  -- more than before, the others as often as before.
  pub sort_from-Rising :
      (n i : ℕ) (sorter : List ℕ)
      → length sorter + n ≤ 256
      → Rising mods 0 sorter
      → (out : List ℕ) × (sort_from mods n i sorter ≡ ok out)
        × Rising mods 0 out
        × ((j : ℕ) → count j out ≡ count j sorter + (if leb i j && ltb j (i + n) then 1 else 0))
  unfolding sort_from mod_insert_sorted
  sort_from-Rising zero i sorter h r = (sorter, refl, r, λ j. ground arith)
  sort_from-Rising (suc n) i sorter h r =
      let (out, runs, rising, counts) =
        sort_from-Rising n (suc i) (insert_before (mod_before mods) i sorter)
          (omega (arith, h, length-insert i sorter)) (Rising-insert i 0 sorter (omega arith) r) in
      (out, rw room runs, rising, λ j. ground (arith, counts j, count-insert i j sorter))
    where
      room : ltb (length sorter) 256 ≡ true
      room = omega (tests, h)
