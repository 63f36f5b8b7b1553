-- ===== src/BootModules/Tests.antt =====
-- Two modules that are moved in opposite directions, and the theorems about the sort and the moves.
use bootstrap.Prelude.{
  ℕ, zero, suc, ◌≤◌, ◌<◌, ◌⊎◌, ◌≢◌, word_max, inl, inr, err, no_memory, ◌≡◌, refl, none, List, [],
  ◌∷◌, ok, arith, false, leb, ltb, ◌&&◌, if◌then◌else◌, ◌+◌,
}
use bootstrap.Align.Sample.{sample, sample-IsAlign}
use bootstrap.Region.{boot, start_size, region, point, size}
use bootstrap.RegionList.{
  init, find, find_container, add, add_nolimitcheck, insert, insert_loop, goes_last, make_room,
  limit_address, limit_size,
}
use bootstrap.BootModules.{
  ModInfo, Machine, mod_at, set_start, move_module_to, move_module, move_forwards, move_backwards,
  split_forward, relocate, sort_from, move_modules,
}
use bootstrap.BootModules.Moves.{pages}
use bootstrap.BootModules.Chain.{Moved}
use bootstrap.BootModules.Sorted.{sort_from-Rising, Rising, count}
use bootstrap.BootModules.Image.{IsImage, all_pages}
use bootstrap.BootModules.Whole.{Ready, IsTarget, IsSorter, move_modules-Outcome}

abbrev image : ℕ → ℕ → ModInfo
image start size = record { start = start; size = size; size_uncompressed = size; flags = 0 }

abbrev machine : Machine
machine = record {
  bytes = λ x. x;
  mods = image 0x9000 0x1800 ∷ image 0x1000 0x900 ∷ [];
  ram =
      record { begin = 0; end = 0xf_ffff; name = 0; type = boot; sub_type = 0; eager = false } ∷ [];
  sysalloc = [];
  list = init 8 0 0xffff_ffff 0xffff_ffff;
  validate = none;
}

relocated : (s : Machine) × (relocate sample 1 (1 ∷ 0 ∷ []) 0x3000 machine ≡ ok s)
unfolding relocate split_forward move_forwards move_backwards move_module move_module_to mod_at
    set_start start_size region point size find find_container init add add_nolimitcheck insert
    insert_loop goes_last make_room limit_address limit_size
relocated = (_, refl)

-- The same machine with RAM that the modules may take.
abbrev ready : Machine
ready = record machine { sysalloc = machine.ram; list = init 8 0 word_max word_max }

-- What holds of both modules.
both : (P : ℕ → Type 0) → P 0 → P 1 → (i : ℕ) → i < 2 → P i
both P p q zero h = p
both P p q (suc zero) h = q
both P p q (suc (suc i)) h = absurd (omega (arith, h))

-- The second module lies in front of the first one.
abbrev IsApart : ℕ → ℕ → Type 0
IsApart i j =
    i ≢ j
    → ((mod_at ready.mods i).start + pages sample (mod_at ready.mods i)
        ≤ (mod_at ready.mods j).start)
      ⊎ ((mod_at ready.mods j).start + pages sample (mod_at ready.mods j)
          ≤ (mod_at ready.mods i).start)

IsApart-first : (j : ℕ) → j < 2 → IsApart 0 j
unfolding mod_at
IsApart-first = both (IsApart 0) (λ ne. absurd (ne refl)) (λ ne. inr (omega arith))

IsApart-second : (j : ℕ) → j < 2 → IsApart 1 j
unfolding mod_at
IsApart-second = both (IsApart 1) (λ ne. inl (omega arith)) (λ ne. absurd (ne refl))

ready-IsImage : IsImage sample ready.mods
unfolding mod_at
ready-IsImage = record {
  size_pos = both _ (omega arith) (omega arith);
  size_le = both _ (omega arith) (omega arith);
  end_le = both _ (omega arith) (omega arith);
  apart = λ i j hi hj. both (λ k. IsApart k j) (IsApart-first j hj) (IsApart-second j hj) i hi;
}

ready-Ready : Ready sample sample-IsAlign 1 ready
unfolding init all_pages
ready-Ready = record {
  unvalidated = refl;
  image = ready-IsImage;
  few = omega arith;
  bytes = omega arith;
  fits = omega arith;
  ram_sorted = omega arith;
  sysalloc_sorted = omega arith;
  ram_low = omega arith;
  list_low = tt;
  room = record {
    unlimited = record { address = refl; combined = refl };
    sorted = tt;
    slots = omega arith;
    account = omega arith;
  };
}

move_modules-Outcome_example :
    ((move_modules sample 1 ready 0x3000 ≡ err no_memory)
      × ((q : ℕ) → ¬ IsTarget sample sample-IsAlign 1 ready 0x3000 q))
    ⊎ ((s' : Machine) × (to : ℕ) × (sorter : List ℕ) × (move_modules sample 1 ready 0x3000 ≡ ok s')
        × IsTarget sample sample-IsAlign 1 ready 0x3000 to
        × ((q : ℕ) → IsTarget sample sample-IsAlign 1 ready 0x3000 q → to ≤ q)
        × IsSorter sample sample-IsAlign 1 ready sorter
        × Moved sample ready.bytes ready.mods s' sorter to)
move_modules-Outcome_example =
    move_modules-Outcome sample sample-IsAlign 1 ready 0x3000 ready-Ready (omega arith)

sort_from-Rising_example :
    (out : List ℕ) × (sort_from machine.mods 2 0 [] ≡ ok out)
    × Rising machine.mods 0 out
    × ((j : ℕ) → count j out ≡ count j [] + (if leb 0 j && ltb j (0 + 2) then 1 else 0))
unfolding Rising
sort_from-Rising_example = sort_from-Rising machine.mods 2 0 [] (omega arith) tt
