-- ===== src/Paging/Leaves.antt =====
-- What `ptab_map_level` writes into a table of the lowest level.
use bootstrap.Prelude.{
  ℕ, zero, suc, ◌+◌, ◌-◌, ◌*◌, ◌/◌, ◌%◌, ◌^◌, ◌≤◌, ◌<◌, ◌≡◌, ◌⊎◌, refl, ap, ◌∙◌, true, false, ok,
  inl, inr, leb, ltb, ◌==◌, if◌then◌else◌, add_word, bit_or, arith, le→leb, Result, err, assertion,
}
use bootstrap.Paging.{
  CpuInfo, Walk, map_round, map_rounds, ptab_map_level, allow_leaf, is_leaf, leaf_bit,
}
use bootstrap.Paging.Steps.{leaf_valid}

module _ (cpu : CpuInfo) (alloc : ℕ → ℕ) (bits : ℕ) where
  -- The entry of a page.
  abbrev pub leaf_entry : ℕ → ℕ
  leaf_entry pa = bit_or (bit_or (bit_or pa 1) bits) 0

  -- A walk over as many whole pages, whose entries lie in one table and are free, from an index on.
  pub record IsFree (ptab index n : ℕ) (w : Walk) : Type 0 where
    pub la_page : w.la % 4096 ≡ 0
    pub pa_page : w.pa % 4096 ≡ 0
    pub size : w.size ≡ 4096 * n
    pub la_room : w.la + 4096 * n < 2 ^ 64
    pub pa_room : w.pa + 4096 * n < 2 ^ 64
    pub at : w.la / 4096 % 512 ≡ index
    pub inside : index + n ≤ 512
    pub free : (i : ℕ) → i < n → w.entries (ptab + 8 * (index + i)) ≡ 0

  -- The pages are mapped in their order, and no other entry changes.
  pub record Mapped (ptab index n : ℕ) (w w' : Walk) : Type 0 where
    pub done : w'.size ≡ 0
    pub mapped :
        (i : ℕ) → i < n → w'.entries (ptab + 8 * (index + i)) ≡ leaf_entry (w.pa + 4096 * i)
    pub others :
        (x : ℕ) → (x < ptab + 8 * index) ⊎ (ptab + 8 * (index + n) ≤ x) → w'.entries x ≡ w.entries x

  -- The walk behind a page.
  abbrev behind : ℕ → ℕ → Walk → Walk
  behind ptab index w = record {
    la = add_word w.la 4096;
    pa = add_word w.pa 4096;
    size = w.size - 4096;
    entries = λ x. if x == ptab + 8 * index then leaf_entry w.pa else w.entries x;
    tables = w.tables;
  }

  round :
      (below : ℕ → Walk → Result Walk) (ptab index n : ℕ) (w : Walk)
      → IsFree ptab index (suc n) w
      → map_round cpu alloc bits below 0 ptab w ≡ ok (behind ptab index w)
  unfolding map_round allow_leaf is_leaf leaf_bit
  round below ptab index n w f =
      let none_yet : w.entries (ptab + 8 * index) ≡ 0 =
        ap (λ j. w.entries (ptab + 8 * j)) (omega arith) ∙ f.free 0 (omega arith) in
      let big : leb 4096 w.size ≡ true = le→leb 4096 w.size (omega (arith, f.size)) in
      let here : (ptab + 8 * index == ptab + 8 * index) ≡ true = ground arith in
      rw (f.at, none_yet, f.la_page, f.pa_page, big, here, leaf_valid w.pa bits 0) refl

  behind-IsFree :
      (ptab index n : ℕ) (w : Walk)
      → IsFree ptab index (suc (suc n)) w
      → IsFree ptab (index + 1) (suc n) (behind ptab index w)
  behind-IsFree ptab index n w f = record {
    la_page = omega (arith, f.la_page, f.la_room);
    pa_page = omega (arith, f.pa_page, f.pa_room);
    size = omega (arith, f.size);
    la_room = omega (arith, f.la_room);
    pa_room = omega (arith, f.pa_room);
    at = omega (arith, f.at, f.la_page, f.la_room, f.inside);
    inside = omega (arith, f.inside);
    free = λ i h.
        other (ptab + 8 * (index + 1 + i)) (omega arith)
        ∙ ap (λ j. w.entries (ptab + 8 * j)) (omega arith)
        ∙ f.free (i + 1) (omega arith);
  }
    where
      other :
          (x : ℕ)
          → ptab + 8 * index < x
          → (if x == ptab + 8 * index then leaf_entry w.pa else w.entries x) ≡ w.entries x
      other x h = ground (arith, h)

  Mapped-one :
      (ptab index : ℕ) (w : Walk)
      → IsFree ptab index 1 w
      → Mapped ptab index 1 w (behind ptab index w)
  Mapped-one ptab index w f = record {
    done = omega (arith, f.size);
    mapped = λ i h. ground (arith, h, first i h);
    others = λ x o. ground (arith, o);
  }
    where
      first : (i : ℕ) → i < 1 → leaf_entry w.pa ≡ leaf_entry (w.pa + 4096 * i)
      first i h = ap leaf_entry (omega arith)

  Mapped-step :
      (ptab index n : ℕ) (w w' : Walk)
      → IsFree ptab index (suc (suc n)) w
      → Mapped ptab (index + 1) (suc n) (behind ptab index w) w'
      → Mapped ptab index (suc (suc n)) w w'
  Mapped-step ptab index n w w' f m = record {
    done = m.done;
    mapped = entry;
    others = λ x o. m.others x (narrow x o) ∙ other x o;
  }
    where
      entry :
          (i : ℕ)
          → i < suc (suc n)
          → w'.entries (ptab + 8 * (index + i)) ≡ leaf_entry (w.pa + 4096 * i)
      entry zero h =
          let x = ptab + 8 * (index + 0) in
          let here : (if x == ptab + 8 * index then leaf_entry w.pa else w.entries x)
              ≡ leaf_entry w.pa =
            ground arith in
          let same : w.pa ≡ w.pa + 4096 * 0 = omega arith in
          m.others x (inl (omega arith)) ∙ here ∙ ap leaf_entry same
      entry (suc i) h =
          ap (λ j. w'.entries (ptab + 8 * j)) (omega arith)
          ∙ m.mapped i (omega (arith, h))
          ∙ ap leaf_entry (omega (arith, f.pa_room))

      narrow :
          (x : ℕ)
          → (x < ptab + 8 * index) ⊎ (ptab + 8 * (index + suc (suc n)) ≤ x)
          → (x < ptab + 8 * (index + 1)) ⊎ (ptab + 8 * (index + 1 + suc n) ≤ x)
      narrow x (inl l) = inl (omega (arith, l))
      narrow x (inr l) = inr (omega (arith, l))

      other :
          (x : ℕ)
          → (x < ptab + 8 * index) ⊎ (ptab + 8 * (index + suc (suc n)) ≤ x)
          → (if x == ptab + 8 * index then leaf_entry w.pa else w.entries x) ≡ w.entries x
      other x o = ground (arith, o)

  rounds :
      (below : ℕ → Walk → Result Walk) (fuel ptab index n : ℕ) (w : Walk)
      → n < fuel
      → IsFree ptab index (suc n) w
      → (w' : Walk) × (map_rounds cpu alloc bits below fuel 0 ptab w ≡ ok w')
        × Mapped ptab index (suc n) w w'
  unfolding map_rounds
  rounds below zero ptab index n w h f = absurd (omega arith)
  rounds below (suc fuel) ptab index zero w h f =
      let over : ltb 0 (w.size - 4096) ≡ false = ground (arith, f.size) in
      (behind ptab index w, rw (round below ptab index 0 w f, over) refl, Mapped-one ptab index w f)
  rounds below (suc fuel) ptab index (suc n) w h f =
      let (w', p, m) =
        rounds below fuel ptab (index + 1) n (behind ptab index w) (omega arith)
          (behind-IsFree ptab index n w f) in
      let more : ltb 0 (w.size - 4096) ≡ true = ground (arith, f.size) in
      let inside : (add_word w.la 4096 % 2 ^ 21 == 0) ≡ false =
        ground (arith, f.at, f.la_page, f.la_room, f.inside) in
      (
        w',
        rw (round below ptab index (suc n) w f, more, inside) p,
        Mapped-step ptab index n w w' f m,
      )

  -- At the lowest level, for a walk over whole pages whose entries lie in one table and are all
  -- free, in addresses that do not reach the end of the address space: with as much fuel as there
  -- are pages `ptab_map_level` returns with nothing left, the entry of each page holds its physical
  -- address, the valid bit and the bits of the mapping, and no other entry changes.
  pub ptab_map_level-Mapped :
      (fuel ptab index n : ℕ) (w : Walk)
      → n < fuel
      → IsFree ptab index (suc n) w
      → (w' : Walk) × (ptab_map_level cpu alloc bits fuel 0 ptab w ≡ ok w')
        × Mapped ptab index (suc n) w w'
  unfolding ptab_map_level
  ptab_map_level-Mapped fuel ptab index n w h f =
      rounds (λ p v. err assertion) fuel ptab index n w h f
