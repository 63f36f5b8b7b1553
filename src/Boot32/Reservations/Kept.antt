-- ===== src/Boot32/Reservations/Kept.antt =====
-- `reservation_add`: what it keeps and what it loses.
use bootstrap.Prelude.{
  ℕ, ◌+◌, ◌-◌, ◌^◌, ◌%◌, ◌≤◌, ◌<◌, refl, ap, ◌∙◌, ok, ◌≡◌, ◌≢◌, inl, inr, Bool, true, false, List,
  [], ◌∷◌, ◌++◌, arith, ltb, leb, ◌==◌, ◌&&◌, ◌||◌, length, Bool-cases, lt→ltb, Option-cases, some,
  none,
}
use mathlib.Core.Path.{subst}
use native.Mathlib.Nat.{mod-eq_of_lt}
use bootstrap.Align.{Align, IsAlign, round_page, trunc_page}
use bootstrap.Boot32.Reservations.{
  Area, overlaps_reservation, area_end, join_entry, add_32, sub_32, new_entry, reservation_add,
  is_range_in_4g, max_reservations,
}
use bootstrap.Boot32.Reservations.Overlap.{Bounded}

some-injective {ℓ} : {A : Type ℓ} {x y : A} → some x ≡ some y → x ≡ y
some-injective e = cc

none-some {ℓ} : {A : Type ℓ} {x : A} → ¬ (none ≡ some x)
none-some e = cc

-- Whether a byte is reserved.
abbrev pub reserved_at : List Area → ℕ → Bool
reserved_at [] x = false
reserved_at (r ∷ rs) x = (leb r.start x && ltb x (r.start + r.size)) || reserved_at rs x

-- No entry begins where the area ends.
abbrev pub NoneAfter : ℕ → List Area → Type 0
NoneAfter e [] = Unit
NoneAfter e (r ∷ rs) = ((r.start == e) ≡ false) × NoneAfter e rs

-- One map holds every byte of another and of an area.
abbrev pub Keeps : ℕ → ℕ → List Area → List Area → Type 0
Keeps start size rs rs' =
    (x : ℕ)
    → ((reserved_at rs x || (leb start x && ltb x (start + size))) ≡ true)
    → reserved_at rs' x ≡ true

module _ (start size : ℕ) (s : 0 < size) (w : start + size < 2 ^ 32) where
  join_entry-Keeps :
      (rs rs' : List Area)
      → Bounded rs
      → NoneAfter (start + size) rs
      → join_entry start size rs ≡ some rs'
      → Keeps start size rs rs'
  unfolding join_entry
  join_entry-Keeps [] rs' b n e x h = cc
  join_entry-Keeps (r ∷ rs) rs' b n e x h =
      elim (Bool-cases (leb r.start start && leb (add_32 start size) (area_end r))) [
        | inl inside ↦
            subst (λ z. reserved_at z x ≡ true) (some-injective (rw (inside) at e)) (ground arith)
        | inr outside ↦ elim (Bool-cases (area_end r == start)) [
          | inl next ↦
              subst (λ z. reserved_at z x ≡ true) (some-injective (rw (outside, next) at e))
                (ground arith)
          | inr gap ↦ elim (Option-cases (join_entry start size rs)) [
            | inl absent ↦ absurd (none-some (rw (outside, gap, after, absent) at e))
            | inr (ys, joined) ↦
                subst (λ z. reserved_at z x ≡ true)
                  (some-injective (rw (outside, gap, after, joined) at e))
                  (ground (arith, join_entry-Keeps rs ys b.1 n.1 joined x))
          ]
        ]
      ]
    where
      after : (r.start == add_32 start size) ≡ false
      after = ground (arith, n.0)

  append-Keeps :
      (rs : List Area) → Keeps start size rs (rs ++ (record { start = start; size = size } ∷ []))
  append-Keeps [] x h = ground arith
  append-Keeps (r ∷ rs) x h = ground (arith, append-Keeps rs x)

new_entry-Keeps :
    (start size : ℕ) (rs : List Area)
    → 0 < size
    → start + size < 2 ^ 32
    → Bounded rs
    → length rs < max_reservations
    → NoneAfter (start + size) rs
    → Keeps start size rs (new_entry start size rs (join_entry start size rs))
new_entry-Keeps start size rs s w b l n x h = elim (Option-cases (join_entry start size rs)) [
  | inl absent ↦
      rw (absent, lt→ltb (length rs) max_reservations l) (append-Keeps start size s w rs x h)
  | inr (ys, joined) ↦ rw (joined) (join_entry-Keeps start size s w rs ys b n joined x h)
]

module _ (a : Align) (al : IsAlign a) where
  -- The area that `reservation_add` adds: whole pages.
  abbrev pub first_page : ℕ → ℕ
  first_page start = trunc_page a start

  abbrev pub all_pages : ℕ → ℕ → ℕ
  all_pages start size = round_page a (start - first_page start + size)

  -- For a size above 0, where the area ends more than a page below 4 GiB, the map is not full, its
  -- entries are not empty and end below 4 GiB, and none of them begins where the pages of the area
  -- end: `reservation_add` does not panic, loses no reserved byte, and reserves all bytes of the area.
  pub reservation_add-Keeps :
      (start size : ℕ) (rs : List Area)
      → 0 < size
      → start + size + 2 ^ a.page_shift < 2 ^ 32
      → Bounded rs
      → length rs < max_reservations
      → NoneAfter (first_page start + all_pages start size) rs
      → (rs' : List Area) × (reservation_add a start size rs ≡ ok rs') × Keeps start size rs rs'
  unfolding reservation_add is_range_in_4g
  reservation_add-Keeps start size rs s w b l n = (
    new_entry begin pages rs (join_entry begin pages rs),
    rw (whole, in_4g) refl,
    λ x h.
        new_entry-Keeps begin pages rs (omega (arith, room, s)) ends b l n x
          (ground (arith, h, before, room)),
  )
    where
      begin : ℕ
      begin = first_page start

      pages : ℕ
      pages = all_pages start size

      before : begin ≤ start
      before = al.trunc_le start a.page_shift

      room : start - begin + size ≤ pages
      room = al.le_round (start - begin + size) a.page_shift (omega (arith, w))

      ends : begin + pages < 2 ^ 32
      ends =
          omega
            (arith, w, before, al.round_lt (start - begin + size) a.page_shift (omega (arith, w)))

      plain : add_32 (sub_32 start begin) size ≡ start - begin + size
      plain = omega (arith, w, before)

      whole : round_page a (add_32 (sub_32 start begin) size) % 2 ^ 32 ≡ pages
      whole = ap (λ k. round_page a k % 2 ^ 32) plain ∙ mod-eq_of_lt (omega (arith, ends))

      in_4g : (leb pages (2 ^ 32) && leb begin (2 ^ 32 - pages)) ≡ true
      in_4g = ground (arith, ends)

-- An area that ends where the first entry begins makes the map lose the last byte of that entry:
-- it was reserved, and it passes the test afterwards if no other entry holds it.
pub join_entry_loses :
    (start size : ℕ) (r : Area) (rs : List Area)
    → 0 < size
    → 0 < r.size
    → r.start + r.size < 2 ^ 32
    → start + size ≡ r.start
    → overlaps_reservation (r.start + r.size - 1) 1 rs ≡ 0
    → (overlaps_reservation (r.start + r.size - 1) 1 (r ∷ rs) ≢ 0)
      × (overlaps_reservation
            (r.start + r.size - 1)
            1
            (new_entry start size (r ∷ rs) (join_entry start size (r ∷ rs)))
          ≡ 0)
unfolding join_entry overlaps_reservation
join_entry_loses start size r rs s z w e h =
    (ground (arith), rw (first, second, third) (ground (arith, h)))
  where
    first : (leb r.start start && leb (add_32 start size) (area_end r)) ≡ false
    first = ground arith

    second : (area_end r == start) ≡ false
    second = ground arith

    third : (r.start == add_32 start size) ≡ true
    third = ground arith
