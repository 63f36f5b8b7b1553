-- ===== src/Startup/Kmem.antt =====
-- `add_kmem_area_on_ram` where a single byte is left in front of a region.
use bootstrap.Prelude.{
  ℕ, zero, suc, ◌+◌, ◌^◌, ◌<◌, ◌≡◌, refl, ap, ◌∙◌, Result, Bool, true, false, List, ◌∷◌, ok, err,
  out_of_fuel, arith, ltb, leb, ◌==◌, Bool-cases, inl, inr, le→leb, lt→ltb, ==_refl, add_word,
  sub_word,
}
use bootstrap.Align.{Align}
use bootstrap.Region.{Region, region, overlaps, kmem, IsRange, size}
use bootstrap.RegionList.{RegionList, add, limit_address, limit_size, add_nolimitcheck}
use bootstrap.Startup.Layout.{kmem_loop, kmem_rounds, add_kmem_area_on_ram}

-- A region of one byte.
abbrev byte_region : ℕ → ℕ → Region
byte_region name b = record {
  begin = b;
  end = b;
  name = name;
  type = kmem;
  sub_type = 0;
  eager = false;
}

-- It is dropped.
add-byte_region :
    (a : Align) (l : RegionList) (name b : ℕ)
    → b < 2 ^ 64
    → l.combined_size + 1 < 2 ^ 64
    → add a l (byte_region name b) false ≡ ok l
unfolding add limit_address limit_size add_nolimitcheck size
add-byte_region a l name b w c = elim (Bool-cases (b == 0)) [
  | inl z ↦ rw (z) refl
  | inr z ↦ elim (Bool-cases (ltb l.address_limit b)) [
    | inl h ↦ rw (z, h) refl
    | inr h ↦ elim (Bool-cases (leb l.max_combined_size l.combined_size)) [
      | inl k ↦ rw (z, h, k) refl
      | inr k ↦ rw (z, h, k, one, fits k, ==_refl b) refl
    ]
  ]
]
  where
    one : size (byte_region name b) ≡ 1
    one = omega (arith, w)

    fits :
        leb l.max_combined_size l.combined_size ≡ false
        → ltb l.max_combined_size (add_word l.combined_size 1) ≡ false
    fits k = ground (arith, c)

-- A round at such a region begins the next one with the same list.
kmem_loop-same :
    (a : Align) (name : ℕ) (go : RegionList → Region → Result (Bool × RegionList)) (added : Bool)
    (l : RegionList) (r : Region) (rs : List Region) (r_add : Region)
    → l.combined_size + 1 < 2 ^ 64
    → IsRange r_add
    → overlaps r_add r ≡ true
    → r_add.begin + 1 ≡ r.begin
    → kmem_loop a name go l added (r ∷ rs) r_add ≡ go l r_add
unfolding kmem_loop region
kmem_loop-same a name go added l r rs r_add c i o h =
    rw
      (
        o,
        front,
        last,
        le→leb r_add.begin r_add.begin (omega arith),
        add-byte_region a l name r_add.begin (omega (arith, i)) c,
      )
      refl
  where
    front : ltb r_add.begin r.begin ≡ true
    front = lt→ltb r_add.begin r.begin (omega (arith, h))

    last : sub_word r.begin 1 ≡ r_add.begin
    last = omega (arith, h, i)

kmem_rounds_hangs :
    (a : Align) (name fuel : ℕ) (added : Bool) (l : RegionList) (r : Region) (rs : List Region)
    (r_add : Region)
    → l.regs ≡ r ∷ rs
    → l.combined_size + 1 < 2 ^ 64
    → IsRange r_add
    → overlaps r_add r ≡ true
    → r_add.begin + 1 ≡ r.begin
    → kmem_rounds a name fuel added l r_add ≡ err out_of_fuel
unfolding kmem_rounds
kmem_rounds_hangs a name zero added l r rs r_add e c i o h = refl
kmem_rounds_hangs a name (suc fuel) added l r rs r_add e c i o h =
    ap (λ x. kmem_loop a name (kmem_rounds a name fuel true) l added x r_add) e
    ∙ kmem_loop-same a name (kmem_rounds a name fuel true) added l r rs r_add c i o h
    ∙ kmem_rounds_hangs a name fuel true l r rs r_add e c i o h

-- The loop never ends, and no number of rounds is enough, where the area begins one byte in front
-- of the first region and overlaps it: the region of one byte that it adds is dropped, and so it
-- adds it again. The size recorded in the list is not the largest word.
pub add_kmem_area_on_ram_hangs :
    (a : Align) (name fuel : ℕ) (l : RegionList) (r : Region) (rs : List Region) (r_add : Region)
    → l.regs ≡ r ∷ rs
    → l.combined_size + 1 < 2 ^ 64
    → IsRange r_add
    → overlaps r_add r ≡ true
    → r_add.begin + 1 ≡ r.begin
    → add_kmem_area_on_ram a name fuel l r_add ≡ err out_of_fuel
unfolding add_kmem_area_on_ram
add_kmem_area_on_ram_hangs a name fuel l r rs r_add e c i o h =
    kmem_rounds_hangs a name fuel false l r rs r_add e c i o h
