-- ===== src/KernelInfo/Descriptors.antt =====
-- The descriptors that `init_kip_md` writes, as the kernel reads them.
use bootstrap.Prelude.{
  ℕ, ◌+◌, ◌%◌, ◌^◌, ◌≤◌, ◌<◌, ◌≡◌, Bool, true, false, ◌&&◌, ◌||◌, List, [], ◌∷◌, arith, leb,
}
use bootstrap.Align.{Align, IsAlign}
use bootstrap.Region.{Region, holds}
use bootstrap.RegionList.Order.{Above, covered}
use bootstrap.KernelInfo.{MemDesc, ram_desc, ram_descs}

-- Whether a descriptor of a list holds an address.
unfoldable pub described : List MemDesc → ℕ → Bool
described [] x = false
described (m ∷ ms) x = (leb m.begin x && leb x m.end) || described ms x

module _ (a : Align) (al : IsAlign a) where
  -- No RAM region reaches into the last two KiB of the address space or ends in the first KiB.
  unfoldable pub Roomy : List Region → Type 0
  Roomy [] = Unit {0}
  Roomy (r ∷ rs) = (r.end + 2 ^ 11 ≤ 2 ^ 64) × (1024 ≤ r.end) × Roomy rs

  ram_desc_within :
      (r : Region) (x : ℕ)
      → r.begin ≤ r.end
      → r.end + 2 ^ 11 ≤ 2 ^ 64
      → 1024 ≤ r.end
      → (leb (ram_desc a r).begin x && leb x (ram_desc a r).end) ≡ true
      → holds r x ≡ true
  unfolding ram_desc
  ram_desc_within r x k w g h = ground (
    arith,
    h,
    al.le_round r.begin 10 (omega (arith, k, w)),
    al.trunc_le ((r.end + 1) % 2 ^ 64) 10,
    al.lt_trunc ((r.end + 1) % 2 ^ 64) 10,
  )

  -- For RAM regions in order, none of which reaches into the last two KiB of the address space or
  -- ends in the first KiB, every address that the conventional descriptors hold lies in RAM.
  pub ram_descs-covered :
      (rs : List Region) (lo x : ℕ)
      → Above lo rs
      → Roomy rs
      → described (ram_descs a rs) x ≡ true
      → covered rs x ≡ true
  unfolding described ram_descs Roomy
  ram_descs-covered [] lo x v o h = cc
  ram_descs-covered (r ∷ rs) lo x v o h =
      ground (arith, h, ram_desc_within r x v.1 o.0 o.1, ram_descs-covered rs (r.end + 1) x v.3 o.2)

  -- The descriptor of a RAM region that begins at 0 and ends before the last byte of the first KiB
  -- holds the whole address space.
  ram_desc_wraps :
      (r : Region) (x : ℕ)
      → r.begin ≡ 0
      → r.end < 1023
      → x < 2 ^ 64
      → described (ram_descs a (r ∷ [])) x ≡ true
  unfolding described ram_descs ram_desc
  ram_desc_wraps r x b e w = ground (arith, b, w, low, first)
    where
      low : a.trunc_size ((r.end + 1) % 2 ^ 64) 10 ≡ 0
      low = omega (
        arith,
        e,
        al.trunc_le ((r.end + 1) % 2 ^ 64) 10,
        al.trunc_multiple ((r.end + 1) % 2 ^ 64) 10,
      )

      first : a.round_size r.begin 10 ≡ 0
      first = omega (
        arith,
        b,
        al.round_multiple r.begin 10 (omega (arith, b)),
        al.round_lt r.begin 10 (omega (arith, b)),
      )
