-- ===== src/Acpi/Selection.antt =====
-- The root tables that `Sdt::init` selects.
use native.Mathlib.Nat.{zero-add}
use bootstrap.Prelude.{
  ℕ, ◌+◌, ◌≡◌, ◌≢◌, inl, inr, true, false, ◌&&◌, not, [], ◌==◌, ==→eq, Bool-cases, arith, Bool, ◌%◌,
  ◌^◌, min, sym, ap, ◌∙◌, refl,
}
use bootstrap.Acpi.{
  bytes_at, sum_bytes, field, check_signature, table_checksum_ok, Sdt, rsd_ptr, init_rsdt, init,
  rsdp_checksum_ok,
}
use bootstrap.Acpi.Lookup.{
  total, sum_bytes-total, IsTable, signature-matches, signature-differs, found, missed,
}

-- The pointer structure has its signature, its first 20 bytes have a sum that is 0 in one byte, and
-- for a revision other than 0 so have all bytes of its length, of which 4096 count at most.
pub record IsRoot (mem : ℕ → ℕ) (root : ℕ) : Type 0 where
  pub signature : bytes_at mem root 8 ≡ rsd_ptr
  pub checksum : total (bytes_at mem root 20) % 2 ^ 8 ≡ 0
  pub extended :
      mem (root + 15) ≢ 0
      → total (bytes_at mem root (min (field mem 4 (root + 20)) 4096)) % 2 ^ 8 ≡ 0

sum_from_zero :
    (mem : ℕ → ℕ) (root n : ℕ) → sum_bytes mem root n 0 ≡ total (bytes_at mem root n) % 2 ^ 8
sum_from_zero mem root n =
    sum_bytes-total mem root n 0 (omega arith)
    ∙ ap (λ k. k % 2 ^ 8) (zero-add (total (bytes_at mem root n)))

rsdp_checksum_ok-IsRoot :
    (mem : ℕ → ℕ) (root : ℕ)
    → bytes_at mem root 8 ≡ rsd_ptr
    → rsdp_checksum_ok mem root ≡ true
    → IsRoot mem root
unfolding rsdp_checksum_ok
rsdp_checksum_ok-IsRoot mem root s h = elim (Bool-cases (sum_bytes mem root 20 0 == 0)) [
  | inr n ↦ absurd (ground (arith, (rw n at h)))
  | inl z ↦
      let zero_sum : sum_bytes mem root 20 0 ≡ 0 = ==→eq (sum_bytes mem root 20 0) 0 z in
      record {
        signature = s;
        checksum = sym (sum_from_zero mem root 20) ∙ zero_sum;
        extended = λ ne. sym (sum_from_zero mem root _) ∙ ground (arith, ne, (rw zero_sum at h));
      }
]

IsRoot-rsdp_checksum_ok :
    (mem : ℕ → ℕ) (root : ℕ) → IsRoot mem root → rsdp_checksum_ok mem root ≡ true
unfolding rsdp_checksum_ok
IsRoot-rsdp_checksum_ok mem root r = rw zero_sum (elim (Bool-cases (mem (root + 15) == 0)) [
  | inl e ↦ rw e refl
  | inr e ↦ rw e (
      ground (
        arith,
        sum_from_zero mem root (min (field mem 4 (root + 20)) 4096),
        r.extended (ground (arith, e)),
      ))
])
  where
    zero_sum : sum_bytes mem root 20 0 ≡ 0
    zero_sum = sum_from_zero mem root 20 ∙ r.checksum

-- The XSDT that it names can be used: the revision is not 0, the address neither, and the bytes
-- have a sum that is 0 modulo 256 (no signature is asked for).
abbrev pub HasXsdt : (ℕ → ℕ) → ℕ → Type 0
HasXsdt mem root = (mem (root + 15) ≢ 0) × IsTable mem [] (field mem 8 (root + 24))

-- So can the RSDT.
abbrev pub HasRsdt : (ℕ → ℕ) → ℕ → Type 0
HasRsdt mem root = IsTable mem [] (field mem 4 (root + 16))

-- The choice between the root tables.
pub data Selected (mem : ℕ → ℕ) (root : ℕ) (s : Sdt) : Bool × Sdt → Type 0 where
  no_root : (IsRoot mem root → ⊥) → Selected mem root s (false, s)
  with_xsdt :
      IsRoot mem root
      → HasXsdt mem root
      → Selected mem root s (true, record { xsdt = field mem 8 (root + 24); rsdt = s.rsdt })
  with_rsdt :
      IsRoot mem root
      → (HasXsdt mem root → ⊥)
      → HasRsdt mem root
      → Selected mem root s (true, record { xsdt = s.xsdt; rsdt = field mem 4 (root + 16) })
  no_table : (HasXsdt mem root → ⊥) → (HasRsdt mem root → ⊥) → Selected mem root s (false, s)

module _ (mem : ℕ → ℕ) (root : ℕ) (s : Sdt) where
  zero-no_table : (t : ℕ) → (t == 0) ≡ true → IsTable mem [] t → ⊥
  zero-no_table t z is = is.present (ground (arith, z))

  init_rsdt-Selected :
      IsRoot mem root
      → (HasXsdt mem root → ⊥)
      → Selected mem root s (init_rsdt mem (field mem 4 (root + 16)) s)
  unfolding check_signature
  init_rsdt-Selected e n = elim (Bool-cases (field mem 4 (root + 16) == 0)) [
    | inl z ↦ rw (z) (no_table n (zero-no_table (field mem 4 (root + 16)) z))
    | inr z ↦ elim (Bool-cases (table_checksum_ok mem (field mem 4 (root + 16)))) [
      | inl c ↦ rw (z, c) (with_rsdt e n (found mem s [] (field mem 4 (root + 16)) z c))
      | inr c ↦ rw (z, c) (no_table n (missed mem s [] (field mem 4 (root + 16)) c))
    ]
  ]

  xsdt_cases :
      ((not (mem (root + 15) == 0) && not (field mem 8 (root + 24) == 0))
          && table_checksum_ok mem (field mem 8 (root + 24)))
        ≡ false
      → HasXsdt mem root
      → ⊥
  unfolding check_signature
  xsdt_cases h (r, is) = elim (Bool-cases (table_checksum_ok mem (field mem 8 (root + 24)))) [
    | inl c ↦ grind (arith, h, c, r, is.present)
    | inr c ↦ missed mem s [] (field mem 8 (root + 24)) c is
  ]

  xsdt_usable :
      ((not (mem (root + 15) == 0) && not (field mem 8 (root + 24) == 0))
          && table_checksum_ok mem (field mem 8 (root + 24)))
        ≡ true
      → HasXsdt mem root
  unfolding check_signature
  xsdt_usable h = (
    ground (arith, h),
    found mem s [] (field mem 8 (root + 24)) (ground (arith, h)) (ground (arith, h)),
  )

  -- `init` uses the root tables only if the pointer structure has its signature and its checksums:
  -- the XSDT if it can be used, else the RSDT if it can; in all other cases the answer is false, and
  -- the state stays.
  pub init-Selected : Selected mem root s (init mem root s)
  unfolding init
  init-Selected = elim (Bool-cases (check_signature mem root rsd_ptr)) [
    | inr h ↦ rw (h) (no_root (λ e. signature-differs mem root rsd_ptr h e.signature))
    | inl h ↦ elim (Bool-cases (rsdp_checksum_ok mem root)) [
      | inr c ↦ rw (h, c) (no_root (λ e. ground (arith, c, IsRoot-rsdp_checksum_ok mem root e)))
      | inl c ↦
          let is : IsRoot mem root =
            rsdp_checksum_ok-IsRoot mem root (signature-matches mem root rsd_ptr h) c in
          elim (Bool-cases (
            (not (mem (root + 15) == 0) && not (field mem 8 (root + 24) == 0))
            && table_checksum_ok mem (field mem 8 (root + 24)))) [
              | inl x ↦ rw (h, c, x) (with_xsdt is (xsdt_usable x))
              | inr x ↦ rw (h, c, x) (init_rsdt-Selected is (xsdt_cases x))
            ]
    ]
  ]
