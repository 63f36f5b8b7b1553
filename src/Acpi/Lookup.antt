-- ===== src/Acpi/Lookup.antt =====
-- The tables that `Sdt::find_head` finds.
use bootstrap.Prelude.{
  ℕ, zero, suc, ◌+◌, ◌%◌, ◌^◌, ◌<◌, ◌≤◌, ◌≡◌, ◌≢◌, inl, inr, refl, true, false, ◌&&◌, none, some,
  List, [], ◌∷◌, ◌==◌, length, Bool-cases, arith, Option, sym,
}
use mathlib.Core.Path.{subst}
use bootstrap.Acpi.{
  bytes_at, field, check_signature, sum_bytes, table_checksum_ok, Sdt, entries, entry, find_from,
  find_head,
}

-- The sum of some bytes.
unfoldable pub total : List ℕ → ℕ
total [] = 0
total (b ∷ bs) = b + total bs

-- A table with a signature, all of whose bytes together have a sum that is 0 in one byte.
pub record IsTable (mem : ℕ → ℕ) (sig : List ℕ) (t : ℕ) : Type 0 where
  pub present : t ≢ 0
  pub signature : bytes_at mem t (length sig) ≡ sig
  pub checksum : total (bytes_at mem t (field mem 4 (t + 4))) % 2 ^ 8 ≡ 0

pub sum_bytes-total :
    (mem : ℕ → ℕ) (addr n sum : ℕ)
    → sum < 2 ^ 8
    → sum_bytes mem addr n sum ≡ (sum + total (bytes_at mem addr n)) % 2 ^ 8
unfolding sum_bytes bytes_at total
sum_bytes-total mem addr zero sum h = omega arith
sum_bytes-total mem addr (suc n) sum h =
    omega (arith, sum_bytes-total mem (addr + 1) n ((sum + mem addr) % 2 ^ 8) (omega arith))

pub signature-matches :
    (mem : ℕ → ℕ) (p : ℕ) (sig : List ℕ)
    → check_signature mem p sig ≡ true
    → bytes_at mem p (length sig) ≡ sig
unfolding check_signature bytes_at
signature-matches mem p [] h = refl
signature-matches mem p (c ∷ cs) h = elim (Bool-cases (c == mem p)) [
  | inl e ↦
      let ih : check_signature mem (p + 1) cs ≡ true → bytes_at mem (p + 1) (length cs) ≡ cs =
        signature-matches mem (p + 1) cs in
      grind (arith, e, ih)
  | inr e ↦ absurd (ground (arith, e))
]

pub signature-differs :
    (mem : ℕ → ℕ) (p : ℕ) (sig : List ℕ)
    → check_signature mem p sig ≡ false
    → bytes_at mem p (length sig) ≢ sig
unfolding check_signature bytes_at
signature-differs mem p [] h e = absurd (ground (arith, h))
signature-differs mem p (c ∷ cs) h e = elim (Bool-cases (c == mem p)) [
  | inl k ↦
      let ih : check_signature mem (p + 1) cs ≡ false → bytes_at mem (p + 1) (length cs) ≢ cs =
        signature-differs mem (p + 1) cs in
      grind (arith, k, ih)
  | inr k ↦ grind (arith, k)
]

module _ (mem : ℕ → ℕ) (s : Sdt) (sig : List ℕ) where
  pub found :
      (t : ℕ)
      → (t == 0) ≡ false
      → (check_signature mem t sig && table_checksum_ok mem t) ≡ true
      → IsTable mem sig t
  unfolding table_checksum_ok
  found t p h = record {
    present = ground (arith, p);
    signature = signature-matches mem t sig (ground (arith, h));
    checksum = grind (arith, sum_bytes-total mem t (field mem 4 (t + 4)) 0 (omega arith));
  }

  pub missed :
      (t : ℕ)
      → (check_signature mem t sig && table_checksum_ok mem t) ≡ false
      → IsTable mem sig t
      → ⊥
  unfolding table_checksum_ok
  missed t h is = elim (Bool-cases (check_signature mem t sig)) [
    | inl e ↦
        grind (arith, e, is.checksum, sum_bytes-total mem t (field mem 4 (t + 4)) 0 (omega arith))
    | inr e ↦ signature-differs mem t sig e is.signature
  ]

  -- No entry of a range is such a table.
  abbrev NoneIn : ℕ → ℕ → Type 0
  NoneIn i n = (j : ℕ) → i ≤ j → j < n → IsTable mem sig (entry mem s j) → ⊥

  -- The first entry from one on that is such a table, of those in front of the end.
  abbrev pub FirstFrom : ℕ → ℕ → Option ℕ → Type 0
  FirstFrom i n none = NoneIn i n
  FirstFrom i n (some t) =
      (k : ℕ) × (i ≤ k) × (k < n) × (t ≡ entry mem s k) × IsTable mem sig t × NoneIn i k

  none_step : (i n : ℕ) → (IsTable mem sig (entry mem s i) → ⊥) → NoneIn (i + 1) n → NoneIn i n
  none_step i n m f j a b is = elim (Bool-cases (i == j)) [
    | inl e ↦
        let same : i ≡ j = ground (arith, e) in
        m (subst (λ x. IsTable mem sig (entry mem s x)) (sym same) is)
    | inr e ↦ f j (ground (arith, e, a)) b is
  ]

  step :
      (i n : ℕ) (r : Option ℕ)
      → (IsTable mem sig (entry mem s i) → ⊥)
      → FirstFrom (i + 1) n r
      → FirstFrom i n r
  step i n none m f = none_step i n m f
  step i n (some t) m (k, a, b, c, d, f) = (k, omega arith, b, c, d, none_step i k m f)

  find_from-First : (left i n : ℕ) → i + left ≡ n → FirstFrom i n (find_from mem s sig left i)
  unfolding find_from
  find_from-First zero i n e = λ j a b. absurd (omega arith)
  find_from-First (suc left) i n e =
      let ih : FirstFrom (i + 1) n (find_from mem s sig left (i + 1)) =
        find_from-First left (i + 1) n (omega arith) in
      elim (Bool-cases (entry mem s i == 0)) [
        | inl z ↦
            rw (z) (
              step i n (find_from mem s sig left (i + 1)) (λ is. is.present (ground (arith, z))) ih)
        | inr z ↦
            elim (Bool-cases
              (check_signature mem (entry mem s i) sig && table_checksum_ok mem (entry mem s i))) [
                | inl h ↦
                    rw (z, h)
                      (
                        i,
                        omega arith,
                        omega arith,
                        refl,
                        found (entry mem s i) z h,
                        λ j a b. absurd (omega arith),
                      )
                | inr h ↦
                    rw (z, h)
                      (step i n (find_from mem s sig left (i + 1)) (missed (entry mem s i) h) ih)
              ]
      ]

-- `find_head` returns the first of the entries that is not null, begins with the signature and
-- whose bytes have a sum that is 0 modulo 256, or none if there is no such entry.
pub find_head-First :
    (mem : ℕ → ℕ) (s : Sdt) (sig : List ℕ)
    → FirstFrom mem s sig 0 (entries mem s) (find_head mem s sig)
unfolding find_head
find_head-First mem s sig =
    find_from-First mem s sig (entries mem s) 0 (entries mem s) (omega arith)
