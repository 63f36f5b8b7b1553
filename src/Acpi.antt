-- ===== src/Acpi.antt =====
-- acpi.cc and acpi.h in server/src: the root tables of ACPI, and the search for a table in them, on
-- a machine with 64-bit addresses. Memory is a function from addresses to bytes.
pub mod Lookup
pub mod Selection
mod Tests
use bootstrap.Prelude.{
  ℕ, zero, suc, ◌+◌, ◌*◌, ◌/◌, ◌%◌, ◌^◌, min, Bool, true, false, ◌&&◌, ◌||◌, not, Option, none,
  some, List, [], ◌∷◌, ◌==◌, if◌then◌else◌, sub_word, le_value,
}

-- Some bytes from an address on, and a field of some bytes.
unfoldable pub bytes_at : (ℕ → ℕ) → ℕ → ℕ → List ℕ
bytes_at mem addr zero = []
bytes_at mem addr (suc n) = mem addr ∷ bytes_at mem (addr + 1) n

abbrev pub field : (ℕ → ℕ) → ℕ → ℕ → ℕ
field mem n addr = le_value (bytes_at mem addr n)

-- `check_signature`; the reference is the list of its characters in front of the null character.
unfoldable pub check_signature : (ℕ → ℕ) → ℕ → List ℕ → Bool
check_signature mem sig [] = true
check_signature mem sig (c ∷ cs) =
    let rest = check_signature mem (sig + 1) cs in if not (c == mem sig) then false else rest

-- The loops of the two functions `checksum_ok`, for the sum so far.
unfoldable pub sum_bytes : (ℕ → ℕ) → ℕ → ℕ → ℕ → ℕ
sum_bytes mem addr zero sum = sum
sum_bytes mem addr (suc n) sum = sum_bytes mem (addr + 1) n ((sum + mem addr) % 2 ^ 8)

-- `Table_head::checksum_ok`; the length is the field at 4.
unfoldable pub table_checksum_ok : (ℕ → ℕ) → ℕ → Bool
unfolding sum_bytes
table_checksum_ok mem t = sum_bytes mem t (field mem 4 (t + 4)) 0 == 0

-- `Rsdp::checksum_ok`; the revision is the byte at 15 and the length the field at 20.
unfoldable pub rsdp_checksum_ok : (ℕ → ℕ) → ℕ → Bool
unfolding sum_bytes
rsdp_checksum_ok mem r =
    let sum = sum_bytes mem r 20 0 in
    if not (sum == 0)
    then false
    else if mem (r + 15) == 0
    then true
    else sum_bytes mem r (min (field mem 4 (r + 20)) 4096) sum == 0

-- The state of `Sdt`, with 0 for a null pointer.
pub record Sdt : Type 0 where
  pub xsdt : ℕ
  pub rsdt : ℕ

-- "RSD PTR "
abbrev pub rsd_ptr : List ℕ
rsd_ptr = 82 ∷ 83 ∷ 68 ∷ 32 ∷ 80 ∷ 84 ∷ 82 ∷ 32 ∷ []

-- `Sdt::init`, without what it prints; the addresses of the tables are the fields at 24 and 16.
abbrev pub init_rsdt : (ℕ → ℕ) → ℕ → Sdt → Bool × Sdt
init_rsdt mem rsdt s =
    if not (rsdt == 0) && table_checksum_ok mem rsdt
    then (true, record { xsdt = s.xsdt; rsdt = rsdt })
    else (false, s)

unfoldable pub init : (ℕ → ℕ) → ℕ → Sdt → Bool × Sdt
unfolding check_signature rsdp_checksum_ok table_checksum_ok
init mem root s =
    let xsdt = field mem 8 (root + 24) in
    if not (check_signature mem root rsd_ptr) || not (rsdp_checksum_ok mem root)
    then (false, s)
    else if (not (mem (root + 15) == 0) && not (xsdt == 0)) && table_checksum_ok mem xsdt
    then (true, record { xsdt = xsdt; rsdt = s.rsdt })
    else init_rsdt mem (field mem 4 (root + 16)) s

-- `Sdt::entries`: the subtraction is one of words, and the result is cut to 32 bits.
unfoldable pub entries : (ℕ → ℕ) → Sdt → ℕ
entries mem s =
    if not (s.xsdt == 0)
    then sub_word (field mem 4 (s.xsdt + 4)) 36 / 8 % 2 ^ 32
    else if not (s.rsdt == 0)
    then sub_word (field mem 4 (s.rsdt + 4)) 36 / 4 % 2 ^ 32
    else 0

-- `Sdt::entry`
unfoldable pub entry : (ℕ → ℕ) → Sdt → ℕ → ℕ
entry mem s i =
    if not (s.xsdt == 0)
    then field mem 8 (s.xsdt + 36 + 8 * i)
    else if not (s.rsdt == 0)
    then field mem 4 (s.rsdt + 36 + 4 * i)
    else 0

-- `Sdt::find_head`, with the number of entries that are left for the loop.
unfoldable pub find_from : (ℕ → ℕ) → Sdt → List ℕ → ℕ → ℕ → Option ℕ
unfolding entry check_signature table_checksum_ok
find_from mem s sig zero i = none
find_from mem s sig (suc left) i =
    let rest = find_from mem s sig left (i + 1) in
    let t = entry mem s i in
    if t == 0
    then rest
    else if check_signature mem t sig && table_checksum_ok mem t
    then some t
    else rest

unfoldable pub find_head : (ℕ → ℕ) → Sdt → List ℕ → Option ℕ
unfolding find_from entries
find_head mem s sig = find_from mem s sig (entries mem s) 0
