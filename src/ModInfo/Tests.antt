-- ===== src/ModInfo/Tests.antt =====
-- Two packed attributes.
use bootstrap.Prelude.{ℕ, ◌≡◌, [], ◌∷◌, ok, arith}
use bootstrap.ModInfo.{visited}
use bootstrap.ModInfo.Coding.{Packed, pack_all, attrs_of, visited-pack_all}

abbrev nodes : Packed
nodes = record { key = 110 ∷ 111 ∷ []; val = 49 ∷ 45 ∷ 51 ∷ []; key_exp = 0; val_exp = 1 }

abbrev flags : Packed
flags = record { key = 102 ∷ []; val = []; key_exp = 2; val_exp = 0 }

abbrev no_shift : ℕ → ℕ → ℕ
no_shift i d = 0

visited-pack_all_example :
    visited no_shift 3 (pack_all (nodes ∷ flags ∷ [])) ≡ ok (attrs_of (nodes ∷ flags ∷ []))
visited-pack_all_example =
    visited-pack_all no_shift 3 (nodes ∷ flags ∷ [])
      (
        ((omega arith, (omega arith, omega arith)), (omega arith, (omega arith, omega arith))),
        (
          ((omega arith, (omega arith, omega arith)), (omega arith, (omega arith, omega arith))),
          tt,
        ),
      )
      (omega arith)
