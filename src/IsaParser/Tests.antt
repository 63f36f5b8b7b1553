-- ===== src/IsaParser/Tests.antt =====
-- The string "rv_su2p0zba" from the underscore on, and the theorem about `next_ext` at it.
use bootstrap.Prelude.{ℕ, ◌≡◌, refl, Bool, true, false, List, [], ◌∷◌, ok, arith}
use bootstrap.IsaParser.{
  IsaParser, next_ext, invalid_su, found, skip, skip_minor, skip_version, prefix,
}
use bootstrap.IsaParser.Progress.{Outcome, next_ext-Outcome}

abbrev text : List ℕ
text = 95 ∷ 115 ∷ 117 ∷ 50 ∷ 112 ∷ 48 ∷ 122 ∷ 98 ∷ 97 ∷ []

next_ext_runs :
    next_ext 10 118 text false
    ≡ ok (
      true,
      record {
        cur = record { before = 48; text = 122 ∷ 98 ∷ 97 ∷ [] };
        ext = 115 ∷ 117 ∷ [];
        has_err = false;
      },
    )
unfolding next_ext invalid_su found skip skip_minor skip_version prefix
next_ext_runs = refl

next_ext-Outcome_example :
    (r : Bool × IsaParser) × (next_ext 10 118 text false ≡ ok r) × Outcome text r
next_ext-Outcome_example = next_ext-Outcome 10 118 text false (omega arith)
