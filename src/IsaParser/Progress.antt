-- ===== src/IsaParser/Progress.antt =====
-- `next_ext` ends and makes progress.
use bootstrap.Prelude.{
  ℕ, zero, suc, ◌≤◌, ◌<◌, ◌≡◌, refl, inl, inr, Bool, true, false, List, [], ◌∷◌, ok, arith, length,
  Bool-cases, ◌||◌, not, ◌==◌,
}
use bootstrap.IsaParser.{
  IsaParser, skip, skip_minor, skip_version, found, isalpha, isdigit, multi_letter, invalid_su,
  next_ext, prefix, drop_one,
}

skip-le : (p : ℕ → Bool) (before : ℕ) (cs : List ℕ) → length (skip p before cs).text ≤ length cs
unfolding skip
skip-le p before [] = omega arith
skip-le p before (c ∷ cs) = ground (arith, skip-le p c cs)

skip_minor-le : (before : ℕ) (cs : List ℕ) → length (skip_minor before cs).text ≤ length cs
unfolding skip_minor
skip_minor-le before [] = omega arith
skip_minor-le before (c ∷ cs) = ground (arith, skip-le isdigit c cs)

skip_version-le : (before : ℕ) (cs : List ℕ) → length (skip_version before cs).text ≤ length cs
unfolding skip_version
skip_version-le before [] = omega arith
skip_version-le before (c ∷ cs) =
    ground (
      arith,
      skip_minor-le (skip isdigit c cs).before (skip isdigit c cs).text,
      skip-le isdigit c cs,
    )

-- What a call of `next_ext` achieves: an extension that is not empty and a shorter text, or the end of
-- the text.
pub data Outcome (text : List ℕ) : Bool × IsaParser → Type 0 where
  next_one :
      (isa : IsaParser)
      → length isa.cur.text < length text
      → 0 < length isa.ext
      → Outcome text (true, isa)
  at_end : (isa : IsaParser) → isa.cur.text ≡ [] → Outcome text (false, isa)

Outcome-longer :
    (cs ds : List ℕ) (r : Bool × IsaParser) → length cs ≤ length ds → Outcome cs r → Outcome ds r
Outcome-longer cs ds r h (next_one isa lt e) = next_one isa (omega (arith, lt, h)) e
Outcome-longer cs ds r h (at_end isa e) = at_end isa e

Outcome-found :
    (c before : ℕ) (cs ds es : List ℕ) (e : Bool)
    → length ds ≤ length cs
    → Outcome (c ∷ cs) (found (c ∷ es) (record { before = before; text = ds }) e)
unfolding found
Outcome-found c before cs ds es e h =
    next_one _ (omega (arith, h, skip_version-le before ds)) (omega arith)

drop_one-le : (cs : List ℕ) → length (drop_one cs) ≤ length cs
drop_one-le [] = omega arith
drop_one-le (c ∷ cs) = omega arith

-- With more rounds than there are characters left, `next_ext` ends: it finds an extension that is
-- not empty and goes forward in the text, or it reaches the end of the text.
pub next_ext-Outcome :
    (fuel before : ℕ) (text : List ℕ) (e : Bool)
    → length text < fuel
    → (r : Bool × IsaParser) × (next_ext fuel before text e ≡ ok r) × Outcome text r
unfolding next_ext
next_ext-Outcome zero before text e h = absurd (omega arith)
next_ext-Outcome (suc fuel) before [] e h = (_, refl, at_end _ refl)
next_ext-Outcome (suc fuel) before (c ∷ cs) e h = elim (Bool-cases (invalid_su before c cs)) [
  | inl su ↦
      let (r, p, o) =
        next_ext-Outcome fuel 117 (drop_one cs) e (omega (arith, h, drop_one-le cs)) in
      (r, rw su p, Outcome-longer (drop_one cs) (c ∷ cs) r (omega (arith, drop_one-le cs)) o)
  | inr su ↦ elim (Bool-cases (multi_letter c)) [
    | inl m ↦ (
      _,
      rw (su, m) refl,
      Outcome-found c (skip isalpha c cs).before cs (skip isalpha c cs).text (prefix isalpha cs) e
          (skip-le isalpha c cs),
    )
    | inr m ↦ elim (Bool-cases (isalpha c)) [
      | inl a ↦ (_, rw (su, m, a) refl, Outcome-found c c cs cs [] e (omega arith))
      | inr a ↦
          let (r, p, o) = next_ext-Outcome fuel c cs (e || not (c == 95)) (omega (arith, h)) in
          (r, rw (su, m, a) p, Outcome-longer cs (c ∷ cs) r (omega arith) o)
    ]
  ]
]
