-- ===== src/Startup/CommandLine.antt =====
-- `check_arg`: where it finds an argument, and where it does not end.
use bootstrap.Prelude.{
  ℕ, zero, suc, ◌+◌, ◌<◌, ◌≡◌, refl, sym, ap, ◌∙◌, inl, inr, true, false, none, some, List, [], ◌∷◌,
  ok, err, arith, drop, length, Bool-cases, Option-cases, ◌↔◌, ◌⊎◌, ◌≤◌, Option, get_elem?, ltb,
  ok-injective, out_of_fuel,
}
use native.Mathlib.Nat.{zero-add}
use bootstrap.Startup.{starts_with, strstr, at_word, check_from, check_arg}

strstr-here : (s arg : List ℕ) → starts_with s arg ≡ true → strstr s arg ≡ some 0
unfolding strstr
strstr-here [] arg h = rw h refl
strstr-here (c ∷ s) arg h = rw h refl

-- What `strstr` returns is an occurrence, and there is none before it.
strstr-occurs : (s arg : List ℕ) (k : ℕ) → strstr s arg ≡ some k → starts_with (drop k s) arg ≡ true
unfolding strstr
strstr-occurs [] arg zero h = ground (arith, h)
strstr-occurs [] arg (suc k) h = ground (arith, h)
strstr-occurs (c ∷ s) arg zero h = ground (arith, h)
strstr-occurs (c ∷ s) arg (suc k) h = elim (Option-cases (strstr s arg)) [
  | inl n ↦ ground (arith, h, n)
  | inr (j, e) ↦ ground (arith, h, e, strstr-occurs s arg k)
]

strstr-earlier :
    (s arg : List ℕ) (k j : ℕ) → strstr s arg ≡ some k → j < k → starts_with (drop j s) arg ≡ false
unfolding strstr
strstr-earlier [] arg k j h lt = ground (arith, h, lt)
strstr-earlier (c ∷ s) arg k zero h lt = ground (arith, h, lt)
strstr-earlier (c ∷ s) arg k (suc j) h lt = elim (Option-cases (strstr s arg)) [
  | inl n ↦ ground (arith, h, n, lt)
  | inr (i, e) ↦ ground (arith, h, e, lt, strstr-earlier s arg i j e)
]

strstr-none : (s arg : List ℕ) (j : ℕ) → strstr s arg ≡ none → starts_with (drop j s) arg ≡ false
unfolding strstr
strstr-none [] arg zero h = ground (arith, h)
strstr-none [] arg (suc j) h = ground (arith, h)
strstr-none (c ∷ s) arg zero h = ground (arith, h)
strstr-none (c ∷ s) arg (suc j) h = ground (arith, h, strstr-none s arg j)

abbrev no_text : List ℕ
no_text = []

drop-nil : (n : ℕ) → drop n no_text ≡ no_text
drop-nil zero = refl
drop-nil (suc n) = refl

one_more : (s k : ℕ) → suc (s + k) ≡ suc s + k
one_more s k = omega arith

drop-drop : (s k : ℕ) (xs : List ℕ) → drop k (drop s xs) ≡ drop (s + k) xs
drop-drop zero k xs = ap (λ n. drop n xs) (sym (zero-add k))
drop-drop (suc s) k [] = drop-nil k ∙ sym (drop-nil (suc s + k))
drop-drop (suc s) k (x ∷ xs) = drop-drop s k xs ∙ ap (λ n. drop n (x ∷ xs)) (one_more s k)

hangs_from :
    (fuel : ℕ) (cmdline arg : List ℕ) (k s : ℕ)
    → strstr (drop s cmdline) arg ≡ some k
    → at_word cmdline (s + k) ≡ false
    → check_from fuel cmdline arg s ≡ err out_of_fuel
unfolding check_from
hangs_from zero cmdline arg k s h w = refl
hangs_from (suc fuel) cmdline arg k s h w =
    rw (h, w) (hangs_from fuel cmdline arg 0 (s + k) again (ap (at_word cmdline) (omega arith) ∙ w))
  where
    again : strstr (drop (s + k) cmdline) arg ≡ some 0
    again = strstr-here (drop (s + k) cmdline) arg (
        ap (λ t. starts_with t arg) (sym (drop-drop s k cmdline))
        ∙ strstr-occurs (drop s cmdline) arg k h)

-- If the first occurrence of an argument in a command line is neither at its start nor behind a
-- space, `check_arg` never ends: no number of rounds is enough.
pub check_arg_hangs :
    (fuel : ℕ) (cmdline arg : List ℕ) (k : ℕ)
    → strstr cmdline arg ≡ some k
    → at_word cmdline k ≡ false
    → check_arg fuel (some cmdline) arg ≡ err out_of_fuel
unfolding check_arg
check_arg_hangs fuel cmdline arg k h w =
    hangs_from fuel cmdline arg k 0 h (ap (at_word cmdline) (omega arith) ∙ w)

check_arg_returns :
    (fuel : ℕ) (cmdline arg : List ℕ) (k : ℕ)
    → strstr cmdline arg ≡ some k
    → at_word cmdline k ≡ true
    → check_arg (suc fuel) (some cmdline) arg ≡ ok (some (k + length arg))
unfolding check_arg check_from
check_arg_returns fuel cmdline arg k h w = rw (h, zero-add k, w) refl

-- `check_arg` reports that there is no argument, in its first round, exactly if it occurs nowhere.
pub check_arg-none :
    (fuel : ℕ) (cmdline arg : List ℕ)
    → (check_arg (suc fuel) (some cmdline) arg ≡ ok none)
      ↔ ((j : ℕ) → starts_with (drop j cmdline) arg ≡ false)
unfolding check_arg check_from
check_arg-none fuel cmdline arg = elim (Option-cases (strstr cmdline arg)) [
  | inl n ↦ (λ e j. strstr-none cmdline arg j n, λ f. rw n refl)
  | inr (k, h) ↦ elim (Bool-cases (at_word cmdline k)) [
    | inl w ↦
        let finds : check_arg (suc fuel) (some cmdline) arg ≡ ok (some (k + length arg)) =
          check_arg_returns fuel cmdline arg k h w in
        (λ e. cc, λ f. cc (f k, strstr-occurs cmdline arg k h))
    | inr w ↦
        let hangs : check_arg (suc fuel) (some cmdline) arg ≡ err out_of_fuel =
          check_arg_hangs (suc fuel) cmdline arg k h w in
        (λ e. cc, λ f. cc (f k, strstr-occurs cmdline arg k h))
  ]
]

none-some : {A : Type 0} {x : A} → none ≡ some x → ⊥
none-some e = cc

false-true : false ≡ true → ⊥
false-true e = cc

err-ok : {x : Option ℕ} → err out_of_fuel ≡ ok x → ⊥
err-ok e = cc

ok_some : {x y : ℕ} → some x ≡ some y → x ≡ y
ok_some e = cc

returned : {x y : ℕ} → ok (some x) ≡ ok (some y) → y ≡ x
returned e = cc

-- The argument occurs at a position, and nowhere before it.
pub record IsFirst (cmdline arg : List ℕ) (k : ℕ) : Type 0 where
  pub occurs : starts_with (drop k cmdline) arg ≡ true
  pub least : (j : ℕ) → j < k → starts_with (drop j cmdline) arg ≡ false

-- A position at the start of the text or behind white space: a space or one of the characters 9 to 13.
abbrev pub AtWord : List ℕ → ℕ → Type 0
AtWord cmdline zero = Unit
AtWord cmdline (suc i) =
    (c : ℕ) × (get_elem? cmdline i ≡ some c) × ((c ≡ 32) ⊎ ((9 ≤ c) × (c ≤ 13)))

at_word-AtWord : (cmdline : List ℕ) (k : ℕ) → (at_word cmdline k ≡ true) ↔ AtWord cmdline k
unfolding at_word
at_word-AtWord cmdline zero = (λ e. tt, λ w. refl)
at_word-AtWord cmdline (suc i) = elim (Option-cases (get_elem? cmdline i)) [
  | inl n ↦
      (λ e. absurd (false-true (rw (n, at_word) at e)), λ (c, e, w). absurd (none-some (sym n ∙ e)))
  | inr (d, s) ↦ (
    λ e. (d, s, ground (arith, (rw (s, at_word) at e))),
    λ (c, e, w).
        let same : d ≡ c = ok_some (sym s ∙ e) in rw (s, at_word) (ground (arith, same, w)),
  )
]

strstr-IsFirst : (s arg : List ℕ) (k : ℕ) → IsFirst s arg k → strstr s arg ≡ some k
strstr-IsFirst s arg k f = elim (Option-cases (strstr s arg)) [
  | inl n ↦ absurd (false-true (sym (strstr-none s arg k n) ∙ f.occurs))
  | inr (j, e) ↦ elim (Bool-cases (ltb j k)) [
    | inl lt ↦ absurd (false-true (sym (f.least j (ground (arith, lt))) ∙ strstr-occurs s arg j e))
    | inr ge ↦ elim (Bool-cases (ltb k j)) [
      | inl lt ↦
          absurd (false-true (sym (strstr-earlier s arg j k e (ground (arith, lt))) ∙ f.occurs))
      | inr le ↦ let same : j ≡ k = ground (arith, ge, le) in e ∙ ap some same
    ]
  ]
]

-- `check_arg` returns a position in its first round exactly if the first occurrence of the argument
-- is at the start of the command line or behind white space, and the position is the one behind that
-- occurrence.
pub check_arg_finds :
    (fuel : ℕ) (cmdline arg : List ℕ) (r : ℕ)
    → (check_arg (suc fuel) (some cmdline) arg ≡ ok (some r))
      ↔ ((k : ℕ) × (r ≡ k + length arg) × IsFirst cmdline arg k × AtWord cmdline k)
check_arg_finds fuel cmdline arg r = (
  λ e. elim (Option-cases (strstr cmdline arg)) [
    | inl n ↦ absurd (
        none-some (
          ok-injective
            (sym e ∙ (check_arg-none fuel cmdline arg).1 (λ j. strstr-none cmdline arg j n))))
    | inr (k, h) ↦ elim (Bool-cases (at_word cmdline k)) [
      | inl w ↦ (
        k,
        returned (sym (check_arg_returns fuel cmdline arg k h w) ∙ e),
        record {
          occurs = strstr-occurs cmdline arg k h;
          least = λ j. strstr-earlier cmdline arg k j h;
        },
        (at_word-AtWord cmdline k).0 w,
      )
      | inr w ↦ absurd (err-ok (sym (check_arg_hangs (suc fuel) cmdline arg k h w) ∙ e))
    ]
  ],
  λ (k, e, f, w).
      check_arg_returns fuel cmdline arg k (strstr-IsFirst cmdline arg k f)
        ((at_word-AtWord cmdline k).1 w)
      ∙ ap (λ n. ok (some n)) (sym e),
)
