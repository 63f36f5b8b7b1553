-- ===== src/Multiboot2/Rotate.antt =====
-- `rotate_to_end` of multiboot2.cc: the chunks together.
use bootstrap.Prelude.{
  ℕ, zero, suc, ◌-◌, ◌<◌, ◌≡◌, refl, min, List, ◌++◌, ok, arith, ◌==◌, length, take, drop, inl, inr,
  Bool-cases, append_assoc, append-nil, take-drop, take-short, drop-short, length-drop, ==→eq,
  length-zero,
}
use bootstrap.Multiboot2.{rotate}

-- The loop moves as many bytes as it was given from the front of the window to its end, in their
-- order, and does not run out of rounds.
pub rotate-moves :
    (fuel n : ℕ) (t rest : List ℕ)
    → length t ≡ n
    → n < fuel
    → rotate fuel n (t ++ rest) ≡ ok (rest ++ t)
unfolding rotate
rotate-moves zero n t rest e h = absurd (omega arith)
rotate-moves (suc fuel) n t rest e h = elim (Bool-cases (n == 0)) [
  | inl z ↦ rw (z, length-zero t (omega (arith, ==→eq n 0 z)), append-nil rest) refl
  | inr z ↦
      rw
        (
          z,
          drop-short c t rest (ground arith),
          take-short c t rest (ground arith),
          append_assoc q rest p,
          rotate-moves fuel (n - c) q (rest ++ p) (ground (arith, length-drop c t)) (ground arith),
          append_assoc rest p q,
          take-drop c t,
        )
        refl
]
  where
    c : ℕ
    c = min 1024 n

    p : List ℕ
    p = take c t

    q : List ℕ
    q = drop c t
