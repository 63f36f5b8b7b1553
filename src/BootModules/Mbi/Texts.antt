-- ===== src/BootModules/Mbi/Texts.antt =====
-- Texts in memory.
use bootstrap.Prelude.{
  ℕ, ◌+◌, ◌≤◌, ◌<◌, ◌≡◌, ◌⊎◌, ◌∙◌, inl, inr, List, [], ◌∷◌, length, arith, ◌==◌, if◌then◌else◌,
}
use bootstrap.BootModules.Mbi.{put_string}

-- A text with its null character.
abbrev pub HasText : (ℕ → ℕ) → ℕ → List ℕ → Type 0
HasText bytes at [] = bytes at ≡ 0
HasText bytes at (c ∷ cs) = (bytes at ≡ c) × HasText bytes (at + 1) cs

-- Nothing is written outside of the text.
pub put_string-others :
    (t : List ℕ) (at : ℕ) (bytes : ℕ → ℕ) (x : ℕ)
    → (x < at) ⊎ (at + (length t + 1) ≤ x)
    → put_string t at bytes x ≡ bytes x
unfolding put_string
put_string-others [] at bytes x o = ground (arith, o)
put_string-others (c ∷ cs) at bytes x o =
    put_string-others cs (at + 1) (λ y. if y == at then c else bytes y) x (step o)
    ∙ ground (arith, o)
  where
    step :
        (x < at) ⊎ (at + (length (c ∷ cs) + 1) ≤ x) → (x < at + 1) ⊎ (at + 1 + (length cs + 1) ≤ x)
    step (inl h) = inl (omega arith)
    step (inr h) = inr (omega (arith, h))

pub put_string-HasText :
    (t : List ℕ) (at : ℕ) (bytes : ℕ → ℕ) → HasText (put_string t at bytes) at t
unfolding put_string
put_string-HasText [] at bytes = ground arith
put_string-HasText (c ∷ cs) at bytes = (
  put_string-others cs (at + 1) (λ y. if y == at then c else bytes y) at (inl (omega arith))
      ∙ ground arith,
  put_string-HasText cs (at + 1) (λ y. if y == at then c else bytes y),
)
