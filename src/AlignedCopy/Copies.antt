-- ===== src/AlignedCopy/Copies.antt =====
-- `memcpy_aligned` copies every byte once, whatever the size.
use bootstrap.Prelude.{
  ℕ, zero, suc, ◌+◌, ◌-◌, ◌*◌, ◌/◌, ◌%◌, ◌≤◌, ◌<◌, ◌≡◌, ◌⊎◌, ◌∙◌, ap, sym, refl, inl, inr, ltb,
  arith, Bool-cases, ltb→lt,
}
use native.Mathlib.Nat.{mul-suc}
use mathlib.Core.Path.{subst, subst₂}
use bootstrap.AlignedCopy.{store, copy_chunks, memcpy_aligned}

-- The ranges of the source and the destination do not overlap.
unfoldable pub Apart : ℕ → ℕ → ℕ → Type 0
Apart d s n = (d + n ≤ s) ⊎ (s + n ≤ d)

chunks_others :
    (n count d s x : ℕ) (bytes : ℕ → ℕ)
    → (x < d) ⊎ (d + n * count ≤ x)
    → copy_chunks n count d s bytes x ≡ bytes x
unfolding copy_chunks store
chunks_others n zero d s x bytes h = refl
chunks_others n (suc count) d s x bytes h =
    grind (arith, chunks_others n count (d + n) (s + n) x (store n d s bytes), h)

chunks_copied :
    (n count d s x : ℕ) (bytes : ℕ → ℕ)
    → Apart d s (n * count)
    → d ≤ x
    → x < d + n * count
    → copy_chunks n count d s bytes x ≡ bytes (x - d + s)
unfolding copy_chunks store Apart
chunks_copied n zero d s x bytes a h k = absurd (omega (arith, k, h))
chunks_copied n (suc count) d s x bytes a h k = elim (Bool-cases (ltb x (d + n))) [
  | inl lt ↦
      chunks_others n count (d + n) (s + n) x (store n d s bytes) (inl (ltb→lt x (d + n) lt))
      ∙ ground (arith, h, lt)
  | inr ge ↦
      chunks_copied n count (d + n) (s + n) x (store n d s bytes) (rest a) (ground (arith, ge))
        (omega (arith, k, more))
      ∙ ap (store n d s bytes) (same (ground (arith, ge)))
      ∙ untouched (x - d + s) (away a (ground (arith, ge)))
]
  where
    more : n * suc count ≡ n * count + n
    more = mul-suc n count

    rest : Apart d s (n * suc count) → Apart (d + n) (s + n) (n * count)
    rest (inl b) = inl (omega (arith, b, more))
    rest (inr b) = inr (omega (arith, b, more))

    same : d + n ≤ x → x - (d + n) + (s + n) ≡ x - d + s
    same g = omega (arith, g)

    away : Apart d s (n * suc count) → d + n ≤ x → (x - d + s < d) ⊎ (d + n ≤ x - d + s)
    away (inl b) g = inr (omega (arith, b, more, g))
    away (inr b) g = inl (omega (arith, b, more, g, k))

    untouched : (y : ℕ) → (y < d) ⊎ (d + n ≤ y) → store n d s bytes y ≡ bytes y
    untouched y w = ground (arith, w)

-- What a copy of `n` bytes does.
pub record Copied (d s n : ℕ) (bytes bytes' : ℕ → ℕ) : Type 0 where
  pub inside : (k : ℕ) → k < n → bytes' (d + k) ≡ bytes (s + k)
  pub outside : (x : ℕ) → (x < d) ⊎ (d + n ≤ x) → bytes' x ≡ bytes x

Copied-chunks :
    (n count d s : ℕ) (bytes : ℕ → ℕ)
    → Apart d s (n * count)
    → Copied d s (n * count) bytes (copy_chunks n count d s bytes)
Copied-chunks n count d s bytes a = record {
  inside = λ k h.
      chunks_copied n count d s (d + k) bytes a (omega arith) (omega (arith, h))
      ∙ ap bytes (back k);
  outside = λ x h. chunks_others n count d s x bytes h;
}
  where
    back : (k : ℕ) → d + k - d + s ≡ s + k
    back k = omega arith

-- Two copies one behind the other are one.
Copied-join :
    (d s n m : ℕ) (b b1 b2 : ℕ → ℕ)
    → Apart d s (n + m)
    → Copied d s n b b1
    → Copied (d + n) (s + n) m b1 b2
    → Copied d s (n + m) b b2
unfolding Apart
Copied-join d s n m b b1 b2 a p q = record {
  inside = λ k h. elim (Bool-cases (ltb k n)) [
    | inl lt ↦ q.outside (d + k) (inl (ground (arith, lt))) ∙ p.inside k (ltb→lt k n lt)
    | inr ge ↦
        ap b2 (shift d k (ground (arith, ge)))
        ∙ q.inside (k - n) (ground (arith, ge, h))
        ∙ ap b1 (sym (shift s k (ground (arith, ge))))
        ∙ p.outside (s + k) (away k h (ground (arith, ge)) a)
  ];
  outside = λ x h. q.outside x (ground (arith, h)) ∙ p.outside x (ground (arith, h));
}
  where
    shift : (c k : ℕ) → n ≤ k → c + k ≡ c + n + (k - n)
    shift c k h = omega (arith, h)

    away : (k : ℕ) → k < n + m → n ≤ k → Apart d s (n + m) → (s + k < d) ⊎ (d + n ≤ s + k)
    away k h g (inl w) = inr (omega (arith, w))
    away k h g (inr w) = inl (omega (arith, w, h))

within : (d s n m : ℕ) → Apart d s n → m ≤ n → Apart d s m
unfolding Apart
within d s n m (inl w) h = inl (omega (arith, w, h))
within d s n m (inr w) h = inr (omega (arith, w, h))

behind : (d s n m : ℕ) → Apart d s (n + m) → Apart (d + n) (s + n) m
unfolding Apart
behind d s n m (inl w) = inl (omega (arith, w))
behind d s n m (inr w) = inr (omega (arith, w))

module _ (d s nb nw nr : ℕ) (bytes : ℕ → ℕ) where
  abbrev blocks_done : ℕ → ℕ
  blocks_done = copy_chunks 64 nb d s bytes

  abbrev words_done : ℕ → ℕ
  words_done = copy_chunks 8 nw (d + 64 * nb) (s + 64 * nb) blocks_done

  abbrev bytes_done : ℕ → ℕ
  bytes_done = copy_chunks 1 nr (d + 64 * nb + 8 * nw) (s + 64 * nb + 8 * nw) words_done

  add_three : (x p q : ℕ) → x + p + q ≡ x + (p + q)
  add_three x p q = omega arith

  Copied-loops :
      Apart d s (64 * nb + 8 * nw + 1 * nr)
      → Copied d s (64 * nb + 8 * nw + 1 * nr) bytes bytes_done
  Copied-loops a =
      Copied-join d s (64 * nb + 8 * nw) (1 * nr) bytes words_done bytes_done a
        (Copied-join d s (64 * nb) (8 * nw) bytes blocks_done words_done words
          (Copied-chunks 64 nb d s bytes
            (within d s (64 * nb + 8 * nw) (64 * nb) words (omega arith)))
          (Copied-chunks 8 nw (d + 64 * nb) (s + 64 * nb) blocks_done
            (behind d s (64 * nb) (8 * nw) words)))
        (subst₂ (λ d' s'. Copied d' s' (1 * nr) words_done bytes_done)
          (add_three d (64 * nb) (8 * nw)) (add_three s (64 * nb) (8 * nw))
          (Copied-chunks 1 nr (d + 64 * nb + 8 * nw) (s + 64 * nb + 8 * nw) words_done (
            subst₂ (λ d' s'. Apart d' s' (1 * nr)) (sym (add_three d (64 * nb) (8 * nw)))
              (sym (add_three s (64 * nb) (8 * nw))) (behind d s (64 * nb + 8 * nw) (1 * nr) a))))
    where
      words : Apart d s (64 * nb + 8 * nw)
      words = within d s (64 * nb + 8 * nw + 1 * nr) (64 * nb + 8 * nw) a (omega arith)

-- For a source and a destination that do not overlap, `memcpy_aligned` of any size leaves the bytes
-- of the source in the destination and every byte outside the destination as it was.
pub memcpy_aligned-Copied :
    (d s size : ℕ) (bytes : ℕ → ℕ)
    → Apart d s size
    → Copied d s size bytes (memcpy_aligned d s size bytes)
unfolding memcpy_aligned
memcpy_aligned-Copied d s size bytes a =
    subst (λ n. Copied d s n bytes (memcpy_aligned d s size bytes)) sum
      (Copied-loops d s (size / 8 / 8) (size / 8 % 8) (size % 8) bytes
        (subst (Apart d s) (sym sum) a))
  where
    sum : 64 * (size / 8 / 8) + 8 * (size / 8 % 8) + 1 * (size % 8) ≡ size
    sum = omega arith
