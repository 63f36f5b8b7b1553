-- ===== src/Startup/FillMem.antt =====
-- `fill_mem` fills the RAM that no region occupies, and nothing else.
use bootstrap.Prelude.{
  ℕ, ◌+◌, ◌≤◌, ◌<◌, ◌^◌, ◌≡◌, refl, ◌∙◌, inl, inr, ◌&&◌, not, Bool, List, [], ◌∷◌, Result, ok,
  arith, leb, ltb, if◌then◌else◌, word_max, add_word, sub_word, Bool-cases,
}
use bootstrap.Region.{Region}
use bootstrap.RegionList.Order.{Above, covered, covered-below}
use bootstrap.Startup.{preset, verbose_memset, fill_tail, fill_leading, fill_gaps, fill_mem}

-- No region ends with the last address.
unfoldable pub Bounded : List Region → Type 0
Bounded [] = Unit {0}
Bounded (r ∷ rs) = (r.end < word_max) × Bounded rs

-- No region that begins at 0 reaches the last address, up to a limit.
unfoldable pub Partial : ℕ → List Region → Type 0
Partial limit [] = Unit {0}
Partial limit (m ∷ ms) =
    ((if ltb limit m.end then limit else m.end) < m.begin + word_max) × Partial limit ms

-- The code returns, and has written the value to the bytes that pass a test.
pub record Filled (val : ℕ) (test : ℕ → Bool) (bytes : ℕ → ℕ) (r : Result (ℕ → ℕ)) : Type 0 where
  pub after : ℕ → ℕ
  pub returns : r ≡ ok after
  pub content : (x : ℕ) → after x ≡ (if test x then val else bytes x)

module _ (val : ℕ) (bytes : ℕ → ℕ) where
  Filled-eq :
      (test : ℕ → Bool) (r r' : Result (ℕ → ℕ))
      → r ≡ r'
      → Filled val test bytes r'
      → Filled val test bytes r
  Filled-eq test r r' e f = record { after = f.after; returns = e ∙ f.returns; content = f.content }

  verbose_memset-Filled :
      (b e : ℕ)
      → b ≤ e
      → e < b + word_max
      → Filled val (λ x. leb b x && leb x e) bytes (verbose_memset b e val bytes)
  unfolding verbose_memset preset
  verbose_memset-Filled b e le h = record {
    after = preset b val (add_word (sub_word e b) 1) bytes;
    returns = ground (arith, le);
    content = λ x.
        let size : add_word (sub_word e b) 1 + b ≡ e + 1 = omega (arith, le, h) in
        ground (arith, size);
  }

  fill_tail-Filled :
      (b e : ℕ)
      → e < b + word_max
      → Filled val (λ x. leb b x && leb x e) bytes (fill_tail b e val bytes)
  fill_tail-Filled b e h = elim (Bool-cases (leb b e)) [
    | inl le ↦ Filled-eq _ _ _ (rw le refl) (verbose_memset-Filled b e (ground (arith, le)) h)
    | inr gt ↦ record { after = bytes; returns = rw gt refl; content = λ x. ground (arith, gt) }
  ]

  fill_leading-Filled :
      (r : Region) (b : ℕ)
      → r.begin < 2 ^ 64
      → Filled val (λ x. leb b x && ltb x r.begin) bytes (fill_leading r b val bytes)
  fill_leading-Filled r b w = elim (Bool-cases (ltb b r.begin)) [
    | inl lt ↦
        let f : Filled val (λ x. leb b x && leb x (sub_word r.begin 1)) bytes
            (verbose_memset b (sub_word r.begin 1) val bytes) =
          verbose_memset-Filled b (sub_word r.begin 1) (ground (arith, lt, w))
            (ground (arith, lt, w)) in
        record {
          after = f.after;
          returns = rw lt f.returns;
          content = λ x. ground (arith, f.content x, lt, w);
        }
    | inr ge ↦ record { after = bytes; returns = rw ge refl; content = λ x. ground (arith, ge) }
  ]

-- What is filled of a working range.
abbrev gaps : List Region → ℕ → ℕ → ℕ → Bool
gaps rs b e x = leb b x && leb x e && not (covered rs x)

fill_gaps-Filled :
    (rs : List Region) (lo b e val : ℕ) (bytes : ℕ → ℕ)
    → Above lo rs
    → Bounded rs
    → e < b + word_max
    → e < 2 ^ 64
    → Filled val (gaps rs b e) bytes (fill_gaps rs b e val bytes)
unfolding fill_gaps Bounded
fill_gaps-Filled [] lo b e val bytes v d h w =
    let f : Filled val (λ x. leb b x && leb x e) bytes (fill_tail b e val bytes) =
      fill_tail-Filled val bytes b e h in
    record { after = f.after; returns = f.returns; content = λ x. ground (arith, f.content x) }
fill_gaps-Filled (r ∷ rs) lo b e val bytes v d h w = elim (Bool-cases (ltb r.end b)) [
  | inl front ↦
      let f : Filled val (gaps rs b e) bytes (fill_gaps rs b e val bytes) =
        fill_gaps-Filled rs (r.end + 1) b e val bytes v.3 d.1 h w in
      record {
        after = f.after;
        returns = rw front f.returns;
        content = λ x. ground (arith, f.content x, front);
      }
  | inr later ↦ elim (Bool-cases (ltb e r.begin)) [
    | inl behind ↦
        let f : Filled val (λ x. leb b x && leb x e) bytes (fill_tail b e val bytes) =
          fill_tail-Filled val bytes b e h in
        record {
          after = f.after;
          returns = rw (later, behind) f.returns;
          content = λ x. ground (arith, f.content x, behind, covered-below (r.end + 1) x rs v.3);
        }
    | inr meets ↦
        let f : Filled val (λ x. leb b x && ltb x r.begin) bytes (fill_leading r b val bytes) =
          fill_leading-Filled val bytes r b (omega arith) in
        let g : Filled val (gaps rs (r.end + 1) e) f.after
            (fill_gaps rs (r.end + 1) e val f.after) =
          fill_gaps-Filled rs (r.end + 1) (r.end + 1) e val f.after v.3 d.1 (omega (arith, w)) w in
        let next : add_word r.end 1 ≡ r.end + 1 = omega (arith, d.0) in
        record {
          after = g.after;
          returns = rw (later, meets, f.returns, next) g.returns;
          content = λ x.
              ground
                (arith, f.content x, g.content x, later, meets, covered-below (r.end + 1) x rs v.3);
        }
  ]
]

-- With the RAM regions and the occupied regions in order, none of the latter ending with the last
-- address, and no RAM region that begins at 0 reaching the last address, unless `mem_end` cuts it:
-- no assertion in `fill_mem` fails, and it writes the value to exactly the bytes that lie in RAM, are
-- not beyond `mem_end` and are not occupied, and leaves every other byte.
pub fill_mem-Filled :
    (ms rs : List Region) (lo mem_end val : ℕ) (bytes : ℕ → ℕ)
    → Above lo ms
    → Above 0 rs
    → Bounded rs
    → Partial mem_end ms
    → Filled val
        (λ x. covered ms x && leb x mem_end && not (covered rs x))
        bytes
        (fill_mem ms rs mem_end val bytes)
unfolding fill_mem Partial
fill_mem-Filled [] rs lo mem_end val bytes v u d p = record {
  after = bytes;
  returns = refl;
  content = λ x. refl;
}
fill_mem-Filled (m ∷ ms) rs lo mem_end val bytes v u d p = elim (Bool-cases (ltb mem_end m.begin)) [
  | inl far ↦
      let f : Filled val (λ x. covered ms x && leb x mem_end && not (covered rs x)) bytes
          (fill_mem ms rs mem_end val bytes) =
        fill_mem-Filled ms rs (m.end + 1) mem_end val bytes v.3 u d p.1 in
      record {
        after = f.after;
        returns = rw far f.returns;
        content = λ x. ground (arith, f.content x, far);
      }
  | inr near ↦
      let f : Filled val (gaps rs m.begin end) bytes (fill_gaps rs m.begin end val bytes) =
        fill_gaps-Filled rs 0 m.begin end val bytes u d p.0 (ground arith) in
      let g : Filled val (λ x. covered ms x && leb x mem_end && not (covered rs x)) f.after
          (fill_mem ms rs mem_end val f.after) =
        fill_mem-Filled ms rs (m.end + 1) mem_end val f.after v.3 u d p.1 in
      record {
        after = g.after;
        returns = rw (near, f.returns) g.returns;
        content =
            λ x. ground (arith, f.content x, g.content x, near, covered-below (m.end + 1) x ms v.3);
      }
]
  where
    end : ℕ
    end = if ltb mem_end m.end then mem_end else m.end
