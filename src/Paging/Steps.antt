-- ===== src/Paging/Steps.antt =====
-- A round of `ptab_map_level` goes on by whole pages.
use Prim.Native.Nat.{digits, bit_and-bitwise, min}
use native.Mathlib.Nat.{pow-suc}
use bootstrap.Prelude.{
  ℕ, zero, suc, ◌+◌, ◌-◌, ◌*◌, ◌/◌, ◌%◌, ◌^◌, ◌≤◌, ◌<◌, ◌≡◌, refl, ap, ◌∙◌, true, ◌&&◌, Result, ok,
  inl, inr, max, leb, ◌==◌, if◌then◌else◌, Bool-cases, add_word, bit_and, bit_or, arith, power_pos,
  ==_refl, lt→ltb,
}
use bootstrap.GccLib.Bits.{or_step}
use bootstrap.Paging.{
  CpuInfo, Walk, ptab_size, allow_leaf, is_leaf, is_valid, map_leaf, after_leaf, map_table,
  map_round, find_ptabe, ptab_pfn,
}

digits_none : (n a : ℕ) → digits (λ y. 0) min n a 0 ≡ 0
digits_none zero a = refl
digits_none (suc n) zero = refl
digits_none (suc n) (suc a) = omega (arith, digits_none n (suc a / 2))

-- The lowest bit.
and_one : (a : ℕ) → bit_and a 1 ≡ a % 2
and_one zero = bit_and-bitwise 0 1
and_one (suc a) = omega (arith, bit_and-bitwise (suc a) 1, digits_none a (suc a / 2))

or_odd : (a b : ℕ) → bit_or a b % 2 ≡ max (a % 2) (b % 2)
or_odd a b = omega (arith, or_step a b)

-- A leaf entry is valid.
pub leaf_valid : (pa bits leaf : ℕ) → is_valid (bit_or (bit_or (bit_or pa 1) bits) leaf) ≡ true
leaf_valid pa bits leaf = ground (
  arith,
  and_one (bit_or (bit_or (bit_or pa 1) bits) leaf),
  or_odd (bit_or (bit_or pa 1) bits) leaf,
  or_odd (bit_or pa 1) bits,
  or_odd pa 1,
)

page_power : (n : ℕ) → 2 ^ (12 + n) ≡ 4096 * 2 ^ n
page_power zero = refl
page_power (suc n) =
    let e : 2 ^ (12 + suc n) ≡ 2 ^ suc (12 + n) = ap (λ k. 2 ^ k) (omega arith) in
    omega (arith, e, pow-suc 2 (12 + n), pow-suc 2 n, page_power n)

-- Pages of every level are made of pages of the lowest.
pages : (level : ℕ) → (ptab_size level % 4096 ≡ 0) × (4096 ≤ ptab_size level)
pages level =
    let e : ptab_size level ≡ 4096 * 2 ^ (level * 9) = page_power (level * 9) in
    (omega (arith, e), omega (arith, e, power_pos (level * 9)))

-- A walk over whole pages with something left.
pub record IsWalk (w : Walk) : Type 0 where
  pub la_page : w.la % 4096 ≡ 0
  pub pa_page : w.pa % 4096 ≡ 0
  pub size_page : w.size % 4096 ≡ 0
  pub some_left : 0 < w.size

-- Both addresses go forward by the same number of whole pages, at least one, which the size loses.
pub record Advanced (w w' : Walk) : Type 0 where
  pub by : ℕ
  pub pages : by % 4096 ≡ 0
  pub some_page : 4096 ≤ by
  pub la : w'.la ≡ add_word w.la by
  pub pa : w'.pa ≡ add_word w.pa by
  pub size : w'.size ≡ w.size - by

after_leaf-Advanced :
    (cpu : CpuInfo) (alloc : ℕ → ℕ) (bits level : ℕ) (w v : Walk)
    → v.la ≡ w.la
    → v.pa ≡ w.pa
    → v.size ≡ w.size
    → Advanced w (after_leaf cpu alloc bits level v)
after_leaf-Advanced cpu alloc bits level w v e f g = record {
  by = ptab_size level;
  pages = (pages level).0;
  some_page = (pages level).1;
  la = rw (e) refl;
  pa = rw (f) refl;
  size = ground (arith, g);
}

pub Advanced-IsWalk : (w w' : Walk) → IsWalk w → Advanced w w' → 0 < w'.size → IsWalk w'
Advanced-IsWalk w w' i a h = record {
  la_page = omega (arith, i.la_page, a.la, a.pages);
  pa_page = omega (arith, i.pa_page, a.pa, a.pages);
  size_page = omega (arith, i.size_page, a.size, a.pages, h);
  some_left = h;
}

pub Advanced-trans : (u v w : Walk) → Advanced u v → Advanced v w → Advanced u w
Advanced-trans u v w a b = record {
  by = a.by + b.by;
  pages = omega (arith, a.pages, b.pages);
  some_page = omega (arith, a.some_page);
  la = omega (arith, a.la, b.la);
  pa = omega (arith, a.pa, b.pa);
  size = omega (arith, a.size, b.size);
}

-- The lower levels serve any walk over less than so many bytes.
abbrev pub Serves : ℕ → (ℕ → Walk → Result Walk) → Type 0
Serves n below =
    (p : ℕ) (v : Walk) → IsWalk v → v.size < n → (v' : Walk) × (below p v ≡ ok v') × Advanced v v'

module _ (cpu : CpuInfo) (alloc : ℕ → ℕ) (bits : ℕ) where
  -- At the lowest level there is a leaf after the attempt.
  pub map_round-lowest :
      (below : ℕ → Walk → Result Walk) (ptab : ℕ) (w : Walk)
      → IsWalk w
      → (w' : Walk) × (map_round cpu alloc bits below 0 ptab w ≡ ok w') × Advanced w w'
  unfolding map_round is_leaf
  map_round-lowest below ptab w i = (
    after_leaf cpu alloc bits 0 tried,
    rw (valid) refl,
    after_leaf-Advanced cpu alloc bits 0 w tried refl refl refl,
  )
    where
      ptabe : ℕ
      ptabe = find_ptabe ptab 0 w.la

      tried : Walk
      tried = map_leaf cpu alloc bits 0 ptabe w

      e : ℕ
      e = bit_or (bit_or (bit_or w.pa 1) bits) 0

      la_page : (w.la % 4096 == 0) ≡ true
      la_page = ground (arith, i.la_page)

      pa_page : (w.pa % 4096 == 0) ≡ true
      pa_page = ground (arith, i.pa_page)

      room : leb 4096 w.size ≡ true
      room = ground (arith, i.size_page, i.some_left)

      valid : is_valid (tried.entries ptabe) ≡ true
      valid = elim (Bool-cases (is_valid (w.entries ptabe))) [
        | inl v ↦ rw (v) v
        | inr v ↦ rw (v, la_page, pa_page, room, ==_refl ptabe) (leaf_valid w.pa bits 0)
      ]

  pub map_round-higher :
      (n : ℕ) (below : ℕ → Walk → Result Walk) (level ptab : ℕ) (w : Walk)
      → Serves n below
      → IsWalk w
      → w.size < n
      → (w' : Walk) × (map_round cpu alloc bits below (suc level) ptab w ≡ ok w') × Advanced w w'
  unfolding map_round
  map_round-higher n below level ptab w s i h =
      elim (Bool-cases (
        allow_leaf cpu (suc level)
        && is_valid (tried.entries ptabe)
        && is_leaf (suc level) (tried.entries ptabe))) [
          | inl leaf ↦ (
            after_leaf cpu alloc bits (suc level) tried,
            rw (leaf) refl,
            after_leaf-Advanced cpu alloc bits (suc level) w tried same.0 same.1 same.2,
          )
          | inr deeper ↦
              let v = map_table cpu alloc bits ptabe tried in
              let (w', p, a) =
                s (bit_and (v.entries ptabe) ptab_pfn % 2 ^ 32) v
                  (record {
                    la_page = rw (same.0) i.la_page;
                    pa_page = rw (same.1) i.pa_page;
                    size_page = rw (same.2) i.size_page;
                    some_left = rw (same.2) i.some_left;
                  })
                  (rw (same.2) h) in
              (
                w',
                rw (deeper, lt→ltb 0 (suc level) (omega arith)) p,
                record {
                  by = a.by;
                  pages = a.pages;
                  some_page = a.some_page;
                  la = a.la ∙ ap (λ x. add_word x a.by) same.0;
                  pa = a.pa ∙ ap (λ x. add_word x a.by) same.1;
                  size = a.size ∙ ap (λ x. x - a.by) same.2;
                },
              )
        ]
    where
      ptabe : ℕ
      ptabe = find_ptabe ptab (suc level) w.la

      tried : Walk
      tried = if allow_leaf cpu (suc level) then map_leaf cpu alloc bits (suc level) ptabe w else w

      same : (tried.la ≡ w.la) × (tried.pa ≡ w.pa) × (tried.size ≡ w.size)
      same = elim (Bool-cases (allow_leaf cpu (suc level))) [
        | inl a ↦ rw (a) (refl, refl, refl)
        | inr a ↦ rw (a) (refl, refl, refl)
      ]
