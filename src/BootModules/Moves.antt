-- ===== src/BootModules/Moves.antt =====
-- One call of `move_module`: what it does to the bytes and to the positions of the modules.
use native.Mathlib.Nat.{div-add-mod, mul-le-mul_left, mul-suc, mod-add-mod, zero-add}
use bootstrap.Prelude.{
  ℕ, zero, suc, ◌+◌, ◌-◌, ◌*◌, ◌/◌, ◌%◌, ◌^◌, ◌≤◌, ◌<◌, ◌≡◌, ◌≢◌, ◌⊎◌, refl, sym, ap, ◌∙◌, inl, inr,
  true, List, [], ◌∷◌, ok, arith, tests, leb, ltb, ◌==◌, leb→le, power_pos, Bool-cases, >>=-eq-ok,
}
use bootstrap.Align.{Align, IsAlign, round_page}
use bootstrap.Region.{root}
use bootstrap.BootModules.{ModInfo, Machine, mod_at, set_start, moved, move_module_to, move_module}

-- The loads and the stores of a position.
pub mod_at_set :
    (ms : List ModInfo) (i dest : ℕ)
    → 0 < (mod_at ms i).size
    → mod_at (set_start ms i dest) i ≡ record (mod_at ms i) { start = dest }
unfolding mod_at set_start
mod_at_set [] i dest h = ground arith
mod_at_set (m ∷ ms) zero dest h = refl
mod_at_set (m ∷ ms) (suc i) dest h = mod_at_set ms i dest h

pub mod_at_other :
    (ms : List ModInfo) (i j dest : ℕ) → j ≢ i → mod_at (set_start ms i dest) j ≡ mod_at ms j
unfolding mod_at set_start
mod_at_other [] i j dest h = refl
mod_at_other (m ∷ ms) zero zero dest h = absurd (h refl)
mod_at_other (m ∷ ms) zero (suc j) dest h = refl
mod_at_other (m ∷ ms) (suc i) zero dest h = refl
mod_at_other (m ∷ ms) (suc i) (suc j) dest h = mod_at_other ms i j dest (λ e. h (ap suc e))

moved-copy :
    (bytes : ℕ → ℕ) (dest src size fill k : ℕ)
    → k < size
    → moved bytes dest src size fill (dest + k) ≡ bytes (src + k)
unfolding moved
moved-copy bytes dest src size fill k lt = rw (inside, ltb_size, offset) refl
  where
    inside : leb dest (dest + k) ≡ true
    inside = omega tests

    ltb_size : ltb (dest + k) (dest + size) ≡ true
    ltb_size = omega (tests, lt)

    offset : dest + k - dest + src ≡ src + k
    offset = omega arith

moved-outside :
    (bytes : ℕ → ℕ) (dest src size fill x : ℕ)
    → (x < dest) ⊎ ((dest + size ≤ x) × (fill ≤ x))
    → moved bytes dest src size fill x ≡ bytes x
unfolding moved
moved-outside bytes dest src size fill x h = ground (arith, h)

-- Two multiples less than one multiple apart are in order.
multiples : (p x y : ℕ) → 0 < p → x % p ≡ 0 → y % p ≡ 0 → x < y + p → x ≤ y
multiples p x y z hx hy lt = elim (Bool-cases (leb (x / p) (y / p))) [
  | inl h ↦
      let le : p * (x / p) ≤ p * (y / p) = mul-le-mul_left p (leb→le (x / p) (y / p) h) in
      omega (arith, div-add-mod x p, div-add-mod y p, le)
  | inr h ↦
      let above : suc (y / p) ≤ x / p = ground (arith, h) in
      let le : p * suc (y / p) ≤ p * (x / p) = mul-le-mul_left p above in
      omega (arith, div-add-mod x p, div-add-mod y p, le, mul-suc p (y / p))
]

-- What is written for a module at a multiple of the page size ends within its pages.
module _ (a : Align) where
  abbrev pub page : ℕ
  page = 2 ^ a.page_shift

  abbrev pub pages : ModInfo → ℕ
  pages m = round_page a m.size

module _ (a : Align) (al : IsAlign a) where
  pub next_multiple :
      (dest size : ℕ)
      → dest % page a ≡ 0
      → size + page a ≤ 2 ^ 64
      → (dest + round_page a size) % page a ≡ 0
  next_multiple dest size m z =
      sym (mod-add-mod dest (page a) (round_page a size))
      ∙ ap (λ r. (r + round_page a size) % page a) m
      ∙ ap (λ r. r % page a) (zero-add (round_page a size))
      ∙ al.round_multiple size a.page_shift z

  fill_within :
      (dest size : ℕ)
      → dest % page a ≡ 0
      → dest + round_page a size + page a ≤ 2 ^ 64
      → size + page a ≤ 2 ^ 64
      → round_page a (dest + size) ≤ dest + round_page a size
  fill_within dest size m w z =
      multiples (page a) (round_page a (dest + size)) (dest + round_page a size)
        (power_pos a.page_shift) (al.round_multiple (dest + size) a.page_shift fits)
        (next_multiple dest size m z)
        (omega (arith, al.round_lt (dest + size) a.page_shift fits, le))
    where
      le : size ≤ round_page a size
      le = al.le_round size a.page_shift z

      fits : dest + size + page a ≤ 2 ^ 64
      fits = omega (arith, w, le)

  -- The result of one move.
  pub record Move (s : Machine) (i dest : ℕ) (s' : Machine) : Type 0 where
    pub mods : s'.mods ≡ set_start s.mods i dest
    pub kept :
        (k : ℕ)
        → k < (mod_at s.mods i).size
        → s'.bytes (dest + k) ≡ s.bytes ((mod_at s.mods i).start + k)
    pub below : (x : ℕ) → x < dest → s'.bytes x ≡ s.bytes x
    pub behind : (x : ℕ) → dest + pages a (mod_at s.mods i) ≤ x → s'.bytes x ≡ s.bytes x

  -- What `_move_module` leaves of the bytes and the positions.
  move_module_to-bytes :
      (s s' : Machine) (reg dest src size name subtype : ℕ)
      → move_module_to a reg s dest src size name root subtype ≡ ok s'
      → (s'.mods ≡ s.mods)
        × (((src ≡ dest) × (s'.bytes ≡ s.bytes))
            ⊎ (s'.bytes ≡ moved s.bytes dest src size (round_page a (dest + size))))
  unfolding move_module_to
  move_module_to-bytes s s' reg dest src size name subtype e = elim (Bool-cases (src == dest)) [
    | inl h ↦ ground (arith, e, h)
    | inr h ↦ ground (arith, e, h)
  ]

  Move-of_bytes :
      (i dest : ℕ) (s s1 s' : Machine)
      → dest % page a ≡ 0
      → dest + pages a (mod_at s.mods i) + page a ≤ 2 ^ 64
      → (mod_at s.mods i).size + page a ≤ 2 ^ 64
      → (s1.mods ≡ s.mods)
        × ((((mod_at s.mods i).start ≡ dest) × (s1.bytes ≡ s.bytes))
            ⊎ (s1.bytes
                ≡ moved s.bytes dest
                    (mod_at s.mods i).start
                    (mod_at s.mods i).size
                    (round_page a (dest + (mod_at s.mods i).size))))
      → ok (record s1 { mods = set_start s1.mods i dest }) ≡ ok s'
      → Move s i dest s'
  Move-of_bytes i dest s s1 s' m w z (same, written) e = record {
    mods = ap (λ t. t.mods) left ∙ ap (λ ms. set_start ms i dest) same;
    kept = λ k lt. ap (λ t. t.bytes (dest + k)) left ∙ kept1 written k lt;
    below = λ x lt. ap (λ t. t.bytes x) left ∙ below1 written x lt;
    behind = λ x le. ap (λ t. t.bytes x) left ∙ behind1 written x le;
  }
    where
      left : s' ≡ record s1 { mods = set_start s1.mods i dest }
      left = cc

      here : ModInfo
      here = mod_at s.mods i

      fill : ℕ
      fill = round_page a (dest + here.size)

      Written : Type 0
      Written =
          ((here.start ≡ dest) × (s1.bytes ≡ s.bytes))
          ⊎ (s1.bytes ≡ moved s.bytes dest here.start here.size fill)

      kept1 : Written → (k : ℕ) → k < here.size → s1.bytes (dest + k) ≡ s.bytes (here.start + k)
      kept1 (inl (h, b)) k lt = ap (λ f. f (dest + k)) b ∙ ap (λ d. s.bytes (d + k)) (sym h)
      kept1 (inr b) k lt =
          ap (λ f. f (dest + k)) b ∙ moved-copy s.bytes dest here.start here.size fill k lt

      below1 : Written → (x : ℕ) → x < dest → s1.bytes x ≡ s.bytes x
      below1 (inl (h, b)) x lt = ap (λ f. f x) b
      below1 (inr b) x lt =
          ap (λ f. f x) b ∙ moved-outside s.bytes dest here.start here.size fill x (inl lt)

      behind1 : Written → (x : ℕ) → dest + pages a here ≤ x → s1.bytes x ≡ s.bytes x
      behind1 (inl (h, b)) x le = ap (λ f. f x) b
      behind1 (inr b) x le =
          ap (λ f. f x) b
          ∙ moved-outside s.bytes dest here.start here.size fill x (
              inr (
                omega (arith, le, al.le_round here.size a.page_shift z),
                omega (arith, le, fill_within dest here.size m w z),
              ))

  pub move_module-Move :
      (reg i dest : ℕ) (s s' : Machine)
      → dest % page a ≡ 0
      → dest + pages a (mod_at s.mods i) + page a ≤ 2 ^ 64
      → (mod_at s.mods i).size + page a ≤ 2 ^ 64
      → move_module a reg s i dest ≡ ok s'
      → Move s i dest s'
  unfolding move_module
  move_module-Move reg i dest s s' m w z e =
      let (s1, p, q) =
        >>=-eq-ok (move_module_to a reg s dest here.start here.size reg root 0) _ e in
      Move-of_bytes i dest s s1 s' m w z
        (move_module_to-bytes s s1 reg dest here.start here.size reg 0 p) q
    where
      here : ModInfo
      here = mod_at s.mods i

  -- A move leaves the positions of the other modules.
  pub moves_one :
      (s s' : Machine) (i dest j : ℕ)
      → Move s i dest s'
      → j ≢ i
      → mod_at s'.mods j ≡ mod_at s.mods j
  moves_one s s' i dest j mv ne = ap (λ ms. mod_at ms j) mv.mods ∙ mod_at_other s.mods i j dest ne

  pub Agree_of_Move :
      (s s' : Machine) (i dest j : ℕ)
      → Move s i dest s'
      → (mod_at s.mods j).start ≢ (mod_at s.mods i).start
      → mod_at s'.mods j ≡ mod_at s.mods j
  Agree_of_Move s s' i dest j mv ne =
      moves_one s s' i dest j mv (λ e. ne (ap (λ k. (mod_at s.mods k).start) e))

  pub placed_at :
      (s s' : Machine) (i dest : ℕ)
      → Move s i dest s'
      → 0 < (mod_at s.mods i).size
      → mod_at s'.mods i ≡ record (mod_at s.mods i) { start = dest }
  placed_at s s' i dest mv z = ap (λ ms. mod_at ms i) mv.mods ∙ mod_at_set s.mods i dest z
