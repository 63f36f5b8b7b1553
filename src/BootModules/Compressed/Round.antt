-- ===== src/BootModules/Compressed/Round.antt =====
-- A round of the search of `decompress_mods` for places.
use bootstrap.Prelude.{
  ℕ, ◌+◌, ◌^◌, ◌≤◌, ◌≡◌, ◌⊎◌, inl, inr, refl, sym, true, false, arith, ◌==◌, Bool-cases, add_word,
  sub_word, ltb, ltb→lt, power_pos,
}
use mathlib.Core.Path.{subst}
use bootstrap.Align.{Align, IsAlign, round_page}
use bootstrap.BootModules.{ModInfo}
use bootstrap.BootModules.Mbi.{MbiLayout}
use bootstrap.BootModules.Compressed.{
  Unpacker, Places, shift_right, shift_left, advance, place_module,
}

module _ (a : Align) (al : IsAlign a) (mod_reg : ℕ) (u : Unpacker) (c : MbiLayout) where
  -- The pages that the unpacked modules take.
  abbrev pub pages : ModInfo → ℕ
  pages m = round_page a m.size_uncompressed

  -- The modules can be rounded to pages, and end up to some address then.
  pub record Fits (limit : ℕ) (m : ModInfo) : Type 0 where
    pub end : m.start + m.size + 2 ^ a.page_shift ≤ 2 ^ 64
    pub rounded : round_page a (m.start + m.size) ≤ limit
    pub unpacked : m.size_uncompressed + 2 ^ a.page_shift ≤ 2 ^ 64

  -- The variables in a round, behind so many bytes.
  pub record At (limit offset : ℕ) (p : Places) : Type 0 where
    pub right : p.rpos ≡ p.rdest + offset
    pub left : (p.ldest ≡ 0) ⊎ (p.lpos ≡ p.ldest + offset)
    pub right_le : p.rdest ≤ limit
    pub left_le : p.ldest ≤ limit

  -- What a round does with them.
  pub record Stepped (limit offset : ℕ) (m : ModInfo) (p q : Places) : Type 0 where
    pub at : At limit (offset + pages m) q
    pub up : p.rdest ≤ q.rdest
    pub down : q.ldest ≤ p.ldest
    pub behind : m.start + m.size ≤ q.rdest + offset
    pub front : (q.ldest ≡ 0) ⊎ (q.ldest + (offset + m.size_uncompressed) ≤ m.start)

  module _ (limit offset : ℕ) (m : ModInfo) (f : Fits limit m)
      (h : limit + (offset + pages m) + 2 ^ a.page_shift ≤ 2 ^ 64) where
    module_pages : m.size_uncompressed ≤ pages m
    module_pages = al.le_round m.size_uncompressed a.page_shift f.unpacked

    abbrev to_right : Places → Places
    to_right p = shift_right a mod_reg u c (m.start + m.size) p

    abbrev to_left : Places → Places
    to_left p = shift_left a mod_reg u c m.start m.size_uncompressed p

    to_right-At :
        (p : Places)
        → At limit offset p
        → At limit offset (to_right p)
          × (p.rdest ≤ (to_right p).rdest)
          × ((to_right p).ldest ≡ p.ldest)
          × (m.start + m.size ≤ (to_right p).rdest + offset)
    to_right-At p x = elim (Bool-cases (ltb p.rpos (m.start + m.size))) [
      | inr e ↦ rw (e) (x, omega arith, refl, ground (arith, e, x.right))
      | inl e ↦ rw (e) (
        record {
          right =
              omega (
                arith,
                x.right,
                x.right_le,
                f.rounded,
                above,
                ltb→lt p.rpos (m.start + m.size) e,
                h,
              );
          left = x.left;
          right_le =
              omega (
                arith,
                x.right,
                x.right_le,
                f.rounded,
                above,
                ltb→lt p.rpos (m.start + m.size) e,
                h,
              );
          left_le = x.left_le;
        },
        omega (arith, x.right, x.right_le, f.rounded, above, ltb→lt p.rpos (m.start + m.size) e, h),
        refl,
        omega (arith, x.right, x.right_le, f.rounded, above, ltb→lt p.rpos (m.start + m.size) e, h),
      )
    ]
      where
        above : m.start + m.size ≤ round_page a (m.start + m.size)
        above = al.le_round (m.start + m.size) a.page_shift f.end

    -- The place in front of the module, if there is still one.
    abbrev Front : Places → Type 0
    Front q = (q.ldest ≡ 0) ⊎ (q.ldest + (offset + m.size_uncompressed) ≤ m.start)

    abbrev LeftResult : Places → Places → Type 0
    LeftResult p q = At limit offset q × (q.rdest ≡ p.rdest) × (q.ldest ≤ p.ldest) × Front q

    to_left-moved :
        (p : Places)
        → At limit offset p
        → p.lpos ≡ p.ldest + offset
        → (p.ldest == 0) ≡ false
        → LeftResult p (to_left p)
    to_left-moved p x l z = elim (Bool-cases (ltb m.start (add_word p.lpos m.size_uncompressed))) [
      | inr e ↦ rw (z, e) (x, refl, omega arith, inr (within e))
      | inl e ↦ elim (Bool-cases (ltb delta p.ldest)) [
        | inr k ↦
            rw (z, e, k)
              (
                record {
                  right = x.right;
                  left = inl refl;
                  right_le = x.right_le;
                  left_le = omega arith;
                },
                refl,
                omega arith,
                inl refl,
              )
        | inl k ↦
            rw (z, e, k)
              (
                record {
                  right = x.right;
                  left = inr (omega (arith, l, ltb→lt delta p.ldest k, x.left_le, h));
                  right_le = x.right_le;
                  left_le = omega (arith, x.left_le, ltb→lt delta p.ldest k, h);
                },
                refl,
                omega (arith, x.left_le, ltb→lt delta p.ldest k, h),
                inr (
                    omega (arith, l, ltb→lt delta p.ldest k, x.left_le, h, enough e, module_pages)),
              )
      ]
    ]
      where
        delta : ℕ
        delta = round_page a (sub_word (add_word p.lpos m.size_uncompressed) m.start)

        within :
            ltb m.start (add_word p.lpos m.size_uncompressed) ≡ false
            → p.ldest + (offset + m.size_uncompressed) ≤ m.start
        within e =
            let le : add_word p.lpos m.size_uncompressed ≤ m.start = ground (arith, e) in
            omega (arith, le, l, x.left_le, h, module_pages, power_pos a.page_shift)

        enough :
            ltb m.start (add_word p.lpos m.size_uncompressed) ≡ true
            → p.lpos + m.size_uncompressed ≤ m.start + delta
        enough e = omega (
          arith,
          l,
          x.left_le,
          h,
          module_pages,
          ltb→lt m.start (add_word p.lpos m.size_uncompressed) e,
          al.le_round (sub_word (add_word p.lpos m.size_uncompressed) m.start) a.page_shift (
              omega (
                arith,
                l,
                x.left_le,
                h,
                module_pages,
                ltb→lt m.start (add_word p.lpos m.size_uncompressed) e,
              )),
        )

    to_left-At : (p : Places) → At limit offset p → LeftResult p (to_left p)
    to_left-At p x = elim (Bool-cases (p.ldest == 0)) [
      | inl z ↦ rw (z) (x, refl, omega arith, inl (ground (arith, z)))
      | inr z ↦ elim x.left [
        | inl n ↦ absurd (ground (arith, z, n))
        | inr l ↦ to_left-moved p x l z
      ]
    ]

    advanced :
        (p q : Places)
        → At limit offset q
        → p.rdest ≤ q.rdest
        → q.ldest ≤ p.ldest
        → m.start + m.size ≤ q.rdest + offset
        → Front q
        → Stepped limit offset m p (advance a mod_reg u c (pages m) q)
    advanced p q x up down behind front = record {
      at = record {
        right = omega (arith, x.right, x.right_le, h, power_pos a.page_shift);
        left = further x.left;
        right_le = x.right_le;
        left_le = x.left_le;
      };
      up = up;
      down = down;
      behind = behind;
      front = front;
    }
      where
        further :
            (q.ldest ≡ 0) ⊎ (q.lpos ≡ q.ldest + offset)
            → (q.ldest ≡ 0) ⊎ (add_word q.lpos (pages m) ≡ q.ldest + (offset + pages m))
        further (inl n) = inl n
        further (inr l) = inr (omega (arith, l, x.left_le, h, power_pos a.page_shift))

    -- A whole round for a module that is unpacked.
    pub round-Stepped :
        (p : Places) → At limit offset p → Stepped limit offset m p (place_module a mod_reg u c m p)
    round-Stepped p x =
        let (x1, up, same, behind) = to_right-At p x in
        let (x2, keeps, down, front) = to_left-At (to_right p) x1 in
        subst
          (λ mend.
            Stepped limit offset m p
              (advance a mod_reg u c (pages m) (to_left (shift_right a mod_reg u c mend p))))
          (sym end_is)
          (advanced p (to_left (to_right p)) x2 (omega (arith, up, keeps))
            (omega (arith, down, same)) (omega (arith, behind, keeps)) front)
      where
        end_is : add_word m.start m.size ≡ m.start + m.size
        end_is = omega (arith, f.end, power_pos a.page_shift)
