-- ===== src/Paging/Levels.antt =====
-- The loops of `ptab_map_level` end.
use bootstrap.Prelude.{
  ℕ, zero, suc, ◌+◌, ◌-◌, ◌*◌, ◌%◌, ◌^◌, ◌<◌, ◌≡◌, ◌⊎◌, refl, false, ◌&&◌, not, Result, ok, err,
  assertion, inl, inr, ltb, Bool-cases, arith, add_word, sub_word, lt→ltb,
}
use bootstrap.Paging.{
  CpuInfo, Walk, ptab_size, map_round, map_rounds, ptab_map_level, ptab_map_range, is_ptab_aligned,
  round_page,
}
use bootstrap.Paging.Steps.{
  IsWalk, Advanced, Advanced-IsWalk, Advanced-trans, map_round-lowest, map_round-higher,
}

module _ (cpu : CpuInfo) (alloc : ℕ → ℕ) (bits : ℕ) where
  -- A round at a level makes progress, for walks over less than so many bytes.
  abbrev Progress : ℕ → (ℕ → Walk → Result Walk) → ℕ → Type 0
  Progress n below level =
      (ptab : ℕ) (w : Walk)
      → IsWalk w
      → w.size < n
      → (w' : Walk) × (map_round cpu alloc bits below level ptab w ≡ ok w') × Advanced w w'

  ended :
      (w : Walk) (level : ℕ)
      → (ltb 0 w.size && not (is_ptab_aligned (level + 1) w.la)) ≡ false
      → (w.size ≡ 0) ⊎ (w.la % ptab_size (level + 1) ≡ 0)
  ended w level h = elim (Bool-cases (ltb 0 w.size)) [
    | inl e ↦ inr (ground (arith, e, h))
    | inr e ↦ inl (ground (arith, e))
  ]

  map_rounds-Advanced :
      (n : ℕ) (below : ℕ → Walk → Result Walk) (level : ℕ)
      → Progress n below level
      → (fuel ptab : ℕ) (w : Walk) → IsWalk w
      → w.size < n
      → w.size < fuel * 4096
      → (w' : Walk) × (map_rounds cpu alloc bits below fuel level ptab w ≡ ok w')
        × Advanced w w'
        × ((w'.size ≡ 0) ⊎ (w'.la % ptab_size (level + 1) ≡ 0))
  unfolding map_rounds
  map_rounds-Advanced n below level g zero ptab w i h f = absurd (omega arith)
  map_rounds-Advanced n below level g (suc fuel) ptab w i h f =
      let (w1, p, a) = g ptab w i h in
      elim (Bool-cases (ltb 0 w1.size && not (is_ptab_aligned (level + 1) w1.la))) [
        | inl more ↦
            let left : 0 < w1.size = ground (arith, more) in
            let (w2, q, b, l) =
              map_rounds-Advanced n below level g fuel ptab w1 (Advanced-IsWalk w w1 i a left)
                (omega (arith, a.size, h)) (omega (arith, a.size, a.some_page, f, left)) in
            (w2, rw (p, more) q, Advanced-trans w w1 w2 a b, l)
        | inr over ↦ (w1, rw (p, over) refl, a, ended w1 level over)
      ]

  ptab_map_level-Advanced :
      (fuel level ptab : ℕ) (w : Walk)
      → IsWalk w
      → w.size < fuel * 4096
      → (w' : Walk) × (ptab_map_level cpu alloc bits fuel level ptab w ≡ ok w')
        × Advanced w w'
        × ((w'.size ≡ 0) ⊎ (w'.la % ptab_size (level + 1) ≡ 0))
  unfolding ptab_map_level
  ptab_map_level-Advanced fuel zero ptab w i f =
      map_rounds-Advanced (fuel * 4096) (λ p v. err assertion) 0
        (λ p v j h. map_round-lowest cpu alloc bits (λ p v. err assertion) p v j) fuel ptab w i f f
  ptab_map_level-Advanced fuel (suc level) ptab w i f =
      map_rounds-Advanced (fuel * 4096) (ptab_map_level cpu alloc bits fuel level) (suc level)
        (λ p v j h.
          map_round-higher cpu alloc bits (fuel * 4096) (ptab_map_level cpu alloc bits fuel level)
            level p v
            (λ q u k l.
              let (v', r, b, e) = ptab_map_level-Advanced fuel level q u k l in (v', r, b))
            j h)
        fuel ptab w i f f

-- For a range of at least two bytes that does not reach the last page of the address space,
-- `ptab_map_range` returns with no failed assertion, with as much fuel as the range touches pages
-- and two more: at no level does the walk end at an entry that can be neither a leaf nor a table.
-- Both addresses have gone forward from the start of their pages by the same number of whole
-- pages, and no size is left, or the walk stands at the end of the top table. Leaves that exist
-- are passed as they are; of what the entries hold nothing is stated.
pub ptab_map_range-Advanced :
    (cpu : CpuInfo) (alloc : ℕ → ℕ) (bits fuel pml4 la pa size : ℕ) (entries : ℕ → ℕ) (tables : ℕ)
    → 1 < size
    → la + size + 8192 < 2 ^ 64
    → size + 8192 < fuel * 4096
    → (w' : Walk) × (ptab_map_range cpu alloc bits fuel pml4 la pa size entries tables ≡ ok w')
      × Advanced
          (record {
            la = la - la % 4096;
            pa = pa - pa % 4096;
            size = la % 4096 + size + (4096 - (la + size) % 4096) % 4096;
            entries = entries;
            tables = tables;
          })
          w'
      × ((w'.size ≡ 0) ⊎ (w'.la % 2 ^ 48 ≡ 0))
unfolding ptab_map_range
ptab_map_range-Advanced cpu alloc bits fuel pml4 la pa size entries tables s w f =
    let (w', p, a, e) =
      ptab_map_level-Advanced cpu alloc bits fuel 3 pml4 start
        (record {
          la_page = omega arith;
          pa_page = omega arith;
          size_page = omega arith;
          some_left = omega (arith, s);
        })
        (omega (arith, f)) in
    (w', whole w' p, a, e)
  where
    start : Walk
    start = record {
      la = la - la % 4096;
      pa = pa - pa % 4096;
      size = la % 4096 + size + (4096 - (la + size) % 4096) % 4096;
      entries = entries;
      tables = tables;
    }

    rounded :
        round_page cpu alloc bits (add_word (sub_word la (la - la % 4096)) size)
        ≡ la % 4096 + size + (4096 - (la + size) % 4096) % 4096
    rounded = omega arith

    whole :
        (w' : Walk)
        → ptab_map_level cpu alloc bits fuel 3 pml4 start ≡ ok w'
        → ptab_map_range cpu alloc bits fuel pml4 la pa size entries tables ≡ ok w'
    whole w' p =
        rw
          (
            lt→ltb 0 size (omega arith),
            lt→ltb la (sub_word (add_word la size) 1) (omega arith),
            rounded,
          )
          p
