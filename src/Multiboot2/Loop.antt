-- ===== src/Multiboot2/Loop.antt =====
-- The main loop of multiboot2.cc: it comes to the terminator, whatever the tags are.
use bootstrap.Prelude.{
  ℕ, zero, suc, ◌+◌, ◌^◌, ◌≤◌, ◌<◌, ◌≡◌, refl, List, [], ◌∷◌, ◌++◌, ok, arith, ◌==◌, ◌||◌, length,
  false, inl, inr, Bool-cases, read_le, ==_refl, length-append,
}
use bootstrap.Align.{Align, IsAlign}
use bootstrap.Multiboot2.Layout.{MbInfo}
use bootstrap.Multiboot2.{Buffer, tag_size, tag_type, convert_tags, process_tag}
use bootstrap.Multiboot2.Convert.{Holds}
use bootstrap.Multiboot2.Steps.{process_cmdline-Holds, process_rsdp-Holds, process_memmap-Holds}
use bootstrap.Multiboot2.Tags.{
  join, IsMbInfo, IsKnown, AllKnown, IsEnd, Next, Holds-tag_type, Holds-end_type, Holds-tag_size,
  Holds-next, process_modules-Next,
}

module _ (a : Align) (al : IsAlign a) (l : MbInfo) (buf : ℕ) where
  -- The same place is read again, one tag further.
  stay-Next :
      (t : List ℕ) (ts : List (List ℕ)) (e : List ℕ) (off : ℕ) (b' : Buffer)
      → IsKnown a al l buf t
      → AllKnown a al l buf ts
      → Holds a al l buf b' off (join ts e) 0
      → Next a al l buf (t ∷ ts) e b' off
  stay-Next t ts e off b' k ks h = record {
    left = ts;
    known = ks;
    shorter = omega (arith, length-append t (join ts e), k.tag.room);
    holds = h;
  }

  process_tag-Next :
      (lay : IsMbInfo l) (fuel : ℕ) (t : List ℕ) (ts : List (List ℕ)) (e : List ℕ) (off : ℕ)
      (b : Buffer)
      → (l.terminator_info == l.module_info) ≡ false
      → IsKnown a al l buf t
      → AllKnown a al l buf ts
      → IsEnd a al l buf e
      → length (join (t ∷ ts) e) < 2 + fuel
      → length (join (t ∷ ts) e) < 2 ^ 32
      → Holds a al l buf b off (t ++ join ts e) 0
      → (b' : Buffer) × (off' : ℕ) × (process_tag a l buf (suc fuel) b off ≡ ok (b', off'))
        × Next a al l buf (t ∷ ts) e b' off'
  unfolding process_tag
  process_tag-Next lay fuel t ts e off b d k ks is f w h =
      elim (Bool-cases (type == l.cmdline_info)) [
        | inl c ↦
            let (b', p, h') =
              process_cmdline-Holds a al l buf b off t (join ts e) k.tag (k.cmdline_room c) h in
            (b', off, rw (same, c, p) refl, stay-Next t ts e off b' k ks h')
        | inr c ↦ elim (Bool-cases (type == l.module_info)) [
          | inl m ↦
              let (b', p, n) =
                process_modules-Next a al l buf lay fuel t ts e off b d m k ks is
                  (omega (arith, len, k.tag.room)) (omega (arith, len)) h in
              (b', off, rw (same, c, m, p) refl, n)
          | inr m ↦ elim (Bool-cases (type == l.memory_map_info)) [
            | inl y ↦
                let (b', p, h') =
                  process_memmap-Holds a al l buf (suc fuel) b off t (join ts e) k.tag
                    (k.map_room y) (k.map_sizes y) (k.map_entries y) (k.map_step y)
                    (omega (arith, len, last_room ts)) h in
                (b', off, rw (same, c, m, y, p) refl, stay-Next t ts e off b' k ks h')
            | inr y ↦ elim (Bool-cases ((type == l.rsdp_old_info) || (type == l.rsdp_new_info))) [
              | inl o ↦
                  let (b', p, h') =
                    process_rsdp-Holds a al l buf b off t (join ts e) k.tag (k.rsdp_room o) h in
                  (
                    b',
                    off,
                    rw (same, c, m, y, k.no_framebuffer, o, p) refl,
                    stay-Next t ts e off b' k ks h',
                  )
              | inr o ↦ (
                b,
                off + length t,
                rw (same, c, m, y, k.no_framebuffer, o, size, k.tag.sized) refl,
                stay-Next',
              )
            ]
          ]
        ]
      ]
    where
      type : ℕ
      type = read_le 4 l.type t

      len : length (t ++ join ts e) ≡ length t + length (join ts e)
      len = length-append t (join ts e)

      last_room : (ts : List (List ℕ)) → 8 ≤ length (join ts e)
      last_room [] = is.room
      last_room (u ∷ us) = omega (arith, last_room us, length-append u (join us e))

      same : tag_type a l buf b off ≡ type
      same =
          Holds-tag_type a al l buf b off t (join ts e) 0
            (omega (arith, lay.type_inside, k.tag.room)) h

      size : tag_size a l buf b off ≡ read_le 4 l.size t
      size =
          Holds-tag_size a al l buf b off t (join ts e) 0 (omega (arith, k.tag.inside, k.tag.room))
            h

      stay-Next' : Next a al l buf (t ∷ ts) e b (off + length t)
      stay-Next' = record {
        left = ts;
        known = ks;
        shorter = omega (arith, len, k.tag.room);
        holds = Holds-next a al l buf b off t (join ts e) h;
      }

  -- The loop over the tags of a well-formed buffer ends, with no failed assertion, and at its end
  -- the terminator is still in the part of the buffer that is not given up: every tag has its
  -- padded size and the room that its type needs, there is no frame buffer, every memory map
  -- has an entry size above 0 and of at most 64 KiB, the buffer ends more than 64 KiB below 4 GiB,
  -- and the fuel is above the number of bytes.
  pub convert_tags-ok :
      (lay : IsMbInfo l) (fuel : ℕ) (ts : List (List ℕ)) (e : List ℕ) (off : ℕ) (b : Buffer)
      → (l.terminator_info == l.module_info) ≡ false
      → AllKnown a al l buf ts
      → IsEnd a al l buf e
      → length (join ts e) < fuel
      → length (join ts e) < 2 ^ 32
      → Holds a al l buf b off (join ts e) 0
      → (b' : Buffer) × (off' : ℕ) × (convert_tags a l buf fuel b off ≡ ok b')
        × Holds a al l buf b' off' e 0
  unfolding convert_tags
  convert_tags-ok lay zero ts e off b d ks is f w h = absurd (omega arith)
  convert_tags-ok lay (suc fuel) [] e off b d ks is f w h = (
    b,
    off,
    rw
        (
          Holds-end_type a al l buf b off e 0 (omega (arith, lay.type_inside, is.room)) h,
          is.last,
          ==_refl l.terminator_info,
        )
        refl,
    h,
  )
  convert_tags-ok lay (suc zero) (t ∷ ts) e off b d ks is f w h =
      absurd (omega (arith, length-append t (join ts e), ks.0.tag.room))
  convert_tags-ok lay (suc (suc fuel)) (t ∷ ts) e off b d ks is f w h =
      let same : tag_type a l buf b off ≡ read_le 4 l.type t =
        Holds-tag_type a al l buf b off t (join ts e) 0
          (omega (arith, lay.type_inside, ks.0.tag.room)) h in
      let (b1, off1, p, n) =
        process_tag-Next lay fuel t ts e off b d ks.0 ks.1 is (omega arith) w h in
      let (b2, off2, q, h2) =
        convert_tags-ok lay (suc fuel) n.left e off1 b1 d n.known is (omega (arith, n.shorter))
          (omega (arith, n.shorter)) n.holds in
      (b2, off2, rw (same, ks.0.more, p) q, h2)
