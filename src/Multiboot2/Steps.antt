-- ===== src/Multiboot2/Steps.antt =====
-- What the handlers of multiboot2.cc do to a buffer in which the rest of the tags is known.
use bootstrap.Prelude.{
  ℕ, zero, suc, ◌+◌, ◌-◌, ◌*◌, ◌^◌, ◌%◌, ◌≤◌, ◌<◌, ◌≡◌, refl, sym, ap, ◌∙◌, List, ◌++◌, ok, arith,
  ltb, length, inl, inr, Bool-cases, read_le, write_bytes, ltb→lt, leb, le→leb, true,
}
use bootstrap.Align.{Align, IsAlign}
use bootstrap.RegionList.FindFree.{multiple-le}
use bootstrap.Multiboot2.Layout.{MbInfo}
use bootstrap.Multiboot2.{
  Buffer, pointer, size_sub, rotate_to_end, reserve_from_end, tag_size, with_bytes, process_cmdline,
  process_module, pointer, size_sub, convert_entries, process_memmap, process_rsdp, finish_modules,
  v1_module, v1_range, set_cmdline, set_rsdp, set_modules, set_memmap,
}
use bootstrap.Multiboot2.Convert.{IsTag, Holds, Rotated, read_le-inner, rotate_to_end-Rotated}
use bootstrap.Multiboot2.Kept.{reserve_from_end-Holds, write_bytes-Holds}

module _ (a : Align) (al : IsAlign a) (l : MbInfo) (buf : ℕ) where
  -- Rounding keeps the order.
  round_mono : (n m : ℕ) → n ≤ m → m + 2 ^ 3 ≤ 2 ^ 64 → a.round_size n 3 ≤ a.round_size m 3
  round_mono n m h w =
      multiple-le (2 ^ 3) (a.round_size n 3) (a.round_size m 3)
        (al.round_multiple n 3 (omega arith)) (al.round_multiple m 3 w)
        (omega (arith, al.round_lt n 3 (omega arith), al.le_round m 3 w))

  Rotated-tag_size :
      (b b' : Buffer) (off dst : ℕ) (t live : List ℕ) (extra : ℕ)
      → IsTag a al l buf t
      → Rotated a al l buf b b' off dst t live extra
      → tag_size a l buf b' dst ≡ read_le 4 l.size t
  Rotated-tag_size b b' off dst t live extra is r =
      rw (r.placed, sym r.before_length)
        (read_le-inner 4 l.size r.before t r.after (omega (arith, is.inside, is.room)))

  Rotated-entry_size :
      (b b' : Buffer) (off dst : ℕ) (t live : List ℕ)
      → l.memmap + l.entry_size + 4 ≤ length t
      → Rotated a al l buf b b' off dst t live 0
      → read_le 4 (dst + l.memmap + l.entry_size) b'.bytes ≡ read_le 4 (l.memmap + l.entry_size) t
  Rotated-entry_size b b' off dst t live i r =
      let at : dst + l.memmap + l.entry_size ≡ length r.before + (l.memmap + l.entry_size) =
        omega (arith, r.before_length) in
      rw (at, r.placed) (read_le-inner 4 (l.memmap + l.entry_size) r.before t r.after i)

  -- Of the buffer only the bytes and the size matter.
  pub Holds-same :
      (b b' : Buffer) (off : ℕ) (live : List ℕ) (extra : ℕ)
      → b'.bytes ≡ b.bytes
      → b'.size ≡ b.size
      → Holds a al l buf b off live extra
      → Holds a al l buf b' off live extra
  Holds-same b b' off live extra e f h = record {
    front = h.front;
    dead = h.dead;
    contents = e ∙ h.contents;
    front_length = h.front_length;
    room = omega (arith, h.room);
    low = omega (arith, h.low);
    within = omega (arith, h.within);
  }

  -- A tag moved to the end, of which all but some bytes are given up.
  record GivenUp (b : Buffer) (off k : ℕ) (live : List ℕ) (extra : ℕ) : Type 0 where
    b1 : Buffer
    b2 : Buffer
    dst : ℕ
    rotated : rotate_to_end a l buf b off ≡ ok (b1, dst)
    reserved : reserve_from_end a l buf b1 (size_sub (tag_size a l buf b1 dst) k) ≡ ok b2
    behind : off + length live ≤ dst
    holds : Holds a al l buf b2 off live extra

  size_sub_le : (n k : ℕ) → k ≤ n → n < 2 ^ 32 → size_sub n k ≡ n - k
  size_sub_le n k h w = omega arith

  give_up :
      (b : Buffer) (off k : ℕ) (t live : List ℕ) (extra kept : ℕ)
      → IsTag a al l buf t
      → k ≤ read_le 4 l.size t
      → a.round_size (read_le 4 l.size t - k) 3 + kept ≤ length t
      → Holds a al l buf b off (t ++ live) extra
      → GivenUp b off k live (extra + kept)
  give_up b off k t live extra kept is in_tag le h =
      let (b1, dst, p, r) = rotate_to_end-Rotated a al l buf b off t live extra is h in
      let same : tag_size a l buf b1 dst ≡ read_le 4 l.size t =
        Rotated-tag_size b b1 off dst t live extra is r in
      let size : size_sub (tag_size a l buf b1 dst) k ≡ read_le 4 l.size t - k =
        rw (same) (size_sub_le (read_le 4 l.size t) k in_tag (omega (arith, is.small))) in
      let fits : extra + kept + a.round_size (size_sub (tag_size a l buf b1 dst) k) 3
          ≤ extra + length t =
        rw (size) (omega (arith, le)) in
      let (b2, q, e, h2) =
        reserve_from_end-Holds a al l buf b1 off (size_sub (tag_size a l buf b1 dst) k) live
          (extra + length t) (extra + kept) fits r.holds in
      record {
        b1 = b1;
        b2 = b2;
        dst = dst;
        rotated = p;
        reserved = q;
        behind = omega (arith, r.at_end, r.size, r.holds.room);
        holds = h2;
      }

  all_of :
      (k : ℕ) (t : List ℕ)
      → IsTag a al l buf t
      → a.round_size (read_le 4 l.size t - k) 3 + 0 ≤ length t
  all_of k t is = omega (
    arith,
    round_mono (read_le 4 l.size t - k) (read_le 4 l.size t) (omega arith)
        (omega (arith, is.small)),
    is.sized,
  )

  pub process_cmdline-Holds :
      (b : Buffer) (off : ℕ) (t live : List ℕ)
      → IsTag a al l buf t
      → l.cmdline ≤ read_le 4 l.size t
      → Holds a al l buf b off (t ++ live) 0
      → (b' : Buffer) × (process_cmdline a l buf b off ≡ ok b') × Holds a al l buf b' off live 0
  unfolding process_cmdline
  process_cmdline-Holds b off t live is i h =
      let g = give_up b off l.cmdline t live 0 0 is i (all_of l.cmdline t is) h in
      let b' = set_cmdline a l buf g.dst g.b2 in
      (b', rw (g.rotated, g.reserved) refl, Holds-same g.b2 b' off live 0 refl refl g.holds)

  pub process_rsdp-Holds :
      (b : Buffer) (off : ℕ) (t live : List ℕ)
      → IsTag a al l buf t
      → l.rsdp ≤ read_le 4 l.size t
      → Holds a al l buf b off (t ++ live) 0
      → (b' : Buffer) × (process_rsdp a l buf b off ≡ ok b') × Holds a al l buf b' off live 0
  unfolding process_rsdp
  process_rsdp-Holds b off t live is i h =
      let g = give_up b off l.rsdp t live 0 0 is i (all_of l.rsdp t is) h in
      let b' = set_rsdp a l buf (size_sub (tag_size a l buf g.b1 g.dst) l.rsdp) g.b2 in
      (b', rw (g.rotated, g.reserved) refl, Holds-same g.b2 b' off live 0 refl refl g.holds)

  module_room :
      (t : List ℕ)
      → IsTag a al l buf t
      → l.module_data + l.string ≡ 16
      → 16 ≤ read_le 4 l.size t
      → a.round_size (read_le 4 l.size t - (l.module_data + l.string)) 3 + 16 ≤ length t
  module_room t is e k =
      let n : ℕ = read_le 4 l.size t - (l.module_data + l.string) in
      let whole : length t % 2 ^ 3 ≡ 0 =
        rw (sym is.sized) (al.round_multiple (read_le 4 l.size t) 3 (omega (arith, is.small))) in
      let above : read_le 4 l.size t ≤ length t =
        omega (arith, al.le_round (read_le 4 l.size t) 3 (omega (arith, is.small)), is.sized) in
      let le : a.round_size n 3 ≤ length t - 16 =
        multiple-le (2 ^ 3) (a.round_size n 3) (length t - 16)
          (al.round_multiple n 3 (omega (arith, is.small))) (omega arith)
          (omega (arith, al.round_lt n 3 (omega (arith, is.small)))) in
      omega arith

  pub process_module-Holds :
      (b : Buffer) (off : ℕ) (t live : List ℕ) (extra : ℕ)
      → IsTag a al l buf t
      → l.module_data + l.string ≡ 16
      → 16 ≤ read_le 4 l.size t
      → Holds a al l buf b off (t ++ live) extra
      → (b' : Buffer) × (process_module a l buf b off ≡ ok b')
        × Holds a al l buf b' off live (extra + 16)
  unfolding process_module
  process_module-Holds b off t live extra is e k h =
      let g =
        give_up b off (l.module_data + l.string) t live extra 16 is (omega (arith, e, k))
          (module_room t is e k) h in
      let entry = v1_module a l buf g.dst g.b2.bytes in
      (
        with_bytes g.b2 (write_bytes g.dst entry g.b2.bytes),
        rw (g.rotated, g.reserved) refl,
        write_bytes-Holds a al l buf g.b2 off g.dst entry live (extra + 16) g.behind g.holds,
      )

  -- The modules' entries given up together.
  pub finish_modules-Holds :
      (b : Buffer) (off n : ℕ) (live : List ℕ)
      → l.mod_size ≡ 16
      → 16 * n + 2 ^ 3 ≤ 2 ^ 64
      → Holds a al l buf b off live (16 * n)
      → (b' : Buffer) × (finish_modules a l buf b n ≡ ok b') × Holds a al l buf b' off live 0
  unfolding finish_modules
  finish_modules-Holds b off zero live e w h = (b, refl, h)
  finish_modules-Holds b off (suc n) live e w h =
      let size : l.mod_size * suc n ≡ 16 * suc n = ap (λ s. s * suc n) e in
      let le : a.round_size (16 * suc n) 3 ≤ 16 * suc n =
        multiple-le (2 ^ 3) (a.round_size (16 * suc n) 3) (16 * suc n)
          (al.round_multiple (16 * suc n) 3 w) (omega arith) (al.round_lt (16 * suc n) 3 w) in
      let fits : 0 + a.round_size (l.mod_size * suc n) 3 ≤ 16 * suc n = rw (size) (omega arith) in
      let (b2, q, same, h2) =
        reserve_from_end-Holds a al l buf b off (l.mod_size * suc n) live (16 * suc n) 0 fits h in
      let b' = set_modules a l buf (suc n) b2 in
      (b', rw (q) refl, Holds-same b2 b' off live 0 refl refl h2)

  -- A round where the pointer behind the entry does not wrap around.
  convert_entries-more :
      (fuel entry_size last entry : ℕ) (bytes : List ℕ)
      → ltb (pointer a l buf entry) (pointer a l buf last) ≡ true
      → buf + (entry + entry_size) < 2 ^ 32
      → convert_entries a l buf (suc fuel) entry_size last entry bytes
        ≡ convert_entries a l buf fuel entry_size last
            (entry + entry_size)
            (write_bytes entry (v1_range a l buf entry_size entry bytes) bytes)
  unfolding convert_entries
  convert_entries-more fuel entry_size last entry bytes more w =
      let next : (pointer a l buf entry + entry_size) % 2 ^ 32 ≡ buf + (entry + entry_size) =
        omega arith in
      let back : buf + (entry + entry_size) - buf ≡ entry + entry_size = omega arith in
      let above : leb buf (buf + (entry + entry_size)) ≡ true =
        le→leb buf (buf + (entry + entry_size)) (omega arith) in
      rw (more, next, back, above) refl

  pub convert_entries-Holds :
      (fuel entry_size last entry off : ℕ) (b : Buffer) (live : List ℕ) (extra : ℕ)
      → 0 < entry_size
      → buf + last + entry_size < 2 ^ 32
      → entry ≤ last + entry_size
      → last - entry < fuel
      → off + length live ≤ entry
      → Holds a al l buf b off live extra
      → (bytes : List ℕ) × (convert_entries a l buf fuel entry_size last entry b.bytes ≡ ok bytes)
        × Holds a al l buf (with_bytes b bytes) off live extra
  unfolding convert_entries
  convert_entries-Holds zero entry_size last entry off b live extra s w g f le h =
      absurd (omega arith)
  convert_entries-Holds (suc fuel) entry_size last entry off b live extra s w g f le h =
      elim (Bool-cases (ltb (pointer a l buf entry) (pointer a l buf last))) [
        | inl more ↦
            let before : entry < last =
              omega (arith, ltb→lt (pointer a l buf entry) (pointer a l buf last) more) in
            let range = v1_range a l buf entry_size entry b.bytes in
            let (bytes, p, h') =
              convert_entries-Holds fuel entry_size last (entry + entry_size) off
                (with_bytes b (write_bytes entry range b.bytes)) live extra s w (omega arith)
                (omega arith) (omega arith)
                (write_bytes-Holds a al l buf b off entry range live extra le h) in
            (
              bytes,
              convert_entries-more fuel entry_size last entry b.bytes more
                    (omega (arith, w, before))
                  ∙ p,
              Holds-same (with_bytes (with_bytes b (write_bytes entry range b.bytes)) bytes)
                  (with_bytes b bytes) off live extra refl refl h',
            )
        | inr over ↦ (b.bytes, rw (over) refl, h)
      ]

  pub process_memmap-Holds :
      (fuel : ℕ) (b : Buffer) (off : ℕ) (t live : List ℕ)
      → IsTag a al l buf t
      → l.memmap + l.entry_size + 4 ≤ length t
      → l.memmap + l.entries ≤ read_le 4 l.size t
      → 0 < read_le 4 (l.memmap + l.entry_size) t
      → read_le 4 (l.memmap + l.entry_size) t ≤ 2 ^ 16
      → length t < fuel
      → Holds a al l buf b off (t ++ live) 0
      → (b' : Buffer) × (process_memmap a l buf fuel b off ≡ ok b') × Holds a al l buf b' off live 0
  unfolding process_memmap
  process_memmap-Holds fuel b off t live is i j s u f h =
      let (b1, dst, p, r) = rotate_to_end-Rotated a al l buf b off t live 0 is h in
      let same : tag_size a l buf b1 dst ≡ read_le 4 l.size t =
        Rotated-tag_size b b1 off dst t live 0 is r in
      let field : read_le 4 (dst + l.memmap + l.entry_size) b1.bytes
          ≡ read_le 4 (l.memmap + l.entry_size) t =
        Rotated-entry_size b b1 off dst t live i r in
      let size = size_sub (tag_size a l buf b1 dst) (l.memmap + l.entries) in
      let plain : size ≡ read_le 4 l.size t - (l.memmap + l.entries) =
        rw (same)
          (size_sub_le (read_le 4 l.size t) (l.memmap + l.entries) j (omega (arith, is.small))) in
      let above : read_le 4 l.size t ≤ length t =
        omega (arith, al.le_round (read_le 4 l.size t) 3 (omega (arith, is.small)), is.sized) in
      let (bytes, q, h2) =
        convert_entries-Holds fuel (read_le 4 (dst + l.memmap + l.entry_size) b1.bytes)
          (dst + tag_size a l buf b1 dst) (dst + l.memmap + l.entries) off b1 live (0 + length t)
          (rw (field) s) (omega (arith, field, same, u, above, r.at_end, r.size, h.low))
          (omega (arith, same, j)) (omega (arith, same, above, f))
          (omega (arith, r.at_end, r.size, r.holds.room)) r.holds in
      let fits : 0 + a.round_size size 3 ≤ 0 + length t =
        rw (plain) (omega (arith, all_of (l.memmap + l.entries) t is)) in
      let (b2, v, e, h3) =
        reserve_from_end-Holds a al l buf (with_bytes b1 bytes) off size live (0 + length t) 0 fits
          h2 in
      let b' = set_memmap a l buf size b2 in
      (b', rw (p, q, v) refl, Holds-same b2 b' off live 0 refl refl h3)
