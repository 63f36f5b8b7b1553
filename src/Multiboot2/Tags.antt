-- ===== src/Multiboot2/Tags.antt =====
-- The loops of multiboot2.cc over the tags.
use bootstrap.Prelude.{
  ℕ, zero, suc, ◌+◌, ◌*◌, ◌^◌, ◌≤◌, ◌<◌, ◌≡◌, refl, sym, ◌∙◌, List, [], ◌∷◌, ◌++◌, ok, arith, ◌==◌,
  ◌||◌, length, true, false, inl, inr, Bool-cases, read_le, append_assoc, length-append,
}
use mathlib.Core.Path.{subst}
use bootstrap.Align.{Align, IsAlign}
use bootstrap.Multiboot2.Layout.{MbInfo}
use bootstrap.Multiboot2.{Buffer, tag_size, tag_type, module_tags, process_modules}
use bootstrap.Multiboot2.Convert.{IsTag, Holds, read_le-inner}
use bootstrap.Multiboot2.Steps.{process_module-Holds, finish_modules-Holds}

-- The bytes of tags that follow each other.
abbrev pub join : List (List ℕ) → List ℕ → List ℕ
join [] last = last
join (t ∷ ts) last = t ++ join ts last

-- The parts of the header's layout on which the conversion in place relies: the type and the size
-- are the first eight bytes of a tag, and a module tag without its name is as long as an entry of
-- the old version.
pub record IsMbInfo (l : MbInfo) : Type 0 where
  pub type_inside : l.type + 4 ≤ 8
  pub module_name : l.module_data + l.string ≡ 16
  pub module_size : l.mod_size ≡ 16

module _ (a : Align) (al : IsAlign a) (l : MbInfo) (buf : ℕ) where
  -- A tag that is not the last one, long enough for its type. Frame buffers are left out: for them
  -- more bytes are given up than the tag has.
  pub record IsKnown (t : List ℕ) : Type 0 where
    pub tag : IsTag a al l buf t
    pub more : (read_le 4 l.type t == l.terminator_info) ≡ false
    pub no_framebuffer : (read_le 4 l.type t == l.framebuffer_info) ≡ false
    pub module_room : (read_le 4 l.type t == l.module_info) ≡ true → 16 ≤ read_le 4 l.size t
    pub cmdline_room :
        (read_le 4 l.type t == l.cmdline_info) ≡ true → l.cmdline ≤ read_le 4 l.size t
    pub rsdp_room :
        ((read_le 4 l.type t == l.rsdp_old_info) || (read_le 4 l.type t == l.rsdp_new_info)) ≡ true
        → l.rsdp ≤ read_le 4 l.size t
    pub map_sizes :
        (read_le 4 l.type t == l.memory_map_info) ≡ true → l.memmap + l.entries ≤ read_le 4 l.size t
    pub map_step :
        (read_le 4 l.type t == l.memory_map_info) ≡ true
        → read_le 4 (l.memmap + l.entry_size) t ≤ 2 ^ 16
    pub map_room :
        (read_le 4 l.type t == l.memory_map_info) ≡ true → l.memmap + l.entry_size + 4 ≤ length t
    pub map_entries :
        (read_le 4 l.type t == l.memory_map_info) ≡ true → 0 < read_le 4 (l.memmap + l.entry_size) t

  abbrev pub AllKnown : List (List ℕ) → Type 0
  AllKnown [] = Unit
  AllKnown (t ∷ ts) = IsKnown t × AllKnown ts

  -- The type of the tag at which the buffer is read.
  pub Holds-tag_type :
      (b : Buffer) (off : ℕ) (t live : List ℕ) (extra : ℕ)
      → l.type + 4 ≤ length t
      → Holds a al l buf b off (t ++ live) extra
      → tag_type a l buf b off ≡ read_le 4 l.type t
  Holds-tag_type b off t live extra i h =
      rw (h.contents, append_assoc t live h.dead, sym h.front_length)
        (read_le-inner 4 l.type h.front t (live ++ h.dead) i)

  pub Holds-end_type :
      (b : Buffer) (off : ℕ) (e : List ℕ) (extra : ℕ)
      → l.type + 4 ≤ length e
      → Holds a al l buf b off e extra
      → tag_type a l buf b off ≡ read_le 4 l.type e
  Holds-end_type b off e extra i h =
      rw (h.contents, sym h.front_length) (read_le-inner 4 l.type h.front e h.dead i)

  pub Holds-tag_size :
      (b : Buffer) (off : ℕ) (t live : List ℕ) (extra : ℕ)
      → l.size + 4 ≤ length t
      → Holds a al l buf b off (t ++ live) extra
      → tag_size a l buf b off ≡ read_le 4 l.size t
  Holds-tag_size b off t live extra i h =
      rw (h.contents, append_assoc t live h.dead, sym h.front_length)
        (read_le-inner 4 l.size h.front t (live ++ h.dead) i)

  -- The next tag is read behind a tag that is left where it is.
  pub Holds-next :
      (b : Buffer) (off : ℕ) (t live : List ℕ)
      → Holds a al l buf b off (t ++ live) 0
      → Holds a al l buf b (off + length t) live 0
  Holds-next b off t live h = record {
    front = h.front ++ t;
    dead = h.dead;
    contents =
        h.contents ∙ rw (append_assoc t live h.dead, append_assoc h.front t (live ++ h.dead)) refl;
    front_length = omega (arith, length-append h.front t, h.front_length);
    room = omega (arith, h.room, length-append t live);
    low = h.low;
    within = omega (arith, h.within, length-append t live);
  }

  -- A terminator behind the tags.
  pub record IsEnd (e : List ℕ) : Type 0 where
    pub room : 8 ≤ length e
    pub last : read_le 4 l.type e ≡ l.terminator_info

  -- The module tags at the front of what is left are all converted; `left` are the others.
  record Modules (ts : List (List ℕ)) (e : List ℕ) (off cnt : ℕ) (b' : Buffer) (n : ℕ)
      : Type 0 where
    left : List (List ℕ)
    known : AllKnown left
    shorter : length (join left e) + 8 * n ≤ length (join ts e) + 8 * cnt
    holds : Holds a al l buf b' off (join left e) (16 * n)

  module_tags-Modules :
      (lay : IsMbInfo l) (fuel : ℕ) (ts : List (List ℕ)) (e : List ℕ) (off cnt : ℕ) (b : Buffer)
      → (l.terminator_info == l.module_info) ≡ false
      → AllKnown ts
      → IsEnd e
      → length (join ts e) < fuel
      → Holds a al l buf b off (join ts e) (16 * cnt)
      → (b' : Buffer) × (n : ℕ) × (module_tags a l buf fuel b off cnt ≡ ok (b', n))
        × Modules ts e off cnt b' n
  unfolding module_tags
  module_tags-Modules lay zero ts e off cnt b d k is f h = absurd (omega arith)
  module_tags-Modules lay (suc fuel) [] e off cnt b d k is f h = (
    b,
    cnt,
    rw (Holds-end_type b off e (16 * cnt) (omega (arith, lay.type_inside, is.room)) h, is.last, d)
        refl,
    record { left = []; known = tt; shorter = omega arith; holds = h },
  )
  module_tags-Modules lay (suc fuel) (t ∷ ts) e off cnt b d k is f h =
      elim (Bool-cases (read_le 4 l.type t == l.module_info)) [
        | inl m ↦
            let (b1, p, h1) =
              process_module-Holds a al l buf b off t (join ts e) (16 * cnt) k.0.tag lay.module_name
                (k.0.module_room m) h in
            let len : length (t ++ join ts e) ≡ length t + length (join ts e) =
              length-append t (join ts e) in
            let (b2, n, q, r) =
              module_tags-Modules lay fuel ts e off (cnt + 1) b1 d k.1 is
                (omega (arith, len, k.0.tag.room))
                (subst (λ x. Holds a al l buf b1 off (join ts e) x) (omega arith) h1) in
            (
              b2,
              n,
              rw (type, m, p) q,
              record {
                left = r.left;
                known = r.known;
                shorter = omega (arith, r.shorter, len, k.0.tag.room);
                holds = r.holds;
              },
            )
        | inr m ↦ (
          b,
          cnt,
          rw (type, m) refl,
          record { left = t ∷ ts; known = k; shorter = omega arith; holds = h },
        )
      ]
    where
      type : tag_type a l buf b off ≡ read_le 4 l.type t
      type =
          Holds-tag_type b off t (join ts e) (16 * cnt)
            (omega (arith, lay.type_inside, k.0.tag.room)) h

  -- A round of the main loop leaves fewer bytes.
  pub record Next (ts : List (List ℕ)) (e : List ℕ) (b' : Buffer) (off' : ℕ) : Type 0 where
    pub left : List (List ℕ)
    pub known : AllKnown left
    pub shorter : length (join left e) < length (join ts e)
    pub holds : Holds a al l buf b' off' (join left e) 0

  pub process_modules-Next :
      (lay : IsMbInfo l) (fuel : ℕ) (t : List ℕ) (ts : List (List ℕ)) (e : List ℕ) (off : ℕ)
      (b : Buffer)
      → (l.terminator_info == l.module_info) ≡ false
      → (read_le 4 l.type t == l.module_info) ≡ true
      → IsKnown t
      → AllKnown ts
      → IsEnd e
      → length (join ts e) < fuel
      → length (join ts e) < 2 ^ 32
      → Holds a al l buf b off (t ++ join ts e) 0
      → (b' : Buffer) × (process_modules a l buf (suc fuel) b off ≡ ok b') × Next (t ∷ ts) e b' off
  unfolding process_modules module_tags
  process_modules-Next lay fuel t ts e off b d m k ks is f w h =
      let type : tag_type a l buf b off ≡ read_le 4 l.type t =
        Holds-tag_type b off t (join ts e) 0 (omega (arith, lay.type_inside, k.tag.room)) h in
      let len : length (t ++ join ts e) ≡ length t + length (join ts e) =
        length-append t (join ts e) in
      let (b1, p, h1) =
        process_module-Holds a al l buf b off t (join ts e) 0 k.tag lay.module_name
          (k.module_room m) h in
      let (b2, n, q, r) = module_tags-Modules lay fuel ts e off 1 b1 d ks is f h1 in
      let (b3, v, h3) =
        finish_modules-Holds a al l buf b2 off n (join r.left e) lay.module_size
          (omega (arith, r.shorter)) r.holds in
      (
        b3,
        rw (type, m, p, q, v) refl,
        record {
          left = r.left;
          known = r.known;
          shorter = omega (arith, r.shorter, len, k.tag.room);
          holds = h3;
        },
      )
