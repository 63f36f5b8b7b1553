-- ===== src/Multiboot2/Convert.antt =====
-- The steps of the conversion, on a buffer in which the rest of the tags is known.
use bootstrap.Prelude.{
  ℕ, suc, ◌+◌, ◌-◌, ◌^◌, ◌≤◌, ◌<◌, ◌≡◌, refl, sym, ap, ◌∙◌, List, ◌++◌, ok, arith, length, take,
  drop, append_assoc, take-drop, take-short, drop-short, length-drop, drop-after, take-before,
  read_le, le_value, drop-append, length-append, length-take,
}
use bootstrap.Align.{Align, IsAlign}
use bootstrap.Multiboot2.Layout.{MbInfo}
use bootstrap.Multiboot2.Rotate.{rotate-moves}
use bootstrap.Multiboot2.{Buffer, rotate_to_end, tag_size, with_bytes}

-- A field of a part of the buffer.
pub read_le-inner :
    (n k : ℕ) (front t rest : List ℕ)
    → k + n ≤ length t
    → read_le n (length front + k) (front ++ (t ++ rest)) ≡ read_le n k t
unfolding read_le
read_le-inner n k front t rest h =
    ap (λ d. le_value (take n d)) (at_field ∙ drop-short k t rest (omega arith))
    ∙ ap le_value (take-short n (drop k t) rest (omega (arith, length-drop k t)))
  where
    at_field : drop (length front + k) (front ++ (t ++ rest)) ≡ drop k (t ++ rest)
    at_field =
        drop-append (length front + k) front (t ++ rest) (omega arith)
        ∙ ap (λ j. drop j (t ++ rest)) (omega arith)

module _ (a : Align) (al : IsAlign a) (l : MbInfo) (buf : ℕ) where
  -- A tag with its padding: its size field, rounded, is the number of its bytes.
  pub record IsTag (t : List ℕ) : Type 0 where
    pub room : 8 ≤ length t
    pub sized : a.round_size (read_le 4 l.size t) 3 ≡ length t
    pub small : read_le 4 l.size t + 2 ^ 3 ≤ 2 ^ 32
    pub inside : l.size + 4 ≤ 8

  -- From an offset on the buffer holds some bytes, and at least some more behind them. It ends more
  -- than 64 KiB below 4 GiB.
  pub record Holds (b : Buffer) (off : ℕ) (live : List ℕ) (extra : ℕ) : Type 0 where
    pub front : List ℕ
    pub dead : List ℕ
    pub contents : b.bytes ≡ front ++ (live ++ dead)
    pub front_length : length front ≡ off
    pub room : off + (length live + extra) ≤ b.size
    pub within : b.size ≤ off + (length live + length dead)
    pub low : buf + b.size + 2 ^ 16 < 2 ^ 32

  -- The outcome of `rotate_to_end` at a tag: the other bytes have moved up, and the tag stands at
  -- the end of the buffer.
  pub record Rotated (b b' : Buffer) (off dst : ℕ) (t live : List ℕ) (extra : ℕ) : Type 0 where
    pub holds : Holds b' off live (extra + length t)
    pub size : b'.size ≡ b.size
    pub at_end : dst + length t ≡ b.size
    pub before : List ℕ
    pub after : List ℕ
    pub placed : b'.bytes ≡ before ++ (t ++ after)
    pub before_length : length before ≡ dst

  pub rotate_to_end-Rotated :
      (b : Buffer) (off : ℕ) (t live : List ℕ) (extra : ℕ)
      → IsTag t
      → Holds b off (t ++ live) extra
      → (b' : Buffer) × (dst : ℕ) × (rotate_to_end a l buf b off ≡ ok (b', dst))
        × Rotated b b' off dst t live extra
  unfolding rotate_to_end
  rotate_to_end-Rotated b off t live extra is h = (
    with_bytes b (h.front ++ (((live ++ e) ++ t) ++ post)),
    length (h.front ++ (live ++ e)),
    rw
        (
          size_read,
          window,
          rotate-moves (suc (length t)) (length t) t (live ++ e) refl (omega arith),
          front_is,
          post_is,
          dst_is,
        )
        refl,
    record {
      holds = record {
        front = h.front;
        dead = e ++ (t ++ post);
        contents = rw (append_assoc (live ++ e) t post, append_assoc live e (t ++ post)) refl;
        front_length = h.front_length;
        room = omega (arith, h.room, length-append t live);
        low = h.low;
        within = omega (
          arith,
          h.within,
          lengths,
          length-append t live,
          length-append e (t ++ post),
          length-append t post,
        );
      };
      size = refl;
      at_end =
          omega
            (arith, dst_is, size_eq, length-append h.front window_all, length-append t (live ++ e));
      before = h.front ++ (live ++ e);
      after = post;
      placed =
          rw (append_assoc (live ++ e) t post, append_assoc h.front (live ++ e) (t ++ post)) refl;
      before_length = refl;
    },
  )
    where
      m : ℕ
      m = b.size - (off + length (t ++ live))

      e : List ℕ
      e = take m h.dead

      post : List ℕ
      post = drop m h.dead

      lengths : length h.dead ≡ length e + length post
      lengths = ap length (sym (take-drop m h.dead)) ∙ length-append e post

      window_all : List ℕ
      window_all = t ++ (live ++ e)

      whole : b.bytes ≡ (h.front ++ window_all) ++ post
      whole =
          rw
            (
              h.contents,
              append_assoc t live h.dead,
              append_assoc h.front window_all post,
              append_assoc t (live ++ e) post,
              append_assoc live e post,
              take-drop m h.dead,
            )
            refl

      size_eq : b.size ≡ length (h.front ++ window_all)
      size_eq = omega (
        arith,
        h.room,
        h.within,
        h.front_length,
        length-append h.front window_all,
        length-append t (live ++ e),
        length-append live e,
        length-append t live,
        length-take m h.dead (omega (arith, h.within, length-append t live)),
      )

      window : drop off (take b.size b.bytes) ≡ window_all
      window =
          ap (λ n. drop off (take n b.bytes)) size_eq
          ∙ ap (λ w. drop off (take (length (h.front ++ window_all)) w)) whole
          ∙ ap (drop off) (take-before (h.front ++ window_all) post)
          ∙ ap (λ n. drop n (h.front ++ window_all)) (sym h.front_length)
          ∙ drop-after h.front window_all

      front_is : take off b.bytes ≡ h.front
      front_is =
          rw (h.contents, sym h.front_length, take-before h.front ((t ++ live) ++ h.dead)) refl

      post_is : drop b.size b.bytes ≡ post
      post_is =
          ap (λ n. drop n b.bytes) size_eq
          ∙ ap (drop (length (h.front ++ window_all))) whole
          ∙ drop-after (h.front ++ window_all) post

      size_read : a.round_size (tag_size a l buf b off) 3 ≡ length t
      size_read =
          rw
            (
              h.contents,
              append_assoc t live h.dead,
              sym h.front_length,
              read_le-inner 4 l.size h.front t (live ++ h.dead) (omega (arith, is.room, is.inside)),
            )
            is.sized

      dst_is : b.size - length t ≡ length (h.front ++ (live ++ e))
      dst_is = omega (
        arith,
        size_eq,
        length-append h.front window_all,
        length-append t (live ++ e),
        length-append h.front (live ++ e),
      )
