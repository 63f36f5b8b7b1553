-- ===== src/Multiboot2/Kept.antt =====
-- The operations that keep what is still to be read of the buffer.
use bootstrap.Prelude.{
  ℕ, ◌+◌, ◌-◌, ◌≤◌, ◌≡◌, refl, sym, ap, ◌∙◌, List, ◌++◌, ok, arith, leb, length, take, drop, true,
  append_assoc, take-drop, length-drop, drop-append, take-append, length-append, write_bytes,
  le→leb,
}
use bootstrap.Align.{Align, IsAlign}
use bootstrap.Multiboot2.Layout.{MbInfo}
use bootstrap.Multiboot2.{Buffer, reserve_from_end, with_bytes}
use bootstrap.Multiboot2.Convert.{Holds}

module _ (a : Align) (al : IsAlign a) (l : MbInfo) (buf : ℕ) where
  -- The end of the buffer is given away, as far as there is room.
  pub reserve_from_end-Holds :
      (b : Buffer) (off n : ℕ) (live : List ℕ) (extra extra' : ℕ)
      → extra' + a.round_size n 3 ≤ extra
      → Holds a al l buf b off live extra
      → (b' : Buffer) × (reserve_from_end a l buf b n ≡ ok b')
        × (b'.bytes ≡ b.bytes)
        × Holds a al l buf b' off live extra'
  unfolding reserve_from_end
  reserve_from_end-Holds b off n live extra extra' e h =
      let fits : leb (a.round_size n 3) b.size ≡ true =
        le→leb (a.round_size n 3) b.size (omega (arith, h.room)) in
      (
        record {
          bytes = b.bytes;
          size = b.size - a.round_size n 3;
          mbi = b.mbi;
          vbe = b.vbe;
          rsdp = b.rsdp;
        },
        rw (fits) refl,
        refl,
        record {
          front = h.front;
          dead = h.dead;
          contents = h.contents;
          front_length = h.front_length;
          room = omega (arith, h.room);
          within = omega (arith, h.within);
          low = omega (arith, h.low);
        },
      )

  -- A field written behind what is still to be read.
  pub write_bytes-Holds :
      (b : Buffer) (off at : ℕ) (field live : List ℕ) (extra : ℕ)
      → off + length live ≤ at
      → Holds a al l buf b off live extra
      → Holds a al l buf (with_bytes b (write_bytes at field b.bytes)) off live extra
  unfolding write_bytes
  write_bytes-Holds b off at field live extra e h = record {
    front = h.front;
    dead = new;
    contents = same;
    front_length = h.front_length;
    room = h.room;
    within = omega (arith, h.within, enough);
    low = h.low;
  }
    where
      base : ℕ
      base = at - (off + length live)

      rest : List ℕ
      rest = drop (base + length field) h.dead

      p : List ℕ
      p = h.front ++ live

      whole : b.bytes ≡ p ++ h.dead
      whole = h.contents ∙ sym (append_assoc h.front live h.dead)

      total : length p ≡ off + length live
      total = omega (arith, length-append h.front live, h.front_length)

      base_is : at - length p ≡ base
      base_is = omega (arith, total)

      skip_is : at + length field - length p ≡ base + length field
      skip_is = omega (arith, total, e)

      new : List ℕ
      new = take base h.dead ++ (field ++ drop (base + length field) h.dead)

      same : write_bytes at field b.bytes ≡ h.front ++ (live ++ new)
      same =
          ap (λ w. take at w ++ (field ++ drop (at + length field) w)) whole
          ∙ rw
              (
                take-append at p h.dead (omega (arith, total)),
                drop-append (at + length field) p h.dead (omega (arith, total)),
                base_is,
                skip_is,
                append_assoc h.front live (take base h.dead),
                append_assoc h.front (live ++ take base h.dead) (field ++ rest),
                append_assoc live (take base h.dead) (field ++ rest),
              )
              refl

      enough : length h.dead ≤ length new
      enough = omega (
        arith,
        length-append (take base h.dead) (field ++ rest),
        length-append field rest,
        length-drop (base + length field) h.dead,
        length-drop base h.dead,
        ap length (take-drop base h.dead),
        length-append (take base h.dead) (drop base h.dead),
      )
