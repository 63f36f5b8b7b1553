-- ===== src/Multiboot2.antt =====
-- multiboot2.cc in server/src: the conversion, in place, of Multiboot 2 information to that of
-- version 1.
pub mod Layout
pub mod Rotate
pub mod Convert
pub mod Kept
pub mod Steps
pub mod Tags
pub mod Loop
mod Tests
use bootstrap.Prelude.{
  ℕ, zero, suc, ◌+◌, ◌-◌, ◌*◌, ◌/◌, ◌%◌, ◌^◌, min, Bool, true, false, Option, none, some, List, [],
  ◌∷◌, ◌++◌, Result, ok, err, guard, ◌>>=◌, ◌>>◌, assertion, out_of_fuel, ltb, leb, ◌==◌, ◌||◌,
  outside_buffer, if◌then◌else◌, length, take, drop, read_le, le_bytes, write_bytes,
}
use bootstrap.Align.{Align}
use bootstrap.Multiboot2.Layout.{MbInfo, Mbi, Vbe}

-- The loop of `rotate_to_end`, on the bytes from the tag to the end of the buffer. A round moves at
-- most 1 KiB by way of `buf`.
unfoldable pub rotate : ℕ → ℕ → List ℕ → Result (List ℕ)
rotate zero size window = err out_of_fuel
rotate (suc fuel) size window =
    let copied = min 1024 size in
    let rest = rotate fuel (size - copied) (drop copied window ++ take copied window) in
    if size == 0 then ok window else rest

-- `Mbi2_convertible_buffer`: the bytes of the buffer, `_size`, `_mbi`, `_vbe_mode` and `_vbe_ctrl`,
-- and the two words that `process_rsdp` stores.
pub record Buffer : Type 0 where
  pub bytes : List ℕ
  pub size : ℕ
  pub mbi : Mbi
  pub vbe : Vbe
  pub rsdp : Option (ℕ × ℕ)

-- `module` and its v1 form.
abbrev pub module_entry : ℕ → ℕ → ℕ → List ℕ
module_entry begin end cmdline =
    le_bytes 4 begin ++ (le_bytes 4 end ++ (le_bytes 4 cmdline ++ le_bytes 4 0))

-- A difference of sizes, which are words of 32 bits.
abbrev pub size_sub : ℕ → ℕ → ℕ
size_sub n k = (n + 2 ^ 32 - k) % 2 ^ 32

-- Zeros stored by `memset`.
abbrev pub zeros : ℕ → List ℕ
zeros zero = []
zeros (suc n) = 0 ∷ zeros n

-- An assignment to a part of the buffer.
abbrev pub with_bytes : Buffer → List ℕ → Buffer
with_bytes b bytes = record {
  bytes = bytes;
  size = b.size;
  mbi = b.mbi;
  vbe = b.vbe;
  rsdp = b.rsdp;
}

abbrev pub with_mbi : Buffer → Mbi → Buffer
with_mbi b m = record { bytes = b.bytes; size = b.size; mbi = m; vbe = b.vbe; rsdp = b.rsdp }

-- A buffer is at the address `buf`.
module _ (a : Align) (l : MbInfo) (buf : ℕ) where
  -- A pointer as `l4_uint32_t`.
  abbrev pub pointer : ℕ → ℕ
  pointer off = (buf + off) % 2 ^ 32

  abbrev pub tag_type : Buffer → ℕ → ℕ
  tag_type b tag = read_le 4 (tag + l.type) b.bytes

  abbrev pub tag_size : Buffer → ℕ → ℕ
  tag_size b tag = read_le 4 (tag + l.size) b.bytes

  -- `rotate_to_end`: the tag's new place is the result.
  unfoldable pub rotate_to_end : Buffer → ℕ → Result (Buffer × ℕ)
  unfolding rotate
  rotate_to_end b tag =
      let size = a.round_size (tag_size b tag) 3 in
      rotate (suc size) size (drop tag (take b.size b.bytes)) >>= λ window. ok (
        record {
          bytes = take tag b.bytes ++ (window ++ drop b.size b.bytes);
          size = b.size;
          mbi = b.mbi;
          vbe = b.vbe;
          rsdp = b.rsdp;
        },
        b.size - size,
      )

  unfoldable pub reserve_from_end : Buffer → ℕ → Result Buffer
  reserve_from_end b n =
      let size = a.round_size n 3 in
      guard (leb size b.size) assertion
      >> ok (record {
        bytes = b.bytes;
        size = b.size - size;
        mbi = b.mbi;
        vbe = b.vbe;
        rsdp = b.rsdp;
      })

  abbrev pub set_cmdline : ℕ → Buffer → Buffer
  set_cmdline dst b = with_mbi b (record {
    cmdline = some (pointer (dst + l.cmdline));
    modules = b.mbi.modules;
    memmap = b.mbi.memmap;
    video = b.mbi.video;
  })

  unfoldable pub process_cmdline : Buffer → ℕ → Result Buffer
  unfolding rotate_to_end reserve_from_end
  process_cmdline b tag = rotate_to_end b tag >>= λ r.
      reserve_from_end r.0 (size_sub (tag_size r.0 r.1) l.cmdline) >>= λ b'. ok (set_cmdline r.1 b')

  abbrev pub v1_module : ℕ → List ℕ → List ℕ
  v1_module dst bytes =
      module_entry (read_le 4 (dst + l.module_data + l.mod_start) bytes)
        (read_le 4 (dst + l.module_data + l.mod_end) bytes)
        (pointer (dst + l.module_data + l.string))

  -- A round of the loop of `process_modules`.
  unfoldable pub process_module : Buffer → ℕ → Result Buffer
  unfolding rotate_to_end reserve_from_end
  process_module b tag = rotate_to_end b tag >>= λ r.
      reserve_from_end r.0 (size_sub (tag_size r.0 r.1) (l.module_data + l.string)) >>= λ b'.
      ok (with_bytes b' (write_bytes r.1 (v1_module r.1 b'.bytes) b'.bytes))

  -- The loop: the number of modules is counted from `cnt` on.
  unfoldable pub module_tags : ℕ → Buffer → ℕ → ℕ → Result (Buffer × ℕ)
  unfolding process_module
  module_tags zero b tag cnt = err out_of_fuel
  module_tags (suc fuel) b tag cnt =
      let rest = process_module b tag >>= λ b'. module_tags fuel b' tag (cnt + 1) in
      if tag_type b tag == l.module_info then rest else ok (b, cnt)

  abbrev pub set_modules : ℕ → Buffer → Buffer
  set_modules cnt b = with_mbi b (record {
    cmdline = b.mbi.cmdline;
    modules = some (cnt, pointer b.size);
    memmap = b.mbi.memmap;
    video = b.mbi.video;
  })

  -- The rest of `process_modules`.
  unfoldable pub finish_modules : Buffer → ℕ → Result Buffer
  unfolding reserve_from_end
  finish_modules b zero = ok b
  finish_modules b (suc n) =
      reserve_from_end b (l.mod_size * suc n) >>= λ b'. ok (set_modules (suc n) b')

  unfoldable pub process_modules : ℕ → Buffer → ℕ → Result Buffer
  unfolding module_tags finish_modules
  process_modules fuel b tag = module_tags fuel b tag 0 >>= λ r. finish_modules r.0 r.1

  -- `range`
  abbrev pub v1_range : ℕ → ℕ → List ℕ → List ℕ
  v1_range entry_size entry bytes =
      le_bytes 4 (size_sub entry_size 4)
      ++ (le_bytes 8 (read_le 8 (entry + l.base_addr) bytes)
          ++ (le_bytes 8 (read_le 8 (entry + l.entry_length) bytes)
              ++ le_bytes 4 (read_le 4 (entry + l.entry_type) bytes)))

  -- The loop of `process_memmap`, over the entries from `entry` on, up to `last`. Both are offsets
  -- in the buffer; the pointers, and their sums, are words of 32 bits. An entry in front of the
  -- buffer is outside of what is modelled.
  unfoldable pub convert_entries : ℕ → ℕ → ℕ → ℕ → List ℕ → Result (List ℕ)
  convert_entries zero entry_size last entry bytes = err out_of_fuel
  convert_entries (suc fuel) entry_size last entry bytes =
      let range = v1_range entry_size entry bytes in
      let next = (pointer entry + entry_size) % 2 ^ 32 in
      let rest =
        convert_entries fuel entry_size last (next - buf) (write_bytes entry range bytes) in
      if ltb (pointer entry) (pointer last)
      then guard (leb buf next) outside_buffer >> rest
      else ok bytes

  abbrev pub set_memmap : ℕ → Buffer → Buffer
  set_memmap size b = with_mbi b (record {
    cmdline = b.mbi.cmdline;
    modules = b.mbi.modules;
    memmap = some (size, pointer b.size);
    video = b.mbi.video;
  })

  unfoldable pub process_memmap : ℕ → Buffer → ℕ → Result Buffer
  unfolding rotate_to_end reserve_from_end convert_entries
  process_memmap fuel b tag = rotate_to_end b tag >>= λ r.
      let entries = r.1 + l.memmap + l.entries in
      let size = size_sub (tag_size r.0 r.1) (l.memmap + l.entries) in
      convert_entries fuel (read_le 4 (r.1 + l.memmap + l.entry_size) r.0.bytes)
        (r.1 + tag_size r.0 r.1) entries r.0.bytes
      >>= λ bytes. reserve_from_end (with_bytes r.0 bytes) size >>= λ b'. ok (set_memmap size b')

  -- What `process_fb` reads of the tag.
  abbrev pub fb_vbe : ℕ → List ℕ → Vbe
  fb_vbe tag bytes =
      let fb = tag + l.fb in
      let pitch = read_le 4 (fb + l.fb_pitch) bytes in
      let height = read_le 4 (fb + l.fb_height) bytes in
      record {
        phys_base = read_le 8 (fb + l.fb_addr) bytes % 2 ^ 32;
        reserved1 = read_le 8 (fb + l.fb_addr) bytes / 2 ^ 32;
        x_resolution = read_le 4 (fb + l.fb_width) bytes % 2 ^ 16;
        y_resolution = height % 2 ^ 16;
        bits_per_pixel = read_le 1 (fb + l.fb_bpp) bytes;
        bytes_per_scanline = pitch % 2 ^ 16;
        colors = drop (fb + l.fb_colors) (take (fb + l.fb_colors + 6) bytes);
        total_memory =
            ((pitch % 2 ^ 16) * (height % 2 ^ 16) + 64 * 1024 - 1) / (64 * 1024) % 2 ^ 16;
      }

  abbrev pub set_video : ℕ → Buffer → Buffer
  set_video dst b = record {
    bytes = b.bytes;
    size = b.size;
    mbi = record {
      cmdline = b.mbi.cmdline;
      modules = b.mbi.modules;
      memmap = b.mbi.memmap;
      video = true;
    };
    vbe = fb_vbe dst b.bytes;
    rsdp = b.rsdp;
  }

  unfoldable pub process_fb : Buffer → ℕ → Result Buffer
  unfolding rotate_to_end reserve_from_end
  process_fb b tag = rotate_to_end b tag >>= λ r.
      let fill =
        reserve_from_end r.0 (l.vbe_mode_size + l.vbe_ctrl_size) >>= λ b'. ok (set_video r.1 b') in
      if read_le 1 (r.1 + l.fb + l.fb_type) r.0.bytes == 1 then fill else ok r.0

  abbrev pub set_rsdp : ℕ → Buffer → Buffer
  set_rsdp size b = record {
    bytes = b.bytes;
    size = b.size;
    mbi = b.mbi;
    vbe = b.vbe;
    rsdp = some (buf + b.size, size);
  }

  unfoldable pub process_rsdp : Buffer → ℕ → Result Buffer
  unfolding rotate_to_end reserve_from_end
  process_rsdp b tag = rotate_to_end b tag >>= λ r.
      let size = size_sub (tag_size r.0 r.1) l.rsdp in
      reserve_from_end r.0 size >>= λ b'. ok (set_rsdp size b')

  -- The tag stays in place where the next one has been moved to it.
  abbrev pub stay : ℕ → Result Buffer → Result (Buffer × ℕ)
  stay tag (err why) = err why
  stay tag (ok b) = ok (b, tag)

  -- The switch of `_multiboot2_to_multiboot`: the buffer and the tag of the next round.
  unfoldable pub process_tag : ℕ → Buffer → ℕ → Result (Buffer × ℕ)
  process_tag fuel b tag =
      let type = tag_type b tag in
      if type == l.cmdline_info
      then stay tag (process_cmdline b tag)
      else if type == l.module_info
      then stay tag (process_modules fuel b tag)
      else if type == l.memory_map_info
      then stay tag (process_memmap fuel b tag)
      else if type == l.framebuffer_info
      then stay tag (process_fb b tag)
      else if (type == l.rsdp_old_info) || (type == l.rsdp_new_info)
      then stay tag (process_rsdp b tag)
      else ok (b, tag + a.round_size (tag_size b tag) 3)

  -- Its loop.
  unfoldable pub convert_tags : ℕ → Buffer → ℕ → Result Buffer
  convert_tags zero b tag = err out_of_fuel
  convert_tags (suc fuel) b tag =
      let rest = process_tag fuel b tag >>= λ r. convert_tags fuel r.0 r.1 in
      if tag_type b tag == l.terminator_info then ok b else rest

  -- `finalize`: the bytes of the buffer, and the address of the information. The parameters give
  -- the bytes of the structures.
  unfoldable pub finalize :
      (Mbi → Option (ℕ × ℕ) → List ℕ)
      → (Vbe → List ℕ)
      → (Vbe → List ℕ)
      → Buffer
      → Result (List ℕ × ℕ)
  finalize mbi_bytes vbe_mode vbe_ctrl b =
      let tail = drop b.size b.bytes in
      let s = l.vbe_mode_size + l.vbe_ctrl_size in
      let plain = ok (mbi_bytes b.mbi none ++ (zeros (b.size - l.mbi_size) ++ tail), buf) in
      let video =
        guard (leb (l.mbi_size + s) b.size) assertion
        >> ok (
          vbe_mode b.vbe
              ++ (vbe_ctrl b.vbe
                  ++ (mbi_bytes b.mbi (some (pointer 0, pointer l.vbe_mode_size))
                      ++ (zeros (b.size - (s + l.mbi_size)) ++ tail))),
          buf + s,
        ) in
      guard (leb l.mbi_size b.size) assertion >> (if b.mbi.video then video else plain)

  -- `_multiboot2_to_multiboot`
  unfoldable pub multiboot2_to_multiboot :
      (Mbi → Option (ℕ × ℕ) → List ℕ)
      → (Vbe → List ℕ)
      → (Vbe → List ℕ)
      → ℕ
      → Buffer
      → Result (List ℕ × ℕ)
  multiboot2_to_multiboot mbi_bytes vbe_mode vbe_ctrl fuel b =
      convert_tags fuel b l.info_size >>= finalize mbi_bytes vbe_mode vbe_ctrl
