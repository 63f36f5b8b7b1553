-- ===== src/Multiboot2/Tests.antt =====
-- A small buffer: a command line, a tag that is skipped, a module, a memory map, and the terminator.
use bootstrap.Prelude.{ℕ, ◌≡◌, refl, List, [], ◌∷◌, ◌++◌, none, false, ok, read_le, arith}
use bootstrap.Align.Sample.{sample, sample-IsAlign}
use bootstrap.Multiboot2.Layout.{MbInfo}
use bootstrap.Multiboot2.{Buffer, rotate, convert_tags}
use bootstrap.Multiboot2.Rotate.{rotate-moves}
use bootstrap.Multiboot2.Convert.{Holds}
use bootstrap.Multiboot2.Tags.{IsMbInfo, IsKnown, IsEnd, join}
use bootstrap.Multiboot2.Loop.{convert_tags-ok}

-- The numbers of the Multiboot 2 specification.
abbrev mb2 : MbInfo
mb2 = record {
  info_size = 8;
  type = 0;
  size = 4;
  cmdline = 8;
  module_data = 8;
  mod_start = 0;
  mod_end = 4;
  string = 8;
  memmap = 8;
  entry_size = 0;
  entries = 8;
  base_addr = 0;
  entry_length = 8;
  entry_type = 16;
  fb = 8;
  fb_addr = 0;
  fb_pitch = 8;
  fb_width = 12;
  fb_height = 16;
  fb_bpp = 20;
  fb_type = 21;
  fb_colors = 24;
  rsdp = 8;
  mod_size = 16;
  mbi_size = 88;
  vbe_mode_size = 256;
  vbe_ctrl_size = 512;
  terminator_info = 0;
  cmdline_info = 1;
  module_info = 3;
  memory_map_info = 6;
  framebuffer_info = 8;
  rsdp_old_info = 14;
  rsdp_new_info = 15;
}

abbrev cmdline_tag : List ℕ
cmdline_tag = 1 ∷ 0 ∷ 0 ∷ 0 ∷ 10 ∷ 0 ∷ 0 ∷ 0 ∷ 97 ∷ 0 ∷ 0 ∷ 0 ∷ 0 ∷ 0 ∷ 0 ∷ 0 ∷ []

abbrev module_tag : List ℕ
module_tag =
    3 ∷ 0 ∷ 0 ∷ 0 ∷ 18 ∷ 0 ∷ 0 ∷ 0 ∷ 0 ∷ 16 ∷ 0 ∷ 0 ∷ 0 ∷ 32 ∷ 0 ∷ 0 ∷ 98 ∷ 0 ∷ 0 ∷ 0 ∷ 0 ∷ 0 ∷ 0
    ∷ 0 ∷ []

abbrev other_tag : List ℕ
other_tag = 4 ∷ 0 ∷ 0 ∷ 0 ∷ 8 ∷ 0 ∷ 0 ∷ 0 ∷ []

-- A memory map with an entry: RAM of 256 bytes from 4096 on.
abbrev memmap_tag : List ℕ
memmap_tag =
    6 ∷ 0 ∷ 0 ∷ 0 ∷ 40 ∷ 0 ∷ 0 ∷ 0 ∷ 24 ∷ 0 ∷ 0 ∷ 0 ∷ 0 ∷ 0 ∷ 0 ∷ 0 ∷ 0 ∷ 16 ∷ 0 ∷ 0 ∷ 0 ∷ 0 ∷ 0 ∷ 0
    ∷ 0 ∷ 1 ∷ 0 ∷ 0 ∷ 0 ∷ 0 ∷ 0 ∷ 0 ∷ 1 ∷ 0 ∷ 0 ∷ 0 ∷ 0 ∷ 0 ∷ 0 ∷ 0 ∷ []

abbrev last_tag : List ℕ
last_tag = 0 ∷ 0 ∷ 0 ∷ 0 ∷ 8 ∷ 0 ∷ 0 ∷ 0 ∷ []

abbrev tags : List (List ℕ)
tags = cmdline_tag ∷ other_tag ∷ module_tag ∷ memmap_tag ∷ []

abbrev info : Buffer
info = record {
  bytes = (104 ∷ 0 ∷ 0 ∷ 0 ∷ 0 ∷ 0 ∷ 0 ∷ 0 ∷ []) ++ join tags last_tag;
  size = 104;
  mbi = record { cmdline = none; modules = none; memmap = none; video = false };
  vbe = record {
    phys_base = 0;
    reserved1 = 0;
    x_resolution = 0;
    y_resolution = 0;
    bits_per_pixel = 0;
    bytes_per_scanline = 0;
    colors = [];
    total_memory = 0;
  };
  rsdp = none;
}

mb2-IsMbInfo : IsMbInfo mb2
mb2-IsMbInfo = record { type_inside = omega arith; module_name = refl; module_size = refl }

cmdline-IsKnown : IsKnown sample sample-IsAlign mb2 4096 cmdline_tag
unfolding read_le
cmdline-IsKnown = record {
  tag = record { room = omega arith; sized = refl; small = omega arith; inside = omega arith };
  more = refl;
  no_framebuffer = refl;
  module_room = λ m. cc;
  map_room = λ m. cc;
  map_entries = λ m. cc;
  cmdline_room = λ m. omega arith;
  rsdp_room = λ m. cc;
  map_sizes = λ m. cc;
  map_step = λ m. cc;
}

other-IsKnown : IsKnown sample sample-IsAlign mb2 4096 other_tag
unfolding read_le
other-IsKnown = record {
  tag = record { room = omega arith; sized = refl; small = omega arith; inside = omega arith };
  more = refl;
  no_framebuffer = refl;
  module_room = λ m. cc;
  map_room = λ m. cc;
  map_entries = λ m. cc;
  cmdline_room = λ m. cc;
  rsdp_room = λ m. cc;
  map_sizes = λ m. cc;
  map_step = λ m. cc;
}

module-IsKnown : IsKnown sample sample-IsAlign mb2 4096 module_tag
unfolding read_le
module-IsKnown = record {
  tag = record { room = omega arith; sized = refl; small = omega arith; inside = omega arith };
  more = refl;
  no_framebuffer = refl;
  module_room = λ m. omega arith;
  map_room = λ m. cc;
  map_entries = λ m. cc;
  cmdline_room = λ m. cc;
  rsdp_room = λ m. cc;
  map_sizes = λ m. cc;
  map_step = λ m. cc;
}

memmap-IsKnown : IsKnown sample sample-IsAlign mb2 4096 memmap_tag
unfolding read_le
memmap-IsKnown = record {
  tag = record { room = omega arith; sized = refl; small = omega arith; inside = omega arith };
  more = refl;
  no_framebuffer = refl;
  module_room = λ m. cc;
  map_room = λ m. omega arith;
  map_entries = λ m. omega arith;
  cmdline_room = λ m. cc;
  rsdp_room = λ m. cc;
  map_sizes = λ m. omega arith;
  map_step = λ m. omega arith;
}

last_tag-IsEnd : IsEnd sample sample-IsAlign mb2 4096 last_tag
unfolding read_le
last_tag-IsEnd = record { room = omega arith; last = refl }

info-Holds : Holds sample sample-IsAlign mb2 4096 info 8 (join tags last_tag) 0
info-Holds = record {
  front = 104 ∷ 0 ∷ 0 ∷ 0 ∷ 0 ∷ 0 ∷ 0 ∷ 0 ∷ [];
  dead = [];
  contents = refl;
  front_length = refl;
  room = omega arith;
  within = omega arith;
  low = omega arith;
}

convert_tags-ok_example :
    (b' : Buffer) × (off' : ℕ) × (convert_tags sample mb2 4096 120 info 8 ≡ ok b')
    × Holds sample sample-IsAlign mb2 4096 b' off' last_tag 0
convert_tags-ok_example =
    convert_tags-ok sample sample-IsAlign mb2 4096 mb2-IsMbInfo 120 tags last_tag 8 info refl
      (cmdline-IsKnown, (other-IsKnown, (module-IsKnown, (memmap-IsKnown, tt)))) last_tag-IsEnd
      (omega arith) (omega arith) info-Holds

rotate-moves_example : rotate 3 2 (1 ∷ 2 ∷ 3 ∷ 4 ∷ []) ≡ ok (3 ∷ 4 ∷ 1 ∷ 2 ∷ [])
rotate-moves_example = rotate-moves 3 2 (1 ∷ 2 ∷ []) (3 ∷ 4 ∷ []) refl (omega arith)
