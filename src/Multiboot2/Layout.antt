-- ===== src/Multiboot2/Layout.antt =====
-- The structures that the Multiboot header declares, which multiboot2.cc reads and fills.
use bootstrap.Prelude.{ℕ, Bool, Option, List}

-- The constants of that header: the offsets of the fields of a tag (those of a module, of a memory
-- map, of its entries and of a frame buffer within these), the sizes, and the types of the tags.
pub record MbInfo : Type 0 where
  pub info_size : ℕ
  pub type : ℕ
  pub size : ℕ
  pub cmdline : ℕ
  pub module_data : ℕ
  pub mod_start : ℕ
  pub mod_end : ℕ
  pub string : ℕ
  pub memmap : ℕ
  pub entry_size : ℕ
  pub entries : ℕ
  pub base_addr : ℕ
  pub entry_length : ℕ
  pub entry_type : ℕ
  pub fb : ℕ
  pub fb_addr : ℕ
  pub fb_pitch : ℕ
  pub fb_width : ℕ
  pub fb_height : ℕ
  pub fb_bpp : ℕ
  pub fb_type : ℕ
  pub fb_colors : ℕ
  pub rsdp : ℕ
  pub mod_size : ℕ
  pub mbi_size : ℕ
  pub vbe_mode_size : ℕ
  pub vbe_ctrl_size : ℕ
  pub terminator_info : ℕ
  pub cmdline_info : ℕ
  pub module_info : ℕ
  pub memory_map_info : ℕ
  pub framebuffer_info : ℕ
  pub rsdp_old_info : ℕ
  pub rsdp_new_info : ℕ

-- What the conversion fills in of `l4util_mb_info_t`; a flag is set where there is a value.
pub record Mbi : Type 0 where
  pub cmdline : Option ℕ
  pub modules : Option (ℕ × ℕ)
  pub memmap : Option (ℕ × ℕ)
  pub video : Bool

-- What it fills in of the two VESA structures. The six bytes of the colours stand in the order of
-- the tag.
pub record Vbe : Type 0 where
  pub phys_base : ℕ
  pub reserved1 : ℕ
  pub x_resolution : ℕ
  pub y_resolution : ℕ
  pub bits_per_pixel : ℕ
  pub bytes_per_scanline : ℕ
  pub colors : List ℕ
  pub total_memory : ℕ
