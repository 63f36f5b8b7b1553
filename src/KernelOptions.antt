-- ===== src/KernelOptions.antt =====
-- koptions.cc in server/src: the options on the kernel's command line.
pub mod JdbCmd
mod Tests
use Prim.Native.Char.{code}
use Prim.Native.String.{String}
use bootstrap.Prelude.{
  ℕ, zero, suc, ◌+◌, ◌-◌, ◌*◌, ◌/◌, ◌^◌, ◌%◌, Bool, true, false, ◌||◌, ◌&&◌, leb, ltb, Option, none,
  some, List, [], ◌∷◌, ◌==◌, if◌then◌else◌, length, drop, bit_or,
}
use bootstrap.Startup.{strstr}
use bootstrap.Startup.Layout.{char_at}

-- The bytes of a text.
abbrev pub codes : String → List ℕ
codes String.[] = []
codes (String.◌∷◌ c s) = code c ∷ codes s

-- The offsets of the fields of `L4_kernel_options::Options`, which is packed: magic and version are
-- in front of the flags, the UART and the boot address of the cores in front of `jdb_cmd`, which has
-- 128 bytes.
pub record Options : Type 0 where
  pub flags : ℕ
  pub kmemsize : ℕ
  pub perf_profile : ℕ
  pub jdb_cmd : ℕ
  pub tbuf_entries : ℕ
  pub out_buf : ℕ

abbrev pub fields : Options
fields = record {
  flags = 8;
  kmemsize = 12;
  perf_profile = 16;
  jdb_cmd = 80;
  tbuf_entries = 208;
  out_buf = 212;
}

-- A word of four bytes in memory, the lowest byte first.
unfoldable pub load_word : ℕ → (ℕ → ℕ) → ℕ
load_word at bytes =
    bytes at + 256 * bytes (at + 1) + 256 * 256 * bytes (at + 2) + 256 * 256 * 256 * bytes (at + 3)

unfoldable pub store_word : ℕ → ℕ → (ℕ → ℕ) → ℕ → ℕ
store_word at v bytes x = if leb at x && ltb x (at + 4) then v / 256 ^ (x - at) % 256 else bytes x

-- `lko->flags |= flag`, for the options at an address.
unfoldable pub set_flag : ℕ → ℕ → (ℕ → ℕ) → ℕ → ℕ
unfolding load_word store_word
set_flag lko flag bytes =
    store_word (lko + fields.flags) (bit_or (load_word (lko + fields.flags) bytes) flag) bytes

-- `boolean_opts`
abbrev pub boolean_opts : List (List ℕ × ℕ)
boolean_opts =
    (codes " -wait", 2 ^ 0)
    ∷ (codes " -serial_esc", 2 ^ 1)
    ∷ (codes " -serial_input", 2 ^ 24)
    ∷ (codes " -noserial", 2 ^ 2)
    ∷ (codes " -noscreen", 2 ^ 3)
    ∷ (codes " -esc", 2 ^ 4)
    ∷ (codes " -nojdb", 2 ^ 5)
    ∷ (codes " -nohlt", 2 ^ 7)
    ∷ (codes " -apic", 2 ^ 8)
    ∷ (codes " -loadcnt", 2 ^ 9)
    ∷ (codes " -watchdog", 2 ^ 10)
    ∷ (codes " -irq0", 2 ^ 13)
    ∷ (codes " -nosfn", 2 ^ 15)
    ∷ (codes " -jdb_never_stop", 2 ^ 16)
    ∷ (codes " -oneshot-timer", 2 ^ 25)
    ∷ []

-- `unsigned_opts`
pub record UnsignedOpt : Type 0 where
  pub name : List ℕ
  pub flag : ℕ
  pub offset : ℕ

abbrev pub unsigned_opts : List UnsignedOpt
unsigned_opts =
    record { name = codes " -kmemsize"; flag = 2 ^ 17; offset = fields.kmemsize }
    ∷ record { name = codes " -tbuf_entries"; flag = 2 ^ 18; offset = fields.tbuf_entries }
    ∷ record { name = codes " -out_buf"; flag = 2 ^ 19; offset = fields.out_buf }
    ∷ record { name = codes " -perf_profile"; flag = 2 ^ 26; offset = fields.perf_profile }
    ∷ []

-- The text behind an option and the character that separates it, if that is a space or "=".
abbrev pub value_at : List ℕ → List ℕ → Option ℕ → Option (List ℕ)
value_at cmdline name none = none
value_at cmdline name (some k) =
    let rest = drop (k + length name) cmdline in
    if (char_at rest == 32) || (char_at rest == 61) then some (drop 1 rest) else none

unfoldable pub option_value : List ℕ → List ℕ → Option (List ℕ)
unfolding strstr
option_value cmdline name = value_at cmdline name (strstr cmdline name)

-- The loop over the Boolean options.
abbrev pub if_found : ℕ → Option ℕ → ℕ → (ℕ → ℕ) → ℕ → ℕ
if_found lko none flag bytes = bytes
if_found lko (some k) flag bytes = set_flag lko flag bytes

unfoldable pub parse_boolean : ℕ → List ℕ → List (List ℕ × ℕ) → (ℕ → ℕ) → ℕ → ℕ
unfolding strstr set_flag
parse_boolean lko cmdline [] bytes = bytes
parse_boolean lko cmdline ((name, flag) ∷ opts) bytes =
    parse_boolean lko cmdline opts (if_found lko (strstr cmdline name) flag bytes)

-- The copy of a value: up to a space, and as long as there is room in front of the last byte, which
-- is for the null character.
unfoldable pub copy_value : ℕ → List ℕ → ℕ → (ℕ → ℕ) → ℕ → ℕ
copy_value zero text at bytes x = if x == at then 0 else bytes x
copy_value (suc room) [] at bytes x = if x == at then 0 else bytes x
copy_value (suc room) (c ∷ cs) at bytes x =
    let rest = copy_value room cs (at + 1) (λ y. if y == at then c else bytes y) x in
    if c == 32 then (if x == at then 0 else bytes x) else rest

-- The number that `strtol` of the C library returns for a text, as it is stored in 32 bits; and the
-- address of the options.
module _ (strtol : List ℕ → ℕ) (lko : ℕ) where
  abbrev pub set_unsigned : UnsignedOpt → Option (List ℕ) → (ℕ → ℕ) → ℕ → ℕ
  set_unsigned opt none bytes = bytes
  set_unsigned opt (some text) bytes =
      store_word (lko + opt.offset) (strtol text % 2 ^ 32) (set_flag lko opt.flag bytes)

  -- The loop over the options with numbers.
  unfoldable pub parse_unsigned : List ℕ → List UnsignedOpt → (ℕ → ℕ) → ℕ → ℕ
  unfolding option_value set_flag store_word
  parse_unsigned cmdline [] bytes = bytes
  parse_unsigned cmdline (opt ∷ opts) bytes =
      parse_unsigned cmdline opts (set_unsigned opt (option_value cmdline opt.name) bytes)

  -- The loop over the options with texts, of which there is one.
  abbrev pub set_jdb_cmd : Option (List ℕ) → (ℕ → ℕ) → ℕ → ℕ
  set_jdb_cmd none bytes = bytes
  set_jdb_cmd (some text) bytes =
      copy_value 127 text (lko + fields.jdb_cmd) (set_flag lko (2 ^ 23) bytes)

  -- `kcmdline_parse`, on the bytes of the memory.
  unfoldable pub kcmdline_parse : List ℕ → (ℕ → ℕ) → ℕ → ℕ
  unfolding parse_boolean parse_unsigned option_value copy_value set_flag
  kcmdline_parse cmdline bytes =
      set_jdb_cmd (option_value cmdline (codes " -jdb_cmd"))
        (parse_unsigned cmdline unsigned_opts (parse_boolean lko cmdline boolean_opts bytes))
