-- ===== src/Startup/KernelSearch.antt =====
-- startup.cc in server/src: the search for the kernel info and the kernel options in the binary of
-- the kernel.
use bootstrap.Prelude.{
  ℕ, zero, suc, ◌-◌, Bool, Option, none, some, Result, ok, err, guard, ◌>>=◌, ◌>>◌, ltb, ◌==◌,
  if◌then◌else◌, add_word, sub_word, out_of_fuel, no_kernel_info, no_kernel_options,
}
use bootstrap.Align.{Align, round_page}
use bootstrap.Startup.ElfLoad.{ElfTypes, BootModule, HdrInfo, exec_load_elf, find_hdr}

-- `search_kip` over the pages of the kernel info: `node_at` reads the node field of the one at an
-- address, and a page is `page` bytes. The size is a word, so it may wrap around.
unfoldable pub search_kip : ℕ → (ℕ → ℕ) → ℕ → ℕ → ℕ → ℕ → ℕ → Result (Option ℕ)
search_kip zero node_at kip_size page kip size node = err out_of_fuel
search_kip (suc fuel) node_at kip_size page kip size node =
    let rest =
      search_kip fuel node_at kip_size page (add_word kip page) (sub_word size page) node in
    if ltb size kip_size then ok none else if node_at kip == node then ok (some kip) else rest

abbrev pub header_of : ℕ → HdrInfo
header_of type = record { hdr_type = type; start = 0; size = 0; file_ofs = 0 }

abbrev pub found_or_panic : Option ℕ × HdrInfo → Result HdrInfo
found_or_panic (none, hdr) = err no_kernel_info
found_or_panic (some n, hdr) = if n == 1 then ok hdr else err no_kernel_info

-- `find_kip`
unfoldable pub find_kip : ElfTypes → ℕ → (ℕ → ℕ) → ℕ → ℕ → BootModule → ℕ → ℕ → Result (Option ℕ)
unfolding exec_load_elf find_hdr search_kip
find_kip t fuel node_at kip_size page m offset node =
    exec_load_elf find_hdr (header_of t.l4_kip) m >>= found_or_panic >>= λ hdr.
    search_kip fuel node_at kip_size page (add_word hdr.start offset) hdr.size node

-- The loop of `find_kopts`: the options of a node, or the address behind the last ones.
unfoldable pub kopts_loop : ℕ → (ℕ → ℕ) → ℕ → ℕ → ℕ → ℕ → Result ℕ
kopts_loop zero node_at kopt_size ko size node = err out_of_fuel
kopts_loop (suc fuel) node_at kopt_size ko size node =
    let rest = kopts_loop fuel node_at kopt_size (add_word ko kopt_size) (size - kopt_size) node in
    if ltb size kopt_size then ok ko else if node_at ko == node then ok ko else rest

-- The options directly behind the kernel info, or those of the header.
abbrev pub kopts_at : Align → ℕ → (ℕ → ℕ) → ℕ → ℕ → ℕ → ℕ → ℕ → Option ℕ × HdrInfo → Result ℕ
kopts_at a fuel node_at kopt_size kip kip_size offset node (none, hdr) =
    ok (round_page a (add_word kip kip_size))
kopts_at a fuel node_at kopt_size kip kip_size offset node (some n, hdr) =
    let loop = kopts_loop fuel node_at kopt_size (add_word hdr.start offset) hdr.size node in
    if n == 1 then loop else ok (round_page a (add_word kip kip_size))

-- `find_kopts`; `usable` is the test of the magic number and the version at an address.
unfoldable pub find_kopts :
    Align → ElfTypes → ℕ → (ℕ → ℕ) → (ℕ → Bool) → ℕ → ℕ → ℕ → BootModule → ℕ → ℕ → Result ℕ
unfolding exec_load_elf find_hdr kopts_loop
find_kopts a t fuel node_at usable kopt_size kip kip_size m offset node =
    exec_load_elf find_hdr (header_of t.l4_kopt) m
    >>= kopts_at a fuel node_at kopt_size kip kip_size offset node
    >>= λ ko. guard (usable ko) no_kernel_options >> ok ko
