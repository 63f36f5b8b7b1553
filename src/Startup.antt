-- ===== src/Startup.antt =====
-- startup.cc in server/src: the command line, and presetting memory.
pub mod CommandLine
pub mod FillMem
pub mod Layout
pub mod ElfLoad
pub mod KernelSearch
pub mod Kmem
pub mod Gather
pub mod Load
mod Tests
use bootstrap.Prelude.{
  ℕ, zero, suc, ◌+◌, ◌-◌, Bool, true, false, ◌&&◌, ◌||◌, Option, none, some, List, [], ◌∷◌, Result,
  ok, err, ◌>>=◌, ◌>>◌, guard, assertion, sub_word, ltb, leb, ◌==◌, if◌then◌else◌, add_word, length,
  get_elem?, drop, out_of_fuel,
}
use mathlib.Core.Option
use bootstrap.Region.{Region}

-- `isspace` of the C library, in the C locale.
abbrev pub isspace : ℕ → Bool
isspace c = (c == 32) || (leb 9 c && leb c 13)

-- Whether a text starts with another; both are characters up to the terminating zero.
unfoldable pub starts_with : List ℕ → List ℕ → Bool
starts_with s [] = true
starts_with [] (p ∷ ps) = false
starts_with (c ∷ s) (p ∷ ps) = (c == p) && starts_with s ps

-- `strstr` of the C library: how far from the pointer the first occurrence is.
unfoldable pub strstr : List ℕ → List ℕ → Option ℕ
unfolding starts_with
strstr [] arg = if starts_with [] arg then some 0 else none
strstr (c ∷ s) arg =
    let rest = Option.map suc (strstr s arg) in if starts_with (c ∷ s) arg then some 0 else rest

-- The test `s == cmdline || isspace (s[-1])` of a position in the command line.
unfoldable pub at_word : List ℕ → ℕ → Bool
at_word cmdline zero = true
at_word cmdline (suc i) = elim (get_elem? cmdline i) [ none ↦ false | some c ↦ isspace c ]

-- The end of a round of the loop of `check_arg`, at what `strstr` returned; `go` is the next round.
abbrev pub check_found : List ℕ → List ℕ → (ℕ → Result (Option ℕ)) → Option ℕ → Result (Option ℕ)
check_found cmdline arg go none = ok none
check_found cmdline arg go (some s) =
    let rest = go s in if at_word cmdline s then ok (some (s + length arg)) else rest

-- The loop of `check_arg`, from a position in the command line on.
unfoldable pub check_from : ℕ → List ℕ → List ℕ → ℕ → Result (Option ℕ)
unfolding strstr at_word
check_from zero cmdline arg s = err out_of_fuel
check_from (suc fuel) cmdline arg s =
    check_found cmdline arg (check_from fuel cmdline arg)
      (Option.map (λ k. s + k) (strstr (drop s cmdline) arg))

-- `check_arg`, with the position behind the argument in place of the pointer. The null pointer is
-- `none`.
unfoldable pub check_arg : ℕ → Option (List ℕ) → List ℕ → Result (Option ℕ)
unfolding check_from
check_arg fuel none arg = ok none
check_arg fuel (some cmdline) arg = check_from fuel cmdline arg 0

-- What `check_arg` stores through `arg_len`, of the text behind the argument.
unfoldable pub arg_len : List ℕ → ℕ
arg_len [] = 0
arg_len (c ∷ s) = let rest = suc (arg_len s) in if isspace c then 0 else rest

-- The `memset` of the C library, on the bytes of the memory.
unfoldable pub preset : ℕ → ℕ → ℕ → (ℕ → ℕ) → ℕ → ℕ
preset begin val size bytes x = if leb begin x && ltb x (begin + size) then val else bytes x

-- `verbose_memset`, whose range includes its end; the number of bytes is a word.
unfoldable pub verbose_memset : ℕ → ℕ → ℕ → (ℕ → ℕ) → Result (ℕ → ℕ)
unfolding preset
verbose_memset begin end val bytes =
    guard (leb begin end) assertion >> ok (preset begin val (add_word (sub_word end begin) 1) bytes)

-- The end of a round of `fill_mem`: the space behind the last region of the working range.
abbrev pub fill_tail : ℕ → ℕ → ℕ → (ℕ → ℕ) → Result (ℕ → ℕ)
fill_tail b e val bytes = if leb b e then verbose_memset b e val bytes else ok bytes

-- The space in the working range in front of a region.
abbrev pub fill_leading : Region → ℕ → ℕ → (ℕ → ℕ) → Result (ℕ → ℕ)
fill_leading r b val bytes =
    if ltb b r.begin then verbose_memset b (sub_word r.begin 1) val bytes else ok bytes

-- The inner loop of `fill_mem`, over the regions from a cursor on, and the fill behind it.
unfoldable pub fill_gaps : List Region → ℕ → ℕ → ℕ → (ℕ → ℕ) → Result (ℕ → ℕ)
unfolding verbose_memset
fill_gaps [] b e val bytes = fill_tail b e val bytes
fill_gaps (r ∷ rs) b e val bytes =
    let next = fill_gaps rs b e val bytes in
    let rest = fill_leading r b val bytes >>= fill_gaps rs (add_word r.end 1) e val in
    if ltb r.end b then next else if ltb e r.begin then fill_tail b e val bytes else rest

-- `fill_mem`, over the RAM regions from a cursor on.
unfoldable pub fill_mem : List Region → List Region → ℕ → ℕ → (ℕ → ℕ) → Result (ℕ → ℕ)
unfolding fill_gaps
fill_mem [] regions mem_end val bytes = ok bytes
fill_mem (m ∷ ms) regions mem_end val bytes =
    let skip = fill_mem ms regions mem_end val bytes in
    let end = if ltb mem_end m.end then mem_end else m.end in
    let rest = fill_gaps regions m.begin end val bytes >>= fill_mem ms regions mem_end val in
    if ltb mem_end m.begin then skip else rest
