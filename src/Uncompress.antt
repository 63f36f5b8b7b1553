-- ===== src/Uncompress.antt =====
-- uncompress.cc in server/src: the allocator that the decompressor uses, and the decompression.
pub mod Malloc
mod Tests
use bootstrap.Prelude.{
  ℕ, ◌+◌, ◌-◌, ◌%◌, Bool, not, Option, none, some, ltb, ◌==◌, if◌then◌else◌, add_word,
}

-- `sizeof (static_buf)`
abbrev pub buf_size : ℕ
buf_size = 0x4000

-- The size that `malloc` takes from the buffer. The mask `sizeof (long) - 1U` keeps the lowest three
-- bits, which is the remainder modulo 8.
unfoldable pub alloc_size : ℕ → ℕ
alloc_size size = add_word size 7 % 8

-- `malloc`. The state and the result are offsets in `static_buf`; `free_ptr` is the state.
unfoldable pub malloc : ℕ → ℕ → Option ℕ × ℕ
unfolding alloc_size
malloc size free_ptr =
    if ltb (buf_size - free_ptr) (alloc_size size)
    then (none, free_ptr)
    else (some free_ptr, free_ptr + alloc_size size)

-- `free`
unfoldable pub free : ℕ → ℕ → ℕ
free address free_ptr = free_ptr

-- What zlib answers: whether `inflateInit2` returned Z_OK, whether `inflate` returned Z_STREAM_END,
-- and the bytes of output space that it left.
pub record Zlib : Type 0 where
  pub init_ok : Bool
  pub stream_end : Bool
  pub avail_out : ℕ

-- `decompress`, which returns the destination or the null pointer.
unfoldable pub decompress : Zlib → ℕ → Option ℕ
decompress zlib destbuf =
    if not zlib.init_ok
    then none
    else if not zlib.stream_end
    then none
    else if not (zlib.avail_out == 0)
    then none
    else some destbuf
