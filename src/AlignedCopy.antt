-- ===== src/AlignedCopy.antt =====
-- memcpy_aligned.c in server/src: a copy in blocks of eight words, words and bytes.
pub mod Copies
mod Tests
use bootstrap.Prelude.{ℕ, zero, suc, ◌+◌, ◌-◌, ◌*◌, ◌/◌, ◌%◌, ◌&&◌, leb, ltb, if◌then◌else◌}

-- A number of bytes that are loaded before they are stored: one byte, a word of eight bytes, or the
-- eight words of a round of the first loop. Memory is a function from addresses to bytes.
unfoldable pub store : ℕ → ℕ → ℕ → (ℕ → ℕ) → ℕ → ℕ
store n d s bytes x = if leb d x && ltb x (d + n) then bytes (x - d + s) else bytes x

-- A loop that copies a number of chunks of `n` bytes.
unfoldable pub copy_chunks : ℕ → ℕ → ℕ → ℕ → (ℕ → ℕ) → ℕ → ℕ
unfolding store
copy_chunks n zero d s bytes x = bytes x
copy_chunks n (suc count) d s bytes x = copy_chunks n count (d + n) (s + n) (store n d s bytes) x

-- `memcpy_aligned`. The number of words in the blocks is that of all words, with the lowest three
-- bits cleared. Addresses do not wrap around.
unfoldable pub memcpy_aligned : ℕ → ℕ → ℕ → (ℕ → ℕ) → ℕ → ℕ
unfolding copy_chunks
memcpy_aligned d s size bytes =
    let blocks = size / 8 / 8 in
    let words = size / 8 % 8 in
    let after_blocks = copy_chunks 64 blocks d s bytes in
    let after_words = copy_chunks 8 words (d + 64 * blocks) (s + 64 * blocks) after_blocks in
    copy_chunks 1 (size % 8) (d + 64 * blocks + 8 * words) (s + 64 * blocks + 8 * words) after_words
