-- ===== src/AlignedCopy/Tests.antt =====
-- A copy of a hundred and one bytes.
use bootstrap.Prelude.{inl, arith}
use bootstrap.AlignedCopy.{memcpy_aligned}
use bootstrap.AlignedCopy.Copies.{Apart, Copied, memcpy_aligned-Copied}

memcpy_aligned-Copied_example :
    Copied 0x1000 0x2000 101 (λ x. x) (memcpy_aligned 0x1000 0x2000 101 (λ x. x))
unfolding Apart
memcpy_aligned-Copied_example = memcpy_aligned-Copied 0x1000 0x2000 101 (λ x. x) (inl (omega arith))
