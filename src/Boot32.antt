-- ===== src/Boot32.antt =====
-- ARCH-amd64/boot32 in server/src: the 32-bit part that runs in front of the 64-bit bootstrap.
pub mod Reservations
pub mod MmAlloc
pub mod LoadElf
pub mod Bootstrap
pub mod PageTables
mod Tests
