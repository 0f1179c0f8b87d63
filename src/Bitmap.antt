-- ===== src/Bitmap.antt =====
-- kern/lib/bitmap.c: arrays of bits.
pub mod Defs
pub mod Full
pub mod Clear
mod Tests
pub use Defs.{Bitmap}
