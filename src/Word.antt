-- ===== src/Word.antt =====
-- The fixed-width integers of Rust as native numbers: casts, shifts, rotations and little-endian
-- bytes. A cast wraps; a shift by a variable count takes the count modulo the width, as the release
-- profile does.
mod LittleEndian
mod Rotate
mod Signed
unfoldable pub use LittleEndian.*
unfoldable pub use Rotate.*
unfoldable pub use Signed.*
