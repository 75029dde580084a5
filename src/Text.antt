-- ===== src/Text.antt =====
-- Rust texts as their UTF-8 bytes, and what the sources use of `str`, `char` and `fmt`.
mod Slice
mod Trim
mod Hex
unfoldable pub use Slice.*
unfoldable pub use Trim.*
unfoldable pub use Hex.*
