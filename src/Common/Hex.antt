-- ===== src/Common/Hex.antt =====
-- `hexchar`, `hex_to_bytes` and the print of `Hash::as_hex` in src/common.cpp, with the part of C's
-- `strtol(s, nullptr, 16)` that they need.
mod Defs
mod RoundTrip
unfoldable pub use Defs.*
pub use RoundTrip.*
