-- ===== src/Common.antt =====
-- include/common.hpp and src/common.cpp: words and byte order, decimal print, percent encoding, hex,
-- hashes, addresses, bitfields, and the reading of a file.
pub mod Words
pub mod Decimal
pub mod Hex
pub mod Urlencode
pub mod Hash
pub mod Address
pub mod Bitfield
pub mod Files
