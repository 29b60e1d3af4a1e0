-- ===== src/Torrent/CompletePiece.antt =====
-- `CompletePiece` of include/torrent.hpp. The buffer is never written again once the piece is complete.
use picotor.Base.{ℕ, ◌*◌, ◌%◌, Bytes, take, Outcome}
use picotor.Common.Words.{u32_mod}
use picotor.Common.Hash.{Hash}
use picotor.Common.Hash

-- `bytes` is what `data_` points at.
pub record CompletePiece : Type 0 where
  pub bytes : Bytes
  pub piece_index : ℕ
  pub size : ℕ

-- `piece_index_ * size_` in 32 bits.
unfoldable pub offset : CompletePiece → ℕ
offset c = c.piece_index * c.size % u32_mod

unfoldable pub hash : (Bytes → Bytes) → CompletePiece → Outcome Hash
hash sha1 c = Hash.of sha1 (take c.size c.bytes)
