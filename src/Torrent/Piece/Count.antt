-- ===== src/Torrent/Piece/Count.antt =====
-- How many blocks a piece has.
use picotor.Base.{◌+◌, ◌*◌, ◌%◌, ◌≤◌, ◌<◌, ◌≡◌, ◌≢◌, arith}
use picotor.Torrent.Block.{block_size}
use picotor.Torrent.Piece.{Piece, block_count}

-- The blocks cover the piece, and each of them is needed.
pub block_count_bounds :
    (p : Piece)
    → (p.piece_size ≤ block_count p * block_size)
      × (block_count p * block_size < p.piece_size + block_size)
unfolding block_count
block_count_bounds p = ground arith

pub block_count-whole :
    (p : Piece) → p.piece_size % block_size ≡ 0 → block_count p * block_size ≡ p.piece_size
unfolding block_count
block_count-whole p h = ground arith

pub block_count-ragged :
    (p : Piece) → p.piece_size % block_size ≢ 0 → p.piece_size < block_count p * block_size
unfolding block_count
block_count-ragged p h = ground arith
