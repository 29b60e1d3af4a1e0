-- ===== src/Torrent/Block.antt =====
-- `BlockStatus` and `Block` of include/torrent.hpp. Blocks are shared between a
-- piece, the map of requests of a peer and its timers, so they live in a store.
use picotor.Base.{
  ℕ, ◌+◌, ◌/◌, ◌^◌, Bool, true, false, Bytes, codes, take, replicate, if◌then◌else◌, ◌==◌,
}
use picotor.Stream.{Stream, read}

abbrev pub block_size : ℕ
block_size = 2 ^ 14

pub data BlockStatus : Type 0 where
  accepted already_filled wrong_piece wrong_offset too_much_data : BlockStatus

unfoldable pub block_status_string : BlockStatus → Bytes
block_status_string accepted = codes "Ok"
block_status_string already_filled = codes "AlreadyFilled"
block_status_string wrong_piece = codes "WrongPiece"
block_status_string wrong_offset = codes "WrongOffset"
block_status_string too_much_data = codes "TooMuchData"

-- `buffer` is `data_`, an array of `block_size` bytes.
pub record Block : Type 0 where
  pub filled : Bool
  pub reserved : Bool
  pub buffer : Bytes
  pub len : ℕ
  pub offset : ℕ

unfoldable pub new_block : ℕ → Block
new_block offset = record {
  filled = false;
  reserved = false;
  buffer = replicate block_size 0;
  len = 0;
  offset = offset;
}

unfoldable pub block_index : Block → ℕ
block_index b = b.offset / block_size

unfoldable pub release : Block → Block
release b = record b { reserved = false }

-- The first `len` bytes of the array, as `finalize` copies them.
abbrev pub contents : Block → Bytes
contents b = take b.len b.buffer

unfoldable pub fill : Block → Stream → ℕ → BlockStatus × Block
fill b ss len =
    if b.filled
    then (already_filled, b)
    else (accepted, record b { buffer = (read len b.buffer ss).0; len = len; filled = true })

-- The store of blocks: a `shared_ptr` is an address, and an address below `next` holds its block
-- for as long as anything points there.
pub record Store : Type 0 where
  pub next : ℕ
  pub cell : ℕ → Block

abbrev pub write : Store → ℕ → Block → Store
write h p b = record h { cell = λ q. if q == p then b else h.cell q }

-- `make_shared<Block>(offset)`
unfoldable pub make_shared : Store → ℕ → ℕ × Store
make_shared h offset =
    (h.next, record { next = h.next + 1; cell = (write h h.next (new_block offset)).cell })
