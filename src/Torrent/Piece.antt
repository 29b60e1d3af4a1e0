-- ===== src/Torrent/Piece.antt =====
-- `Piece` of include/torrent.hpp.
pub mod Count
pub mod Accept
pub mod NextBlock
pub mod Finalize
pub mod Bounds
pub mod Built
pub mod Assembly
use picotor.Base.{
  ℕ, zero, suc, ◌+◌, ◌-◌, ◌*◌, ◌/◌, ◌%◌, ◌^◌, ◌≤◌, ◌<◌, ◌≡◌, refl, Bool, true, false, not, ◌&&◌,
  List, [], ◌∷◌, ◌++◌, Option, none, some, arith, Bytes, length, take, drop, get_elem?,
  if◌then◌else◌, ◌==◌, ltb, leb, Outcome, ok, fault, out_of_bounds, ◌>>=◌,
}
use picotor.Stream.{Junk, scratch, Stream, stream, read}
use picotor.Common.Words.{u32_mod, u64_mod, load32, swap32}
use picotor.Torrent.Block.{
  block_size, BlockStatus, accepted, already_filled, wrong_piece, wrong_offset, too_much_data,
  Block, contents, fill, Store, write, make_shared,
}
use picotor.Torrent.CompletePiece.{CompletePiece}

-- `blocks` holds the addresses of the blocks that were started, in the order of their offsets.
pub record Piece : Type 0 where
  pub index : ℕ
  pub piece_size : ℕ
  pub blocks : List ℕ
  pub finalized : Option CompletePiece

unfoldable pub new_piece : ℕ → ℕ → Piece
new_piece index size = record { index = index; piece_size = size; blocks = []; finalized = none }

unfoldable pub block_count : Piece → ℕ
block_count p =
    if p.piece_size % block_size == 0
    then p.piece_size / block_size
    else p.piece_size / block_size + 1

-- The header that `accept` reads from the payload: the piece, the offset of the block, and the rest.
-- A payload that is too short leaves the variables, or the rest of them, as they were found.
pub record Header : Type 0 where
  pub piece_index : ℕ
  pub block_index : ℕ
  pub rest : Stream

unfoldable pub read_header : Junk → Bytes → Header
read_header junk payload =
    let (index_bytes, s1) = read 4 (scratch junk 0 4) (stream payload) in
    let (offset_bytes, s2) = read 4 (scratch junk 4 4) s1 in
    record {
      piece_index = swap32 (load32 index_bytes);
      block_index = swap32 (load32 offset_bytes) / block_size;
      rest = s2;
    }

-- `payload.size() - 8`, in 64 bits and then in 32.
abbrev pub data_len : Bytes → ℕ
data_len payload = (length payload + u64_mod - 8) % u64_mod % u32_mod

-- `blocks_[block_index]->fill(ss, data_len)`
unfoldable pub fill_at : Store → ℕ → Stream → ℕ → BlockStatus × Store
fill_at h ptr ss len = let (status, b) = fill (h.cell ptr) ss len in (status, write h ptr b)

-- The checks of `accept`, in their order, once the header is read.
unfoldable pub accept_block : Store → Piece → Header → ℕ → (BlockStatus × ℕ) × Store
accept_block h p header len =
    let at = header.block_index in
    if ltb block_size len
    then ((too_much_data, at), h)
    else if not (header.piece_index == p.index)
    then ((wrong_piece, at), h)
    else elim (get_elem? p.blocks at) [
      | none ↦ ((wrong_offset, at), h)
      | some ptr ↦ let (status, h') = fill_at h ptr header.rest len in ((status, at), h')
    ]

unfoldable pub accept : Junk → Store → Piece → Bytes → (BlockStatus × ℕ) × Store
accept junk h p payload = accept_block h p (read_header junk payload) (data_len payload)

-- The loop over the blocks that were started: the first that is neither filled nor reserved.
unfoldable pub find_open : Store → List ℕ → Option ℕ
find_open h [] = none
find_open h (ptr ∷ ptrs) =
    if not (h.cell ptr).filled && not (h.cell ptr).reserved then some ptr else find_open h ptrs

abbrev pub reserve : Store → ℕ → Store
reserve h ptr = write h ptr (record (h.cell ptr) { reserved = true })

-- The new block's address, if any, with the piece and the store after the call.
unfoldable pub next_block : Store → Piece → Option ℕ × Piece × Store
next_block h p =
    if ltb (length p.blocks) (block_count p)
    then (let (ptr, h') = make_shared h (length p.blocks * block_size % u32_mod) in
        (some ptr, record p { blocks = p.blocks ++ ptr ∷ [] }, reserve h' ptr))
    else elim (find_open h p.blocks) [
      | none ↦ (none, p, h)
      | some ptr ↦ (some ptr, p, reserve h ptr)
    ]

unfoldable pub all_filled : Store → List ℕ → Bool
all_filled h [] = true
all_filled h (ptr ∷ ptrs) = (h.cell ptr).filled && all_filled h ptrs

unfoldable pub is_complete : Store → Piece → Bool
is_complete h p = length p.blocks == block_count p && all_filled h p.blocks

-- The loop of `finalize` over a buffer: `position` is `ptr - data`.
unfoldable pub copy_blocks : Store → List ℕ → ℕ → Bytes → Outcome Bytes
copy_blocks h [] position buffer = ok buffer
copy_blocks h (ptr ∷ ptrs) position buffer =
    let block = contents (h.cell ptr) in
    let after = position + length block in
    let more = copy_blocks h ptrs after (take position buffer ++ (block ++ drop after buffer)) in
    if ltb (length buffer) after then fault out_of_bounds else more

unfoldable pub finalize : Junk → Store → Piece → Outcome (CompletePiece × Piece)
finalize junk h p = elim p.finalized [
  | some done ↦ ok (done, p)
  | none ↦ do
    bytes ← copy_blocks h p.blocks 0 (scratch junk 0 p.piece_size)
    let done : CompletePiece = record { bytes = bytes; piece_index = p.index; size = p.piece_size }
    ok (done, record p { finalized = some done })
]
