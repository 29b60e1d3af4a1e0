-- ===== src/Tests/Piece.antt =====
-- `Piece` of include/torrent.hpp at concrete inputs.
use picotor.Base.{
  ℕ, ◌*◌, ◌/◌, ◌≡◌, ◌≢◌, refl, ◌⊎◌, Bool, true, false, none, some, [], ◌∷◌, arith, Bytes, codes,
  length, replicate, length-take, length-replicate, All, if◌then◌else◌, ◌==◌, ok, fault,
  out_of_bounds,
}
use picotor.Stream.{Junk}
use picotor.Torrent.Block.{block_size, accepted, Block, Store, contents}
use picotor.Torrent.CompletePiece.{CompletePiece}
use picotor.Common.Words.{load32, swap32}
use picotor.Stream.{read, scratch}
use picotor.Torrent.Piece.Built.{slice}
use picotor.Torrent.Block.{fill, make_shared, new_block}
use picotor.Torrent.Piece.{
  new_piece, all_filled, is_complete, accept_block, Piece, block_count, read_header, fill_at,
  accept, next_block, finalize,
}
use picotor.Torrent.Piece.Assembly.{Builds, begin, ask, receive, finalize-Builds}
use picotor.Torrent.Piece.Accept.{payload_of, accept-filled, accept-fills}
use picotor.Torrent.Piece.NextBlock.{IsAligned, Gives, IsTaken, next_block_cases}
use picotor.Torrent.Piece.Bounds.{FillsBlock, finalize_safe, finalize_overrun}

abbrev small_piece : Piece
small_piece = record { index = 3; piece_size = 20000; blocks = 0 ∷ 1 ∷ []; finalized = none }

abbrev block_with : Bool → ℕ → Bytes → Block
block_with filled offset bytes = record {
  filled = filled;
  reserved = false;
  buffer = bytes;
  len = length bytes;
  offset = offset;
}

-- Block 0 is filled, and block 1 is not.
abbrev half_store : Store
half_store = record {
  next = 2;
  cell = λ q. if q == 0 then block_with true 0 (codes "abc") else block_with false 16384 [];
}

abbrev no_junk : Junk
no_junk i = 170

abbrev data_payload : Bytes
data_payload = payload_of 3 16384 (codes "de")

accept-filled_example :
    (accept no_junk half_store small_piece (payload_of 3 0 (codes "xyz"))).1.cell 0
    ≡ half_store.cell 0
accept-filled_example =
    accept-filled no_junk half_store small_piece (payload_of 3 0 (codes "xyz")) 0 refl

accept-fills_example :
    let ((status, at), h') = accept no_junk half_store small_piece data_payload in
    (status ≡ accepted)
    × (at ≡ 16384 / block_size)
    × (contents (h'.cell 1) ≡ codes "de")
    × ((h'.cell 1).filled ≡ true)
    × ((h'.cell 1).offset ≡ (half_store.cell 1).offset)
    × ((q : ℕ) → q ≢ 1 → h'.cell q ≡ half_store.cell q)
accept-fills_example =
    accept-fills no_junk half_store small_piece 16384 1 (codes "de") (omega arith) (omega arith)
      (omega arith) refl refl

small_piece-IsAligned : IsAligned half_store small_piece
unfolding block_count
small_piece-IsAligned = record {
  fresh = omega arith;
  offsets = (refl, (refl, tt));
  few = omega arith;
  small = omega arith;
}

next_block_cases_example :
    let (o, p', h') = next_block half_store small_piece in
    ((ptr : ℕ) × (o ≡ some ptr) × Gives small_piece ptr p' h')
    ⊎ ((o ≡ none)
        × (p' ≡ small_piece)
        × (h' ≡ half_store)
        × (length small_piece.blocks ≡ block_count small_piece)
        × All (IsTaken half_store) small_piece.blocks)
next_block_cases_example = next_block_cases half_store small_piece small_piece-IsAligned

abbrev whole_piece : Piece
whole_piece = record { index = 3; piece_size = 4; blocks = 0 ∷ []; finalized = none }

abbrev whole_store : Store
whole_store = record { next = 1; cell = λ q. block_with true 0 (codes "abcd") }

abbrev even_piece : Piece
even_piece = record { index = 3; piece_size = 16384; blocks = 0 ∷ []; finalized = none }

finalize_safe_example :
    (r : CompletePiece × Piece) × (finalize no_junk half_store even_piece ≡ ok r)
unfolding block_count
finalize_safe_example =
    finalize_safe no_junk half_store even_piece (omega arith) (omega arith) (omega arith)

abbrev full_store : Store
full_store = record {
  next = 2;
  cell = λ q. record {
    filled = true;
    reserved = true;
    buffer = replicate block_size q;
    len = block_size;
    offset = q * block_size;
  };
}

full-FillsBlock : (q : ℕ) → FillsBlock full_store q
full-FillsBlock q =
    omega (arith, length-take block_size (replicate block_size q), length-replicate block_size q)

finalize_overrun_example : finalize no_junk full_store small_piece ≡ fault out_of_bounds
unfolding block_count
finalize_overrun_example =
    finalize_overrun no_junk full_store small_piece (omega arith) refl refl
      (full-FillsBlock 0, (full-FillsBlock 1, tt))

abbrev text : Bytes
text = codes "abcd"

abbrev asked_piece : Piece
asked_piece = (next_block half_store (new_piece 3 (length text))).1

abbrev asked_store : Store
asked_store = (next_block half_store (new_piece 3 (length text))).2

abbrev received_store : Store
received_store =
    (accept no_junk asked_store asked_piece
      (payload_of asked_piece.index 0 (slice text (0 / block_size)))).1

received-Builds : Builds text received_store asked_piece
received-Builds = receive (ask (begin half_store 3 (omega arith))) no_junk 0 (omega arith)

received_complete : is_complete received_store asked_piece ≡ true
unfolding is_complete all_filled next_block block_count new_piece make_shared new_block accept
    accept_block read_header fill_at fill load32 swap32 read scratch
received_complete = refl

finalize-Builds_example :
    let done : CompletePiece = record {
      bytes = text;
      piece_index = asked_piece.index;
      size = asked_piece.piece_size;
    } in
    finalize no_junk received_store asked_piece
    ≡ ok (done, record asked_piece { finalized = some done })
finalize-Builds_example =
    finalize-Builds text no_junk received_store asked_piece (omega arith) received-Builds
      received_complete
