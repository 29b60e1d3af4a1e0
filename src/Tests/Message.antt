-- ===== src/Tests/Message.antt =====
-- include/message.hpp and src/message.cpp at concrete inputs.
use picotor.Base.{
  ◌+◌, ◌-◌, ◌%◌, ◌≤◌, ◌<◌, ◌≡◌, ◌↔◌, refl, some, [], ◌∷◌, ◌++◌, arith, Bytes, codes, length,
  replicate, min, ok,
}
use picotor.Stream.{Junk}
use picotor.Common.Words.{u32_mod, load32, swap32, big_endian}
use picotor.Common.Decimal.{to_decimal}
use picotor.Common.Hash.{Hash}
use picotor.Torrent.Block.{block_size, Block, new_block}
use picotor.Torrent.Piece.{Piece, new_piece}
use picotor.Message.Handshake.{Handshake, new_handshake, serialise}
use picotor.Message.Handshake
use picotor.Message.Handshake.RoundTrip.{IsHandshake, parse-serialise, new_handshake-IsHandshake}
use picotor.Message.Kind.{request, piece, have, code_of, try_from, try_from_iff}
use picotor.Message.Frame.{Message, serialize, parse, request_len}
use picotor.Message.Frame
use picotor.Message.Frame.RoundTrip.{parse-serialize, request-payload}
use picotor.Message.Print.{to_string, to_string-range}

abbrev no_junk : Junk
no_junk i = 170

abbrev some_hash : Hash
some_hash = record { bytes = replicate 20 5 }

abbrev some_handshake : Handshake
some_handshake = new_handshake some_hash (codes "-pt0001-0123456789ab")

some_handshake-IsHandshake : IsHandshake some_handshake
some_handshake-IsHandshake =
    (new_handshake-IsHandshake some_hash (codes "-pt0001-0123456789ab") refl).0

parse-serialise_example : Handshake.parse no_junk (serialise some_handshake) ≡ some_handshake
parse-serialise_example = parse-serialise no_junk some_handshake some_handshake-IsHandshake

try_from_iff_example : (try_from 4 ≡ some have) ↔ (4 ≡ code_of have)
try_from_iff_example = try_from_iff 4 have

parse-serialize_example :
    let m : Message = record { kind = some have; payload = codes "abcd" } in
    (front : Bytes) × (body : Bytes) × (serialize m ≡ ok (front ++ body))
    × (length front ≡ 4)
    × (swap32 (load32 front) ≡ length body)
    × (parse body ≡ ok m)
parse-serialize_example = parse-serialize have (codes "abcd") (omega arith)

abbrev last_block : Block
last_block = new_block 16384

abbrev ragged_piece : Piece
ragged_piece = new_piece 7 20000

request-payload_example :
    ((Frame.request ragged_piece last_block).payload
      ≡ big_endian ragged_piece.index
        ++ (big_endian last_block.offset
            ++ big_endian (min (ragged_piece.piece_size - last_block.offset) block_size)))
    × (last_block.offset + request_len ragged_piece last_block ≤ ragged_piece.piece_size)
    × (0 < request_len ragged_piece last_block)
unfolding new_piece new_block
request-payload_example = request-payload ragged_piece last_block (omega arith) (omega arith)

to_string-range_example :
    let payload = big_endian 7 ++ (big_endian 16384 ++ codes "data") in
    let range =
      to_decimal 7
      ++ b',' ∷ (to_decimal 16384 ++ b'-' ∷ to_decimal ((16384 + block_size - 1) % u32_mod)) in
    (to_string no_junk (record { kind = some request; payload = payload })
      ≡ (codes "Request{" ++ range) ++ b'}' ∷ [])
    × (to_string no_junk (record { kind = some piece; payload = payload })
        ≡ (codes "Piece{" ++ range) ++ b'}' ∷ [])
to_string-range_example = to_string-range no_junk 7 16384 (codes "data") (omega arith) (omega arith)
