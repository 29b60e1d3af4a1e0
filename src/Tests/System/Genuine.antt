-- ===== src/Tests/System/Genuine.antt =====
-- `Peer::handle_piece` of src/peer.cpp at the last block of a piece.
use picotor.Base.{◌≡◌, refl, none, some, true, [], ◌∷◌, arith, Bytes, codes, replicate, ok}
use picotor.Stream.{Junk}
use picotor.Stream
use picotor.Common.Words
use picotor.Common.Bitfield
use picotor.Common.Hash
use picotor.Common.Hex
use picotor.Torrent.Block
use picotor.Torrent.Piece
use picotor.Torrent.CompletePiece.{CompletePiece}
use picotor.Torrent.Metainfo
use picotor.Torrent.Metainfo.{SingleFileTorrent, pieces}
use picotor.Message.Frame
use picotor.Message.Kind
use picotor.Result.{piece_complete}
use picotor.Peer.State.{Peer, new_peer}
use picotor.Peer.State
use picotor.Peer.Download
use picotor.Peer.Handlers
use picotor.Peer.Run.{step}
use picotor.Main.{start_connections}
use picotor.Torrent.Block.{Store, accepted, block_size}
use picotor.Torrent.Piece.{Piece, new_piece, next_block, accept, is_complete}
use picotor.Torrent.Piece.Accept.{payload_of}
use picotor.Torrent.Piece.Built.{slice}
use picotor.Torrent.Piece.Assembly.{Builds, begin, ask}
use picotor.Peer.Run.Genuine.{handle_piece-Builds}
use picotor.Tests.Peer.{toy_sha1, no_junk}
use picotor.Tests.System.{start, peer_1}

-- The peer that fetches the piece has asked for its block.
abbrev text : Bytes
text = codes "abcd"

abbrev asked : Store × Piece
asked = let begun = next_block peer_1.store (new_piece 0 4) in (begun.2, begun.1)

abbrev fetching : Peer
fetching = record peer_1 { piece = some asked.1; store = asked.0 }

asked-Builds : Builds text asked.0 asked.1
asked-Builds = ask (begin peer_1.store 0 (omega arith))

-- The block arrives.
arrived :
    let result =
      accept no_junk fetching.store asked.1 (payload_of asked.1.index 0 (slice text 0)) in
    (result.0.0 ≡ accepted)
    × (is_complete result.1 asked.1 ≡ true)
    × (Hash.of toy_sha1 text ≡ ok (record { bytes = replicate 20 0 }))
    × (Metainfo.piece_hash start.context.tor asked.1.index ≡ ok (record { bytes = replicate 20 0 }))
unfolding step start_connections new_peer Handlers.body_read Handlers.async_handle_message
    Frame.parse Handlers.handle_kind Kind.try_from Handlers.dispatch Download.async_download
    Handlers.download_fuel Handlers.async_read_message Bitfield.copy_from Bitfield.push_bits
    Bitfield.copy_bytes Block.make_shared Block.new_block Piece.all_filled Piece.block_count
    Piece.is_complete Piece.new_piece Piece.next_block Piece.accept Piece.accept_block
    Piece.read_header Piece.fill_at Block.fill Metainfo.piece_hash Hash.of Hash.from_vector
    Hex.hex_to_bytes Hex.strtol_char Hex.hex_value Hex.is_space Words.load32 Words.swap32
    Stream.read Stream.scratch
arrived = (refl, refl, refl, refl)

handle_piece-Builds_example :
    let done : CompletePiece = record {
      bytes = text;
      piece_index = asked.1.index;
      size = asked.1.piece_size;
    } in
    (r : Peer) × (Handlers.handle_piece no_junk toy_sha1 start.context
        (payload_of asked.1.index 0 (slice text 0))
        fetching
      ≡ ok r)
    × (r.piece ≡ none)
    × (r.requests ≡ [])
    × (r.history ≡ State.push_result (piece_complete done) ∷ fetching.history)
    × (r.offers ≡ fetching.offers)
handle_piece-Builds_example =
    handle_piece-Builds toy_sha1 start.context no_junk text asked.1 fetching 0
      (record { bytes = replicate 20 0 }) (omega arith) (omega arith) refl asked-Builds arrived.0
      arrived.1 arrived.2 arrived.3
