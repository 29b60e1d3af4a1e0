-- ===== src/Tests/Peer.antt =====
-- A peer of src/peer.cpp, and the client of src/main.cpp, at concrete inputs.
use picotor.Base.{
  ◌+◌, ◌≡◌, refl, Bool, true, false, List, [], ◌∷◌, Bytes, codes, replicate, Outcome, ok, fault,
  value_or,
}
use picotor.Base.{some, arith}
use picotor.Common.Hash.Laws.{IsDigest}
use picotor.Stream.{Junk}
use picotor.Common.Address.{Address}
use picotor.Torrent.Metainfo.{SingleFileTorrent, pieces}
use picotor.Result.{TorrentContext}
use picotor.Peer.State.{Peer, Effect, new_peer}
use picotor.Peer.Run.{Event, connected, body_done, timer_expired, step, run}
use picotor.Common.Bitfield
use picotor.Common.Words
use picotor.Message.Frame
use picotor.Message.Kind
use picotor.Torrent.Block
use picotor.Torrent.Piece
use picotor.Peer.State
use picotor.Peer.Download
use picotor.Peer.Handlers
use picotor.Peer.Download.{async_download}
use picotor.Peer.Download.Stops.{HasStopped, async_download-stops}
use picotor.Peer.Handlers.{download_fuel}
use picotor.Peer.Run.Handling.{IsRegular}
use picotor.Peer.Run.Verified.{AreVerified, run-AreVerified}
use picotor.Common.Hash
use picotor.Common.Hex
use picotor.Stream
use picotor.Torrent.Metainfo
use picotor.Torrent.CompletePiece
use picotor.Peer.Run.Safety.{run-IsOk}
use picotor.Peer.Run.Failure.{is_fatal, IsDropped, step-IsDropped}
use picotor.Torrent.Piece.{new_piece}
use picotor.Common.Urlencode.Decode.{decode}
use picotor.Main.{request_url}
use picotor.Main.Query.{field, request_url-info_hash}
use picotor.Base.{drop, length}
use picotor.Peer.Run.Pipeline.{run-IsWithin}
use picotor.Peer.State.{pipeline_limit}
use picotor.Base.{◌≤◌}

abbrev tor : SingleFileTorrent
tor = record {
  announce = codes "http://x";
  filename = codes "f";
  piece_length = 4;
  file_length = 10;
  piece_hashes = [];
  info_hash = record { bytes = replicate 20 0 };
}

abbrev context : TorrentContext
context = record { handshake = []; tor = tor; total_peers = 1 }

abbrev pub addr : Address
addr = record { raw = 0x7f000001; port = 6881 }

abbrev pub toy_sha1 : Bytes → Bytes
toy_sha1 s = replicate 40 b'0'

abbrev pub no_junk : Junk
no_junk i = 170

-- The peer has piece 1, allows requests, and is given piece 0, which it has not, and then piece 1.
abbrev events : List Event
events =
    connected false
    ∷ body_done no_junk false (5 ∷ 64 ∷ []) []
    ∷ body_done no_junk false (1 ∷ []) (0 ∷ [])
    ∷ body_done no_junk false (4 ∷ []) (1 ∷ [])
    ∷ timer_expired false 0
    ∷ []

abbrev pub is_ok : Outcome Peer → Bool
is_ok (ok p) = true
is_ok (fault e) = false

pub is_ok-value_or : (o : Outcome Peer) (d : Peer) → is_ok o ≡ true → o ≡ ok (value_or d o)
is_ok-value_or (ok p) d h = refl
is_ok-value_or (fault e) d h = cc

abbrev end : Peer
end = value_or (new_peer addr) (run toy_sha1 context (new_peer addr) events)

events_ok : is_ok (run toy_sha1 context (new_peer addr) events) ≡ true
unfolding run step new_peer Handlers.body_read Handlers.async_handle_message Frame.parse
    Handlers.handle_kind Kind.try_from Handlers.dispatch Download.async_download
    Handlers.download_fuel Handlers.async_handshake_write Handlers.async_read_message
    Bitfield.copy_from Bitfield.push_bits Download.download_from Download.acquire Download.take_work
    Bitfield.get State.release_piece Bitfield.copy_bytes Words.push_bytes Words.swap32
    Words.word_bytes Frame.request Frame.request_len Frame.serialize Download.request_block
    Download.request_next Handlers.block_timeout State.close State.emplace State.lookup
    Block.block_index Block.make_shared Block.new_block Piece.all_filled Piece.block_count
    Piece.find_open Piece.is_complete Piece.new_piece Piece.next_block
events_ok = refl

abbrev bitfield_event : Event
bitfield_event = body_done no_junk false (5 ∷ 128 ∷ []) []

abbrev unchoke_event : Event
unchoke_event = body_done no_junk false (1 ∷ []) (0 ∷ [])

abbrev busy_peer : Peer
busy_peer = record (new_peer addr) { piece = some (new_piece 1 4) }

async_download-stops_example :
    (r : Peer) × (async_download context (download_fuel context) busy_peer ≡ ok r) × HasStopped r
unfolding new_piece Piece.block_count
async_download-stops_example = async_download-stops context busy_peer (refl, omega arith)

-- Two pieces of one block each.
abbrev whole_tor : SingleFileTorrent
whole_tor = record tor {
  piece_length = 16384;
  file_length = 32768;
  piece_hashes = record { bytes = replicate 20 1 } ∷ record { bytes = replicate 20 2 } ∷ [];
}

abbrev whole_context : TorrentContext
whole_context = record context { tor = whole_tor }

pub toy_sha1-IsDigest : IsDigest toy_sha1
toy_sha1-IsDigest = record { long = λ s. refl; hex = λ s. ground arith }

whole-IsRegular : IsRegular toy_sha1 whole_context
whole-IsRegular = record { digest = toy_sha1-IsDigest; whole = omega arith }

run-IsOk_example : (p : Peer) × (run toy_sha1 whole_context (new_peer addr) events ≡ ok p)
run-IsOk_example = run-IsOk toy_sha1 whole_context addr events whole-IsRegular (omega arith)

-- The only piece is asked for, arrives and has the right hash.
abbrev small_context : TorrentContext
small_context = record context {
  tor = record tor { piece_hashes = record { bytes = replicate 20 0 } ∷ [] };
}

abbrev piece_events : List Event
piece_events =
    bitfield_event
    ∷ unchoke_event
    ∷ body_done no_junk false (7 ∷ 0 ∷ 0 ∷ 0 ∷ 0 ∷ 0 ∷ 0 ∷ 0 ∷ 0 ∷ codes "abcd") []
    ∷ []

abbrev piece_end : Peer
piece_end = value_or (new_peer addr) (run toy_sha1 small_context (new_peer addr) piece_events)

piece_events_ok : is_ok (run toy_sha1 small_context (new_peer addr) piece_events) ≡ true
unfolding run step new_peer Handlers.body_read Handlers.async_handle_message Frame.parse
    Handlers.handle_kind Kind.try_from Handlers.dispatch Download.async_download
    Handlers.download_fuel Handlers.async_handshake_write Handlers.async_read_message
    Bitfield.copy_from Bitfield.push_bits Download.download_from Download.acquire Download.take_work
    Bitfield.get State.release_piece Bitfield.copy_bytes Words.push_bytes Words.swap32
    Words.word_bytes Frame.request Frame.request_len Frame.serialize Download.request_block
    Download.request_next Handlers.block_timeout State.close State.emplace State.lookup
    Block.block_index Block.make_shared Block.new_block Piece.all_filled Piece.block_count
    Piece.find_open Piece.is_complete Piece.new_piece Piece.next_block Handlers.handle_piece
    Handlers.after_accept Handlers.finish_piece Handlers.settle Piece.accept Piece.accept_block
    Piece.read_header Piece.fill_at Block.fill Piece.finalize Piece.copy_blocks CompletePiece.hash
    Metainfo.piece_hash Hash.of Hash.from_vector Hash.equals Hex.hex_to_bytes Hex.strtol_char
    Hex.hex_value Hex.is_space Words.load32 Stream.read Stream.scratch State.release_block
    State.erase Block.release
piece_events_ok = refl

run-AreVerified_example : AreVerified toy_sha1 small_context piece_end.history
run-AreVerified_example = run-AreVerified toy_sha1 small_context addr piece_events piece_end (
    is_ok-value_or (run toy_sha1 small_context (new_peer addr) piece_events) (new_peer addr)
      piece_events_ok)

request_url-info_hash_example :
    decode (field (drop (length tor.announce + length (codes "?info_hash=")) (request_url tor)))
    ≡ tor.info_hash.bytes
request_url-info_hash_example = request_url-info_hash tor (ground arith)

run-IsWithin_example : length end.requests ≤ pipeline_limit
run-IsWithin_example =
    run-IsWithin toy_sha1 context addr events end
      (is_ok-value_or (run toy_sha1 context (new_peer addr) events) (new_peer addr) events_ok)

late : is_fatal busy_peer (timer_expired false 0) ≡ true
unfolding new_peer Block.new_block
late = refl

step-IsDropped_example :
    (r : Peer) × (step toy_sha1 context busy_peer (timer_expired false 0) ≡ ok r)
    × IsDropped busy_peer r
step-IsDropped_example = step-IsDropped toy_sha1 context busy_peer (timer_expired false 0) late
