-- ===== src/Tests/System.antt =====
-- The client and the monitor of src/main.cpp and src/peer.cpp at a concrete download.
pub mod Results
pub mod Genuine
pub mod Whole
pub mod Finished
use picotor.Base.{
  ℕ, ◌+◌, ◌-◌, ◌*◌, ◌≤◌, ◌<◌, ◌≡◌, refl, ap, none, some, ◌⊎◌, ◌↔◌, true, false, List, [], ◌∷◌,
  arith, Bytes, codes, length, replicate, take, ltb, if◌then◌else◌, ok, value_or,
}
use picotor.Stream.{Junk}
use picotor.Stream
use picotor.Common.Words
use picotor.Common.Bitfield
use picotor.Common.Hash
use picotor.Common.Hex
use picotor.Torrent.Block
use picotor.Torrent.Piece
use picotor.Torrent.CompletePiece
use picotor.Torrent.CompletePiece.{CompletePiece}
use picotor.Torrent.Metainfo
use picotor.Torrent.Metainfo.{SingleFileTorrent, pieces}
use picotor.Torrent.Tracker.{TrackerResponse}
use picotor.Message.Frame
use picotor.Message.Kind
use picotor.Result.{Result, piece_complete}
use picotor.Peer.State.{Peer, new_peer}
use picotor.Peer.State
use picotor.Peer.Download
use picotor.Peer.Handlers
use picotor.Peer.Run.Ownership.{held_as}
use picotor.Peer.Run.{Event, step, body_done}
use picotor.Monitor.{
  Monitor, complete, visit, push_all, new_monitor, on_piece_complete, report_progress, erase_piece,
  is_empty, monitor_loop,
}
use picotor.Monitor.Missing.{has}
use picotor.Monitor.Place.{IsSmall}
use picotor.Monitor.Integrity.{IsChecked}
use picotor.Main.{Connections, start_connections}
use picotor.Main.Client.{act, count, held_by_all}
use picotor.Main.System.{
  System, pushed, Tick, handle, deliver, Trace, here, next, system_of, pending, waiting,
}
use picotor.Main.System.Places.Accounted.{written}
use picotor.Main.System.Places.{missing-pending, reported-complete}
use picotor.Peer.Run.Handling.{IsRegular}
use picotor.Main.System.Enabled.{AreFeasible, handler_enabled}
use picotor.Main.System.Integrity.{complete-IsChecked}
use picotor.Torrent.Block.{Store, accepted, block_size}
use picotor.Torrent.Piece.{Piece, new_piece, next_block, accept, is_complete}
use picotor.Torrent.Piece.Accept.{payload_of}
use picotor.Torrent.Piece.Built.{slice}
use picotor.Torrent.Piece.Assembly.{Builds, begin, ask}
use picotor.Peer.Run.Genuine.{handle_piece-Builds}
use picotor.Main.System.Refinement.{Actor, Runs, place, stored, queued}
use picotor.Main.System.Refinement.Complete.{complete_iff-stored}
use picotor.Tests.Peer.{addr, toy_sha1, no_junk, is_ok-value_or, toy_sha1-IsDigest}

-- One piece of four bytes.
abbrev tor : SingleFileTorrent
tor = record {
  announce = codes "http://x";
  filename = codes "f";
  piece_length = 4;
  file_length = 4;
  piece_hashes = record { bytes = replicate 20 0 } ∷ [];
  info_hash = record { bytes = replicate 20 0 };
}

abbrev response : TrackerResponse
response = record { interval = 60; peers = addr ∷ [] }

abbrev start : Connections
start = start_connections tor response 0

-- The peer has the piece, allows requests while the queue gives out the piece, and sends the block.
abbrev event_1 : Event
event_1 = body_done no_junk false (5 ∷ 128 ∷ []) []

abbrev event_2 : Event
event_2 = body_done no_junk false (1 ∷ []) (0 ∷ [])

abbrev event_3 : Event
event_3 = body_done no_junk false (7 ∷ 0 ∷ 0 ∷ 0 ∷ 0 ∷ 0 ∷ 0 ∷ 0 ∷ 0 ∷ codes "abcd") []

abbrev after : Peer → Event → Peer
after p e = value_or (new_peer addr) (step toy_sha1 start.context p e)

abbrev peer_1 : Peer
peer_1 = after (new_peer addr) event_1

abbrev peer_2 : Peer
peer_2 = after peer_1 event_2

abbrev peer_3 : Peer
peer_3 = after peer_2 event_3

abbrev fetched : CompletePiece
fetched = record { bytes = codes "abcd"; piece_index = 0; size = 4 }

abbrev system_at : List ℕ → Peer → List Result → Monitor → System
system_at queue p results m = record {
  client = record { work_queue = queue; peers = p ∷ [] };
  result_queue = results;
  monitor = m;
}

abbrev system_1 : System
system_1 = system_at (0 ∷ []) peer_1 [] start.monitor

abbrev system_2 : System
system_2 = system_at [] peer_2 [] start.monitor

abbrev system_3 : System
system_3 = system_at [] peer_3 (piece_complete fetched ∷ []) start.monitor

abbrev system_4 : System
system_4 = system_at [] peer_3 [] (visit 7 (piece_complete fetched) start.monitor)

handled :
    Tick toy_sha1 start.context (system_of start) system_1
    × Tick toy_sha1 start.context system_1 system_2
    × Tick toy_sha1 start.context system_2 system_3
    × (peer_3.piece ≡ none)
unfolding pushed start_connections push_all pieces step new_peer Handlers.body_read
    Handlers.async_handle_message Frame.parse Handlers.handle_kind Kind.try_from Handlers.dispatch
    Download.async_download Handlers.download_fuel Handlers.async_read_message Bitfield.copy_from
    Bitfield.push_bits Download.download_from Download.acquire Download.take_work Bitfield.get
    State.release_piece Bitfield.copy_bytes Words.push_bytes Words.swap32 Words.word_bytes
    Frame.request Frame.request_len Frame.serialize Download.request_block Download.request_next
    State.emplace State.lookup Block.block_index Block.make_shared Block.new_block Piece.all_filled
    Piece.block_count Piece.find_open Piece.is_complete Piece.new_piece Piece.next_block
    Handlers.handle_piece Handlers.after_accept Handlers.finish_piece Handlers.settle Piece.accept
    Piece.accept_block Piece.read_header Piece.fill_at Block.fill Piece.finalize Piece.copy_blocks
    CompletePiece.hash Metainfo.piece_hash Hash.of Hash.from_vector Hash.equals Hex.hex_to_bytes
    Hex.strtol_char Hex.hex_value Hex.is_space Words.load32 Stream.read Stream.scratch
    State.release_block State.erase Block.release
handled = (
  handle
      (act [] [] (new_peer addr) peer_1 event_1 (take 1 peer_1.history) refl refl
        (is_ok-value_or (step toy_sha1 start.context (new_peer addr) event_1) (new_peer addr) refl)
        refl refl)
      refl refl,
  handle
      (act [] [] peer_1 peer_2 event_2 (take 4 peer_2.history) refl refl
        (is_ok-value_or (step toy_sha1 start.context peer_1 event_2) (new_peer addr) refl) refl
        (0 ∷ [], refl, refl))
      refl refl,
  handle
      (act [] [] peer_2 peer_3 event_3 (take 2 peer_3.history) refl refl
        (is_ok-value_or (step toy_sha1 start.context peer_2 event_3) (new_peer addr) refl) refl
        refl)
      refl refl,
  refl,
)

delivered : Tick toy_sha1 start.context system_3 system_4
unfolding complete is_empty start_connections push_all pieces new_monitor
delivered = deliver 7 (piece_complete fetched) refl refl refl refl

until_reported : Trace toy_sha1 start.context (system_of start) system_3
until_reported = next (next (next here handled.0) handled.1) handled.2

until_written : Trace toy_sha1 start.context (system_of start) system_4
until_written = next until_reported delivered

all_written : complete system_4.monitor ≡ true
unfolding complete is_empty start_connections push_all pieces new_monitor visit on_piece_complete
    report_progress erase_piece
all_written = refl
