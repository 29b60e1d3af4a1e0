-- ===== src/Tests/System/Whole.antt =====
-- The client of src/main.cpp and src/peer.cpp with a piece of one whole block.
use picotor.Base.{◌≡◌, refl, [], ◌∷◌, arith, take, ok, value_or}
use picotor.Common.Bitfield
use picotor.Torrent.Metainfo.{SingleFileTorrent, pieces}
use picotor.Message.Frame
use picotor.Message.Kind
use picotor.Peer.State.{Peer, new_peer}
use picotor.Peer.Download
use picotor.Peer.Handlers
use picotor.Peer.Run.{step}
use picotor.Monitor.{push_all}
use picotor.Main.{Connections, start_connections}
use picotor.Main.Client.{act}
use picotor.Main.System.{System, pushed, Tick, handle, Trace, here, next, system_of}
use picotor.Peer.Run.Handling.{IsRegular}
use picotor.Main.System.Enabled.{AreFeasible, handler_enabled}
use picotor.Tests.Peer.{addr, toy_sha1, is_ok-value_or, toy_sha1-IsDigest}
use picotor.Tests.System.{tor, response, event_1, event_2, system_at}

-- One piece of one whole block.
abbrev whole_tor : SingleFileTorrent
whole_tor = record tor { piece_length = 16384; file_length = 16384 }

abbrev whole_start : Connections
whole_start = start_connections whole_tor response 0

abbrev waiting_peer : Peer
waiting_peer = value_or (new_peer addr) (step toy_sha1 whole_start.context (new_peer addr) event_1)

abbrev whole_system : System
whole_system = system_at (0 ∷ []) waiting_peer [] whole_start.monitor

-- The peer has the piece.
whole_run :
    (r : Trace toy_sha1 whole_start.context (system_of whole_start) whole_system) × AreFeasible r
unfolding pushed start_connections push_all pieces step new_peer Handlers.body_read
    Handlers.async_handle_message Frame.parse Handlers.handle_kind Kind.try_from Handlers.dispatch
    Download.async_download Handlers.download_fuel Handlers.async_read_message Bitfield.copy_from
    Bitfield.push_bits Bitfield.copy_bytes
whole_run = (
  next here (
      handle
        (act [] [] (new_peer addr) waiting_peer event_1 (take 1 waiting_peer.history) refl refl
          (is_ok-value_or (step toy_sha1 whole_start.context (new_peer addr) event_1)
            (new_peer addr) refl)
          refl refl)
        refl refl),
  (tt, (omega arith, (0 ∷ [], refl))),
)

whole-IsRegular : IsRegular toy_sha1 whole_start.context
unfolding start_connections
whole-IsRegular = record { digest = toy_sha1-IsDigest; whole = omega arith }

handler_enabled_example :
    (p' : Peer) × (t : System) × (step toy_sha1 whole_start.context waiting_peer event_2 ≡ ok p')
    × (t.client.peers ≡ p' ∷ [])
    × Tick toy_sha1 whole_start.context whole_system t
unfolding start_connections pieces
handler_enabled_example =
    handler_enabled toy_sha1 whole_tor response 0 whole_system [] [] waiting_peer event_2
      whole-IsRegular (omega arith) whole_run.0 whole_run.1 refl (omega arith, ([], refl))
