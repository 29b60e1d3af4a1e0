-- ===== src/Result.antt =====
-- include/result.hpp, and `TorrentContext` of include/torrent.hpp: what the peers and the monitor
-- share. The two queues and the I/O context are not members here: the calls of the queues stand in
-- the history of a peer (`Peer.State`).
use picotor.Base.{ℕ, Bytes}
use picotor.Common.Address.{Address}
use picotor.Torrent.Block.{}
use picotor.Torrent.CompletePiece.{CompletePiece}
use picotor.Torrent.Metainfo.{SingleFileTorrent}

pub data Result : Type 0 where
  piece_complete : CompletePiece → Result
  peer_connected : Address → Result
  peer_dropped : Address → Result

pub record TorrentContext : Type 0 where
  pub handshake : Bytes
  pub tor : SingleFileTorrent
  pub total_peers : ℕ
