-- ===== src/Monitor.antt =====
-- `MonitorVisitor` and `monitor_thread` of src/peer.cpp: the thread that writes the pieces to the file.
pub mod Missing
pub mod Peers
pub mod Write
pub mod Place
pub mod File
pub mod Integrity
use picotor.Base.{
  ℕ, zero, suc, ◌+◌, ◌-◌, ◌≤◌, ◌<◌, ◌≡◌, refl, Bool, true, false, not, ◌&&◌, ◌||◌, List, [], ◌∷◌,
  ◌++◌, arith, Bytes, length, take, drop, replicate, if◌then◌else◌, ltb, ◌==◌,
}
use picotor.Common.Address.{Address, equals}
use picotor.Torrent.CompletePiece
use picotor.Torrent.CompletePiece.{CompletePiece}
use picotor.Torrent.Metainfo.{pieces}
use picotor.Result.{Result, piece_complete, peer_connected, peer_dropped, TorrentContext}

-- `file` is what `stream_` has written. `freed` is no member of the source: it lists the pieces whose
-- buffers `free` has deleted, the newest first. Times are in milliseconds; `elapsed` and the count of bytes are
-- `double`s in the source, which hold these numbers exactly below 2 ^ 53.
pub record Monitor : Type 0 where
  pub file : Bytes
  pub missing_pieces : List ℕ
  pub freed : List ℕ
  pub peers : List Address
  pub start : ℕ
  pub now : ℕ
  pub elapsed : ℕ
  pub last_report : ℕ
  pub bytes_downloaded : ℕ

-- `for (i = 0; i < n; ++i) insert(i)`, and the same loop that fills the work queue.
unfoldable pub push_all : ℕ → ℕ → List ℕ → List ℕ
push_all zero i xs = xs
push_all (suc n) i xs = push_all n (i + 1) (xs ++ i ∷ [])

unfoldable pub new_monitor : TorrentContext → ℕ → Monitor
new_monitor ctx clock = record {
  file = replicate ctx.tor.file_length 0;
  missing_pieces = push_all (pieces ctx.tor) 0 [];
  freed = [];
  peers = [];
  start = clock;
  now = clock;
  elapsed = 0;
  last_report = clock;
  bytes_downloaded = 0;
}

unfoldable pub is_empty : List ℕ → Bool
is_empty [] = true
is_empty (x ∷ xs) = false

unfoldable pub complete : Monitor → Bool
complete m = is_empty m.missing_pieces

-- `seekp` and `write`: what is not there yet is filled with zeros.
unfoldable pub write_at : Bytes → ℕ → Bytes → Bytes
write_at file offset bytes =
    take offset file
    ++ (replicate (offset - length file) 0 ++ (bytes ++ drop (offset + length bytes) file))

unfoldable pub erase_piece : ℕ → List ℕ → List ℕ
erase_piece i [] = []
erase_piece i (x ∷ xs) = if x == i then erase_piece i xs else x ∷ erase_piece i xs

unfoldable pub has_address : Address → List Address → Bool
has_address a [] = false
has_address a (x ∷ xs) = equals x a || has_address a xs

unfoldable pub erase_address : Address → List Address → List Address
erase_address a [] = []
erase_address a (x ∷ xs) = if equals x a then erase_address a xs else x ∷ erase_address a xs

-- The members that `report_progress` sets; the rest of it prints.
unfoldable pub report_progress : Monitor → Monitor
report_progress m = record m { last_report = m.now; elapsed = m.now - m.start }

-- A time that runs backwards is no more than 500 ms after the last report, as in the source.
unfoldable pub on_piece_complete : CompletePiece → ℕ → Monitor → Monitor
on_piece_complete piece clock m =
    let m' : Monitor = record m {
      file = write_at m.file (CompletePiece.offset piece) (take piece.size piece.bytes);
      freed = piece.piece_index ∷ m.freed;
      missing_pieces = erase_piece piece.piece_index m.missing_pieces;
      bytes_downloaded = m.bytes_downloaded + piece.size;
      now = clock;
    } in
    if not (is_empty m'.missing_pieces) && ltb 500 (m'.now - m'.last_report)
    then report_progress m'
    else m'

unfoldable pub on_peer_connected : Address → Monitor → Monitor
on_peer_connected addr m =
    if has_address addr m.peers then m else record m { peers = addr ∷ m.peers }

unfoldable pub on_peer_dropped : Address → Monitor → Monitor
on_peer_dropped addr m = record m { peers = erase_address addr m.peers }

-- `std::visit(monitor, result)` at the given time.
unfoldable pub visit : ℕ → Result → Monitor → Monitor
visit clock (piece_complete piece) m = on_piece_complete piece clock m
visit clock (peer_connected addr) m = on_peer_connected addr m
visit clock (peer_dropped addr) m = on_peer_dropped addr m

-- The loop over the results in the order in which they are popped, each with the time. It ends when no
-- piece is missing; at the end of the list the thread still waits for more.
unfoldable pub monitor_loop : List (ℕ × Result) → Monitor → Monitor
monitor_loop [] m = m
monitor_loop ((clock, result) ∷ results) m =
    let more = monitor_loop results (visit clock result m) in if complete m then m else more

unfoldable pub monitor_thread : TorrentContext → ℕ → List (ℕ × Result) → Monitor
monitor_thread ctx clock results = monitor_loop results (new_monitor ctx clock)
