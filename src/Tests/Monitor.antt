-- ===== src/Tests/Monitor.antt =====
-- The monitor of src/peer.cpp at concrete inputs.
use picotor.Base.{
  ℕ, zero, suc, ◌+◌, ◌*◌, ◌≤◌, ◌<◌, ◌≡◌, refl, ◌↔◌, true, false, some, List, [], ◌∷◌, arith, Bytes,
  codes, length, replicate, get_elem?,
}
use picotor.Torrent.Metainfo.{SingleFileTorrent, pieces}
use picotor.Torrent.CompletePiece.{CompletePiece}
use picotor.Result.{Result, piece_complete, peer_connected, TorrentContext}
use picotor.Monitor.{
  complete, monitor_thread, monitor_loop, new_monitor, push_all, visit, on_piece_complete,
  on_peer_connected, report_progress, erase_piece, is_empty, has_address,
}
use picotor.Monitor.Missing.{reported, complete_iff}
use picotor.Monitor.Peers.{times, monitor_thread-peers}
use picotor.Monitor.Place.{IsSmall, IsSized}
use picotor.Monitor.File.{Describes, IsGenuine, complete-file}

-- Two pieces of four bytes, and two bytes behind them.
abbrev tor : SingleFileTorrent
tor = record {
  announce = codes "http://x";
  filename = codes "f";
  piece_length = 4;
  file_length = 10;
  piece_hashes = [];
  info_hash = record { bytes = replicate 20 0 };
}

abbrev context : TorrentContext
context = record { handshake = []; tor = tor; total_peers = 1 }

abbrev text : Bytes
text = codes "abcdefghij"

abbrev first_piece : CompletePiece
first_piece = record { bytes = codes "abcd"; piece_index = 0; size = 4 }

abbrev second_piece : CompletePiece
second_piece = record { bytes = codes "efgh"; piece_index = 1; size = 4 }

abbrev results : List (ℕ × Result)
results =
    (1, peer_connected (record { raw = 1; port = 2 }))
    ∷ (2, piece_complete second_piece)
    ∷ (3, piece_complete first_piece)
    ∷ []

complete_iff_example :
    (complete (monitor_thread context 0 results) ≡ true)
    ↔ ((i : ℕ) → i < pieces tor → reported i results ≡ true)
complete_iff_example = complete_iff context 0 results

tor-IsSmall : IsSmall tor
tor-IsSmall = record { small = omega arith; positive = omega arith }

text-Describes : Describes tor text
text-Describes = record { size = refl; fits = tor-IsSmall }

first-bytes : (k : ℕ) → k < 4 → get_elem? (codes "abcd") k ≡ get_elem? text (0 * 4 + k)
first-bytes zero h = refl
first-bytes (suc zero) h = refl
first-bytes (suc (suc zero)) h = refl
first-bytes (suc (suc (suc zero))) h = refl
first-bytes (suc (suc (suc (suc k)))) h = absurd (omega arith)

second-bytes : (k : ℕ) → k < 4 → get_elem? (codes "efgh") k ≡ get_elem? text (1 * 4 + k)
second-bytes zero h = refl
second-bytes (suc zero) h = refl
second-bytes (suc (suc zero)) h = refl
second-bytes (suc (suc (suc zero))) h = refl
second-bytes (suc (suc (suc (suc k)))) h = absurd (omega arith)

first-IsSized : IsSized tor first_piece
unfolding pieces
first-IsSized = record { index = omega arith; size = refl; whole = refl }

first-IsGenuine : IsGenuine tor text first_piece
first-IsGenuine = record { sized = first-IsSized; right = first-bytes }

second-IsSized : IsSized tor second_piece
unfolding pieces
second-IsSized = record { index = omega arith; size = refl; whole = refl }

second-IsGenuine : IsGenuine tor text second_piece
second-IsGenuine = record { sized = second-IsSized; right = second-bytes }

results-complete : complete (monitor_thread context 0 results) ≡ true
unfolding complete monitor_thread monitor_loop new_monitor push_all visit on_piece_complete
    on_peer_connected report_progress erase_piece is_empty pieces has_address
results-complete = refl

complete-file_example :
    let file = (monitor_thread context 0 results).file in
    (length file ≡ length text)
    × ((i k : ℕ) → i < pieces tor → k < 4 → get_elem? file (i * 4 + k) ≡ get_elem? text (i * 4 + k))
    × ((j : ℕ) → pieces tor * 4 ≤ j → j < length text → get_elem? file j ≡ some 0)
complete-file_example =
    complete-file context text 0 results text-Describes (second-IsGenuine, (first-IsGenuine, tt))
      results-complete

-- The first piece is missing.
abbrev early_results : List (ℕ × Result)
early_results =
    (1, peer_connected (record { raw = 1; port = 2 })) ∷ (2, piece_complete second_piece) ∷ []

waiting : complete (monitor_thread context 0 early_results) ≡ false
unfolding complete monitor_thread monitor_loop new_monitor push_all visit on_piece_complete
    on_peer_connected report_progress erase_piece is_empty pieces has_address
waiting = refl

monitor_thread-peers_example :
    times (record { raw = 1; port = 2 }) (monitor_thread context 0 early_results).peers ≡ 1
monitor_thread-peers_example =
    monitor_thread-peers context 0 early_results (record { raw = 1; port = 2 }) waiting
