-- ===== src/Tests/System/Results.antt =====
-- The theorems on the client and the monitor of src/main.cpp and src/peer.cpp at the states of the download.
use picotor.Base.{
  ℕ, ◌+◌, ◌-◌, ◌*◌, ◌≤◌, ◌<◌, ◌≡◌, refl, ap, ◌⊎◌, ◌↔◌, true, [], ◌∷◌, arith, codes, length, ltb,
  if◌then◌else◌,
}
use picotor.Torrent.Metainfo.{pieces}
use picotor.Result.{piece_complete}
use picotor.Peer.Run.Ownership.{held_as}
use picotor.Monitor.{complete, monitor_loop}
use picotor.Monitor.Missing.{has}
use picotor.Monitor.Place.{IsSmall}
use picotor.Monitor.Integrity.{IsChecked, slice}
use picotor.Main.Client.{count, held_by_all}
use picotor.Main.System.{system_of, pending, waiting}
use picotor.Main.System.Places.{missing-pending, reported-complete}
use picotor.Main.System.OnDisk.{on_disk, is_checked, is_kept, placed_once, Tick-Stores}
use picotor.Main.System.Freed.{visited_once}
use picotor.Main.System.Integrity.{complete-IsChecked}
use picotor.Main.System.Progress.{progress}
use picotor.Main.System.Refinement.{Actor, Runs, place, stored, queued}
use picotor.Main.System.Refinement.Complete.{complete_iff-stored}
use picotor.Tests.Peer.{toy_sha1}
use picotor.Tests.System.{
  tor, response, start, fetched, system_3, system_4, handled, until_reported, until_written,
  delivered, all_written,
}

tor-IsSmall : IsSmall tor
tor-IsSmall = record { small = omega arith; positive = omega arith }

placed_once_example :
    pending 0 system_4 + on_disk toy_sha1 start.context 0 system_4
    ≡ (if ltb 0 (pieces tor) then 1 else 0)
placed_once_example = placed_once toy_sha1 tor response 0 system_4 0 tor-IsSmall until_written

missing-pending_example :
    (complete system_3.monitor ≡ true)
    ⊎ ((a : ℕ) × (a < pieces tor)
        × (has a system_3.monitor.missing_pieces ≡ true)
        × (pending a system_3 ≡ 1))
missing-pending_example = missing-pending toy_sha1 tor response 0 system_3 until_reported

idle :
    (a : ℕ)
    → a < pieces tor
    → count a system_3.client.work_queue + held_by_all a system_3.client.peers ≡ 0
idle a h = omega (arith, ap (held_as a) handled.3)

reported-complete_example :
    complete (monitor_loop ((7, piece_complete fetched) ∷ []) system_3.monitor) ≡ true
reported-complete_example =
    reported-complete toy_sha1 tor response 0 system_3 ((7, piece_complete fetched) ∷ [])
      until_reported idle refl

complete-IsChecked_example :
    (length system_4.monitor.file ≡ tor.file_length)
    × ((i : ℕ) → i < pieces tor → IsChecked toy_sha1 start.context system_4.monitor.file i)
complete-IsChecked_example =
    complete-IsChecked toy_sha1 tor response 0 system_4 tor-IsSmall until_written all_written

Tick-Stores_example :
    (who : Actor) × ((a : ℕ)
      → a < pieces tor
      → Runs who (place system_3 a) (place system_4 a)
        × (is_kept (place system_4 a) (is_checked toy_sha1 start.context system_4.monitor.file a)
            ≡ true))
Tick-Stores_example =
    Tick-Stores toy_sha1 tor response 0 system_3 system_4 tor-IsSmall until_reported delivered

complete_iff-stored_example :
    ((complete system_4.monitor ≡ true) ↔ ((a : ℕ) → a < pieces tor → place system_4 a ≡ stored))
    × ((a : ℕ) → a < pieces tor → place (system_of start) a ≡ queued)
complete_iff-stored_example = complete_iff-stored toy_sha1 tor response 0 system_4 until_written

visited_once_example :
    (0 < pieces tor)
    × (has 0 system_3.monitor.missing_pieces ≡ true)
    × (waiting 0 [] ≡ 0)
    × (count 0 system_3.client.work_queue + held_by_all 0 system_3.client.peers ≡ 0)
    × (count 0 system_3.monitor.freed ≡ 0)
    × (slice tor 0 system_4.monitor.file ≡ codes "abcd")
    × (count 0 system_4.monitor.freed ≡ 1)
visited_once_example =
    visited_once toy_sha1 tor response 0 system_3 fetched [] 7 tor-IsSmall until_reported refl

progress_example :
    (system_4.monitor.bytes_downloaded
      ≡ (pieces tor - length system_4.monitor.missing_pieces) * tor.piece_length)
    × (length system_4.monitor.missing_pieces ≤ pieces tor)
    × (system_4.monitor.bytes_downloaded ≤ tor.file_length)
progress_example = progress toy_sha1 tor response 0 system_4 tor-IsSmall until_written
