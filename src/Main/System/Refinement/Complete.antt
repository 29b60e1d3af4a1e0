-- ===== src/Main/System/Refinement/Complete.antt =====
-- src/main.cpp with src/peer.cpp: the end of the download in the abstract view.
use picotor.Base.{ℕ, ◌<◌, ◌≡◌, true, [], arith, Bytes, ◌↔◌}
use picotor.Monitor.{complete}
use picotor.Monitor.Missing.{has_of_is_empty, is_empty_of_none}
use picotor.Torrent.Metainfo.{SingleFileTorrent, pieces}
use picotor.Torrent.Tracker.{TrackerResponse}
use picotor.Main.{start_connections}
use picotor.Main.Client.{count, held_by_all}
use picotor.Main.System.{System, Trace, system_of, waiting, pending}
use picotor.Main.System.Places.Accounted.{Trace-IsAccounted}
use picotor.Main.System.Places.{one_place}
use picotor.Main.Client.Conservation.{count-push_all}
use picotor.Main.System.Refinement.{queued, stored, holder, place}
use picotor.Main.System.Refinement.Holder.{holder-none, holder-some}
use picotor.Main.System.Refinement.View.{place_of-queued, place_of-stored, stored_only}

place-stored : (s : System) (a : ℕ) → pending a s ≡ 0 → place s a ≡ stored
unfolding place
place-stored s a e =
    place_of-stored (count a s.client.work_queue) (waiting a s.result_queue)
      (holder a s.client.peers) (omega arith) (holder-none a s.client.peers (omega arith))
      (omega arith)

start-place :
    (tor : SingleFileTorrent) (response : TrackerResponse) (clock a : ℕ)
    → a < pieces tor
    → place (system_of (start_connections tor response clock)) a ≡ queued
unfolding place start_connections
start-place tor response clock a h =
    let start = system_of (start_connections tor response clock) in
    place_of-queued (count a start.client.work_queue) 0 (holder a start.client.peers)
      (ground (arith, count-push_all a (pieces tor) 0 []))

pub place-pending : (s : System) (a : ℕ) → place s a ≡ stored → pending a s ≡ 0
unfolding place
place-pending s a e =
    stored_only (count a s.client.work_queue) (held_by_all a s.client.peers)
      (waiting a s.result_queue) (holder a s.client.peers) (holder-some a s.client.peers) e

-- The abstract view tells when the download is done: the monitor is complete exactly when every piece
-- of the torrent is stored; at the start every one is queued.
pub complete_iff-stored :
    (sha1 : Bytes → Bytes) (tor : SingleFileTorrent) (response : TrackerResponse) (clock : ℕ)
    (s : System)
    → let start = start_connections tor response clock in
      Trace sha1 start.context (system_of start) s
      → ((complete s.monitor ≡ true) ↔ ((a : ℕ) → a < pieces tor → place s a ≡ stored))
        × ((a : ℕ) → a < pieces tor → place (system_of start) a ≡ queued)
unfolding complete start_connections
complete_iff-stored sha1 tor response clock s r =
    let total = one_place sha1 tor response clock s in
    (
      (
        λ done a h.
            place-stored s a
              (ground (arith, has_of_is_empty a s.monitor.missing_pieces done, total a r)),
        λ all. is_empty_of_none s.monitor.missing_pieces λ a. ground (
          arith,
          place-pending s a,
          all a,
          total a r,
          (Trace-IsAccounted sha1 tor response clock s a r).1,
        ),
      ),
      start-place tor response clock,
    )
