-- ===== src/Main/System/Freed.antt =====
-- src/main.cpp with src/peer.cpp: a report is visited once: written once, and its buffer freed once.
use picotor.Base.{ℕ, ◌+◌, ◌<◌, ◌≡◌, refl, ap, subst, ◌∙◌, true, List, [], ◌∷◌, arith, Bytes, All}
use picotor.Torrent.Metainfo.{SingleFileTorrent, pieces}
use picotor.Torrent.Tracker.{TrackerResponse}
use picotor.Torrent.CompletePiece.{CompletePiece}
use picotor.Result.{Result, piece_complete, peer_connected, peer_dropped, TorrentContext}
use picotor.Monitor.{
  Monitor, new_monitor, report_progress, on_piece_complete, on_peer_connected, on_peer_dropped,
  visit,
}
use picotor.Monitor.Missing.{has, has-push_all}
use picotor.Monitor.Place.{IsSmall, IsSized}
use picotor.Monitor.Integrity.{slice, visit-slice}
use picotor.Main.{start_connections}
use picotor.Main.Client.{Client, count, held_by_all, completed_by_all}
use picotor.Main.System.{System, handle, deliver, Trace, here, next, system_of, waiting}
use picotor.Main.System.Places.Accounted.{written, Trace-IsAccounted}
use picotor.Main.System.Integrity.{IsHashed, Trace-AllSound}
use picotor.Main.System.Progress.{visited_alone}

-- The monitor frees the buffer of the piece that it visits.
visit-freed :
    (a clock : ℕ) (r : Result) (rs : List Result) (m : Monitor)
    → count a (visit clock r m).freed + waiting a rs ≡ waiting a (r ∷ rs) + count a m.freed
unfolding visit on_piece_complete on_peer_connected on_peer_dropped report_progress
visit-freed a clock (piece_complete c) rs m = ground arith
visit-freed a clock (peer_connected x) rs m = ground arith
visit-freed a clock (peer_dropped x) rs m = omega arith

module _ (sha1 : Bytes → Bytes) (tor : SingleFileTorrent) (response : TrackerResponse)
    (clock : ℕ) where
  abbrev ctx : TorrentContext
  ctx = (start_connections tor response clock).context

  abbrev start : System
  start = system_of (start_connections tor response clock)

  start-freed : (a : ℕ) → count a start.monitor.freed ≡ written ctx a start
  unfolding start_connections new_monitor
  start-freed a = ground (arith, has-push_all (pieces tor) 0 a [])

  -- The buffers that were freed are those of the pieces that were visited.
  Trace-freed :
      (s : System) (a : ℕ) → Trace sha1 ctx start s → count a s.monitor.freed ≡ written ctx a s
  Trace-freed s a here = start-freed a
  Trace-freed s a (next {t = x} r (handle m q same)) =
      ap (λ (z : Monitor). count a z.freed) same
      ∙ Trace-freed x a r
      ∙ ground (arith, ap (λ (z : Monitor). has a z.missing_pieces) same)
  Trace-freed s a (next {t = x} r (deliver clock' y more q m same)) =
      let before = (Trace-IsAccounted sha1 tor response clock x a r).0 in
      let after =
        (Trace-IsAccounted sha1 tor response clock s a
          (next r (deliver clock' y more q m same))).0 in
      omega (
        arith,
        before,
        after,
        ap (λ (c : Client). completed_by_all a c.peers) same,
        ap (waiting a) q,
        Trace-freed x a r,
        ap (λ (z : Monitor). count a z.freed) m,
        visit-freed a clock' y s.result_queue x.monitor,
      )

-- For a torrent with a file below 4 GB and pieces that are not empty, in any interleaving in which no
-- handler faults: when the monitor pops a complete piece, it is one of the torrent that it still waits
-- for, it is in the work queue or at a peer no more, no other report of it waits, and no buffer of it
-- was freed before; after the visit, at any time, its bytes are in the file where it belongs, and one
-- buffer of it was freed.
pub visited_once :
    (sha1 : Bytes → Bytes) (tor : SingleFileTorrent) (response : TrackerResponse) (clock : ℕ)
    (s : System) (c : CompletePiece) (rs : List Result) (time : ℕ)
    → IsSmall tor
    → let start = start_connections tor response clock in
      Trace sha1 start.context (system_of start) s
      → s.result_queue ≡ piece_complete c ∷ rs
      → let a = c.piece_index in
        let after = visit time (piece_complete c) s.monitor in
        (a < pieces tor)
        × (has a s.monitor.missing_pieces ≡ true)
        × (waiting a rs ≡ 0)
        × (count a s.client.work_queue + held_by_all a s.client.peers ≡ 0)
        × (count a s.monitor.freed ≡ 0)
        × (slice tor a after.file ≡ c.bytes)
        × (count a after.freed ≡ 1)
unfolding start_connections
visited_once sha1 tor response clock s c rs time d r q =
    let a = c.piece_index in
    let v = Trace-AllSound sha1 tor response clock d s r in
    let match = (subst (All (IsHashed sha1 _)) q v.results).0 in
    let (inside, missing, alone, quiet) = visited_alone sha1 tor response clock s c rs r q in
    let g : IsSized tor c = record { index = inside; size = match.size; whole = match.whole } in
    let unfreed : count a s.monitor.freed ≡ 0 =
      ground (arith, Trace-freed sha1 tor response clock s a r, missing) in
    (
      inside,
      missing,
      alone,
      quiet,
      unfreed,
      visit-slice tor d c g s.monitor.file v.file.size time s.monitor refl,
      ground (arith, visit-freed a time (piece_complete c) [] s.monitor, unfreed),
    )
