-- ===== src/Main/System/Places.antt =====
-- src/main.cpp with src/peer.cpp: where each piece is, from the work queue to the monitor.
pub mod Waiting
pub mod Accounted
use picotor.Base.{
  ℕ, ◌+◌, ◌<◌, ◌≤◌, ◌≡◌, refl, sym, ap, subst, ◌∙◌, Bool, true, false, not, ◌&&◌, List, [], ◌∷◌,
  ◌++◌, map, arith, Bytes, ltb, ◌==◌, if◌then◌else◌, Bool-cases, inl, inr, ◌⊎◌,
}
use picotor.Common.Address.{Address}
use picotor.Torrent.Metainfo.{SingleFileTorrent, pieces}
use picotor.Torrent.Tracker.{TrackerResponse}
use picotor.Result.{Result, piece_complete, peer_connected, peer_dropped, TorrentContext}
use picotor.Peer.State.{
  Peer, Effect, connect, write_handshake, write_message, write_request, read, start_timer,
  close_socket, pop_work, push_work, push_result, new_peer,
}
use picotor.Monitor.{Monitor, new_monitor, complete, is_empty, visit, monitor_loop}
use picotor.Monitor.Missing.{
  has, reported, has-push_all, has-visit, has-monitor_loop, is_empty_of_none,
}
use picotor.Main.{Connections, start_connections}
use picotor.Main.Client.{
  Client, Move, act, Reach, count, held_by_all, completed, completed_by_all, client_of, places,
}
use picotor.Main.Client
use picotor.Main.Client.Counts.{completed_append}
use picotor.Main.Client.Conservation.{places-start, AreBalanced, start-AreBalanced, Reach-kept}
use picotor.Main.System.{
  System, pushed, calls_of, handle, deliver, Trace, here, next, system_of, waiting, pending,
}
use picotor.Main.System.Places.Accounted.{
  written, IsAccounted, started, Trace-places, Trace-IsAccounted,
}

-- However the handlers of the peers and the thread of the monitor interleave, as long as no handler
-- faults: each piece of the torrent is in exactly one place, in the work queue, at one peer, in one
-- report that waits for the monitor, or visited by the monitor; and no other index is anywhere.
pub one_place :
    (sha1 : Bytes → Bytes) (tor : SingleFileTorrent) (response : TrackerResponse) (clock : ℕ)
    (s : System) (a : ℕ)
    → let start = start_connections tor response clock in
      Trace sha1 start.context (system_of start) s
      → pending a s + written start.context a s ≡ (if ltb a (pieces tor) then 1 else 0)
one_place sha1 tor response clock s a r = omega (
  arith,
  Trace-places sha1 tor response clock s a r,
  (Trace-IsAccounted sha1 tor response clock s a r).0,
)

first-missing : (xs : List ℕ) → is_empty xs ≡ false → (a : ℕ) × (has a xs ≡ true)
unfolding is_empty
first-missing [] e = cc
first-missing (x ∷ xs) e = (x, ground arith)

-- No state of the system is stuck with a piece lost: the monitor has every piece, or one of the pieces
-- that it waits for is in the work queue, at a peer, or in a report on its way to the monitor.
pub missing-pending :
    (sha1 : Bytes → Bytes) (tor : SingleFileTorrent) (response : TrackerResponse) (clock : ℕ)
    (s : System)
    → let start = start_connections tor response clock in
      Trace sha1 start.context (system_of start) s
      → (complete s.monitor ≡ true)
        ⊎ ((a : ℕ) × (a < pieces tor) × (has a s.monitor.missing_pieces ≡ true) × (pending a s ≡ 1))
unfolding complete start_connections
missing-pending sha1 tor response clock s r = elim (Bool-cases (complete s.monitor)) [
  | inl done ↦ inl done
  | inr more ↦
      let (a, gone) = first-missing s.monitor.missing_pieces more in
      let known = (Trace-IsAccounted sha1 tor response clock s a r).1 in
      let place = one_place sha1 tor response clock s a r in
      inr (a, ground (arith, gone, known), gone, ground (arith, gone, known, place))
]

waiting-reported :
    (a : ℕ) (rs : List (ℕ × Result)) → reported a rs ≡ false → waiting a (map (λ x. x.1) rs) ≡ 0
waiting-reported a [] e = refl
waiting-reported a ((clock, piece_complete c) ∷ rs) e = ground (arith, waiting-reported a rs)
waiting-reported a ((clock, peer_connected x) ∷ rs) e = waiting-reported a rs e
waiting-reported a ((clock, peer_dropped x) ∷ rs) e = waiting-reported a rs e

-- When every piece has been reported, so that none is in the work queue or at a peer, the loop of the
-- monitor ends over the results that wait, whatever the times.
pub reported-complete :
    (sha1 : Bytes → Bytes) (tor : SingleFileTorrent) (response : TrackerResponse) (clock : ℕ)
    (s : System) (rs : List (ℕ × Result))
    → let start = start_connections tor response clock in
      Trace sha1 start.context (system_of start) s
      → ((a : ℕ) → a < pieces tor → count a s.client.work_queue + held_by_all a s.client.peers ≡ 0)
      → map (λ x. x.1) rs ≡ s.result_queue
      → complete (monitor_loop rs s.monitor) ≡ true
unfolding complete start_connections
reported-complete sha1 tor response clock s rs r quiet q = is_empty_of_none _ λ a.
    let known = (Trace-IsAccounted sha1 tor response clock s a r).1 in
    let place = one_place sha1 tor response clock s a r in
    ground (
      arith,
      has-monitor_loop a rs s.monitor,
      waiting-reported a rs,
      ap (waiting a) q,
      known,
      place,
      quiet a,
    )
