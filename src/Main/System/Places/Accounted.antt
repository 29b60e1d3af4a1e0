-- ===== src/Main/System/Places/Accounted.antt =====
-- src/main.cpp with src/peer.cpp: what was reported waits or was visited.
use picotor.Base.{
  ℕ, ◌+◌, ◌≤◌, ◌≡◌, refl, sym, ap, subst, ◌∙◌, Bool, false, not, ◌&&◌, List, [], ◌∷◌, ◌++◌, map,
  arith, Bytes, ltb, ◌==◌, if◌then◌else◌,
}
use picotor.Common.Address.{Address}
use picotor.Torrent.Metainfo.{SingleFileTorrent, pieces}
use picotor.Torrent.Tracker.{TrackerResponse}
use picotor.Result.{Result, piece_complete, peer_connected, peer_dropped, TorrentContext}
use picotor.Peer.State.{new_peer}
use picotor.Monitor.{Monitor, new_monitor, visit}
use picotor.Monitor.Missing.{has, reported, has-push_all, has-visit}
use picotor.Main.{Connections, start_connections}
use picotor.Main.Client.{
  Client, Move, act, Reach, count, held_by_all, completed, completed_by_all, client_of, places,
}
use picotor.Main.Client
use picotor.Main.Client.Conservation.{places-start, AreBalanced, start-AreBalanced, Reach-kept}
use picotor.Main.System.{
  System, pushed, calls_of, handle, deliver, Trace, here, next, system_of, waiting,
}
use picotor.Main.System.Places.Waiting.{waiting_append, waiting-pushed, Move-completed}

-- Piece `a` is one of the torrent that the monitor waits for no more.
abbrev pub written : TorrentContext → ℕ → System → ℕ
written ctx a s = if ltb a (pieces ctx.tor) && not (has a s.monitor.missing_pieces) then 1 else 0

-- What was reported waits or was visited, and the monitor waits for pieces of the torrent only.
abbrev pub IsAccounted : TorrentContext → ℕ → System → Type 0
IsAccounted ctx a s =
    (completed_by_all a s.client.peers ≡ waiting a s.result_queue + written ctx a s)
    × ((has a s.monitor.missing_pieces && not (ltb a (pieces ctx.tor))) ≡ false)

module _ (sha1 : Bytes → Bytes) (ctx : TorrentContext) where
  pub Trace-Reach : (s t : System) → Trace sha1 ctx s t → Reach sha1 ctx s.client t.client
  Trace-Reach s t here = Client.here
  Trace-Reach s t (next {t = x} r (handle m _ _)) = Client.next (Trace-Reach s x r) m
  Trace-Reach s t (next {t = x} r (deliver _ _ _ _ _ same)) =
      subst (Reach sha1 ctx s.client) (sym same) (Trace-Reach s x r)

  visit-IsAccounted :
      (a clock : ℕ) (b : Bool) (r : Result) (s t : System)
      → completed_by_all a s.client.peers ≤ (if ltb a (pieces ctx.tor) then 1 else 0)
      → reported a ((clock, r) ∷ []) ≡ b
      → waiting a (r ∷ t.result_queue) ≡ (if b then 1 else 0) + waiting a t.result_queue
      → s.result_queue ≡ r ∷ t.result_queue
      → t.monitor ≡ visit clock r s.monitor
      → t.client ≡ s.client
      → IsAccounted ctx a s
      → IsAccounted ctx a t
  visit-IsAccounted a clock b r s t once now first q m same (v, w) =
      let seen =
        ap (λ (x : Monitor). has a x.missing_pieces) m
        ∙ has-visit clock a r s.monitor
        ∙ ap (λ x. not x && has a s.monitor.missing_pieces) now in
      let all = ap (λ (x : Client). completed_by_all a x.peers) same in
      (ground (arith, seen, ap (waiting a) q, first, all, v, w, once), ground (arith, seen, w))

  deliver-IsAccounted :
      (a clock : ℕ) (r : Result) (s t : System)
      → completed_by_all a s.client.peers ≤ (if ltb a (pieces ctx.tor) then 1 else 0)
      → s.result_queue ≡ r ∷ t.result_queue
      → t.monitor ≡ visit clock r s.monitor
      → t.client ≡ s.client
      → IsAccounted ctx a s
      → IsAccounted ctx a t
  deliver-IsAccounted a clock (piece_complete c) s t once =
      visit-IsAccounted a clock (c.piece_index == a) (piece_complete c) s t once (ground arith)
        (ground arith)
  deliver-IsAccounted a clock (peer_connected x) s t once =
      visit-IsAccounted a clock false (peer_connected x) s t once refl (omega arith)
  deliver-IsAccounted a clock (peer_dropped x) s t once =
      visit-IsAccounted a clock false (peer_dropped x) s t once refl (omega arith)

  handle-IsAccounted :
      (a : ℕ) (s t : System) (m : Move sha1 ctx s.client t.client)
      → t.result_queue ≡ s.result_queue ++ pushed (calls_of m)
      → t.monitor ≡ s.monitor
      → IsAccounted ctx a s
      → IsAccounted ctx a t
  handle-IsAccounted a s t m q same (v, w) =
      let kept = ap (λ (x : Monitor). has a x.missing_pieces) same in
      (
        ground (
          arith,
          v,
          kept,
          Move-completed a s.client t.client m,
          ap (waiting a) q,
          waiting_append a s.result_queue (pushed (calls_of m)),
          waiting-pushed a (calls_of m),
        ),
        ap (λ x. x && not (ltb a (pieces ctx.tor))) kept ∙ w,
      )

start-completed : (a : ℕ) (xs : List Address) → completed_by_all a (map new_peer xs) ≡ 0
unfolding new_peer
start-completed a [] = refl
start-completed a (x ∷ xs) = omega (arith, start-completed a xs)

module _ (sha1 : Bytes → Bytes) (tor : SingleFileTorrent) (response : TrackerResponse)
    (clock : ℕ) where
  abbrev pub started : Connections
  started = start_connections tor response clock

  start-IsAccounted : (a : ℕ) → IsAccounted started.context a (system_of started)
  unfolding start_connections new_monitor
  start-IsAccounted a =
      let have = has-push_all (pieces tor) 0 a [] in
      (ground (arith, have, start-completed a response.peers), ground (arith, have))

  pub Trace-places :
      (s : System) (a : ℕ)
      → Trace sha1 started.context (system_of started) s
      → places a s.client ≡ (if ltb a (pieces tor) then 1 else 0)
  Trace-places s a r =
      places-start sha1 tor response clock s.client a
        (Trace-Reach sha1 started.context (system_of started) s r)

  pub Trace-AreBalanced :
      (s : System) (a : ℕ)
      → Trace sha1 started.context (system_of started) s
      → AreBalanced a s.client.peers
  unfolding start_connections
  Trace-AreBalanced s a r =
      (Reach-kept sha1 started.context a (client_of started) s.client
        (Trace-Reach sha1 started.context (system_of started) s r)
        (start-AreBalanced a response.peers)).0

  pub Trace-IsAccounted :
      (s : System) (a : ℕ)
      → Trace sha1 started.context (system_of started) s
      → IsAccounted started.context a s
  unfolding start_connections
  Trace-IsAccounted s a here = start-IsAccounted a
  Trace-IsAccounted s a (next {t = x} r (handle m q same)) =
      handle-IsAccounted sha1 started.context a x s m q same (Trace-IsAccounted x a r)
  Trace-IsAccounted s a (next {t = x} r (deliver clock' y more q m same)) =
      deliver-IsAccounted sha1 started.context a clock' y x s (omega (arith, Trace-places x a r)) q
        m same (Trace-IsAccounted x a r)
