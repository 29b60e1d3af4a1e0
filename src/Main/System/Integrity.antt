-- ===== src/Main/System/Integrity.antt =====
-- src/main.cpp with src/peer.cpp: what the client leaves on the disk.
use picotor.Base.{
  ℕ, ◌<◌, ◌≡◌, sym, subst, true, List, [], ◌∷◌, ◌++◌, map, arith, Bytes, All, All-append, All-at,
  All-update, length,
}
use picotor.Common.Address.{Address}
use picotor.Torrent.Metainfo.{SingleFileTorrent, pieces}
use picotor.Torrent.Tracker.{TrackerResponse}
use picotor.Result.{Result, piece_complete, peer_connected, peer_dropped, TorrentContext}
use picotor.Peer.State.{
  Effect, connect, write_handshake, write_message, write_request, read, start_timer, close_socket,
  pop_work, push_work, push_result, new_peer,
}
use picotor.Peer.Run.Rule.{step-kept}
use picotor.Peer.Run.Verified.{Matches, AreVerified, IsVerified, IsVerified-IsInvariant}
use picotor.Monitor.{complete, visit}
use picotor.Monitor.Place.{IsSmall}
use picotor.Monitor.Integrity.{
  IsSound, IsChecked, IsIntact, visit-IsIntact, new_monitor-IsIntact, IsIntact-IsChecked,
}
use picotor.Main.{start_connections}
use picotor.Main.Client.{Client, Move, act}
use picotor.Main.System.{
  System, pushed, calls_of, handle, deliver, Trace, here, next, system_of, waiting,
}
use picotor.Main.System.Places.{one_place}

module _ (sha1 : Bytes → Bytes) (ctx : TorrentContext) where
  -- A piece that is reported has the hash and the size that the torrent gives it.
  abbrev pub IsHashed : Result → Type 0
  IsHashed (piece_complete c) = Matches sha1 ctx c
  IsHashed (peer_connected _) = Unit {0}
  IsHashed (peer_dropped _) = Unit {0}

  pushed-IsHashed :
      (calls h : List Effect) → AreVerified sha1 ctx (calls ++ h) → All IsHashed (pushed calls)
  unfolding pushed
  pushed-IsHashed [] h v = tt
  pushed-IsHashed (connect _ _ ∷ calls) h v = pushed-IsHashed calls h v
  pushed-IsHashed (write_handshake _ ∷ calls) h v = pushed-IsHashed calls h v
  pushed-IsHashed (write_message _ ∷ calls) h v = pushed-IsHashed calls h v
  pushed-IsHashed (write_request _ _ ∷ calls) h v = pushed-IsHashed calls h v
  pushed-IsHashed (read _ _ ∷ calls) h v = pushed-IsHashed calls h v
  pushed-IsHashed (start_timer _ _ ∷ calls) h v = pushed-IsHashed calls h v
  pushed-IsHashed (close_socket ∷ calls) h v = pushed-IsHashed calls h v
  pushed-IsHashed (pop_work _ ∷ calls) h v = pushed-IsHashed calls h v
  pushed-IsHashed (push_work _ ∷ calls) h v = pushed-IsHashed calls h v
  pushed-IsHashed (push_result (piece_complete c) ∷ calls) h (m, v) =
      All-append IsHashed (pushed calls) (piece_complete c ∷ []) (pushed-IsHashed calls h v) (m, tt)
  pushed-IsHashed (push_result (peer_connected a) ∷ calls) h v =
      All-append IsHashed (pushed calls) (peer_connected a ∷ []) (pushed-IsHashed calls h v)
        (tt, tt)
  pushed-IsHashed (push_result (peer_dropped a) ∷ calls) h v =
      All-append IsHashed (pushed calls) (peer_dropped a ∷ []) (pushed-IsHashed calls h v) (tt, tt)

  -- What is known of all that was reported, and of the file.
  pub record AllSound (s : System) : Type 0 where
    pub peers : All (IsVerified sha1 ctx) s.client.peers
    pub results : All IsHashed s.result_queue
    pub file : IsIntact sha1 ctx s.monitor

  Move-IsVerified :
      (c d : Client) (m : Move sha1 ctx c d)
      → All (IsVerified sha1 ctx) c.peers
      → All (IsVerified sha1 ctx) d.peers × All IsHashed (pushed (calls_of m))
  Move-IsVerified c d (act front back p p' e calls before after done grown served) v =
      let w = subst (All (IsVerified sha1 ctx)) before v in
      let w' =
        step-kept sha1 ctx (IsVerified sha1 ctx) (IsVerified-IsInvariant sha1 ctx) p p' e
          (All-at (IsVerified sha1 ctx) front back p w) done in
      (
        subst (All (IsVerified sha1 ctx)) (sym after)
            (All-update (IsVerified sha1 ctx) front back p p' w w'),
        pushed-IsHashed calls p.history (subst (AreVerified sha1 ctx) grown w'.1),
      )

  handle-AllSound :
      (s t : System) (m : Move sha1 ctx s.client t.client)
      → t.result_queue ≡ s.result_queue ++ pushed (calls_of m)
      → t.monitor ≡ s.monitor
      → AllSound s
      → AllSound t
  handle-AllSound s t m q same v =
      let (w, new) = Move-IsVerified s.client t.client m v.peers in
      record {
        peers = w;
        results = subst (All IsHashed) (sym q) (All-append IsHashed s.result_queue _ v.results new);
        file = subst (IsIntact sha1 ctx) (sym same) v.file;
      }

  IsHashed-IsSound :
      (r : Result) (rs : List Result)
      → ((a : ℕ) → 0 < waiting a (r ∷ rs) → a < pieces ctx.tor)
      → IsHashed r
      → IsSound sha1 ctx r
  IsHashed-IsSound (piece_complete c) rs known v = (known c.piece_index (ground arith), v)
  IsHashed-IsSound (peer_connected _) rs known v = tt
  IsHashed-IsSound (peer_dropped _) rs known v = tt

  deliver-AllSound :
      (d : IsSmall ctx.tor) (clock : ℕ) (r : Result) (s t : System)
      → ((a : ℕ) → 0 < waiting a s.result_queue → a < pieces ctx.tor)
      → s.result_queue ≡ r ∷ t.result_queue
      → t.monitor ≡ visit clock r s.monitor
      → t.client ≡ s.client
      → AllSound s
      → AllSound t
  deliver-AllSound d clock r s t known q m same v =
      let (first, rest) = subst (All IsHashed) q v.results in
      let sound =
        IsHashed-IsSound r t.result_queue
          (subst (λ x. (a : ℕ) → 0 < waiting a x → a < pieces ctx.tor) q known) first in
      record {
        peers = subst (λ (x : Client). All (IsVerified sha1 ctx) x.peers) (sym same) v.peers;
        results = rest;
        file =
            subst (IsIntact sha1 ctx) (sym m)
              (visit-IsIntact sha1 ctx d clock r s.monitor sound v.file);
      }

  start-IsVerified : (xs : List Address) → All (IsVerified sha1 ctx) (map new_peer xs)
  unfolding new_peer
  start-IsVerified [] = tt
  start-IsVerified (x ∷ xs) = ((tt, tt), start-IsVerified xs)

module _ (sha1 : Bytes → Bytes) (tor : SingleFileTorrent) (response : TrackerResponse) (clock : ℕ)
    (d : IsSmall tor) where
  pub Trace-AllSound :
      (s : System)
      → let start = start_connections tor response clock in
        Trace sha1 start.context (system_of start) s → AllSound sha1 start.context s
  unfolding start_connections
  Trace-AllSound s here = record {
    peers = start-IsVerified sha1 _ response.peers;
    results = tt;
    file = new_monitor-IsIntact sha1 _ clock;
  }
  Trace-AllSound s (next {t = x} r (handle m q same)) =
      handle-AllSound sha1 _ x s m q same (Trace-AllSound x r)
  Trace-AllSound s (next {t = x} r (deliver clock' y more q m same)) =
      deliver-AllSound sha1 _ d clock' y x s
        (λ a h. ground (arith, one_place sha1 tor response clock x a r)) q m same
        (Trace-AllSound x r)

-- For a torrent with a file below 4 GB and pieces that are not empty: however the handlers of the peers
-- and the monitor interleave, as long as no handler faults, and whatever the peers send: when the
-- monitor is complete, the file on disk has the length of the torrent's file, and each of its whole
-- pieces has the SHA-1 hash that the metainfo file lists for it.
pub complete-IsChecked :
    (sha1 : Bytes → Bytes) (tor : SingleFileTorrent) (response : TrackerResponse) (clock : ℕ)
    (s : System)
    → IsSmall tor
    → let start = start_connections tor response clock in
      Trace sha1 start.context (system_of start) s
      → complete s.monitor ≡ true
      → (length s.monitor.file ≡ tor.file_length)
        × ((i : ℕ) → i < pieces tor → IsChecked sha1 start.context s.monitor.file i)
unfolding start_connections
complete-IsChecked sha1 tor response clock s d r done =
    let v = Trace-AllSound sha1 tor response clock d s r in
    (v.file.size, IsIntact-IsChecked sha1 _ s.monitor done v.file)
