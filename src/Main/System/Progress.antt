-- ===== src/Main/System/Progress.antt =====
-- src/main.cpp with src/peer.cpp: each report is visited once, and the figures of the progress report.
use picotor.Base.{
  ℕ, zero, suc, ◌-◌, All, ◌++◌, length-append, ◌+◌, ◌*◌, ◌<◌, ◌≤◌, ◌≡◌, refl, sym, ap, subst, ◌∙◌,
  true, List, [], ◌∷◌, arith, Bytes, length,
}
use picotor.Torrent.Metainfo.{SingleFileTorrent, pieces}
use picotor.Torrent.Tracker.{TrackerResponse}
use picotor.Torrent.CompletePiece.{CompletePiece}
use picotor.Result.{Result, piece_complete, peer_connected, peer_dropped, TorrentContext}
use picotor.Monitor.{
  Monitor, new_monitor, push_all, erase_piece, report_progress, on_piece_complete,
  on_peer_connected, on_peer_dropped, visit,
}
use picotor.Monitor.Missing.{has}
use picotor.Monitor.Place.{IsSmall, pieces-le}
use picotor.Monitor.File.{visit-file}
use picotor.Main.{start_connections}
use picotor.Main.Client.{count, held_by_all}
use picotor.Main.Client.Conservation.{count-push_all}
use picotor.Main.System.{System, handle, deliver, Trace, here, next, system_of, waiting}
use picotor.Main.System.Places.{one_place}
use picotor.Main.System.Integrity.{IsHashed, Trace-AllSound}

-- When the monitor pops a complete piece, it is one of the torrent that it still waits for, and it is
-- nowhere else: no peer fetches it again, no other report of it waits.
pub visited_alone :
    (sha1 : Bytes → Bytes) (tor : SingleFileTorrent) (response : TrackerResponse) (clock : ℕ)
    (s : System) (c : CompletePiece) (rs : List Result)
    → let start = start_connections tor response clock in
      Trace sha1 start.context (system_of start) s
      → s.result_queue ≡ piece_complete c ∷ rs
      → let a = c.piece_index in
        (a < pieces tor)
        × (has a s.monitor.missing_pieces ≡ true)
        × (waiting a rs ≡ 0)
        × (count a s.client.work_queue + held_by_all a s.client.peers ≡ 0)
unfolding start_connections
visited_alone sha1 tor response clock s c rs r q =
    let total = one_place sha1 tor response clock s c.piece_index r in
    let first = ap (waiting c.piece_index) q in
    (
      ground (arith, total, first),
      ground (arith, total, first),
      ground (arith, total, first),
      ground (arith, total, first),
    )

length-erase_piece : (i : ℕ) (xs : List ℕ) → length (erase_piece i xs) + count i xs ≡ length xs
unfolding erase_piece
length-erase_piece i [] = omega arith
length-erase_piece i (x ∷ xs) = ground (arith, length-erase_piece i xs)

count-erase_piece : (a i : ℕ) (xs : List ℕ) → count a (erase_piece i xs) ≤ count a xs
unfolding erase_piece
count-erase_piece a i [] = omega arith
count-erase_piece a i (x ∷ xs) = ground (arith, count-erase_piece a i xs)

has-count : (a : ℕ) (xs : List ℕ) → has a xs ≡ true → 0 < count a xs
has-count a [] e = cc
has-count a (x ∷ xs) e = ground (arith, has-count a xs)

length-push_all : (n i : ℕ) (xs : List ℕ) → length (push_all n i xs) ≡ length xs + n
unfolding push_all
length-push_all zero i xs = omega arith
length-push_all (suc n) i xs =
    omega (arith, length-push_all n (i + 1) (xs ++ i ∷ []), length-append xs (i ∷ []))

-- Each missing piece is there once, and what was downloaded makes up for those that are not.
record IsCounted (tor : SingleFileTorrent) (m : Monitor) : Type 0 where
  distinct : (a : ℕ) → count a m.missing_pieces ≤ 1
  balance :
      m.bytes_downloaded + length m.missing_pieces * tor.piece_length
      ≡ pieces tor * tor.piece_length

IsCounted-same :
    (tor : SingleFileTorrent) (m m' : Monitor)
    → m'.missing_pieces ≡ m.missing_pieces
    → m'.bytes_downloaded ≡ m.bytes_downloaded
    → IsCounted tor m
    → IsCounted tor m'
IsCounted-same tor m m' e b v = record {
  distinct = λ a. rw e (v.distinct a);
  balance = rw (e, b) v.balance;
}

visit-bytes_downloaded :
    (clock : ℕ) (c : CompletePiece) (m : Monitor)
    → (visit clock (piece_complete c) m).bytes_downloaded ≡ m.bytes_downloaded + c.size
unfolding visit on_piece_complete report_progress
visit-bytes_downloaded clock c m = ground arith

piece-IsCounted :
    (tor : SingleFileTorrent) (clock : ℕ) (c : CompletePiece) (m : Monitor)
    → c.size ≡ tor.piece_length
    → has c.piece_index m.missing_pieces ≡ true
    → IsCounted tor m
    → IsCounted tor (visit clock (piece_complete c) m)
piece-IsCounted tor clock c m size known v =
    let e = (visit-file clock c m).1 in
    let i = c.piece_index in
    let once : count i m.missing_pieces ≡ 1 =
      omega (arith, v.distinct i, has-count i m.missing_pieces known) in
    let shorter : length m.missing_pieces ≡ suc (length (erase_piece i m.missing_pieces)) =
      omega (arith, once, length-erase_piece i m.missing_pieces) in
    record {
      distinct = λ a. rw e (omega (arith, v.distinct a, count-erase_piece a i m.missing_pieces));
      balance =
          rw (e, visit-bytes_downloaded clock c m) (omega (arith, size, rw shorter at v.balance));
    }

visit-IsCounted :
    (sha1 : Bytes → Bytes) (ctx : TorrentContext) (clock : ℕ) (r : Result) (m : Monitor)
    → ((c : CompletePiece) → r ≡ piece_complete c → has c.piece_index m.missing_pieces ≡ true)
    → IsHashed sha1 ctx r
    → IsCounted ctx.tor m
    → IsCounted ctx.tor (visit clock r m)
unfolding visit on_peer_connected on_peer_dropped
visit-IsCounted sha1 ctx clock (piece_complete c) m known match v =
    piece-IsCounted ctx.tor clock c m match.size (known c refl) v
visit-IsCounted sha1 ctx clock (peer_connected a) m known match v =
    IsCounted-same ctx.tor m (visit clock (peer_connected a) m) (ground arith) (ground arith) v
visit-IsCounted sha1 ctx clock (peer_dropped a) m known match v =
    IsCounted-same ctx.tor m (visit clock (peer_dropped a) m) refl refl v

module _ (sha1 : Bytes → Bytes) (tor : SingleFileTorrent) (response : TrackerResponse) (clock : ℕ)
    (d : IsSmall tor) where
  start-IsCounted : IsCounted tor (new_monitor (start_connections tor response clock).context clock)
  unfolding start_connections new_monitor
  start-IsCounted = record {
    distinct = λ a. ground (arith, count-push_all a (pieces tor) 0 []);
    balance = ap (λ n. 0 + n * tor.piece_length) (length-push_all (pieces tor) 0 []) ∙ omega arith;
  }

  Trace-IsCounted :
      (s : System)
      → let start = start_connections tor response clock in
        Trace sha1 start.context (system_of start) s → IsCounted tor s.monitor
  unfolding start_connections
  Trace-IsCounted s here = start-IsCounted
  Trace-IsCounted s (next {t = x} r (handle m q same)) =
      subst (IsCounted tor) (sym same) (Trace-IsCounted x r)
  Trace-IsCounted s (next {t = x} r (deliver clock' y more q m same)) =
      let sound = Trace-AllSound sha1 tor response clock d x r in
      subst (IsCounted tor) (sym m) (
        visit-IsCounted sha1 _ clock' y x.monitor
          (λ c e.
            (visited_alone sha1 tor response clock x c s.result_queue r
              (q ∙ ap (λ z. z ∷ s.result_queue) e)).1)
          (subst (All (IsHashed sha1 _)) q sound.results).0 (Trace-IsCounted x r))

difference : (b m n l : ℕ) → 0 < l → b + m * l ≡ n * l → (b ≡ (n - m) * l) × (m ≤ n)
difference b m n l h e =
    let few : m ≤ n = grind arith in
    let split : n ≡ (n - m) + m = omega (arith, few) in
    let e' : n * l ≡ ((n - m) + m) * l = ap (λ k. k * l) split in (omega (arith, e, e'), few)

-- The figures of the progress report are right in every state: the bytes downloaded are those of the
-- pieces of the torrent that are no longer missing, and no more than the file has.
pub progress :
    (sha1 : Bytes → Bytes) (tor : SingleFileTorrent) (response : TrackerResponse) (clock : ℕ)
    (s : System)
    → IsSmall tor
    → let start = start_connections tor response clock in
      Trace sha1 start.context (system_of start) s
      → (s.monitor.bytes_downloaded
          ≡ (pieces tor - length s.monitor.missing_pieces) * tor.piece_length)
        × (length s.monitor.missing_pieces ≤ pieces tor)
        × (s.monitor.bytes_downloaded ≤ tor.file_length)
progress sha1 tor response clock s d r =
    let balance = (Trace-IsCounted sha1 tor response clock d s r).balance in
    let (b, few) =
      difference s.monitor.bytes_downloaded (length s.monitor.missing_pieces) (pieces tor)
        tor.piece_length d.positive balance in
    (b, few, omega (arith, balance, pieces-le tor d.positive))
