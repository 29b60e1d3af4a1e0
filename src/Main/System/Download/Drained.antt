-- ===== src/Main/System/Download/Drained.antt =====
-- src/main.cpp with src/peer.cpp: the monitor takes what was reported.
use picotor.Base.{
  ℕ, ◌+◌, ◌<◌, ◌≡◌, refl, ap, true, List, [], ◌∷◌, arith, Bytes, Bool-cases, inl, inr,
}
use picotor.Torrent.Metainfo.{SingleFileTorrent, pieces}
use picotor.Torrent.Tracker.{TrackerResponse}
use picotor.Result.{Result, TorrentContext}
use picotor.Monitor.{complete, visit}
use picotor.Main.{start_connections}
use picotor.Main.Client.{count, held_by_all}
use picotor.Main.System.Orderly.{AreOrderly}
use picotor.Main.System.{System, deliver, Trace, next, system_of, waiting}
use picotor.Main.System.Places.{missing-pending}

module _ (sha1 : Bytes → Bytes) (tor : SingleFileTorrent) (response : TrackerResponse)
    (clock : ℕ) where
  abbrev ctx : TorrentContext
  ctx = (start_connections tor response clock).context

  abbrev start : System
  start = system_of (start_connections tor response clock)

  -- Once no piece is in the work queue or at a peer, the monitor can go on to its end.
  pub drained :
      (rs : List Result) (s : System)
      → (r : Trace sha1 ctx start s) → AreOrderly r
      → s.result_queue ≡ rs
      → ((a : ℕ) → a < pieces tor → count a s.client.work_queue + held_by_all a s.client.peers ≡ 0)
      → (t : System) × (r' : Trace sha1 ctx start t) × AreOrderly r' × (complete t.monitor ≡ true)
  drained [] s r orderly q quiet = elim (missing-pending sha1 tor response clock s r) [
    | inl done ↦ (s, r, orderly, done)
    | inr (a, less, _, once) ↦ absurd (omega (arith, once, quiet a less, ap (waiting a) q))
  ]
  drained (x ∷ rs) s r orderly q quiet = elim (Bool-cases (complete s.monitor)) [
    | inl done ↦ (s, r, orderly, done)
    | inr more ↦
        let t : System = record {
          client = s.client;
          result_queue = rs;
          monitor = visit 0 x s.monitor;
        } in
        drained rs t (next r (deliver 0 x more q refl refl)) orderly refl quiet
  ]
