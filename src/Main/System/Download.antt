-- ===== src/Main/System/Download.antt =====
-- src/main.cpp with src/peer.cpp: a download that completes.
pub mod Sums
pub mod Drained
pub mod Receives
pub mod Fetched
pub mod Rounds
pub mod Greets
pub mod Started
use picotor.Base.{
  ℕ, ◌+◌, ◌<◌, ◌≡◌, refl, sym, ap, subst, ◌∙◌, List, [], ◌∷◌, ◌++◌, Bytes, length, ok,
}
use picotor.Common.Hash.{Hash}
use picotor.Common.Hash
use picotor.Torrent.Metainfo.{SingleFileTorrent, pieces, piece_hash}
use picotor.Result.{Result, TorrentContext}
use picotor.Peer.State.{Peer}
use picotor.Peer.Run.{Event, step}
use picotor.Peer.Run.Orderly.{IsOutstanding}
use picotor.Monitor.Place.{IsSmall}
use picotor.Monitor.Integrity.{slice}
use picotor.Main.Client.{act}
use picotor.Main.Client.Serving.Offers.{IsFed, step-Serves}
use picotor.Main.System.{System, pushed, handle, Trace, next, waiting}
use picotor.Main.System.Places.Accounted.{written}
use picotor.Main.System.Orderly.{IsOffered, events_at, AreOrderly}

-- How often piece `a` is in a report that waits or was visited.
abbrev pub reported : TorrentContext → System → ℕ → ℕ
reported ctx s a = waiting a s.result_queue + written ctx a s

-- The first peer is `p`, after the completions `done`, in a trace of completions that peers waited for.
pub record Stage (sha1 : Bytes → Bytes) (ctx : TorrentContext) (start s : System) (p : Peer)
    (back : List Peer) (done : List Event) : Type 0 where
  pub trace : Trace sha1 ctx start s
  pub orderly : AreOrderly trace
  pub events : events_at 0 trace ≡ done
  pub at : s.client.peers ≡ p ∷ back

-- The monitor has not moved, and nothing that was reported is gone.
abbrev pub IsLater : System → System → Type 0
IsLater s t =
    (t.monitor ≡ s.monitor) × ((extra : List Result) × (t.result_queue ≡ s.result_queue ++ extra))

-- A completion at the first peer.
pub moves :
    (sha1 : Bytes → Bytes) (ctx : TorrentContext) (start s : System) (p r : Peer) (back : List Peer)
    (done : List Event) (e : Event)
    → Stage sha1 ctx start s p back done
    → IsFed s.client.work_queue e
    → IsOffered s.client.work_queue e
    → IsOutstanding done p e
    → step sha1 ctx p e ≡ ok r
    → (t : System) × Stage sha1 ctx start t r back (e ∷ done) × IsLater s t
moves sha1 ctx start s p r back done e g fed offered waits ran =
    let (calls, q, grown, served) = step-Serves sha1 ctx s.client.work_queue p r e fed ran in
    let t : System = record {
      client = record { work_queue = q; peers = r ∷ back };
      result_queue = s.result_queue ++ pushed calls;
      monitor = s.monitor;
    } in
    (
      t,
      record {
        trace =
            next g.trace (handle (act [] back p r e calls g.at refl ran grown served) refl refl);
        orderly = (g.orderly, subst (λ es. IsOutstanding es p e) (sym g.events) waits, offered);
        events = ap (λ es. e ∷ es) g.events;
        at = refl;
      },
      (refl, (pushed calls, refl)),
    )

-- The hashes of the metainfo file are those of a text, for a torrent whose numbers fit.
pub record IsPublished (sha1 : Bytes → Bytes) (tor : SingleFileTorrent) (text : Bytes)
    : Type 0 where
  pub fits : IsSmall tor
  pub size : length text ≡ tor.file_length
  pub hashed :
      (a : ℕ)
      → a < pieces tor
      → (h : Hash) × (Hash.of sha1 (slice tor a text) ≡ ok h) × (piece_hash tor a ≡ ok h)
