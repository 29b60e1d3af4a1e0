-- ===== src/Main/System/Orderly.antt =====
-- src/main.cpp with src/peer.cpp: traces in which each completion ends an operation that was begun.
use picotor.Base.{ℕ, ◌≡◌, List, [], ◌∷◌, Bytes, ◌==◌, if◌then◌else◌}
use picotor.Result.{TorrentContext}
use picotor.Peer.State.{Peer}
use picotor.Peer.Run.{Event, body_done}
use picotor.Peer.Run.Orderly.{IsOutstanding}
use picotor.Main.Client.{Client, Move, act}
use picotor.Main.System.{System, event_of, mover, Trace, here, next, handle, deliver}

-- The peer that handles the completion.
abbrev pub actor_of :
    {sha1 : Bytes → Bytes} {ctx : TorrentContext} {c d : Client} → Move sha1 ctx c d → Peer
actor_of (act front back p p' e calls before after done grown served) = p

-- What the calls of `pop` return is what the work queue has.
abbrev pub IsOffered : List ℕ → Event → Type 0
IsOffered q (body_done junk failed buffer offers) = offers ≡ q
IsOffered q _ = Unit {0}

module _ {sha1 : Bytes → Bytes} {ctx : TorrentContext} {s : System} where
  -- The completions at peer `k`, the newest first.
  abbrev pub events_at : ℕ → {t : System} → Trace sha1 ctx s t → List Event
  events_at k here = []
  events_at k (next r (handle m _ _)) =
      if mover m == k then event_of m ∷ events_at k r else events_at k r
  events_at k (next r (deliver _ _ _ _ _ _)) = events_at k r

  -- Each completion is one that its peer waits for, and finds the work queue as it is.
  abbrev pub AreOrderly : {t : System} → Trace sha1 ctx s t → Type 0
  AreOrderly here = Unit {0}
  AreOrderly (next {t = t} r (handle m _ _)) =
      AreOrderly r
      × IsOutstanding (events_at (mover m) r) (actor_of m) (event_of m)
      × IsOffered t.client.work_queue (event_of m)
  AreOrderly (next r (deliver _ _ _ _ _ _)) = AreOrderly r
