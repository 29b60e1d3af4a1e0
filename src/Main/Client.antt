-- ===== src/Main/Client.antt =====
-- src/main.cpp with src/peer.cpp: all peers of the client over its one work queue.
pub mod Counts
pub mod Conservation
pub mod Serving
use picotor.Base.{
  ℕ, zero, suc, ◌+◌, ◌-◌, ◌≤◌, ◌<◌, ◌≡◌, refl, sym, ap, subst, ◌∙◌, Bool, true, false, ◌&&◌, List,
  [], ◌∷◌, ◌++◌, map, Option, none, some, arith, Bytes, All, ltb, leb, ◌==◌, if◌then◌else◌, Outcome,
  ok,
}
use picotor.Common.Address.{Address}
use picotor.Torrent.Metainfo.{SingleFileTorrent, pieces}
use picotor.Torrent.Tracker.{TrackerResponse}
use picotor.Torrent.CompletePiece.{CompletePiece}
use picotor.Result.{Result, piece_complete, TorrentContext}
use picotor.Peer.State.{Peer, Effect, pop_work, push_work, push_result, new_peer}
use picotor.Peer.Run.{Event, step}
use picotor.Peer.Run.Ownership.{held, one_if}
use picotor.Monitor.{push_all}
use picotor.Main.{Connections, start_connections}

-- What the calls of one handler, the newest first, do to the queue: it gives out what was pushed, in
-- order, each element once.
abbrev pub Serves : List Effect → List ℕ → List ℕ → Type 0
Serves [] q q' = q' ≡ q
Serves (push_work i ∷ h) q q' = (r : List ℕ) × Serves h q r × (q' ≡ r ++ i ∷ [])
Serves (pop_work i ∷ h) q q' = (r : List ℕ) × Serves h q r × (r ≡ i ∷ q')
Serves (_ ∷ h) q q' = Serves h q q'

pub record Client : Type 0 where
  pub work_queue : List ℕ
  pub peers : List Peer

-- One completion at one of the peers, whose handler does not fault, and the queue calls of the handler.
pub data Move (sha1 : Bytes → Bytes) (ctx : TorrentContext) (c d : Client) : Type 0 where
  act :
      (front back : List Peer) (p p' : Peer) (e : Event) (calls : List Effect)
      → c.peers ≡ front ++ p ∷ back
      → d.peers ≡ front ++ p' ∷ back
      → step sha1 ctx p e ≡ ok p'
      → p'.history ≡ calls ++ p.history
      → Serves calls c.work_queue d.work_queue
      → Move sha1 ctx c d

pub data Reach (sha1 : Bytes → Bytes) (ctx : TorrentContext) (c : Client) : Client → Type 0 where
  here : Reach sha1 ctx c c
  next : {d e : Client} → Reach sha1 ctx c d → Move sha1 ctx d e → Reach sha1 ctx c e

abbrev pub count : ℕ → List ℕ → ℕ
count a [] = 0
count a (x ∷ xs) = one_if a x + count a xs

abbrev pub put_back : ℕ → List Effect → ℕ
put_back a [] = 0
put_back a (push_work i ∷ h) = one_if a i + put_back a h
put_back a (_ ∷ h) = put_back a h

-- How often piece `a` was reported complete.
abbrev pub completed : ℕ → List Effect → ℕ
completed a [] = 0
completed a (push_result (piece_complete c) ∷ h) = one_if a c.piece_index + completed a h
completed a (_ ∷ h) = completed a h

abbrev pub held_by_all : ℕ → List Peer → ℕ
held_by_all a [] = 0
held_by_all a (p ∷ ps) = held a p + held_by_all a ps

abbrev pub completed_by_all : ℕ → List Peer → ℕ
completed_by_all a [] = 0
completed_by_all a (p ∷ ps) = completed a p.history + completed_by_all a ps

-- The peers and the queue when the I/O context starts.
abbrev pub client_of : Connections → Client
client_of c = record { work_queue = c.work_queue; peers = c.peers }

-- The places of piece `a`: the queue, the peers that hold it, and its reports to the monitor.
abbrev pub places : ℕ → Client → ℕ
places a c = count a c.work_queue + held_by_all a c.peers + completed_by_all a c.peers
