-- ===== src/Main/System.antt =====
-- src/main.cpp with src/peer.cpp: the client and the monitor at work, over the two queues between them.
pub mod Places
pub mod Integrity
pub mod Refinement
pub mod Progress
pub mod Enabled
pub mod OnDisk
pub mod Freed
pub mod Orderly
pub mod Download
use picotor.Base.{ℕ, ◌+◌, ◌≡◌, Bool, true, false, List, [], ◌∷◌, ◌++◌, Bytes, length}
use picotor.Result.{Result, piece_complete, TorrentContext}
use picotor.Peer.State.{Effect, push_result}
use picotor.Peer.Run.{Event}
use picotor.Peer.Run.Ownership.{one_if}
use picotor.Monitor.{Monitor, complete, visit}
use picotor.Monitor.Missing.{has}
use picotor.Main.{Connections}
use picotor.Main.Client.{Client, Move, act, client_of, count, held_by_all}

-- The peers with the work queue, the results that wait for the monitor, the oldest first, and the monitor.
pub record System : Type 0 where
  pub client : Client
  pub result_queue : List Result
  pub monitor : Monitor

-- What the calls of one handler, the newest first, push into the queue of the results.
unfoldable pub pushed : List Effect → List Result
pushed [] = []
pushed (push_result r ∷ h) = pushed h ++ r ∷ []
pushed (_ ∷ h) = pushed h

module _ {sha1 : Bytes → Bytes} {ctx : TorrentContext} {c d : Client} where
  abbrev pub calls_of : Move sha1 ctx c d → List Effect
  calls_of (act front back p p' e calls before after done grown served) = calls

  abbrev pub event_of : Move sha1 ctx c d → Event
  event_of (act front back p p' e calls before after done grown served) = e

  -- The number of the peer that handles the completion.
  abbrev pub mover : Move sha1 ctx c d → ℕ
  mover (act front back p p' e calls before after done grown served) = length front

-- Either a completion is handled at one of the peers, on the thread of the I/O context, or the thread of
-- the monitor pops a result and visits it at the given time, which it does only while a piece is
-- missing. A result that is popped while the handler that pushed it still runs is one that is popped
-- after it, since no handler reads that queue or the monitor.
pub data Tick (sha1 : Bytes → Bytes) (ctx : TorrentContext) (s t : System) : Type 0 where
  handle :
      (m : Move sha1 ctx s.client t.client)
      → t.result_queue ≡ s.result_queue ++ pushed (calls_of m)
      → t.monitor ≡ s.monitor
      → Tick sha1 ctx s t
  deliver :
      (clock : ℕ) (r : Result)
      → complete s.monitor ≡ false
      → s.result_queue ≡ r ∷ t.result_queue
      → t.monitor ≡ visit clock r s.monitor
      → t.client ≡ s.client
      → Tick sha1 ctx s t

pub data Trace (sha1 : Bytes → Bytes) (ctx : TorrentContext) (s : System) : System → Type 0 where
  here : Trace sha1 ctx s s
  next : {t u : System} → Trace sha1 ctx s t → Tick sha1 ctx t u → Trace sha1 ctx s u

-- What `start_run_connections` has made when both threads begin.
abbrev pub system_of : Connections → System
system_of c = record { client = client_of c; result_queue = []; monitor = c.monitor }

-- How many reports of piece `a` wait for the monitor.
abbrev pub waiting : ℕ → List Result → ℕ
waiting a [] = 0
waiting a (piece_complete c ∷ rs) = one_if a c.piece_index + waiting a rs
waiting a (_ ∷ rs) = waiting a rs

-- How often piece `a` is in the work queue, at a peer or among the waiting reports.
abbrev pub pending : ℕ → System → ℕ
pending a s = count a s.client.work_queue + held_by_all a s.client.peers + waiting a s.result_queue
