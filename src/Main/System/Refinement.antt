-- ===== src/Main/System/Refinement.antt =====
-- src/main.cpp with src/peer.cpp: the client as a protocol of ownership. Each piece is in one place, and
-- only the one that owns it moves it on.
pub mod Holder
pub mod View
pub mod Protocol
pub mod Complete
use picotor.Base.{
  ℕ, suc, ◌+◌, ◌<◌, ◌≡◌, refl, sym, ap, subst, ◌∙◌, true, List, [], ◌∷◌, ◌++◌, Option, none, some,
  arith, Bytes, length, ltb, if◌then◌else◌, ◌⊎◌, ◌↔◌, inl, inr, Bool-cases, Option-cases, ltb→lt,
  ltb→le,
}
use mathlib.Core.Option
use mathlib.Core.Option.{none-ne-some}
use picotor.Monitor.{complete}
use picotor.Monitor.Missing.{has_of_is_empty, is_empty_of_none}
use picotor.Torrent.Metainfo.{SingleFileTorrent, pieces}
use picotor.Torrent.Tracker.{TrackerResponse}
use picotor.Result.{Result, TorrentContext}
use picotor.Peer.State.{Peer}
use picotor.Peer.Run.Ownership.{held}
use picotor.Main.{start_connections}
use picotor.Main.Client.{Move, act, count, held_by_all, completed}
use picotor.Main.System.{
  System, pushed, calls_of, mover, Tick, handle, deliver, Trace, system_of, waiting, pending,
}
use picotor.Main.System.Places.Waiting.{waiting_append, waiting-pushed}
use picotor.Main.System.Places.Accounted.{written, Trace-AreBalanced, Trace-IsAccounted}
use picotor.Main.System.Places.{one_place}
use picotor.Peer.Run.Conservation.{step-IsBalanced}
use picotor.Main.Client.Counts.{completed_append}
use picotor.Main.Client.Conservation.{AreBalanced, AreBalanced-at, exchange, count-push_all}

-- The abstract view of a piece: it waits for a peer, is being fetched by the peer with a number, waits for
-- the monitor, or is stored: it was visited.
pub data Place : Type 0 where
  queued : Place
  taken : (k : ℕ) → Place
  reported : Place
  stored : Place

pub data Actor : Type 0 where
  peer : (k : ℕ) → Actor
  monitor : Actor

-- What an actor may do with a piece.
pub data Leads : Actor → Place → Place → Type 0 where
  take_up : {k : ℕ} → Leads (peer k) queued (taken k)
  put_down : {k : ℕ} → Leads (peer k) (taken k) queued
  report : {k : ℕ} → Leads (peer k) (taken k) reported
  store : Leads monitor reported stored

pub data Runs (who : Actor) (x : Place) : Place → Type 0 where
  stay : Runs who x x
  go : {y z : Place} → Runs who x y → Leads who y z → Runs who x z

-- The number of the first peer that holds piece `a`.
unfoldable pub holder : ℕ → List Peer → Option ℕ
holder a [] = none
holder a (p ∷ ps) =
    let rest = holder a ps in if ltb 0 (held a p) then some 0 else Option.map suc rest

abbrev pub place_of : ℕ → Option ℕ → ℕ → Place
place_of c (some k) w = if ltb 0 c then queued else taken k
place_of c none w = if ltb 0 c then queued else if ltb 0 w then reported else stored

unfoldable pub place : System → ℕ → Place
place s a =
    place_of (count a s.client.work_queue) (holder a s.client.peers) (waiting a s.result_queue)
