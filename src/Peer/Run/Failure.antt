-- ===== src/Peer/Run/Failure.antt =====
-- `Peer` of src/peer.cpp: how a peer is given up.
use picotor.Base.{
  ◌≡◌, refl, Bool, true, false, not, ◌&&◌, List, [], ◌∷◌, ◌++◌, Option, none, some, Bytes, ok,
  Option-cases, Bool-cases, inl, inr,
}
use picotor.Torrent.Piece.{Piece}
use picotor.Result.{peer_dropped, TorrentContext}
use picotor.Peer.State.{Peer, Effect, close_socket, push_work, push_result, release_piece, close}
use picotor.Peer.Handlers.{
  async_handshake_write, async_handshake_read, async_next, async_read_len, block_timeout,
}
use picotor.Peer.Run.{
  Event, connected, handshake_written, handshake_read, length_read, body_done, timer_expired,
  request_done, step,
}

-- The connection, the handshake or the read of a length failed, or a block has not come in time.
abbrev pub is_fatal : Peer → Event → Bool
is_fatal p (connected failed) = failed
is_fatal p (handshake_written failed) = failed
is_fatal p (handshake_read junk failed buffer) = failed
is_fatal p (length_read failed buffer) = failed
is_fatal p (timer_expired failed block) = not failed && not (p.store.cell block).filled
is_fatal p (body_done junk failed buffer offers) = false
is_fatal p (request_done failed block) = false

abbrev pub returned : Option Piece → List Effect
returned none = []
returned (some q) = push_work q.index ∷ []

-- The piece in progress goes back into the work queue, and then the socket is closed and the monitor
-- told, once.
abbrev pub IsDropped : Peer → Peer → Type 0
IsDropped p r =
    (r.closed ≡ true)
    × (r.piece ≡ none)
    × (r.history
        ≡ push_result (peer_dropped p.addr) ∷ close_socket ∷ (returned p.piece ++ p.history))

close-IsDropped :
    (p q : Peer)
    → q.addr ≡ p.addr
    → q.piece ≡ p.piece
    → q.history ≡ p.history
    → IsDropped p (close q)
unfolding close release_piece
close-IsDropped p q a e h = elim (Option-cases p.piece) [
  | inl idle ↦ rw (a, e, h, idle) (refl, refl, refl)
  | inr (x, busy) ↦ rw (a, e, h, busy) (refl, refl, refl)
]

-- Whatever a peer is doing, a connection, handshake or length that fails, or a block that is late,
-- succeeds in giving the peer up: it is closed, has no piece, and has made just the calls for it.
pub step-IsDropped :
    (sha1 : Bytes → Bytes) (ctx : TorrentContext) (p : Peer) (e : Event)
    → is_fatal p e ≡ true
    → (r : Peer) × (step sha1 ctx p e ≡ ok r) × IsDropped p r
unfolding step async_handshake_write async_handshake_read async_next async_read_len block_timeout
step-IsDropped sha1 ctx p (connected true) f = (_, refl, close-IsDropped p p refl refl refl)
step-IsDropped sha1 ctx p (handshake_written true) f = (_, refl, close-IsDropped p p refl refl refl)
step-IsDropped sha1 ctx p (handshake_read junk true buffer) f =
    (_, refl, close-IsDropped p (record p { recv_buffer = buffer }) refl refl refl)
step-IsDropped sha1 ctx p (length_read true buffer) f =
    (_, refl, close-IsDropped p (record p { recv_buffer = buffer }) refl refl refl)
step-IsDropped sha1 ctx p (timer_expired false block) f =
    elim (Bool-cases (p.store.cell block).filled) [
      | inl got ↦ cc
      | inr late ↦ rw late (_, refl, close-IsDropped p (record p { closed = true }) refl refl refl)
    ]
step-IsDropped sha1 ctx p (connected false) f = cc
step-IsDropped sha1 ctx p (handshake_written false) f = cc
step-IsDropped sha1 ctx p (handshake_read junk false buffer) f = cc
step-IsDropped sha1 ctx p (length_read false buffer) f = cc
step-IsDropped sha1 ctx p (timer_expired true block) f = cc
step-IsDropped sha1 ctx p (body_done junk failed buffer offers) f = cc
step-IsDropped sha1 ctx p (request_done failed block) f = cc
