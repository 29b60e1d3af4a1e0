-- ===== src/Peer/Run.antt =====
-- Completions as events, and what a peer does over any sequence of them.
pub mod Rule
pub mod Ownership
pub mod Conservation
pub mod Verified
pub mod Pipeline
pub mod Safe
pub mod Handling
pub mod Safety
pub mod Failure
pub mod Genuine
pub mod Orderly
pub mod Honest
use picotor.Base.{ℕ, Bool, List, [], ◌∷◌, Bytes, Outcome, ok, ◌>>=◌}
use picotor.Stream.{Junk}
use picotor.Result.{TorrentContext}
use picotor.Peer.State.{Peer}
use picotor.Peer.Handlers.{
  async_handshake_write, async_handshake_read, async_next, async_read_len, body_read, block_timeout,
  request_written,
}

-- An operation of the I/O context completes, with success or failure. A read hands over what it put
-- into the buffer. The handler of a body is the one that calls `work_queue->pop`: `offers` is what
-- those calls return. `junk` is what the handler's uninitialised memory holds.
pub data Event : Type 0 where
  connected : (failed : Bool) → Event
  handshake_written : (failed : Bool) → Event
  handshake_read : (junk : Junk) (failed : Bool) (buffer : Bytes) → Event
  length_read : (failed : Bool) (buffer : Bytes) → Event
  body_done : (junk : Junk) (failed : Bool) (buffer : Bytes) (offers : List ℕ) → Event
  timer_expired : (failed : Bool) (block : ℕ) → Event
  request_done : (failed : Bool) (block : ℕ) → Event

module _ (sha1 : Bytes → Bytes) (ctx : TorrentContext) where
  unfoldable pub step : Peer → Event → Outcome Peer
  step p (connected failed) = ok (async_handshake_write ctx failed p)
  step p (handshake_written failed) = ok (async_handshake_read ctx failed p)
  step p (handshake_read junk failed buffer) =
      async_next junk failed (record p { recv_buffer = buffer })
  step p (length_read failed buffer) =
      ok (async_read_len failed (record p { recv_buffer = buffer }))
  step p (body_done junk failed buffer offers) =
      body_read junk sha1 ctx failed (record p { recv_buffer = buffer; offers = offers })
  step p (timer_expired failed block) = ok (block_timeout failed block p)
  step p (request_done failed block) = request_written failed block p

  unfoldable pub run : Peer → List Event → Outcome Peer
  run p [] = ok p
  run p (e ∷ es) = do q ← step p e; run q es
