-- ===== src/Peer/Run/Safety.antt =====
-- `Peer` of src/peer.cpp: when no handler throws, fails an assertion or leaves its memory.
use picotor.Base.{
  ◌<◌, ◌≡◌, refl, Bool, true, false, List, [], ◌∷◌, arith, Bytes, All, length, ◌==◌, ok, Bool-cases,
  inl, inr,
}
use picotor.Stream.{Junk}
use picotor.Common.Address.{Address}
use picotor.Common.Words.{load32, swap32}
use picotor.Torrent.Block.{new_block}
use picotor.Message.Frame.{interested, serialize}
use picotor.Result.{TorrentContext}
use picotor.Peer.State.{Peer, new_peer}
use picotor.Peer.Handlers.{
  async_handshake_write, async_handshake_read, async_read_message, async_next, async_read_len,
  async_handle_message, body_read, block_timeout, request_written,
}
use picotor.Peer.Run.{
  Event, connected, handshake_written, handshake_read, length_read, body_done, timer_expired,
  request_done, step, run,
}
use picotor.Peer.Run.Safe.{IsSafe, release_piece-IsSafe, close-IsSafe}
use picotor.Peer.Run.Handling.{IsRegular, IsExpected, parse-ok, Succeeds, handle_kind-Succeeds}

module _ (sha1 : Bytes → Bytes) (ctx : TorrentContext) (g : IsRegular sha1 ctx) where
  body_read-Succeeds :
      (junk : Junk) (failed : Bool) (p : Peer)
      → 0 < length p.recv_buffer
      → IsSafe ctx p
      → Succeeds sha1 ctx g (body_read junk sha1 ctx failed p)
  unfolding body_read async_handle_message
  body_read-Succeeds junk true p full (s, v, w) = (_, refl, release_piece-IsSafe ctx p v w)
  body_read-Succeeds junk false p full v =
      let (m, e) = parse-ok p.recv_buffer full in
      rw (e, async_handle_message) (handle_kind-Succeeds sha1 ctx g junk m.kind m.payload p v)

  pub step-Succeeds :
      (p : Peer) (e : Event)
      → IsExpected ctx e
      → IsSafe ctx p
      → Succeeds sha1 ctx g (step sha1 ctx p e)
  unfolding step async_handshake_write async_handshake_read async_next async_read_len
      async_read_message block_timeout request_written interested serialize
  step-Succeeds p (connected true) x (s, v, w) = (_, refl, close-IsSafe ctx p v w)
  step-Succeeds p (connected false) x v = (_, refl, v)
  step-Succeeds p (handshake_written true) x (s, v, w) = (_, refl, close-IsSafe ctx p v w)
  step-Succeeds p (handshake_written false) x v = (_, refl, v)
  step-Succeeds p (handshake_read junk true buffer) x (s, v, w) =
      (_, refl, close-IsSafe ctx (record p { recv_buffer = buffer }) v w)
  step-Succeeds p (handshake_read junk false buffer) x v = (_, refl, v)
  step-Succeeds p (length_read true buffer) x (s, v, w) =
      (_, refl, close-IsSafe ctx (record p { recv_buffer = buffer }) v w)
  step-Succeeds p (length_read false buffer) x v = elim (Bool-cases (swap32 (load32 buffer) == 0)) [
    | inl alive ↦ rw alive (_, refl, v)
    | inr more ↦ rw more (_, refl, v)
  ]
  step-Succeeds p (body_done junk failed buffer offers) (full, known) (s, v, _) =
      body_read-Succeeds junk failed (record p { recv_buffer = buffer; offers = offers }) full
        (s, v, known)
  step-Succeeds p (timer_expired true block) x v = (_, refl, v)
  step-Succeeds p (timer_expired false block) x (s, v, w) =
      elim (Bool-cases (p.store.cell block).filled) [
        | inl got ↦ rw got (_, refl, (s, v, w))
        | inr late ↦ rw late (_, refl, close-IsSafe ctx (record p { closed = true }) v w)
      ]
  step-Succeeds p (request_done false block) x v = (_, refl, v)
  step-Succeeds p (request_done true block) x v = cc

  run-Succeeds :
      (p : Peer) (es : List Event)
      → All (IsExpected ctx) es
      → IsSafe ctx p
      → Succeeds sha1 ctx g (run sha1 ctx p es)
  unfolding run
  run-Succeeds p [] x v = (p, refl, v)
  run-Succeeds p (e ∷ es) (x, xs) v =
      let (q, first, w) = step-Succeeds p e x v in rw first (run-Succeeds q es xs w)

-- For a torrent whose pieces are whole blocks, and a SHA-1 that gives digests: over any sequence of
-- completions, in any order and with any bytes in the buffers, no handler of a peer faults and each
-- returns, if no body is empty, the work queue gives out pieces of the torrent, and no request fails to
-- be written.
pub run-IsOk :
    (sha1 : Bytes → Bytes) (ctx : TorrentContext) (addr : Address) (es : List Event)
    → IsRegular sha1 ctx
    → All (IsExpected ctx) es
    → (p : Peer) × (run sha1 ctx (new_peer addr) es ≡ ok p)
unfolding new_peer new_block
run-IsOk sha1 ctx addr es g x =
    let (p, e, _) = run-Succeeds sha1 ctx g (new_peer addr) es x (tt, (λ ptr. omega arith), tt) in
    (p, e)
