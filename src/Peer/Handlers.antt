-- ===== src/Peer/Handlers.antt =====
-- The handlers of `Peer`. `failed` is `ec.failed()`. What they log is left out, but not what they read
-- to log it.
use picotor.Base.{
  ℕ, ◌+◌, Bool, true, false, [], Option, none, some, Bytes, length, if◌then◌else◌, ◌==◌, Outcome,
  ok, fault, empty_optional, ◌>>=◌,
}
use picotor.Stream.{Junk}
use picotor.Common.Words.{load32, swap32}
use picotor.Common.Bitfield.{copy_from}
use picotor.Common.Hash.{equals}
use picotor.Torrent.Block.{BlockStatus, accepted, block_index}
use picotor.Torrent.CompletePiece
use picotor.Torrent.CompletePiece.{CompletePiece}
use picotor.Torrent.Metainfo.{piece_hash}
use picotor.Torrent.Piece.{Piece, accept, is_complete, finalize}
use picotor.Message.Handshake
use picotor.Message.Kind
use picotor.Message.Kind.{MessageType}
use picotor.Message.Frame
use picotor.Message.Frame.{Message, interested, serialize}
use picotor.Result.{piece_complete, peer_connected, TorrentContext}
use picotor.Peer.State.{
  Peer, Effect, write_handshake, write_message, read, push_result, length_word, body, emit,
  release_block, release_piece, close,
}
use picotor.Peer.State
use picotor.Peer.Download.{async_download}

unfoldable pub async_handshake_write : TorrentContext → Bool → Peer → Peer
async_handshake_write ctx failed p =
    if failed then close p else emit (write_handshake ctx.handshake) p

unfoldable pub async_handshake_read : TorrentContext → Bool → Peer → Peer
async_handshake_read ctx failed p =
    if failed then close p else emit (read (length ctx.handshake) State.handshake) p

-- The size of a message's length word is 4.
unfoldable pub async_read_message : Peer → Peer
async_read_message p = emit (read 4 length_word) p

unfoldable pub async_next : Junk → Bool → Peer → Outcome Peer
async_next junk failed p = if failed then ok (close p) else (do
  let result = Handshake.parse junk p.recv_buffer
  let p' : Peer = record p { peer_id = result.peer_id }
  bytes ← serialize interested
  ok (
      async_read_message
        (emit (write_message bytes) (emit (push_result (peer_connected p.addr)) p'))))

unfoldable pub async_read_len : Bool → Peer → Peer
async_read_len failed p =
    let len = swap32 (load32 p.recv_buffer) in
    if failed then close p else if len == 0 then async_read_message p else emit (read len body) p

-- A piece that passes its hash check is handed to the monitor, and the peer is free for another. One
-- that fails drops the peer.
unfoldable pub settle : Bool → CompletePiece → Piece → Peer → Peer
settle true done q p = record (emit (push_result (piece_complete done)) p) { piece = none }
settle false done q p = close (record p { piece = some q })

-- A piece whose blocks are all there is put together and checked.
unfoldable pub finish_piece : Junk → (Bytes → Bytes) → TorrentContext → Piece → Peer → Outcome Peer
finish_piece junk sha1 ctx q p = do
  (done, q') ← finalize junk p.store q
  hash ← CompletePiece.hash sha1 done
  expected ← piece_hash ctx.tor q.index
  ok (settle (equals hash expected) done q' (record p { requests = [] }))

-- After `accept`: the slot of the block is free again, whatever the status.
unfoldable pub after_accept :
    Junk → (Bytes → Bytes) → TorrentContext → Piece → BlockStatus → Peer → Outcome Peer
after_accept junk sha1 ctx q accepted p =
    if is_complete p.store q then finish_piece junk sha1 ctx q p else ok p
after_accept junk sha1 ctx q _ p = ok p

unfoldable pub handle_piece : Junk → (Bytes → Bytes) → TorrentContext → Bytes → Peer → Outcome Peer
handle_piece junk sha1 ctx payload p = elim p.piece [
  | none ↦ ok p
  | some q ↦
      let ((status, index), store) = accept junk p.store q payload in
      after_accept junk sha1 ctx q status (release_block index (record p { store = store }))
]

-- The rounds of `async_download`: no piece of this torrent has more blocks than this.
unfoldable pub download_fuel : TorrentContext → ℕ
download_fuel ctx = ctx.tor.piece_length + 2

unfoldable pub dispatch :
    Junk → (Bytes → Bytes) → TorrentContext → MessageType → Bytes → Peer → Outcome Peer
dispatch junk sha1 ctx Kind.choke payload p = ok (record p { choked = true })
dispatch junk sha1 ctx Kind.unchoke payload p = ok (record p { choked = false })
dispatch junk sha1 ctx Kind.bitfield payload p =
    ok (record p { available_pieces = copy_from p.available_pieces payload })
dispatch junk sha1 ctx Kind.piece payload p = handle_piece junk sha1 ctx payload p
dispatch junk sha1 ctx _ payload p = ok p

-- A message of no known type returns at once: no further read is begun.
unfoldable pub handle_kind :
    Junk → (Bytes → Bytes) → TorrentContext → Option MessageType → Bytes → Peer → Outcome Peer
handle_kind junk sha1 ctx none payload p = ok p
handle_kind junk sha1 ctx (some t) payload p = do
  p1 ← dispatch junk sha1 ctx t payload p
  p2 ← async_download ctx (download_fuel ctx) p1
  ok (async_read_message p2)

unfoldable pub async_handle_message : Junk → (Bytes → Bytes) → TorrentContext → Peer → Outcome Peer
async_handle_message junk sha1 ctx p = do
  msg ← Frame.parse p.recv_buffer
  handle_kind junk sha1 ctx msg.kind msg.payload p

-- The completion handler of the read of a message body.
unfoldable pub body_read : Junk → (Bytes → Bytes) → TorrentContext → Bool → Peer → Outcome Peer
body_read junk sha1 ctx failed p =
    if failed then ok (release_piece p) else async_handle_message junk sha1 ctx p

-- The timer of a block.
unfoldable pub block_timeout : Bool → ℕ → Peer → Peer
block_timeout failed ptr p =
    if failed
    then p
    else if (p.store.cell ptr).filled
    then p
    else close (record p { closed = true })

-- The completion handler of the write of a request. Its log reads `piece_->index()`.
unfoldable pub request_written : Bool → ℕ → Peer → Outcome Peer
request_written failed ptr p =
    if failed
    then (elim p.piece [
      | none ↦ fault empty_optional
      | some q ↦ ok (release_block (block_index (p.store.cell ptr)) p)
    ])
    else ok p
