-- ===== src/Peer/Download.antt =====
-- `Peer::async_download`: requests for blocks until the pipeline is full.
pub mod Rule
pub mod Fuel
pub mod Stops
use picotor.Base.{
  ℕ, zero, suc, ◌+◌, ◌≤◌, ◌<◌, ◌≡◌, refl, Bool, true, false, not, ◌||◌, List, [], ◌∷◌, Option, none,
  some, arith, Bytes, length, if◌then◌else◌, ltb, ◌==◌, Outcome, ok, fault, out_of_fuel, ◌>>=◌,
}
use picotor.Common.Bitfield.{get, size}
use picotor.Torrent.Block.{Block, Store, block_index}
use picotor.Torrent.Piece.{Piece, new_piece, is_complete, next_block}
use picotor.Message.Frame.{request, serialize}
use picotor.Result.{TorrentContext}
use picotor.Peer.State.{
  Peer, Effect, pop_work, start_timer, write_request, emit, emplace, release_piece, pipeline_limit,
  timeout_ms,
}

-- The loop goes on with a piece, or the function returns.
pub data Acquired : Type 0 where
  stopped : Peer → Acquired
  holding : Piece → Peer → Acquired

-- The call of `work_queue->pop`, and the check that the peer has the piece.
unfoldable pub take_work : TorrentContext → Peer → List ℕ → Acquired
take_work ctx p [] = stopped p
take_work ctx p (index ∷ rest) =
    let q = new_piece index ctx.tor.piece_length in
    let p' : Peer = emit (pop_work index) (record p { offers = rest; piece = some q }) in
    if get p.available_pieces index then holding q p' else stopped (release_piece p')

unfoldable pub acquire : TorrentContext → Peer → Acquired
acquire ctx p = elim p.piece [ some q ↦ holding q p | none ↦ take_work ctx p p.offers ]

-- A block that was reserved is entered into the map, timed and asked for.
unfoldable pub request_block : Piece → ℕ → Peer → Outcome Peer
request_block q ptr p = do
  let b = p.store.cell ptr
  bytes ← serialize (request q b)
  let p' = record p { requests = emplace (block_index b) ptr p.requests }
  ok (emit (write_request bytes ptr) (emit (start_timer timeout_ms ptr) p'))

-- The peer after `piece_->next_block()`.
abbrev pub after_next : Piece → Peer → Peer
after_next q p = record p {
  piece = some (next_block p.store q).1;
  store = (next_block p.store q).2;
}

-- The rest of a round, with the block that was found; `again` is the next round.
unfoldable pub request_next : (Peer → Outcome Peer) → Piece → Peer → Option ℕ → Outcome Peer
request_next again q p none = ok p
request_next again q p (some ptr) = do p' ← request_block q ptr p; again p'

-- There is no point in starting a block for a complete piece.
unfoldable pub download_from : (Peer → Outcome Peer) → Acquired → Outcome Peer
download_from again (stopped p) = ok p
download_from again (holding q p) =
    if is_complete p.store q
    then ok p
    else request_next again (next_block p.store q).1 (after_next q p) (next_block p.store q).0

unfoldable pub async_download : TorrentContext → ℕ → Peer → Outcome Peer
async_download ctx zero p = fault out_of_fuel
async_download ctx (suc f) p =
    if ltb (length p.requests) pipeline_limit
    then (if p.choked || size p.available_pieces == 0
        then ok p
        else download_from (async_download ctx f) (acquire ctx p))
    else ok p
