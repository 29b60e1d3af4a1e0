-- ===== src/Peer/Run/Pipeline.antt =====
-- `Peer` of src/peer.cpp: how many requests are outstanding.
use picotor.Base.{
  ℕ, ◌+◌, ◌≤◌, ◌≡◌, refl, ap, subst, Bool, true, false, List, [], ◌∷◌, arith, Bytes, length, ok,
  >>=-eq-ok, ok-injective, Bool-cases, Option-cases, inl, inr,
}
use picotor.Stream.{Junk}
use picotor.Common.Address.{Address}
use picotor.Common.Bitfield.{get}
use picotor.Common.Hash.{equals}
use picotor.Torrent.Block.{BlockStatus, accepted, block_index}
use picotor.Torrent.CompletePiece
use picotor.Torrent.CompletePiece.{CompletePiece}
use picotor.Torrent.Metainfo.{piece_hash}
use picotor.Torrent.Piece.{Piece, new_piece, next_block, accept, is_complete, finalize}
use picotor.Message.Frame.{request, serialize}
use picotor.Result.{TorrentContext}
use picotor.Peer.State.{
  Peer, lookup, emplace, new_peer, release_block, release_piece, close, pipeline_limit,
}
use picotor.Peer.Download.{take_work, acquire, request_block, after_next}
use picotor.Peer.Download.Rule.{OnAcquired, HasRoom}
use picotor.Peer.Handlers.{settle, finish_piece, after_accept, handle_piece}
use picotor.Peer.Run.{Event, run}
use picotor.Peer.Run.Rule.{IsInvariant, run-kept, release_block-same}

abbrev pub IsWithin : Peer → Type 0
IsWithin p = length p.requests ≤ pipeline_limit

length-emplace : (k v : ℕ) (m : List (ℕ × ℕ)) → length (emplace k v m) ≤ length m + 1
unfolding emplace
length-emplace k v m = elim (Option-cases (lookup k m)) [
  | inl absent ↦ rw (absent, emplace) (omega arith)
  | inr (w, present) ↦ rw (present, emplace) (omega arith)
]

release_piece-requests : (p : Peer) → (release_piece p).requests ≡ p.requests
unfolding release_piece
release_piece-requests p = elim (Option-cases p.piece) [
  | inl idle ↦ rw (idle, release_piece) refl
  | inr (q, busy) ↦ rw (busy, release_piece) refl
]

release_piece-IsWithin : (p : Peer) → IsWithin p → IsWithin (release_piece p)
release_piece-IsWithin p v = omega (arith, v, ap length (release_piece-requests p))

take_work-IsWithin :
    (ctx : TorrentContext) (p : Peer) (offers : List ℕ)
    → IsWithin p
    → HasRoom p
    → OnAcquired IsWithin (take_work ctx p offers)
unfolding take_work new_piece
take_work-IsWithin ctx p [] v room = v
take_work-IsWithin ctx p (index ∷ offers) v room =
    elim (Bool-cases (get p.available_pieces index)) [
      | inl has ↦ rw has (v, refl, room)
      | inr lacks ↦ rw lacks (release_piece-IsWithin _ v)
    ]

acquire-IsWithin :
    (ctx : TorrentContext) (p : Peer) → IsWithin p → HasRoom p → OnAcquired IsWithin (acquire ctx p)
unfolding acquire
acquire-IsWithin ctx p v room = elim (Option-cases p.piece) [
  | inl idle ↦ rw (idle, acquire) (take_work-IsWithin ctx p p.offers v room)
  | inr (q, busy) ↦ rw (busy, acquire) (v, busy, room)
]

request_block-IsWithin :
    (q : Piece) (ptr : ℕ) (p r : Peer) → HasRoom p → request_block q ptr p ≡ ok r → IsWithin r
unfolding request_block
request_block-IsWithin q ptr p r room e =
    let (bytes, _, done) = >>=-eq-ok (serialize (request q (p.store.cell ptr))) _ e in
    subst IsWithin (ok-injective done)
      (omega (arith, room, length-emplace (block_index (p.store.cell ptr)) ptr p.requests))

settle-IsWithin :
    (b : Bool) (done : CompletePiece) (q : Piece) (p : Peer)
    → IsWithin p
    → IsWithin (settle b done q p)
unfolding settle close
settle-IsWithin true done q p v = v
settle-IsWithin false done q p v = release_piece-IsWithin _ v

module _ (sha1 : Bytes → Bytes) (ctx : TorrentContext) where
  after_accept-IsWithin :
      (junk : Junk) (q : Piece) (status : BlockStatus) (p p' : Peer)
      → IsWithin p
      → after_accept junk sha1 ctx q status p ≡ ok p'
      → IsWithin p'
  unfolding after_accept finish_piece
  after_accept-IsWithin junk q accepted p p' v e = elim (Bool-cases (is_complete p.store q)) [
    | inr more ↦ subst IsWithin (ok-injective (rw more at e)) v
    | inl complete ↦
        let ((done, q'), _, r1) = >>=-eq-ok (finalize junk p.store q) _ (rw complete at e) in
        let (hash, _, r2) = >>=-eq-ok (CompletePiece.hash sha1 done) _ r1 in
        let (expected, _, r3) = >>=-eq-ok (piece_hash ctx.tor q.index) _ r2 in
        subst IsWithin (ok-injective r3) (
          settle-IsWithin (equals hash expected) done q' (record p { requests = [] }) (omega arith))
  ]
  after_accept-IsWithin junk q _ p p' v e = subst IsWithin (ok-injective e) v

  handle_piece-IsWithin :
      (junk : Junk) (payload : Bytes) (p p' : Peer)
      → IsWithin p
      → handle_piece junk sha1 ctx payload p ≡ ok p'
      → IsWithin p'
  unfolding handle_piece
  handle_piece-IsWithin junk payload p p' v e = elim (Option-cases p.piece) [
    | inl idle ↦ subst IsWithin (ok-injective (rw (idle, handle_piece) at e)) v
    | inr (q, busy) ↦
        let ((status, index), store) = accept junk p.store q payload in
        let next : Peer = record p { store = store } in
        let (_, _, fewer) = release_block-same index next in
        after_accept-IsWithin junk q status (release_block index next) p' (omega (arith, fewer, v))
          (rw (busy, handle_piece) at e)
  ]

  IsWithin-IsInvariant : IsInvariant sha1 ctx IsWithin
  IsWithin-IsInvariant = record {
    stable = record {
      plain = record {
        looks = λ p p' piece history offers fewer v. omega (arith, fewer, v);
        emits = λ e p n v. v;
        gives_up = release_piece-IsWithin;
      };
      handles = handle_piece-IsWithin;
      downloads = record {
        acquires = acquire-IsWithin ctx;
        no_block = λ q p v at e. v;
        requests = λ q ptr p r v at room e asked.
            request_block-IsWithin (next_block p.store q).1 ptr (after_next q p) r room asked;
      };
    };
    loads = λ p offers v. v;
  }

-- In any run of a peer in which no handler faults, `blocks_`, the map of the blocks that the peer knows
-- to be requested, never has more entries than the pipeline limit allows.
pub run-IsWithin :
    (sha1 : Bytes → Bytes) (ctx : TorrentContext) (addr : Address) (es : List Event) (p : Peer)
    → run sha1 ctx (new_peer addr) es ≡ ok p
    → length p.requests ≤ pipeline_limit
unfolding new_peer
run-IsWithin sha1 ctx addr es p e =
    run-kept sha1 ctx IsWithin (IsWithin-IsInvariant sha1 ctx) (new_peer addr) p es (omega arith) e
