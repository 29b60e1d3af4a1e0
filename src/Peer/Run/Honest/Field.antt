-- ===== src/Peer/Run/Honest/Field.antt =====
-- `Peer` of src/peer.cpp: an answer does not change which pieces the peer is known to have.
use picotor.Base.{
  ℕ, ◌≡◌, refl, subst, Bool, true, false, List, [], ◌∷◌, some, Bytes, ok, >>=-eq-ok, ok-injective,
  Bool-cases, Option-cases, inl, inr, arith,
}
use picotor.Stream.{Junk}
use picotor.Common.Bitfield.{Bitfield, get}
use picotor.Common.Hash.{equals}
use picotor.Torrent.Block.{BlockStatus, accepted}
use picotor.Torrent.CompletePiece
use picotor.Torrent.CompletePiece.{CompletePiece}
use picotor.Torrent.Metainfo.{piece_hash}
use picotor.Torrent.Piece.{Piece, accept, is_complete, finalize, next_block}
use picotor.Message.Frame.{request, serialize}
use picotor.Result.{TorrentContext}
use picotor.Peer.State.{Peer, release_block, release_piece, close}
use picotor.Peer.Download.{take_work, acquire, request_block}
use picotor.Peer.Download.Rule.{OnAcquired, HasRoom, IsKept}
use picotor.Peer.Handlers.{settle, finish_piece, after_accept, handle_piece}

module _ (field : Bitfield) (choked : Bool) where
  abbrev pub HasField : Peer → Type 0
  HasField p = (p.available_pieces ≡ field) × (p.choked ≡ choked)

  release_piece-HasField : (p : Peer) → HasField p → HasField (release_piece p)
  unfolding release_piece
  release_piece-HasField p v = elim (Option-cases p.piece) [
    | inl idle ↦ rw (idle, release_piece) v
    | inr (q, busy) ↦ rw (busy, release_piece) v
  ]

  settle-HasField :
      (b : Bool) (done : CompletePiece) (q : Piece) (p : Peer)
      → HasField p
      → HasField (settle b done q p)
  unfolding settle close
  settle-HasField true done q p v = v
  settle-HasField false done q p v =
      release_piece-HasField (record p { closed = true; piece = some q }) v

  release_block-HasField : (i : ℕ) (p : Peer) → HasField p → HasField (release_block i p)
  unfolding release_block
  release_block-HasField i p v = ground arith

  module _ (sha1 : Bytes → Bytes) (ctx : TorrentContext) where
    after_accept-HasField :
        (junk : Junk) (q : Piece) (status : BlockStatus) (p p' : Peer)
        → HasField p
        → after_accept junk sha1 ctx q status p ≡ ok p'
        → HasField p'
    unfolding after_accept finish_piece
    after_accept-HasField junk q accepted p p' v e = elim (Bool-cases (is_complete p.store q)) [
      | inl complete ↦
          let ((done, q'), _, r1) = >>=-eq-ok (finalize junk p.store q) _ (rw complete at e) in
          let (hash, _, r2) = >>=-eq-ok (CompletePiece.hash sha1 done) _ r1 in
          let (expected, _, r3) = >>=-eq-ok (piece_hash ctx.tor q.index) _ r2 in
          subst HasField (ok-injective r3)
            (settle-HasField (equals hash expected) done q' (record p { requests = [] }) v)
      | inr more ↦ subst HasField (ok-injective (rw more at e)) v
    ]
    after_accept-HasField junk q _ p p' v e = subst HasField (ok-injective e) v

    pub handle_piece-HasField :
        (junk : Junk) (payload : Bytes) (p p' : Peer)
        → HasField p
        → handle_piece junk sha1 ctx payload p ≡ ok p'
        → HasField p'
    unfolding handle_piece
    handle_piece-HasField junk payload p p' v e = elim (Option-cases p.piece) [
      | inl idle ↦ subst HasField (ok-injective (rw (idle, handle_piece) at e)) v
      | inr (q, busy) ↦
          let ((status, index), store) = accept junk p.store q payload in
          let next : Peer = record p { store = store } in
          after_accept-HasField junk q status (release_block index next) p'
            (release_block-HasField index next v) (rw (busy, handle_piece) at e)
    ]

    take_work-HasField :
        (p : Peer) (offers : List ℕ)
        → HasField p
        → HasRoom p
        → OnAcquired HasField (take_work ctx p offers)
    unfolding take_work
    take_work-HasField p [] v room = v
    take_work-HasField p (index ∷ offers) v room =
        elim (Bool-cases (get p.available_pieces index)) [
          | inl has ↦ rw has (v, refl, room)
          | inr lacks ↦ rw lacks (release_piece-HasField _ v)
        ]

    acquire-HasField : (p : Peer) → HasField p → HasRoom p → OnAcquired HasField (acquire ctx p)
    unfolding acquire
    acquire-HasField p v room = elim (Option-cases p.piece) [
      | inl idle ↦ rw (idle, acquire) (take_work-HasField p p.offers v room)
      | inr (x, busy) ↦ rw (busy, acquire) (v, busy, room)
    ]

    pub HasField-kept : IsKept ctx HasField
    unfolding request_block
    HasField-kept = record {
      acquires = acquire-HasField;
      no_block = λ q p v at e. v;
      requests = λ q ptr p p' v at room e asked.
          let (bytes, _, done) =
            >>=-eq-ok
              (serialize (request (next_block p.store q).1 ((next_block p.store q).2.cell ptr))) _
              asked in
          subst HasField (ok-injective done) v;
    }
