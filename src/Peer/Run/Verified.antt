-- ===== src/Peer/Run/Verified.antt =====
-- `Peer` of src/peer.cpp: what is known of the pieces that are handed to the monitor.
use picotor.Base.{
  ℕ, ◌≡◌, refl, sym, ap, subst, ◌∙◌, true, List, [], ◌∷◌, Option, none, some, Bytes, length, ok,
  >>=-eq-ok, ok-injective, Bool-cases, Option-cases, inl, inr,
}
use picotor.Stream.{Junk}
use picotor.Common.Address.{Address}
use picotor.Common.Bitfield.{get}
use picotor.Common.Hash.{Hash, equals}
use picotor.Common.Hash.Laws.{equals_iff}
use picotor.Torrent.Block.{BlockStatus, accepted}
use picotor.Torrent.CompletePiece
use picotor.Torrent.CompletePiece.{CompletePiece}
use picotor.Torrent.Metainfo.{piece_hash}
use picotor.Torrent.Piece.{Piece, new_piece, next_block, accept, is_complete, finalize}
use picotor.Torrent.Piece.Finalize.{finalize-index, finalize-size}
use picotor.Message.Frame.{request, serialize}
use picotor.Result.{piece_complete, peer_connected, peer_dropped, TorrentContext}
use picotor.Peer.State.{
  Peer, Effect, connect, write_handshake, write_message, write_request, read, start_timer,
  close_socket, pop_work, push_work, push_result, emit, new_peer, release_block, release_piece,
  close,
}
use picotor.Peer.Download.{take_work, acquire, request_block, after_next}
use picotor.Peer.Download.Rule.{OnAcquired, HasRoom}
use picotor.Peer.Handlers.{settle, finish_piece, after_accept, handle_piece}
use picotor.Peer.Run.{Event, run}
use picotor.Peer.Run.Rule.{is_neutral, IsInvariant, run-kept, release_block-same}
use picotor.Peer.Run.Ownership.{next_block-same}

module _ (sha1 : Bytes → Bytes) (ctx : TorrentContext) where
  -- The piece has the hash that the metainfo file lists for its index, and the size of a piece.
  pub record Matches (c : CompletePiece) : Type 0 where
    pub size : c.size ≡ ctx.tor.piece_length
    pub whole : length c.bytes ≡ ctx.tor.piece_length
    pub hash : Hash
    pub digest : CompletePiece.hash sha1 c ≡ ok hash
    pub listed : piece_hash ctx.tor c.piece_index ≡ ok hash

  -- The piece in progress has no cached result, and the size that the torrent gives it.
  abbrev IsWhole : Option Piece → Type 0
  IsWhole none = Unit {0}
  IsWhole (some q) = (q.finalized ≡ none) × (q.piece_size ≡ ctx.tor.piece_length)

  abbrev pub AreVerified : List Effect → Type 0
  AreVerified [] = Unit {0}
  AreVerified (push_result (piece_complete c) ∷ h) = Matches c × AreVerified h
  AreVerified (_ ∷ h) = AreVerified h

  abbrev pub IsVerified : Peer → Type 0
  IsVerified p = IsWhole p.piece × AreVerified p.history

  emit-IsVerified :
      (e : Effect) (p : Peer) → is_neutral e ≡ true → IsVerified p → IsVerified (emit e p)
  emit-IsVerified (connect _ _) p n v = v
  emit-IsVerified (write_handshake _) p n v = v
  emit-IsVerified (write_message _) p n v = v
  emit-IsVerified (write_request _ _) p n v = v
  emit-IsVerified (read _ _) p n v = v
  emit-IsVerified (start_timer _ _) p n v = v
  emit-IsVerified close_socket p n v = v
  emit-IsVerified (pop_work _) p n v = v
  emit-IsVerified (push_work _) p n v = v
  emit-IsVerified (push_result (piece_complete _)) p n v = cc
  emit-IsVerified (push_result (peer_connected _)) p n v = v
  emit-IsVerified (push_result (peer_dropped _)) p n v = v

  release_piece-IsVerified : (p : Peer) → AreVerified p.history → IsVerified (release_piece p)
  unfolding release_piece
  release_piece-IsVerified p v = elim (Option-cases p.piece) [
    | inl idle ↦ rw (idle, release_piece) (subst IsWhole (sym idle) tt, v)
    | inr (q, busy) ↦ rw (busy, release_piece) (tt, v)
  ]

  close-IsVerified : (p : Peer) → AreVerified p.history → IsVerified (close p)
  unfolding close
  close-IsVerified p v = release_piece-IsVerified (record p { closed = true }) v

  take_work-IsVerified :
      (p : Peer) (offers : List ℕ)
      → IsVerified p
      → HasRoom p
      → OnAcquired IsVerified (take_work ctx p offers)
  unfolding take_work new_piece
  take_work-IsVerified p [] v room = v
  take_work-IsVerified p (index ∷ offers) (_, v) room =
      elim (Bool-cases (get p.available_pieces index)) [
        | inl has ↦ rw has (((refl, refl), v), refl, room)
        | inr lacks ↦ rw lacks (release_piece-IsVerified _ v)
      ]

  acquire-IsVerified : (p : Peer) → IsVerified p → HasRoom p → OnAcquired IsVerified (acquire ctx p)
  unfolding acquire
  acquire-IsVerified p v room = elim (Option-cases p.piece) [
    | inl idle ↦ rw (idle, acquire) (take_work-IsVerified p p.offers v room)
    | inr (q, busy) ↦ rw (busy, acquire) (v, busy, room)
  ]

  after_next-IsVerified :
      (q : Piece) (p : Peer) → IsVerified p → p.piece ≡ some q → IsVerified (after_next q p)
  after_next-IsVerified q p (o, v) busy =
      let (open_, size) : IsWhole (some q) = subst IsWhole busy o in
      let (_, same, same') = next_block-same p.store q in ((same' ∙ open_, same ∙ size), v)

  request_block-IsVerified :
      (q : Piece) (ptr : ℕ) (p r : Peer)
      → IsVerified p
      → request_block q ptr p ≡ ok r
      → IsVerified r
  unfolding request_block
  request_block-IsVerified q ptr p r v e =
      let (bytes, _, done) = >>=-eq-ok (serialize (request q (p.store.cell ptr))) _ e in
      subst IsVerified (ok-injective done) v

  settle-IsVerified :
      (hash expected : Hash) (done : CompletePiece) (q : Piece) (p : Peer)
      → done.size ≡ ctx.tor.piece_length
      → length done.bytes ≡ ctx.tor.piece_length
      → CompletePiece.hash sha1 done ≡ ok hash
      → piece_hash ctx.tor done.piece_index ≡ ok expected
      → AreVerified p.history
      → IsVerified (settle (equals hash expected) done q p)
  unfolding settle
  settle-IsVerified hash expected done q p size whole e listed v =
      elim (Bool-cases (equals hash expected)) [
        | inl same ↦
            let matches : Matches done = record {
              size = size;
              whole = whole;
              hash = hash;
              digest = e;
              listed = listed ∙ ap ok (sym ((equals_iff hash expected).0 same));
            } in
            rw same (tt, (matches, v))
        | inr other ↦ rw other (close-IsVerified (record p { piece = some q }) v)
      ]

  finish_piece-IsVerified :
      (junk : Junk) (q : Piece) (p p' : Peer)
      → p.piece ≡ some q
      → IsVerified p
      → finish_piece junk sha1 ctx q p ≡ ok p'
      → IsVerified p'
  unfolding finish_piece
  finish_piece-IsVerified junk q p p' at (o, v) e =
      let ((done, q'), e1, r1) = >>=-eq-ok (finalize junk p.store q) _ e in
      let (hash, e2, r2) = >>=-eq-ok (CompletePiece.hash sha1 done) _ r1 in
      let (expected, e3, r3) = >>=-eq-ok (piece_hash ctx.tor q.index) _ r2 in
      let (open_, size) : IsWhole (some q) = subst IsWhole at o in
      let (same, same', _) = finalize-index junk p.store q q' done open_ e1 in
      subst IsVerified (ok-injective r3) (
        settle-IsVerified hash expected done q' (record p { requests = [] }) (same' ∙ size)
          (finalize-size junk p.store q q' done open_ e1 ∙ size) e2
          (ap (piece_hash ctx.tor) same ∙ e3) v)

  after_accept-IsVerified :
      (junk : Junk) (q : Piece) (status : BlockStatus) (p p' : Peer)
      → p.piece ≡ some q
      → IsVerified p
      → after_accept junk sha1 ctx q status p ≡ ok p'
      → IsVerified p'
  unfolding after_accept
  after_accept-IsVerified junk q accepted p p' at v e = elim (Bool-cases (is_complete p.store q)) [
    | inl complete ↦ finish_piece-IsVerified junk q p p' at v (rw complete at e)
    | inr more ↦ subst IsVerified (ok-injective (rw more at e)) v
  ]
  after_accept-IsVerified junk q _ p p' at v e = subst IsVerified (ok-injective e) v

  IsVerified-same :
      (p p' : Peer) → p'.piece ≡ p.piece → p'.history ≡ p.history → IsVerified p → IsVerified p'
  IsVerified-same p p' piece history (o, v) =
      (subst IsWhole (sym piece) o, subst AreVerified (sym history) v)

  handle_piece-IsVerified :
      (junk : Junk) (payload : Bytes) (p p' : Peer)
      → IsVerified p
      → handle_piece junk sha1 ctx payload p ≡ ok p'
      → IsVerified p'
  unfolding handle_piece
  handle_piece-IsVerified junk payload p p' v e = elim (Option-cases p.piece) [
    | inl idle ↦ subst IsVerified (ok-injective (rw (idle, handle_piece) at e)) v
    | inr (q, busy) ↦
        let ((status, index), store) = accept junk p.store q payload in
        let next : Peer = record p { store = store } in
        let (same, kept, _) = release_block-same index next in
        after_accept-IsVerified junk q status (release_block index next) p' (same ∙ busy)
          (IsVerified-same next (release_block index next) same kept v)
          (rw (busy, handle_piece) at e)
  ]

  pub IsVerified-IsInvariant : IsInvariant sha1 ctx IsVerified
  IsVerified-IsInvariant = record {
    stable = record {
      plain = record {
        looks = λ p p' piece history offers fewer. IsVerified-same p p' piece history;
        emits = emit-IsVerified;
        gives_up = λ p v. release_piece-IsVerified p v.1;
      };
      handles = handle_piece-IsVerified;
      downloads = record {
        acquires = acquire-IsVerified;
        no_block = λ q p v at e. after_next-IsVerified q p v at;
        requests = λ q ptr p r v at room e asked.
            request_block-IsVerified (next_block p.store q).1 ptr (after_next q p) r
              (after_next-IsVerified q p v at) asked;
      };
    };
    loads = λ p offers v. v;
  }

-- In any run of a peer in which no handler faults, every piece that it hands to the monitor has the
-- hash that the metainfo file lists for its index, and the size of a piece of the torrent.
pub run-AreVerified :
    (sha1 : Bytes → Bytes) (ctx : TorrentContext) (addr : Address) (es : List Event) (p : Peer)
    → run sha1 ctx (new_peer addr) es ≡ ok p
    → AreVerified sha1 ctx p.history
unfolding new_peer
run-AreVerified sha1 ctx addr es p e =
    (run-kept sha1 ctx (IsVerified sha1 ctx) (IsVerified-IsInvariant sha1 ctx) (new_peer addr) p es
      (tt, tt) e).1
