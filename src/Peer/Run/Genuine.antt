-- ===== src/Peer/Run/Genuine.antt =====
-- `Peer::handle_piece` of src/peer.cpp: the last block of a genuine piece.
use picotor.Base.{
  ℕ, ◌/◌, ◌<◌, ◌≡◌, refl, ap, ◌∙◌, true, List, [], ◌∷◌, none, some, arith, Bytes, length, take,
  take-all, ok, Option-cases, inl, inr,
}
use picotor.Stream.{Junk}
use picotor.Common.Words.{u32_mod}
use picotor.Common.Hash.{Hash, equals}
use picotor.Common.Hash
use picotor.Common.Hash.Laws.{equals_iff}
use picotor.Torrent.Block.{block_size, accepted, Store, write, release}
use picotor.Torrent.CompletePiece
use picotor.Torrent.CompletePiece.{CompletePiece}
use picotor.Torrent.Metainfo.{piece_hash}
use picotor.Torrent.Piece.{Piece, accept, all_filled, is_complete}
use picotor.Torrent.Piece.Accept.{payload_of}
use picotor.Torrent.Piece.Built.{slice}
use picotor.Torrent.Piece.Assembly.{Builds, give_up, receive, Builds-size, finalize-Builds}
use picotor.Result.{piece_complete, TorrentContext}
use picotor.Peer.State.{Peer, push_result, release_block, lookup}
use picotor.Peer.Run.Rule.{release_block-offers}
use picotor.Peer.Handlers.{settle, finish_piece, after_accept, handle_piece}

pub all_filled-release :
    (h : Store) (ptr : ℕ) (ptrs : List ℕ)
    → all_filled (write h ptr (release (h.cell ptr))) ptrs ≡ all_filled h ptrs
unfolding all_filled release
all_filled-release h ptr [] = refl
all_filled-release h ptr (q ∷ ptrs) = ground (arith, all_filled-release h ptr ptrs)

module _ (text : Bytes) (q : Piece) (index : ℕ) (p : Peer) where
  -- A slot that is freed changes nothing of what was received.
  release_block-Builds :
      Builds text p.store q
      → is_complete p.store q ≡ true
      → (Builds text (release_block index p).store q)
        × (is_complete (release_block index p).store q ≡ true)
        × ((release_block index p).history ≡ p.history)
  unfolding release_block is_complete
  release_block-Builds b done = elim (Option-cases (lookup index p.requests)) [
    | inl none_ ↦ rw (none_, release_block) (b, done, refl)
    | inr (ptr, found) ↦
        rw (found, release_block)
          (give_up b ptr, ground (arith, all_filled-release p.store ptr q.blocks, done), refl)
  ]

module _ (sha1 : Bytes → Bytes) (ctx : TorrentContext) (junk : Junk) (text : Bytes)
    (q : Piece) where
  finish_piece-Builds :
      (p : Peer) (h : Hash)
      → length text < u32_mod
      → Builds text p.store q
      → is_complete p.store q ≡ true
      → Hash.of sha1 text ≡ ok h
      → piece_hash ctx.tor q.index ≡ ok h
      → let done : CompletePiece = record {
        bytes = text;
        piece_index = q.index;
        size = q.piece_size;
      } in
        finish_piece junk sha1 ctx q p
        ≡ ok (record p {
          piece = none;
          requests = [];
          history = push_result (piece_complete done) ∷ p.history;
        })
  unfolding finish_piece CompletePiece.hash settle
  finish_piece-Builds p h small b done digest listed =
      let same = finalize-Builds text junk p.store q small b done in
      let whole : take q.piece_size text ≡ text =
        take-all q.piece_size text (omega (arith, Builds-size text p.store q small b)) in
      let e : Hash.of sha1 (take q.piece_size text) ≡ ok h = ap (Hash.of sha1) whole ∙ digest in
      rw (same, e, listed, (equals_iff h h).1 refl) refl

  after_accept-Builds :
      (p : Peer) (h : Hash) (index : ℕ)
      → length text < u32_mod
      → Builds text p.store q
      → is_complete p.store q ≡ true
      → Hash.of sha1 text ≡ ok h
      → piece_hash ctx.tor q.index ≡ ok h
      → let done : CompletePiece = record {
        bytes = text;
        piece_index = q.index;
        size = q.piece_size;
      } in
        (r : Peer) × (after_accept junk sha1 ctx q accepted (release_block index p) ≡ ok r)
        × (r.piece ≡ none)
        × (r.requests ≡ [])
        × (r.history ≡ push_result (piece_complete done) ∷ p.history)
        × (r.offers ≡ p.offers)
  unfolding after_accept
  after_accept-Builds p h index small b done digest listed =
      let complete : CompletePiece = record {
        bytes = text;
        piece_index = q.index;
        size = q.piece_size;
      } in
      let (b', done', same) = release_block-Builds text q index p b done in
      rw done' (
        _,
        finish_piece-Builds (release_block index p) h small b' done' digest listed,
        refl,
        refl,
        ap (λ calls. push_result (piece_complete complete) ∷ calls) same,
        release_block-offers index p,
      )

-- A genuine piece is never refused: when the peer that fetches it receives its last block, however the
-- others were asked for, given up and received, and the text has the hash that the metainfo file
-- lists, the text is reported to the monitor, and the peer is free for another piece.
pub handle_piece-Builds :
    (sha1 : Bytes → Bytes) (ctx : TorrentContext) (junk : Junk) (text : Bytes) (q : Piece)
    (p : Peer) (offset : ℕ) (h : Hash)
    → length text < u32_mod
    → offset < u32_mod
    → p.piece ≡ some q
    → Builds text p.store q
    → let payload = payload_of q.index offset (slice text (offset / block_size)) in
      let result = accept junk p.store q payload in
      let done : CompletePiece = record {
        bytes = text;
        piece_index = q.index;
        size = q.piece_size;
      } in
      result.0.0 ≡ accepted
      → is_complete result.1 q ≡ true
      → Hash.of sha1 text ≡ ok h
      → piece_hash ctx.tor q.index ≡ ok h
      → (r : Peer) × (handle_piece junk sha1 ctx payload p ≡ ok r)
        × (r.piece ≡ none)
        × (r.requests ≡ [])
        × (r.history ≡ push_result (piece_complete done) ∷ p.history)
        × (r.offers ≡ p.offers)
unfolding handle_piece
handle_piece-Builds sha1 ctx junk text q p offset h small known busy b good done digest listed =
    let payload = payload_of q.index offset (slice text (offset / block_size)) in
    let result = accept junk p.store q payload in
    rw (busy, handle_piece, good)
      (after_accept-Builds sha1 ctx junk text q (record p { store = result.1 }) h result.0.1 small
        (receive b junk offset known) done digest listed)
