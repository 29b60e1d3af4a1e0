-- ===== src/Peer/Run/Handling.antt =====
-- `Peer` of src/peer.cpp: the handling of a message succeeds.
use picotor.Base.{
  ℕ, zero, suc, ◌%◌, ◌<◌, ◌≡◌, refl, ap, subst, ◌∙◌, Bool, true, false, List, [], ◌∷◌, Option, none,
  some, arith, Bytes, All, length, length-take, take, get_elem?, Outcome, ok, Bool-cases,
  Option-cases, inl, inr,
}
use picotor.Stream.{Junk}
use picotor.Common.Hash.{Hash, equals}
use picotor.Common.Hash.Laws.{IsDigest, to_hex-of}
use picotor.Torrent.Block.{BlockStatus, accepted, Store, block_size}
use picotor.Torrent.CompletePiece
use picotor.Torrent.CompletePiece.{CompletePiece}
use picotor.Torrent.Metainfo.{piece_hash}
use picotor.Torrent.Piece.{Piece, accept, is_complete}
use picotor.Torrent.Piece.Bounds.{FitsBlock, finalize_safe}
use picotor.Message.Frame
use picotor.Message.Frame.{Message, interested, serialize}
use picotor.Message.Kind
use picotor.Message.Kind.{MessageType}
use picotor.Result.{TorrentContext}
use picotor.Peer.State.{Peer, release_block}
use picotor.Peer.Download.Rule.{async_download-kept}
use picotor.Peer.Download.Fuel.{IsSized, async_download-returns}
use picotor.Peer.Handlers.{
  async_read_message, settle, finish_piece, after_accept, handle_piece, download_fuel, dispatch,
  handle_kind,
}
use picotor.Peer.Run.{Event, body_done, request_done}
use picotor.Peer.Run.Safe.{
  AreShort, accept-AreShort, IsSafePiece, IsSafe, close-IsSafe, release_block-IsSafe, IsSafe-kept,
}

-- SHA-1 gives digests, and a piece is made of whole blocks.
pub record IsRegular (sha1 : Bytes → Bytes) (ctx : TorrentContext) : Type 0 where
  pub digest : IsDigest sha1
  pub whole : ctx.tor.piece_length % block_size ≡ 0

-- A body that was read is not empty, the work queue gives out pieces of the torrent, and no request
-- fails to be written.
abbrev pub IsExpected : TorrentContext → Event → Type 0
IsExpected ctx (body_done junk failed buffer offers) =
    (0 < length buffer) × All (λ i. i < length ctx.tor.piece_hashes) offers
IsExpected ctx (request_done failed block) = failed ≡ false
IsExpected ctx _ = Unit {0}

get_elem?-total : (hs : List Hash) (i : ℕ) → i < length hs → (h : Hash) × (get_elem? hs i ≡ some h)
get_elem?-total [] i less = absurd (omega arith)
get_elem?-total (h ∷ hs) zero less = (h, refl)
get_elem?-total (h ∷ hs) (suc i) less = get_elem?-total hs i (omega arith)

FitsBlock-AreShort : (h : Store) (ptrs : List ℕ) → AreShort h → All (FitsBlock h) ptrs
FitsBlock-AreShort h [] v = tt
FitsBlock-AreShort h (ptr ∷ ptrs) v = (
  omega (arith, v ptr, length-take (h.cell ptr).len (h.cell ptr).buffer),
  FitsBlock-AreShort h ptrs v,
)

pub parse-ok : (bytes : Bytes) → 0 < length bytes → (m : Message) × (Frame.parse bytes ≡ ok m)
unfolding Frame.parse
parse-ok [] full = absurd (omega arith)
parse-ok (c ∷ rest) full = (_, refl)

module _ (sha1 : Bytes → Bytes) (ctx : TorrentContext) (g : IsRegular sha1 ctx) where
  -- It gives a peer for which the invariant holds.
  abbrev pub Succeeds : Outcome Peer → Type 0
  Succeeds o = (r : Peer) × (o ≡ ok r) × IsSafe ctx r

  settle-IsSafe :
      (same : Bool) (done : CompletePiece) (q : Piece) (p : Peer)
      → AreShort p.store
      → All (λ i. i < length ctx.tor.piece_hashes) p.offers
      → IsSafe ctx (settle same done q p)
  unfolding settle
  settle-IsSafe true done q p v w = (tt, v, w)
  settle-IsSafe false done q p v w = close-IsSafe ctx (record p { piece = some q }) v w

  finish_piece-Succeeds :
      (junk : Junk) (q : Piece) (p : Peer)
      → p.piece ≡ some q
      → IsSafe ctx p
      → Succeeds (finish_piece junk sha1 ctx q p)
  unfolding finish_piece CompletePiece.hash piece_hash
  finish_piece-Succeeds junk q p busy (s, v, w) =
      let (open_, size, few, known) : IsSafePiece ctx (some q) = subst (IsSafePiece ctx) busy s in
      let ((done, q'), e1) =
        finalize_safe junk p.store q (ap (λ (n : ℕ). n % block_size) size ∙ g.whole) few
          (FitsBlock-AreShort p.store q.blocks v) in
      let (hash, e2, _, _) = to_hex-of sha1 (take done.size done.bytes) g.digest in
      let (expected, e3) = get_elem?-total ctx.tor.piece_hashes q.index known in
      rw (e1, e2, e3)
        (_, refl, settle-IsSafe (equals hash expected) done q' (record p { requests = [] }) v w)

  after_accept-Succeeds :
      (junk : Junk) (q : Piece) (status : BlockStatus) (p : Peer)
      → p.piece ≡ some q
      → IsSafe ctx p
      → Succeeds (after_accept junk sha1 ctx q status p)
  unfolding after_accept
  after_accept-Succeeds junk q accepted p busy v = elim (Bool-cases (is_complete p.store q)) [
    | inl complete ↦ rw complete (finish_piece-Succeeds junk q p busy v)
    | inr more ↦ rw more (p, refl, v)
  ]
  after_accept-Succeeds junk q _ p busy v = (p, refl, v)

  release_block-piece : (index : ℕ) (p : Peer) → (release_block index p).piece ≡ p.piece
  unfolding release_block
  release_block-piece index p = ground arith

  handle_piece-Succeeds :
      (junk : Junk) (payload : Bytes) (p : Peer)
      → IsSafe ctx p
      → Succeeds (handle_piece junk sha1 ctx payload p)
  unfolding handle_piece
  handle_piece-Succeeds junk payload p (s, v, w) = elim (Option-cases p.piece) [
    | inl idle ↦ rw (idle, handle_piece) (p, refl, (s, v, w))
    | inr (q, busy) ↦
        let ((status, index), store) = accept junk p.store q payload in
        let next : Peer = record p { store = store } in
        rw (busy, handle_piece)
          (after_accept-Succeeds junk q status (release_block index next)
            (release_block-piece index next ∙ busy)
            (release_block-IsSafe ctx index next (s, accept-AreShort junk p.store q payload v, w)))
  ]

  dispatch-Succeeds :
      (junk : Junk) (t : MessageType) (payload : Bytes) (p : Peer)
      → IsSafe ctx p
      → Succeeds (dispatch junk sha1 ctx t payload p)
  unfolding dispatch
  dispatch-Succeeds junk Kind.piece payload p v = handle_piece-Succeeds junk payload p v
  dispatch-Succeeds junk Kind.choke payload p v = (_, refl, v)
  dispatch-Succeeds junk Kind.unchoke payload p v = (_, refl, v)
  dispatch-Succeeds junk Kind.bitfield payload p v = (_, refl, v)
  dispatch-Succeeds junk _ payload p v = (p, refl, v)

  IsSafe-IsSized : (o : Option Piece) → IsSafePiece ctx o → IsSized ctx o
  IsSafe-IsSized none s = tt
  IsSafe-IsSized (some q) (_, size, few, _) = (size, few)

  pub handle_kind-Succeeds :
      (junk : Junk) (o : Option MessageType) (payload : Bytes) (p : Peer)
      → IsSafe ctx p
      → Succeeds (handle_kind junk sha1 ctx o payload p)
  unfolding handle_kind async_read_message
  handle_kind-Succeeds junk none payload p v = (p, refl, v)
  handle_kind-Succeeds junk (some t) payload p v =
      let (p1, e1, v1) = dispatch-Succeeds junk t payload p v in
      let (p2, e2) = async_download-returns ctx p1 (IsSafe-IsSized p1.piece v1.0) in
      let v2 =
        async_download-kept ctx (IsSafe ctx) (IsSafe-kept ctx) (download_fuel ctx) p1 p2 e2 v1 in
      rw (e1, e2) (_, refl, v2)
