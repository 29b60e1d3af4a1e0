-- ===== src/Peer/Run/Ownership.antt =====
-- Where a piece is: every piece that a peer takes from the work queue is held, given back, or complete.
use picotor.Base.{
  ℕ, ◌+◌, ◌≡◌, refl, subst, ◌∙◌, Bool, true, false, List, [], ◌∷◌, Option, none, some, arith, Bytes,
  if◌then◌else◌, ◌==◌, ok, >>=-eq-ok, Bool-cases, Option-cases, inl, inr, ok-injective,
}
use picotor.Stream.{Junk}
use picotor.Common.Bitfield.{get}
use picotor.Common.Hash.{equals}
use picotor.Torrent.Block.{Store, BlockStatus, accepted}
use picotor.Torrent.CompletePiece.{CompletePiece}
use picotor.Torrent.Piece.{Piece, accept, is_complete, finalize, new_piece, next_block}
use picotor.Message.Frame.{request, serialize}
use picotor.Result.{piece_complete, TorrentContext}
use picotor.Peer.State.{
  Peer, Effect, pop_work, push_work, push_result, release_block, release_piece, close,
}
use picotor.Peer.Download.{Acquired, take_work, acquire, request_block, after_next}
use picotor.Peer.Download.Rule.{OnAcquired, HasRoom, IsKept}
use picotor.Peer.Handlers.{settle, finish_piece, after_accept, handle_piece}
use picotor.Torrent.CompletePiece
use picotor.Torrent.Metainfo.{piece_hash}
use picotor.Torrent.Piece.Finalize.{finalize-index}

abbrev pub one_if : ℕ → ℕ → ℕ
one_if a b = if a == b then 1 else 0

-- How often piece `a` was taken from the work queue, and how often it was put back or completed.
abbrev pub taken : ℕ → List Effect → ℕ
taken a [] = 0
taken a (pop_work i ∷ h) = one_if a i + taken a h
taken a (_ ∷ h) = taken a h

abbrev pub given : ℕ → List Effect → ℕ
given a [] = 0
given a (push_work i ∷ h) = one_if a i + given a h
given a (push_result (piece_complete c) ∷ h) = one_if a c.piece_index + given a h
given a (_ ∷ h) = given a h

abbrev pub held_as : ℕ → Option Piece → ℕ
held_as a none = 0
held_as a (some q) = one_if a q.index

abbrev pub held : ℕ → Peer → ℕ
held a p = held_as a p.piece

abbrev pub IsOpen : Option Piece → Type 0
IsOpen none = Unit {0}
IsOpen (some q) = q.finalized ≡ none

-- The piece in progress has no cached result, and the books balance for piece `a`.
abbrev pub IsEven : ℕ → Peer → Type 0
IsEven a p = held a p + given a p.history ≡ taken a p.history

abbrev pub IsBalanced : ℕ → Peer → Type 0
IsBalanced a p = IsOpen p.piece × IsEven a p

pub release_piece-IsBalanced : (a : ℕ) (p : Peer) → IsEven a p → IsBalanced a (release_piece p)
unfolding release_piece
release_piece-IsBalanced a p v = ground arith

pub close-IsBalanced : (a : ℕ) (p : Peer) → IsEven a p → IsBalanced a (close p)
unfolding close
close-IsBalanced a p v = release_piece-IsBalanced a (record p { closed = true }) v

pub release_block-IsBalanced :
    (a index : ℕ) (p : Peer) → IsBalanced a p → IsBalanced a (release_block index p)
unfolding release_block
release_block-IsBalanced a index p v = ground arith

abbrev Acquires : ℕ → Acquired → Type 0
Acquires a = OnAcquired (IsBalanced a)

take_work-Acquires :
    (ctx : TorrentContext) (a : ℕ) (p : Peer) (offers : List ℕ)
    → p.piece ≡ none
    → HasRoom p
    → IsBalanced a p
    → Acquires a (take_work ctx p offers)
unfolding take_work new_piece
take_work-Acquires ctx a p [] e room v = v
take_work-Acquires ctx a p (index ∷ rest) e room v =
    elim (Bool-cases (get p.available_pieces index)) [
      | inl has ↦ rw has ((refl, ground arith), refl, room)
      | inr lacks ↦ rw lacks (release_piece-IsBalanced a _ (ground arith))
    ]

acquire-Acquires :
    (ctx : TorrentContext) (a : ℕ) (p : Peer)
    → IsBalanced a p
    → HasRoom p
    → Acquires a (acquire ctx p)
unfolding acquire
acquire-Acquires ctx a p v room = elim (Option-cases p.piece) [
  | inl e ↦ rw (e, acquire) (take_work-Acquires ctx a p p.offers e room v)
  | inr (q, e) ↦ rw (e, acquire) (v, e, room)
]

-- The piece after `next_block` is the same piece.
pub next_block-same :
    (h : Store) (q : Piece)
    → let (o, q', h') = next_block h q in
      (q'.index ≡ q.index) × (q'.piece_size ≡ q.piece_size) × (q'.finalized ≡ q.finalized)
unfolding next_block
next_block-same h q = ground arith

request_block-IsBalanced :
    (a ptr : ℕ) (q : Piece) (p p' : Peer)
    → request_block q ptr p ≡ ok p'
    → IsBalanced a p
    → IsBalanced a p'
unfolding request_block
request_block-IsBalanced a ptr q p p' e v =
    let (bytes, _, done) = >>=-eq-ok (serialize (request q (p.store.cell ptr))) _ e in
    subst (IsBalanced a) (ok-injective done) v

after_next-IsBalanced :
    (a : ℕ) (q : Piece) (p : Peer)
    → IsBalanced a p
    → p.piece ≡ some q
    → IsBalanced a (after_next q p)
after_next-IsBalanced a q p v e = ground (arith, next_block-same p.store q)

pub IsBalanced-kept : (ctx : TorrentContext) (a : ℕ) → IsKept ctx (IsBalanced a)
IsBalanced-kept ctx a = record {
  acquires = acquire-Acquires ctx a;
  no_block = λ q p v at e. after_next-IsBalanced a q p v at;
  requests = λ q ptr p p' v at room e asked.
      request_block-IsBalanced a ptr (next_block p.store q).1 (after_next q p) p' asked
        (after_next-IsBalanced a q p v at);
}

pub IsOpen-some : (p : Peer) (q : Piece) → p.piece ≡ some q → IsOpen p.piece → q.finalized ≡ none
IsOpen-some p q e v = subst IsOpen e v

pub release_block-piece : (index : ℕ) (p : Peer) → (release_block index p).piece ≡ p.piece
unfolding release_block
release_block-piece index p = ground arith

module _ (junk : Junk) (sha1 : Bytes → Bytes) (ctx : TorrentContext) (a : ℕ) where
  settle-IsBalanced :
      (b : Bool) (done : CompletePiece) (q q' : Piece) (p : Peer)
      → p.piece ≡ some q
      → (done.piece_index ≡ q.index) × (q'.index ≡ q.index)
      → IsBalanced a p
      → IsBalanced a (settle b done q' p)
  unfolding settle
  settle-IsBalanced true done q q' p at (e, e') v = (tt, ground arith)
  settle-IsBalanced false done q q' p at (e, e') v =
      close-IsBalanced a (record p { piece = some q' }) (ground arith)

  finish_piece-IsBalanced :
      (q : Piece) (p p' : Peer)
      → p.piece ≡ some q
      → IsBalanced a p
      → finish_piece junk sha1 ctx q p ≡ ok p'
      → IsBalanced a p'
  unfolding finish_piece
  finish_piece-IsBalanced q p p' at v e =
      let ((done, q'), e1, r1) = >>=-eq-ok (finalize junk p.store q) _ e in
      let (hash, e2, r2) = >>=-eq-ok (CompletePiece.hash sha1 done) _ r1 in
      let (expected, e3, r3) = >>=-eq-ok (piece_hash ctx.tor q.index) _ r2 in
      let (same, _, same') = finalize-index junk p.store q q' done (IsOpen-some p q at v.0) e1 in
      subst (IsBalanced a) (ok-injective r3) (
        settle-IsBalanced (equals hash expected) done q q' (record p { requests = [] }) at
          (same, same') v)

  after_accept-IsBalanced :
      (q : Piece) (status : BlockStatus) (p p' : Peer)
      → p.piece ≡ some q
      → IsBalanced a p
      → after_accept junk sha1 ctx q status p ≡ ok p'
      → IsBalanced a p'
  unfolding after_accept
  after_accept-IsBalanced q accepted p p' at v e = elim (Bool-cases (is_complete p.store q)) [
    | inl complete ↦ finish_piece-IsBalanced q p p' at v (rw complete at e)
    | inr more ↦ subst (IsBalanced a) (ok-injective (rw more at e)) v
  ]
  after_accept-IsBalanced q _ p p' at v e = subst (IsBalanced a) (ok-injective e) v

  pub handle_piece-IsBalanced :
      (payload : Bytes) (p p' : Peer)
      → IsBalanced a p
      → handle_piece junk sha1 ctx payload p ≡ ok p'
      → IsBalanced a p'
  unfolding handle_piece
  handle_piece-IsBalanced payload p p' v e = elim (Option-cases p.piece) [
    | inl idle ↦ subst (IsBalanced a) (ok-injective (rw (idle, handle_piece) at e)) v
    | inr (q, at) ↦
        let ((status, index), store) = accept junk p.store q payload in
        after_accept-IsBalanced q status (release_block index (record p { store = store })) p'
          (release_block-piece index (record p { store = store }) ∙ at)
          (release_block-IsBalanced a index (record p { store = store }) v)
          (rw (at, handle_piece) at e)
  ]
