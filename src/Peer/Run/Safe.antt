-- ===== src/Peer/Run/Safe.antt =====
-- `Peer` of src/peer.cpp: what holds of its piece and its blocks between completions.
use picotor.Base.{
  ℕ, ◌≤◌, ◌<◌, ◌≡◌, refl, sym, subst, true, not, List, [], ◌∷◌, Option, none, some, arith, Bytes,
  All, length, length-append, get_elem?, ltb, ltb→le, ◌==◌, ok, >>=-eq-ok, ok-injective, Bool-cases,
  Option-cases, inl, inr,
}
use picotor.Stream.{Junk, Stream}
use picotor.Common.Bitfield.{get}
use picotor.Torrent.Block.{Block, Store, fill, block_size, make_shared, new_block, release}
use picotor.Torrent.Piece.{
  Piece, Header, new_piece, block_count, reserve, next_block, fill_at, accept_block, accept,
  data_len, read_header,
}
use picotor.Message.Frame.{request, serialize}
use picotor.Result.{TorrentContext}
use picotor.Peer.State.{Peer, lookup, release_block, release_piece, close}
use picotor.Peer.Download.{take_work, acquire, request_block, after_next}
use picotor.Peer.Download.Rule.{OnAcquired, HasRoom, IsKept}

-- No block holds more than the block size.
abbrev pub AreShort : Store → Type 0
AreShort h = (ptr : ℕ) → (h.cell ptr).len ≤ block_size

reserve-AreShort : (h : Store) (ptr : ℕ) → AreShort h → AreShort (reserve h ptr)
reserve-AreShort h ptr v q = ground (arith, v q, v ptr)

next_block-AreShort : (h : Store) (q : Piece) → AreShort h → AreShort (next_block h q).2
unfolding next_block make_shared new_block
next_block-AreShort h q v r = ground (arith, v r)

fill-short :
    (b : Block) (ss : Stream) (len : ℕ)
    → b.len ≤ block_size
    → len ≤ block_size
    → (fill b ss len).1.len ≤ block_size
unfolding fill
fill-short b ss len old new = ground arith

fill_at-AreShort :
    (h : Store) (ptr : ℕ) (ss : Stream) (len : ℕ)
    → AreShort h
    → len ≤ block_size
    → AreShort (fill_at h ptr ss len).1
unfolding fill_at
fill_at-AreShort h ptr ss len v new q =
    ground (arith, v q, fill-short (h.cell ptr) ss len (v ptr) new)

accept_block-AreShort :
    (h : Store) (p : Piece) (header : Header) (len : ℕ)
    → AreShort h
    → AreShort (accept_block h p header len).1
unfolding accept_block
accept_block-AreShort h p header len v = elim (Bool-cases (ltb block_size len)) [
  | inl long ↦ rw long v
  | inr fits ↦ rw fits (elim (Bool-cases (not (header.piece_index == p.index))) [
    | inl wrong ↦ rw wrong v
    | inr right ↦ rw right (elim (Option-cases (get_elem? p.blocks header.block_index)) [
      | inl missing ↦ rw missing v
      | inr (ptr, found) ↦ rw found (fill_at-AreShort h ptr header.rest len v (ltb→le _ _ fits))
    ])
  ])
]

pub accept-AreShort :
    (junk : Junk) (h : Store) (p : Piece) (payload : Bytes)
    → AreShort h
    → AreShort (accept junk h p payload).1
unfolding accept
accept-AreShort junk h p payload v =
    accept_block-AreShort h p (read_header junk payload) (data_len payload) v

module _ (ctx : TorrentContext) where
  -- A piece in progress is a piece of the torrent, and no more blocks of it were started than it has.
  abbrev pub IsSafePiece : Option Piece → Type 0
  IsSafePiece none = Unit {0}
  IsSafePiece (some q) =
      (q.finalized ≡ none)
      × (q.piece_size ≡ ctx.tor.piece_length)
      × (length q.blocks ≤ block_count q)
      × (q.index < length ctx.tor.piece_hashes)

  abbrev pub IsSafe : Peer → Type 0
  IsSafe p =
      IsSafePiece p.piece × AreShort p.store × All (λ i. i < length ctx.tor.piece_hashes) p.offers

  pub release_piece-IsSafe :
      (p : Peer)
      → AreShort p.store
      → All (λ i. i < length ctx.tor.piece_hashes) p.offers
      → IsSafe (release_piece p)
  unfolding release_piece
  release_piece-IsSafe p v w = elim (Option-cases p.piece) [
    | inl idle ↦ rw (idle, release_piece) (subst IsSafePiece (sym idle) tt, v, w)
    | inr (q, busy) ↦ rw (busy, release_piece) (tt, v, w)
  ]

  pub close-IsSafe :
      (p : Peer)
      → AreShort p.store
      → All (λ i. i < length ctx.tor.piece_hashes) p.offers
      → IsSafe (close p)
  unfolding close
  close-IsSafe p v w = release_piece-IsSafe (record p { closed = true }) v w

  pub release_block-IsSafe : (index : ℕ) (p : Peer) → IsSafe p → IsSafe (release_block index p)
  unfolding release_block release
  release_block-IsSafe index p (s, v, w) = elim (Option-cases (lookup index p.requests)) [
    | inl absent ↦ rw (absent, release_block) (s, v, w)
    | inr (ptr, present) ↦ rw (present, release_block) (s, λ q. ground (arith, v q, v ptr), w)
  ]

  next_block-IsSafePiece :
      (h : Store) (q : Piece) → IsSafePiece (some q) → IsSafePiece (some (next_block h q).1)
  unfolding next_block make_shared block_count
  next_block-IsSafePiece h q (open_, size, few, known) =
      ground (arith, length-append q.blocks (h.next ∷ []))

  take_work-IsSafe :
      (p : Peer) (offers : List ℕ)
      → IsSafe p
      → HasRoom p
      → All (λ i. i < length ctx.tor.piece_hashes) offers
      → OnAcquired IsSafe (take_work ctx p offers)
  unfolding take_work new_piece block_count
  take_work-IsSafe p [] v room w = v
  take_work-IsSafe p (index ∷ offers) (s, v, _) room (known, w) =
      elim (Bool-cases (get p.available_pieces index)) [
        | inl has ↦ rw has (((refl, refl, omega arith, known), v, w), refl, room)
        | inr lacks ↦ rw lacks (release_piece-IsSafe _ v w)
      ]

  acquire-IsSafe : (p : Peer) → IsSafe p → HasRoom p → OnAcquired IsSafe (acquire ctx p)
  unfolding acquire
  acquire-IsSafe p v room = elim (Option-cases p.piece) [
    | inl idle ↦ rw (idle, acquire) (take_work-IsSafe p p.offers v room v.2)
    | inr (q, busy) ↦ rw (busy, acquire) (v, busy, room)
  ]

  after_next-IsSafe : (q : Piece) (p : Peer) → IsSafe p → p.piece ≡ some q → IsSafe (after_next q p)
  after_next-IsSafe q p (s, v, w) busy = (
    next_block-IsSafePiece p.store q (subst IsSafePiece busy s),
    next_block-AreShort p.store q v,
    w,
  )

  request_block-IsSafe :
      (q : Piece) (ptr : ℕ) (p r : Peer) → IsSafe p → request_block q ptr p ≡ ok r → IsSafe r
  unfolding request_block
  request_block-IsSafe q ptr p r v e =
      let (bytes, _, done) = >>=-eq-ok (serialize (request q (p.store.cell ptr))) _ e in
      subst IsSafe (ok-injective done) v

  pub IsSafe-kept : IsKept ctx IsSafe
  IsSafe-kept = record {
    acquires = acquire-IsSafe;
    no_block = λ q p v at e. after_next-IsSafe q p v at;
    requests = λ q ptr p r v at room e asked.
        request_block-IsSafe (next_block p.store q).1 ptr (after_next q p) r
          (after_next-IsSafe q p v at) asked;
  }
