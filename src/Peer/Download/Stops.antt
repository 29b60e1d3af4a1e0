-- ===== src/Peer/Download/Stops.antt =====
-- `Peer::async_download` of src/peer.cpp: why it stops.
use picotor.Base.{
  ℕ, zero, suc, ◌≤◌, ◌≡◌, refl, subst, true, ◌||◌, List, [], ◌∷◌, Option, none, some, arith, length,
  ltb, ltb→le, ◌==◌, Outcome, ok, >>=-eq-ok, ok-injective, Bool-cases, Option-cases, inl, inr,
}
use picotor.Common.Bitfield.{size, get}
use picotor.Torrent.Block.{Store}
use picotor.Torrent.Piece.{Piece, is_complete, next_block}
use picotor.Result.{TorrentContext}
use picotor.Peer.State.{Peer, pipeline_limit, release_piece}
use picotor.Peer.Handlers.{download_fuel}
use picotor.Peer.Download.Fuel.{IsSized, async_download-returns}
use picotor.Peer.Download.{
  Acquired, stopped, holding, take_work, acquire, after_next, request_block, request_next,
  download_from, async_download,
}

-- The reasons not to ask for a block.
pub data HasStopped (p : Peer) : Type 0 where
  full : pipeline_limit ≤ length p.requests → HasStopped p
  choked : p.choked ≡ true → HasStopped p
  no_bitfield : size p.available_pieces ≡ 0 → HasStopped p
  no_piece : p.piece ≡ none → HasStopped p
  finished : (q : Piece) → p.piece ≡ some q → is_complete p.store q ≡ true → HasStopped p
  no_block : (q : Piece) → p.piece ≡ some q → (next_block p.store q).0 ≡ none → HasStopped p

next_block-none :
    (h : Store) (q : Piece)
    → (next_block h q).0 ≡ none
    → ((next_block h q).1 ≡ q) × ((next_block h q).2 ≡ h)
unfolding next_block
next_block-none h q e = ground (arith, e)

request_next-stops :
    (again : Peer → Outcome Peer) (q : Piece) (p r : Peer) (o : Option ℕ)
    → ((p r : Peer) → again p ≡ ok r → HasStopped r)
    → p.piece ≡ some q
    → (next_block p.store q).0 ≡ o
    → request_next again (next_block p.store q).1 (after_next q p) o ≡ ok r
    → HasStopped r
unfolding request_next
request_next-stops again q p r none ih at e done =
    let (same, same') = next_block-none p.store q e in
    subst HasStopped (ok-injective done)
      (no_block (next_block p.store q).1 refl (rw (same', same) e))
request_next-stops again q p r (some ptr) ih at e done =
    let (x, _, rest) =
      >>=-eq-ok (request_block (next_block p.store q).1 ptr (after_next q p)) _ done in
    ih x r rest

abbrev OnStopped : Acquired → Type 0
OnStopped (stopped p) = HasStopped p
OnStopped (holding q p) = p.piece ≡ some q

take_work-stops :
    (ctx : TorrentContext) (p : Peer) (offers : List ℕ)
    → p.piece ≡ none
    → OnStopped (take_work ctx p offers)
unfolding take_work release_piece
take_work-stops ctx p [] idle = no_piece idle
take_work-stops ctx p (index ∷ rest) idle = elim (Bool-cases (get p.available_pieces index)) [
  | inl has ↦ rw has refl
  | inr lacks ↦ rw lacks (no_piece refl)
]

acquire-stops : (ctx : TorrentContext) (p : Peer) → OnStopped (acquire ctx p)
unfolding acquire
acquire-stops ctx p = elim (Option-cases p.piece) [
  | inl idle ↦ rw (idle, acquire) (take_work-stops ctx p p.offers idle)
  | inr (q, busy) ↦ rw (busy, acquire) busy
]

download_from-stops :
    (again : Peer → Outcome Peer) (x : Acquired) (r : Peer)
    → ((p r : Peer) → again p ≡ ok r → HasStopped r)
    → OnStopped x
    → download_from again x ≡ ok r
    → HasStopped r
unfolding download_from
download_from-stops again (stopped p) r ih v e = subst HasStopped (ok-injective e) v
download_from-stops again (holding q p) r ih at e = elim (Bool-cases (is_complete p.store q)) [
  | inl complete ↦ subst HasStopped (ok-injective (rw complete at e)) (finished q at complete)
  | inr more ↦ request_next-stops again q p r (next_block p.store q).0 ih at refl (rw more at e)
]

async_download-HasStopped :
    (ctx : TorrentContext) (f : ℕ) (p r : Peer) → async_download ctx f p ≡ ok r → HasStopped r
unfolding async_download
async_download-HasStopped ctx zero p r e = cc
async_download-HasStopped ctx (suc f) p r e =
    elim (Bool-cases (ltb (length p.requests) pipeline_limit)) [
      | inr none_left ↦
          subst HasStopped (ok-injective (rw none_left at e)) (full (ltb→le _ _ none_left))
      | inl room ↦
          let e1 = rw room at e in
          elim (Bool-cases (p.choked || size p.available_pieces == 0)) [
            | inl idle ↦
                subst HasStopped (ok-injective (rw idle at e1)) (elim (Bool-cases p.choked) [
                  | inl shut ↦ choked shut
                  | inr open_ ↦ no_bitfield (ground (arith, idle, open_))
                ])
            | inr ready ↦
                download_from-stops (async_download ctx f) (acquire ctx p) r
                  (async_download-HasStopped ctx f) (acquire-stops ctx p) (rw ready at e1)
          ]
    ]

-- For a peer with no piece, or with a piece of the size of the torrent that has started no more blocks
-- than it has: `async_download` returns within its rounds, and then there is nothing more to ask for
-- now: the pipeline is full, the peer does not serve requests or has sent no bit field, it has no
-- piece to fetch from, or its piece is complete or has no block that is neither there nor asked for.
pub async_download-stops :
    (ctx : TorrentContext) (p : Peer)
    → IsSized ctx p.piece
    → (r : Peer) × (async_download ctx (download_fuel ctx) p ≡ ok r) × HasStopped r
async_download-stops ctx p v =
    let (r, e) = async_download-returns ctx p v in
    (r, e, async_download-HasStopped ctx (download_fuel ctx) p r e)
