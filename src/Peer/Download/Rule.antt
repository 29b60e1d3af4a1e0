-- ===== src/Peer/Download/Rule.antt =====
-- The invariant rule of the loop of `async_download`.
use picotor.Base.{
  ℕ, zero, suc, ◌<◌, ◌≡◌, refl, subst, ◌||◌, Option, none, some, length, ltb, ltb→lt, ◌==◌, Outcome,
  ok, >>=-eq-ok, ok-injective, Bool-cases, inl, inr,
}
use picotor.Common.Bitfield.{size}
use picotor.Torrent.Piece.{Piece, is_complete, next_block}
use picotor.Result.{TorrentContext}
use picotor.Peer.State.{Peer, pipeline_limit}
use picotor.Peer.Download.{
  Acquired, stopped, holding, acquire, after_next, request_block, request_next, download_from,
  async_download,
}

-- There is room for one more request.
abbrev pub HasRoom : Peer → Type 0
HasRoom p = length p.requests < pipeline_limit

abbrev pub OnAcquired : (Peer → Type 0) → Acquired → Type 0
OnAcquired P (stopped p) = P p
OnAcquired P (holding q p) = P p × (p.piece ≡ some q) × HasRoom p

-- A property that each part of a round keeps is kept by the loop.
pub record IsKept (ctx : TorrentContext) (P : Peer → Type 0) : Type 0 where
  pub acquires : (p : Peer) → P p → HasRoom p → OnAcquired P (acquire ctx p)
  pub no_block :
      (q : Piece) (p : Peer)
      → P p
      → p.piece ≡ some q
      → (next_block p.store q).0 ≡ none
      → P (after_next q p)
  pub requests :
      (q : Piece) (ptr : ℕ) (p p' : Peer)
      → P p
      → p.piece ≡ some q
      → HasRoom p
      → (next_block p.store q).0 ≡ some ptr
      → request_block (next_block p.store q).1 ptr (after_next q p) ≡ ok p'
      → P p'

module _ (ctx : TorrentContext) (P : Peer → Type 0) (kept : IsKept ctx P) where
  request_next-kept :
      (again : Peer → Outcome Peer) (q : Piece) (p p' : Peer) (o : Option ℕ)
      → ((r r' : Peer) → again r ≡ ok r' → P r → P r')
      → P p
      → p.piece ≡ some q
      → HasRoom p
      → (next_block p.store q).0 ≡ o
      → request_next again (next_block p.store q).1 (after_next q p) o ≡ ok p'
      → P p'
  unfolding request_next
  request_next-kept again q p p' none ih v at room e done =
      subst P (ok-injective done) (kept.no_block q p v at e)
  request_next-kept again q p p' (some ptr) ih v at room e done =
      let (r, asked, rest) =
        >>=-eq-ok (request_block (next_block p.store q).1 ptr (after_next q p)) _ done in
      ih r p' rest (kept.requests q ptr p r v at room e asked)

  download_from-kept :
      (again : Peer → Outcome Peer) (x : Acquired) (p' : Peer)
      → ((r r' : Peer) → again r ≡ ok r' → P r → P r')
      → OnAcquired P x
      → download_from again x ≡ ok p'
      → P p'
  unfolding download_from
  download_from-kept again (stopped p) p' ih v e = subst P (ok-injective e) v
  download_from-kept again (holding q p) p' ih (v, at, room) e =
      elim (Bool-cases (is_complete p.store q)) [
        | inl complete ↦ subst P (ok-injective (rw complete at e)) v
        | inr more ↦
            request_next-kept again q p p' (next_block p.store q).0 ih v at room refl (rw more at e)
      ]

  pub async_download-kept : (f : ℕ) (p p' : Peer) → async_download ctx f p ≡ ok p' → P p → P p'
  unfolding async_download
  async_download-kept zero p p' e v = cc
  async_download-kept (suc f) p p' e v =
      elim (Bool-cases (ltb (length p.requests) pipeline_limit)) [
        | inr full ↦ subst P (ok-injective (rw full at e)) v
        | inl room ↦
            let e1 = rw room at e in
            elim (Bool-cases (p.choked || size p.available_pieces == 0)) [
              | inl idle ↦ subst P (ok-injective (rw idle at e1)) v
              | inr ready ↦
                  download_from-kept (async_download ctx f) (acquire ctx p) p'
                    (async_download-kept f)
                    (kept.acquires p v (ltb→lt (length p.requests) pipeline_limit room))
                    (rw ready at e1)
            ]
      ]
