-- ===== src/Peer/Run/Honest/Round.antt =====
-- `Peer` of src/peer.cpp: one block that is asked for is sent.
use picotor.Base.{
  [], ℕ, suc, ◌*◌, ◌/◌, ◌<◌, ◌≡◌, refl, ap, ◌∙◌, Bool, true, false, ◌&&◌, ◌==◌, ◌∷◌, Option, none,
  some, arith, Bytes, length, get_elem?, ok, Bool-cases, Option-cases, inl, inr, ◌⊎◌,
}
use picotor.Stream.{Junk}
use picotor.Common.Words.{u32_mod}
use picotor.Common.Hash.{Hash}
use picotor.Common.Hash
use picotor.Torrent.Block.{Store, block_size, accepted, write, release}
use picotor.Torrent.CompletePiece.{CompletePiece}
use picotor.Torrent.Metainfo.{piece_hash}
use picotor.Torrent.Piece.{Piece, block_count, accept, is_complete}
use picotor.Torrent.Piece.Accept.{payload_of}
use picotor.Torrent.Piece.Built.{slice, IsBuilt}
use picotor.Torrent.Piece.Assembly.{Builds, give_up, receive}
use picotor.Result.{piece_complete, TorrentContext}
use picotor.Peer.State.{Peer, push_result, release_block, lookup}
use picotor.Peer.Handlers.{after_accept, handle_piece}
use picotor.Peer.Run.Genuine.{all_filled-release, handle_piece-Builds}
use picotor.Peer.Run.Honest.Asked.{AreAsked, AreAsked-other, AreAsked-erase}
use picotor.Peer.Run.Honest.Filled.{
  filled_count, filled_count_mono, filled_count-grows, filled_count-lt,
}
use picotor.Peer.Run.Rule.{release_block-offers, release_block-same}
use picotor.Peer.Run.Honest.Fetching.{IsFetching}
use picotor.Peer.Run.Honest.Answer.{
  block_offset, answer, answer-accepted, answer-kept, answer-other,
}

released :
    (h : Store) (w x : ℕ) (c : Bool)
    → (h.cell x).filled ≡ c
    → ((write h w (release (h.cell w))).cell x).filled ≡ c
unfolding release
released h w x c e = ground (arith, e)

-- What `handle_piece` does with a payload that is accepted while the piece is not complete.
handle_piece-more :
    (junk : Junk) (sha1 : Bytes → Bytes) (ctx : TorrentContext) (payload : Bytes) (q : Piece)
    (p : Peer) (i : ℕ)
    → p.piece ≡ some q
    → let ((status, index), store) = accept junk p.store q payload in
      status ≡ accepted
      → index ≡ i
      → is_complete (release_block i (record p { store = store })).store q ≡ false
      → handle_piece junk sha1 ctx payload p ≡ ok (release_block i (record p { store = store }))
unfolding handle_piece after_accept
handle_piece-more junk sha1 ctx payload q p i busy good place more =
    let result = accept junk p.store q payload in
    let next : Peer = record p { store = result.1 } in
    ap
      (λ (o : Option Piece). elim o [
        | none ↦ ok p
        | some x ↦
            let ((status, index), store) = accept junk p.store x payload in
            after_accept junk sha1 ctx x status (release_block index (record p { store = store }))
      ])
      busy
    ∙ ap (λ s. after_accept junk sha1 ctx q s (release_block result.0.1 next)) good
    ∙ ap (λ k. after_accept junk sha1 ctx q accepted (release_block k next)) place
    ∙ rw more refl

module _ (text : Bytes) (index n : ℕ) (junk : Junk) (q : Piece) (p : Peer) (i v : ℕ)
    (f : IsFetching text index n q p) (b : IsBuilt text p.store q)
    (at : get_elem? q.blocks i ≡ some v) (empty : (p.store.cell v).filled ≡ false) where
  -- The peer with the block in its store.
  abbrev pub filled_peer : Peer
  filled_peer = record p { store = (answer text junk p.store q i v b at empty).1 }

  filled-Builds : Builds text filled_peer.store q
  filled-Builds = receive f.builds junk (i * block_size) (block_offset text p.store q i v b at).0

  filled_count-filled : n < filled_count filled_peer.store q.blocks
  filled_count-filled = omega (
    arith,
    f.count,
    filled_count-grows p.store filled_peer.store q.blocks i v
        (answer-kept text junk p.store q i v b at empty) at empty
        (answer-accepted text junk p.store q i v b at empty).2,
  )

  filled-AreAsked : lookup i p.requests ≡ none → AreAsked filled_peer.store q p.requests
  filled-AreAsked free =
      AreAsked-other p.store filled_peer.store q i p.requests
        (answer-other text junk p.store q i v b at empty) free f.asked

  pub release_block-IsFetching :
      filled_count (release_block i filled_peer).store q.blocks < block_count q
      → IsFetching text index (suc n) q (release_block i filled_peer)
  unfolding release_block
  release_block-IsFetching more = elim (Option-cases (lookup i p.requests)) [
    | inl free ↦
        rw (free, release_block)
          (record {
            at = f.at;
            named = f.named;
            builds = filled-Builds;
            asked = filled-AreAsked free;
            count = filled_count-filled;
            open_ = rw (free, release_block) at more;
            serves = f.serves;
            field = f.field;
          })
    | inr (w, found) ↦
        let h' : Store = write filled_peer.store w (release (filled_peer.store.cell w)) in
        rw (found, release_block)
          (record {
            at = f.at;
            named = f.named;
            builds = give_up filled-Builds w;
            asked =
                AreAsked-erase p.store h' q i p.requests
                  (λ k x other listed e.
                    released filled_peer.store w x false
                      (answer-other text junk p.store q i v b at empty k x other listed e))
                  f.asked;
            count = omega (
              arith,
              filled_count-filled,
              filled_count_mono filled_peer.store h' q.blocks
                  (λ x. released filled_peer.store w x true),
            );
            open_ = rw (found, release_block) at more;
            serves = f.serves;
            field = f.field;
          })
  ]

  release_block-is_complete :
      is_complete (release_block i filled_peer).store q ≡ is_complete filled_peer.store q
  unfolding release_block is_complete
  release_block-is_complete = elim (Option-cases (lookup i p.requests)) [
    | inl free ↦ rw (free, release_block) refl
    | inr (w, found) ↦
        rw (found, release_block)
          (ap (λ x. length q.blocks == block_count q && x)
            (all_filled-release filled_peer.store w q.blocks))
  ]

  -- The piece is reported, or the peer goes on with one more block.
  pub handle_piece-answer :
      (sha1 : Bytes → Bytes) (ctx : TorrentContext) (h : Hash)
      → length text < u32_mod
      → Hash.of sha1 text ≡ ok h
      → piece_hash ctx.tor index ≡ ok h
      → let payload =
          payload_of q.index (i * block_size) (slice text (i * block_size / block_size)) in
        let done : CompletePiece = record {
          bytes = text;
          piece_index = q.index;
          size = q.piece_size;
        } in
        ((r : Peer) × (handle_piece junk sha1 ctx payload p ≡ ok r)
          × (r.piece ≡ none)
          × (r.requests ≡ [])
          × (r.history ≡ push_result (piece_complete done) ∷ p.history)
          × (r.offers ≡ p.offers))
        ⊎ ((r : Peer) × (handle_piece junk sha1 ctx payload p ≡ ok r)
            × IsFetching text index (suc n) q r
            × (r.offers ≡ p.offers)
            × (r.history ≡ p.history))
  handle_piece-answer sha1 ctx h small digest listed =
      let (good, place, _, _) = answer-accepted text junk p.store q i v b at empty in
      let low = (block_offset text p.store q i v b at).0 in
      elim (Bool-cases (is_complete filled_peer.store q)) [
        | inl done ↦
            let (r, e, idle, free, told, same) =
              handle_piece-Builds sha1 ctx junk text q p (i * block_size) h small low f.at f.builds
                good done digest (ap (piece_hash ctx.tor) f.named ∙ listed) in
            inl (r, e, idle, free, told, same)
        | inr more ↦
            let more' = release_block-is_complete ∙ more in
            inr (
              release_block i filled_peer,
              handle_piece-more junk sha1 ctx _ q p i f.at good place more',
              release_block-IsFetching
                  (filled_count-lt (release_block i filled_peer).store q b.aligned.few more'),
              release_block-offers i filled_peer,
              (release_block-same i filled_peer).1,
            )
      ]
