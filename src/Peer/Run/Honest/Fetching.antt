-- ===== src/Peer/Run/Honest/Fetching.antt =====
-- `Peer` of src/peer.cpp while it fetches a piece from a peer that answers.
use mathlib.Core.Option.{none-ne-some, some-injective}
use picotor.Base.{
  ℕ, ◌<◌, ◌≤◌, ◌≡◌, refl, sym, subst, ◌∙◌, false, some, arith, Bytes, length, get_elem?, ok,
  >>=-eq-ok, ok-injective, inl, inr,
}
use picotor.Common.Bitfield.{size}
use picotor.Common.Words.{u32_mod}
use picotor.Torrent.Block.{Store, block_index}
use picotor.Torrent.Piece.{Piece, block_count, next_block}
use picotor.Torrent.Piece.NextBlock.{IsAligned, Gives, next_block_cases}
use picotor.Torrent.Piece.Assembly.{Builds, ask, Builds-IsBuilt}
use picotor.Message.Frame.{request, serialize}
use picotor.Result.{TorrentContext}
use picotor.Peer.State.{Peer}
use picotor.Peer.Download.{acquire, request_block, after_next}
use picotor.Peer.Download.Rule.{OnAcquired, HasRoom, IsKept}
use picotor.Peer.Run.Ownership.{next_block-same}
use picotor.Peer.Run.Honest.Asked.{AreAsked, AreAsked-same, AreAsked-emplace, next_block-listed}
use picotor.Peer.Run.Honest.Filled.{filled_count, filled_count-next_block}

next_block-block_count : (h : Store) (q : Piece) → block_count (next_block h q).1 ≡ block_count q
unfolding block_count
next_block-block_count h q = let (_, same, _) = next_block-same h q in ground (arith, same)

module _ (text : Bytes) (index n : ℕ) where
  -- The peer serves requests, the blocks that it gave are right, at least `n` of them, and those that it
  -- was asked for are still empty.
  pub record IsFetching (q : Piece) (p : Peer) : Type 0 where
    pub at : p.piece ≡ some q
    pub named : q.index ≡ index
    pub builds : Builds text p.store q
    pub asked : AreAsked p.store q p.requests
    pub count : n ≤ filled_count p.store q.blocks
    pub open_ : filled_count p.store q.blocks < block_count q
    pub serves : p.choked ≡ false
    pub field : 0 < size p.available_pieces

  abbrev pub Fetches : Peer → Type 0
  Fetches p = (q : Piece) × IsFetching q p

  pub Fetches-at : (q : Piece) (p : Peer) → Fetches p → p.piece ≡ some q → IsFetching q p
  Fetches-at q p (q', v) at = subst (λ x. IsFetching x p) (some-injective q' q (sym v.at ∙ at)) v

  module _ (ctx : TorrentContext) (small : length text < u32_mod) where
    acquire-Fetches : (p : Peer) → Fetches p → HasRoom p → OnAcquired Fetches (acquire ctx p)
    unfolding acquire
    acquire-Fetches p (q, v) room = rw (v.at, acquire) ((q, v), v.at, room)

    after_next-Fetches :
        (q : Piece) (p : Peer)
        → IsFetching q p
        → IsFetching (next_block p.store q).1 (after_next q p)
    after_next-Fetches q p v =
        let al = (Builds-IsBuilt text p.store q small v.builds).aligned in
        let (same, _, _) = next_block-same p.store q in
        record {
          at = refl;
          named = same ∙ v.named;
          builds = ask v.builds;
          asked =
              AreAsked-same p.store (next_block p.store q).2 q (next_block p.store q).1 p.requests
                (λ k w listed empty.
                  let (listed', kept) = next_block-listed p.store q k w al listed in
                  (listed', kept ∙ empty))
                v.asked;
          count = omega (arith, v.count, filled_count-next_block p.store q al);
          open_ = ground (
            arith,
            v.open_,
            filled_count-next_block p.store q al,
            next_block-block_count p.store q,
          );
          serves = v.serves;
          field = v.field;
        }

    next_block-Gives :
        (h : Store) (q : Piece) (ptr : ℕ)
        → IsAligned h q
        → (next_block h q).0 ≡ some ptr
        → Gives q ptr (next_block h q).1 (next_block h q).2
    next_block-Gives h q ptr al e = elim (next_block_cases h q al) [
      | inl (ptr', e', given) ↦
          subst (λ x. Gives q x (next_block h q).1 (next_block h q).2)
            (some-injective ptr' ptr (sym e' ∙ e)) given
      | inr (none_, _, _, _, _) ↦ absurd (none-ne-some ptr (sym none_ ∙ e))
    ]

    request_block-Fetches :
        (q : Piece) (ptr : ℕ) (p r : Peer)
        → IsFetching q p
        → get_elem? q.blocks (block_index (p.store.cell ptr)) ≡ some ptr
        → (p.store.cell ptr).filled ≡ false
        → request_block q ptr p ≡ ok r
        → Fetches r
    unfolding request_block
    request_block-Fetches q ptr p r v listed empty e =
        let (bytes, _, done) = >>=-eq-ok (serialize (request q (p.store.cell ptr))) _ e in
        subst Fetches (ok-injective done) (
          q,
          record {
            at = v.at;
            named = v.named;
            builds = v.builds;
            asked =
                AreAsked-emplace p.store q (block_index (p.store.cell ptr)) ptr p.requests listed
                  empty v.asked;
            count = v.count;
            open_ = v.open_;
            serves = v.serves;
            field = v.field;
          },
        )

    pub Fetches-kept : IsKept ctx Fetches
    unfolding block_index
    Fetches-kept = record {
      acquires = acquire-Fetches;
      no_block =
          λ q p v at e. ((next_block p.store q).1, after_next-Fetches q p (Fetches-at q p v at));
      requests = λ q ptr p r v at room e asked.
          let w = Fetches-at q p v at in
          let given =
            next_block-Gives p.store q ptr (Builds-IsBuilt text p.store q small w.builds).aligned
              e in
          request_block-Fetches (next_block p.store q).1 ptr (after_next q p) r
            (after_next-Fetches q p w) given.listed given.empty asked;
    }
