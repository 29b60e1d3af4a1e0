-- ===== src/Peer/Run/Honest/Answer.antt =====
-- `Peer` of src/peer.cpp: an answer to a request.
use native.Mathlib.Decide.{ℕ_discrete}
use mathlib.Core.Option.{none-ne-some, some-injective}
use picotor.Base.{
  ℕ, ◌*◌, ◌/◌, ◌<◌, ◌≤◌, ◌≡◌, ◌≢◌, sym, ap, ◌∙◌, true, false, List, [], ◌∷◌, some, arith, Bytes,
  length, length-take, drop, get_elem?, get_elem?-lt, inl, inr,
}
use picotor.Stream.{Junk}
use picotor.Common.Words.{u32_mod}
use picotor.Torrent.Block.{Store, Block, BlockStatus, block_size, accepted}
use picotor.Torrent.Piece.{Piece, block_count, accept, is_complete, all_filled, next_block}
use picotor.Torrent.Piece.Count.{block_count_bounds}
use picotor.Torrent.Piece.NextBlock.{Offsets-get, next_block_cases}
use picotor.Torrent.Piece.Accept.{payload_of, accept-fills}
use picotor.Torrent.Piece.Built.{slice, IsBuilt}
use picotor.Torrent.Piece.Assembly.{Builds-IsBuilt}
use picotor.Peer.State.{Peer}
use picotor.Peer.Download.Stops.{
  HasStopped, full, choked, no_bitfield, no_piece, finished, no_block,
}
use picotor.Peer.Run.Honest.Asked.{AreAsked}
use picotor.Peer.Run.Honest.Filled.{filled_count-open, empty_block}
use picotor.Peer.Run.Honest.Fetching.{IsFetching}

-- A block that was started and is empty.
abbrev pub Empty : Store → Piece → Type 0
Empty h q = (i : ℕ) × (v : ℕ) × (get_elem? q.blocks i ≡ some v) × ((h.cell v).filled ≡ false)

first-Empty : (h : Store) (q : Piece) (m : List (ℕ × ℕ)) → 0 < length m → AreAsked h q m → Empty h q
first-Empty h q [] few a = absurd (omega arith)
first-Empty h q ((k, v) ∷ m) few (at, empty, _, _) = (k, v, at, empty)

unfilled :
    (h : Store) (q : Piece)
    → length q.blocks ≡ block_count q
    → is_complete h q ≡ false
    → all_filled h q.blocks ≡ false
unfolding is_complete
unfilled h q all more = ground (arith, all, more)

module _ (text : Bytes) (index n : ℕ) (small : length text < u32_mod) where
  -- As long as the piece is not complete, a block of it is wanted.
  pub wanted : (q : Piece) (p : Peer) → IsFetching text index n q p → HasStopped p → Empty p.store q
  wanted q p v (full f) = first-Empty p.store q p.requests (omega (arith, f)) v.asked
  wanted q p v (choked c) = absurd (cc (c, v.serves))
  wanted q p v (no_bitfield z) = absurd (omega (arith, z, v.field))
  wanted q p v (no_piece idle) = absurd (none-ne-some q (sym idle ∙ v.at))
  wanted q p v (finished q' at done) =
      let same = some-injective q' q (sym at ∙ v.at) in
      absurd (cc (done, filled_count-open p.store q v.open_, ap (is_complete p.store) same))
  wanted q p v (no_block q' at none_) =
      let same = some-injective q' q (sym at ∙ v.at) in
      let al = (Builds-IsBuilt text p.store q small v.builds).aligned in
      elim (next_block_cases p.store q al) [
        | inl (ptr, e, _) ↦
            absurd (none-ne-some ptr (sym none_ ∙ ap (λ x. (next_block p.store x).0) same ∙ e))
        | inr (_, _, _, all, _) ↦
            empty_block p.store q.blocks
              (unfilled p.store q all (filled_count-open p.store q v.open_))
      ]

-- The place of a block that was started.
pub block_offset :
    (text : Bytes) (h : Store) (q : Piece) (i v : ℕ)
    → IsBuilt text h q
    → get_elem? q.blocks i ≡ some v
    → (i * block_size < u32_mod) × (i * block_size / block_size ≡ i)
block_offset text h q i v b at = (
  omega (arith, get_elem?-lt q.blocks i at, b.aligned.few, b.aligned.small, block_count_bounds q),
  omega arith,
)

module _ (text : Bytes) (junk : Junk) (h : Store) (q : Piece) (i v : ℕ) (b : IsBuilt text h q)
    (at : get_elem? q.blocks i ≡ some v) (empty : (h.cell v).filled ≡ false) where
  abbrev pub answer : (BlockStatus × ℕ) × Store
  answer =
      accept junk h q
        (payload_of q.index (i * block_size) (slice text (i * block_size / block_size)))

  -- The answer is accepted, and changes just its block.
  pub answer-accepted :
      (answer.0.0 ≡ accepted)
      × (answer.0.1 ≡ i)
      × ((answer.1.cell v).filled ≡ true)
      × ((w : ℕ) → w ≢ v → answer.1.cell w ≡ h.cell w)
  answer-accepted =
      let (low, same) = block_offset text h q i v b at in
      let short : length (slice text (i * block_size / block_size)) ≤ block_size =
        omega (
          arith,
          length-take block_size (drop ((i * block_size / block_size) * block_size) text),
        ) in
      let (good, place, _, filled, _, others) =
        accept-fills junk h q (i * block_size) v (slice text (i * block_size / block_size)) b.index
          low short (ap (get_elem? q.blocks) same ∙ at) empty in
      (good, place ∙ same, filled, others)

  pub answer-kept : (w : ℕ) → (h.cell w).filled ≡ true → (answer.1.cell w).filled ≡ true
  answer-kept w held = elim (ℕ_discrete w v) [
    | yes same ↦ absurd (cc (held, empty, ap (λ x. (h.cell x).filled) same))
    | no other ↦ ap (λ (c : Block). c.filled) (answer-accepted.3 w other) ∙ held
  ]

  -- Another block of the piece stays empty.
  pub answer-other :
      (k w : ℕ)
      → k ≢ i
      → get_elem? q.blocks k ≡ some w
      → (h.cell w).filled ≡ false
      → (answer.1.cell w).filled ≡ false
  answer-other k w other at' empty' = elim (ℕ_discrete w v) [
    | yes same ↦
        let x = Offsets-get h w q.blocks 0 k b.aligned.offsets at' in
        let y = Offsets-get h v q.blocks 0 i b.aligned.offsets at in
        absurd (other (omega (arith, x, y, ap (λ z. (h.cell z).offset) same)))
    | no apart ↦ ap (λ (c : Block). c.filled) (answer-accepted.3 w apart) ∙ empty'
  ]
