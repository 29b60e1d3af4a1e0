-- ===== src/Torrent/Piece/Bounds.antt =====
-- When `Piece::finalize` of include/torrent.hpp stays inside its buffer.
use picotor.Base.{
  ℕ, ◌*◌, ◌%◌, ◌≤◌, ◌≡◌, ◌≢◌, List, [], ◌∷◌, none, arith, All, length, length-append, Option-cases,
  inl, inr, ok, fault, out_of_bounds,
}
use picotor.Stream.{Junk}
use picotor.Torrent.Block.{block_size, Store, contents}
use picotor.Torrent.CompletePiece.{CompletePiece}
use picotor.Torrent.Piece.{Piece, finalize, block_count}
use picotor.Torrent.Piece.Count.{block_count-whole, block_count-ragged}
use picotor.Torrent.Piece.Finalize.{joined, finalize-fits, finalize-overflow, finalize-cached}

abbrev pub FitsBlock : Store → ℕ → Type 0
FitsBlock h ptr = length (contents (h.cell ptr)) ≤ block_size

length-joined-le :
    (h : Store) (ptrs : List ℕ)
    → All (FitsBlock h) ptrs
    → length (joined h ptrs) ≤ length ptrs * block_size
length-joined-le h [] a = omega arith
length-joined-le h (ptr ∷ ptrs) a =
    omega
      (arith, length-append (contents (h.cell ptr)) (joined h ptrs), length-joined-le h ptrs a.1)

-- Where the size of a piece is a multiple of the block size, `finalize` stays inside its buffer,
-- whatever blocks of at most the block size the peers have sent.
pub finalize_safe :
    (junk : Junk) (h : Store) (p : Piece)
    → p.piece_size % block_size ≡ 0
    → length p.blocks ≤ block_count p
    → All (FitsBlock h) p.blocks
    → (r : CompletePiece × Piece) × (finalize junk h p ≡ ok r)
finalize_safe junk h p whole few fit = elim (Option-cases p.finalized) [
  | inl e ↦ (
    _,
    finalize-fits junk h p e
        (omega (arith, length-joined-le h p.blocks fit, block_count-whole p whole)),
  )
  | inr (done, e) ↦ ((done, p), finalize-cached junk h p done e)
]

abbrev pub FillsBlock : Store → ℕ → Type 0
FillsBlock h ptr = length (contents (h.cell ptr)) ≡ block_size

length-joined-full :
    (h : Store) (ptrs : List ℕ)
    → All (FillsBlock h) ptrs
    → length (joined h ptrs) ≡ length ptrs * block_size
length-joined-full h [] a = omega arith
length-joined-full h (ptr ∷ ptrs) a =
    omega
      (arith, length-append (contents (h.cell ptr)) (joined h ptrs), length-joined-full h ptrs a.1)

-- Where the size of a piece is no multiple of the block size, and all its blocks hold a full block of
-- data, also the shorter last one, `finalize` of a piece with no cached result writes past the end of its
-- buffer.
pub finalize_overrun :
    (junk : Junk) (h : Store) (p : Piece)
    → p.piece_size % block_size ≢ 0
    → p.finalized ≡ none
    → length p.blocks ≡ block_count p
    → All (FillsBlock h) p.blocks
    → finalize junk h p ≡ fault out_of_bounds
finalize_overrun junk h p ragged e all_started full =
    finalize-overflow junk h p e
      (omega (arith, length-joined-full h p.blocks full, block_count-ragged p ragged, all_started))
