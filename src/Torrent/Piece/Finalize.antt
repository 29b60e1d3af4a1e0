-- ===== src/Torrent/Piece/Finalize.antt =====
-- How `Piece::finalize` puts a piece together, and when it writes past its buffer.
use picotor.Base.{
  ℕ, ◌+◌, ◌≤◌, ◌<◌, ◌≡◌, refl, sym, ap, ap₂, ◌∙◌, true, false, List, [], ◌∷◌, ◌++◌, append_assoc,
  append-nil, none, some, arith, Bytes, length, length-append, length-drop, take, drop, take-append,
  drop-all, drop-drop, drop_past, take-append-drop, ltb, ltb→lt, ltb→le, lt→ltb, le→ltb, Bool-cases,
  inl, inr, Outcome, ok, fault, out_of_bounds, ◌>>=◌, fault-ne-ok, ok-injective,
}
use picotor.Stream.{Junk, scratch, length-scratch}
use picotor.Torrent.Block.{block_size, Store, contents}
use picotor.Torrent.CompletePiece.{CompletePiece}
use picotor.Torrent.Piece.{Piece, copy_blocks, finalize}

-- The data of the blocks, one behind the other.
abbrev pub joined : Store → List ℕ → Bytes
joined h [] = []
joined h (ptr ∷ ptrs) = contents (h.cell ptr) ++ joined h ptrs

module _ (h : Store) where
  -- One round: behind a front that is written, a block that fits is put in front of the rest.
  copy_blocks-round :
      (ptr : ℕ) (ptrs : List ℕ) (position : ℕ) (front back : Bytes)
      → position ≡ length front
      → length (contents (h.cell ptr)) ≤ length back
      → copy_blocks h (ptr ∷ ptrs) position (front ++ back)
        ≡ copy_blocks h ptrs
            (position + length (contents (h.cell ptr)))
            ((front ++ contents (h.cell ptr)) ++ drop (length (contents (h.cell ptr))) back)
  unfolding copy_blocks
  copy_blocks-round ptr ptrs position front back e fits =
      let b = contents (h.cell ptr) in
      let room : ltb (length (front ++ back)) (position + length b) ≡ false =
        le→ltb _ _ (omega (arith, length-append front back)) in
      let at : take position (front ++ back) ≡ front = take-append position front back (sym e) in
      let beyond : drop (position + length b) (front ++ back) ≡ drop (length b) back =
        ap (λ n. drop (n + length b) (front ++ back)) e ∙ drop_past (length b) front back in
      rw room (
        ap (copy_blocks h ptrs (position + length b))
          (ap₂ (λ s t. s ++ (b ++ t)) at beyond ∙ sym (append_assoc front b _)))

  copy_blocks-fits :
      (ptrs : List ℕ) (position : ℕ) (front back : Bytes)
      → position ≡ length front
      → length (joined h ptrs) ≤ length back
      → copy_blocks h ptrs position (front ++ back)
        ≡ ok (front ++ (joined h ptrs ++ drop (length (joined h ptrs)) back))
  unfolding copy_blocks
  copy_blocks-fits [] position front back e fits = refl
  copy_blocks-fits (ptr ∷ ptrs) position front back e fits =
      let b = contents (h.cell ptr) in
      let total = length-append b (joined h ptrs) in
      copy_blocks-round ptr ptrs position front back e (omega (arith, total))
      ∙ copy_blocks-fits ptrs (position + length b) (front ++ b) (drop (length b) back)
          (omega (arith, length-append front b)) (omega (arith, total, length-drop (length b) back))
      ∙ ap ok (
          append_assoc front b _
          ∙ ap (◌++◌ front) (
              sym (append_assoc b (joined h ptrs) _)
              ∙ ap (◌++◌ (b ++ joined h ptrs)) (
                  drop-drop (length b) (length (joined h ptrs)) back
                  ∙ ap (λ n. drop n back) (sym total))))

  copy_blocks-overflow :
      (ptrs : List ℕ) (position : ℕ) (front back : Bytes)
      → position ≡ length front
      → length back < length (joined h ptrs)
      → copy_blocks h ptrs position (front ++ back) ≡ fault out_of_bounds
  unfolding copy_blocks
  copy_blocks-overflow [] position front back e long = absurd (omega arith)
  copy_blocks-overflow (ptr ∷ ptrs) position front back e long =
      let b = contents (h.cell ptr) in
      let total = length-append b (joined h ptrs) in
      elim (Bool-cases (ltb (length back) (length b))) [
        | inl now ↦
            let past : ltb (length (front ++ back)) (position + length b) ≡ true =
              lt→ltb _ _
                (omega (arith, length-append front back, ltb→lt (length back) (length b) now)) in
            rw past
        | inr later ↦
            copy_blocks-round ptr ptrs position front back e (ltb→le _ _ later)
            ∙ copy_blocks-overflow ptrs (position + length b) (front ++ b) (drop (length b) back)
                (omega (arith, length-append front b))
                (omega (
                  arith,
                  total,
                  length-drop (length b) back,
                  ltb→le (length back) (length b) later,
                ))
      ]

-- What a piece is put together to.
abbrev pub assembled : Junk → Store → Piece → CompletePiece
assembled junk h p = record {
  bytes = joined h p.blocks ++ drop (length (joined h p.blocks)) (scratch junk 0 p.piece_size);
  piece_index = p.index;
  size = p.piece_size;
}

finalize-copy_blocks :
    (junk : Junk) (h : Store) (p : Piece)
    → p.finalized ≡ none
    → {r : Outcome Bytes} → copy_blocks h p.blocks 0 (scratch junk 0 p.piece_size) ≡ r
    → finalize junk h p ≡ (do
      bytes ← r
      let done : CompletePiece = record {
        bytes = bytes;
        piece_index = p.index;
        size = p.piece_size;
      }
      ok (done, record p { finalized = some done }))
unfolding finalize
finalize-copy_blocks junk h p e c = rw (e, c)

-- `finalize` of a piece with no cached result gives the blocks' data in order and then what the fresh
-- buffer held, if the blocks hold no more than the piece has room for; it keeps the result.
pub finalize-fits :
    (junk : Junk) (h : Store) (p : Piece)
    → p.finalized ≡ none
    → length (joined h p.blocks) ≤ p.piece_size
    → finalize junk h p
      ≡ ok (assembled junk h p, record p { finalized = some (assembled junk h p) })
finalize-fits junk h p e fits = finalize-copy_blocks junk h p e (
    copy_blocks-fits h p.blocks 0 [] (scratch junk 0 p.piece_size) refl
      (omega (arith, length-scratch junk 0 p.piece_size)))

-- If they hold more, it writes past the end of its buffer.
pub finalize-overflow :
    (junk : Junk) (h : Store) (p : Piece)
    → p.finalized ≡ none
    → p.piece_size < length (joined h p.blocks)
    → finalize junk h p ≡ fault out_of_bounds
finalize-overflow junk h p e long = finalize-copy_blocks junk h p e (
    copy_blocks-overflow h p.blocks 0 [] (scratch junk 0 p.piece_size) refl
      (omega (arith, length-scratch junk 0 p.piece_size)))

-- A second call gives the cached result.
pub finalize-cached :
    (junk : Junk) (h : Store) (p : Piece) (done : CompletePiece)
    → p.finalized ≡ some done
    → finalize junk h p ≡ ok (done, p)
unfolding finalize
finalize-cached junk h p done e = rw e

-- The blocks hold a text cut at the multiples of the block size.
abbrev pub Holds : Store → List ℕ → Bytes → Type 0
Holds h [] text = text ≡ []
Holds h (ptr ∷ ptrs) text =
    (contents (h.cell ptr) ≡ take block_size text) × Holds h ptrs (drop block_size text)

joined-Holds : (h : Store) (ptrs : List ℕ) (text : Bytes) → Holds h ptrs text → joined h ptrs ≡ text
joined-Holds h [] text e = sym e
joined-Holds h (ptr ∷ ptrs) text (e, rest) =
    ap₂ ◌++◌ e (joined-Holds h ptrs (drop block_size text) rest) ∙ take-append-drop block_size text

-- A piece whose blocks hold the slices of a text of its size is put together to that text.
pub finalize-Holds :
    (junk : Junk) (h : Store) (p : Piece) (text : Bytes)
    → p.finalized ≡ none
    → length text ≡ p.piece_size
    → Holds h p.blocks text
    → let done : CompletePiece = record {
      bytes = text;
      piece_index = p.index;
      size = p.piece_size;
    } in
      finalize junk h p ≡ ok (done, record p { finalized = some done })
finalize-Holds junk h p text e size held =
    let all = joined-Holds h p.blocks text held in
    finalize-fits junk h p e (omega (arith, ap length all, size))
    ∙ ap
        (λ (b : Bytes).
          let done : CompletePiece = record {
            bytes = b;
            piece_index = p.index;
            size = p.piece_size;
          } in
          ok (done, record p { finalized = some done }))
        (ap₂ ◌++◌ all (
            drop-all (length (joined h p.blocks)) (scratch junk 0 p.piece_size)
              (omega (arith, ap length all, size, length-scratch junk 0 p.piece_size)))
          ∙ append-nil text)

-- The result is of this piece, and the piece keeps its index.
pub finalize-index :
    (junk : Junk) (h : Store) (p p' : Piece) (done : CompletePiece)
    → p.finalized ≡ none
    → finalize junk h p ≡ ok (done, p')
    → (done.piece_index ≡ p.index) × (done.size ≡ p.piece_size) × (p'.index ≡ p.index)
finalize-index junk h p p' done e r =
    elim (Bool-cases (ltb p.piece_size (length (joined h p.blocks)))) [
      | inl long ↦ absurd (fault-ne-ok (sym (finalize-overflow junk h p e (ltb→lt _ _ long)) ∙ r))
      | inr fits ↦
          let same = ok-injective (sym (finalize-fits junk h p e (ltb→le _ _ fits)) ∙ r) in
          (
            sym (ap (λ (x : CompletePiece × Piece). x.0.piece_index) same),
            sym (ap (λ (x : CompletePiece × Piece). x.0.size) same),
            sym (ap (λ (x : CompletePiece × Piece). x.1.index) same),
          )
    ]

-- The data of the result has the size of the piece.
pub finalize-size :
    (junk : Junk) (h : Store) (p p' : Piece) (done : CompletePiece)
    → p.finalized ≡ none
    → finalize junk h p ≡ ok (done, p')
    → length done.bytes ≡ p.piece_size
finalize-size junk h p p' done e r =
    elim (Bool-cases (ltb p.piece_size (length (joined h p.blocks)))) [
      | inl long ↦ absurd (fault-ne-ok (sym (finalize-overflow junk h p e (ltb→lt _ _ long)) ∙ r))
      | inr fits ↦
          let less = ltb→le p.piece_size (length (joined h p.blocks)) fits in
          let same =
            ap (λ (x : CompletePiece × Piece). length x.0.bytes)
              (ok-injective (sym (finalize-fits junk h p e less) ∙ r)) in
          omega (
            arith,
            same,
            less,
            length-append (joined h p.blocks)
                (drop (length (joined h p.blocks)) (scratch junk 0 p.piece_size)),
            length-drop (length (joined h p.blocks)) (scratch junk 0 p.piece_size),
            length-scratch junk 0 p.piece_size,
          )
    ]
