-- ===== src/Monitor/Place.antt =====
-- Where a complete piece is written.
use native.Mathlib.Decide.{dec_lt}
use picotor.Base.{
  ℕ, ◌+◌, ◌*◌, ◌≤◌, ◌<◌, ◌≡◌, ◌≢◌, ap, ◌∙◌, arith, Bytes, length, take, take-all, get_elem?, ap₂,
  inl, inr, ◌⊎◌,
}
use picotor.Common.Words.{u32_mod}
use picotor.Torrent.CompletePiece
use picotor.Torrent.CompletePiece.{CompletePiece}
use picotor.Torrent.Metainfo.{SingleFileTorrent, pieces}
use picotor.Monitor.{write_at}
use picotor.Monitor.Write.{length-write_at, write_at-before, write_at_within, write_at_after}

-- A torrent whose numbers fit.
pub record IsSmall (tor : SingleFileTorrent) : Type 0 where
  pub small : tor.file_length < u32_mod
  pub positive : 0 < tor.piece_length

-- A complete piece that is one of the pieces of the torrent, in its full size.
pub record IsSized (tor : SingleFileTorrent) (c : CompletePiece) : Type 0 where
  pub index : c.piece_index < pieces tor
  pub size : c.size ≡ tor.piece_length
  pub whole : length c.bytes ≡ tor.piece_length

pub pieces-le :
    (tor : SingleFileTorrent)
    → 0 < tor.piece_length
    → pieces tor * tor.piece_length ≤ tor.file_length
unfolding pieces
pieces-le tor h = grind arith

row_end : (l i j : ℕ) → i < j → i * l + l ≤ j * l
row_end l i j h = grind arith

-- Two pieces do not overlap.
apart : (l i j k : ℕ) → k < l → i ≢ j → (i * l + k < j * l) ⊎ (j * l + l ≤ i * l + k)
apart l i j k h ne = elim (dec_lt i j) [
  | yes less ↦ inl (omega (arith, row_end l i j less))
  | no more ↦ inr (omega (arith, row_end l j i (omega arith)))
]

module _ (tor : SingleFileTorrent) (d : IsSmall tor) where
  pub piece_end :
      (i : ℕ) → i < pieces tor → i * tor.piece_length + tor.piece_length ≤ tor.file_length
  piece_end i h = omega (arith, row_end tor.piece_length i (pieces tor) h, pieces-le tor d.positive)

  module _ (c : CompletePiece) (g : IsSized tor c) where
    offset_exact : CompletePiece.offset c ≡ c.piece_index * tor.piece_length
    unfolding CompletePiece.offset
    offset_exact =
        let e : c.piece_index * c.size ≡ c.piece_index * tor.piece_length =
          ap (◌*◌ c.piece_index) g.size in
        omega (arith, e, piece_end c.piece_index g.index, d.small, d.positive)

    bytes_exact : take c.size c.bytes ≡ c.bytes
    bytes_exact = take-all c.size c.bytes (omega (arith, g.size, g.whole))

    -- The write of the piece at its place.
    pub written : Bytes → Bytes
    written file = write_at file (c.piece_index * tor.piece_length) c.bytes

    pub write-written :
        (file : Bytes) → write_at file (CompletePiece.offset c) (take c.size c.bytes) ≡ written file
    unfolding written
    write-written file = ap₂ (write_at file) offset_exact bytes_exact

    module _ (file : Bytes) (size : length file ≡ tor.file_length) where
      fits : c.piece_index * tor.piece_length + length c.bytes ≤ length file
      fits = omega (arith, piece_end c.piece_index g.index, g.whole, size)

      pub length-written : length (written file) ≡ tor.file_length
      unfolding written
      length-written = length-write_at file _ c.bytes fits ∙ size

      pub written_self :
          (k : ℕ)
          → k < tor.piece_length
          → get_elem? (written file) (c.piece_index * tor.piece_length + k) ≡ get_elem? c.bytes k
      unfolding written
      written_self k h = write_at_within file _ c.bytes fits k (omega (arith, g.whole))

      pub written_other :
          (i k : ℕ)
          → k < tor.piece_length
          → i ≢ c.piece_index
          → get_elem? (written file) (i * tor.piece_length + k)
            ≡ get_elem? file (i * tor.piece_length + k)
      unfolding written
      written_other i k h ne = elim (apart tor.piece_length i c.piece_index k h ne) [
        | inl before ↦ write_at-before file _ c.bytes fits (i * tor.piece_length + k) before
        | inr after ↦
            write_at_after file _ c.bytes fits (i * tor.piece_length + k)
              (omega (arith, g.whole, after))
      ]

      pub written_tail :
          (j : ℕ)
          → pieces tor * tor.piece_length ≤ j
          → get_elem? (written file) j ≡ get_elem? file j
      unfolding written
      written_tail j h =
          write_at_after file _ c.bytes fits j
            (omega (arith, g.whole, row_end tor.piece_length c.piece_index (pieces tor) g.index))
