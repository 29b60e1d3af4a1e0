-- ===== src/Torrent/Piece/Assembly.antt =====
-- `Piece` of include/torrent.hpp: a piece that is built from blocks in any order.
use picotor.Base.{
  ℕ, zero, suc, ◌+◌, ◌*◌, ◌/◌, ◌≤◌, ◌<◌, ◌≡◌, refl, sym, ap, subst, ◌∙◌, true, List, [], ◌∷◌, some,
  arith, Bytes, length, drop, drop-drop, drop-all, get_elem?, ok,
}
use picotor.Stream.{Junk}
use picotor.Common.Words.{u32_mod}
use picotor.Torrent.Block.{block_size, contents, Store, write, release}
use picotor.Torrent.CompletePiece.{CompletePiece}
use picotor.Torrent.Piece.{Piece, new_piece, accept, next_block, all_filled, is_complete, finalize}
use picotor.Torrent.Piece.Count.{block_count_bounds}
use picotor.Torrent.Piece.Accept.{payload_of}
use picotor.Torrent.Piece.Finalize.{Holds, finalize-Holds}
use picotor.Torrent.Piece.Built.{
  slice, IsBuilt, receive-IsBuilt, give_up-IsBuilt, begin-IsBuilt, ask-IsBuilt,
}

-- A piece of the text and the store, after any calls of `next_block`, any releases of blocks, and any
-- payloads for the piece, each with the data of the block that its offset names.
pub data Builds (text : Bytes) : Store → Piece → Type 0 where
  begin : (h : Store) (index : ℕ) → index < u32_mod → Builds text h (new_piece index (length text))
  ask :
      {h : Store} {p : Piece} → Builds text h p → Builds text (next_block h p).2 (next_block h p).1
  give_up :
      {h : Store} {p : Piece}
      → Builds text h p
      → (ptr : ℕ) → Builds text (write h ptr (release (h.cell ptr))) p
  receive :
      {h : Store} {p : Piece}
      → Builds text h p
      → (junk : Junk) (offset : ℕ) → offset < u32_mod
      → Builds text
          (accept junk h p (payload_of p.index offset (slice text (offset / block_size)))).1
          p

pub Builds-IsBuilt :
    (text : Bytes) (h : Store) (p : Piece)
    → length text < u32_mod
    → Builds text h p
    → IsBuilt text h p
Builds-IsBuilt text h p small (begin _ index known) = begin-IsBuilt text h index small known
Builds-IsBuilt text h p small (ask {h = g} {p = q} b) =
    ask-IsBuilt text g q (Builds-IsBuilt text g q small b)
Builds-IsBuilt text h p small (give_up {h = g} b ptr) =
    give_up-IsBuilt text g p ptr (Builds-IsBuilt text g p small b)
Builds-IsBuilt text h p small (receive {h = g} b junk offset ho) =
    receive-IsBuilt text junk g p offset ho (Builds-IsBuilt text g p small b)

all_filled-get :
    (h : Store) (ptrs : List ℕ) (i q : ℕ)
    → all_filled h ptrs ≡ true
    → get_elem? ptrs i ≡ some q
    → (h.cell q).filled ≡ true
unfolding all_filled
all_filled-get h [] i q all e = cc
all_filled-get h (ptr ∷ ptrs) zero q all e = ground arith
all_filled-get h (ptr ∷ ptrs) (suc i) q all e = all_filled-get h ptrs i q (ground arith) e

-- Blocks that hold the slices from block `k` on hold the text from there on.
slices-Holds :
    (text : Bytes) (h : Store) (ptrs : List ℕ) (k : ℕ)
    → ((i q : ℕ) → get_elem? ptrs i ≡ some q → contents (h.cell q) ≡ slice text (k + i))
    → length text ≤ (k + length ptrs) * block_size
    → Holds h ptrs (drop (k * block_size) text)
slices-Holds text h [] k right long = drop-all (k * block_size) text (omega arith)
slices-Holds text h (ptr ∷ ptrs) k right long = (
  right 0 ptr refl ∙ ap (slice text) (omega arith),
  subst (Holds h ptrs)
      (ap (λ n. drop n text) (omega arith) ∙ sym (drop-drop (k * block_size) block_size text))
      (slices-Holds text h ptrs (suc k) (λ i q e. right (suc i) q e ∙ ap (slice text) (omega arith))
        (omega arith)),
)

-- However a piece of a text is built, with its blocks asked for, given up and received in any order
-- and any number of times, each payload with the data of the block that it names: when it is complete,
-- `finalize` gives the text.
pub finalize-Builds :
    (text : Bytes) (junk : Junk) (h : Store) (p : Piece)
    → length text < u32_mod
    → Builds text h p
    → is_complete h p ≡ true
    → let done : CompletePiece = record {
      bytes = text;
      piece_index = p.index;
      size = p.piece_size;
    } in
      finalize junk h p ≡ ok (done, record p { finalized = some done })
unfolding is_complete
finalize-Builds text junk h p small b complete =
    let v = Builds-IsBuilt text h p small b in
    let long : length text ≤ (0 + length p.blocks) * block_size =
      ground (arith, block_count_bounds p, v.size) in
    finalize-Holds junk h p text v.open_ (sym v.size) (
      slices-Holds text h p.blocks 0
        (λ i q e.
          v.right i q e (all_filled-get h p.blocks i q (ground arith) e)
          ∙ ap (slice text) (omega arith))
        long)

pub Builds-size :
    (text : Bytes) (h : Store) (p : Piece)
    → length text < u32_mod
    → Builds text h p
    → p.piece_size ≡ length text
Builds-size text h p small b = (Builds-IsBuilt text h p small b).size
