-- ===== src/Torrent/Piece/Built.antt =====
-- `Piece` of include/torrent.hpp: what its operations keep of the data that was received.
use native.Mathlib.Decide.{ℕ_discrete}
use picotor.Base.{
  ℕ, zero, suc, ◌*◌, ◌/◌, ◌≤◌, ◌<◌, ◌≡◌, refl, sym, ap, subst, ◌∙◌, true, false, List, [], ◌∷◌,
  ◌++◌, none, some, arith, Bytes, All, length, length-take, take, drop, get_elem?, ltb, Bool-cases,
  Option-cases, inl, inr, ◌⊎◌,
}
use picotor.Stream.{Junk}
use picotor.Common.Words.{u32_mod}
use picotor.Torrent.Block.{
  block_size, BlockStatus, Block, contents, fill, Store, write, release, make_shared, new_block,
}
use picotor.Torrent.Piece.{
  Piece, Header, new_piece, block_count, read_header, data_len, fill_at, accept, find_open,
  next_block,
}
use picotor.Torrent.Piece.Accept.{
  payload_of, read_header-payload_of, fill_at-other, accept_cases, accept-filled, accept-fills,
}
use picotor.Torrent.Piece.NextBlock.{Offsets-same, Offsets-get, IsAligned, next_block_cases}

-- The data of block `i` of a text.
abbrev pub slice : Bytes → ℕ → Bytes
slice text i = take block_size (drop (i * block_size) text)

-- A piece whose filled blocks hold the right data.
pub record IsBuilt (text : Bytes) (h : Store) (p : Piece) : Type 0 where
  pub aligned : IsAligned h p
  pub open_ : p.finalized ≡ none
  pub size : p.piece_size ≡ length text
  pub index : p.index < u32_mod
  pub right :
      (i ptr : ℕ)
      → get_elem? p.blocks i ≡ some ptr
      → (h.cell ptr).filled ≡ true
      → contents (h.cell ptr) ≡ slice text i

accept-offset :
    (junk : Junk) (h : Store) (p : Piece) (payload : Bytes) (q : ℕ)
    → ((accept junk h p payload).1.cell q).offset ≡ (h.cell q).offset
unfolding fill_at fill
accept-offset junk h p payload q = elim (accept_cases junk h p payload) [
  | inl (same, _) ↦ ap (λ (s : Store). (s.cell q).offset) same
  | inr (ptr, _, e) ↦ ground (arith, ap (λ (r : (BlockStatus × ℕ) × Store). (r.1.cell q).offset) e)
]

accept-next :
    (junk : Junk) (h : Store) (p : Piece) (payload : Bytes)
    → (accept junk h p payload).1.next ≡ h.next
unfolding fill_at fill
accept-next junk h p payload = elim (accept_cases junk h p payload) [
  | inl (same, _) ↦ ap (λ (s : Store). s.next) same
  | inr (ptr, _, e) ↦ ground (arith, ap (λ (r : (BlockStatus × ℕ) × Store). r.1.next) e)
]

-- Cells with the same offsets.
IsAligned-same :
    (h h' : Store) (p : Piece)
    → h'.next ≡ h.next
    → ((q : ℕ) → (h'.cell q).offset ≡ (h.cell q).offset)
    → IsAligned h p
    → IsAligned h' p
IsAligned-same h h' p e same a = record {
  fresh = subst (λ n. All (λ ptr. ptr < n) p.blocks) (sym e) a.fresh;
  offsets = Offsets-same h h' h.next p.blocks 0 (λ q _. same q) a.fresh a.offsets;
  few = a.few;
  small = a.small;
}

-- A block that `accept` has filled is the one that the offset names, and holds the data.
receive-right :
    (text : Bytes) (junk : Junk) (h : Store) (p : Piece) (offset : ℕ)
    → offset < u32_mod
    → IsBuilt text h p
    → (i q : ℕ) → get_elem? p.blocks i ≡ some q
    → let h' = (accept junk h p (payload_of p.index offset (slice text (offset / block_size)))).1 in
      (h.cell q).filled ≡ false → (h'.cell q).filled ≡ true → contents (h'.cell q) ≡ slice text i
receive-right text junk h p offset ho v i q listed before after =
    let payload = payload_of p.index offset (slice text (offset / block_size)) in
    elim (accept_cases junk h p payload) [
      | inl (same, _) ↦ absurd (cc (before, after, ap (λ (s : Store). (s.cell q).filled) same))
      | inr (ptr, found, e) ↦ elim (ℕ_discrete q ptr) [
        | no other ↦ absurd (
            cc (
              before,
              after,
              ap (λ (r : (BlockStatus × ℕ) × Store). (r.1.cell q).filled) e,
              ap (λ (b : Block). b.filled)
                  (fill_at-other h ptr q (read_header junk payload).rest (data_len payload) other),
            ))
        | yes same ↦
            let k = offset / block_size in
            let at : get_elem? p.blocks k ≡ some q =
              sym (
                ap (λ (r : Header). get_elem? p.blocks r.block_index)
                  (read_header-payload_of junk p.index offset (slice text k) v.index ho))
              ∙ found
              ∙ ap some (sym same) in
            let place : k ≡ i = omega (
              arith,
              Offsets-get h q p.blocks 0 k v.aligned.offsets at,
              Offsets-get h q p.blocks 0 i v.aligned.offsets listed,
            ) in
            let short : length (slice text k) ≤ block_size =
              omega (arith, length-take block_size (drop (k * block_size) text)) in
            (accept-fills junk h p offset q (slice text k) v.index ho short at before).2
            ∙ ap (slice text) place
      ]
    ]

pub receive-IsBuilt :
    (text : Bytes) (junk : Junk) (h : Store) (p : Piece) (offset : ℕ)
    → offset < u32_mod
    → IsBuilt text h p
    → IsBuilt text
        (accept junk h p (payload_of p.index offset (slice text (offset / block_size)))).1
        p
receive-IsBuilt text junk h p offset ho v =
    let payload = payload_of p.index offset (slice text (offset / block_size)) in
    record {
      aligned =
          IsAligned-same h (accept junk h p payload).1 p (accept-next junk h p payload)
            (accept-offset junk h p payload) v.aligned;
      open_ = v.open_;
      size = v.size;
      index = v.index;
      right = λ i q listed after. elim (Bool-cases (h.cell q).filled) [
        | inl old ↦ ap contents (accept-filled junk h p payload q old) ∙ v.right i q listed old
        | inr new ↦ receive-right text junk h p offset ho v i q listed new after
      ];
    }

pub give_up-IsBuilt :
    (text : Bytes) (h : Store) (p : Piece) (ptr : ℕ)
    → IsBuilt text h p
    → IsBuilt text (write h ptr (release (h.cell ptr))) p
unfolding release
give_up-IsBuilt text h p ptr v = record {
  aligned =
      IsAligned-same h (write h ptr (release (h.cell ptr))) p refl (λ q. ground arith) v.aligned;
  open_ = v.open_;
  size = v.size;
  index = v.index;
  right = λ i q listed filled. ground (arith, v.right i q listed);
}

pub begin-IsBuilt :
    (text : Bytes) (h : Store) (index : ℕ)
    → length text < u32_mod
    → index < u32_mod
    → IsBuilt text h (new_piece index (length text))
unfolding new_piece
begin-IsBuilt text h index small known = record {
  aligned = record { fresh = tt; offsets = tt; few = omega arith; small = small };
  open_ = refl;
  size = refl;
  index = known;
  right = λ i q listed filled. cc;
}

last_or_before :
    (xs : List ℕ) (v i q : ℕ)
    → get_elem? (xs ++ v ∷ []) i ≡ some q
    → (get_elem? xs i ≡ some q) ⊎ (q ≡ v)
last_or_before [] v zero q e = inr (ground arith)
last_or_before [] v (suc i) q e = cc
last_or_before (x ∷ xs) v zero q e = inl e
last_or_before (x ∷ xs) v (suc i) q e = last_or_before xs v i q e

next_block-same :
    (h : Store) (p : Piece)
    → ((next_block h p).1.finalized ≡ p.finalized)
      × ((next_block h p).1.index ≡ p.index)
      × ((next_block h p).1.piece_size ≡ p.piece_size)
unfolding next_block
next_block-same h p = ground arith

next_block-IsAligned :
    (h : Store) (p : Piece) → IsAligned h p → IsAligned (next_block h p).2 (next_block h p).1
next_block-IsAligned h p a = elim (next_block_cases h p a) [
  | inl (ptr, _, given) ↦ given.aligned
  | inr (_, same, kept, _, _) ↦ rw (same, kept) a
]

-- A filled block after `next_block` was there before, with the same data.
next_block-filled :
    (h : Store) (p : Piece) (i q : ℕ)
    → get_elem? (next_block h p).1.blocks i ≡ some q
    → ((next_block h p).2.cell q).filled ≡ true
    → (get_elem? p.blocks i ≡ some q)
      × ((h.cell q).filled ≡ true)
      × (contents ((next_block h p).2.cell q) ≡ contents (h.cell q))
unfolding next_block make_shared new_block
next_block-filled h p i q listed filled =
    elim (Bool-cases (ltb (length p.blocks) (block_count p))) [
      | inl more ↦ elim (ℕ_discrete q h.next) [
        | yes fresh ↦ absurd (ground (arith, rw more at filled))
        | no other ↦ elim (last_or_before p.blocks h.next i q (rw more at listed)) [
          | inl before ↦ (before, ground arith, ground arith)
          | inr last ↦ absurd (other last)
        ]
      ]
      | inr all ↦ elim (Option-cases (find_open h p.blocks)) [
        | inl shut ↦ rw (all, shut) (rw (all, shut) at listed, rw (all, shut) at filled, refl)
        | inr (ptr, found) ↦ (rw (all, found) at listed, ground arith, ground arith)
      ]
    ]

pub ask-IsBuilt :
    (text : Bytes) (h : Store) (p : Piece)
    → IsBuilt text h p
    → IsBuilt text (next_block h p).2 (next_block h p).1
ask-IsBuilt text h p v =
    let (same_open, same_index, same_size) = next_block-same h p in
    record {
      aligned = next_block-IsAligned h p v.aligned;
      open_ = same_open ∙ v.open_;
      size = same_size ∙ v.size;
      index = subst (λ n. n < u32_mod) (sym same_index) v.index;
      right = λ i q listed filled.
          let (before, full, same) = next_block-filled h p i q listed filled in
          same ∙ v.right i q before full;
    }
