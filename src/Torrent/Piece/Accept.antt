-- ===== src/Torrent/Piece/Accept.antt =====
-- What `Piece::accept` does with each payload.
use picotor.Base.{
  ℕ, ◌+◌, ◌/◌, ◌^◌, ◌≤◌, ◌<◌, ◌≡◌, ◌≢◌, refl, sym, ap, ap₂, ◌∙◌, true, false, not, [], ◌∷◌, ◌++◌,
  append-nil, some, arith, Bytes, length, drop, get_elem?, ◌==◌, ltb, take-append, Option-cases,
  le→ltb, ==_iff, ◌⊎◌, lt→ltb, Bool-cases, inl, inr,
}
use picotor.Stream.{Junk, scratch, Stream, stream, read, read-append}
use picotor.Common.Words.{u32_mod, big_endian, swap32-load32}
use picotor.Torrent.Block.{block_size, accepted, too_much_data, contents, fill, Store}
use picotor.Torrent.Piece.{Piece, Header, read_header, data_len, fill_at, accept_block, accept}

-- The payload of a `Piece` message: the piece, the offset in it, and the bytes.
abbrev pub payload_of : ℕ → ℕ → Bytes → Bytes
payload_of index offset bytes = big_endian index ++ (big_endian offset ++ bytes)

pub read_header-payload_of :
    (junk : Junk) (index offset : ℕ) (bytes : Bytes)
    → index < u32_mod
    → offset < u32_mod
    → read_header junk (payload_of index offset bytes)
      ≡ record { piece_index = index; block_index = offset / block_size; rest = stream bytes }
unfolding read_header scratch
read_header-payload_of junk index offset bytes hi ho =
    rw
      (
        read-append 4 (junk 0 ∷ junk (0 + 1) ∷ junk (0 + 1 + 1) ∷ junk (0 + 1 + 1 + 1) ∷ [])
            (big_endian index) (big_endian offset ++ bytes) refl,
        read-append 4 (junk 4 ∷ junk (4 + 1) ∷ junk (4 + 1 + 1) ∷ junk (4 + 1 + 1 + 1) ∷ [])
            (big_endian offset) bytes refl,
      )
      (rw (swap32-load32 index [] hi, swap32-load32 offset [] ho) refl)

read_all :
    (n : ℕ) (buffer bytes : Bytes)
    → length bytes ≡ n
    → (read n buffer (stream bytes)).0 ≡ bytes ++ drop n buffer
read_all n buffer bytes e =
    ap (λ b. (read n buffer (stream b)).0) (sym (append-nil bytes))
    ∙ ap (λ (r : Bytes × Stream). r.0) (read-append n buffer bytes [] e)

pub fill_at-other :
    (h : Store) (ptr q : ℕ) (ss : Stream) (len : ℕ)
    → q ≢ ptr
    → (fill_at h ptr ss len).1.cell q ≡ h.cell q
unfolding fill_at
fill_at-other h ptr q ss len ne = ground arith

fill_at-filled :
    (h : Store) (ptr q : ℕ) (ss : Stream) (len : ℕ)
    → (h.cell q).filled ≡ true
    → (fill_at h ptr ss len).1.cell q ≡ h.cell q
unfolding fill_at fill
fill_at-filled h ptr q ss len e = ground arith

-- Either nothing is written and the payload is refused, or one block of the piece is given it.
accept_block_cases :
    (h : Store) (p : Piece) (header : Header) (len : ℕ)
    → (((accept_block h p header len).1 ≡ h) × ((accept_block h p header len).0.0 ≢ accepted))
      ⊎ ((ptr : ℕ) × (get_elem? p.blocks header.block_index ≡ some ptr)
          × (accept_block h p header len ≡ (
            ((fill_at h ptr header.rest len).0, header.block_index),
            (fill_at h ptr header.rest len).1,
          )))
unfolding accept_block
accept_block_cases h p header len = elim (Bool-cases (ltb block_size len)) [
  | inl long ↦ rw long (inl (refl, λ e. cc))
  | inr fits ↦ rw fits (elim (Bool-cases (not (header.piece_index == p.index))) [
    | inl wrong ↦ rw wrong (inl (refl, λ e. cc))
    | inr right ↦ rw right (elim (Option-cases (get_elem? p.blocks header.block_index)) [
      | inl missing ↦ rw missing (inl (refl, λ e. cc))
      | inr (ptr, found) ↦ rw found (inr (ptr, refl, refl))
    ])
  ])
]

-- `accept` refuses a payload and changes nothing; or the block of the piece at the index that the
-- payload names is given the payload's data, and its status and that index are returned.
pub accept_cases :
    (junk : Junk) (h : Store) (p : Piece) (payload : Bytes)
    → (((accept junk h p payload).1 ≡ h) × ((accept junk h p payload).0.0 ≢ accepted))
      ⊎ ((ptr : ℕ) × (get_elem? p.blocks (read_header junk payload).block_index ≡ some ptr)
          × (accept junk h p payload ≡ (
            (
              (fill_at h ptr (read_header junk payload).rest (data_len payload)).0,
              (read_header junk payload).block_index,
            ),
            (fill_at h ptr (read_header junk payload).rest (data_len payload)).1,
          )))
unfolding accept
accept_cases junk h p payload = accept_block_cases h p (read_header junk payload) (data_len payload)

-- A block that is filled keeps its data: no later payload, of any form, changes it.
pub accept-filled :
    (junk : Junk) (h : Store) (p : Piece) (payload : Bytes) (q : ℕ)
    → (h.cell q).filled ≡ true
    → (accept junk h p payload).1.cell q ≡ h.cell q
accept-filled junk h p payload q e = elim (accept_cases junk h p payload) [
  | inl (same, _) ↦ rw same
  | inr (ptr, _, given) ↦ rw given (fill_at-filled h ptr q _ _ e)
]

data_len-payload_of :
    (index offset : ℕ) (bytes : Bytes)
    → length bytes < 2 ^ 31
    → data_len (payload_of index offset bytes) ≡ length bytes
data_len-payload_of index offset bytes h = omega arith

accept_block-fill_at :
    (h : Store) (p : Piece) (at ptr : ℕ) (bytes : Bytes)
    → length bytes ≤ block_size
    → get_elem? p.blocks at ≡ some ptr
    → accept_block h p
        (record { piece_index = p.index; block_index = at; rest = stream bytes })
        (length bytes)
      ≡ (
        ((fill_at h ptr (stream bytes) (length bytes)).0, at),
        (fill_at h ptr (stream bytes) (length bytes)).1,
      )
unfolding accept_block
accept_block-fill_at h p at ptr bytes fits found =
    let small : ltb block_size (length bytes) ≡ false = le→ltb _ _ fits in
    let same : (p.index == p.index) ≡ true = (==_iff _ _).1 refl in rw (small, same) (rw found refl)

accept-fill_at :
    (junk : Junk) (h : Store) (p : Piece) (offset ptr : ℕ) (bytes : Bytes)
    → p.index < u32_mod
    → offset < u32_mod
    → length bytes ≤ block_size
    → get_elem? p.blocks (offset / block_size) ≡ some ptr
    → accept junk h p (payload_of p.index offset bytes) ≡ (
      ((fill_at h ptr (stream bytes) (length bytes)).0, offset / block_size),
      (fill_at h ptr (stream bytes) (length bytes)).1,
    )
unfolding accept
accept-fill_at junk h p offset ptr bytes hi ho fits found =
    ap₂ (accept_block h p) (read_header-payload_of junk p.index offset bytes hi ho)
      (data_len-payload_of p.index offset bytes (omega arith))
    ∙ accept_block-fill_at h p (offset / block_size) ptr bytes fits found

fill_at-fills :
    (h : Store) (ptr : ℕ) (bytes : Bytes)
    → (h.cell ptr).filled ≡ false
    → let (status, h') = fill_at h ptr (stream bytes) (length bytes) in
      (status ≡ accepted)
      × (contents (h'.cell ptr) ≡ bytes)
      × ((h'.cell ptr).filled ≡ true)
      × ((h'.cell ptr).offset ≡ (h.cell ptr).offset)
unfolding fill_at fill
fill_at-fills h ptr bytes empty =
    let got = read_all (length bytes) (h.cell ptr).buffer bytes refl in
    let self : (ptr == ptr) ≡ true = (==_iff _ _).1 refl in
    rw (empty, self, got) (refl, take-append (length bytes) bytes _ refl, refl, refl)

-- A payload for this piece that fits, at an offset of a block that was started and is not filled, is
-- accepted: that block holds its bytes and is filled, with its offset unchanged, and no other block
-- changes.
pub accept-fills :
    (junk : Junk) (h : Store) (p : Piece) (offset ptr : ℕ) (bytes : Bytes)
    → p.index < u32_mod
    → offset < u32_mod
    → length bytes ≤ block_size
    → get_elem? p.blocks (offset / block_size) ≡ some ptr
    → (h.cell ptr).filled ≡ false
    → let ((status, at), h') = accept junk h p (payload_of p.index offset bytes) in
      (status ≡ accepted)
      × (at ≡ offset / block_size)
      × (contents (h'.cell ptr) ≡ bytes)
      × ((h'.cell ptr).filled ≡ true)
      × ((h'.cell ptr).offset ≡ (h.cell ptr).offset)
      × ((q : ℕ) → q ≢ ptr → h'.cell q ≡ h.cell q)
accept-fills junk h p offset ptr bytes hi ho fits found empty =
    let (status, held, filled, kept) = fill_at-fills h ptr bytes empty in
    rw (accept-fill_at junk h p offset ptr bytes hi ho fits found)
      (status, refl, held, filled, kept, λ q. fill_at-other h ptr q (stream bytes) (length bytes))

-- A payload with no room for the header is refused, whatever its unread variables held.
pub accept_short :
    (junk : Junk) (h : Store) (p : Piece) (payload : Bytes)
    → length payload < 8
    → ((accept junk h p payload).0.0 ≡ too_much_data) × ((accept junk h p payload).1 ≡ h)
unfolding accept accept_block
accept_short junk h p payload short =
    let long : ltb block_size (data_len payload) ≡ true = lt→ltb _ _ (omega arith) in
    rw long (refl, refl)
