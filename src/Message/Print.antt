-- ===== src/Message/Print.antt =====
-- `Message::to_string`.
use picotor.Base.{ℕ, ◌+◌, ◌-◌, ◌%◌, ◌<◌, ◌≡◌, refl, ap, [], ◌∷◌, ◌++◌, none, some, Bytes, codes}
use picotor.Stream.{Junk, scratch, stream, read, read-append}
use picotor.Common.Words.{u32_mod, load32, swap32, big_endian, swap32-load32}
use picotor.Common.Decimal.{to_decimal}
use picotor.Common.Urlencode.{urlencode}
use picotor.Torrent.Block.{block_size}
use picotor.Message.Kind.{MessageType, request, piece, type_to_string}
use picotor.Message.Frame.{Message}

-- The two numbers that are read from the payload; a short one leaves them as they were found.
unfoldable pub read_numbers : Junk → Bytes → ℕ × ℕ
read_numbers junk payload =
    let (index, s1) = read 4 (scratch junk 0 4) (stream payload) in
    let (offset, s2) = read 4 (scratch junk 4 4) s1 in
    (swap32 (load32 index), swap32 (load32 offset))

-- `offset + BLOCK_SIZE - 1`, in 32 bits: the last byte of a full block, whatever is asked for.
unfoldable pub print_range : ℕ × ℕ → Bytes
print_range (index, offset) =
    to_decimal index
    ++ b',' ∷ (to_decimal offset ++ b'-' ∷ to_decimal ((offset + block_size - 1) % u32_mod))

unfoldable pub print_payload : Junk → MessageType → Bytes → Bytes
print_payload junk piece payload = print_range (read_numbers junk payload)
print_payload junk request payload = print_range (read_numbers junk payload)
print_payload junk _ payload = urlencode payload

unfoldable pub to_string : Junk → Message → Bytes
to_string junk m = elim m.kind [
  | some t ↦ (type_to_string t ++ b'{' ∷ print_payload junk t m.payload) ++ b'}' ∷ []
  | none ↦ codes "UNKNOWN{" ++ (urlencode m.payload ++ b'}' ∷ [])
]

read_numbers_lem :
    (junk : Junk) (index offset : ℕ) (rest : Bytes)
    → index < u32_mod
    → offset < u32_mod
    → read_numbers junk (big_endian index ++ (big_endian offset ++ rest)) ≡ (index, offset)
unfolding read_numbers scratch
read_numbers_lem junk index offset rest hi ho =
    rw
      (
        read-append 4 (junk 0 ∷ junk (0 + 1) ∷ junk (0 + 1 + 1) ∷ junk (0 + 1 + 1 + 1) ∷ [])
            (big_endian index) (big_endian offset ++ rest) refl,
        read-append 4 (junk 4 ∷ junk (4 + 1) ∷ junk (4 + 1 + 1) ∷ junk (4 + 1 + 1 + 1) ∷ [])
            (big_endian offset) rest refl,
      )
      (rw (swap32-load32 index [] hi, swap32-load32 offset [] ho))

-- A request or a piece prints as its index and the range of a full block from its offset on.
pub to_string-range :
    (junk : Junk) (index offset : ℕ) (rest : Bytes)
    → index < u32_mod
    → offset < u32_mod
    → let payload = big_endian index ++ (big_endian offset ++ rest) in
      let range =
        to_decimal index
        ++ b',' ∷ (to_decimal offset ++ b'-' ∷ to_decimal ((offset + block_size - 1) % u32_mod)) in
      (to_string junk (record { kind = some request; payload = payload })
        ≡ (codes "Request{" ++ range) ++ b'}' ∷ [])
      × (to_string junk (record { kind = some piece; payload = payload })
          ≡ (codes "Piece{" ++ range) ++ b'}' ∷ [])
unfolding to_string print_payload print_range type_to_string
to_string-range junk index offset rest hi ho =
    let e = read_numbers_lem junk index offset rest hi ho in
    (
      ap (λ r. (codes "Request{" ++ print_range r) ++ b'}' ∷ []) e,
      ap (λ r. (codes "Piece{" ++ print_range r) ++ b'}' ∷ []) e,
    )
