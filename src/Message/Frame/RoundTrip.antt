-- ===== src/Message/Frame/RoundTrip.antt =====
-- Messages on the wire.
use picotor.Base.{
  ℕ, ◌+◌, ◌-◌, ◌%◌, ◌≤◌, ◌<◌, ◌≡◌, refl, ap, ◌∙◌, [], ◌∷◌, ◌++◌, some, arith, Bytes, length, min,
  ok,
}
use picotor.Common.Words.{
  u32_mod, push_bytes, word_bytes, swap32, load32, big_endian, word_bytes-swap32, push_bytes-append,
  swap32-load32,
}
use picotor.Torrent.Block.{Block, block_size}
use picotor.Torrent.Piece.{Piece}
use picotor.Message.Kind.{MessageType, code_of, try_from-code_of}
use picotor.Message.Frame.{Message, parse, request, request_len, serialize}

-- A message of a known type that fits into a frame is sent as a length in network order and a body;
-- the receiver finds the length of the body in front, and reads the message back from the body.
pub parse-serialize :
    (t : MessageType) (payload : Bytes)
    → length payload + 1 < u32_mod
    → let m : Message = record { kind = some t; payload = payload } in
      (front : Bytes) × (body : Bytes) × (serialize m ≡ ok (front ++ body))
      × (length front ≡ 4)
      × (swap32 (load32 front) ≡ length body)
      × (parse body ≡ ok m)
unfolding serialize parse
parse-serialize t payload h =
    let n = length payload + 1 in
    let small : n % u32_mod ≡ n = omega arith in
    (
      big_endian n,
      code_of t ∷ payload,
      ap (λ (k : ℕ). ok (word_bytes (swap32 k) ++ (code_of t ∷ payload))) small
          ∙ ap (λ (w : Bytes). ok (w ++ (code_of t ∷ payload))) (word_bytes-swap32 n),
      refl,
      swap32-load32 n [] h ∙ omega arith,
      rw (try_from-code_of t),
    )

push_words :
    (x y z : ℕ)
    → push_bytes (push_bytes (push_bytes [] (swap32 x)) (swap32 y)) (swap32 z)
      ≡ big_endian x ++ (big_endian y ++ big_endian z)
push_words x y z = simp (push_bytes-append, word_bytes-swap32)

request_len-inside :
    (p : Piece) (b : Block)
    → p.piece_size < u32_mod
    → b.offset < p.piece_size
    → request_len p b ≡ min (p.piece_size - b.offset) block_size
unfolding request_len
request_len-inside p b h k = ap (λ n. min n block_size) (omega arith)

-- A request names the piece, the offset of the block in it, and how many bytes to send, each in
-- network order; for a block inside the piece this is the rest of the piece or a full block.
pub request-payload :
    (p : Piece) (b : Block)
    → p.piece_size < u32_mod
    → b.offset < p.piece_size
    → ((request p b).payload
        ≡ big_endian p.index
          ++ (big_endian b.offset ++ big_endian (min (p.piece_size - b.offset) block_size)))
      × (b.offset + request_len p b ≤ p.piece_size)
      × (0 < request_len p b)
unfolding request
request-payload p b h k =
    let exact : request_len p b ≡ min (p.piece_size - b.offset) block_size =
      request_len-inside p b h k in
    (
      push_words p.index b.offset (request_len p b)
          ∙ ap (λ n. big_endian p.index ++ (big_endian b.offset ++ big_endian n)) exact,
      omega (arith, exact),
      omega (arith, exact),
    )
