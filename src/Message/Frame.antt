-- ===== src/Message/Frame.antt =====
-- `Message`: building, parsing and serialising.
pub mod RoundTrip
use picotor.Base.{
  ℕ, zero, suc, ◌+◌, ◌-◌, ◌%◌, ◌≤◌, ◌<◌, ◌≡◌, refl, Bool, true, false, List, [], ◌∷◌, ◌++◌, Option,
  none, some, arith, Bytes, codes, length, min, Outcome, ok, fault, out_of_range, failed_assert,
  or_fault, ◌>>=◌,
}
use picotor.Common.Words.{u32_mod, u64_mod, push_bytes, word_bytes, swap32}
use picotor.Torrent.Block.{Block, block_size}
use picotor.Torrent.Piece.{Piece}
use picotor.Message.Kind.{MessageType, code_of, try_from}
use picotor.Message.Kind

-- `kind` is the member `type`.
pub record Message : Type 0 where
  pub kind : Option MessageType
  pub payload : Bytes

-- The constructor from received bytes: `data.at(0)` throws where there is none.
unfoldable pub parse : Bytes → Outcome Message
parse [] = fault out_of_range
parse (c ∷ rest) = ok (record { kind = try_from c; payload = rest })

unfoldable pub interested : Message
interested = record { kind = some Kind.interested; payload = [] }

-- The length of a request: `std::min(piece.size() - block.offset(), BLOCK_SIZE)`, in 32 bits.
unfoldable pub request_len : Piece → Block → ℕ
request_len p b = min ((p.piece_size + u32_mod - b.offset) % u32_mod) block_size

unfoldable pub request : Piece → Block → Message
request p b = record {
  kind = some Kind.request;
  payload =
      push_bytes (push_bytes (push_bytes [] (swap32 p.index)) (swap32 b.offset))
        (swap32 (request_len p b));
}

-- The length in front counts the type and the payload. A message of no known type fails the assertion.
unfoldable pub serialize : Message → Outcome Bytes
serialize m = do
  ty ← or_fault m.kind failed_assert
  let len = swap32 ((length m.payload + 1) % u32_mod)
  ok (word_bytes len ++ (code_of ty ∷ m.payload))
