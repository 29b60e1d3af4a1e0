-- ===== src/Message/Handshake.antt =====
-- `Handshake`.
pub mod RoundTrip
use picotor.Base.{
  ℕ, zero, suc, ◌+◌, ◌%◌, ◌≤◌, ◌<◌, ◌≡◌, refl, Bool, true, false, List, [], ◌∷◌, ◌++◌, Option, none,
  some, arith, Bytes, codes, length, take, replicate, if◌then◌else◌, ◌==◌,
}
use picotor.Stream.{Junk, scratch, Stream, stream, read}
use picotor.Common.Hex.{is_space}
use picotor.Common.Hash.{Hash, hash_size}

abbrev pub bittorrent : Bytes
bittorrent = codes "BitTorrent protocol"

pub record Handshake : Type 0 where
  pub protocol_str : Bytes
  pub extensions : Bytes
  pub info_hash : Hash
  pub peer_id : Bytes

-- The constructor from a hash and an identifier.
unfoldable pub new_handshake : Hash → Bytes → Handshake
new_handshake hash id = record {
  protocol_str = bittorrent;
  extensions = replicate 8 0;
  info_hash = hash;
  peer_id = id;
}

-- `ss >> len` for an `uint8_t`: a formatted read of a character, which passes over white space. With
-- nothing left it fails, and the variable keeps what it held.
unfoldable pub extract_char : ℕ → Bytes → ℕ × Stream
extract_char old [] = (old, record { rest = []; good = false })
extract_char old (c ∷ s) =
    let next = extract_char old s in if is_space c then next else (c, stream s)

-- `get` until the end of the stream; after a read that failed the end is reached at once.
unfoldable pub drain : Stream → Bytes
drain ss = if ss.good then ss.rest else []

-- The constructor from received bytes. The protocol string is read and compared, and a difference is
-- only noted in the log; `junk` is what the variables `len`, `desc` and `hash` are found with.
unfoldable pub parse : Junk → Bytes → Handshake
parse junk bytes =
    let (len, s1) = extract_char (junk 0) bytes in
    let (desc, s2) = read len (scratch junk 1 len) s1 in
    let (extensions, s3) = read 8 (replicate 8 0) s2 in
    let (hash, s4) = read hash_size (scratch junk 256 hash_size) s3 in
    record {
      protocol_str = bittorrent;
      extensions = extensions;
      info_hash = record { bytes = hash };
      peer_id = drain s4;
    }

unfoldable pub serialise : Handshake → Bytes
serialise h =
    (length h.protocol_str % 256)
    ∷ (h.protocol_str ++ (h.extensions ++ (h.info_hash.bytes ++ h.peer_id)))
